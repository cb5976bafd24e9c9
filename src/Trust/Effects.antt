-- ===== src/Trust/Effects.antt =====
-- What `pinKey` and `adoptPeerKeys` of client/js/app.js change of the state.
use lattix.Prelude.{
  ℕ, Text, same, same_iff, ◌≡◌, Bool, true, false, Option, none, some, arith, if◌then◌else◌,
  Option-cases, Bool-cases, inl, inr, refl,
}
use lattix.Prelude.Dict
use lattix.Prelude.Dict.{get-put, get-del}
use lattix.Trust.{Pin, Alert, changed, State, pin_key, save_pins, raise_alert, resolve_alert, judge}

-- What `pinKey` changes: one pin.
pub record Pinned (now : ℕ) (st : State) (u fp : Text) (verified : Bool) (t : State) : Type 0 where
  pub pins :
      (v : Text)
      → Dict.get t.pins v ≡ (
          if same u v
          then some (record { fp = fp; verified = verified; stamp = now })
          else Dict.get st.pins v)
  pub peers : t.peers ≡ st.peers
  pub alerts : t.alerts ≡ st.alerts
  pub identity : t.identity ≡ st.identity

module _ (now : ℕ) (st : State) (u fp : Text) (verified : Bool) where
  pub pin_key-Pinned : Pinned now st u fp verified (pin_key now st u fp verified)
  unfolding pin_key save_pins
  pin_key-Pinned = record {
    pins = λ v.
        ground (arith, get-put st.pins u (record { fp = fp; verified = verified; stamp = now }) v);
    peers = ground arith;
    alerts = ground arith;
    identity = ground arith;
  }

-- What adopting a key changes: only what is known of the contact, who is left trusted only if
-- the new key is the pinned one.
pub record Judged (st : State) (u fp : Text) (t : State) : Type 0 where
  pub pins : (v : Text) → same u v ≡ false → Dict.get t.pins v ≡ Dict.get st.pins v
  pub alerts : (v : Text) → same u v ≡ false → Dict.get t.alerts v ≡ Dict.get st.alerts v
  pub peers : t.peers ≡ st.peers
  pub identity : t.identity ≡ st.identity
  pub trusted :
      (pin : Pin)
      → Dict.get t.pins u ≡ some pin
      → pin.verified ≡ true
      → Dict.get t.alerts u ≡ none
      → pin.fp ≡ fp

module _ (now : ℕ) (st : State) (u fp : Text) where
  pin_key-Judged : Judged st u fp (pin_key now st u fp false)
  pin_key-Judged =
      let p = pin_key-Pinned now st u fp false in
      record {
        pins = λ v ne. ground (arith, p.pins v);
        alerts = λ v ne. ground (arith, p.alerts);
        peers = p.peers;
        identity = p.identity;
        trusted = λ pin hp hv ha. ground (arith, p.pins u, same_iff u u);
      }

  raise_alert-Judged :
      (pin : Pin) (prev : Option Alert)
      → Dict.get st.alerts u ≡ prev
      → Dict.get st.pins u ≡ some pin
      → Judged st u fp (raise_alert st u pin.fp fp prev)
  unfolding raise_alert
  raise_alert-Judged pin none e h =
      let a : Alert = record { old_fp = pin.fp; new_fp = fp; reason = changed } in
      record {
        pins = λ v ne. refl;
        alerts = λ v ne. ground (arith, get-put st.alerts u a v);
        peers = refl;
        identity = refl;
        trusted = λ pin' hp hv ha. ground (arith, get-put st.alerts u a u, same_iff u u);
      }
  raise_alert-Judged pin (some prev) e h =
      let a : Alert = record { old_fp = pin.fp; new_fp = fp; reason = changed } in
      record {
        pins = λ v ne. ground arith;
        alerts = λ v ne. ground (arith, get-put st.alerts u a v);
        peers = ground arith;
        identity = ground arith;
        trusted = λ pin' hp hv ha. ground (arith, get-put st.alerts u a u, same_iff u u);
      }

  resolve_alert-Judged :
      (pin : Pin) (prev : Option Alert)
      → Dict.get st.pins u ≡ some pin
      → same pin.fp fp ≡ true
      → Judged st u fp (resolve_alert st u prev)
  unfolding resolve_alert
  resolve_alert-Judged pin prev h e = record {
    pins = λ v ne. ground arith;
    alerts = λ v ne. ground (arith, get-del st.alerts u v);
    peers = ground arith;
    identity = ground arith;
    trusted = λ pin' hp hv ha. ground (arith, same_iff pin.fp fp);
  }

  pub judge-Judged : Judged st u fp (judge now st u fp)
  unfolding judge
  judge-Judged = elim (Option-cases (Dict.get st.pins u)) [
    | inl e ↦ rw (e, judge) pin_key-Judged
    | inr (pin, e) ↦ elim (Bool-cases (same pin.fp fp)) [
      | inl eq ↦ rw (e, judge, eq) (resolve_alert-Judged pin _ e eq)
      | inr ne ↦ elim (Bool-cases pin.verified) [
        | inl hv ↦ rw (e, judge, ne, hv) (raise_alert-Judged pin _ refl e)
        | inr hv ↦ rw (e, judge, ne, hv) pin_key-Judged
      ]
    ]
  ]
