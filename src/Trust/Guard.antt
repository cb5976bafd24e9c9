-- ===== src/Trust/Guard.antt =====
-- While a contact's pin is marked verified and no alert stands, the cached keys that messages are
-- encrypted to are the ones that were verified.
use lattix.Prelude.{
  ℕ, Text, same, same_iff, ◌≡◌, ◌⊎◌, not, ◌&&◌, Bool, true, false, Option, none, some, List, [],
  ◌∷◌, arith, if◌then◌else◌, Option-cases, Bool-cases, inl, inr,
}
use lattix.Prelude.Dict
use lattix.Prelude.Dict.{get-put, get-del}
use lattix.Trust.{
  KeyRecord, Pin, Alert, link, Self, State, judge, is_exempt, merge_peer, store_peer,
  accept_new_key, set_verified, boot, adopt_peer_keys, refresh_peer, adopt_members, get_peer_keys,
  check_link,
}
use lattix.Trust.Effects.{pin_key-Pinned, judge-Judged}

pub record IsGuarded (st : State) : Type 0 where
  pub held :
      (u : Text) (pin : Pin) (r : KeyRecord)
      → Dict.get st.pins u ≡ some pin
      → Dict.get st.peers u ≡ some r
      → Dict.get st.alerts u ≡ none
      → is_exempt st u ≡ false
      → pin.verified ≡ true
      → r.fingerprint ≡ pin.fp

module _ (now : ℕ) (st : State) (u : Text) (g : IsGuarded st) where
  pub accept_new_key-IsGuarded : IsGuarded (accept_new_key now st u)
  unfolding accept_new_key is_exempt
  accept_new_key-IsGuarded = elim (Option-cases (Dict.get st.alerts u)) [
    | inl e ↦ rw (e, accept_new_key) g
    | inr (a, e) ↦
        let p = pin_key-Pinned now st u a.new_fp false in
        rw (e, accept_new_key)
          (record {
            held = λ v pin r hp hr ha he hv. ground (
              arith,
              p.pins v,
              p.peers,
              p.alerts,
              p.identity,
              get-del st.alerts u v,
              g.held v pin r,
              same_iff u v,
            );
          })
  ]

  -- Marking a contact verified is sound when the code that is marked is the cached keys' own.
  pub set_verified-IsGuarded :
      (fp : Text) (verified : Bool)
      → (verified ≡ true → (r : KeyRecord) → Dict.get st.peers u ≡ some r → r.fingerprint ≡ fp)
      → IsGuarded (set_verified now st u fp verified)
  unfolding set_verified is_exempt
  set_verified-IsGuarded fp verified fresh =
      let p = pin_key-Pinned now st u fp verified in
      record {
        held = λ v pin r hp hr ha he hv. ground (
          arith,
          p.pins v,
          p.peers,
          p.alerts,
          p.identity,
          get-del st.alerts u v,
          g.held v pin r,
          same_iff u v,
          λ (h : verified ≡ true). fresh h r,
        );
      }

-- The record that the cache holds after a merge has the new keys and their fingerprint.
pub merge_peer_lem :
    (old : Option KeyRecord) (r : KeyRecord)
    → ((merge_peer old r).kem_public_key ≡ r.kem_public_key)
      × ((merge_peer old r).dsa_public_key ≡ r.dsa_public_key)
      × ((merge_peer old r).fingerprint ≡ r.fingerprint)
unfolding merge_peer
merge_peer_lem old r = ground arith

module _ (now : ℕ) (st : State) (u : Text) (r : KeyRecord) (g : IsGuarded st) where
  store_judged-IsGuarded : IsGuarded (store_peer (judge now st u r.fingerprint) u r)
  unfolding store_peer is_exempt
  store_judged-IsGuarded =
      let j = judge-Judged now st u r.fingerprint in
      let old = Dict.get (judge now st u r.fingerprint).peers u in
      record {
        held = λ v pin q hp hq ha he hv. ground (
          arith,
          j.pins v,
          j.alerts v,
          j.peers,
          j.identity,
          j.trusted pin,
          merge_peer_lem old r,
          get-put (judge now st u r.fingerprint).peers u (merge_peer old r) v,
          g.held v pin q,
          same_iff u v,
        );
      }

  store_exempt-IsGuarded : is_exempt st u ≡ true → IsGuarded (store_peer st u r)
  unfolding store_peer is_exempt
  store_exempt-IsGuarded x =
      let old = Dict.get st.peers u in
      record {
        held = λ v pin q hp hq ha he hv.
            ground (arith, get-put st.peers u (merge_peer old r) v, g.held v pin q, same_iff u v);
      }

module _ (fingerprint_of : Text → Text → Option Text) (now : ℕ) (st : State) (u : Text) where
  pub refresh_peer-eq-some :
      (rec : KeyRecord) (t : State)
      → refresh_peer fingerprint_of now st u rec ≡ some t
      → (fp : Text) × (fingerprint_of rec.kem_public_key rec.dsa_public_key ≡ some fp)
        × (t
            ≡ store_peer
                (if is_exempt st u then st else judge now st u fp)
                u
                (record rec { fingerprint = fp }))
  unfolding refresh_peer adopt_peer_keys
  refresh_peer-eq-some rec t e = ground arith

  pub refresh_peer-IsGuarded :
      (rec : KeyRecord) (t : State)
      → refresh_peer fingerprint_of now st u rec ≡ some t
      → IsGuarded st
      → IsGuarded t
  refresh_peer-IsGuarded rec t e g =
      let (fp, hf, ht) = refresh_peer-eq-some rec t e in
      elim (Bool-cases (is_exempt st u)) [
        | inl x ↦ rw (ht, x) (store_exempt-IsGuarded now st u (record rec { fingerprint = fp }) g x)
        | inr x ↦ rw (ht, x) (store_judged-IsGuarded now st u (record rec { fingerprint = fp }) g)
      ]

pub adopt_members-IsGuarded :
    (fingerprint_of : Text → Text → Option Text) (now : ℕ) (st : State)
    (members : List (Text × KeyRecord))
    → IsGuarded st
    → IsGuarded (adopt_members fingerprint_of now st members).0
unfolding adopt_members
adopt_members-IsGuarded f now st [] g = g
adopt_members-IsGuarded f now st ((u, rec) ∷ members) g =
    elim (Option-cases (refresh_peer f now st u rec)) [
      | inl e ↦ rw (e, adopt_members) g
      | inr (s', e) ↦
          rw (e, adopt_members)
            (adopt_members-IsGuarded f now s' members
              (refresh_peer-IsGuarded f now st u rec s' e g))
    ]

module _ (fingerprint_of : Text → Text → Option Text) (now : ℕ) (st : State) (u : Text) where
  -- An answer of `getPeerKeys` leaves the state as it was or as one refresh leaves it, and the
  -- record that it gives is the one in the cache.
  pub get_peer_keys-cases :
      (refresh : Bool) (answer : Option KeyRecord)
      → ((get_peer_keys fingerprint_of now st u refresh answer).0 ≡ st)
        ⊎ ((rec : KeyRecord) × (refresh_peer fingerprint_of now st u rec
              ≡ some (get_peer_keys fingerprint_of now st u refresh answer).0))
  unfolding get_peer_keys
  get_peer_keys-cases refresh none = inl (ground arith)
  get_peer_keys-cases refresh (some rec) =
      elim (Option-cases (refresh_peer fingerprint_of now st u rec)) [
        | inl e ↦ inl (ground arith)
        | inr (t, e) ↦ elim (Option-cases (Dict.get st.peers u)) [
          | inl m ↦ inr (rec, ground arith)
          | inr (c, m) ↦ elim (Bool-cases (not refresh && not (same c.kem_public_key []))) [
            | inl hit ↦ inl (ground arith)
            | inr miss ↦ inr (rec, ground arith)
          ]
        ]
      ]

  pub get_peer_keys-cached :
      (refresh : Bool) (answer : Option KeyRecord) (r : KeyRecord)
      → (get_peer_keys fingerprint_of now st u refresh answer).1 ≡ some r
      → Dict.get (get_peer_keys fingerprint_of now st u refresh answer).0.peers u ≡ some r
  unfolding get_peer_keys
  get_peer_keys-cached refresh answer r e = ground arith

  pub get_peer_keys-IsGuarded :
      (refresh : Bool) (answer : Option KeyRecord)
      → IsGuarded st
      → IsGuarded (get_peer_keys fingerprint_of now st u refresh answer).0
  get_peer_keys-IsGuarded refresh answer g = elim (get_peer_keys-cases refresh answer) [
    | inl e ↦ rw e g
    | inr (rec, e) ↦ refresh_peer-IsGuarded fingerprint_of now st u rec _ e g
  ]

pub check_link-IsGuarded :
    (now : ℕ) (st : State) (u link_fp : Text) (keys : KeyRecord)
    → Dict.get st.peers u ≡ some keys
    → IsGuarded st
    → IsGuarded (check_link now st u link_fp keys)
unfolding check_link is_exempt
check_link-IsGuarded now st u link_fp keys e g =
    let a : Alert = record { old_fp = link_fp; new_fp = keys.fingerprint; reason = link } in
    elim (Bool-cases (same keys.fingerprint link_fp)) [
      | inl y ↦
          rw (y, check_link)
            (set_verified-IsGuarded now st u g link_fp true
              (λ h r er. ground (arith, same_iff keys.fingerprint link_fp)))
      | inr n ↦
          rw (n, check_link)
            (record {
              held = λ v pin q hp hq ha he hv.
                  ground (arith, get-put st.alerts u a v, g.held v pin q, same_iff u v);
            })
    ]

pub boot-IsGuarded : (st : State) (me : Self) (own : KeyRecord) → IsGuarded (boot st me own)
unfolding boot is_exempt Dict.get Dict.put
boot-IsGuarded st me own = record {
  held = λ v pin q hp hq ha he hv. ground (arith, same_iff v me.username, same_iff me.username v);
}
