-- ===== src/Trust/Cache.antt =====
-- Every cached key record of another user carries the fingerprint of its own keys, whatever
-- fingerprint the relay claimed for them.
use lattix.Prelude.{
  ℕ, Text, same_iff, ◌≡◌, refl, Bool, true, false, Option, some, List, [], ◌∷◌, arith, Option-cases,
  Bool-cases, inl, inr,
}
use lattix.Prelude.Dict
use lattix.Prelude.Dict.{get-put}
use lattix.Trust.{
  KeyRecord, Self, State, save_pins, pin_key, is_exempt, merge_peer, store_peer, accept_new_key,
  set_verified, boot, refresh_peer, adopt_members, get_peer_keys, check_link,
}
use lattix.Trust.Effects.{judge-Judged}
use lattix.Trust.Guard.{merge_peer_lem, refresh_peer-eq-some, get_peer_keys-cases}

pub record IsComputed (fingerprint_of : Text → Text → Option Text) (st : State) : Type 0 where
  pub computed :
      (u : Text) (r : KeyRecord)
      → Dict.get st.peers u ≡ some r
      → is_exempt st u ≡ false
      → fingerprint_of r.kem_public_key r.dsa_public_key ≡ some r.fingerprint

-- The operations on pins and alerts leave the cache and the identity alone.
pub record SamePeers (s t : State) : Type 0 where
  pub peers : t.peers ≡ s.peers
  pub identity : t.identity ≡ s.identity

module _ (now : ℕ) (st : State) (u : Text) where
  pub accept_new_key-SamePeers : SamePeers st (accept_new_key now st u)
  unfolding accept_new_key pin_key save_pins
  accept_new_key-SamePeers = ground arith

  pub set_verified-SamePeers :
      (fp : Text) (verified : Bool) → SamePeers st (set_verified now st u fp verified)
  unfolding set_verified pin_key save_pins
  set_verified-SamePeers fp verified = ground arith

  pub check_link-SamePeers :
      (link_fp : Text) (keys : KeyRecord) → SamePeers st (check_link now st u link_fp keys)
  unfolding check_link
  check_link-SamePeers link_fp keys = ground (arith, set_verified-SamePeers link_fp true)

module _ (f : Text → Text → Option Text) where
  pub SamePeers-IsComputed : (s t : State) → SamePeers s t → IsComputed f s → IsComputed f t
  unfolding is_exempt
  SamePeers-IsComputed s t e c = record {
    computed = λ v r hr hx. ground (arith, e.peers, e.identity, c.computed v r);
  }

  store_peer-IsComputed :
      (s t : State) (u : Text) (r : KeyRecord)
      → f r.kem_public_key r.dsa_public_key ≡ some r.fingerprint
      → SamePeers s t
      → IsComputed f s
      → IsComputed f (store_peer t u r)
  unfolding store_peer is_exempt
  store_peer-IsComputed s t u r h e c =
      let m = merge_peer (Dict.get t.peers u) r in
      record {
        computed = λ v q hq hx. ground (
          arith,
          e.peers,
          e.identity,
          get-put t.peers u m v,
          c.computed v q,
          merge_peer_lem (Dict.get t.peers u) r,
          same_iff u v,
        );
      }

  module _ (now : ℕ) (st : State) (u : Text) where
    pub refresh_peer-IsComputed :
        (rec : KeyRecord) (t : State)
        → refresh_peer f now st u rec ≡ some t
        → IsComputed f st
        → IsComputed f t
    refresh_peer-IsComputed rec t e c =
        let (fp, hf, ht) = refresh_peer-eq-some f now st u rec t e in
        let j = judge-Judged now st u fp in
        elim (Bool-cases (is_exempt st u)) [
          | inl x ↦
              rw (ht, x)
                (store_peer-IsComputed st st u (record rec { fingerprint = fp }) hf
                  (record { peers = refl; identity = refl }) c)
          | inr x ↦
              rw (ht, x)
                (store_peer-IsComputed st _ u (record rec { fingerprint = fp }) hf
                  (record { peers = j.peers; identity = j.identity }) c)
        ]

    pub get_peer_keys-IsComputed :
        (refresh : Bool) (answer : Option KeyRecord)
        → IsComputed f st
        → IsComputed f (get_peer_keys f now st u refresh answer).0
    get_peer_keys-IsComputed refresh answer c =
        elim (get_peer_keys-cases f now st u refresh answer) [
          | inl e ↦ rw e c
          | inr (rec, e) ↦ refresh_peer-IsComputed rec _ e c
        ]

  pub adopt_members-IsComputed :
      (now : ℕ) (st : State) (members : List (Text × KeyRecord))
      → IsComputed f st
      → IsComputed f (adopt_members f now st members).0
  unfolding adopt_members
  adopt_members-IsComputed now st [] c = c
  adopt_members-IsComputed now st ((u, rec) ∷ members) c =
      elim (Option-cases (refresh_peer f now st u rec)) [
        | inl e ↦ rw (e, adopt_members) c
        | inr (s', e) ↦
            rw (e, adopt_members)
              (adopt_members-IsComputed now s' members
                (refresh_peer-IsComputed now st u rec s' e c))
      ]

  pub boot-IsComputed : (st : State) (me : Self) (own : KeyRecord) → IsComputed f (boot st me own)
  unfolding boot is_exempt Dict.get Dict.put
  boot-IsComputed st me own = record {
    computed = λ v q hq hx. ground (arith, same_iff v me.username, same_iff me.username v);
  }
