-- ===== src/Trust/Session.antt =====
-- A session of client/js/app.js as the steps that touch keys, pins and alerts, the relay's answers
-- chosen by the environment; and the invariants of the states that a session reaches.
use lattix.Prelude.{
  [], ◌∷◌, ◌∙◌, ℕ, Text, ◌≡◌, refl, Bool, true, false, not, ◌||◌, same, Option, some, List,
  Bool-cases, Option-cases, inl, inr, arith,
}
use lattix.Prelude.Dict
use lattix.Trust.{
  KeyRecord, Self, State, refresh_peer, store_peer, accept_new_key, toggle_verified, boot,
  adopt_members, get_peer_keys, check_link, is_safety_code, process_deep_link, set_verified,
}
use lattix.Trust.Effects.{judge-Judged}
use lattix.Trust.Guard.{
  IsGuarded, refresh_peer-eq-some, get_peer_keys-cases, accept_new_key-IsGuarded,
  set_verified-IsGuarded, adopt_members-IsGuarded, get_peer_keys-IsGuarded, get_peer_keys-cached,
  check_link-IsGuarded, boot-IsGuarded,
}
use lattix.Trust.Cache.{
  IsComputed, SamePeers-IsComputed, accept_new_key-SamePeers, set_verified-SamePeers,
  check_link-SamePeers, get_peer_keys-IsComputed, adopt_members-IsComputed, boot-IsComputed,
}

-- The code on the dialog is still that of the cached keys when its button is pressed.
abbrev pub IsFresh : State → Text → Text × Bool → Type 0
IsFresh s u (fp, verified) = (r : KeyRecord) → Dict.get s.peers u ≡ some r → r.fingerprint ≡ fp

-- The identity of a session stays.
module _ (f : Text → Text → Option Text) (now : ℕ) where
  refresh_peer-identity :
      (st : State) (u : Text) (rec : KeyRecord) (t : State)
      → refresh_peer f now st u rec ≡ some t
      → t.identity ≡ st.identity
  unfolding store_peer
  refresh_peer-identity st u rec t e =
      let (fp, hf, ht) = refresh_peer-eq-some f now st u rec t e in
      ground (arith, (judge-Judged now st u fp).identity)

  get_peer_keys-identity :
      (st : State) (u : Text) (refresh : Bool) (answer : Option KeyRecord)
      → (get_peer_keys f now st u refresh answer).0.identity ≡ st.identity
  get_peer_keys-identity st u refresh answer =
      elim (get_peer_keys-cases f now st u refresh answer) [
        | inl e ↦ rw e
        | inr (rec, e) ↦ refresh_peer-identity st u rec _ e
      ]

  adopt_members-identity :
      (st : State) (members : List (Text × KeyRecord))
      → (adopt_members f now st members).0.identity ≡ st.identity
  unfolding adopt_members
  adopt_members-identity st [] = refl
  adopt_members-identity st ((u, rec) ∷ members) =
      elim (Option-cases (refresh_peer f now st u rec)) [
        | inl e ↦ rw (e, adopt_members)
        | inr (s', e) ↦
            rw (e, adopt_members)
              (adopt_members-identity s' members ∙ refresh_peer-identity st u rec s' e)
      ]

  process_deep_link-identity :
      (st : State) (me : Self) (who link_fp : Text) (opened answer : Option KeyRecord)
      → (process_deep_link f now st me who link_fp opened answer).identity ≡ st.identity
  unfolding process_deep_link
  process_deep_link-identity st me who link_fp opened answer =
      let shown = (get_peer_keys f now st who true opened).0 in
      let asked = get_peer_keys f now shown who false answer in
      let e1 = get_peer_keys-identity st who true opened in
      let e2 = get_peer_keys-identity shown who false answer in
      let e3 = λ (keys : KeyRecord). (check_link-SamePeers now asked.0 who link_fp keys).identity in
      elim (Option-cases asked.1) [
        | inl no_keys ↦ ground arith
        | inr (keys, h) ↦ ground (arith, e3 keys)
      ]

module _ (f : Text → Text → Option Text) where
  pub data Step (s t : State) : Type 0 where
    asked :
        (now : ℕ) (u : Text) (refresh : Bool) (answer : Option KeyRecord)
        → t ≡ (get_peer_keys f now s u refresh answer).0
        → Step s t
    grouped :
        (now : ℕ) (members : List (Text × KeyRecord))
        → t ≡ (adopt_members f now s members).0
        → Step s t
    accepted : (now : ℕ) (u : Text) → t ≡ accept_new_key now s u → Step s t
    linked :
        (now : ℕ) (me : Self) (who link_fp : Text) (opened answer : Option KeyRecord)
        → t ≡ process_deep_link f now s me who link_fp opened answer
        → Step s t
    toggled :
        (now : ℕ) (u : Text) (dialog : Text × Bool)
        → IsFresh s u dialog
        → t ≡ toggle_verified now s u dialog
        → Step s t

  pub data Reach (s : State) : State → Type 0 where
    here : Reach s s
    next : {t u : State} → Reach s t → Step t u → Reach s u

  pub record IsSound (st : State) : Type 0 where
    pub guarded : IsGuarded st
    pub computed : IsComputed f st

  module _ (now : ℕ) (st : State) (sound : IsSound st) where
    get_peer_keys-IsSound :
        (u : Text) (refresh : Bool) (answer : Option KeyRecord)
        → IsSound (get_peer_keys f now st u refresh answer).0
    get_peer_keys-IsSound u refresh answer = record {
      guarded = get_peer_keys-IsGuarded f now st u refresh answer sound.guarded;
      computed = get_peer_keys-IsComputed f now st u refresh answer sound.computed;
    }

    check_link-IsSound :
        (u link_fp : Text) (keys : KeyRecord)
        → Dict.get st.peers u ≡ some keys
        → IsSound (check_link now st u link_fp keys)
    check_link-IsSound u link_fp keys e = record {
      guarded = check_link-IsGuarded now st u link_fp keys e sound.guarded;
      computed =
          SamePeers-IsComputed f st _ (check_link-SamePeers now st u link_fp keys) sound.computed;
    }

    set_verified-IsSound :
        (u fp : Text) (verified : Bool)
        → ((r : KeyRecord) → Dict.get st.peers u ≡ some r → r.fingerprint ≡ fp)
        → IsSound (set_verified now st u fp verified)
    set_verified-IsSound u fp verified fresh = record {
      guarded = set_verified-IsGuarded now st u sound.guarded fp verified (λ h. fresh);
      computed =
          SamePeers-IsComputed f st _ (set_verified-SamePeers now st u fp verified) sound.computed;
    }

  module _ (now : ℕ) (me : Self) (who link_fp : Text) (opened answer : Option KeyRecord) where
    process_deep_link-IsSound :
        (st : State)
        → IsSound st
        → IsSound (process_deep_link f now st me who link_fp opened answer)
    unfolding process_deep_link
    process_deep_link-IsSound st sound =
        let shown = get_peer_keys f now st who true opened in
        let s1 = get_peer_keys-IsSound now st sound who true opened in
        let asked = get_peer_keys f now shown.0 who false answer in
        let s2 = get_peer_keys-IsSound now shown.0 s1 who false answer in
        elim (Bool-cases (same who [] || same who me.username)) [
          | inl e ↦ rw (e, process_deep_link) sound
          | inr e ↦ elim (Bool-cases (not (is_safety_code link_fp))) [
            | inl e' ↦ rw (e, e', process_deep_link) s1
            | inr e' ↦ elim (Option-cases asked.1) [
              | inl no_keys ↦ rw (e, e', no_keys, process_deep_link) s2
              | inr (keys, h) ↦
                  rw (e, e', h, process_deep_link)
                    (check_link-IsSound now asked.0 s2 who link_fp keys
                      (get_peer_keys-cached f now shown.0 who false answer keys h))
            ]
          ]
        ]

  pub Step-IsSound : {s t : State} → Step s t → IsSound s → IsSound t
  unfolding toggle_verified
  Step-IsSound {s} (asked now u refresh answer e) h =
      rw e (get_peer_keys-IsSound now s h u refresh answer)
  Step-IsSound {s} (grouped now members e) h = rw e (record {
    guarded = adopt_members-IsGuarded f now s members h.guarded;
    computed = adopt_members-IsComputed f now s members h.computed;
  })
  Step-IsSound {s} (accepted now u e) h = rw e (record {
    guarded = accept_new_key-IsGuarded now s u h.guarded;
    computed = SamePeers-IsComputed f s _ (accept_new_key-SamePeers now s u) h.computed;
  })
  Step-IsSound {s} (linked now me who link_fp opened answer e) h =
      rw e (process_deep_link-IsSound now me who link_fp opened answer s h)
  Step-IsSound {s} (toggled now u (fp, verified) fresh e) h =
      rw e (set_verified-IsSound now s h u fp (not verified) fresh)

  pub Reach-IsSound : {s t : State} → IsSound s → Reach s t → IsSound t
  Reach-IsSound h here = h
  Reach-IsSound h (next r step) = Step-IsSound step (Reach-IsSound h r)

  pub boot-IsSound : (start : State) (me : Self) (own : KeyRecord) → IsSound (boot start me own)
  boot-IsSound start me own = record {
    guarded = boot-IsGuarded start me own;
    computed = boot-IsComputed f start me own;
  }

  Step-identity : {s t : State} → Step s t → t.identity ≡ s.identity
  unfolding toggle_verified
  Step-identity {s} (asked now u refresh answer e) =
      rw e (get_peer_keys-identity f now s u refresh answer)
  Step-identity {s} (grouped now members e) = rw e (adopt_members-identity f now s members)
  Step-identity {s} (accepted now u e) = rw e ((accept_new_key-SamePeers now s u).identity)
  Step-identity {s} (linked now me who link_fp opened answer e) =
      rw e (process_deep_link-identity f now s me who link_fp opened answer)
  Step-identity {s} (toggled now u (fp, verified) fresh e) =
      rw e ((set_verified-SamePeers now s u fp (not verified)).identity)

  pub Reach-identity :
      (start : State) (me : Self) (own : KeyRecord) {t : State}
      → Reach (boot start me own) t
      → t.identity ≡ some me
  unfolding boot
  Reach-identity start me own here = refl
  Reach-identity start me own (next r step) = Step-identity step ∙ Reach-identity start me own r
