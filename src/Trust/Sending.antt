-- ===== src/Trust/Sending.antt =====
-- What a session may encrypt to: `assertSendable` and `recipientsFor` of client/js/app.js, over the
-- states that a session reaches.
use mathlib.Core.Path.{subst}
use lattix.Prelude.{
  sym, ap, ℕ, Text, same, same_iff, ◌≡◌, Bool, true, false, Option, none, some, List, [], ◌∷◌, map,
  filter, All, ◌||◌, arith, Option-cases, Bool-cases, inl, inr,
}
use lattix.Prelude.Dict
use lattix.Prelude.Dict.{get-put}
use lattix.Trust.{
  KeyRecord, Pin, Self, State, dm, group, is_exempt, boot, merge_peer, store_peer, merged_member,
  merged_members, alerted_in, assert_sendable, recipients_for, refresh_peer, adopt_members,
}
use lattix.Trust.Effects.{judge-Judged}
use lattix.Trust.Guard.{merge_peer_lem, refresh_peer-eq-some}
use lattix.Trust.Session.{
  Reach, grouped, IsSound, Step-IsSound, boot-IsSound, Reach-IsSound, Reach-identity,
}

-- A key to encrypt to, of a contact whose code the user has verified, hashes to that very code.
abbrev pub IsVerifiedKey : (Text → Text → Option Text) → State → Text × Text → Type 0
IsVerifiedKey f st (u, kem) =
    (pin : Pin)
    → is_exempt st u ≡ false
    → Dict.get st.pins u ≡ some pin
    → pin.verified ≡ true
    → (dsa : Text) × (f kem dsa ≡ some pin.fp)

module _ (f : Text → Text → Option Text) (st : State) (sound : IsSound f st) where
  cached-IsVerifiedKey :
      (u : Text) (r : KeyRecord)
      → Dict.get st.peers u ≡ some r
      → Dict.has st.alerts u ≡ false
      → IsVerifiedKey f st (u, r.kem_public_key)
  unfolding Dict.has is_exempt
  cached-IsVerifiedKey u r hr ha pin hx hp hv =
      (r.dsa_public_key, ground (arith, sound.computed.computed u r, sound.guarded.held u pin r))

  -- Our own key is not a contact's.
  own :
      (me : Self)
      → st.identity ≡ some me
      → All (IsVerifiedKey f st) ((me.username, me.kem_public_key) ∷ [])
  unfolding is_exempt
  own me hi = ((λ pin hx. absurd (ground (arith, same_iff me.username me.username))), tt)

  dm_recipients-IsVerifiedKey :
      (me : Self) (u : Text) (recipients : List (Text × Text))
      → st.identity ≡ some me
      → assert_sendable st (dm u) ≡ true
      → recipients_for st me (dm u) ≡ some recipients
      → All (IsVerifiedKey f st) recipients
  unfolding assert_sendable alerted_in recipients_for is_exempt
  dm_recipients-IsVerifiedKey me u recipients hi hs hr = elim (Option-cases (Dict.get st.peers u)) [
    | inl e ↦ absurd (ground arith)
    | inr (r, e) ↦
        let key : IsVerifiedKey f st (u, r.kem_public_key) =
          cached-IsVerifiedKey u r e (ground arith) in
        elim (Bool-cases (same u me.username)) [
          | inl y ↦
              let list : recipients ≡ (u, r.kem_public_key) ∷ [] = ground arith in rw list (key, tt)
          | inr n ↦
              let list : recipients
                  ≡ (u, r.kem_public_key) ∷ (me.username, me.kem_public_key) ∷ [] =
                ground arith in
              rw list (key, own me hi)
        ]
  ]

-- The group's part. A member whose record was adopted is cached from then on.
abbrev IsCached : State → Text × KeyRecord → Type 0
IsCached st (u, _) = Dict.has st.peers u ≡ true

module _ (f : Text → Text → Option Text) (now : ℕ) where
  refresh_peer_caches :
      (st : State) (u : Text) (rec : KeyRecord) (t : State) (v : Text)
      → refresh_peer f now st u rec ≡ some t
      → Dict.has t.peers v ≡ (same u v || Dict.has st.peers v)
  unfolding store_peer Dict.has
  refresh_peer_caches st u rec t v e =
      let (fp, hf, ht) = refresh_peer-eq-some f now st u rec t e in
      let j = judge-Judged now st u fp in
      let new : KeyRecord = record rec { fingerprint = fp } in
      ground (arith, j.peers, get-put st.peers u (merge_peer (Dict.get st.peers u) new) v)

  adopt_members_step :
      (st : State) (u : Text) (rec : KeyRecord) (members : List (Text × KeyRecord)) (s' : State)
      → refresh_peer f now st u rec ≡ some s'
      → adopt_members f now st ((u, rec) ∷ members) ≡ adopt_members f now s' members
  unfolding adopt_members
  adopt_members_step st u rec members s' e = rw (e, adopt_members)

  adopt_members_stop :
      (st : State) (u : Text) (rec : KeyRecord) (members : List (Text × KeyRecord))
      → refresh_peer f now st u rec ≡ none
      → adopt_members f now st ((u, rec) ∷ members) ≡ (st, false)
  unfolding adopt_members
  adopt_members_stop st u rec members e = rw (e, adopt_members)

  adopt_members_keeps :
      (st : State) (members : List (Text × KeyRecord)) (v : Text)
      → Dict.has st.peers v ≡ true
      → Dict.has (adopt_members f now st members).0.peers v ≡ true
  adopt_members_keeps st [] v h = unfold adopt_members in h
  adopt_members_keeps st ((u, rec) ∷ members) v h =
      elim (Option-cases (refresh_peer f now st u rec)) [
        | inl e ↦ rw (adopt_members_stop st u rec members e) h
        | inr (s', e) ↦
            rw (adopt_members_step st u rec members s' e) (
              adopt_members_keeps s' members v
                (ground (arith, refresh_peer_caches st u rec s' v e)))
      ]

  pub adopt_members_caches :
      (st : State) (members : List (Text × KeyRecord))
      → (adopt_members f now st members).1 ≡ true
      → All (IsCached (adopt_members f now st members).0) members
  adopt_members_caches st [] h = tt
  adopt_members_caches st ((u, rec) ∷ members) h =
      elim (Option-cases (refresh_peer f now st u rec)) [
        | inl e ↦ absurd (ground (arith, adopt_members_stop st u rec members e))
        | inr (s', e) ↦
            let step = adopt_members_step st u rec members s' e in
            subst (λ t. All (IsCached t.0) ((u, rec) ∷ members)) (sym step)
              (
                adopt_members_keeps s' members u
                    (ground (arith, refresh_peer_caches st u rec s' u e, same_iff u u)),
                adopt_members_caches s' members (ground (arith, step)),
              )
      ]

filter-eq-nil {ℓ} :
    {A : Type ℓ} (p : A → Bool) (x : A) (xs : List A)
    → filter p (x ∷ xs) ≡ []
    → (p x ≡ false) × (filter p xs ≡ [])
filter-eq-nil p x xs h = ground arith

merged_cached :
    (st : State) (u : Text) (rec r : KeyRecord)
    → Dict.get st.peers u ≡ some r
    → merged_member st (u, rec) ≡ (u, merge_peer (some rec) r)
unfolding merged_member
merged_cached st u rec r e = rw (e, merged_member)

module _ (f : Text → Text → Option Text) (st : State) (sound : IsSound f st) where
  merged-IsVerifiedKey :
      (members : List (Text × KeyRecord))
      → All (IsCached st) members
      → filter (Dict.has st.alerts) (map (λ m. m.0) (merged_members st members)) ≡ []
      → All (IsVerifiedKey f st) (map (λ m. (m.0, m.1.kem_public_key)) (merged_members st members))
  unfolding merged_members
  merged-IsVerifiedKey [] c h = tt
  merged-IsVerifiedKey ((u, rec) ∷ members) c h = elim (Option-cases (Dict.get st.peers u)) [
    | inl e ↦ absurd (unfold Dict.has in ground arith)
    | inr (r, e) ↦
        let m = merged_cached st u rec r e in
        let k = merge_peer_lem (some rec) r in
        let (quiet, rest) = filter-eq-nil (Dict.has st.alerts) _ _ h in
        let calm : Dict.has st.alerts u ≡ false = rw m at quiet in
        (
          rw (m, k.0) (cached-IsVerifiedKey f st sound u r e calm),
          merged-IsVerifiedKey members c.1 rest,
        )
  ]

group_recipients-IsVerifiedKey :
    (f : Text → Text → Option Text) (now : ℕ) (st : State) (me : Self)
    (members : List (Text × KeyRecord)) (t : State) (recipients : List (Text × Text))
    → IsSound f st
    → adopt_members f now st members ≡ (t, true)
    → assert_sendable t (group (merged_members t members)) ≡ true
    → recipients_for t me (group (merged_members t members)) ≡ some recipients
    → All (IsVerifiedKey f t) recipients
unfolding assert_sendable alerted_in recipients_for
group_recipients-IsVerifiedKey f now st me members t recipients sound e hs hr =
    let t-eq : (adopt_members f now st members).0 ≡ t = ap (λ p. p.0) e in
    let all : All (IsCached t) members =
      subst (λ s. All (IsCached s) members) t-eq
        (adopt_members_caches f now st members (ap (λ p. p.1) e)) in
    let sound' : IsSound f t = Step-IsSound f (grouped now members (sym t-eq)) sound in
    let list : recipients ≡ map (λ m. (m.0, m.1.kem_public_key)) (merged_members t members) =
      ground arith in
    subst (All (IsVerifiedKey f t)) (sym list)
      (merged-IsVerifiedKey f t sound' members all (ground arith))

module _ (f : Text → Text → Option Text) (start : State) (me : Self) (own : KeyRecord) where
  -- A session from its start, in any order of relay answers, opened links and decisions of the user,
  -- where the dialog's button is pressed only while its code is that of the cached keys. In every
  -- state that it reaches: if a direct conversation may be sent to,
  -- then each key that `recipientsFor` gives for it and that belongs to another user whose pin is
  -- marked verified is, with some signature key, of the pinned safety code.
  pub Reach-dm_recipients :
      (st : State) (u : Text) (recipients : List (Text × Text))
      → Reach f (boot start me own) st
      → assert_sendable st (dm u) ≡ true
      → recipients_for st me (dm u) ≡ some recipients
      → All (IsVerifiedKey f st) recipients
  Reach-dm_recipients st u recipients r =
      dm_recipients-IsVerifiedKey f st (Reach-IsSound f (boot-IsSound f start me own) r) me u
        recipients (Reach-identity f start me own r)

  -- In every state that such a session reaches from its start, the dialog's button being pressed only
  -- while its code is that of the cached keys: if `ensureGroupLoaded` then adopts every
  -- member that the relay lists and the group may be sent to, then each key that `recipientsFor`
  -- gives for it and that belongs to another user whose pin is marked verified is, with some
  -- signature key, of the pinned safety code.
  pub Reach-group_recipients :
      (st t : State) (now : ℕ) (members : List (Text × KeyRecord)) (recipients : List (Text × Text))
      → Reach f (boot start me own) st
      → adopt_members f now st members ≡ (t, true)
      → assert_sendable t (group (merged_members t members)) ≡ true
      → recipients_for t me (group (merged_members t members)) ≡ some recipients
      → All (IsVerifiedKey f t) recipients
  Reach-group_recipients st t now members recipients r =
      group_recipients-IsVerifiedKey f now st me members t recipients
        (Reach-IsSound f (boot-IsSound f start me own) r)
