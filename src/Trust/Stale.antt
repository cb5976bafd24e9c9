-- ===== src/Trust/Stale.antt =====
-- Two ways in which an alert or a verification outlives the keys that it is about, in
-- client/js/app.js, and the key that a group message is encrypted to under our own name.
use lattix.Prelude.{
  ℕ, Text, same_iff, ◌≡◌, ◌≢◌, refl, sym, ◌∙◌, true, false, not, Option, none, some, [], ◌∷◌, arith,
  Option-cases, inl, inr,
}
use lattix.Prelude.Dict
use lattix.Prelude.Dict.{get-put, get-del}
use lattix.Trust.{
  KeyRecord, Pin, Alert, changed, link, Self, State, dm, group, is_exempt, is_verified, merge_peer,
  store_peer, assert_sendable, alerted_in, recipients_for, refresh_peer, adopt_members, judge,
  raise_alert, resolve_alert, pin_key, set_verified, toggle_verified, check_link, merged_members,
}
use lattix.Trust.Effects.{pin_key-Pinned}
use lattix.Trust.Guard.{refresh_peer-eq-some, merge_peer_lem}

-- What the cache and the alerts are after a refresh of a contact with a verified pin.
module _ (f : Text → Text → Option Text) (now : ℕ) (st t : State) (u fp : Text) (pin : Pin)
    (rec : KeyRecord) (hx : is_exempt st u ≡ false) (hp : Dict.get st.pins u ≡ some pin)
    (hv : pin.verified ≡ true) (hf : f rec.kem_public_key rec.dsa_public_key ≡ some fp)
    (e : refresh_peer f now st u rec ≡ some t) where
  refresh_other :
      (prev : Alert)
      → Dict.get st.alerts u ≡ some prev
      → prev.new_fp ≢ fp
      → pin.fp ≢ fp
      → (t.pins ≡ st.pins)
        × (t.identity ≡ st.identity)
        × (Dict.get t.alerts u ≡ some (record { old_fp = pin.fp; new_fp = fp; reason = changed }))
  unfolding judge raise_alert store_peer
  refresh_other prev ha ne ne' =
      let (fp', hf', ht) = refresh_peer-eq-some f now st u rec t e in
      let a : Alert = record { old_fp = pin.fp; new_fp = fp; reason = changed } in
      ground
        (arith, get-put st.alerts u a u, same_iff u u, same_iff pin.fp fp, same_iff prev.new_fp fp)

  refresh_pinned :
      (prev : Alert)
      → Dict.get st.alerts u ≡ some prev
      → prev.reason ≡ changed
      → pin.fp ≡ fp
      → Dict.get t.alerts u ≡ none
  unfolding judge resolve_alert store_peer
  refresh_pinned prev ha hr eq =
      let (fp', hf', ht) = refresh_peer-eq-some f now st u rec t e in
      ground (arith, get-del st.alerts u u, same_iff u u, same_iff pin.fp fp)

check_link_mismatch :
    (now : ℕ) (st : State) (u link_fp : Text) (keys : KeyRecord)
    → link_fp ≢ keys.fingerprint
    → check_link now st u link_fp keys ≡ record st {
      alerts =
          Dict.put st.alerts u
            (record { old_fp = link_fp; new_fp = keys.fingerprint; reason = link });
    }
unfolding check_link
check_link_mismatch now st u link_fp keys ne = ground (arith, same_iff keys.fingerprint link_fp)

assert_sendable_dm :
    (st : State) (u : Text) → assert_sendable st (dm u) ≡ not (Dict.has st.alerts u)
unfolding assert_sendable alerted_in
assert_sendable_dm st u = ground arith

module _ (f : Text → Text → Option Text) (now : ℕ) where
  -- A share link's code does not match a verified contact's pinned keys. If the relay then serves
  -- other keys and afterwards the pinned ones again, no alert is left, and the conversation may be
  -- sent to, with no step of the user in between.
  pub link_alert_clears :
      (st a b c : State) (u link_fp fp2 : Text) (pin : Pin) (keys other : KeyRecord)
      → is_exempt st u ≡ false
      → Dict.get st.pins u ≡ some pin
      → pin.verified ≡ true
      → keys.fingerprint ≡ pin.fp
      → f keys.kem_public_key keys.dsa_public_key ≡ some pin.fp
      → link_fp ≢ pin.fp
      → f other.kem_public_key other.dsa_public_key ≡ some fp2
      → fp2 ≢ pin.fp
      → check_link now st u link_fp keys ≡ a
      → refresh_peer f now a u other ≡ some b
      → refresh_peer f now b u keys ≡ some c
      → (assert_sendable a (dm u) ≡ false) × (assert_sendable c (dm u) ≡ true)
  unfolding is_exempt Dict.has
  link_alert_clears st a b c u link_fp fp2 pin keys other hx hp hv hk hf hl hf2 ne ea eb ec =
      let l : Alert = record { old_fp = link_fp; new_fp = keys.fingerprint; reason = link } in
      let m = check_link_mismatch now st u link_fp keys (ground arith) in
      let a-eq = sym ea ∙ m in
      let la : Dict.get a.alerts u ≡ some l =
        ground (arith, get-put st.alerts u l u, same_iff u u) in
      let b-is =
        refresh_other f now a b u fp2 pin other (ground arith) (ground arith) hv hf2 eb l la
          (ground arith) (ground arith) in
      let c-is =
        refresh_pinned f now b c u pin.fp pin keys (ground arith) (ground arith) hv hf ec _ b-is.2
          refl refl in
      (ground (arith, assert_sendable_dm a u), ground (arith, assert_sendable_dm c u))

  -- The dialog shows a code that is not the cached keys' (they were replaced while it was open):
  -- its button marks the contact verified all the same, no alert stands, and a message is
  -- encrypted to the replaced key, whose code is another one than the verified.
  pub stale_dialog_verifies :
      (st : State) (me : Self) (u shown : Text) (cached : KeyRecord)
      → Dict.get st.peers u ≡ some cached
      → cached.fingerprint ≢ shown
      → u ≢ me.username
      → let t = toggle_verified now st u (shown, false) in
        (is_verified t u ≡ true)
        × (assert_sendable t (dm u) ≡ true)
        × (recipients_for t me (dm u)
            ≡ some ((u, cached.kem_public_key) ∷ (me.username, me.kem_public_key) ∷ []))
  unfolding toggle_verified set_verified is_verified Dict.has recipients_for
  stale_dialog_verifies st me u shown cached hc ne hu =
      let p = pin_key-Pinned now st u shown true in
      let t = toggle_verified now st u (shown, false) in
      let s = assert_sendable_dm t u in
      let gone = get-del (pin_key now st u shown true).alerts u u in
      (
        ground (arith, p.pins u, gone, same_iff u u),
        ground (arith, s, gone, same_iff u u),
        ground (arith, p.peers, same_iff u me.username),
      )

  -- In a group of which the relay lists nobody but ourselves, its key for us is taken as it comes:
  -- whatever key it lists under our own name, no pin and no alert changes, and the message is encrypted
  -- to that key.
  pub own_key_unchecked :
      (st t : State) (me : Self) (own : KeyRecord)
      → st.identity ≡ some me
      → adopt_members f now st ((me.username, own) ∷ []) ≡ (t, true)
      → (t.pins ≡ st.pins)
        × (t.alerts ≡ st.alerts)
        × (recipients_for t me (group (merged_members t ((me.username, own) ∷ [])))
            ≡ some ((me.username, own.kem_public_key) ∷ []))
  unfolding recipients_for merged_members store_peer is_exempt adopt_members
  own_key_unchecked st t me own hi e = elim (Option-cases (refresh_peer f now st me.username own)) [
    | inl failed ↦ absurd (ground arith)
    | inr (s', h) ↦
        let (fp, hf, ht) = refresh_peer-eq-some f now st me.username own s' h in
        let new : KeyRecord = record own { fingerprint = fp } in
        let k = merge_peer_lem (Dict.get st.peers me.username) new in
        let put =
          get-put st.peers me.username (merge_peer (Dict.get st.peers me.username) new)
            me.username in
        let k' = merge_peer_lem (some own) (merge_peer (Dict.get st.peers me.username) new) in
        (
          ground (arith, same_iff me.username me.username),
          ground (arith, same_iff me.username me.username),
          ground (arith, same_iff me.username me.username, k, k', put),
        )
  ]
