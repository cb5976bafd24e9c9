-- ===== src/View/Sidebar.antt =====
-- The list of conversations beside the messages, as `renderContacts` of client/js/app.js orders it.
use lattix.Prelude.{
  ℕ, ◌≡◌, refl, arith, ap, ◌∙◌, Text, same, Bool, true, not, ◌&&◌, ◌||◌, List, [], ◌∷◌, map, filter,
  any, leb, Bool-cases, inl, inr, if-cases,
}
use lattix.Prelude.Dict
use lattix.Prelude.Dict.{Dict}
use lattix.History.{State, Convo}
use lattix.View.{
  last_ts, is_hidden, matches_filter, insert_recent, sort_recent, is_listed, contacts,
}

-- The newest first: no conversation has a later last message than the one before it.
abbrev is_at_most : State → ℕ → List Text → Bool
is_at_most st n [] = true
is_at_most st n (cid ∷ cids) = leb (last_ts st cid) n

abbrev pub is_recent_first : State → List Text → Bool
is_recent_first st [] = true
is_recent_first st (cid ∷ cids) = is_at_most st (last_ts st cid) cids && is_recent_first st cids

module _ (lower : Text → Text) (group_name : ℕ → Text) where
  insert_recent-is_at_most :
      (st : State) (n : ℕ) (cid : Text) (ds : List Text)
      → leb (last_ts st cid) n ≡ true
      → is_at_most st n ds ≡ true
      → is_at_most st n (insert_recent lower group_name st cid ds) ≡ true
  unfolding insert_recent
  insert_recent-is_at_most st n cid [] h i = h
  insert_recent-is_at_most st n cid (d ∷ ds) h i =
      if-cases (λ l. is_at_most st n l ≡ true) (leb (last_ts st d) (last_ts st cid)) (λ _. h)
        (λ _. i)

  insert_recent-sorted :
      (st : State) (cid : Text) (ds : List Text)
      → is_recent_first st ds ≡ true
      → is_recent_first st (insert_recent lower group_name st cid ds) ≡ true
  unfolding insert_recent
  insert_recent-sorted st cid [] h = refl
  insert_recent-sorted st cid (d ∷ ds) h =
      if-cases (λ l. is_recent_first st l ≡ true) (leb (last_ts st d) (last_ts st cid))
        (λ e. ground (arith, e, h))
        (λ e. ground (
          arith,
          h,
          insert_recent-sorted st cid ds,
          insert_recent-is_at_most st (last_ts st d) cid ds,
          e,
        ))

  sort_recent-sorted :
      (st : State) (cids : List Text)
      → is_recent_first st (sort_recent lower group_name st cids) ≡ true
  unfolding sort_recent
  sort_recent-sorted st [] = refl
  sort_recent-sorted st (cid ∷ cids) =
      insert_recent-sorted st cid (sort_recent lower group_name st cids)
        (sort_recent-sorted st cids)

  member-insert_recent :
      (st : State) (cid : Text) (ds : List Text) (k : Text)
      → Dict.member (insert_recent lower group_name st cid ds) k ≡ (same cid k || Dict.member ds k)
  unfolding insert_recent Dict.member
  member-insert_recent st cid [] k = refl
  member-insert_recent st cid (d ∷ ds) k =
      if-cases (λ l. Dict.member l k ≡ (same cid k || Dict.member (d ∷ ds) k))
        (leb (last_ts st d) (last_ts st cid)) (λ _. refl)
        (λ _. ground (arith, member-insert_recent st cid ds k))

  member-sort_recent :
      (st : State) (cids : List Text) (k : Text)
      → Dict.member (sort_recent lower group_name st cids) k ≡ Dict.member cids k
  unfolding sort_recent Dict.member
  member-sort_recent st [] k = refl
  member-sort_recent st (cid ∷ cids) k =
      member-insert_recent st cid (sort_recent lower group_name st cids) k
      ∙ ap (λ b. same cid k || b) (member-sort_recent st cids k)

  member-filter :
      (p : Text × Convo → Bool) (convos : Dict Convo) (k : Text)
      → Dict.member (map (λ e. e.0) (filter p convos)) k ≡ any (λ e. same e.0 k && p e) convos
  unfolding Dict.member
  member-filter p [] k = refl
  member-filter p (e ∷ convos) k = elim (Bool-cases (p e)) [
    | inl h ↦ rw h (ground (arith, member-filter p convos k))
    | inr h ↦ rw h (ground (arith, member-filter p convos k))
  ]

  -- The sidebar lists the conversations with the newest last message first, and a conversation is in
  -- it exactly if it is one of the app's, is no direct one with a blocked user, and matches the
  -- filter.
  pub contacts_listed :
      (st : State) (q : Text) (cid : Text)
      → (is_recent_first st (contacts lower group_name st q) ≡ true)
        × (Dict.member (contacts lower group_name st q) cid
            ≡ any
                (λ e.
                  same e.0 cid && (not (is_hidden st e) && matches_filter lower group_name q e.1))
                st.convos)
  unfolding contacts is_listed
  contacts_listed st q cid = (
    sort_recent-sorted st _,
    member-sort_recent st _ cid
        ∙ member-filter (λ e. not (is_hidden st e) && matches_filter lower group_name q e.1)
            st.convos cid,
  )
