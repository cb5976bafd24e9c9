-- ===== src/Backup/RoundTrip.antt =====
-- A backup in client/js/app.js, from `makeBackup` to `onRestoreChosen` on another device.
use lattix.Prelude.{
  ℕ, ◌<◌, ◌≡◌, refl, ap, ◌∙◌, arith, Text, true, false, none, List, [], ◌∷◌, ◌++◌, All, map,
  if-cases, ◌||◌,
}
use lattix.Prelude.Dict
use lattix.Prelude.Dict.{Dict}
use lattix.History.{State, Convo, Message, cid_of, ensure_convo, sort_by_id}
use lattix.History.Order.{Ascending, sort_by_id-Ascending}
use lattix.History.Ingest.{IsOrdered, IsKept}
use lattix.Backup.{
  SavedConvo, save_message, serialize_convos, backup_data, load_message, messages_of, restore_convo,
  restore_convos, restore, add_all,
}
use lattix.Backup.Merging.{keys_in, count_in, are_new, are_distinct, Merged, restore_convos-all}

-- What a message is after it has been restored: without its deadline and its alert, and, if it is a file,
-- without what its contents are fetched by.
abbrev pub lasting : Message → Message
lasting m = record m { key_alert = false; has_payload = false; expires_at = none }

loaded : (ms : List Message) → map load_message (map save_message ms) ≡ map lasting ms
unfolding load_message save_message
loaded [] = refl
loaded (m ∷ ms) = ap (λ ns. lasting m ∷ ns) (loaded ms)

later_lasting :
    (n : ℕ) (ms : List Message) → All (λ m. n < m.id) ms → All (λ m. n < m.id) (map lasting ms)
later_lasting n [] h = tt
later_lasting n (m ∷ ms) h = (h.0, later_lasting n ms h.1)

Ascending-lasting : (ms : List Message) → Ascending ms → Ascending (map lasting ms)
Ascending-lasting [] h = tt
Ascending-lasting (m ∷ ms) h = (later_lasting m.id ms h.0, Ascending-lasting ms h.1)

add_all-member :
    (us : List Text) (seen : List Text) (u : Text)
    → Dict.member (add_all seen us) u ≡ (Dict.member seen u || Dict.member us u)
unfolding add_all Dict.member
add_all-member [] seen u = ground arith
add_all-member (v ∷ us) seen u =
    ground (arith, add_all-member us (Dict.add seen v) u, Dict.member-add seen v u)

restore_convos-blocked :
    (convos : List SavedConvo) (s : State × ℕ) → (restore_convos convos s).0.blocked ≡ s.0.blocked
unfolding restore_convos restore_convo ensure_convo
restore_convos-blocked [] s = refl
restore_convos-blocked (c ∷ convos) (st, n) =
    restore_convos-blocked convos (restore_convo c (st, n))
    ∙ if-cases (λ (t : State). t.blocked ≡ st.blocked) (Dict.has st.convos (cid_of c.peer))
        (λ _. refl) (λ _. refl)

abbrev pub AreEmpty : State → Dict Convo → Type 0
AreEmpty st convos = All (λ e. messages_of st e.1.peer ≡ []) convos

restored_entries :
    (convos : Dict Convo) (seen : List Text) (st after : State)
    → All (IsKept seen) convos
    → AreEmpty st convos
    → All
        (Merged st after)
        (map (λ e. record { peer = e.1.peer; messages = map save_message e.1.messages }) convos)
    → All (λ e. messages_of after e.1.peer ≡ map lasting e.1.messages) convos
restored_entries [] seen st after kept empty merged = tt
restored_entries (e ∷ convos) seen st after kept empty merged = (
  merged.0
      ∙ ap (λ ms. sort_by_id (ms ++ map load_message (map save_message e.1.messages))) empty.0
      ∙ ap sort_by_id (loaded e.1.messages)
      ∙ sort_by_id-Ascending _ (Ascending-lasting e.1.messages kept.0.ascending),
  restored_entries convos seen st after kept.1 empty.1 merged.1,
)

module _ (saved st : State) where
  abbrev restored : State
  restored = (restore (backup_data saved) st).0

  -- The conversations of a device that keep their invariant, no two with one id and no two of their
  -- messages with one key, are restored from its backup on a device that shows none of their
  -- messages and has seen none of them: each then has exactly its messages, in their order, without
  -- deadlines, alerts and what the contents of files are fetched by, as many as the app tells of, and those are blocked who were blocked on either
  -- device.
  pub restore-backup_data :
      IsOrdered saved
      → are_distinct (serialize_convos saved) ≡ true
      → are_new st.seen (keys_in (serialize_convos saved)) ≡ true
      → AreEmpty st saved.convos
      → All (λ e. messages_of restored e.1.peer ≡ map lasting e.1.messages) saved.convos
        × ((restore (backup_data saved) st).1 ≡ count_in (serialize_convos saved))
        × ((u : Text)
            → Dict.member restored.blocked u
              ≡ (Dict.member st.blocked u || Dict.member saved.blocked u))
  unfolding restore backup_data messages_of serialize_convos
  restore-backup_data kept apart new empty =
      let (merged, count) = restore_convos-all (serialize_convos saved) st 0 apart new in
      let convos = (restore_convos (serialize_convos saved) (st, 0)).0 in
      (
        restored_entries saved.convos saved.seen st convos kept empty merged,
        count ∙ ground arith,
        (λ u.
            add_all-member saved.blocked convos.blocked u
            ∙ ap (λ b. Dict.member b u || Dict.member saved.blocked u)
                (restore_convos-blocked (serialize_convos saved) (st, 0))),
      )
