-- ===== src/Backup/Restoring.antt =====
-- Restoring a backup in client/js/app.js.
use lattix.Prelude.{
  ℕ, ◌+◌, ◌≡◌, refl, ap, ◌∙◌, arith, Text, same_refl, Bool, true, ◌&&◌, List, [], ◌∷◌, ◌++◌,
  if◌then◌else◌, if-cases,
}
use lattix.Prelude.Dict
use lattix.History.{State, Peer, msg_key_for, ensure_convo, cid_of}
use lattix.Backup.{
  SavedMessage, SavedConvo, Data, load_message, Restored, restore_messages, messages_of,
  restore_convo, restore_convos, restore,
}

-- All messages of a conversation, and of a backup, are known as seen.
unfoldable pub are_seen : List Text → Peer → List SavedMessage → Bool
are_seen seen peer [] = true
are_seen seen peer (m ∷ ms) = Dict.member seen (msg_key_for peer m.id) && are_seen seen peer ms

unfoldable pub are_all_seen : List Text → List SavedConvo → Bool
are_all_seen seen [] = true
are_all_seen seen (c ∷ convos) = are_seen seen c.peer c.messages && are_all_seen seen convos

pub ensure_convo-seen : (st : State) (peer : Peer) → (ensure_convo st peer).seen ≡ st.seen
unfolding ensure_convo
ensure_convo-seen st peer =
    if-cases (λ (t : State). t.seen ≡ st.seen) (Dict.has st.convos (cid_of peer)) (λ _. refl)
      (λ _. refl)

restore_messages-grows :
    (peer : Peer) (ms : List SavedMessage) (r : Restored) (k : Text)
    → Dict.member r.seen k ≡ true
    → Dict.member (restore_messages peer ms r).seen k ≡ true
unfolding restore_messages
restore_messages-grows peer [] r k h = h
restore_messages-grows peer (m ∷ ms) r k h = restore_messages-grows peer ms _ k (
    if-cases (λ (t : Restored). Dict.member t.seen k ≡ true)
      (Dict.member r.seen (msg_key_for peer m.id)) (λ _. h)
      (λ _. Dict.member-add r.seen (msg_key_for peer m.id) k ∙ ground (arith, h)))

restore_messages-seen :
    (peer : Peer) (ms : List SavedMessage) (r : Restored)
    → are_seen (restore_messages peer ms r).seen peer ms ≡ true
unfolding restore_messages are_seen
restore_messages-seen peer [] r = refl
restore_messages-seen peer (m ∷ ms) r =
    let key = msg_key_for peer m.id in
    let next : Restored = if Dict.member r.seen key then r else record {
      seen = Dict.add r.seen key;
      messages = r.messages ++ load_message m ∷ [];
      count = r.count + 1;
    } in
    let here = restore_messages-grows peer ms next key (
      if-cases (λ (t : Restored). Dict.member t.seen key ≡ true) (Dict.member r.seen key) (λ e. e)
        (λ _. Dict.member-add r.seen key key ∙ ground (arith, same_refl key))) in
    ground (arith, here, restore_messages-seen peer ms next)

-- Messages that are seen are passed over.
restore_messages-skips :
    (peer : Peer) (ms : List SavedMessage) (r : Restored)
    → are_seen r.seen peer ms ≡ true
    → restore_messages peer ms r ≡ r
unfolding restore_messages are_seen
restore_messages-skips peer [] r h = refl
restore_messages-skips peer (m ∷ ms) r h =
    if-cases (λ t. restore_messages peer ms t ≡ r) (Dict.member r.seen (msg_key_for peer m.id))
      (λ _. restore_messages-skips peer ms r (ground (arith, h))) (λ e. ground (arith, h, e))

restore_convo-grows :
    (c : SavedConvo) (s : State × ℕ) (k : Text)
    → Dict.member s.0.seen k ≡ true
    → Dict.member (restore_convo c s).0.seen k ≡ true
unfolding restore_convo
restore_convo-grows c (st, count) k h =
    restore_messages-grows c.peer c.messages _ k
      (ap (λ seen. Dict.member seen k) (ensure_convo-seen st c.peer) ∙ h)

are_seen-grows :
    (seen more : List Text) (peer : Peer) (ms : List SavedMessage)
    → ((k : Text) → Dict.member seen k ≡ true → Dict.member more k ≡ true)
    → are_seen seen peer ms ≡ true
    → are_seen more peer ms ≡ true
unfolding are_seen
are_seen-grows seen more peer [] g h = refl
are_seen-grows seen more peer (m ∷ ms) g h =
    ground (arith, h, g (msg_key_for peer m.id), are_seen-grows seen more peer ms g)

restore_convos-grows :
    (convos : List SavedConvo) (s : State × ℕ) (k : Text)
    → Dict.member s.0.seen k ≡ true
    → Dict.member (restore_convos convos s).0.seen k ≡ true
unfolding restore_convos
restore_convos-grows [] s k h = h
restore_convos-grows (c ∷ convos) s k h =
    restore_convos-grows convos (restore_convo c s) k (restore_convo-grows c s k h)

restore_convo-seen :
    (c : SavedConvo) (s : State × ℕ) → are_seen (restore_convo c s).0.seen c.peer c.messages ≡ true
unfolding restore_convo
restore_convo-seen c (st, count) = restore_messages-seen c.peer c.messages _

restore_convos-seen :
    (convos : List SavedConvo) (s : State × ℕ)
    → are_all_seen (restore_convos convos s).0.seen convos ≡ true
unfolding restore_convos are_all_seen
restore_convos-seen [] s = refl
restore_convos-seen (c ∷ convos) s =
    let next = restore_convo c s in
    let here =
      are_seen-grows next.0.seen (restore_convos convos next).0.seen c.peer c.messages
        (restore_convos-grows convos next) (restore_convo-seen c s) in
    ground (arith, here, restore_convos-seen convos next)

restore_convo-skips :
    (c : SavedConvo) (s : State × ℕ)
    → are_seen s.0.seen c.peer c.messages ≡ true
    → ((restore_convo c s).1 ≡ s.1) × ((restore_convo c s).0.seen ≡ s.0.seen)
unfolding restore_convo
restore_convo-skips c (st, count) h =
    let known = ensure_convo st c.peer in
    let skips =
      restore_messages-skips c.peer c.messages
        (record { seen = known.seen; messages = messages_of known c.peer; count = count })
        (ap (λ seen. are_seen seen c.peer c.messages) (ensure_convo-seen st c.peer) ∙ h) in
    (ap (λ r. r.count) skips, ap (λ r. r.seen) skips ∙ ensure_convo-seen st c.peer)

restore_convos-skips :
    (convos : List SavedConvo) (s : State × ℕ)
    → are_all_seen s.0.seen convos ≡ true
    → (restore_convos convos s).1 ≡ s.1
unfolding restore_convos are_all_seen
restore_convos-skips [] s h = refl
restore_convos-skips (c ∷ convos) s h =
    let k = restore_convo-skips c s (ground (arith, h)) in
    restore_convos-skips convos (restore_convo c s)
      (ap (λ seen. are_all_seen seen convos) k.1 ∙ ground (arith, h))
    ∙ k.0

-- After a backup has been restored, every message of it is known as seen, and restoring it once more,
-- with whatever blocking and unblocking in between, restores no message.
pub restore_again :
    (backup : Data) (st : State) (blocked : List Text)
    → let restored = (restore backup st).0 in
      (are_all_seen restored.seen backup.convos ≡ true)
      × ((restore backup (record restored { blocked = blocked })).1 ≡ 0)
unfolding restore
restore_again backup st blocked =
    let seen = restore_convos-seen backup.convos (st, 0) in
    (
      seen,
      restore_convos-skips backup.convos
          (record (restore_convos backup.convos (st, 0)).0 { blocked = blocked }, 0) seen,
    )
