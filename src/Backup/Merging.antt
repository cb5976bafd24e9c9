-- ===== src/Backup/Merging.antt =====
-- What restoring a backup in client/js/app.js makes of a device's conversations.
use lattix.Prelude.{
  ℕ, ◌+◌, ◌≡◌, refl, ap, ◌∙◌, arith, Text, same, same_refl, same→eq, Bool, true, false, not, ◌&&◌,
  none, some, List, [], ◌∷◌, ◌++◌, All, map, length, Option-cases, inl, inr,
}
use mathlib.Core.List.{append_assoc, append-nil}
use lattix.Prelude.Dict
use lattix.Prelude.Dict.{Dict, get-put}
use lattix.History.{State, Convo, Message, Peer, msg_key_for, ensure_convo, cid_of, sort_by_id}
use lattix.Backup.{
  SavedMessage, SavedConvo, load_message, Restored, restore_messages, messages_of, set_messages,
  restore_convo, restore_convos, add_all,
}
use lattix.Backup.Restoring.{ensure_convo-seen}

abbrev pub keys_of : SavedConvo → List Text
keys_of c = map (λ m. msg_key_for c.peer m.id) c.messages

unfoldable pub keys_in : List SavedConvo → List Text
keys_in [] = []
keys_in (c ∷ convos) = keys_of c ++ keys_in convos

unfoldable pub count_in : List SavedConvo → ℕ
count_in [] = 0
count_in (c ∷ convos) = length c.messages + count_in convos

-- No key is seen, and none comes twice.
unfoldable pub are_new : List Text → List Text → Bool
are_new seen [] = true
are_new seen (k ∷ ks) = not (Dict.member seen k) && are_new (Dict.add seen k) ks

unfoldable pub is_absent : Peer → List SavedConvo → Bool
is_absent peer [] = true
is_absent peer (c ∷ convos) = not (same (cid_of c.peer) (cid_of peer)) && is_absent peer convos

-- No two conversations have one id.
unfoldable pub are_distinct : List SavedConvo → Bool
are_distinct [] = true
are_distinct (c ∷ convos) = is_absent c.peer convos && are_distinct convos

are_new-append :
    (seen xs ys : List Text)
    → are_new seen (xs ++ ys) ≡ (are_new seen xs && are_new (add_all seen xs) ys)
unfolding are_new add_all
are_new-append seen [] ys = refl
are_new-append seen (x ∷ xs) ys = ground (arith, are_new-append (Dict.add seen x) xs ys)

add_all-append : (seen xs ys : List Text) → add_all seen (xs ++ ys) ≡ add_all (add_all seen xs) ys
unfolding add_all
add_all-append seen [] ys = refl
add_all-append seen (x ∷ xs) ys = add_all-append (Dict.add seen x) xs ys

restore_messages-all :
    (peer : Peer) (ms : List SavedMessage) (r : Restored)
    → are_new r.seen (map (λ m. msg_key_for peer m.id) ms) ≡ true
    → restore_messages peer ms r ≡ record {
      seen = add_all r.seen (map (λ m. msg_key_for peer m.id) ms);
      messages = r.messages ++ map load_message ms;
      count = r.count + length ms;
    }
unfolding restore_messages are_new add_all
restore_messages-all peer [] r h = ground (arith, append-nil r.messages)
restore_messages-all peer (m ∷ ms) r h =
    let key = msg_key_for peer m.id in
    let next : Restored = record {
      seen = Dict.add r.seen key;
      messages = r.messages ++ load_message m ∷ [];
      count = r.count + 1;
    } in
    let new : Dict.member r.seen key ≡ false = ground (arith, h) in
    (rw (new) refl)
    ∙ restore_messages-all peer ms next (ground (arith, h))
    ∙ (rw (append_assoc r.messages (load_message m ∷ []) (map load_message ms)) ground arith)

module _ (st : State) (p : Peer) where
  ensure_convo-get : (c : Convo) × (Dict.get (ensure_convo st p).convos (cid_of p) ≡ some c)
  unfolding ensure_convo Dict.has
  ensure_convo-get = elim (Option-cases (Dict.get st.convos (cid_of p))) [
    | inl e ↦
        let empty : Convo = record { peer = p; messages = []; unread = 0; max_id = 0 } in
        (
          empty,
          (rw (ensure_convo, Dict.has, e)
              (get-put st.convos (cid_of p) empty (cid_of p) ∙ rw (same_refl (cid_of p)) refl)),
        )
    | inr (c, e) ↦ (c, (rw (ensure_convo, Dict.has, e) e))
  ]

  messages_of-ensure_convo : (q : Peer) → messages_of (ensure_convo st p) q ≡ messages_of st q
  unfolding ensure_convo Dict.has messages_of
  messages_of-ensure_convo q = elim (Option-cases (Dict.get st.convos (cid_of p))) [
    | inl e ↦
        let empty : Convo = record { peer = p; messages = []; unread = 0; max_id = 0 } in
        rw (ensure_convo, Dict.has, messages_of, e, get-put st.convos (cid_of p) empty (cid_of q))
          (ground (arith, e, same→eq (cid_of p) (cid_of q)))
    | inr (c, e) ↦ rw (ensure_convo, Dict.has, messages_of, e) refl
  ]

module _ (d : Dict Convo) (cid : Text) (ms : List Message) where
  set_messages-here :
      (c : Convo)
      → Dict.get d cid ≡ some c
      → Dict.get (set_messages d cid ms) cid ≡ some (record c { messages = ms })
  unfolding set_messages
  set_messages-here c e =
      rw (set_messages, e)
        (get-put d cid (record c { messages = ms }) cid ∙ rw (same_refl cid) refl)

  set_messages-other :
      (k : Text) → same cid k ≡ false → Dict.get (set_messages d cid ms) k ≡ Dict.get d k
  unfolding set_messages
  set_messages-other k other = elim (Option-cases (Dict.get d cid)) [
    | inl e ↦ rw (set_messages, e) refl
    | inr (c, e) ↦
        rw (set_messages, e) (get-put d cid (record c { messages = ms }) k ∙ rw (other) refl)
  ]

module _ (c : SavedConvo) (st : State) (n : ℕ) (new : are_new st.seen (keys_of c) ≡ true) where
  abbrev all_restored : Restored
  all_restored = record {
    seen = add_all st.seen (keys_of c);
    messages = messages_of st c.peer ++ map load_message c.messages;
    count = n + length c.messages;
  }

  all-restored :
      let known = ensure_convo st c.peer in
      restore_messages c.peer c.messages
        (record { seen = known.seen; messages = messages_of known c.peer; count = n })
      ≡ all_restored
  all-restored =
      ap
        (λ s.
          restore_messages c.peer c.messages (record {
            seen = s;
            messages = messages_of (ensure_convo st c.peer) c.peer;
            count = n;
          }))
        (ensure_convo-seen st c.peer)
      ∙ (ap
            (λ ms.
              restore_messages c.peer c.messages
                (record { seen = st.seen; messages = ms; count = n }))
            (messages_of-ensure_convo st c.peer c.peer)
          ∙ restore_messages-all c.peer c.messages
              (record { seen = st.seen; messages = messages_of st c.peer; count = n }) new)

  restore_convo-seen : (restore_convo c (st, n)).0.seen ≡ add_all st.seen (keys_of c)
  unfolding restore_convo
  restore_convo-seen = ap (λ r. r.seen) all-restored

  restore_convo-count : (restore_convo c (st, n)).1 ≡ n + length c.messages
  unfolding restore_convo
  restore_convo-count = ap (λ r. r.count) all-restored

  restore_convo-messages :
      messages_of (restore_convo c (st, n)).0 c.peer
      ≡ sort_by_id (messages_of st c.peer ++ map load_message c.messages)
  unfolding restore_convo messages_of
  restore_convo-messages =
      let (known, e) = ensure_convo-get st c.peer in
      ap (λ o. elim o as (λ _. List Message) [ none ↦ [] | some k ↦ k.messages ])
        (set_messages-here (ensure_convo st c.peer).convos (cid_of c.peer) _ known e)
      ∙ (ap (λ r. sort_by_id r.messages) all-restored)

restore_convo-other :
    (c : SavedConvo) (st : State) (n : ℕ) (peer : Peer)
    → same (cid_of c.peer) (cid_of peer) ≡ false
    → messages_of (restore_convo c (st, n)).0 peer ≡ messages_of st peer
unfolding restore_convo messages_of
restore_convo-other c st n peer other =
    ap (λ o. elim o as (λ _. List Message) [ none ↦ [] | some k ↦ k.messages ])
      (set_messages-other (ensure_convo st c.peer).convos (cid_of c.peer) _ (cid_of peer) other)
    ∙ (messages_of-ensure_convo st c.peer peer)

restore_convos-other :
    (convos : List SavedConvo) (st : State) (n : ℕ) (peer : Peer)
    → is_absent peer convos ≡ true
    → messages_of (restore_convos convos (st, n)).0 peer ≡ messages_of st peer
unfolding restore_convos is_absent
restore_convos-other [] st n peer h = refl
restore_convos-other (c ∷ convos) st n peer h =
    let (next, m) = restore_convo c (st, n) in
    restore_convos-other convos next m peer (ground (arith, h))
    ∙ restore_convo-other c st n peer (ground (arith, h))

abbrev pub Merged : State → State → SavedConvo → Type 0
Merged before after c =
    messages_of after c.peer ≡ sort_by_id (messages_of before c.peer ++ map load_message c.messages)

is_absent-All :
    (peer : Peer) (convos : List SavedConvo)
    → is_absent peer convos ≡ true
    → All (λ c. same (cid_of peer) (cid_of c.peer) ≡ false) convos
unfolding is_absent
is_absent-All peer [] h = tt
is_absent-All peer (c ∷ convos) h = (
  ground (arith, h, same→eq (cid_of peer) (cid_of c.peer), same_refl (cid_of peer)),
  is_absent-All peer convos (ground (arith, h)),
)

restore_convo-Merged :
    (c : SavedConvo) (st : State) (n : ℕ) (after : State) (convos : List SavedConvo)
    → All (λ d. same (cid_of c.peer) (cid_of d.peer) ≡ false) convos
    → All (Merged (restore_convo c (st, n)).0 after) convos
    → All (Merged st after) convos
restore_convo-Merged c st n after [] h k = tt
restore_convo-Merged c st n after (d ∷ convos) h k = (
  k.0
      ∙ ap (λ ms. sort_by_id (ms ++ map load_message d.messages))
          (restore_convo-other c st n d.peer h.0),
  restore_convo-Merged c st n after convos h.1 k.1,
)

pub restore_convos-all :
    (convos : List SavedConvo) (st : State) (n : ℕ)
    → are_distinct convos ≡ true
    → are_new st.seen (keys_in convos) ≡ true
    → All (Merged st (restore_convos convos (st, n)).0) convos
      × ((restore_convos convos (st, n)).1 ≡ n + count_in convos)
unfolding restore_convos are_distinct keys_in count_in
restore_convos-all [] st n apart new = (tt, ground arith)
restore_convos-all (c ∷ convos) st n apart new =
    let split = are_new-append st.seen (keys_of c) (keys_in convos) in
    let here : are_new st.seen (keys_of c) ≡ true = ground (arith, split, new) in
    let (next, m) = restore_convo c (st, n) in
    let later : are_new next.seen (keys_in convos) ≡ true =
      ap (λ s. are_new s (keys_in convos)) (restore_convo-seen c st n here)
      ∙ ground (arith, split, new) in
    let (merged, count) = restore_convos-all convos next m (ground (arith, apart)) later in
    let elsewhere = is_absent-All c.peer convos (ground (arith, apart)) in
    (
      (
        restore_convos-other convos next m c.peer (ground (arith, apart))
            ∙ restore_convo-messages c st n here,
        restore_convo-Merged c st n _ convos elsewhere merged,
      ),
      count ∙ ground (arith, restore_convo-count c st n here),
    )
