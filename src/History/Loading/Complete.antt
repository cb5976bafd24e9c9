-- ===== src/History/Loading/Complete.antt =====
-- What `loadDm`, `loadGroup` and a resync of client/js/app.js leave of the relay's history, and what
-- a live message that comes before them takes away.
use lattix.Prelude.{
  ℕ, ◌≤◌, ◌<◌, ◌≡◌, refl, ap, sym, subst, ◌∙◌, Bool, true, Option, some, List, [], ◌∷◌, ◌++◌, All,
  All_map, arith, length, Option-cases, inl, inr, same_refl,
}
use lattix.Prelude.Dict
use lattix.Prelude.Dict.{get-put}
use lattix.History.{
  Message, Peer, Convo, State, Envelope, Decoded, cid_of, ensure_convo, peer_of, blocker_of,
  push_to, ingest, decode_answer, ingest_all, pull_history, max_id_of, load_convo, shown,
}
use lattix.History.Ingest.{
  IsOrdered, IsKept, ingest-IsOrdered, IsNamed, All-get, ensure_convo-IsOrdered,
}
use lattix.History.Races.{messages_in}
use lattix.History.Paging.{
  InOrder, newer, relay_page, pull_history-relay_page, All-newer, InOrder-newer,
}
use lattix.History.Loading.{
  IsNew, ingest_all-shown, shown-same_me, pushed, ingest-some, decode_answer-eq-some,
  pushed-messages_in, still-IsNew, push_to-messages, messages_in-known, shown-pushed,
}
use lattix.History.Order.{Ascending-append_last}

module _ (st : State) (p : Peer) where
  -- A conversation that is made for the load is empty.
  known_after :
      (c : Convo) × (Dict.get (ensure_convo st p).convos (cid_of p) ≡ some c)
      × (c.messages ≡ messages_in st p)
      × (max_id_of (ensure_convo st p) p ≡ max_id_of st p)
      × (c.max_id ≡ max_id_of st p)
  unfolding ensure_convo max_id_of Dict.has
  known_after =
      let empty : Convo = record { peer = p; messages = []; unread = 0; max_id = 0 } in
      elim (Option-cases (Dict.get st.convos (cid_of p))) [
        | inl e ↦
            let made : Dict.get (Dict.put st.convos (cid_of p) empty) (cid_of p) ≡ some empty =
              get-put st.convos (cid_of p) empty (cid_of p) ∙ (rw (same_refl (cid_of p)) refl) in
            (
              empty,
              (rw (e, ensure_convo, Dict.has) made),
              (rw (e, messages_in) refl),
              (rw (e, ensure_convo, Dict.has, max_id_of) (rw (made) refl)),
              (rw (e, max_id_of) refl),
            )
        | inr (c, e) ↦ (
          c,
          (rw (e, ensure_convo, Dict.has) e),
          (rw (e, messages_in) refl),
          (rw (e, ensure_convo, Dict.has) refl),
          (rw (e, max_id_of) refl),
        )
      ]

  shown-ensure_convo :
      (answer : Envelope → Option (Bool × Decoded)) (envs : List Envelope)
      → shown (ensure_convo st p) answer envs ≡ shown st answer envs
  unfolding ensure_convo
  shown-ensure_convo answer envs = shown-same_me st (ensure_convo st p) answer envs (ground arith)

  IsNew-ensure_convo :
      (now : ℕ) (env : Envelope) → IsNew now st p env → IsNew now (ensure_convo st p) p env
  unfolding ensure_convo peer_of blocker_of
  IsNew-ensure_convo now env h = ground (arith, h.own, h.unseen, h.allowed, h.fresh)

older_than :
    (since : ℕ) (ms : List Message) (envs : List Envelope)
    → All (λ m. m.id ≤ since) ms
    → All (λ e. since < e.id) envs
    → All (λ e. All (λ m. m.id < e.id) ms) envs
older_than since ms envs h later =
    All_map _ _ envs (λ e lt. All_map _ _ ms (λ m le. omega arith) h) later

module _ (now : ℕ) (answer : Envelope → Option (Bool × Decoded)) (live : Bool) (guard page_size : ℕ)
    (history : List Envelope) (st : State) (p : Peer) where
  -- In a state that keeps its invariant, against a relay that answers pages of the size it
  -- announced, from a history in the order of the ids that is shorter than the guard, and where
  -- every envelope newer than the conversation's last id belongs to it, is unseen, not expired and
  -- from nobody blocked: loading a conversation shows what it showed before, followed by exactly
  -- the messages that the newer envelopes decode to, in their order, and leaves out only those whose
  -- sender's keys cannot be had or whose kind is unknown.
  pub load_convo-shown :
      IsOrdered st
      → IsNamed p
      → InOrder history
      → 0 < page_size
      → length (newer (max_id_of st p) history) < guard
      → All (IsNew now st p) (newer (max_id_of st p) history)
      → messages_in
          (load_convo now answer live guard page_size (relay_page history page_size) st p)
          p
        ≡ messages_in st p ++ shown st answer (newer (max_id_of st p) history)
  unfolding load_convo
  load_convo-shown ordered named o pos enough new =
      let (c, here, same_messages, same_since, since) = known_after st p in
      let begun = ensure_convo st p in
      let kept =
        All-get (IsKept begun.seen) begun.convos (cid_of p) c
          (ensure_convo-IsOrdered st p named ordered) here in
      let N = newer (max_id_of st p) history in
      let pulled : pull_history guard page_size (relay_page history page_size) (max_id_of begun p)
          ≡ N =
        ap (pull_history guard page_size (relay_page history page_size)) same_since
        ∙ pull_history-relay_page history guard page_size (max_id_of st p) o pos enough in
      let bounded : All (λ m. m.id ≤ max_id_of st p) c.messages = rw (sym since) kept.bounded in
      ap (λ envs. messages_in (ingest_all now answer live begun envs) p) pulled
      ∙ ingest_all-shown now answer live p N begun c here kept.ascending
          (InOrder-newer (max_id_of st p) history o)
          (older_than (max_id_of st p) c.messages N bounded (All-newer (max_id_of st p) history))
          (All_map _ _ N (λ e. IsNew-ensure_convo st p now e) new)
      ∙ ap (λ ms. ms ++ shown begun answer N) same_messages
      ∙ ap (λ ms. messages_in st p ++ ms) (shown-ensure_convo st p answer N)

max_id_of-pushed :
    (st : State) (p : Peer) (c : Convo) (m : Message) (env : Envelope)
    → Dict.get (pushed st p c true m).convos (cid_of p) ≡ some (push_to st (cid_of p) c m true)
    → m.id ≡ env.id
    → c.max_id < env.id
    → max_id_of (pushed st p c true m) p ≡ env.id
unfolding max_id_of push_to
max_id_of-pushed st p c m env here same_id above =
    rw (here, max_id_of) (ground (arith, same_id, above))

module _ (now : ℕ) (answer : Envelope → Option (Bool × Decoded)) (live : Bool) (guard page_size : ℕ)
    (history : List Envelope) (st : State) (p : Peer) where
  -- Under the same conditions on the relay and the state: a live message of the conversation,
  -- above its last id, that is ingested before the load begins. What the load then adds is newer
  -- than that message, so no envelope of the relay between the two ids is shown.
  pub load_convo-after_live :
      (c : Convo) (env : Envelope) (m : Message)
      → IsOrdered st
      → IsNamed p
      → InOrder history
      → 0 < page_size
      → length (newer env.id history) < guard
      → Dict.get st.convos (cid_of p) ≡ some c
      → c.max_id < env.id
      → IsNew now st p env
      → decode_answer st env (answer env) ≡ some m
      → All (IsNew now st p) (newer env.id history)
      → messages_in
          (load_convo now answer live guard page_size
            (relay_page history page_size)
            (ingest now st env (answer env) true)
            p)
          p
        ≡ (messages_in st p ++ m ∷ []) ++ shown st answer (newer env.id history)
  load_convo-after_live c env m ordered named o pos enough here above fresh decoded new =
      let (same_id, _) = decode_answer-eq-some now st p c env true (answer env) m decoded in
      let st' = pushed st p c true m in
      let c' = push_to st (cid_of p) c m true in
      let live_step : ingest now st env (answer env) true ≡ st' =
        ingest-some now st p c env true (answer env) m fresh here decoded in
      let here' : Dict.get st'.convos (cid_of p) ≡ some c' =
        pushed-messages_in now answer true p st c m env in
      let kept = All-get (IsKept st.seen) st.convos (cid_of p) c ordered here in
      let lower : All (λ n. n.id < m.id) c.messages =
        All_map _ _ c.messages (λ n le. omega (arith, same_id)) kept.bounded in
      let grown : messages_in st' p ≡ messages_in st p ++ m ∷ [] =
        messages_in-known st' p c' here'
        ∙ push_to-messages now answer true p st c m
            (Ascending-append_last c.messages m kept.ascending lower)
        ∙ ap (λ ms. ms ++ m ∷ []) (sym (messages_in-known st p c here)) in
      let since : max_id_of st' p ≡ env.id = max_id_of-pushed st p c m env here' same_id above in
      let ordered' : IsOrdered st' =
        subst IsOrdered live_step (
          ingest-IsOrdered now st env (answer env) true (rw fresh.own named) fresh.fresh ordered) in
      ap (λ s. messages_in (load s) p) live_step
      ∙ load_convo-shown now answer live guard page_size history st' p ordered' named o pos
          (rw since enough)
          (rw since (
            still-IsNew now answer true p st c m env (newer env.id history) same_id
              (All-newer env.id history) new))
      ∙ ap (λ ms. ms ++ shown st' answer (newer (max_id_of st' p) history)) grown
      ∙ ap (λ n. (messages_in st p ++ m ∷ []) ++ shown st' answer (newer n history)) since
      ∙ ap (λ ms. (messages_in st p ++ m ∷ []) ++ ms)
          (shown-pushed now answer true p st c m env (newer env.id history))
    where
      load : State → State
      load s = load_convo now answer live guard page_size (relay_page history page_size) s p
