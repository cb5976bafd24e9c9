-- ===== src/History/Races.antt =====
-- Envelopes delivered more than once to client/js/app.js, after one another and interleaved.
use lattix.Prelude.{
  ℕ, ◌+◌, ◌≡◌, refl, ◌∙◌, Bool, true, false, Option, none, some, List, [], ◌∷◌, ◌++◌, length,
  length-append, arith, Bool-cases, inl, inr, same_refl,
}
use lattix.Prelude.Dict
use lattix.Prelude.Dict.{get-put, member-add}
use lattix.History.{
  Message, Peer, Convo, State, Envelope, Decoded, cid_of, msg_key_for, push_message, push_to,
  peer_of, blocker_of, begin_convo, begin_ingest, finish_ingest, ingest, is_expired, sweep_expired,
}
use lattix.History.Order.{length-sort_by_id}

-- An envelope of a blocked sender or peer changes no conversation, whatever the answers.
pub ingest_refuses :
    (now : ℕ) (st : State) (env : Envelope) (answer : Option (Bool × Decoded)) (live : Bool)
    → Dict.member st.blocked (blocker_of st env) ≡ true
    → (ingest now st env answer live).convos ≡ st.convos
unfolding ingest begin_ingest
ingest_refuses now st env answer live b =
    elim (Bool-cases (Dict.member st.seen (msg_key_for (peer_of st env) env.id))) [
      | inl e ↦ rw (e, ingest)
      | inr e ↦ rw (e, b, ingest)
    ]

push_message-known :
    (now : ℕ) (st : State) (p : Peer) (c : Convo) (m : Message) (live : Bool)
    → Dict.get st.convos (cid_of p) ≡ some c
    → is_expired now m ≡ false
    → (Dict.get (push_message now st p m live).convos (cid_of p)
        ≡ some (push_to st (cid_of p) c m live))
      × ((push_message now st p m live).seen ≡ Dict.add st.seen (msg_key_for p m.id))
unfolding push_message
push_message-known now st p c m live e fresh =
    rw (e, fresh, push_message)
      (
        (get-put st.convos (cid_of p) (push_to st (cid_of p) c m live) (cid_of p)
            ∙ (rw (same_refl (cid_of p)) refl)),
        refl,
      )

push_message-peer_of :
    (now : ℕ) (st : State) (p : Peer) (m : Message) (live : Bool) (env : Envelope)
    → peer_of (push_message now st p m live) env ≡ peer_of st env
unfolding push_message peer_of sweep_expired
push_message-peer_of now st p m live env = ground arith

length-push_to :
    (st : State) (cid : _) (c : Convo) (m : Message) (live : Bool)
    → length (push_to st cid c m live).messages ≡ length c.messages + 1
unfolding push_to
length-push_to st cid c m live =
    length-sort_by_id (c.messages ++ m ∷ []) ∙ length-append c.messages (m ∷ [])

abbrev pub messages_in : State → Peer → List Message
messages_in st p = elim (Dict.get st.convos (cid_of p)) [ none ↦ [] | some c ↦ c.messages ]

length-messages_in-push :
    (now : ℕ) (st : State) (p : Peer) (c : Convo) (m : Message) (live : Bool)
    → Dict.get st.convos (cid_of p) ≡ some c
    → is_expired now m ≡ false
    → length (messages_in (push_message now st p m live) p) ≡ length c.messages + 1
length-messages_in-push now st p c m live e fresh =
    rw ((push_message-known now st p c m live e fresh).0, messages_in, length)
      (length-push_to st (cid_of p) c m live)

-- Two ingestions of one envelope, the second begun before the first has finished: both go on, and
-- the conversation then holds two messages more.
pub interleaved_ingest_duplicates :
    (now : ℕ) (st : State) (env : Envelope) (c : Convo) (m : Message)
    → Dict.get st.convos (cid_of (peer_of st env)) ≡ some c
    → Dict.member st.seen (msg_key_for (peer_of st env) env.id) ≡ false
    → Dict.member st.blocked (blocker_of st env) ≡ false
    → is_expired now m ≡ false
    → (begin_ingest st env ≡ (st, true))
      × (length (
            messages_in
              (finish_ingest now (finish_ingest now st env (some m) true) env (some m) false)
              (peer_of st env))
          ≡ length (messages_in st (peer_of st env)) + 2)
unfolding begin_ingest finish_ingest begin_convo Dict.has
interleaved_ingest_duplicates now st env c m here unseen allowed fresh =
    let p = peer_of st env in
    let once = push_message now st p m true in
    let c' = push_to st (cid_of p) c m true in
    let known : Dict.get once.convos (cid_of p) ≡ some c' =
      (push_message-known now st p c m true here fresh).0 in
    let same_peer : peer_of once env ≡ p = push_message-peer_of now st p m true env in
    let twice : length (messages_in (push_message now once p m false) p) ≡ length c.messages + 2 =
      length-messages_in-push now once p c' m false known fresh
      ∙ ground (arith, length-push_to st (cid_of p) c m true) in
    (
      (rw (unseen, allowed, here, begin_ingest, begin_convo, Dict.has) refl),
      (rw (same_peer, here, messages_in) twice),
    )
