-- ===== src/History/Loading.antt =====
-- The loading of a conversation's history in client/js/app.js: which messages it shows.
pub mod Complete
use lattix.Prelude.{
  ℕ, Text, ◌≤◌, ◌<◌, ◌≡◌, refl, codes, same, drop, ne→same, ap, sym, ◌∙◌, Bool, true, false, Option,
  none, some, List, [], ◌∷◌, ◌++◌, All, All_map, All-append, append_assoc, append-nil, arith, ltb,
  length, if◌then◌else◌, Option-cases, Bool-cases, inl, inr, same_refl, max,
}
use lattix.Prelude.Dict
use lattix.Prelude.Dict.{get-put, member-add}
use lattix.Prelude.Decimal.{decimal, decimal-injective}
use lattix.History.{
  Message, Peer, dm, group, Convo, State, Envelope, Decoded, opened, failed, cid_of, ensure_convo,
  msg_key_for, push_message, push_to, peer_of, blocker_of, begin_convo, begin_ingest, finish_ingest,
  ingest, is_past, is_expired, decode_envelope, decode_answer, ingest_all, max_id_of, load_convo,
  shown, add_some,
}
use lattix.History.Order.{Ascending, sort_by_id-Ascending, Ascending-append_last}
use lattix.History.Ingest.{decode_envelope-eq-some}
use lattix.History.Races.{messages_in}
use lattix.History.Paging.{InOrder, newer, relay_page, pull_history-relay_page}

-- The envelope belongs to the conversation, is new to the device, comes from nobody blocked, and
-- its deadline has not passed.
pub record IsNew (now : ℕ) (st : State) (peer : Peer) (env : Envelope) : Type 0 where
  pub own : peer_of st env ≡ peer
  pub unseen : Dict.member st.seen (msg_key_for peer env.id) ≡ false
  pub allowed : Dict.member st.blocked (blocker_of st env) ≡ false
  pub fresh : is_past now env.expires_at ≡ false

-- The conversation is there, and its messages ascend and are older than `env`.
pub record IsBefore (st : State) (peer : Peer) (c : Convo) (env : Envelope) : Type 0 where
  pub here : Dict.get st.convos (cid_of peer) ≡ some c
  pub ascending : Ascending c.messages
  pub older : All (λ m. m.id < env.id) c.messages

-- The state after a message has been added and nothing has expired.
unfoldable pub pushed : State → Peer → Convo → Bool → Message → State
pushed st peer c live m = record st {
  seen = Dict.add st.seen (msg_key_for peer m.id);
  convos = Dict.put st.convos (cid_of peer) (push_to st (cid_of peer) c m live);
}

module _ (now : ℕ) (st : State) (peer : Peer) (c : Convo) (env : Envelope) (live : Bool) where
  pub decode_answer-eq-some :
      (answer : Option (Bool × Decoded)) (m : Message)
      → decode_answer st env answer ≡ some m
      → (m.id ≡ env.id) × (m.expires_at ≡ env.expires_at)
  unfolding decode_answer
  decode_answer-eq-some none m e = absurd (cc)
  decode_answer-eq-some (some (alerted, d)) m e = decode_envelope-eq-some st env alerted d m e

  ingest-begun :
      IsNew now st peer env
      → Dict.get st.convos (cid_of peer) ≡ some c
      → begin_ingest st env ≡ (st, true)
  unfolding begin_ingest begin_convo Dict.has
  ingest-begun h here = rw (h.own, h.unseen, h.allowed, here, begin_ingest, begin_convo, Dict.has)

  ingest-finish :
      (answer : Option (Bool × Decoded))
      → IsNew now st peer env
      → Dict.get st.convos (cid_of peer) ≡ some c
      → ingest now st env answer live ≡ finish_ingest now st env (decode_answer st env answer) live
  unfolding ingest
  ingest-finish answer h here =
      ap
        (λ (r : State × Bool).
          if r.1 then finish_ingest now r.0 env (decode_answer r.0 env answer) live else r.0)
        (ingest-begun h here)

  push_message-pushed :
      (m : Message)
      → Dict.get st.convos (cid_of peer) ≡ some c
      → is_expired now m ≡ false
      → push_message now st peer m live ≡ pushed st peer c live m
  unfolding push_message pushed
  push_message-pushed m here fresh = rw (here, fresh, push_message) refl

  ingest-none :
      (answer : Option (Bool × Decoded))
      → IsNew now st peer env
      → Dict.get st.convos (cid_of peer) ≡ some c
      → decode_answer st env answer ≡ none
      → ingest now st env answer live ≡ st
  unfolding finish_ingest
  ingest-none answer h here e =
      ingest-finish answer h here ∙ ap (λ r. finish_ingest now st env r live) e

  pub ingest-some :
      (answer : Option (Bool × Decoded)) (m : Message)
      → IsNew now st peer env
      → Dict.get st.convos (cid_of peer) ≡ some c
      → decode_answer st env answer ≡ some m
      → ingest now st env answer live ≡ pushed st peer c live m
  unfolding finish_ingest is_expired
  ingest-some answer m h here e =
      ingest-finish answer h here
      ∙ ap (λ r. finish_ingest now st env r live) e
      ∙ ap (λ q. push_message now st q m live) h.own
      ∙ push_message-pushed m here (ap (is_past now) (decode_answer-eq-some answer m e).1 ∙ h.fresh)

pub messages_in-known :
    (st : State) (peer : Peer) (c : Convo)
    → Dict.get st.convos (cid_of peer) ≡ some c
    → messages_in st peer ≡ c.messages
messages_in-known st peer c here = rw (here, messages_in) refl

append_cancel_left : (s t u : Text) → s ++ t ≡ s ++ u → t ≡ u
append_cancel_left [] t u e = e
append_cancel_left (x ∷ s) t u e = append_cancel_left s t u (ap (drop 1) e)

msg_key_for_injective : (p : Peer) (i j : ℕ) → msg_key_for p i ≡ msg_key_for p j → i ≡ j
unfolding msg_key_for
msg_key_for_injective (dm u) i j e = decimal-injective i j (ap (drop 1) e)
msg_key_for_injective (group g) i j e =
    decimal-injective i j
      (append_cancel_left (codes "g" ++ decimal g ++ codes ":") (decimal i) (decimal j) e)

decode_answer-same_me :
    (st st' : State) (env : Envelope) (answer : Option (Bool × Decoded))
    → st'.me ≡ st.me
    → decode_answer st' env answer ≡ decode_answer st env answer
unfolding decode_answer decode_envelope
decode_answer-same_me st st' env none e = refl
decode_answer-same_me st st' env (some (alerted, opened text verified)) e = ground (arith, e)
decode_answer-same_me st st' env (some (alerted, failed text)) e = refl

pub shown-same_me :
    (st st' : State) (answer : Envelope → Option (Bool × Decoded)) (envs : List Envelope)
    → st'.me ≡ st.me
    → shown st' answer envs ≡ shown st answer envs
unfolding shown
shown-same_me st st' answer [] e = refl
shown-same_me st st' answer (env ∷ envs) e =
    ap (λ r. add_some r (shown st' answer envs)) (decode_answer-same_me st st' env (answer env) e)
    ∙ ap (add_some (decode_answer st env (answer env))) (shown-same_me st st' answer envs e)

module _ (now : ℕ) (answer : Envelope → Option (Bool × Decoded)) (live : Bool) (peer : Peer) where
  pub push_to-messages :
      (st : State) (c : Convo) (m : Message)
      → Ascending (c.messages ++ m ∷ [])
      → (push_to st (cid_of peer) c m live).messages ≡ c.messages ++ m ∷ []
  unfolding push_to
  push_to-messages st c m a = sort_by_id-Ascending (c.messages ++ m ∷ []) a

  pushed-IsNew :
      (st : State) (c : Convo) (m : Message) (env : Envelope)
      → m.id < env.id
      → IsNew now st peer env
      → IsNew now (pushed st peer c live m) peer env
  unfolding pushed peer_of blocker_of
  pushed-IsNew st c m env lt h =
      let other : same (msg_key_for peer m.id) (msg_key_for peer env.id) ≡ false =
        ne→same _ _ (λ e. absurd (omega (arith, msg_key_for_injective peer m.id env.id e))) in
      record {
        own = h.own;
        unseen = member-add st.seen _ _ ∙ ground (arith, other, h.unseen);
        allowed = h.allowed;
        fresh = h.fresh;
      }

  -- One more envelope, and what holds of the state for those that follow it.
  pub pushed-messages_in :
      (st : State) (c : Convo) (m : Message) (env : Envelope)
      → Dict.get (pushed st peer c live m).convos (cid_of peer)
        ≡ some (push_to st (cid_of peer) c m live)
  unfolding pushed
  pushed-messages_in st c m env =
      get-put st.convos (cid_of peer) (push_to st (cid_of peer) c m live) (cid_of peer)
      ∙ (rw (same_refl (cid_of peer)) refl)

  pub shown-pushed :
      (st : State) (c : Convo) (m : Message) (env : Envelope) (envs : List Envelope)
      → shown (pushed st peer c live m) answer envs ≡ shown st answer envs
  unfolding pushed
  shown-pushed st c m env envs = shown-same_me st (pushed st peer c live m) answer envs refl

  older_than_rest :
      (c c' : Convo) (m : Message) (env : Envelope) (envs : List Envelope)
      → m.id ≡ env.id
      → c'.messages ≡ c.messages ++ m ∷ []
      → All (λ e. env.id < e.id) envs
      → All (λ e. All (λ n. n.id < e.id) c.messages) envs
      → All (λ e. All (λ n. n.id < e.id) c'.messages) envs
  older_than_rest c c' m env [] i g later older = tt
  older_than_rest c c' m env (e ∷ envs) i g later older = (
    rw g (All-append _ c.messages (m ∷ []) older.0 (rw i later.0, tt)),
    older_than_rest c c' m env envs i g later.1 older.1,
  )

  pub still-IsNew :
      (st : State) (c : Convo) (m : Message) (env : Envelope) (envs : List Envelope)
      → m.id ≡ env.id
      → All (λ e. env.id < e.id) envs
      → All (IsNew now st peer) envs
      → All (IsNew now (pushed st peer c live m) peer) envs
  still-IsNew st c m env [] i later new = tt
  still-IsNew st c m env (e ∷ envs) i later new =
      (pushed-IsNew st c m e (rw i later.0) new.0, still-IsNew st c m env envs i later.1 new.1)

  pub ingest_all-shown :
      (envs : List Envelope) (st : State) (c : Convo)
      → Dict.get st.convos (cid_of peer) ≡ some c
      → Ascending c.messages
      → InOrder envs
      → All (λ e. All (λ m. m.id < e.id) c.messages) envs
      → All (IsNew now st peer) envs
      → messages_in (ingest_all now answer live st envs) peer ≡ c.messages ++ shown st answer envs
  unfolding ingest_all shown add_some
  ingest_all-shown [] st c here asc ordered older new =
      messages_in-known st peer c here ∙ sym (append-nil c.messages)
  ingest_all-shown (env ∷ envs) st c here asc ordered older new =
      elim (Option-cases (decode_answer st env (answer env))) [
        | inl e ↦
            ap (λ s. messages_in (ingest_all now answer live s envs) peer)
              (ingest-none now st peer c env live (answer env) new.0 here e)
            ∙ ingest_all-shown envs st c here asc ordered.1 older.1 new.1
            ∙ ap (λ r. c.messages ++ add_some r (shown st answer envs)) (sym e)
        | inr (m, e) ↦
            let same_id = (decode_answer-eq-some now st peer c env live (answer env) m e).0 in
            let st' = pushed st peer c live m in
            let c' = push_to st (cid_of peer) c m live in
            let asc' : Ascending (c.messages ++ m ∷ []) =
              Ascending-append_last c.messages m asc (rw same_id older.0) in
            let grown : c'.messages ≡ c.messages ++ m ∷ [] = push_to-messages st c m asc' in
            let step =
              ingest_all-shown envs st' c' (pushed-messages_in st c m env) (rw grown asc') ordered.1
                (older_than_rest c c' m env envs same_id grown ordered.0 older.1)
                (still-IsNew st c m env envs same_id ordered.0 new.1) in
            ap (λ s. messages_in (ingest_all now answer live s envs) peer)
              (ingest-some now st peer c env live (answer env) m new.0 here e)
            ∙ step
            ∙ ap (λ q. q ++ shown st' answer envs) grown
            ∙ ap (λ q. (c.messages ++ m ∷ []) ++ q) (shown-pushed st c m env envs)
            ∙ append_assoc c.messages (m ∷ []) (shown st answer envs)
            ∙ ap (λ r. c.messages ++ add_some r (shown st answer envs)) (sym e)
      ]
