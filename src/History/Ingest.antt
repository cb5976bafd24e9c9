-- ===== src/History/Ingest.antt =====
-- Ingestion in client/js/app.js, one envelope at a time: what stays true of the conversations.
use lattix.Prelude.{
  ℕ, ◌≤◌, ◌≡◌, ◌≢◌, ◌⊎◌, refl, ap, sym, Text, codes, same, Bool, true, false, Option, none, some,
  List, [], ◌∷◌, ◌++◌, All, drop, All_map, All-append, arith, Bool-cases, Option-cases, inl, inr,
  same→eq, same_refl,
}
use mathlib.Core.Path.{subst}
use lattix.Prelude.Dict
use lattix.Prelude.Dict.{Dict, member-add, get-put}
use lattix.Prelude.Decimal.{decimal, decimal-injective}
use lattix.History.{
  Message, Peer, Convo, State, Envelope, Decoded, dm, group, cid_of, ensure_convo, msg_key_for,
  push_message, push_to, peer_of, blocker_of, GroupLoad, group_loads, group_refused,
  members_refused, load_group, load_of, begin_convo, begin_ingest, finish_ingest, ingest, is_past,
  is_expired, decode_envelope, decode_answer, opened, failed,
}
use lattix.History.Order.{Ascending, Absent, Ascending-sort_append, All-sort_by_id}

-- Usernames have no colon, which the ids of groups' conversations do.
abbrev pub IsNamed : Peer → Type 0
IsNamed (dm username) = All (λ c. c ≢ 58) username
IsNamed (group id) = Unit {0}

colon_in : (t : Text) → All (λ c. c ≢ 58) (codes "group:" ++ t) → ⊥
colon_in t h = h.1.1.1.1.1.0 refl

cid_of_injective : (p q : Peer) → IsNamed p → IsNamed q → cid_of p ≡ cid_of q → p ≡ q
unfolding cid_of
cid_of_injective (dm u) (dm v) hp hq e = ap dm e
cid_of_injective (dm u) (group g) hp hq e =
    absurd (colon_in (decimal g) (subst (All (λ c. c ≢ 58)) e hp))
cid_of_injective (group g) (dm v) hp hq e =
    absurd (colon_in (decimal g) (subst (All (λ c. c ≢ 58)) (sym e) hq))
cid_of_injective (group g) (group h) hp hq e = ap group (decimal-injective g h (ap (drop 6) e))

-- A conversation is filed under its own id, its messages ascend strictly, none is above the id
-- from which the history is loaded again, and each is known as seen.
pub record IsKept (seen : List Text) (entry : Text × Convo) : Type 0 where
  pub filed : entry.0 ≡ cid_of entry.1.peer
  pub named : IsNamed entry.1.peer
  pub ascending : Ascending entry.1.messages
  pub bounded : All (λ m. m.id ≤ entry.1.max_id) entry.1.messages
  pub known : All (λ m. Dict.member seen (msg_key_for entry.1.peer m.id) ≡ true) entry.1.messages

abbrev pub IsOrdered : State → Type 0
IsOrdered st = All (IsKept st.seen) st.convos

module _ (P : Text × Convo → Type 0) where
  All-put : (d : Dict Convo) (k : Text) (c : Convo) → All P d → P (k, c) → All P (Dict.put d k c)
  unfolding Dict.put
  All-put [] k c h q = (q, tt)
  All-put ((j, b) ∷ d) k c h q = elim (Bool-cases (same j k)) [
    | inl e ↦ rw (e, Dict.put) (rw (same→eq j k e) q, h.1)
    | inr e ↦ rw (e, Dict.put) (h.0, All-put d k c h.1 q)
  ]

  pub All-get : (d : Dict Convo) (k : Text) (c : Convo) → All P d → Dict.get d k ≡ some c → P (k, c)
  unfolding Dict.get
  All-get [] k c h e = absurd (cc)
  All-get ((j, b) ∷ d) k c h e = elim (Bool-cases (same j k)) [
    | inl s ↦ let eb : b ≡ c = ground arith in rw (sym (same→eq j k s), sym eb) h.0
    | inr s ↦ All-get d k c h.1 (ground arith)
  ]

IsKept-add :
    (seen : List Text) (key : Text) (e : Text × Convo)
    → IsKept seen e
    → IsKept (Dict.add seen key) e
IsKept-add seen key e h = record {
  filed = h.filed;
  named = h.named;
  ascending = h.ascending;
  bounded = h.bounded;
  known =
      All_map _ _ e.1.messages
        (λ m q. ground (arith, member-add seen key (msg_key_for e.1.peer m.id))) h.known;
}

IsOrdered-add :
    (seen : List Text) (key : Text) (d : Dict Convo)
    → All (IsKept seen) d
    → All (IsKept (Dict.add seen key)) d
IsOrdered-add seen key d h = All_map _ _ d (IsKept-add seen key) h

absent :
    (seen : List Text) (p : Peer) (id : ℕ) (ms : List Message)
    → Dict.member seen (msg_key_for p id) ≡ false
    → All (λ m. Dict.member seen (msg_key_for p m.id) ≡ true) ms
    → Absent id ms
absent seen p id ms h q = All_map _ _ ms (λ m k e. absurd (ground arith)) q

push_to-IsKept :
    (st : State) (peer : Peer) (c : Convo) (msg : Message) (live : Bool)
    → c.peer ≡ peer
    → Dict.member st.seen (msg_key_for peer msg.id) ≡ false
    → IsKept st.seen (cid_of peer, c)
    → IsKept
        (Dict.add st.seen (msg_key_for peer msg.id))
        (cid_of peer, push_to st (cid_of peer) c msg live)
unfolding push_to
push_to-IsKept st peer c msg live own unseen kept =
    let key = msg_key_for peer msg.id in
    let kept' = IsKept-add st.seen key (cid_of peer, c) kept in
    let new : Absent msg.id c.messages =
      absent st.seen c.peer msg.id c.messages (rw own unseen) kept.known in
    let added : Dict.member (Dict.add st.seen key) (msg_key_for c.peer msg.id) ≡ true =
      rw (own, member-add st.seen key key, same_refl key) refl in
    record {
      filed = kept.filed;
      named = kept.named;
      ascending = Ascending-sort_append c.messages msg new kept.ascending;
      bounded = All-sort_by_id _ (c.messages ++ msg ∷ []) (
          All-append _ c.messages (msg ∷ [])
            (All_map _ _ c.messages (λ m q. omega arith) kept.bounded) ((omega arith), tt));
      known =
          All-sort_by_id _ (c.messages ++ msg ∷ [])
            (All-append _ c.messages (msg ∷ []) kept'.known (added, tt));
    }

push_message-IsOrdered :
    (now : ℕ) (st : State) (peer : Peer) (msg : Message) (live : Bool)
    → IsNamed peer
    → Dict.member st.seen (msg_key_for peer msg.id) ≡ false
    → is_expired now msg ≡ false
    → IsOrdered st
    → IsOrdered (push_message now st peer msg live)
unfolding push_message
push_message-IsOrdered now st peer msg live named unseen fresh h =
    elim (Option-cases (Dict.get st.convos (cid_of peer))) [
      | inl e ↦ rw (e, push_message) (IsOrdered-add st.seen _ st.convos h)
      | inr (c, e) ↦
          let kept = All-get _ st.convos (cid_of peer) c h e in
          let own : c.peer ≡ peer =
            cid_of_injective c.peer peer kept.named named (sym kept.filed) in
          rw (e, fresh, push_message)
            (All-put _ st.convos (cid_of peer) (push_to st (cid_of peer) c msg live)
              (IsOrdered-add st.seen _ st.convos h)
              (push_to-IsKept st peer c msg live own unseen kept))
    ]

pub ensure_convo-IsOrdered :
    (st : State) (peer : Peer) → IsNamed peer → IsOrdered st → IsOrdered (ensure_convo st peer)
unfolding ensure_convo
ensure_convo-IsOrdered st peer named h = elim (Bool-cases (Dict.has st.convos (cid_of peer))) [
  | inl e ↦ rw (e, ensure_convo) h
  | inr e ↦
      rw (e, ensure_convo)
        (All-put _ st.convos (cid_of peer) _ h
          record { filed = refl; named = named; ascending = tt; bounded = tt; known = tt })
]

ensure_convo-seen : (st : State) (peer : Peer) → (ensure_convo st peer).seen ≡ st.seen
unfolding ensure_convo
ensure_convo-seen st peer = ground arith

pub decode_envelope-eq-some :
    (st : State) (env : Envelope) (alerted : Bool) (d : Decoded) (m : Message)
    → decode_envelope st env alerted d ≡ some m
    → (m.id ≡ env.id) × (m.expires_at ≡ env.expires_at)
unfolding decode_envelope
decode_envelope-eq-some st env alerted (opened t v) m e = ground arith
decode_envelope-eq-some st env alerted (failed t) m e = ground arith

pub peer_of-ensure_convo :
    (st : State) (p : Peer) (env : Envelope) → peer_of (ensure_convo st p) env ≡ peer_of st env
unfolding peer_of ensure_convo
peer_of-ensure_convo st p env = ground arith

finish_ingest-IsOrdered :
    (now : ℕ) (st : State) (env : Envelope) (alerted : Bool) (d : Decoded) (live : Bool)
    → IsNamed (peer_of st env)
    → Dict.member st.seen (msg_key_for (peer_of st env) env.id) ≡ false
    → is_past now env.expires_at ≡ false
    → IsOrdered st
    → IsOrdered (finish_ingest now st env (decode_envelope st env alerted d) live)
unfolding finish_ingest is_expired
finish_ingest-IsOrdered now st env alerted d live named unseen fresh h =
    elim (Option-cases (decode_envelope st env alerted d)) [
      | inl e ↦ rw (e, finish_ingest) h
      | inr (m, e) ↦
          let (same_id, same_deadline) = decode_envelope-eq-some st env alerted d m e in
          rw (e, finish_ingest)
            (push_message-IsOrdered now st (peer_of st env) m live named (rw same_id unseen)
              (rw same_deadline fresh) h)
    ]

GroupLoad-cases :
    (st : State) (p : Peer) (l : GroupLoad)
    → (load_group l st p ≡ (ensure_convo st p, true))
      ⊎ ((load_group l st p ≡ (st, false)) ⊎ (load_group l st p ≡ (ensure_convo st p, false)))
unfolding load_group
GroupLoad-cases st p group_loads = inl refl
GroupLoad-cases st p group_refused = inr (inl refl)
GroupLoad-cases st p members_refused = inr (inr refl)

known_convo :
    (st : State) (p : Peer) → Dict.has st.convos (cid_of p) ≡ true → ensure_convo st p ≡ st
unfolding ensure_convo
known_convo st p e = rw (e, ensure_convo) refl

begin_convo-cases :
    (st : State) (env : Envelope)
    → (begin_convo st env ≡ (ensure_convo st (peer_of st env), true))
      ⊎ ((begin_convo st env ≡ (st, false))
          ⊎ (begin_convo st env ≡ (ensure_convo st (peer_of st env), false)))
unfolding begin_convo
begin_convo-cases st env =
    let p = peer_of st env in
    elim (Bool-cases (Dict.has st.convos (cid_of p))) [
      | inl e ↦ inl (rw (begin_convo, e) (ap (λ s. (s, true)) (sym (known_convo st p e))))
      | inr e ↦ elim (GroupLoad-cases st p (load_of env)) [
        | inl k ↦ inl (rw (begin_convo, e) k)
        | inr (inl k) ↦ inr (inl (rw (begin_convo, e) k))
        | inr (inr k) ↦ inr (inr (rw (begin_convo, e) k))
      ]
    ]

-- Ingesting an envelope whose deadline has not passed, whatever its decryption gives, keeps every
-- conversation sorted by strictly ascending id (so without a message twice), bounded by the id
-- its history is continued from, filed under its own id and known as seen.
pub ingest-IsOrdered :
    (now : ℕ) (st : State) (env : Envelope) (answer : Option (Bool × Decoded)) (live : Bool)
    → IsNamed (peer_of st env)
    → is_past now env.expires_at ≡ false
    → IsOrdered st
    → IsOrdered (ingest now st env answer live)
unfolding ingest begin_ingest finish_ingest decode_answer
ingest-IsOrdered now st env answer live named fresh h =
    let p = peer_of st env in
    let key = msg_key_for p env.id in
    elim (Bool-cases (Dict.member st.seen key)) [
      | inl e ↦
          let begun : begin_ingest st env ≡ (st, false) = rw (e, begin_ingest) refl in
          rw (begun, ingest) h
      | inr e ↦ elim (Bool-cases (Dict.member st.blocked (blocker_of st env))) [
        | inl b ↦
            let begun : begin_ingest st env ≡ (record st { seen = Dict.add st.seen key }, false) =
              rw (e, b, begin_ingest) refl in
            rw (begun, ingest) (IsOrdered-add st.seen key st.convos h)
        | inr b ↦ elim (begin_convo-cases st env) [
          | inl k ↦
              let begun : begin_ingest st env ≡ (ensure_convo st p, true) =
                rw (begin_ingest, e, b) k in
              rw (begun, ingest) (finish answer e)
          | inr (inl k) ↦
              let begun : begin_ingest st env ≡ (st, false) = rw (begin_ingest, e, b) k in
              rw (begun, ingest) h
          | inr (inr k) ↦
              let begun : begin_ingest st env ≡ (ensure_convo st p, false) =
                rw (begin_ingest, e, b) k in
              rw (begun, ingest) (ensure_convo-IsOrdered st p named h)
        ]
      ]
    ]
  where
    p : Peer
    p = peer_of st env

    finish :
        (a : Option (Bool × Decoded))
        → Dict.member st.seen (msg_key_for p env.id) ≡ false
        → IsOrdered (
            finish_ingest now
              (ensure_convo st p)
              env
              (decode_answer (ensure_convo st p) env a)
              live)
    finish none e = ensure_convo-IsOrdered st p named h
    finish (some (alerted, d)) e =
        let same_peer = peer_of-ensure_convo st p env in
        finish_ingest-IsOrdered now (ensure_convo st p) env alerted d live (rw same_peer named)
          (rw (same_peer, ensure_convo-seen st p) e) fresh (ensure_convo-IsOrdered st p named h)
