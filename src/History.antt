-- ===== src/History.antt =====
-- Conversations of client/js/app.js: the model of a conversation, the ingestion of envelopes, the
-- sweep of expired messages, and the loading of history page by page. Rendering, sounds and
-- notifications are left out; they read this state and write none of it.
pub mod Order
pub mod Ingest
pub mod Races
pub mod Paging
pub mod Loading
mod Tests
use lattix.Prelude.{
  ℕ, ◌+◌, ◌*◌, max, Text, codes, same, Bool, true, false, not, ◌&&◌, ◌||◌, Option, none, some, List,
  [], ◌∷◌, ◌++◌, map, filter, leb, ◌==◌, if◌then◌else◌, zero, suc, length,
}
use lattix.Prelude.Dict
use lattix.Prelude.Dict.{Dict}
use lattix.Prelude.Decimal.{decimal}

pub data Kind : Type 0 where
  message file error : Kind

unfoldable pub is_file : Kind → Bool
is_file file = true
is_file _ = false

-- A message. Of what a file message holds besides its name, which is the text here, only this is kept:
-- whether it has the `file_id`, `payload` and `ctx` that its contents are fetched by.
pub record Message : Type 0 where
  pub id : ℕ
  pub sender : Text
  pub ts : ℕ
  pub kind : Kind
  pub text : Text
  pub verified : Bool
  pub key_alert : Bool
  pub has_payload : Bool
  pub expires_at : Option ℕ

-- `type` and `id` of a conversation.
pub data Peer : Type 0 where
  dm : Text → Peer
  group : ℕ → Peer

pub record Convo : Type 0 where
  pub peer : Peer
  pub messages : List Message
  pub unread : ℕ
  pub max_id : ℕ

pub record State : Type 0 where
  pub me : Text
  pub convos : Dict Convo
  pub seen : List Text
  pub blocked : List Text
  pub current : Option Text

-- `dmCid` and `groupCid`.
unfoldable pub cid_of : Peer → Text
cid_of (dm username) = username
cid_of (group id) = codes "group:" ++ decimal id

-- `ensureDmConvo`, `ensureGroupConvo`: the metadata of a group are not kept here.
unfoldable pub ensure_convo : State → Peer → State
ensure_convo st peer = if Dict.has st.convos (cid_of peer) then st else record st {
  convos =
      Dict.put st.convos (cid_of peer)
        (record { peer = peer; messages = []; unread = 0; max_id = 0 });
}

-- `msgKeyFor`
unfoldable pub msg_key_for : Peer → ℕ → Text
msg_key_for (dm _) id = codes "d" ++ decimal id
msg_key_for (group gid) id = codes "g" ++ decimal gid ++ codes ":" ++ decimal id

-- `sort((a, b) => a.id - b.id)`, which is stable.
unfoldable pub insert_by_id : Message → List Message → List Message
insert_by_id m [] = m ∷ []
insert_by_id m (n ∷ ns) = if leb m.id n.id then m ∷ n ∷ ns else n ∷ insert_by_id m ns

unfoldable pub sort_by_id : List Message → List Message
sort_by_id [] = []
sort_by_id (m ∷ ms) = insert_by_id m (sort_by_id ms)

-- Whether a deadline, in seconds, has passed at `now`, in milliseconds; a deadline of 0 is none.
unfoldable pub is_past : ℕ → Option ℕ → Bool
is_past now none = false
is_past now (some t) = not (t == 0) && leb (t * 1000) now

unfoldable pub is_expired : ℕ → Message → Bool
unfolding is_past
is_expired now m = is_past now m.expires_at

-- The sweep of one conversation, and the keys that it makes unseen.
unfoldable pub sweep_convo : ℕ → Convo → Convo
sweep_convo now c = record c { messages = filter (λ m. not (is_expired now m)) c.messages }

unsee : Peer → List Message → List Text → List Text
unsee peer [] seen = seen
unsee peer (m ∷ ms) seen = unsee peer ms (Dict.remove seen (msg_key_for peer m.id))

sweep_seen : ℕ → Dict Convo → List Text → List Text
sweep_seen now [] seen = seen
sweep_seen now ((cid, c) ∷ convos) seen =
    sweep_seen now convos (unsee c.peer (filter (is_expired now) c.messages) seen)

unfoldable pub sweep_expired : ℕ → State → State
unfolding unsee sweep_seen
sweep_expired now st = record st {
  convos = map (λ e. (e.0, sweep_convo now e.1)) st.convos;
  seen = sweep_seen now st.convos st.seen;
}

is_current : State → Text → Bool
is_current st cid = elim st.current [ none ↦ false | some c ↦ same cid c ]

-- The conversation after `pushMessage`.
unfoldable pub push_to : State → Text → Convo → Message → Bool → Convo
unfolding is_current
push_to st cid c msg live = record c {
  max_id = max c.max_id msg.id;
  messages = sort_by_id (c.messages ++ msg ∷ []);
  unread =
      if live && not (same msg.sender st.me) && not (is_current st cid)
      then c.unread + 1
      else c.unread;
}

-- `pushMessage`; where the conversation has been dropped meanwhile, only `seen` changes.
unfoldable pub push_message : ℕ → State → Peer → Message → Bool → State
push_message now st peer msg live =
    let seen = Dict.add st.seen (msg_key_for peer msg.id) in
    elim (Dict.get st.convos (cid_of peer)) [
      | none ↦ record st { seen = seen }
      | some c ↦
          let pushed = record st {
            seen = seen;
            convos = Dict.put st.convos (cid_of peer) (push_to st (cid_of peer) c msg live);
          } in
          if is_expired now msg then sweep_expired now pushed else pushed
    ]

-- What `ensureGroupLoaded` comes to: the group, a refusal of the relay, or a refusal of the keys of a
-- member, after the conversation was made.
pub data GroupLoad : Type 0 where
  group_loads group_refused members_refused : GroupLoad

-- An envelope of the relay, with what loading its group comes to where that is not known. `kind` is `none` for a kind that the client does not know.
pub record Envelope : Type 0 where
  pub id : ℕ
  pub sender : Text
  pub recipient : Text
  pub group_id : Option ℕ
  pub group_load : GroupLoad
  pub created_at : ℕ
  pub kind : Option Kind
  pub expires_at : Option ℕ

-- What decryption gave: the text (or file name) and whether it was verified, or the error's text.
pub data Decoded : Type 0 where
  opened : Text → Bool → Decoded
  failed : Text → Decoded

-- `decodeEnvelope`, after its `await`s; `alerted` tells whether a key alert stands for the sender.
unfoldable pub decode_envelope : State → Envelope → Bool → Decoded → Option Message
decode_envelope st env alerted (opened text verified) = elim env.kind [
  | none ↦ none
  | some kind ↦
      let key_alert = not (same env.sender st.me) && alerted in
      some (record {
        id = env.id;
        sender = env.sender;
        ts = env.created_at;
        kind = kind;
        text = text;
        verified = verified && not key_alert;
        key_alert = key_alert;
        has_payload = is_file kind;
        expires_at = env.expires_at;
      })
]
decode_envelope st env alerted (failed text) = elim env.kind [
  | none ↦ none
  | some _ ↦ some (record {
    id = env.id;
    sender = env.sender;
    ts = env.created_at;
    kind = error;
    text = text;
    verified = false;
    key_alert = false;
    has_payload = false;
    expires_at = env.expires_at;
  })
]

-- The conversation that an envelope belongs to, and whose blocking drops it.
unfoldable pub peer_of : State → Envelope → Peer
peer_of st env = elim env.group_id [
  | none ↦ dm (if same env.sender st.me then env.recipient else env.sender)
  | some gid ↦ group gid
]

unfoldable pub blocker_of : State → Envelope → Text
blocker_of st env = elim env.group_id [
  | none ↦ if same env.sender st.me then env.recipient else env.sender
  | some gid ↦ env.sender
]

unfoldable pub load_group : GroupLoad → State → Peer → State × Bool
load_group group_loads st peer = (ensure_convo st peer, true)
load_group group_refused st peer = (st, false)
load_group members_refused st peer = (ensure_convo st peer, false)

-- A direct conversation needs no loading.
unfoldable pub load_of : Envelope → GroupLoad
load_of env = elim env.group_id [ none ↦ group_loads | some _ ↦ env.group_load ]

-- The conversation of an envelope, made or loaded where it is not there.
unfoldable pub begin_convo : State → Envelope → State × Bool
begin_convo st env =
    let peer = peer_of st env in
    if Dict.has st.convos (cid_of peer) then (st, true) else load_group (load_of env) st peer

-- `ingestDm` and `ingestGroup` up to the `await` of the sender's keys: true where they go on.
unfoldable pub begin_ingest : State → Envelope → State × Bool
begin_ingest st env =
    let key = msg_key_for (peer_of st env) env.id in
    if Dict.member st.seen key
    then (st, false)
    else if Dict.member st.blocked (blocker_of st env)
    then (record st { seen = Dict.add st.seen key }, false)
    else begin_convo st env

-- The part after the last `await`: `msg` is `none` where the keys could not be had or the kind is
-- unknown.
unfoldable pub finish_ingest : ℕ → State → Envelope → Option Message → Bool → State
finish_ingest now st env none live = st
finish_ingest now st env (some msg) live = push_message now st (peer_of st env) msg live

-- `answer` is `none` where the sender's keys could not be had.
unfoldable pub decode_answer : State → Envelope → Option (Bool × Decoded) → Option Message
decode_answer st env none = none
decode_answer st env (some (alerted, decoded)) = decode_envelope st env alerted decoded

-- One envelope with nothing else running in between.
unfoldable pub ingest : ℕ → State → Envelope → Option (Bool × Decoded) → Bool → State
ingest now st env answer live =
    let (begun, goes_on) = begin_ingest st env in
    if goes_on then finish_ingest now begun env (decode_answer begun env answer) live else begun

-- `page[page.length - 1].id`
unfoldable pub last_id : ℕ → List Envelope → ℕ
last_id since [] = since
last_id since (env ∷ page) = last_id env.id page

-- `pullHistory`: the envelopes of all pages, in the order in which they are ingested. The fuel is
-- the loop's own guard.
unfoldable pub pull_history : ℕ → ℕ → (ℕ → List Envelope) → ℕ → List Envelope
pull_history zero page_size fetch_page since = []
pull_history (suc guard) page_size fetch_page since =
    let page = fetch_page since in
    elim (leb page_size (length page)) [
      | false ↦ page
      | true ↦ page ++ pull_history guard page_size fetch_page (last_id since page)
    ]

-- Envelopes one after the other, `answer` telling what the keys and the decryption give for each.
unfoldable pub ingest_all :
    ℕ → (Envelope → Option (Bool × Decoded)) → Bool → State → List Envelope → State
ingest_all now answer live st [] = st
ingest_all now answer live st (env ∷ envs) =
    ingest_all now answer live (ingest now st env (answer env) live) envs

-- `convo.maxId`, read when a load begins.
unfoldable pub max_id_of : State → Peer → ℕ
max_id_of st peer = elim (Dict.get st.convos (cid_of peer)) [ none ↦ 0 | some c ↦ c.max_id ]

-- `loadDm` and `loadGroup`, where `live` is false, and the load of one conversation in
-- `resyncAfterReconnect`, where it is true. A fetch that fails ends the loop as an empty page does.
unfoldable pub load_convo :
    ℕ
    → (Envelope → Option (Bool × Decoded))
    → Bool
    → ℕ
    → ℕ
    → (ℕ → List Envelope)
    → State
    → Peer
    → State
load_convo now answer live guard page_size fetch_page st peer =
    let begun = ensure_convo st peer in
    ingest_all now answer live begun
      (pull_history guard page_size fetch_page (max_id_of begun peer))

-- The loads of `boot` and of `resyncAfterReconnect`, one conversation after the other; every load
-- has read its starting id before the first page arrives.
unfoldable pub ensure_all : State → List Peer → State
ensure_all st [] = st
ensure_all st (peer ∷ peers) = ensure_all (ensure_convo st peer) peers

unfoldable pub load_all :
    ℕ
    → (Envelope → Option (Bool × Decoded))
    → Bool
    → ℕ
    → ℕ
    → (Peer → ℕ → List Envelope)
    → State
    → List Peer
    → State
load_all now answer live guard page_size fetch_page st peers =
    let begun = ensure_all st peers in
    pull_each begun (map (λ peer. (peer, max_id_of begun peer)) peers)
  where
    pull_each : State → List (Peer × ℕ) → State
    pull_each at [] = at
    pull_each at ((peer, since) ∷ starts) =
        pull_each
          (ingest_all now answer live at (pull_history guard page_size (fetch_page peer) since))
          starts

-- What envelopes become in the list of messages.
unfoldable pub add_some : Option Message → List Message → List Message
add_some none ms = ms
add_some (some m) ms = m ∷ ms

unfoldable pub shown : State → (Envelope → Option (Bool × Decoded)) → List Envelope → List Message
shown st answer [] = []
shown st answer (env ∷ envs) = add_some (decode_answer st env (answer env)) (shown st answer envs)
