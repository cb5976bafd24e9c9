-- ===== src/Backup.antt =====
-- Backups, groups and the start of a session in client/js/app.js, on the conversations of History:
-- serializing and restoring them, events about groups, leaving one, conversations that exist only as
-- a draft, and deleting the data of the app.
pub mod Merging
pub mod Restoring
pub mod RoundTrip
mod Tests
use lattix.Prelude.{
  ℕ, ◌+◌, Text, codes, same, Bool, true, false, not, ◌&&◌, ◌||◌, Option, none, some, List, [], ◌∷◌,
  ◌++◌, map, filter, ◌==◌, if◌then◌else◌,
}
use lattix.Prelude.Dict
use lattix.Prelude.Dict.{Dict}
use lattix.Config.{trim}
use lattix.History.{
  State, Convo, Message, Kind, Peer, dm, group, cid_of, ensure_convo, msg_key_for, sort_by_id,
}

-- What a backup keeps of a message: of a file its name, which is the text here, its type and its size, which
-- are not modelled, but nothing that its contents are fetched by.
pub record SavedMessage : Type 0 where
  pub id : ℕ
  pub sender : Text
  pub ts : ℕ
  pub kind : Kind
  pub text : Text
  pub verified : Bool

pub record SavedConvo : Type 0 where
  pub peer : Peer
  pub messages : List SavedMessage

pub record Data : Type 0 where
  pub convos : List SavedConvo
  pub blocked : List Text

unfoldable pub save_message : Message → SavedMessage
save_message m = record {
  id = m.id;
  sender = m.sender;
  ts = m.ts;
  kind = m.kind;
  text = m.text;
  verified = m.verified;
}

-- `serializeConvos`, in the order of `Object.keys`.
unfoldable pub serialize_convos : State → List SavedConvo
serialize_convos st =
    map (λ e. record { peer = e.1.peer; messages = map save_message e.1.messages }) st.convos

-- The data that `makeBackup` seals, less the settings of theme and colour.
unfoldable pub backup_data : State → Data
backup_data st = record { convos = serialize_convos st; blocked = st.blocked }

-- `{ ...m }`: what the backup lacks is undefined.
unfoldable pub load_message : SavedMessage → Message
load_message m = record {
  id = m.id;
  sender = m.sender;
  ts = m.ts;
  kind = m.kind;
  text = m.text;
  verified = m.verified;
  key_alert = false;
  has_payload = false;
  expires_at = none;
}

-- The loop over the messages of a conversation, on `seen`, its messages, and the number restored.
pub record Restored : Type 0 where
  pub seen : List Text
  pub messages : List Message
  pub count : ℕ

unfoldable pub restore_messages : Peer → List SavedMessage → Restored → Restored
restore_messages peer [] r = r
restore_messages peer (m ∷ ms) r =
    let key = msg_key_for peer m.id in
    restore_messages peer ms (
      if Dict.member r.seen key then r else record {
        seen = Dict.add r.seen key;
        messages = r.messages ++ load_message m ∷ [];
        count = r.count + 1;
      })

unfoldable pub messages_of : State → Peer → List Message
messages_of st peer = elim (Dict.get st.convos (cid_of peer)) [ none ↦ [] | some c ↦ c.messages ]

-- The messages of a conversation, put in its place.
unfoldable pub set_messages : Dict Convo → Text → List Message → Dict Convo
set_messages convos cid messages = elim (Dict.get convos cid) [
  | none ↦ convos
  | some c ↦ Dict.put convos cid (record c { messages = messages })
]

unfoldable pub restore_convo : SavedConvo → State × ℕ → State × ℕ
restore_convo src (st, count) =
    let known = ensure_convo st src.peer in
    let r =
      restore_messages src.peer src.messages
        (record { seen = known.seen; messages = messages_of known src.peer; count = count }) in
    (
      record known {
        seen = r.seen;
        convos = set_messages known.convos (cid_of src.peer) (sort_by_id r.messages);
      },
      r.count,
    )

unfoldable pub restore_convos : List SavedConvo → State × ℕ → State × ℕ
restore_convos [] s = s
restore_convos (src ∷ convos) s = restore_convos convos (restore_convo src s)

unfoldable pub add_all : List Text → List Text → List Text
add_all blocked [] = blocked
add_all blocked (u ∷ us) = add_all (Dict.add blocked u) us

-- `onRestoreChosen` on a backup that opened: the state, and how many messages it tells of.
unfoldable pub restore : Data → State → State × ℕ
restore backup st =
    let (merged, count) = restore_convos backup.convos (st, 0) in
    (record merged { blocked = add_all merged.blocked backup.blocked }, count)

-- What asking the relay for a group comes to.
pub data GroupAnswer : Type 0 where
  found not_found unavailable : GroupAnswer

unfoldable pub is_current_group : State → ℕ → Bool
is_current_group st gid = elim st.current [
  | none ↦ false
  | some cid ↦ same cid (cid_of (group gid))
]

unfoldable pub drop_group : ℕ → State → State
drop_group gid st = record st {
  convos = Dict.del st.convos (cid_of (group gid));
  current = if is_current_group st gid then none else st.current;
}

-- `onGroupEvent`, for a group that was created, or one whose members changed.
unfoldable pub on_group_created : ℕ → GroupAnswer → State → State
on_group_created gid found st = ensure_convo st (group gid)
on_group_created gid _ st = st

unfoldable pub on_group_members : ℕ → GroupAnswer → State → State
on_group_members gid found st = ensure_convo st (group gid)
on_group_members gid not_found st = drop_group gid st
on_group_members gid unavailable st = st

-- The button that leaves the current group: whether the user confirms, and the relay agrees.
unfoldable pub leave_group : Bool → Bool → State → State
leave_group confirms agrees st = elim st.current [
  | none ↦ st
  | some cid ↦ elim (Dict.get st.convos cid) [
    | none ↦ st
    | some c ↦ elim c.peer [
      | dm _ ↦ st
      | group gid ↦
          if not confirms || not agrees
          then st
          else record st { convos = Dict.del st.convos (cid_of (group gid)); current = none }
    ]
  ]
]

unfoldable pub has_prefix : Text → Text → Bool
has_prefix s [] = true
has_prefix [] (p ∷ ps) = false
has_prefix (c ∷ s) (p ∷ ps) = c == p && has_prefix s ps

-- One turn of the loop of `restoreDraftedConvos`, for the draft of a conversation: the drafts kept,
-- and the conversations.
unfoldable pub restore_drafted : Text × Text → Dict Text × State → Dict Text × State
restore_drafted (cid, text) (drafts, st) =
    if same (trim text) []
    then (Dict.del drafts cid, st)
    else if Dict.has st.convos cid
    then (drafts, st)
    else if has_prefix cid (codes "group:")
    then (Dict.del drafts cid, st)
    else if same cid st.me || Dict.member st.blocked cid
    then (drafts, st)
    else (drafts, ensure_convo st (dm cid))

unfoldable pub restore_drafted_convos : Dict Text → Dict Text × State → Dict Text × State
restore_drafted_convos [] s = s
restore_drafted_convos (entry ∷ entries) s =
    restore_drafted_convos entries (restore_drafted entry s)

-- `deleteAppData` on localStorage; `confirms` is the name typed to confirm.
unfoldable pub delete_app_data : Bool → Dict Text → Dict Text
delete_app_data confirms storage =
    if not confirms then storage else filter (λ e. not (has_prefix e.0 (codes "lattix."))) storage
