-- ===== src/Backup/Tests.antt =====
-- Backups and groups of client/js/app.js in concrete courses.
use lattix.Prelude.{
  ◌≡◌, refl, All, map, Text, ◌||◌, arith, codes, same, true, false, none, some, [], ◌∷◌,
}
use lattix.Prelude.Dict
use lattix.Prelude.Decimal.{decimal}
use lattix.History.{
  group_loads, State, Message, file, message, dm, group, Envelope, ensure_convo, cid_of,
  msg_key_for, sort_by_id, insert_by_id, begin_ingest, peer_of,
}
use lattix.Backup.{
  save_message, serialize_convos, backup_data, load_message, restore_messages, messages_of,
  set_messages, restore_convo, restore_convos, add_all, restore, drop_group, is_current_group,
  on_group_members, not_found,
}
use lattix.History.Ingest.{IsOrdered}
use lattix.Backup.Merging.{keys_in, count_in, are_new, are_distinct, is_absent}
use lattix.Backup.RoundTrip.{lasting, restore-backup_data}
use lattix.Backup.Restoring.{are_all_seen, restore_again}

-- A file that is to disappear.
abbrev fading : Message
fading = record {
  id = 1;
  sender = codes "anna";
  ts = 5;
  kind = file;
  text = codes "a.txt";
  verified = true;
  key_alert = false;
  has_payload = true;
  expires_at = some 60;
}

abbrev with_anna : State
with_anna = record {
  me = codes "me";
  convos =
      (
        codes "anna",
        record { peer = dm (codes "anna"); messages = fading ∷ []; unread = 0; max_id = 1 },
      )
      ∷ [];
  seen = codes "d1" ∷ [];
  blocked = [];
  current = none;
}

abbrev empty_app : State
empty_app = record { me = codes "me"; convos = []; seen = []; blocked = []; current = none }

-- The restored file has no deadline any more, and its contents cannot be fetched.
restore_test :
    messages_of (restore (backup_data with_anna) empty_app).0 (dm (codes "anna"))
    ≡ record fading { has_payload = false; expires_at = none } ∷ []
unfolding restore backup_data serialize_convos save_message restore_convos restore_convo
    ensure_convo cid_of restore_messages load_message messages_of set_messages add_all msg_key_for
    sort_by_id insert_by_id decimal same Dict.get Dict.put Dict.has Dict.member Dict.add
restore_test = refl

restore_again_example :
    let restored = (restore (backup_data with_anna) empty_app).0 in
    (are_all_seen restored.seen (backup_data with_anna).convos ≡ true)
    × ((restore (backup_data with_anna) (record restored { blocked = codes "bert" ∷ [] })).1 ≡ 0)
restore_again_example = restore_again (backup_data with_anna) empty_app (codes "bert" ∷ [])

abbrev in_group : State
in_group = record empty_app {
  convos = (codes "group:7", record { peer = group 7; messages = []; unread = 0; max_id = 3 }) ∷ [];
  seen = codes "g7:3" ∷ [];
}

abbrev old_envelope : Envelope
old_envelope = record {
  id = 3;
  sender = codes "anna";
  recipient = [];
  group_id = some 7;
  group_load = group_loads;
  created_at = 5;
  kind = some message;
  expires_at = none;
}

-- Once removed from a group and back in it, its old messages are passed over.
rejoin_test :
    (begin_ingest (ensure_convo (on_group_members 7 not_found in_group) (group 7)) old_envelope).1
    ≡ false
unfolding begin_ingest ensure_convo on_group_members drop_group is_current_group cid_of msg_key_for
    peer_of decimal same Dict.get Dict.put Dict.has Dict.member Dict.del
rejoin_test = refl

with_anna-IsOrdered : IsOrdered with_anna
unfolding cid_of msg_key_for decimal Dict.member same
with_anna-IsOrdered = (
  record {
    filed = refl;
    named = (
      (λ e. absurd (omega (arith, e))),
      (
        (λ e. absurd (omega (arith, e))),
        ((λ e. absurd (omega (arith, e))), ((λ e. absurd (omega (arith, e))), tt)),
      ),
    );
    ascending = (tt, tt);
    bounded = (omega arith, tt);
    known = (refl, tt);
  },
  tt,
)

restore-backup_data_example :
    let after = (restore (backup_data with_anna) empty_app).0 in
    All (λ e. messages_of after e.1.peer ≡ map lasting e.1.messages) with_anna.convos
    × ((restore (backup_data with_anna) empty_app).1 ≡ count_in (serialize_convos with_anna))
    × ((u : Text)
        → Dict.member after.blocked u
          ≡ (Dict.member empty_app.blocked u || Dict.member with_anna.blocked u))
unfolding serialize_convos save_message are_distinct is_absent are_new keys_in messages_of cid_of
    msg_key_for decimal Dict.member Dict.add Dict.get same
restore-backup_data_example =
    restore-backup_data with_anna empty_app with_anna-IsOrdered refl refl (refl, tt)
