-- ===== src/History/Tests.antt =====
-- The theorems about conversations in client/js/app.js at concrete inputs.
use lattix.Prelude.{
  ℕ, ◌+◌, ◌≡◌, refl, codes, same, Bool, Option, ◌++◌, true, false, none, some, List, [], ◌∷◌, arith,
  length,
}
use lattix.Prelude.Dict
use lattix.Prelude.Dict.{Dict}
use lattix.Prelude.Decimal.{decimal}
use lattix.History.{
  group_loads, is_file, Message, message, dm, Convo, State, Envelope, opened, cid_of, msg_key_for,
  is_past, is_expired, peer_of, blocker_of, begin_ingest, finish_ingest, ingest, pull_history,
  Decoded, decode_envelope, decode_answer, load_convo, shown, add_some, max_id_of,
}
use lattix.History.Ingest.{IsOrdered, ingest-IsOrdered}
use lattix.History.Races.{messages_in, interleaved_ingest_duplicates}
use lattix.History.Loading.{IsNew}
use lattix.History.Loading.Complete.{load_convo-shown, load_convo-after_live}
use lattix.History.Paging.{InOrder, newer, relay_page, pull_history-relay_page}

abbrev envelope : ℕ → Envelope
envelope id = record {
  id = id;
  sender = codes "bo";
  recipient = codes "al";
  group_id = none;
  group_load = group_loads;
  created_at = 50;
  kind = some message;
  expires_at = none;
}

abbrev history : List Envelope
history = envelope 3 ∷ envelope 5 ∷ envelope 8 ∷ envelope 9 ∷ envelope 12 ∷ []

history_ordered : InOrder history
history_ordered = ground arith

-- Pages of two, from after the first envelope.
pull_history-relay_page_example :
    pull_history 100000 2 (relay_page history 2) 3
    ≡ envelope 5 ∷ envelope 8 ∷ envelope 9 ∷ envelope 12 ∷ []
pull_history-relay_page_example =
    pull_history-relay_page history 100000 2 3 history_ordered (ground arith) (ground arith)

abbrev first_message : Message
first_message = record {
  id = 3;
  sender = codes "bo";
  ts = 50;
  kind = message;
  text = codes "hi";
  verified = true;
  key_alert = false;
  has_payload = false;
  expires_at = none;
}

abbrev talk : Convo
talk = record { peer = dm (codes "bo"); messages = first_message ∷ []; unread = 0; max_id = 3 }

abbrev session : State
session = record {
  me = codes "al";
  convos = (codes "bo", talk) ∷ [];
  seen = codes "d3" ∷ [];
  blocked = [];
  current = none;
}

session-IsOrdered : IsOrdered session
unfolding cid_of msg_key_for decimal Dict.member same
session-IsOrdered = (
  record {
    filed = refl;
    named = ground arith;
    ascending = (tt, tt);
    bounded = ground arith;
    known = (refl, tt);
  },
  tt,
)

ingest-IsOrdered_example :
    IsOrdered (ingest 60 session (envelope 5) (some (false, opened (codes "you?") true)) true)
unfolding peer_of is_past same
ingest-IsOrdered_example =
    ingest-IsOrdered 60 session (envelope 5) (some (false, opened (codes "you?") true)) true
      (ground arith) refl session-IsOrdered

abbrev blocking : State
blocking = record session { blocked = codes "bo" ∷ [] }

abbrev second_message : Message
second_message = record first_message { id = 5; text = codes "you?" }

interleaved_ingest_duplicates_example :
    (begin_ingest session (envelope 5) ≡ (session, true))
    × (length (
          messages_in
            (finish_ingest 60
              (finish_ingest 60 session (envelope 5) (some second_message) true)
              (envelope 5)
              (some second_message)
              false)
            (peer_of session (envelope 5)))
        ≡ length (messages_in session (peer_of session (envelope 5))) + 2)
unfolding peer_of blocker_of cid_of msg_key_for decimal is_expired is_past Dict.get Dict.member same
interleaved_ingest_duplicates_example =
    interleaved_ingest_duplicates 60 session (envelope 5) talk second_message refl refl refl refl

abbrev answers : Envelope → Option (Bool × Decoded)
answers env = some (false, opened (codes "text") true)

abbrev text_message : ℕ → Message
text_message id = record first_message { id = id; text = codes "text" }

envelope-IsNew :
    (id : ℕ)
    → Dict.member session.seen (msg_key_for (dm (codes "bo")) id) ≡ false
    → IsNew 60 session (dm (codes "bo")) (envelope id)
unfolding peer_of blocker_of is_past same Dict.member
envelope-IsNew id unseen = record { own = refl; unseen = unseen; allowed = refl; fresh = refl }

-- The text "hi" and then the four that are newer, in pages of two.
load_convo-shown_example :
    messages_in
      (load_convo 60 answers false 100000 2 (relay_page history 2) session (dm (codes "bo")))
      (dm (codes "bo"))
    ≡ messages_in session (dm (codes "bo"))
      ++ shown session answers (newer (max_id_of session (dm (codes "bo"))) history)
unfolding msg_key_for decimal Dict.member same max_id_of cid_of Dict.get
load_convo-shown_example =
    load_convo-shown 60 answers false 100000 2 history session (dm (codes "bo")) session-IsOrdered
      (ground arith) history_ordered (omega arith) (omega arith)
      (
        envelope-IsNew 5 refl,
        (envelope-IsNew 8 refl, (envelope-IsNew 9 refl, (envelope-IsNew 12 refl, tt))),
      )

-- The live message 9 comes first: 5 and 8 are never shown.
load_convo-after_live_example :
    messages_in
      (load_convo 60 answers true 100000 2
        (relay_page history 2)
        (ingest 60 session (envelope 9) (answers (envelope 9)) true)
        (dm (codes "bo")))
      (dm (codes "bo"))
    ≡ (messages_in session (dm (codes "bo")) ++ text_message 9 ∷ [])
      ++ shown session answers (newer 9 history)
unfolding is_file msg_key_for decimal Dict.member same max_id_of cid_of Dict.get decode_answer
    decode_envelope
load_convo-after_live_example =
    load_convo-after_live 60 answers true 100000 2 history session (dm (codes "bo")) talk
      (envelope 9) (text_message 9) session-IsOrdered (ground arith) history_ordered (omega arith)
      (omega arith) refl (omega arith) (envelope-IsNew 9 refl) refl (envelope-IsNew 12 refl, tt)

-- What those messages are.
shown_test : shown session answers (newer 9 history) ≡ text_message 12 ∷ []
unfolding is_file shown add_some decode_answer decode_envelope same
shown_test = refl
