-- ===== src/Composer.antt =====
-- The message box of client/js/app.js: drafts, switching conversations, sending a text and sending a
-- file. A send that waits for the relay is a value of its own, so that anything can happen before it
-- ends.
pub mod Drafts
pub mod Files
pub mod Keys
pub mod Ttl
mod Tests
use lattix.Prelude.{
  ℕ, ◌+◌, Text, codes, same, Bool, true, false, not, ◌&&◌, ◌||◌, Option, none, some, List, [], ◌∷◌,
  ◌++◌, length, ltb, ◌==◌, if◌then◌else◌,
}
use lattix.Prelude.Dict
use lattix.Prelude.Dict.{Dict}
use lattix.Config.{trim}

-- `drafts` are the entries of localStorage under "lattix.draft.", by conversation; `box` is the text
-- of the input, `can_send` that its button is enabled. `sent` are the texts that the relay took, with
-- their conversations, the newest first.
pub record State : Type 0 where
  pub drafts : Dict Text
  pub current : Option Text
  pub box : Text
  pub can_send : Bool
  pub busy : Bool
  pub blocked : List Text
  pub sent : List (Text × Text)

unfoldable pub is_blank : Text → Bool
is_blank text = same (trim text) []

-- `getDraft` and `setDraft` on what localStorage holds.
unfoldable pub stored_draft : Dict Text → Text → Text
stored_draft drafts cid = elim (Dict.get drafts cid) [ none ↦ [] | some text ↦ text ]

unfoldable pub put_draft : Text → Text → Dict Text → Dict Text
put_draft cid text drafts =
    if same cid []
    then drafts
    else if not (is_blank text)
    then Dict.put drafts cid text
    else Dict.del drafts cid

unfoldable pub get_draft : State → Text → Text
get_draft st cid = stored_draft st.drafts cid

unfoldable pub set_draft : Text → Text → State → State
set_draft cid text st = record st { drafts = put_draft cid text st.drafts }

-- `setDraft(state.current, text)`
unfoldable pub stash : State → State
stash st = elim st.current [ none ↦ st | some cid ↦ set_draft cid st.box st ]

unfoldable pub is_open : State → Text → Bool
is_open st cid = elim st.current [ none ↦ false | some c ↦ same c cid ]

-- `selectConversation`, up to its first `await`.
unfoldable pub select_conversation : Text → State → State
select_conversation cid st =
    if is_open st cid
    then st
    else let left = stash st in
      let text = get_draft left cid in
      record left { current = some cid; box = text; can_send = not (is_blank text) }

-- The "input" event, and the timer that it starts; the same is done on "beforeunload".
unfoldable pub on_input : Text → State → State
on_input text st = record st { box = text; can_send = not (is_blank text || st.busy) }

-- The back button.
unfoldable pub go_back : State → State
go_back st = record (stash st) { current = none }

unfoldable pub block_user : Text → State → State
block_user u st = record st {
  blocked = Dict.add st.blocked u;
  current = if is_open st u then none else st.current;
}

unfoldable pub unblock_user : Text → State → State
unblock_user u st = record st { blocked = Dict.remove st.blocked u }

-- A text on its way: its conversation and the text.
pub record Flight : Type 0 where
  pub cid : Text
  pub text : Text

-- `sendCurrent` up to its first `await`.
unfoldable pub send_begins : State → State × Option Flight
send_begins st = elim st.current [
  | none ↦ (st, none)
  | some cid ↦ if is_blank st.box then (st, none) else (
    record st { box = []; can_send = false },
    some (record { cid = cid; text = trim st.box }),
  )
]

-- Once the relay has taken it, or in the `catch`; the `finally` follows both. Ingesting what was sent is
-- taken to succeed.
unfoldable pub send_succeeds : Flight → State → State
send_succeeds flight st =
    let taken = record st { sent = (flight.cid, flight.text) ∷ st.sent } in
    record (set_draft flight.cid [] taken) { can_send = not (is_blank st.box) }

unfoldable pub restored : Text → Text → Text
restored text [] = text
restored text (c ∷ box) = text ++ codes "\n" ++ c ∷ box

unfoldable pub send_fails : Flight → State → State
send_fails flight st =
    let box = restored flight.text st.box in
    record (set_draft flight.cid box (record st { box = box })) { can_send = not (is_blank box) }

-- `setComposerBusy`
unfoldable pub set_composer_busy : Bool → State → State
set_composer_busy busy st = record st { busy = busy; can_send = not (busy || is_blank st.box) }

-- What `sendFile` does with a file, up to its first `await`.
pub data FileStart : Type 0 where
  ignored told_busy told_too_large : FileStart
  started : Text → ℕ → FileStart

-- `file` is the size of the file, `none` where there is none, and `most` is `MAX_UPLOAD_BYTES`.
unfoldable pub file_begins : ℕ → Option ℕ → State → FileStart
file_begins most none st = ignored
file_begins most (some size) st = elim st.current [
  | none ↦ ignored
  | some cid ↦
      if st.busy then told_busy else if ltb most size then told_too_large else started cid size
]

-- After the keys are there: `sendable` tells whether `assertSendable` lets the file pass. If not, the
-- `finally` unlocks the composer.
unfoldable pub file_checked : Bool → State → State
file_checked sendable st = set_composer_busy sendable st

-- The `finally` once the file is sent, or could not be.
unfoldable pub file_ends : State → State
file_ends st = set_composer_busy false st
