-- ===== src/View/Timeline.antt =====
-- The messages of an open conversation as client/js/app.js puts them in rows, with the labels of the
-- days between them, and the previews of the sidebar. Formatting by the locale is left to the platform.
pub mod Days
use lattix.Prelude.{
  ℕ, ◌+◌, ◌-◌, ◌*◌, ◌/◌, Text, codes, same, Bool, true, false, not, ◌&&◌, ◌||◌, Option, none, some,
  List, [], ◌∷◌, ◌++◌, ltb, leb, ◌==◌, if◌then◌else◌,
}
use lattix.History.{Message, Kind, message, file, error}
use lattix.View.{same_run, is_failed}
use lattix.Media.{round_div}

abbrev pub day_ms : ℕ
day_ms = 86400000

-- `Math.round((startOfDay(new Date()) - startOfDay(d)) / 86400000)`, `none` for a negative number. The
-- arguments are the starts of the two days in milliseconds, the present one first.
unfoldable pub days_between : ℕ → ℕ → Option ℕ
days_between now start =
    if leb start now
    then some (round_div (now - start) day_ms)
    else if leb (2 * (start - now)) day_ms
    then some 0
    else none

pub data DayLabel : Type 0 where
  today yesterday weekday month_day full_date : DayLabel

-- `dayLabel`; `this_year` is that the message is of the present year.
unfoldable pub day_label : Option ℕ → Bool → DayLabel
day_label none this_year = weekday
day_label (some days) this_year =
    if days == 0
    then today
    else if days == 1
    then yesterday
    else if ltb days 7
    then weekday
    else if this_year
    then month_day
    else full_date

pub data ListStamp : Type 0 where
  time_of_day since_yesterday short_weekday short_date : ListStamp

-- `fmtListTime`
unfoldable pub list_stamp : Option ℕ → ListStamp
list_stamp none = short_weekday
list_stamp (some days) =
    if days == 0
    then time_of_day
    else if days == 1
    then since_yesterday
    else if ltb days 7
    then short_weekday
    else short_date

-- A row: the label above it, if any, and how its bubble is marked.
pub record Row : Type 0 where
  pub separator : Option Text
  pub message : Message
  pub mine : Bool
  pub continues_run : Bool
  pub failed : Bool
  pub names_sender : Bool
  pub has_actions : Bool

is_message : Kind → Bool
is_message message = true
is_message _ = false

-- The loop of `renderMessages`: `label` gives the text of a time's day, `last_day` is the last label.
unfoldable pub rows : (ℕ → Text) → Text → Bool → Text → Option Message → List Message → List Row
unfolding is_message
rows label me in_group last_day prev [] = []
rows label me in_group last_day prev (m ∷ ms) =
    let day = label m.ts in
    let new_day = not (same day last_day) in
    let mine = same m.sender me in
    record {
      separator = if new_day then some day else none;
      message = m;
      mine = mine;
      continues_run = same_run prev new_day m;
      failed = is_failed m;
      names_sender = in_group && not mine;
      has_actions = is_message m.kind;
    }
    ∷ rows label me in_group day (some m) ms

-- The pill that jumps to the newest message: whether it is shown after a render that had to stick to
-- the end (`force`), or found the reader there, or found that the conversation has grown.
unfoldable pub pill_after : Bool → Bool → Bool → Bool → Bool
pill_after force was_at_bottom grew shown =
    if force || was_at_bottom then false else if grew then true else shown

-- The preview of the last message in the sidebar, a paper clip before the name of a file.
abbrev pub clip : Text
clip = 55357 ∷ 56526 ∷ 32 ∷ []

unfoldable pub preview : Text → Bool → Option Message → Text
preview me in_group none = []
preview me in_group (some m) =
    let who : Text = if in_group && not (same m.sender me) then m.sender ++ codes ": " else [] in
    who ++ elim m.kind [ file ↦ clip ++ m.text | _ ↦ m.text ]
