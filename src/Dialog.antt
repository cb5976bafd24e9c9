-- ===== src/Dialog.antt =====
-- The dialogs of client/js/app.js: the stack of open modals with Escape, clicks beside them and the
-- focus, and `askModal`, whose promise a button, Escape or a click settles. Elements are numbered;
-- those that `askModal` creates take the next numbers.
pub mod Settling
mod Tests
use lattix.Prelude.{
  ℕ, ◌+◌, Text, same, Bool, true, false, not, ◌&&◌, ◌||◌, Option, none, some, List, [], ◌∷◌, length,
  ltb, ◌==◌, if◌then◌else◌,
}
use lattix.Prelude.Ids.{member_id, remove_id}

-- What a confirmed `askModal` resolves to; a dismissed one resolves to `null`, here `none`.
pub data Value : Type 0 where
  confirmed : Value
  typed : Text → Value

-- `stack` is `_modalStack`, the newest first; `shown` the modals that are not hidden, and `document`
-- those of `askModal` that are in the page. `return_focus` is `_returnFocus` of each modal.
-- `pending` are the dialogs whose promise is not settled, `results` the calls of `resolve`.
pub record State : Type 0 where
  pub stack : List ℕ
  pub shown : List ℕ
  pub document : List ℕ
  pub return_focus : List (ℕ × ℕ)
  pub focus : ℕ
  pub next : ℕ
  pub pending : List ℕ
  pub results : List (ℕ × Option Value)
  pub lightbox : Bool
  pub menu_open : Bool

unfoldable pub focus_of : List (ℕ × ℕ) → ℕ → Option ℕ
focus_of [] m = none
focus_of ((n, f) ∷ saved) m = if n == m then some f else focus_of saved m

-- `_returnFocus = null`
unfoldable pub forget_focus : List (ℕ × ℕ) → ℕ → List (ℕ × ℕ)
forget_focus [] m = []
forget_focus ((n, f) ∷ saved) m =
    let rest = forget_focus saved m in if n == m then rest else (n, f) ∷ rest

-- `openModal`; `first` is the element that takes the focus, if there is one.
unfoldable pub open_modal : ℕ → Option ℕ → State → State
open_modal m first st = if member_id st.stack m then st else record st {
  return_focus = (m, st.focus) ∷ forget_focus st.return_focus m;
  shown = m ∷ st.shown;
  stack = m ∷ st.stack;
  focus = elim first [ none ↦ st.focus | some f ↦ f ];
}

-- The page as it starts: `count` elements are there, and no dialog is open.
unfoldable pub start_page : ℕ → State
start_page count = record {
  stack = [];
  shown = [];
  document = [];
  return_focus = [];
  focus = 0;
  next = count;
  pending = [];
  results = [];
  lightbox = false;
  menu_open = false;
}

-- `closeModal` up to its event; every element that had the focus is taken to be there still.
unfoldable pub hide_modal : ℕ → State → State
hide_modal m st = record st {
  shown = remove_id st.shown m;
  stack = remove_id st.stack m;
  return_focus = forget_focus st.return_focus m;
  focus = elim (focus_of st.return_focus m) [ none ↦ st.focus | some f ↦ f ];
}

-- `settled = true`, and the end of `finish_ask`: the element is removed and the promise resolved.
unfoldable pub resolve : ℕ → Option Value → State → State
resolve m value st = record st {
  pending = remove_id st.pending m;
  document = remove_id st.document m;
  results = (m, value) ∷ st.results;
}

-- `closeModal` with its event, on which `askModal` calls `finish_ask(null)`. The modal is closed then, so
-- that `finish_ask` hides it again and no further event comes.
unfoldable pub close_modal : ℕ → State → State
close_modal m st =
    let hidden = hide_modal m st in
    if member_id st.stack m && member_id st.pending m
    then resolve m none (hide_modal m hidden)
    else hidden

-- `finish_ask` of `askModal`: it is settled before `closeModal` sends its event, which does nothing then.
unfoldable pub finish_ask : ℕ → Option Value → State → State
finish_ask m value st =
    if not (member_id st.pending m) then st else resolve m value (hide_modal m st)

-- `askModal` up to its return: a new element, which is opened.
unfoldable pub ask_modal : Option ℕ → State → State
ask_modal first st = open_modal st.next first (record st {
  next = st.next + 1;
  document = st.next ∷ st.document;
  pending = st.next ∷ st.pending;
})

-- `input` of `askModal`: whether it is to be typed twice, and its least length.
pub record Input : Type 0 where
  pub repeated : Bool
  pub min_length : ℕ

-- The values of the fields when the form is submitted.
pub record Fields : Type 0 where
  pub guard : Text
  pub field1 : Text
  pub field2 : Text

pub data Refusal : Type 0 where
  guard_differs required too_short no_match : Refusal

pub data Verdict : Type 0 where
  refused : Refusal → Verdict
  accepted : Value → Verdict

-- The checks of the input field.
unfoldable pub judge_input : Input → Fields → Verdict
judge_input input f =
    if length f.field1 == 0
    then refused required
    else if ltb (length f.field1) input.min_length
    then refused too_short
    else if input.repeated && not (same f.field1 f.field2)
    then refused no_match
    else accepted (typed f.field1)

-- `submit`; `guard` is what `trim` leaves of the text typed to confirm.
unfoldable pub validate : Option Text → Option Input → Fields → Verdict
validate require_text input f =
    let refuses : Bool = elim require_text [ none ↦ false | some text ↦ not (same f.guard text) ] in
    if refuses
    then refused guard_differs
    else elim input [ none ↦ accepted confirmed | some i ↦ judge_input i f ]

unfoldable pub submit : ℕ → Option Text → Option Input → Fields → State → State
submit m require_text input f st = elim (validate require_text input f) [
  | refused _ ↦ st
  | accepted value ↦ finish_ask m (some value) st
]

-- The Escape key.
unfoldable pub on_escape : State → State
on_escape st =
    if st.lightbox
    then record st { lightbox = false }
    else if st.menu_open
    then record st { menu_open = false }
    else elim st.stack [ [] ↦ st | m ∷ _ ↦ close_modal m st ]

-- `trapFocus` on the focusable elements of the modal: the element that Tab moves the focus to, or
-- `none` where the browser moves it.
unfoldable pub last_of : ℕ → List ℕ → ℕ
last_of m [] = m
last_of m (n ∷ ns) = last_of n ns

unfoldable pub trap_focus : Bool → ℕ → Bool → List ℕ → Option ℕ
trap_focus shift active inside [] = none
trap_focus shift active inside (first ∷ rest) =
    if shift && active == first
    then some (last_of first rest)
    else if not shift && active == last_of first rest
    then some first
    else if not inside
    then some first
    else none
