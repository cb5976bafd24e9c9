-- ===== src/Dialog/Settling.antt =====
-- The promises of `askModal` (client/js/app.js) over all courses of a session.
use lattix.Prelude.{
  ℕ, ◌+◌, ◌≤◌, ◌≡◌, refl, arith, Text, same, length, true, false, not, ◌&&◌, ◌||◌, Option, none,
  some, List, [], ◌∷◌, map, if◌then◌else◌, if-cases,
}
use lattix.Prelude.Ids.{member_id, remove_id, count_id, member_id-remove_id}
use lattix.Dialog.{
  Value, typed, judge_input, State, Input, Fields, open_modal, hide_modal, resolve, close_modal,
  finish_ask, ask_modal, validate, submit, start_page, Verdict, refused, accepted, on_escape,
}

-- What the user and the app do. `buttons` is a cancel button, the cross, or a dialog's own code.
pub data Event : Type 0 where
  opens : ℕ → Option ℕ → Event
  asks : Option ℕ → Event
  closes : ℕ → Event
  escapes : Event
  cancels : ℕ → Event
  submits : ℕ → Option Text → Option Input → Fields → Event

unfoldable pub step : Event → State → State
step (opens m first) st = open_modal m first st
step (asks first) st = ask_modal first st
step (closes m) st = close_modal m st
step escapes st = on_escape st
step (cancels m) st = finish_ask m none st
step (submits m require_text input f) st = submit m require_text input f st

unfoldable pub run : List Event → State → State
run [] st = st
run (e ∷ events) st = run events (step e st)

-- How often the promise of a dialog was resolved.
abbrev pub times_resolved : State → ℕ → ℕ
times_resolved st m = count_id (map (λ r. r.0) st.results) m

pub record IsSettling (st : State) : Type 0 where
  pub on_screen : (m : ℕ) → not (member_id st.pending m) || member_id st.stack m ≡ true
  pub fresh : (m : ℕ) → st.next ≤ m → (member_id st.pending m ≡ false) × (times_resolved st m ≡ 0)
  pub once : (m : ℕ) → times_resolved st m + (if member_id st.pending m then 1 else 0) ≤ 1

module _ (st : State) (h : IsSettling st) where
  open_modal-IsSettling : (m : ℕ) (first : Option ℕ) → IsSettling (open_modal m first st)
  unfolding open_modal member_id
  open_modal-IsSettling m first =
      if-cases IsSettling (member_id st.stack m) (λ _. h)
        (λ _. record {
          on_screen = λ k. ground (arith, h.on_screen k);
          fresh = h.fresh;
          once = h.once;
        })

  finish_ask-IsSettling : (m : ℕ) (value : Option Value) → IsSettling (finish_ask m value st)
  unfolding finish_ask resolve hide_modal count_id
  finish_ask-IsSettling m value =
      if-cases IsSettling (not (member_id st.pending m)) (λ _. h)
        (λ p. record {
          on_screen = λ k. ground (
            arith,
            h.on_screen k,
            member_id-remove_id st.pending m k,
            member_id-remove_id st.stack m k,
          );
          fresh =
              λ k l. ground (arith, h.fresh k l, h.fresh m, p, member_id-remove_id st.pending m k);
          once = λ k. ground (arith, h.once k, h.once m, p, member_id-remove_id st.pending m k);
        })

  close_modal-IsSettling : (m : ℕ) → IsSettling (close_modal m st)
  unfolding close_modal resolve hide_modal count_id
  close_modal-IsSettling m =
      if-cases IsSettling (member_id st.stack m && member_id st.pending m)
        (λ p. record {
          on_screen = λ k. ground (
            arith,
            h.on_screen k,
            member_id-remove_id st.pending m k,
            member_id-remove_id st.stack m k,
            member_id-remove_id (remove_id st.stack m) m k,
          );
          fresh =
              λ k l. ground (arith, h.fresh k l, h.fresh m, p, member_id-remove_id st.pending m k);
          once = λ k. ground (arith, h.once k, h.once m, p, member_id-remove_id st.pending m k);
        })
        (λ p. record {
          on_screen = λ k.
              ground (arith, h.on_screen k, h.on_screen m, p, member_id-remove_id st.stack m k);
          fresh = h.fresh;
          once = h.once;
        })

  ask_modal-IsSettling : (first : Option ℕ) → IsSettling (ask_modal first st)
  unfolding ask_modal open_modal member_id
  ask_modal-IsSettling first =
      if-cases IsSettling (member_id st.stack st.next)
        (λ p. record {
          on_screen = λ k. ground (arith, h.on_screen k, p);
          fresh = λ k l. ground (arith, h.fresh k, l);
          once = λ k. ground (arith, h.once k, h.fresh k);
        })
        (λ p. record {
          on_screen = λ k. ground (arith, h.on_screen k, p);
          fresh = λ k l. ground (arith, h.fresh k, l);
          once = λ k. ground (arith, h.once k, h.fresh k);
        })

module _ (st : State) (h : IsSettling st) where
  on_escape-IsSettling : IsSettling (on_escape st)
  unfolding on_escape
  on_escape-IsSettling =
      if-cases IsSettling st.lightbox
        (λ _. record { on_screen = h.on_screen; fresh = h.fresh; once = h.once })
        (λ _.
          if-cases IsSettling st.menu_open
            (λ _. record { on_screen = h.on_screen; fresh = h.fresh; once = h.once })
            (λ _. top st.stack))
    where
      top :
          (ms : List ℕ)
          → IsSettling (elim ms as (λ _. State) [ [] ↦ st | m ∷ _ ↦ close_modal m st ])
      top [] = h
      top (m ∷ ms) = close_modal-IsSettling st h m

  submit-IsSettling :
      (m : ℕ) (require_text : Option Text) (input : Option Input) (f : Fields)
      → IsSettling (submit m require_text input f st)
  unfolding submit
  submit-IsSettling m require_text input f = ends (validate require_text input f)
    where
      ends :
          (v : Verdict)
          → IsSettling (elim v as (λ _. State) [
            | refused _ ↦ st
            | accepted value ↦ finish_ask m (some value) st
          ])
      ends (refused _) = h
      ends (accepted value) = finish_ask-IsSettling st h m (some value)

  step-IsSettling : (e : Event) → IsSettling (step e st)
  unfolding step
  step-IsSettling (opens m first) = open_modal-IsSettling st h m first
  step-IsSettling (asks first) = ask_modal-IsSettling st h first
  step-IsSettling (closes m) = close_modal-IsSettling st h m
  step-IsSettling escapes = on_escape-IsSettling
  step-IsSettling (cancels m) = finish_ask-IsSettling st h m none
  step-IsSettling (submits m require_text input f) = submit-IsSettling m require_text input f

run-IsSettling : (events : List Event) (st : State) → IsSettling st → IsSettling (run events st)
unfolding run
run-IsSettling [] st h = h
run-IsSettling (e ∷ events) st h = run-IsSettling events (step e st) (step-IsSettling st h e)

start_page-IsSettling : (count : ℕ) → IsSettling (start_page count)
unfolding start_page member_id count_id
start_page-IsSettling count = record {
  on_screen = λ m. refl;
  fresh = λ m l. (refl, refl);
  once = λ m. ground arith;
}

-- Whatever is opened, asked, submitted and dismissed, in any order, no dialog is answered more than
-- once, and one that is still to be answered has not been answered at all.
pub answered_once :
    (count : ℕ) (events : List Event) (m : ℕ)
    → let st = run events (start_page count) in
      times_resolved st m + (if member_id st.pending m then 1 else 0) ≤ 1
answered_once count events m =
    (run-IsSettling events (start_page count) (start_page-IsSettling count)).once m

-- After any course of events, a dialog that waits for an answer is an open modal, and closing it, as
-- Escape or a click beside it does, settles it: it is then answered once, and no longer open.
pub dismissal_settles :
    (count : ℕ) (events : List Event) (m : ℕ)
    → member_id (run events (start_page count)).pending m ≡ true
    → let st = run events (start_page count) in
      (member_id st.stack m ≡ true)
      × (times_resolved (close_modal m st) m ≡ 1)
      × (member_id (close_modal m st).pending m ≡ false)
      × (member_id (close_modal m st).stack m ≡ false)
unfolding close_modal resolve hide_modal count_id
dismissal_settles count events m p =
    let st = run events (start_page count) in
    let h = run-IsSettling events (start_page count) (start_page-IsSettling count) in
    ground (
      arith,
      p,
      h.on_screen m,
      h.once m,
      member_id-remove_id st.pending m m,
      member_id-remove_id st.stack m m,
      member_id-remove_id (remove_id st.stack m) m m,
    )

-- What `askModal` resolves to has passed its checks: it is the text of the first field, not empty and
-- not shorter than asked, and equal to the second one where it is to be repeated.
pub judge_input-accepted :
    (input : Input) (f : Fields) (value : Value)
    → judge_input input f ≡ accepted value
    → (value ≡ typed f.field1)
      × (input.min_length ≤ length f.field1)
      × (1 ≤ length f.field1)
      × ((input.repeated && not (same f.field1 f.field2)) ≡ false)
unfolding judge_input
judge_input-accepted input f value e = ground (arith, e)
