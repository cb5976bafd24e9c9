-- ===== src/Dialog/Tests.antt =====
-- Dialogs of client/js/app.js in concrete courses.
use lattix.Prelude.{◌≡◌, refl, codes, same, true, false, none, some, List, [], ◌∷◌}
use lattix.Prelude.Ids.{member_id, remove_id}
use lattix.Dialog.{
  start_page, typed, Input, open_modal, hide_modal, close_modal, resolve, finish_ask, ask_modal,
  submit, validate, judge_input, on_escape, focus_of, forget_focus,
}
use lattix.Dialog.Settling.{
  Event, opens, asks, submits, step, run, times_resolved, dismissal_settles,
}

abbrev password_input : Input
password_input = record { repeated = true; min_length = 3 }

-- Settings (3) are open; a first question is confirmed, a second one waits.
abbrev course : List Event
course =
    opens 3 none
    ∷ asks none
    ∷ submits 10 none (some password_input)
        (record { guard = []; field1 = codes "pw"; field2 = codes "pw" })
    ∷ submits 10 none (some password_input)
        (record { guard = []; field1 = codes "pass"; field2 = codes "pass" })
    ∷ asks none
    ∷ []

course_test :
    ((run course (start_page 10)).results ≡ (10, some (typed (codes "pass"))) ∷ [])
    × ((run course (start_page 10)).stack ≡ 11 ∷ 3 ∷ [])
unfolding run step start_page open_modal ask_modal submit validate judge_input finish_ask resolve
    hide_modal focus_of forget_focus member_id remove_id same
course_test = (refl, refl)

escape_test : (on_escape (run course (start_page 10))).stack ≡ 3 ∷ []
unfolding run step start_page open_modal ask_modal submit validate judge_input finish_ask resolve
    hide_modal close_modal on_escape focus_of forget_focus member_id remove_id same
escape_test = refl

dismissal_settles_example :
    let st = run course (start_page 10) in
    (member_id st.stack 11 ≡ true)
    × (times_resolved (close_modal 11 st) 11 ≡ 1)
    × (member_id (close_modal 11 st).pending 11 ≡ false)
    × (member_id (close_modal 11 st).stack 11 ≡ false)
unfolding run step start_page open_modal ask_modal submit validate judge_input finish_ask resolve
    hide_modal focus_of forget_focus member_id remove_id same
dismissal_settles_example = dismissal_settles 10 course 11 refl
