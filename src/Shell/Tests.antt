-- ===== src/Shell/Tests.antt =====
-- Shortcuts, searches and the start of client/js/app.js at concrete inputs.
use lattix.Prelude.{◌≡◌, refl, codes, same, true, false, some, [], ◌∷◌}
use lattix.Shell.{
  Page, Press, shortcut, no_shortcut, search_people, on_session_rejected, member_answer,
  first_screen, insecure_notice, crypto_unavailable,
}

abbrev page : Page
page = record { dialogs = 0; app_hidden = false; typing = false; in_box = false; box = [] }

abbrev control_k : Press
control_k = record { key = codes "K"; lower = codes "k"; ctrl = true; meta = false }

shortcut_test :
    (shortcut page control_k ≡ search_people)
    × (shortcut (record page { dialogs = 1 }) control_k ≡ no_shortcut)
unfolding shortcut same
shortcut_test = (refl, refl)

rejected_twice_test :
    on_session_rejected (on_session_rejected (record { rejected = false; asked = 0 }))
    ≡ record { rejected = true; asked = 1 }
unfolding on_session_rejected
rejected_twice_test = refl

-- "a" and then "an" are typed, and both answers hold anna.
double_test :
    (member_answer
      (codes "anna" ∷ [])
      (member_answer (codes "anna" ∷ []) (record { field = codes "an"; results = [] }))).results
    ≡ codes "anna" ∷ codes "anna" ∷ []
unfolding member_answer
double_test = refl

plain_http_test :
    first_screen (some (record { is_secure = false; has_crypto = true; has_subtle = false }))
    ≡ insecure_notice
unfolding first_screen crypto_unavailable
plain_http_test = refl
