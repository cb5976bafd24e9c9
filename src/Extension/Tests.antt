-- ===== src/Extension/Tests.antt =====
-- The toolbar click of client/background.js in a browser that counts the tabs of the app.
use lattix.Prelude.{none, ℕ, zero, suc, ◌+◌, ◌≡◌, refl, Text, codes, some, List, [], ◌∷◌}
use lattix.Backup.{has_prefix}
use lattix.Extension.{
  Context, Browser, is_app, find_app, find_app_tab, focus_window, open_tab, on_clicked,
}

abbrev app : Text
app = codes "chrome-extension://x/index.html"

abbrev app_context : Context
app_context = record { document_url = some app; tab_id = some 3 }

-- The contexts list one tab of the app where there is any.
abbrev contexts_of : ℕ → List Context
contexts_of zero = []
contexts_of (suc n) = app_context ∷ []

abbrev counting : Browser ℕ
counting = record {
  contexts = λ w. some (contexts_of w);
  tab = λ w id. some (record { id = id; window_id = some 1 });
  activate = λ w id. some w;
  focus = λ w id. some w;
  create = λ w. some (w + 1);
}

-- A window that cannot be focused makes a second tab.
abbrev unfocused : Browser ℕ
unfocused = record counting { focus = λ w id. none }

second_tab_test : on_clicked unfocused app 1 ≡ 2
unfolding on_clicked find_app_tab find_app is_app has_prefix focus_window open_tab
second_tab_test = refl
