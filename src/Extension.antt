-- ===== src/Extension.antt =====
-- The service worker of client/background.js, which shows the app when the toolbar icon is clicked.
-- The browser is a parameter; its calls that are refused leave it as it was.
pub mod Single
mod Tests
use lattix.Prelude.{ℕ, Text, Bool, true, false, Option, none, some, List, [], ◌∷◌, if◌then◌else◌}
use lattix.Backup.{has_prefix}

-- A context of the extension; `tab_id` is empty where it is null or negative.
pub record Context : Type 0 where
  pub document_url : Option Text
  pub tab_id : Option ℕ

pub record Tab : Type 0 where
  pub id : ℕ
  pub window_id : Option ℕ

-- `contexts` is empty where `getContexts` is missing or refuses.
pub record Browser (W : Type 0) : Type 0 where
  pub contexts : W → Option (List Context)
  pub tab : W → ℕ → Option Tab
  pub activate : W → ℕ → Option W
  pub focus : W → ℕ → Option W
  pub create : W → Option W

unfoldable pub is_app : Text → Context → Bool
is_app app_url c = elim c.document_url [ none ↦ false | some url ↦ has_prefix url app_url ]

unfoldable pub find_app : Text → List Context → Option Context
find_app app_url [] = none
find_app app_url (c ∷ cs) = if is_app app_url c then some c else find_app app_url cs

module _ {W : Type 0} (b : Browser W) (app_url : Text) where
  unfoldable pub find_app_tab : W → Option Tab
  find_app_tab w = elim (b.contexts w) [
    | none ↦ none
    | some cs ↦ elim (find_app app_url cs) [
      | none ↦ none
      | some c ↦ elim c.tab_id [ none ↦ none | some id ↦ b.tab w id ]
    ]
  ]

  unfoldable pub open_tab : W → W
  open_tab w = elim (b.create w) [ none ↦ w | some v ↦ v ]

  unfoldable pub focus_window : Option ℕ → W → W
  focus_window none w = w
  focus_window (some window) w = elim (b.focus w window) [ none ↦ open_tab w | some v ↦ v ]

  unfoldable pub on_clicked : W → W
  on_clicked w = elim (find_app_tab w) [
    | none ↦ open_tab w
    | some t ↦ elim (b.activate w t.id) [ none ↦ open_tab w | some v ↦ focus_window t.window_id v ]
  ]
