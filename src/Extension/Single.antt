-- ===== src/Extension/Single.antt =====
-- How many tabs of the app a click on the toolbar icon leaves, in client/background.js.
use lattix.Prelude.{ℕ, ◌+◌, ◌≡◌, Text, Bool, true, false, none, some}
use lattix.Extension.{Browser, find_app_tab}

-- Whether a click can put a tab of the app in front: it is found, activated, and its window, if it has
-- one, focused.
unfoldable pub in_front : {W : Type 0} → Browser W → Text → W → Bool
in_front b app_url w = elim (find_app_tab b app_url w) [
  | none ↦ false
  | some t ↦ elim (b.activate w t.id) [
    | none ↦ false
    | some v ↦ elim t.window_id [
      | none ↦ true
      | some window ↦ elim (b.focus v window) [ none ↦ false | some _ ↦ true ]
    ]
  ]
]

module _ {W : Type 0} (b : Browser W) (app_url : Text) (apps : W → ℕ) where
  -- What the browser's calls do to the number of tabs that show the app.
  pub record Counts : Type 0 where
    pub created : (w v : W) → b.create w ≡ some v → apps v ≡ apps w + 1
    pub activated : (w v : W) (id : ℕ) → b.activate w id ≡ some v → apps v ≡ apps w
    pub focused : (w v : W) (id : ℕ) → b.focus w id ≡ some v → apps v ≡ apps w
