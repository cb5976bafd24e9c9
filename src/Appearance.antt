-- ===== src/Appearance.antt =====
-- Theme, chat colour and sounds: client/js/theme.js, client/js/preload.js, which resolves the theme
-- before the first paint, and the preference of client/js/sound.js.
pub mod Agreement
mod Tests
use lattix.Prelude.{
  ℕ, Text, codes, same, Bool, true, false, not, ◌&&◌, ◌||◌, Option, none, some, List, [], ◌∷◌, ◌==◌,
  any, if◌then◌else◌,
}

-- What the page finds: whether `localStorage` can be read and written, the values under the keys of
-- the theme, the chat colour and the sounds, and whether the system prefers a light theme, `none`
-- where there is no `matchMedia`.
pub record Browser : Type 0 where
  pub reads : Bool
  pub writes : Bool
  pub theme : Option Text
  pub chat : Option Text
  pub sounds : Option Text
  pub light : Option Bool

-- The attributes of the root element, its `colorScheme`, and the colour in the `theme-color` tag.
pub record Root : Type 0 where
  pub data_theme : Option Text
  pub data_chat : Option Text
  pub color_scheme : Option Text
  pub theme_color : Option Text

abbrev pub themes : List Text
themes = codes "system" ∷ codes "dark" ∷ codes "light" ∷ codes "monokai" ∷ codes "kali" ∷ []

abbrev pub chat_colors : List Text
chat_colors = codes "default" ∷ codes "red" ∷ codes "green" ∷ codes "blue" ∷ codes "pink" ∷ []

unfoldable pub is_in : Text → List Text → Bool
is_in name names = any (same name) names

-- `value || fallback`
unfoldable pub or_else : Option Text → Text → Text
or_else none fallback = fallback
or_else (some []) fallback = fallback
or_else (some (c ∷ cs)) fallback = c ∷ cs

-- `media && media.matches`
unfoldable pub prefers_light : Browser → Bool
prefers_light b = elim b.light [ none ↦ false | some light ↦ light ]

unfoldable pub resolve_theme : Bool → Text → Text
resolve_theme light name =
    if same name (codes "system")
    then if light then codes "light" else codes "dark"
    else if is_in name themes
    then name
    else codes "dark"

unfoldable pub theme_color_of : Text → Text
theme_color_of theme =
    if same theme (codes "light")
    then codes "#eef1f7"
    else if same theme (codes "monokai")
    then codes "#1e1f1c"
    else if same theme (codes "kali")
    then codes "#0a0e14"
    else codes "#0c0d12"

unfoldable pub scheme_of : Text → Text
scheme_of theme = if same theme (codes "light") then codes "light" else codes "dark"

unfoldable pub stored_theme : Text → Text
stored_theme name = if is_in name themes then name else codes "dark"

unfoldable pub apply_theme : Text → Browser × Root → Browser × Root
apply_theme name (b, page) =
    let stored = stored_theme name in
    let resolved = resolve_theme (prefers_light b) stored in
    (
      if b.writes then record b { theme = some stored } else b,
      record page {
        data_theme = some resolved;
        color_scheme = some (scheme_of resolved);
        theme_color = some (theme_color_of resolved);
      },
    )

unfoldable pub current_theme : Browser → Text
current_theme b = if b.reads then or_else b.theme (codes "dark") else codes "dark"

unfoldable pub stored_chat : Text → Text
stored_chat name = if is_in name chat_colors then name else codes "default"

unfoldable pub apply_chat_color : Text → Browser × Root → Browser × Root
apply_chat_color name (b, page) = (
  if b.writes then record b { chat = some (stored_chat name) } else b,
  record page { data_chat = some (stored_chat name) },
)

unfoldable pub current_chat_color : Browser → Text
current_chat_color b = if b.reads then or_else b.chat (codes "default") else codes "default"

unfoldable pub init_appearance : Browser × Root → Browser × Root
init_appearance (b, page) =
    let themed = apply_theme (current_theme b) (b, page) in
    apply_chat_color (current_chat_color themed.0) themed

-- The listener on the preference of the system, which is now `light`.
unfoldable pub preference_changes : Bool → Browser × Root → Browser × Root
preference_changes light (b, page) =
    let now = record b { light = some light } in
    if same (current_theme now) (codes "system")
    then apply_theme (codes "system") (now, page)
    else (now, page)

abbrev pub palettes : List Text
palettes = codes "dark" ∷ codes "light" ∷ codes "monokai" ∷ codes "kali" ∷ []

unfoldable pub valid_palette : Text → Text
valid_palette resolved = if is_in resolved palettes then resolved else codes "dark"

-- `resolved` of preload.js by what is stored, or `none` where there is no `matchMedia` to call.
unfoldable pub preload_resolved : Option Bool → Text → Option Text
preload_resolved preference stored =
    if not (same stored (codes "system")) then some (valid_palette stored) else elim preference [
      | none ↦ none
      | some light ↦ some (valid_palette (if light then codes "light" else codes "dark"))
    ]

unfoldable pub preload_theme : Browser → Option Text
preload_theme b =
    if not b.reads then none else preload_resolved b.light (or_else b.theme (codes "dark"))

unfoldable pub preload : Browser → Root → Root
preload b page = elim (preload_theme b) [
  | none ↦ page
  | some resolved ↦ record page {
    data_theme = some resolved;
    data_chat = some (or_else b.chat (codes "default"));
    color_scheme = some (scheme_of resolved);
  }
]

-- `_enabled` when sound.js is loaded, where storage can be read.
unfoldable pub sounds_at_start : Browser → Bool
sounds_at_start b = elim b.sounds [ none ↦ true | some s ↦ not (same s (codes "0")) ]

-- `setSounds`, with `_enabled` beside what is stored; false where storing throws.
unfoldable pub set_sounds : Bool → Browser → Bool × Browser × Bool
set_sounds on b = (
  on,
  if b.writes then record b { sounds = some (if on then codes "1" else codes "0") } else b,
  b.writes,
)
