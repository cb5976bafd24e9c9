-- ===== src/Appearance/Tests.antt =====
-- The theme of client/js/theme.js and client/js/preload.js on concrete settings.
use mathlib.Core.Option
use lattix.Prelude.{◌≡◌, refl, same, codes, true, false, none, some}
use lattix.Appearance.{
  Browser, Root, preload, init_appearance, stored_chat, is_in, or_else, preload_theme,
  preload_resolved, valid_palette, set_sounds, sounds_at_start,
}
use lattix.Appearance.Agreement.{preload_agrees}

abbrev system_light : Browser
system_light = record {
  reads = true;
  writes = true;
  theme = some (codes "system");
  chat = some (codes "purple");
  sounds = none;
  light = some true;
}

abbrev blank : Root
blank = record { data_theme = none; data_chat = none; color_scheme = none; theme_color = none }

-- The chat colour of the first paint is not validated.
first_paint_test :
    ((preload system_light blank).data_theme ≡ some (codes "light"))
    × ((preload system_light blank).data_chat ≡ some (codes "purple"))
unfolding preload preload_theme preload_resolved or_else same valid_palette is_in
first_paint_test = (refl, refl)

preload_agrees_example :
    let first = preload system_light blank in
    let later = (init_appearance (system_light, first)).1 in
    (first.data_theme ≡ later.data_theme)
    × (first.color_scheme ≡ later.color_scheme)
    × (later.data_chat ≡ Option.map stored_chat first.data_chat)
preload_agrees_example = preload_agrees system_light blank true refl refl

sounds_off_test : sounds_at_start (set_sounds false system_light).1 ≡ false
unfolding sounds_at_start set_sounds same
sounds_off_test = refl
