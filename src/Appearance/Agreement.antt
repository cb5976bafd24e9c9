-- ===== src/Appearance/Agreement.antt =====
-- The theme of the first paint, of client/js/preload.js, and that of client/js/theme.js.
use mathlib.Core.Option
use lattix.Prelude.{
  ◌≡◌, refl, sym, ap, subst, same→eq, Text, codes, same, Bool, true, false, Option, some, [], ◌∷◌,
  if◌then◌else◌, Bool-cases, inl, inr, if-cases,
}
use lattix.Appearance.{
  Browser, Root, themes, palettes, valid_palette, is_in, or_else, prefers_light, preload_resolved,
  resolve_theme, stored_theme, apply_theme, current_theme, stored_chat, apply_chat_color,
  current_chat_color, init_appearance, preference_changes, preload_theme, preload,
}

themes-palettes :
    (name : Text) → same name (codes "system") ≡ false → is_in name themes ≡ is_in name palettes
unfolding is_in
themes-palettes name e = rw e refl

resolve_dark : (light : Bool) → resolve_theme light (codes "dark") ≡ codes "dark"
unfolding resolve_theme is_in same
resolve_dark light = refl

kept :
    (light : Bool) (name : Text)
    → same name (codes "system") ≡ false
    → is_in name palettes ≡ true
    → name ≡ resolve_theme light name
unfolding resolve_theme
kept light name e p = rw (e, themes-palettes name e, p) refl

-- A name that is no theme counts as "dark" in both files.
valid_palette-resolve_theme :
    (light : Bool) (name : Text)
    → same name (codes "system") ≡ false
    → valid_palette name ≡ resolve_theme light (stored_theme name)
unfolding valid_palette stored_theme
valid_palette-resolve_theme light name e = elim (Bool-cases (is_in name palettes)) [
  | inl p ↦ rw (themes-palettes name e, p) (kept light name e p)
  | inr p ↦ rw (themes-palettes name e, p) (sym (resolve_dark light))
]

preferred :
    (light : Bool)
    → valid_palette (if light then codes "light" else codes "dark")
      ≡ resolve_theme light (stored_theme (codes "system"))
unfolding valid_palette resolve_theme stored_theme is_in same
preferred true = refl
preferred false = refl

preload_resolved-resolve_theme :
    (light : Bool) (name : Text)
    → preload_resolved (some light) name ≡ some (resolve_theme light (stored_theme name))
unfolding preload_resolved
preload_resolved-resolve_theme light name = elim (Bool-cases (same name (codes "system"))) [
  | inl e ↦ rw e (
      ap some (
        subst
          (λ n.
            valid_palette (if light then codes "light" else codes "dark")
            ≡ resolve_theme light (stored_theme n))
          (sym (same→eq name (codes "system") e)) (preferred light)))
  | inr e ↦ rw e (ap some (valid_palette-resolve_theme light name e))
]

preload_theme-resolve_theme :
    (b : Browser) (light : Bool)
    → b.reads ≡ true
    → b.light ≡ some light
    → preload_theme b ≡ some (resolve_theme (prefers_light b) (stored_theme (current_theme b)))
unfolding preload_theme current_theme prefers_light
preload_theme-resolve_theme b light r l =
    rw (r, l) (preload_resolved-resolve_theme light (or_else b.theme (codes "dark")))

chat_kept :
    (b : Browser) (name : Text) (page : Root)
    → b.reads ≡ true
    → current_chat_color (apply_theme name (b, page)).0 ≡ or_else b.chat (codes "default")
unfolding apply_theme current_chat_color
chat_kept b name page r =
    if-cases (λ c. current_chat_color c ≡ or_else b.chat (codes "default")) b.writes
      (λ _. rw r refl) (λ _. rw r refl)

-- Where storage can be read and the system's preference is known, the palette and the colour scheme
-- of the first paint are those that theme.js then sets, whatever is stored, and the chat colour that
-- theme.js sets is that of the first paint, or the default one where that is none of the five.
pub preload_agrees :
    (b : Browser) (page : Root) (light : Bool)
    → b.reads ≡ true
    → b.light ≡ some light
    → let first = preload b page in
      let later = (init_appearance (b, first)).1 in
      (first.data_theme ≡ later.data_theme)
      × (first.color_scheme ≡ later.color_scheme)
      × (later.data_chat ≡ Option.map stored_chat first.data_chat)
unfolding preload init_appearance apply_theme apply_chat_color
preload_agrees b page light r l =
    rw (preload_theme-resolve_theme b light r l, preload)
      (refl, refl, ap some (ap stored_chat (chat_kept b (current_theme b) page r)))

resolve_theme-steady :
    (before light : Bool) (name : Text)
    → same name (codes "system") ≡ false
    → resolve_theme before name ≡ resolve_theme light name
unfolding resolve_theme
resolve_theme-steady before light name e = rw e refl

or_else-stored_theme :
    (name : Text) → or_else (some (stored_theme name)) (codes "dark") ≡ stored_theme name
unfolding or_else stored_theme is_in same
or_else-stored_theme [] = refl
or_else-stored_theme (c ∷ cs) =
    if-cases (λ n. or_else (some n) (codes "dark") ≡ n) (is_in (c ∷ cs) themes) (λ _. refl)
      (λ _. refl)

system_chosen :
    (light : Bool) (name : Text)
    → same name (codes "system") ≡ true
    → resolve_theme light (stored_theme (codes "system")) ≡ resolve_theme light name
unfolding stored_theme is_in same
system_chosen light name e = ap (resolve_theme light) (sym (same→eq name (codes "system") e))

-- Where storage can be read and written, the palette after a change of the system's preference is
-- the one that a page loaded then would set: it follows the system for "system", and stays for the
-- rest.
pub preference_changes-init_appearance :
    (theme chat sounds : Option Text) (before : Option Bool) (light : Bool) (page : Root)
    → let b : Browser = record {
      reads = true;
      writes = true;
      theme = theme;
      chat = chat;
      sounds = sounds;
      light = before;
    } in
      (preference_changes light (init_appearance (b, page))).1.data_theme
      ≡ (init_appearance (record b { light = some light }, page)).1.data_theme
unfolding preference_changes init_appearance apply_theme apply_chat_color current_theme
    prefers_light
preference_changes-init_appearance theme chat sounds before light page =
    let name = or_else theme (codes "dark") in
    rw (or_else-stored_theme name) (
      if-cases
        (λ (s : Browser × Root). s.1.data_theme ≡ some (resolve_theme light (stored_theme name)))
        (same (stored_theme name) (codes "system"))
        (λ e. ap some (system_chosen light (stored_theme name) e))
        (λ e. ap some (resolve_theme-steady _ light (stored_theme name) e)))
