-- ===== src/View/Cards.antt =====
-- Files, quotes and menus as client/js/app.js shows them.
use lattix.Prelude.{
  ℕ, ◌≡◌, ◌≢◌, refl, ap, ◌∙◌, arith, Text, codes, same, Bool, true, false, not, Option, none, some,
  List, [], ◌∷◌, ◌++◌, All, map, ◌==◌, ◌≤◌, if◌then◌else◌, if-cases, subst,
}
use mathlib.Core.List.{append_assoc}
use lattix.History.{Message, Peer, dm, group}
use lattix.View.{is_previewable, is_preview_mime, preview_max}

-- `autoImages`, and what the toggle stores.
unfoldable pub auto_images : Option Text → Bool
auto_images stored = elim stored [ none ↦ true | some text ↦ not (same text (codes "0")) ]

unfoldable pub stored_auto_images : Bool → Text
stored_auto_images on = if on then codes "1" else codes "0"

pub auto_images-stored : (on : Bool) → auto_images (some (stored_auto_images on)) ≡ on
unfolding auto_images stored_auto_images same
auto_images-stored true = refl
auto_images-stored false = refl

pub data Card : Type 0 where
  revealed placeholder file_card : Card

-- `renderFile`; `lower` is `toLowerCase`, `stored` the preference.
unfoldable pub render_file : (Text → Text) → Option Text → Message → Text → ℕ → Card
render_file lower stored m mime size =
    if is_previewable lower m mime size
    then if auto_images stored then revealed else placeholder
    else file_card

-- An image is decrypted without being asked for only in a verified message, of a type that is shown
-- and a size within the bound.
pub render_file-revealed :
    (lower : Text → Text) (stored : Option Text) (m : Message) (mime : Text) (size : ℕ)
    → render_file lower stored m mime size ≡ revealed
    → (m.verified ≡ true)
      × (is_preview_mime lower mime ≡ true)
      × (size ≤ preview_max)
      × (auto_images stored ≡ true)
unfolding render_file is_previewable
render_file-revealed lower stored m mime size e = ground (arith, e)

-- `split("\n")`, and `join("\n")`.
add_to_first : ℕ → List Text → List Text
add_to_first c [] = (c ∷ []) ∷ []
add_to_first c (l ∷ ls) = (c ∷ l) ∷ ls

unfoldable pub split_lines : Text → List Text
unfolding add_to_first
split_lines [] = [] ∷ []
split_lines (c ∷ s) = let rest = split_lines s in if c == 10 then [] ∷ rest else add_to_first c rest

unfoldable pub join_lines : List Text → Text
join_lines [] = []
join_lines (l ∷ []) = l
join_lines (l ∷ k ∷ ls) = l ++ 10 ∷ join_lines (k ∷ ls)

abbrev pub quote_line : Text → Text
quote_line l = codes "> " ++ l

-- The text of the message box after "Quote".
unfoldable pub quote : Text → Text → Text
quote text input = join_lines (map quote_line (split_lines text)) ++ (codes "\n\n" ++ input)

abbrev IsLine : Text → Type 0
IsLine = All (λ c. c ≢ 10)

add_to_first-IsLine :
    (c : ℕ) (ls : List Text) → c ≢ 10 → All IsLine ls → All IsLine (add_to_first c ls)
unfolding add_to_first
add_to_first-IsLine c [] h k = ((h, tt), tt)
add_to_first-IsLine c (l ∷ ls) h k = ((h, k.0), k.1)

split_lines-IsLine : (s : Text) → All IsLine (split_lines s)
unfolding split_lines
split_lines-IsLine [] = (tt, tt)
split_lines-IsLine (c ∷ s) =
    let later = split_lines-IsLine s in
    if-cases (All IsLine) (c == 10) (λ _. (tt, later))
      (λ e. add_to_first-IsLine c (split_lines s) (λ same. absurd (ground (arith, e, same))) later)

split_lines-some : (s : Text) → (l : Text) × (ls : List Text) × (split_lines s ≡ l ∷ ls)
unfolding split_lines add_to_first
split_lines-some [] = ([], [], refl)
split_lines-some (c ∷ s) =
    let (l, ls, e) = split_lines-some s in
    if-cases (λ x. (k : Text) × (ks : List Text) × (x ≡ k ∷ ks)) (c == 10)
      (λ _. ([], split_lines s, refl)) (λ _. (c ∷ l, ls, ap (add_to_first c) e))

split_lines-append : (l s : Text) → IsLine l → split_lines (l ++ 10 ∷ s) ≡ l ∷ split_lines s
unfolding split_lines add_to_first
split_lines-append [] s h = ground arith
split_lines-append (c ∷ l) s h = ground (arith, h.0, split_lines-append l s h.1)

join_lines-append :
    (l : Text) (ls : List Text) (s : Text)
    → All IsLine (l ∷ ls)
    → split_lines (join_lines (l ∷ ls) ++ 10 ∷ s) ≡ (l ∷ ls) ++ split_lines s
unfolding join_lines
join_lines-append l [] s h = split_lines-append l s h.0
join_lines-append l (k ∷ ls) s h =
    ap split_lines (append_assoc l (10 ∷ join_lines (k ∷ ls)) (10 ∷ s))
    ∙ split_lines-append l (join_lines (k ∷ ls) ++ 10 ∷ s) h.0
    ∙ ap (λ rest. l ∷ rest) (join_lines-append k ls s h.1)

quoted-IsLine : (ls : List Text) → All IsLine ls → All IsLine (map quote_line ls)
quoted-IsLine [] h = tt
quoted-IsLine (l ∷ ls) h = (
  ((λ e. absurd (omega (arith, e))), ((λ e. absurd (omega (arith, e))), h.0)),
  quoted-IsLine ls h.1,
)

-- The lines of the message box after a quote: those of the message, each marked, an empty line, and
-- those that were there.
pub quote-lines :
    (text input : Text)
    → split_lines (quote text input) ≡ map quote_line (split_lines text) ++ ([] ∷ split_lines input)
unfolding quote
quote-lines text input =
    let (l, ls, e) = split_lines-some text in
    let plain = quoted-IsLine (split_lines text) (split_lines-IsLine text) in
    let blank : split_lines (10 ∷ input) ≡ [] ∷ split_lines input =
      split_lines-append [] input tt in
    rw (quote, e)
      (join_lines-append (quote_line l) (map quote_line ls) (10 ∷ input)
          (subst (λ x. All IsLine (map quote_line x)) e plain)
        ∙ ap (λ rest. map quote_line (l ∷ ls) ++ rest) blank)

pub data MenuItem : Type 0 where
  disappearing block unblock group_info : MenuItem

-- `toggleChatMenu`: the menu, `none` while it is closed; `current` is the open conversation.
unfoldable pub toggle_chat_menu :
    (Text → Bool) → Option Peer → Option (List MenuItem) → Option (List MenuItem)
toggle_chat_menu is_blocked current (some items) = none
toggle_chat_menu is_blocked none none = none
toggle_chat_menu is_blocked (some (dm username)) none =
    some (disappearing ∷ (if is_blocked username then unblock else block) ∷ [])
toggle_chat_menu is_blocked (some (group id)) none = some (disappearing ∷ group_info ∷ [])
