-- ===== src/Composer/Keys.antt =====
-- Keys and the clipboard in client/js/app.js: what sends, what is pasted as a file, and what Escape does
-- in the filter of the sidebar; and the choices of the dialog for disappearing messages.
use lattix.Prelude.{
  ℕ, ◌≡◌, arith, Text, codes, same, Bool, true, false, not, ◌&&◌, Option, none, List, [], ◌∷◌, map,
  ◌==◌, if◌then◌else◌,
}
use lattix.Prelude.Dict.{Dict}
use lattix.Composer.Ttl.{get_ttl, set_ttl, get_ttl-set_ttl, ttl_options}

-- Whether "keydown" in the message box sends; `has_pointer` is that there is a real keyboard.
unfoldable pub key_sends : Bool → Text → Bool → Bool
key_sends has_pointer key shift = same key (codes "Enter") && (not shift && has_pointer)

-- An item of the clipboard: text, or a file, `none` where it cannot be read.
pub data Item {ℓ} (F : Type ℓ) : Type ℓ where
  string_item : Item F
  file_item : Option F → Item F

-- The file that "paste" sends.
unfoldable pub pasted {ℓ} : {F : Type ℓ} → List (Item F) → Option F
pasted [] = none
pasted (string_item ∷ items) = pasted items
pasted (file_item f ∷ items) = f

-- The filter after a key, and whether the key goes no further.
unfoldable pub filter_key : Text → Text → Text × Bool
filter_key key value =
    if same key (codes "Escape") && not (same value []) then ([], true) else (value, false)

-- The buttons of `openTtl`, and which of them is marked.
unfoldable pub ttl_grid : Dict Text → Text → List (ℕ × Bool)
ttl_grid ttls cid = map (λ v. (v, v == get_ttl ttls cid)) ttl_options

-- After a button was pressed, just that one is marked, and the buttons of others are as they were.
pub ttl_grid-set_ttl :
    (ttls : Dict Text) (cid : Text) (v : ℕ) (other : Text)
    → ttl_grid (set_ttl cid v ttls) other
      ≡ (if same cid other then map (λ w. (w, w == v)) ttl_options else ttl_grid ttls other)
unfolding ttl_grid
ttl_grid-set_ttl ttls cid v other = ground (arith, get_ttl-set_ttl ttls cid other v)
