-- ===== src/Share.antt =====
-- Sharing one's own safety code in client/js/app.js: the link, the drawing of its QR code, and the
-- reading of such a link. The generator of QR codes (client/js/qr.js) and the Web platform's reading
-- of URLs are parameters.
pub mod Drawing
pub mod Links
mod Tests
use lattix.Prelude.{
  ℕ, zero, suc, ◌+◌, ◌-◌, ◌*◌, ◌/◌, max, Text, codes, same, Bool, true, false, not, ◌&&◌, ◌||◌,
  Option, none, some, [], ◌∷◌, ◌++◌, ltb, leb, ◌==◌, if◌then◌else◌, ◌≡◌, ◌≢◌,
}
use lattix.View.{starts_with, includes}
use lattix.Trust
use lattix.Trust.{KeyRecord, Self, process_deep_link}

-- What the Web platform does for links: `encodeURIComponent`, `location.hash` of an address that is
-- opened, and `new URLSearchParams(s).get(name)`.
pub record Web : Type 0 where
  pub encode : Text → Text
  pub hash_of : Text → Text
  pub param : Text → Text → Option Text

unfoldable pub share_fragment : Web → Text → Text → Text
share_fragment web username fp = codes "add=" ++ web.encode username ++ codes "&fp=" ++ fp

-- `myShareUrl`
unfoldable pub my_share_url : Web → Text → Text → Text → Text
my_share_url web origin username fp = origin ++ codes "/#" ++ share_fragment web username fp

-- `replace(/^#/, "")`
unfoldable pub drop_hash : Text → Text
drop_hash [] = []
drop_hash (c ∷ s) = if c == b'#' then s else c ∷ s

-- `params.get(name) || ""`
unfoldable pub param_or_empty : Web → Text → Text → Text
param_or_empty web hash name = elim (web.param hash name) [ none ↦ [] | some v ↦ v ]

-- The beginning of `processDeepLink`: the name and the code of the link, in lower case, or `none`
-- where the address holds none.
unfoldable pub deep_link : Web → (Text → Text) → Text → Option (Text × Text)
deep_link web lower location_hash =
    let hash = drop_hash location_hash in
    if not (starts_with hash (codes "add=")) && not (includes hash (codes "add="))
    then none
    else some (
      lower (param_or_empty web hash (codes "add")),
      lower (param_or_empty web hash (codes "fp")),
    )

-- `processDeepLink` on the address that the app was opened with.
unfoldable pub open_link :
    Web
    → (Text → Text)
    → (Text → Text → Option Text)
    → ℕ
    → Trust.State
    → Self
    → Text
    → Option KeyRecord
    → Option KeyRecord
    → Trust.State
open_link web lower fingerprint_of now st me address opened answer =
    elim (deep_link web lower (web.hash_of address)) [
      | none ↦ st
      | some (who, link_fp) ↦ process_deep_link fingerprint_of now st me who link_fp opened answer
    ]

-- A canvas: whether the pixel in a column and a row is dark.
abbrev pub Canvas : Type 0
Canvas = ℕ → ℕ → Bool

-- `fillRect` in the dark colour, or the light one.
unfoldable pub fill_rect : Bool → ℕ → ℕ → ℕ → ℕ → Canvas → Canvas
fill_rect dark x y w h canvas px py =
    if leb x px && ltb px (x + w) && (leb y py && ltb py (y + h)) then dark else canvas px py

abbrev pub quiet : ℕ
quiet = 4

-- The sides of a module in pixels, and the column and row where the code begins.
unfoldable pub qr_scale : ℕ → ℕ → ℕ
qr_scale width size = max 1 (width / (size + quiet * 2))

unfoldable pub qr_offset : ℕ → ℕ → ℕ
qr_offset width size = (width - (size + quiet * 2) * qr_scale width size) / 2

-- The loops over the modules, `n` rounds from `x`, or from `y`, on.
unfoldable pub draw_row : (ℕ → ℕ → Bool) → ℕ → ℕ → ℕ → ℕ → ℕ → Canvas → Canvas
draw_row get_module off scale y zero x canvas = canvas
draw_row get_module off scale y (suc n) x canvas = draw_row get_module off scale y n (x + 1) (
    if get_module x y
    then fill_rect true (off + (x + quiet) * scale) (off + (y + quiet) * scale) scale scale canvas
    else canvas)

unfoldable pub draw_rows : (ℕ → ℕ → Bool) → ℕ → ℕ → ℕ → ℕ → ℕ → Canvas → Canvas
draw_rows get_module off scale size zero y canvas = canvas
draw_rows get_module off scale size (suc n) y canvas =
    draw_rows get_module off scale size n (y + 1) (draw_row get_module off scale y size 0 canvas)

-- `drawQr` for a code of `size` modules a side.
unfoldable pub draw_qr : ℕ → ℕ → ℕ → (ℕ → ℕ → Bool) → Canvas → Canvas
draw_qr width height size get_module canvas =
    draw_rows get_module (qr_offset width size) (qr_scale width size) size size 0
      (fill_rect false 0 0 width height canvas)
