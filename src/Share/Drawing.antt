-- ===== src/Share/Drawing.antt =====
-- `drawQr` of client/js/app.js: every module of the code is on the canvas where a camera reads it.
use lattix.Prelude.{
  ℕ, zero, suc, ◌+◌, ◌*◌, ◌/◌, ◌≤◌, ◌<◌, ◌≡◌, refl, ap, ◌∙◌, Bool, true, false, ◌&&◌, arith, ltb,
  leb, ◌==◌, if◌then◌else◌, Bool-cases, ==_iff, inl, inr,
}
use native.Mathlib.Nat.{div-mul-le_self, lt-div-mul-add}
use lattix.Share.{Canvas, fill_rect, quiet, qr_scale, qr_offset, draw_row, draw_rows, draw_qr}

mul_le : (a b s : ℕ) → a ≤ b → a * s ≤ b * s
mul_le a b s h = grind arith

mul_suc : (a s : ℕ) → (a + 1) * s ≡ a * s + s
mul_suc a s = grind arith

-- The column, or row, of the pixel `d` into the module `a`.
abbrev pub pixel_in : ℕ → ℕ → ℕ → ℕ → ℕ
pixel_in off s a d = off + (a + quiet) * s + d

-- A pixel `d` columns into module `b` is in the columns of module `a` exactly if these are the same.
module _ (off s d : ℕ) (inside : d < s) where
  in_module :
      (a b : ℕ)
      → (leb (off + (a + 4) * s) (off + (b + 4) * s + d)
          && ltb (off + (b + 4) * s + d) (off + (a + 4) * s + s))
        ≡ (a == b)
  in_module a b = elim (Bool-cases (a == b)) [
    | inl e ↦ ground (arith, ap (λ n. n * s) (eq a b e))
    | inr e ↦ elim (Bool-cases (ltb a b)) [
      | inl l ↦ ground (arith, e, l, mul_le (a + 1 + 4) (b + 4) s, mul_suc (a + 4) s)
      | inr l ↦ ground (arith, e, l, mul_le (b + 1 + 4) (a + 4) s, mul_suc (b + 4) s)
    ]
  ]
    where
      eq : (a b : ℕ) → (a == b) ≡ true → a ≡ b
      eq a b e = ground (arith, e)

-- The pixel `d` columns and `e` rows into the module at `a`, `b`.
module _ (get_module : ℕ → ℕ → Bool) (off s d e : ℕ) (d_inside : d < s) (e_inside : e < s)
    (a b : ℕ) where
  abbrev column : ℕ
  column = pixel_in off s a d

  abbrev row : ℕ
  row = pixel_in off s b e

  fill_module :
      (x y : ℕ) (canvas : Canvas)
      → fill_rect true (off + (x + quiet) * s) (off + (y + quiet) * s) s s canvas column row
        ≡ (if (x == a) && (y == b) then true else canvas column row)
  unfolding fill_rect
  fill_module x y canvas = rw (in_module off s d d_inside x a, in_module off s e e_inside y b) refl

  same_module : (x y : ℕ) → (x == a) ≡ true → (y == b) ≡ true → get_module x y ≡ get_module a b
  same_module x y p q =
      ap (λ n. get_module n y) ((==_iff x a).0 p) ∙ ap (get_module a) ((==_iff y b).0 q)

  draw_module-pixel :
      (x y : ℕ) (canvas : Canvas)
      → (if get_module x y
            then fill_rect true (off + (x + quiet) * s) (off + (y + quiet) * s) s s canvas
            else canvas)
          column row
        ≡ (if (x == a) && (y == b) && get_module a b then true else canvas column row)
  draw_module-pixel x y canvas = elim (Bool-cases (get_module x y)) [
    | inl g ↦ rw g (fill_module x y canvas ∙ ground (arith, g, same_module x y))
    | inr g ↦ rw g (ground (arith, g, same_module x y))
  ]

  draw_row-pixel :
      (n y x : ℕ) (canvas : Canvas)
      → draw_row get_module off s y n x canvas column row ≡ (
          if (y == b) && (leb x a && ltb a (x + n)) && get_module a b
          then true
          else canvas column row)
  unfolding draw_row
  draw_row-pixel zero y x canvas = ground arith
  draw_row-pixel (suc n) y x canvas =
      draw_row-pixel n y (x + 1) _
      ∙ ap
          (λ c.
            if (y == b) && (leb (x + 1) a && ltb a (x + 1 + n)) && get_module a b then true else c)
          (draw_module-pixel x y canvas)
      ∙ ground arith

  draw_rows-pixel :
      (size n y : ℕ) (canvas : Canvas)
      → draw_rows get_module off s size n y canvas column row ≡ (
          if (leb y b && ltb b (y + n)) && ltb a size && get_module a b
          then true
          else canvas column row)
  unfolding draw_rows
  draw_rows-pixel size zero y canvas = ground arith
  draw_rows-pixel size (suc n) y canvas =
      draw_rows-pixel size n (y + 1) (draw_row get_module off s y size 0 canvas)
      ∙ ap
          (λ c.
            if (leb (y + 1) b && ltb b (y + 1 + n)) && ltb a size && get_module a b
            then true
            else c)
          (draw_row-pixel size y 0 canvas)
      ∙ ground arith

pixel_in_fits :
    (off s a d size width : ℕ)
    → d < s
    → a < size
    → off + (size + 8) * s ≤ width
    → pixel_in off s a d < width
pixel_in_fits off s a d size width hd ha room =
    omega (arith, mul_le (a + 4 + 1) (size + 8) s (omega arith), mul_suc (a + 4) s)

quotient_pos : (n m : ℕ) → 0 < m → m ≤ n → 1 ≤ n / m
quotient_pos n m pos h = grind (arith, lt-div-mul-add {a = n} {b = m} pos)

-- The code with its margin fits into the canvas.
qr_fits :
    (width size : ℕ)
    → size + 8 ≤ width
    → (0 < qr_scale width size) × (qr_offset width size + (size + 8) * qr_scale width size ≤ width)
unfolding qr_scale qr_offset
qr_fits width size h =
    let one : 1 ≤ width / (size + 8) = quotient_pos width (size + 8) (omega arith) h in
    let whole : (size + 8) * (width / (size + 8)) ≤ width =
      grind (arith, div-mul-le_self width (size + 8)) in
    (ground (arith, one), ground (arith, one, whole))

-- Of a code that fits with its margin, on a canvas that is at least as high as wide: every pixel of
-- the module in a column and a row lies on the canvas, and is dark exactly where the module is.
pub draw_qr-scan :
    (get_module : ℕ → ℕ → Bool) (width height size a b d e : ℕ) (canvas : Canvas)
    → size + 8 ≤ width
    → width ≤ height
    → a < size
    → b < size
    → d < qr_scale width size
    → e < qr_scale width size
    → let px = pixel_in (qr_offset width size) (qr_scale width size) a d in
      let py = pixel_in (qr_offset width size) (qr_scale width size) b e in
      (px < width)
      × (py < height)
      × (draw_qr width height size get_module canvas px py ≡ get_module a b)
unfolding draw_qr fill_rect
draw_qr-scan get_module width height size a b d e canvas fits high ha hb hd he =
    let s = qr_scale width size in
    let off = qr_offset width size in
    let room = (qr_fits width size fits).1 in
    let on_x = pixel_in_fits off s a d size width hd ha room in
    let on_y = pixel_in_fits off s b e size width he hb room in
    (
      on_x,
      omega (arith, on_y, high),
      draw_rows-pixel get_module off s d e hd he a b size size 0
            (fill_rect false 0 0 width height canvas)
          ∙ ground (arith, on_x, on_y, high, ha, hb),
    )
