-- ===== src/Media/Sizes.antt =====
-- Sizes in client/js/app.js: what `resizeImage` and `fmtBytes` compute is within bounds.
use lattix.Prelude.{ℕ, ◌+◌, ◌*◌, ◌/◌, ◌≤◌, ◌<◌, ◌≡◌, max, min, arith, leb, Bool-cases, inl, inr, ap}
use native.Mathlib.Nat.{div-mul-le_self, lt-div-mul-add}
use lattix.Media.{round_div, resized, resize_image}

-- Rounding is off by half at most.
pub round_div_near :
    (n d : ℕ)
    → 0 < d
    → (2 * (round_div n d * d) ≤ 2 * n + d) × (2 * n < 2 * (round_div n d * d) + d)
unfolding round_div
round_div_near n d pos =
    let q = (2 * n + d) / (2 * d) in
    (
      grind (arith, div-mul-le_self (2 * n + d) (2 * d)),
      grind (arith, lt-div-mul-add {a = 2 * n + d} {b = 2 * d} (omega arith)),
    )

mul_le : (a b s : ℕ) → a ≤ b → a * s ≤ b * s
mul_le a b s h = grind arith

mul_suc : (a s : ℕ) → (a + 1) * s ≡ a * s + s
mul_suc a s = grind arith

-- A number whose multiple is within half a divisor of another's is at most that one.
pub le_of_near : (q r d : ℕ) → 0 < d → 2 * (q * d) ≤ 2 * (r * d) + d → q ≤ r
le_of_near q r d pos h = elim (Bool-cases (leb q r)) [
  | inl e ↦ ground (arith, e)
  | inr e ↦
      let over : (r + 1) * d ≤ q * d = mul_le (r + 1) q d (ground (arith, e)) in
      absurd (omega (arith, over, mul_suc r d, h, pos))
]

-- Rounding a multiple divided by its factor gives the other factor.
round_div_mul : (m d : ℕ) → 0 < d → round_div (d * m) d ≡ m
round_div_mul m d pos =
    let near = round_div_near (d * m) d pos in
    let swap : d * m ≡ m * d = grind arith in
    let up = le_of_near (round_div (d * m) d) m d pos (omega (arith, near.0, swap)) in
    let down = le_of_near m (round_div (d * m) d) d pos (omega (arith, near.1, swap)) in
    omega (arith, up, down)

round_div_le : (n m d : ℕ) → 0 < d → n ≤ m * d → round_div n d ≤ m
round_div_le n m d pos h =
    let near = round_div_near n d pos in
    le_of_near (round_div n d) m d pos (omega (arith, near.0, h))

resized_fits :
    (most longest side : ℕ)
    → 0 < most
    → side ≤ longest
    → (1 ≤ resized most longest side)
      × (resized most longest side ≤ most)
      × (resized most longest side ≤ max 1 (min most longest))
unfolding resized
resized_fits most longest side pos h = elim (Bool-cases (leb longest most)) [
  | inl e ↦
      rw (e, resized)
        (ground (arith, e, h, pos), ground (arith, e, h, pos), ground (arith, e, h, pos))
  | inr e ↦
      let long : 0 < longest = ground (arith, e) in
      let le : side * most ≤ most * longest = grind (arith, mul_le side longest most h) in
      let r = round_div_le (side * most) most longest long le in
      rw (e, resized) (ground (arith, r, pos), ground (arith, r, pos), ground (arith, r, pos, e))
]

resized_longest :
    (most longest : ℕ) → 0 < most → resized most longest longest ≡ max 1 (min most longest)
unfolding resized
resized_longest most longest pos = elim (Bool-cases (leb longest most)) [
  | inl e ↦ rw (e, resized) (ground (arith, e))
  | inr e ↦
      let r = round_div_mul most longest (ground (arith, e)) in
      rw (e, resized) (ground (arith, r, e))
]

-- The canvas of a resized image has no side of zero pixels, none above the limit, and its longer
-- side is the image's own or, where that is longer, the limit.
pub resize_image_bounds :
    (most width height : ℕ)
    → 0 < most
    → let (w, h) = resize_image most (width, height) in
      (1 ≤ w) × (w ≤ most) × (1 ≤ h) × (h ≤ most) × (max w h ≡ max 1 (min most (max width height)))
unfolding resize_image
resize_image_bounds most width height pos =
    let longest = max width height in
    let (a, b, b') = resized_fits most longest width pos (omega arith) in
    let (c, d, d') = resized_fits most longest height pos (omega arith) in
    let l = resized_longest most longest pos in
    (
      a,
      b,
      c,
      d,
      elim (Bool-cases (leb width height)) [
        | inl e ↦
            let tall : longest ≡ height = ground (arith, e) in
            let same_side = ap (resized most longest) tall in omega (arith, l, same_side, b', d')
        | inr e ↦
            let wide : longest ≡ width = ground (arith, e) in
            let same_side = ap (resized most longest) wide in omega (arith, l, same_side, b', d')
      ],
    )
