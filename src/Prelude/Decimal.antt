-- ===== src/Prelude/Decimal.antt =====
-- Numbers as JavaScript writes them into texts, in decimal.
use Prim.Native.Nat.{ℕ, zero, suc, ◌+◌, ◌-◌, ◌*◌, ◌/◌, ◌%◌, ◌<◌}
use mathlib.Core.Path.{◌≡◌, refl, sym, ap, ◌∙◌}
use mathlib.Core.Bool.{Bool, true, ◌&&◌}
use mathlib.Core.List.{[], ◌∷◌, ◌++◌}
use native.Mathlib.Omega.{arith}
use lattix.Prelude.Tests.{ltb, leb, if◌then◌else◌, if-cases}
use lattix.Prelude.Strings.{Text}

-- The digits of `n`; the fuel bounds their number.
digits : ℕ → ℕ → Text
digits zero n = []
digits (suc fuel) n =
    let front = digits fuel (n / 10) in
    if ltb n 10 then (b'0' + n) ∷ [] else front ++ (b'0' + n % 10) ∷ []

unfoldable pub decimal : ℕ → Text
unfolding digits
decimal n = digits (suc n) n

-- The number that a text of digits continues.
unfoldable pub read : ℕ → Text → ℕ
read acc [] = acc
read acc (c ∷ cs) = read (acc * 10 + (c - b'0')) cs

read-append :
    (acc : ℕ) (cs : Text) (c : ℕ) → read acc (cs ++ c ∷ []) ≡ read acc cs * 10 + (c - b'0')
unfolding read
read-append acc [] c = refl
read-append acc (d ∷ cs) c = read-append (acc * 10 + (d - b'0')) cs c

read-digits : (fuel n : ℕ) → n < fuel → read 0 (digits fuel n) ≡ n
unfolding digits
read-digits zero n h = absurd (omega arith)
read-digits (suc fuel) n h =
    let one : ltb n 10 ≡ true → read 0 ((b'0' + n) ∷ []) ≡ n = λ e. unfold read in omega arith in
    ground
      (arith, one, read-append 0 (digits fuel (n / 10)) (b'0' + n % 10), read-digits fuel (n / 10))

-- Different numbers have different texts.
pub decimal-injective : (m n : ℕ) → decimal m ≡ decimal n → m ≡ n
unfolding decimal
decimal-injective m n e =
    sym (read-digits (suc m) m (omega arith)) ∙ ap (read 0) e ∙ read-digits (suc n) n (omega arith)

pub read-decimal : (n : ℕ) → read 0 (decimal n) ≡ n
unfolding decimal
read-decimal n = read-digits (suc n) n (omega arith)

unfoldable pub are_digits : Text → Bool
are_digits [] = true
are_digits (c ∷ s) = (leb b'0' c && leb c b'9') && are_digits s

are_digits-append :
    (s : Text) (c : ℕ)
    → are_digits s ≡ true
    → (leb b'0' c && leb c b'9') ≡ true
    → are_digits (s ++ c ∷ []) ≡ true
unfolding are_digits
are_digits-append [] c h d = ground (arith, d)
are_digits-append (x ∷ s) c h d = ground (arith, h, are_digits-append s c, d)

are_digits-digits : (fuel n : ℕ) → are_digits (digits fuel n) ≡ true
unfolding digits are_digits
are_digits-digits zero n = refl
are_digits-digits (suc fuel) n =
    if-cases (λ s. are_digits s ≡ true) (ltb n 10) (λ e. ground (arith, e))
      (λ _.
        are_digits-append (digits fuel (n / 10)) (b'0' + n % 10) (are_digits-digits fuel (n / 10))
          (ground arith))

pub are_digits-decimal : (n : ℕ) → are_digits (decimal n) ≡ true
unfolding decimal
are_digits-decimal n = are_digits-digits (suc n) n
