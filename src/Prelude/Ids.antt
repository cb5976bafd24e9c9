-- ===== src/Prelude/Ids.antt =====
-- Lists of numbers as sets and bags: sockets, dialogs and the like, by their numbers.
use Prim.Native.Nat.{ℕ, ◌+◌}
use mathlib.Core.Path.{◌≡◌}
use mathlib.Core.Bool.{Bool, false, ◌||◌}
use mathlib.Core.List.{List, [], ◌∷◌}
use native.Mathlib.Omega.{arith}
use lattix.Prelude.Tests.{◌==◌, if◌then◌else◌}

unfoldable pub member_id : List ℕ → ℕ → Bool
member_id [] n = false
member_id (m ∷ ms) n = m == n || member_id ms n

unfoldable pub remove_id : List ℕ → ℕ → List ℕ
remove_id [] n = []
remove_id (m ∷ ms) n = let rest = remove_id ms n in if m == n then rest else m ∷ rest

-- How often the number is in the list.
unfoldable pub count_id : List ℕ → ℕ → ℕ
count_id [] n = 0
count_id (m ∷ ms) n = (if m == n then 1 else 0) + count_id ms n

pub member_id-remove_id :
    (ms : List ℕ) (a b : ℕ)
    → member_id (remove_id ms a) b ≡ (if a == b then false else member_id ms b)
unfolding member_id remove_id
member_id-remove_id [] a b = ground arith
member_id-remove_id (m ∷ ms) a b = ground (arith, member_id-remove_id ms a b)
