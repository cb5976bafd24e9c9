-- ===== src/Composer/Files.antt =====
-- Which files `sendFile` of client/js/app.js takes.
use lattix.Prelude.{ℕ, ◌≤◌, ◌≡◌, arith, Text, false, some, Option-cases, inl, inr}
use lattix.Composer.{State, started, file_begins}

-- A file is taken only in an open conversation, while the composer is not busy, and if it is not
-- larger than the relay accepts.
pub file_begins-started :
    (most size size2 : ℕ) (cid : Text) (st : State)
    → file_begins most (some size) st ≡ started cid size2
    → (st.current ≡ some cid) × (st.busy ≡ false) × (size ≤ most) × (size2 ≡ size)
unfolding file_begins
file_begins-started most size size2 cid st e = elim (Option-cases st.current) [
  | inl n ↦ ground (arith, e, n)
  | inr (c, n) ↦ ground (arith, e, n)
]
