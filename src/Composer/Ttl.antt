-- ===== src/Composer/Ttl.antt =====
-- Disappearing messages in client/js/app.js: the time set for a conversation, in seconds, as
-- localStorage keeps it.
use lattix.Prelude.{
  ℕ, ◌+◌, ◌-◌, ◌*◌, ◌≡◌, refl, ◌∙◌, arith, Text, same, true, ◌&&◌, none, some, List, [], ◌∷◌, leb,
  ◌==◌, if◌then◌else◌, Bool-cases, inl, inr, if-cases,
}
use lattix.Prelude.Dict
use lattix.Prelude.Dict.{Dict}
use lattix.Prelude.Decimal.{decimal, read, read-decimal, are_digits, are_digits-decimal}

-- `parseInt(s, 10)` on texts that begin with a digit; 0 for the others, as `|| 0` makes it.
unfoldable pub parse_from : ℕ → Text → ℕ
parse_from n [] = n
parse_from n (c ∷ s) =
    let rest = parse_from (n * 10 + (c - b'0')) s in if leb b'0' c && leb c b'9' then rest else n

unfoldable pub parse_int : Text → ℕ
parse_int s = parse_from 0 s

-- The entries of localStorage under "lattix.ttl.", by conversation.
unfoldable pub get_ttl : Dict Text → Text → ℕ
get_ttl ttls cid = elim (Dict.get ttls cid) [ none ↦ 0 | some text ↦ parse_int text ]

unfoldable pub set_ttl : Text → ℕ → Dict Text → Dict Text
set_ttl cid seconds ttls =
    if seconds == 0 then Dict.del ttls cid else Dict.put ttls cid (decimal seconds)

abbrev pub ttl_options : List ℕ
ttl_options = 0 ∷ 30 ∷ 300 ∷ 3600 ∷ 86400 ∷ 604800 ∷ []

parse_from-read : (n : ℕ) (s : Text) → are_digits s ≡ true → parse_from n s ≡ read n s
unfolding parse_from read are_digits
parse_from-read n [] h = refl
parse_from-read n (c ∷ s) h =
    if-cases (λ m. m ≡ read (n * 10 + (c - b'0')) s) (leb b'0' c && leb c b'9')
      (λ _. parse_from-read (n * 10 + (c - b'0')) s (ground (arith, h))) (λ e. ground (arith, h, e))

parse_int-decimal : (n : ℕ) → parse_int (decimal n) ≡ n
unfolding parse_int
parse_int-decimal n = parse_from-read 0 (decimal n) (are_digits-decimal n) ∙ read-decimal n

-- The time that is set for a conversation is the one that its messages are then sent with, of
-- whatever length and also after it was another, and the other conversations keep theirs.
pub get_ttl-set_ttl :
    (ttls : Dict Text) (cid other : Text) (seconds : ℕ)
    → get_ttl (set_ttl cid seconds ttls) other
      ≡ (if same cid other then seconds else get_ttl ttls other)
unfolding get_ttl set_ttl
get_ttl-set_ttl ttls cid other seconds = elim (Bool-cases (seconds == 0)) [
  | inl z ↦
      rw (z, set_ttl, get_ttl, Dict.get-del ttls cid other)
        (elim (Bool-cases (same cid other)) [
          | inl e ↦ rw e (ground (arith, z))
          | inr e ↦ rw e refl
        ])
  | inr n ↦
      rw (n, set_ttl, get_ttl, Dict.get-put ttls cid (decimal seconds) other)
        (elim (Bool-cases (same cid other)) [
          | inl e ↦ rw e (parse_int-decimal seconds)
          | inr e ↦ rw e refl
        ])
]
