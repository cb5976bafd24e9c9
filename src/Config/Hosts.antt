-- ===== src/Config/Hosts.antt =====
-- Texts and host names as client/js/config.js takes them: trimming, and the regular expressions for
-- hosts that are local or private.
use lattix.Prelude.{
  ℕ, zero, suc, ◌+◌, Text, codes, same, Bool, false, not, ◌&&◌, ◌||◌, any, List, [], ◌∷◌, leb, ◌==◌,
  if◌then◌else◌, length,
}
use lattix.Prelude.Decimal.{decimal}

-- The blanks and line ends that `trim` removes.
is_space : ℕ → Bool
is_space c =
    (leb 9 c && leb c 13)
    || c == 32
    || c == 160
    || c == 5760
    || (leb 8192 c && leb c 8202)
    || c == 8232
    || c == 8233
    || c == 8239
    || c == 8287
    || c == 12288
    || c == 65279

drop_while : (ℕ → Bool) → Text → Text
drop_while p [] = []
drop_while p (c ∷ s) = if p c then drop_while p s else c ∷ s

-- Without the characters at the end that `p` holds of.
drop_end : (ℕ → Bool) → Text → Text
drop_end p [] = []
drop_end p (c ∷ s) = let rest = drop_end p s in if p c && same rest [] then [] else c ∷ rest

unfoldable pub trim : Text → Text
unfolding is_space drop_while drop_end
trim s = drop_end is_space (drop_while is_space s)

-- `replace(/\/+$/, "")`
unfoldable pub strip_slashes : Text → Text
unfolding drop_end
strip_slashes s = drop_end (λ c. c == b'/') s

unfoldable pub lower : ℕ → ℕ
lower c = if leb b'A' c && leb c b'Z' then c + 32 else c

unfoldable pub lowered : Text → Text
unfolding lower
lowered [] = []
lowered (c ∷ s) = lower c ∷ lowered s

-- The parts between the dots.
split_dots : Text → List Text
split_dots [] = [] ∷ []
split_dots (c ∷ s) = elim (split_dots s) [
  | [] ↦ (c ∷ []) ∷ []
  | part ∷ parts ↦ if c == b'.' then [] ∷ part ∷ parts else (c ∷ part) ∷ parts
]

unfoldable pub is_digit : ℕ → Bool
is_digit c = leb b'0' c && leb c b'9'

-- `\d+`
is_digits : Text → Bool
is_digits s = not (same s []) && not (any (λ c. not (is_digit c)) s)

-- The decimal text of a number from `low`, `count` of them.
is_between : ℕ → ℕ → Text → Bool
is_between low zero s = false
is_between low (suc count) s = same s (decimal low) || is_between (low + 1) count s

ends_with : Text → Text → Bool
ends_with suffix [] = same [] suffix
ends_with suffix (c ∷ s) = same (c ∷ s) suffix || ends_with suffix s

-- `.+` and a suffix: something that is no line end stands before it.
has_suffix : Text → Text → Bool
has_suffix suffix s =
    ends_with suffix s
    && not (same s suffix)
    && not (any (λ c. c == 10 || c == 13 || c == 8232 || c == 8233) s)

is_loopback : List Text → Bool
is_loopback (a ∷ b ∷ c ∷ d ∷ []) =
    same a (codes "127")
    && is_digits b
    && is_digits c
    && is_digits d
    && leb (length b) 3
    && leb (length c) 3
    && leb (length d) 3
is_loopback _ = false

-- `LOCAL_HOST_RE`
unfoldable pub is_local_host : Text → Bool
unfolding split_dots is_digit is_digits ends_with has_suffix is_loopback
is_local_host hostname =
    let s = lowered hostname in
    same s (codes "localhost")
    || is_loopback (split_dots s)
    || same s (codes "[::1]")
    || has_suffix (codes ".local") s
    || has_suffix (codes ".localhost") s

is_private_parts : List Text → Bool
is_private_parts (a ∷ b ∷ c ∷ d ∷ []) =
    is_digits b
    && is_digits c
    && is_digits d
    && (same a (codes "10")
        || (same a (codes "192") && same b (codes "168"))
        || (same a (codes "172") && is_between 16 16 b)
        || (same a (codes "100") && is_between 64 64 b))
is_private_parts _ = false

-- `PRIVATE_IP_RE`
unfoldable pub is_private_ip : Text → Bool
unfolding split_dots is_digit is_digits is_between is_private_parts
is_private_ip hostname = is_private_parts (split_dots hostname)
