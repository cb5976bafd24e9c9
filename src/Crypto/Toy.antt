-- ===== src/Crypto/Toy.antt =====
-- Primitives that compute, in place of those that client/js/crypto.js calls, for its tests.
use lattix.Prelude.{
  ℕ, zero, suc, ◌+◌, Text, Bytes, ◌≡◌, refl, ap, Option, none, some, List, [], ◌∷◌, ◌++◌, All,
  codes, same, same_refl, take, drop, length, ◌==◌, if◌then◌else◌, arith,
}
use lattix.Crypto.Primitives.{Primitives, Laws, RawMeta, ok, IsDsaPair}
use lattix.Crypto.Encoding.{b64_to_bytes}
use lattix.Crypto.Wrap.{CanWrap}

-- A text that may be missing, before what follows it.
abbrev pub put_text : Option Text → Text → Text
put_text none rest = 0 ∷ rest
put_text (some s) rest = suc (length s) ∷ s ++ rest

abbrev pub put_number : Option ℕ → Text
put_number none = 0 ∷ []
put_number (some n) = suc n ∷ []

abbrev pub take_text : Text → Option (Option Text × Text)
take_text [] = none
take_text (zero ∷ rest) = some (none, rest)
take_text (suc n ∷ rest) = some (some (take n rest), drop n rest)

abbrev pub take_number : Text → Option ℕ
take_number [] = none
take_number (zero ∷ rest) = none
take_number (suc n ∷ rest) = some n

abbrev pub read_meta : Text → Option RawMeta
read_meta t = elim (take_text t) [
  | none ↦ none
  | some (filename, rest) ↦ elim (take_text rest) [
    | none ↦ none
    | some (mime, last) ↦
        some (record { filename = filename; mime = mime; size = take_number last })
  ]
]

abbrev pub write_meta : RawMeta → Text
write_meta m = put_text m.filename (put_text m.mime (put_number m.size))

take-length-append :
    (s rest : Text) → (take (length s) (s ++ rest) ≡ s) × (drop (length s) (s ++ rest) ≡ rest)
take-length-append [] rest = (refl, refl)
take-length-append (c ∷ s) rest = let h = take-length-append s rest in (ap (◌∷◌ c) h.0, h.1)

take_text-put_text : (o : Option Text) (rest : Text) → take_text (put_text o rest) ≡ some (o, rest)
take_text-put_text none rest = refl
take_text-put_text (some s) rest = rw ((take-length-append s rest).0, (take-length-append s rest).1)

take_number-put_number : (o : Option ℕ) → take_number (put_number o) ≡ o
take_number-put_number none = refl
take_number-put_number (some n) = refl

read_meta-write_meta : (m : RawMeta) → read_meta (write_meta m) ≡ some m
read_meta-write_meta m = rw (
  read_meta,
  take_text-put_text m.filename (put_text m.mime (put_number m.size)),
  take_text-put_text m.mime (put_number m.size),
  take_number-put_number m.size,
)

-- The first byte of a key, which the ciphertext carries.
abbrev pub tag : Bytes → ℕ
tag [] = 0
tag (b ∷ _) = b

abbrev pub unlock : Bytes → Bytes → Bytes → Option Bytes
unlock key iv [] = none
unlock key iv (t ∷ b) = if t == tag key then some b else none

abbrev pub toy : (Bytes → Bytes) → Primitives
toy hash = record {
  btoa = λ b. b;
  atob = λ t. some t;
  utf8 = λ t. t;
  decode = λ b. b;
  sha256 = hash;
  hkdf = λ secret info. secret;
  pbkdf2 = λ password salt iterations. password;
  gcm_encrypt = λ key iv b. tag key ∷ b;
  gcm_decrypt = unlock;
  encapsulate = λ pk coins. (coins, coins);
  decapsulate = λ ct sk. ct;
  sign = λ sk m. sk ++ m;
  verify = λ pk m signature. same signature (pk ++ m);
  stringify_meta = write_meta;
  parse_meta = read_meta;
  kem_keygen = λ seed. (seed, seed);
  dsa_keygen = λ seed. (seed, seed);
}

pub toy_laws : (hash : Bytes → Bytes) → Laws (toy hash)
toy_laws hash = record {
  atob-btoa = λ b. refl;
  parse-stringify_meta = read_meta-write_meta;
  gcm = λ key iv b. ground arith;
}

-- The identity in place of the hash, and a hash of thirty-two bytes.
abbrev pub keep : Primitives
keep = toy (λ b. b)

abbrev pub keep_laws : Laws keep
keep_laws = toy_laws (λ b. b)

abbrev pub zeros : ℕ → Bytes
zeros zero = []
zeros (suc n) = 0 ∷ zeros n

abbrev pub draw : ℕ → Bytes
draw n = (n + 1) ∷ 7 ∷ []

abbrev pub alice : Text
alice = codes "alice"

abbrev pub bob : Text
bob = codes "bob"

abbrev pub carol : Text
carol = codes "carol"

abbrev pub both : List (Text × Text)
both = (bob, codes "kb") ∷ (alice, codes "ka") ∷ []

pub can_wrap : (me : Text) (r : Text × Text) → CanWrap keep me (codes "secret") r
unfolding b64_to_bytes
can_wrap me r = record {
  pk = r.1;
  decoded = refl;
  mine = λ e. (codes "secret", refl, λ coins. refl);
}

pub signer : IsDsaPair keep (codes "dsa") (codes "dsa")
signer m = same_refl (codes "dsa" ++ m)

pub decoded : (t : Text) → b64_to_bytes keep t ≡ ok t
unfolding b64_to_bytes
decoded t = refl

abbrev pub both_can : (me : Text) → All (CanWrap keep me (codes "secret")) both
both_can me = (can_wrap me (bob, codes "kb"), (can_wrap me (alice, codes "ka"), tt))
