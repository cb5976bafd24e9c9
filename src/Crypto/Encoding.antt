-- ===== src/Crypto/Encoding.antt =====
-- The encoding helpers and `fingerprintOf` of client/js/crypto.js.
use lattix.Prelude.{
  ℕ, zero, suc, ◌+◌, ◌-◌, ◌/◌, ◌%◌, ◌≤◌, ◌<◌, Text, Bytes, ◌≡◌, refl, ap, List, [], ◌∷◌, ◌++◌, take,
  drop, length, length-drop, take-append-drop, arith, ltb, if◌then◌else◌,
}
use lattix.Crypto.Primitives.{Primitives, Laws, Result, ok, or_throw, bad_base64, ◌>>=◌}

abbrev pub chunk : ℕ
chunk = 0x8000

-- The loop of `bytesToB64`: one piece of at most `size` code units after the other. The fuel is a
-- bound on the rounds.
unfoldable pub join_chunks : ℕ → ℕ → Bytes → Text
join_chunks zero size bytes = []
join_chunks (suc fuel) size [] = []
join_chunks (suc fuel) size (b ∷ bytes) =
    take size (b ∷ bytes) ++ join_chunks fuel size (drop size (b ∷ bytes))

-- With as much fuel as there are bytes, the pieces are all the bytes.
join_chunks_lem :
    (fuel size : ℕ) (bytes : Bytes)
    → 0 < size
    → length bytes ≤ fuel
    → join_chunks fuel size bytes ≡ bytes
unfolding join_chunks
join_chunks_lem zero size [] hs h = refl
join_chunks_lem zero size (b ∷ bytes) hs h = absurd (omega arith)
join_chunks_lem (suc fuel) size [] hs h = refl
join_chunks_lem (suc fuel) size (b ∷ bytes) hs h =
    rw
      (join_chunks_lem fuel size (drop size (b ∷ bytes)) hs
        (omega (arith, length-drop size (b ∷ bytes))))
      (take-append-drop size (b ∷ bytes))

-- `concat`.
abbrev pub concat : List Bytes → Bytes
concat [] = []
concat (a ∷ arrays) = a ++ concat arrays

unfoldable pub hex_digit : ℕ → ℕ
hex_digit d = if ltb d 10 then b'0' + d else b'a' + (d - 10)

-- `b.toString(16).padStart(2, "0")`, joined.
unfoldable pub to_hex : Bytes → Text
to_hex [] = []
to_hex (b ∷ bytes) = hex_digit (b / 16) ∷ hex_digit (b % 16) ∷ to_hex bytes

upper : ℕ → ℕ
upper c = if ltb c b'a' then c else if ltb b'z' c then c else c - 32

-- `prettyFingerprint`: groups of four with a space between them, in upper case.
unfoldable pub pretty_fingerprint : Text → Text
unfolding upper
pretty_fingerprint (a ∷ b ∷ c ∷ d ∷ e ∷ rest) =
    upper a ∷ upper b ∷ upper c ∷ upper d ∷ b' ' ∷ pretty_fingerprint (e ∷ rest)
pretty_fingerprint [] = []
pretty_fingerprint (a ∷ rest) = upper a ∷ pretty_fingerprint rest

module _ (p : Primitives) where
  open p use {btoa, atob, sha256}

  unfoldable pub bytes_to_b64 : Bytes → Text
  bytes_to_b64 bytes = btoa (join_chunks (length bytes) chunk bytes)

  unfoldable pub b64_to_bytes : Text → Result Bytes
  b64_to_bytes b64 = or_throw bad_base64 (atob b64)

  unfoldable pub sha256_hex : Bytes → Text
  sha256_hex bytes = to_hex (sha256 bytes)

  unfoldable pub fingerprint_of : Text → Text → Result Text
  unfolding b64_to_bytes sha256_hex
  fingerprint_of kem_pub dsa_pub = do
    kem ← b64_to_bytes kem_pub
    dsa ← b64_to_bytes dsa_pub
    ok (sha256_hex (kem ++ dsa))

  pub bytes_to_b64_lem : (bytes : Bytes) → bytes_to_b64 bytes ≡ btoa bytes
  unfolding bytes_to_b64
  bytes_to_b64_lem bytes =
      ap btoa (join_chunks_lem (length bytes) chunk bytes (omega arith) (omega arith))

  -- If `atob` undoes `btoa`: whatever the number of bytes, and so of chunks, decoding gives back
  -- what was encoded.
  pub b64_to_bytes-bytes_to_b64 :
      Laws p → (bytes : Bytes) → b64_to_bytes (bytes_to_b64 bytes) ≡ ok bytes
  unfolding b64_to_bytes
  b64_to_bytes-bytes_to_b64 laws bytes = rw (bytes_to_b64_lem bytes, laws.atob-btoa bytes)
