-- ===== src/Crypto/Identity.antt =====
-- `generateIdentity` of client/js/crypto.js, and the safety codes that a share link carries.
use lattix.Prelude.{
  ℕ, ◌*◌, ◌/◌, ◌%◌, ◌<◌, Text, Bytes, ◌≡◌, refl, true, false, not, any, length, [], ◌∷◌, ◌++◌, All,
  arith,
}
use lattix.Crypto.Primitives.{Primitives, Laws, ok, ◌>>=◌}
use lattix.Crypto.Encoding.{
  bytes_to_b64, b64_to_bytes-bytes_to_b64, hex_digit, to_hex, sha256_hex, fingerprint_of,
}
use lattix.Trust.{is_hex_digit, is_safety_code}

pub record KeyPair : Type 0 where
  pub public_key : Text
  pub secret_key : Text

pub record Identity : Type 0 where
  pub kem : KeyPair
  pub dsa : KeyPair
  pub fingerprint : Text
  pub auth_secret : Text

module _ (p : Primitives) where
  open p use {kem_keygen, dsa_keygen}

  -- The randomness: `draw 0` is that of the KEM library, `draw 1` the seed of the signature keys.
  unfoldable pub generate_identity : (ℕ → Bytes) → Identity
  generate_identity draw =
      let (kem_pub, kem_sec) = kem_keygen (draw 0) in
      let (dsa_pub, dsa_sec) = dsa_keygen (draw 1) in
      record {
        kem = record { public_key = bytes_to_b64 p kem_pub; secret_key = bytes_to_b64 p kem_sec };
        dsa = record { public_key = bytes_to_b64 p dsa_pub; secret_key = bytes_to_b64 p dsa_sec };
        fingerprint = sha256_hex p (kem_pub ++ dsa_pub);
        auth_secret = bytes_to_b64 p (draw 2);
      }

abbrev pub IsByte : ℕ → Type 0
IsByte b = b < 256

-- A hash is thirty-two bytes.
abbrev pub IsHash : Bytes → Type 0
IsHash h = (length h ≡ 32) × All IsByte h

hex_digit_is_hex : (d : ℕ) → d < 16 → is_hex_digit (hex_digit d) ≡ true
unfolding is_hex_digit hex_digit
hex_digit_is_hex d h = ground arith

hex_digit_injective : (d e : ℕ) → hex_digit d ≡ hex_digit e → d ≡ e
unfolding hex_digit
hex_digit_injective d e h = ground arith

hex_safe :
    (bytes : Bytes)
    → All IsByte bytes
    → (length (to_hex bytes) ≡ 2 * length bytes)
      × (any (λ c. not (is_hex_digit c)) (to_hex bytes) ≡ false)
unfolding to_hex
hex_safe [] h = (omega arith, refl)
hex_safe (b ∷ bytes) h =
    let (len, safe) = hex_safe bytes h.1 in
    (
      omega arith,
      rw (hex_digit_is_hex (b / 16) (omega arith), hex_digit_is_hex (b % 16) (omega arith)) safe,
    )

to_hex_injective : (a b : Bytes) → to_hex a ≡ to_hex b → a ≡ b
unfolding to_hex
to_hex_injective [] [] e = refl
to_hex_injective [] (y ∷ b) e = absurd (cc)
to_hex_injective (x ∷ a) [] e = absurd (cc)
to_hex_injective (x ∷ a) (y ∷ b) e = ground (
  arith,
  hex_digit_injective (x / 16) (y / 16),
  hex_digit_injective (x % 16) (y % 16),
  to_hex_injective a b,
)

module _ (p : Primitives) (laws : Laws p) (draw : ℕ → Bytes) where
  -- If `atob` undoes `btoa` and the hash gives thirty-two bytes: a new identity's safety code is the
  -- one that others compute from its public keys, and it has the form that a share link must have to
  -- be checked.
  pub generate_identity_safety_code :
      ((b : Bytes) → IsHash (p.sha256 b))
      → let me = generate_identity p draw in
        (fingerprint_of p me.kem.public_key me.dsa.public_key ≡ ok me.fingerprint)
        × (is_safety_code me.fingerprint ≡ true)
  unfolding generate_identity fingerprint_of is_safety_code
  generate_identity_safety_code hash =
      let (kem_pub, kem_sec) = p.kem_keygen (draw 0) in
      let (dsa_pub, dsa_sec) = p.dsa_keygen (draw 1) in
      let h = hash (kem_pub ++ dsa_pub) in
      let (len, safe) = hex_safe (p.sha256 (kem_pub ++ dsa_pub)) h.1 in
      (
        rw (
          b64_to_bytes-bytes_to_b64 p laws kem_pub,
          b64_to_bytes-bytes_to_b64 p laws dsa_pub,
          ◌>>=◌,
        ),
        ground arith,
      )

module _ (p : Primitives) (laws : Laws p) where
  -- If `atob` undoes `btoa`: two pairs of public keys with one safety code have one hash, so the
  -- code loses nothing of it.
  pub fingerprint_of_injective :
      (kem dsa kem' dsa' : Bytes)
      → fingerprint_of p (bytes_to_b64 p kem) (bytes_to_b64 p dsa)
        ≡ fingerprint_of p (bytes_to_b64 p kem') (bytes_to_b64 p dsa')
      → p.sha256 (kem ++ dsa) ≡ p.sha256 (kem' ++ dsa')
  unfolding fingerprint_of
  fingerprint_of_injective kem dsa kem' dsa' e = to_hex_injective _ _ (
      ground (
        arith,
        b64_to_bytes-bytes_to_b64 p laws kem,
        b64_to_bytes-bytes_to_b64 p laws dsa,
        b64_to_bytes-bytes_to_b64 p laws kem',
        b64_to_bytes-bytes_to_b64 p laws dsa',
      ))
