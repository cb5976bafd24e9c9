-- ===== src/Crypto/Primitives.antt =====
-- What client/js/crypto.js calls and does not define: the Web platform (`btoa`, `TextEncoder`,
-- `crypto.subtle`) and the bundled post-quantum library, as one record of operations, the laws that
-- the code relies on, and the errors that the module throws.
use lattix.Prelude.{ℕ, Text, Bytes, ◌≡◌, refl, Bool, true, Option, none, some}

pub data Fault : Type 0 where
  -- `atob` on a text that is no base64
  bad_base64 : Fault
  -- a property of `undefined`
  type_error : Fault
  -- AES-GCM's tag does not match
  decrypt_failed : Fault
  -- `JSON.parse` on a text that is no JSON
  bad_json : Fault
  message_not_authentic message_not_addressed : Fault
  file_not_authentic file_contents_differ file_not_addressed : Fault
  unsupported_parameters not_a_vault wrong_vault_password not_a_backup wrong_backup_password : Fault

pub data Result {ℓ} (A : Type ℓ) : Type ℓ where
  ok : A → Result A
  err : Fault → Result A

module _ {ℓ κ} {A : Type ℓ} {B : Type κ} where
  -- `await` and calls that may throw.
  infixl 5 ◌>>=◌
  abbrev pub ◌>>=◌ : Result A → (A → Result B) → Result B
  err fault >>= next = err fault
  ok value >>= next = next value

  -- What returns in the end has returned at its first part.
  pub >>=-eq-ok :
      (first : Result A) (next : A → Result B) {last : B}
      → (first >>= next) ≡ ok last
      → (value : A) × (first ≡ ok value) × (next value ≡ ok last)
  >>=-eq-ok (err fault) next returned = cc
  >>=-eq-ok (ok value) next returned = (value, refl, returned)

-- The value, or the error that a missing one is.
abbrev pub or_throw {ℓ} : {A : Type ℓ} → Fault → Option A → Result A
or_throw e none = err e
or_throw e (some a) = ok a

-- A file's metadata as an object of unknown origin, absent properties being `none`.
pub record RawMeta : Type 0 where
  pub filename : Option Text
  pub mime : Option Text
  pub size : Option ℕ

pub record Primitives : Type 0 where
  pub btoa : Bytes → Text
  pub atob : Text → Option Bytes
  pub utf8 : Text → Bytes
  pub decode : Bytes → Text
  pub sha256 : Bytes → Bytes
  -- the secret and the info, with an empty salt
  pub hkdf : Bytes → Bytes → Bytes
  -- the password, the salt and the iterations
  pub pbkdf2 : Bytes → Bytes → ℕ → Bytes
  -- the key, the IV and the text
  pub gcm_encrypt : Bytes → Bytes → Bytes → Bytes
  pub gcm_decrypt : Bytes → Bytes → Bytes → Option Bytes
  -- the public key and the library's own randomness; the ciphertext and the shared secret
  pub encapsulate : Bytes → Bytes → Bytes × Bytes
  -- the ciphertext and the secret key
  pub decapsulate : Bytes → Bytes → Bytes
  -- the secret key and the message
  pub sign : Bytes → Bytes → Bytes
  -- the public key, the message and the signature
  pub verify : Bytes → Bytes → Bytes → Bool
  -- a seed; the public and the secret key
  -- `JSON.stringify` and `JSON.parse` of a file's metadata
  pub stringify_meta : RawMeta → Text
  pub parse_meta : Text → Option RawMeta
  pub kem_keygen : Bytes → Bytes × Bytes
  pub dsa_keygen : Bytes → Bytes × Bytes

-- What is documented of them.
pub record Laws (p : Primitives) : Type 0 where
  pub atob-btoa : (b : Bytes) → p.atob (p.btoa b) ≡ some b
  pub parse-stringify_meta : (m : RawMeta) → p.parse_meta (p.stringify_meta m) ≡ some m
  pub gcm : (key iv b : Bytes) → p.gcm_decrypt key iv (p.gcm_encrypt key iv b) ≡ some b

-- The secret key opens what is encapsulated to the public key.
abbrev pub IsKemPair : Primitives → Bytes → Bytes → Type 0
IsKemPair p pk sk =
    (coins : Bytes) → p.decapsulate (p.encapsulate pk coins).0 sk ≡ (p.encapsulate pk coins).1

-- The public key accepts what the secret key signs.
abbrev pub IsDsaPair : Primitives → Bytes → Bytes → Type 0
IsDsaPair p pk sk = (m : Bytes) → p.verify pk m (p.sign sk m) ≡ true
