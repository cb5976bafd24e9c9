-- ===== src/Crypto/Vault.antt =====
-- The vault and the backups of client/js/crypto.js: sealing under a password, opening, and the
-- iteration counts. What is sealed is of any type with the platform's JSON functions for it.
pub mod Laws
use lattix.Prelude.{
  [], ℕ, Text, Bytes, Bool, true, false, Option, none, some, codes, same, ◌==◌, ◌||◌, ltb,
  if◌then◌else◌,
}
use lattix.Crypto.Primitives.{
  Primitives, Fault, Result, ok, err, or_throw, bad_base64, bad_json, decrypt_failed,
  unsupported_parameters, not_a_vault, wrong_vault_password, not_a_backup, wrong_backup_password,
  ◌>>=◌,
}
use lattix.Crypto.Encoding.{bytes_to_b64, b64_to_bytes}

-- What `Number(x)` gives.
pub data NumberValue : Type 0 where
  nan negative fraction : NumberValue
  integer : ℕ → NumberValue

-- A vault or backup file of unknown origin; absent properties are `none`, and `nan` for `iter`.
pub record Sealed : Type 0 where
  pub kind : Option Text
  pub v : ℕ
  pub kdf : Text
  pub iter : NumberValue
  pub salt : Option Text
  pub iv : Option Text
  pub ciphertext : Option Text

abbrev pub vault_iterations : ℕ
vault_iterations = 600000

abbrev pub legacy_iterations : ℕ
legacy_iterations = 250000

unfoldable pub iterations_of : NumberValue → Result ℕ
iterations_of nan = ok legacy_iterations
iterations_of negative = err unsupported_parameters
iterations_of fraction = err unsupported_parameters
iterations_of (integer n) =
    if n == 0
    then ok legacy_iterations
    else if ltb n 100000 || ltb 10000000 n
    then err unsupported_parameters
    else ok n

unfoldable pub vault_needs_upgrade : Sealed → Bool
vault_needs_upgrade vault = elim (iterations_of vault.iter) [
  | ok n ↦ ltb n vault_iterations
  | err _ ↦ false
]

-- `!x` of a property that is a text or absent.
is_missing : Option Text → Bool
is_missing none = true
is_missing (some s) = same s []

module _ (p : Primitives) {D : Type 0} (stringify : D → Text) (parse : Text → Option D) where
  open p use {utf8, decode, pbkdf2, gcm_encrypt, gcm_decrypt}

  field : Option Text → Result Bytes
  field none = err bad_base64
  field (some b64) = b64_to_bytes p b64

  -- The common part of `sealVault` and `sealBackup`.
  seal : (ℕ → Bytes) → Option Text → D → Text → Sealed
  seal draw kind contents password =
      let salt = draw 0 in
      let iv = draw 1 in
      let key = pbkdf2 (utf8 password) salt vault_iterations in
      record {
        kind = kind;
        v = 2;
        kdf = codes "pbkdf2-sha256";
        iter = integer vault_iterations;
        salt = some (bytes_to_b64 p salt);
        iv = some (bytes_to_b64 p iv);
        ciphertext = some (bytes_to_b64 p (gcm_encrypt key iv (utf8 (stringify contents))));
      }

  unfoldable pub seal_vault : (ℕ → Bytes) → D → Text → Sealed
  unfolding seal
  seal_vault draw identity password = seal draw none identity password

  unfoldable pub seal_backup : (ℕ → Bytes) → D → Text → Sealed
  unfolding seal
  seal_backup draw contents password = seal draw (some (codes "backup")) contents password

  -- The body of the `try`.
  unseal : Sealed → Bytes → Result D
  unseal sealed key = do
    iv ← field sealed.iv
    ciphertext ← field sealed.ciphertext
    pt ← or_throw decrypt_failed (gcm_decrypt key iv ciphertext)
    or_throw bad_json (parse (decode pt))

  -- `catch (e) { throw new Error(…) }`
  rethrow : Fault → Result D → Result D
  rethrow e (ok d) = ok d
  rethrow e (err _) = err e

  -- `vaultKey`, with the order in which its arguments are computed.
  vault_key : Sealed → Text → Result Bytes
  vault_key sealed password = do
    salt ← field sealed.salt
    iterations ← iterations_of sealed.iter
    ok (pbkdf2 (utf8 password) salt iterations)

  unfoldable pub open_vault : Option Sealed → Text → Result D
  unfolding is_missing field unseal rethrow vault_key
  open_vault none password = err not_a_vault
  open_vault (some vault) password =
      if is_missing vault.salt || is_missing vault.iv || is_missing vault.ciphertext
      then err not_a_vault
      else do key ← vault_key vault password; rethrow wrong_vault_password (unseal vault key)

  is_backup : Option Text → Bool
  is_backup none = false
  is_backup (some kind) = same kind (codes "backup")

  unfoldable pub open_backup : Option Sealed → Text → Result D
  unfolding is_backup field unseal rethrow vault_key
  open_backup none password = err not_a_backup
  open_backup (some backup) password =
      if is_backup backup.kind
      then (do key ← vault_key backup password; rethrow wrong_backup_password (unseal backup key))
      else err not_a_backup
