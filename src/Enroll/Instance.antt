-- ===== src/Enroll/Instance.antt =====
-- The vaults of client/js/crypto.js as those that signing in uses.
use lattix.Prelude.{ℕ, ◌≡◌, ◌≢◌, Text, Bytes, Option, some, []}
use lattix.Crypto.Primitives.{Primitives, Laws}
use lattix.Crypto.Encoding.{bytes_to_b64}
use lattix.Crypto.Vault.{Sealed, vault_iterations, seal_vault, open_vault, vault_needs_upgrade}
use lattix.Crypto.Vault.Laws.{open-seal}
use lattix.Enroll.{Account, Vaults}

module _ (p : Primitives) (laws : Laws p) (stringify : Account → Text)
    (parse : Text → Option Account) (draw : ℕ → Bytes) where
  -- Where the primitives satisfy their laws, accounts survive JSON and UTF-8, and the salt, the IV
  -- and the ciphertexts have encodings that are not the empty text.
  vaults_of :
      ((a : Account) → p.decode (p.utf8 (stringify a)) ≡ stringify a)
      → ((a : Account) → parse (stringify a) ≡ some a)
      → bytes_to_b64 p (draw 0) ≢ []
      → bytes_to_b64 p (draw 1) ≢ []
      → ((a : Account) (password : Text)
          → bytes_to_b64 p (
              p.gcm_encrypt
                (p.pbkdf2 (p.utf8 password) (draw 0) vault_iterations)
                (draw 1)
                (p.utf8 (stringify a)))
            ≢ [])
      → Vaults Sealed
  vaults_of utf8 json salt iv cipher = record {
    seal_account = seal_vault p stringify parse draw;
    open_account = λ v password. open_vault p stringify parse (some v) password;
    needs_upgrade = vault_needs_upgrade;
    open_account-seal_account = λ a password.
        (open-seal p laws stringify parse draw a password (utf8 a) (json a) salt iv
          (cipher a password)).0;
  }
