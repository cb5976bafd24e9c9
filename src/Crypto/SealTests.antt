-- ===== src/Crypto/SealTests.antt =====
-- The theorems about identities and the vault of client/js/crypto.js at concrete inputs.
use lattix.Prelude.{Bytes, ◌≡◌, refl, false, some, codes, arith}
use lattix.Crypto.Primitives.{ok}
use lattix.Crypto.Encoding.{bytes_to_b64, join_chunks}
use lattix.Crypto.Identity.{IsHash}
use lattix.Crypto.Vault.{seal_vault, seal_backup, open_vault, open_backup, vault_needs_upgrade}
use lattix.Crypto.Vault.Laws.{open-seal}
use lattix.Crypto.Toy.{keep, keep_laws, zeros, draw}

zeros-IsHash : (b : Bytes) → IsHash (zeros 32)
zeros-IsHash b = (refl, ground arith)

open-seal_example :
    (open_vault keep
        (λ t. t)
        (λ t. some t)
        (some (seal_vault keep (λ t. t) (λ t. some t) draw (codes "id") (codes "pw")))
        (codes "pw")
      ≡ ok (codes "id"))
    × (open_backup keep
          (λ t. t)
          (λ t. some t)
          (some (seal_backup keep (λ t. t) (λ t. some t) draw (codes "id") (codes "pw")))
          (codes "pw")
        ≡ ok (codes "id"))
    × (vault_needs_upgrade (seal_vault keep (λ t. t) (λ t. some t) draw (codes "id") (codes "pw"))
        ≡ false)
unfolding bytes_to_b64 join_chunks
open-seal_example =
    open-seal keep keep_laws (λ t. t) (λ t. some t) draw (codes "id") (codes "pw") refl refl
      (λ e. absurd (cc)) (λ e. absurd (cc)) (λ e. absurd (cc))
