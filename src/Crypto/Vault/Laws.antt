-- ===== src/Crypto/Vault/Laws.antt =====
-- Sealing and opening, and the iteration counts that are ever used.
use lattix.Prelude.{
  ℕ, ◌≤◌, Text, Bytes, ◌≡◌, ◌≢◌, ◌⊎◌, refl, false, Option, none, some, [], codes, same_refl,
  ne→same, ◌==◌, ◌||◌, ltb, arith, Bool-cases, inl, inr,
}
use lattix.Crypto.Primitives.{
  Primitives, Laws, ok, err, unsupported_parameters, wrong_vault_password, wrong_backup_password,
  ◌>>=◌,
}
use lattix.Crypto.Encoding.{bytes_to_b64, b64_to_bytes-bytes_to_b64}
use lattix.Crypto.Vault.{
  NumberValue, nan, negative, fraction, integer, vault_iterations, legacy_iterations, iterations_of,
  vault_needs_upgrade, seal_vault, seal_backup, open_vault, open_backup,
}

-- Whatever stands in the file's `iter`: the derivation is refused, or runs the legacy count for a
-- file without one, or runs the count of the file, which lies between a hundred thousand and ten
-- million.
pub iterations_of_cases :
    (iter : NumberValue)
    → (iterations_of iter ≡ err unsupported_parameters)
      ⊎ (((iter ≡ nan) ⊎ (iter ≡ integer 0)) × (iterations_of iter ≡ ok legacy_iterations))
      ⊎ ((n : ℕ) × (iter ≡ integer n) × (iterations_of iter ≡ ok n) × (100000 ≤ n) × (n ≤ 10000000))
unfolding iterations_of
iterations_of_cases nan = inr (inl (inl refl, refl))
iterations_of_cases negative = inl refl
iterations_of_cases fraction = inl refl
iterations_of_cases (integer n) = elim (Bool-cases (n == 0)) [
  | inl z ↦ inr (inl (inr (ground arith), ground arith))
  | inr z ↦ elim (Bool-cases (ltb n 100000 || ltb 10000000 n)) [
    | inl b ↦ inl (ground arith)
    | inr b ↦ inr (inr (n, refl, ground arith, ground arith, ground arith))
  ]
]

module _ (p : Primitives) (laws : Laws p) {D : Type 0} (stringify : D → Text)
    (parse : Text → Option D) (draw : ℕ → Bytes) (contents : D) (password : Text) where
  abbrev cipher : Bytes
  cipher =
      p.gcm_encrypt (p.pbkdf2 (p.utf8 password) (draw 0) vault_iterations) (draw 1)
        (p.utf8 (stringify contents))

  -- Let the primitives satisfy their laws, the contents survive JSON and UTF-8, and the salt, the IV
  -- and the ciphertext have encodings that are not the empty text. Then what was sealed opens again
  -- under its password, as a vault and as a backup, and a vault just sealed needs no upgrade.
  pub open-seal :
      p.decode (p.utf8 (stringify contents)) ≡ stringify contents
      → parse (stringify contents) ≡ some contents
      → bytes_to_b64 p (draw 0) ≢ []
      → bytes_to_b64 p (draw 1) ≢ []
      → bytes_to_b64 p cipher ≢ []
      → (open_vault p stringify parse
            (some (seal_vault p stringify parse draw contents password))
            password
          ≡ ok contents)
        × (open_backup p stringify parse
              (some (seal_backup p stringify parse draw contents password))
              password
            ≡ ok contents)
        × (vault_needs_upgrade (seal_vault p stringify parse draw contents password) ≡ false)
  unfolding seal_vault seal_backup open_vault open_backup vault_needs_upgrade iterations_of
  open-seal hd hp n0 n1 n2 =
      let key = p.pbkdf2 (p.utf8 password) (draw 0) vault_iterations in
      let b0 = b64_to_bytes-bytes_to_b64 p laws (draw 0) in
      let b1 = b64_to_bytes-bytes_to_b64 p laws (draw 1) in
      let b2 = b64_to_bytes-bytes_to_b64 p laws cipher in
      let g = laws.gcm key (draw 1) (p.utf8 (stringify contents)) in
      let k = same_refl (codes "backup") in
      (
        rw (ne→same _ _ n0, ne→same _ _ n1, ne→same _ _ n2, b0, b1, b2, g, hd, hp, ◌>>=◌),
        rw (k, b0, b1, b2, g, hd, hp, ◌>>=◌),
        refl,
      )

  -- Let base64 decode what it encodes, to texts that are not empty. Then another password, under
  -- whose key AES-GCM refuses the ciphertext, gives the vault's and the backup's own error.
  pub open_wrong_password :
      (other : Text)
      → bytes_to_b64 p (draw 0) ≢ []
      → bytes_to_b64 p (draw 1) ≢ []
      → bytes_to_b64 p cipher ≢ []
      → p.gcm_decrypt (p.pbkdf2 (p.utf8 other) (draw 0) vault_iterations) (draw 1) cipher ≡ none
      → (open_vault p stringify parse
            (some (seal_vault p stringify parse draw contents password))
            other
          ≡ err wrong_vault_password)
        × (open_backup p stringify parse
              (some (seal_backup p stringify parse draw contents password))
              other
            ≡ err wrong_backup_password)
  unfolding seal_vault seal_backup open_vault open_backup iterations_of
  open_wrong_password other n0 n1 n2 g =
      let b0 = b64_to_bytes-bytes_to_b64 p laws (draw 0) in
      let b1 = b64_to_bytes-bytes_to_b64 p laws (draw 1) in
      let b2 = b64_to_bytes-bytes_to_b64 p laws cipher in
      let k = same_refl (codes "backup") in
      (
        rw (ne→same _ _ n0, ne→same _ _ n1, ne→same _ _ n2, b0, b1, b2, g, ◌>>=◌),
        rw (k, b0, b1, b2, g, ◌>>=◌),
      )
