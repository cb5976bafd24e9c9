-- ===== src/Enroll/Keeping.antt =====
-- What signing in (client/js/app.js) does to the vault of the device.
use lattix.Prelude.{
  ℕ, ◌≤◌, ◌≡◌, refl, ◌⊎◌, inl, inr, arith, Text, same, same→eq, Bool, true, false, not, ◌&&◌, some,
  [], ◌∷◌, length, ltb, ◌==◌, Option-cases, if◌then◌else◌, if-cases,
}
use lattix.Enroll.{
  Account, Vaults, Reply, accepted, refused, Device, World, SignIn, has_vault, shows, shows_error,
  ensure_relay_reachable, boot_app, boot_ends, finish_creation, Boot, boots, breaks_off, stops,
  enroll, login_or_enroll, Creation, created_account, on_create,
}

pub Reply-cases :
    (r : Reply) → (r ≡ accepted) ⊎ ((status : ℕ) × (message : Text) × (r ≡ refused status message))
Reply-cases accepted = inl refl
Reply-cases (refused status message) = inr (status, message, refl)

module _ {V : Type 0} where
  pub shows_error-vault : (m f : Text) (d : Device V) → (shows_error m f d).vault ≡ d.vault
  unfolding shows_error shows
  shows_error-vault [] f d = refl
  shows_error-vault (x ∷ m) f d = refl

  pub shows_error-session : (m f : Text) (d : Device V) → (shows_error m f d).session ≡ d.session
  unfolding shows_error shows
  shows_error-session [] f d = refl
  shows_error-session (x ∷ m) f d = refl

  pub boot_ends-session :
      (end : Boot) (fallback : Text) (done booted : Device V)
      → done.session ≡ booted.session
      → (boot_ends end fallback done booted).session ≡ booted.session
  unfolding boot_ends
  boot_ends-session (boots avatar) fallback done booted h = h
  boot_ends-session (breaks_off m) fallback done booted h = shows_error-session m fallback booted
  boot_ends-session (stops avatar m) fallback done booted h = shows_error-session m fallback booted

  pub boot_ends-vault :
      (end : Boot) (fallback : Text) (done booted : Device V)
      → ((boot_ends end fallback done booted).vault ≡ done.vault)
        ⊎ ((boot_ends end fallback done booted).vault ≡ booted.vault)
  unfolding boot_ends
  boot_ends-vault (boots avatar) fallback done booted = inl refl
  boot_ends-vault (breaks_off m) fallback done booted = inr (shows_error-vault m fallback booted)
  boot_ends-vault (stops avatar m) fallback done booted = inr (shows_error-vault m fallback booted)

  enroll-vault : (w : World) (a : Account) (d : Device V) → (enroll w a d).0.vault ≡ d.vault
  unfolding enroll shows
  enroll-vault w a d = elim (Reply-cases w.register) [
    | inl e ↦ rw (e, enroll) refl
    | inr (s, m, e) ↦ rw (e, enroll) refl
  ]

  pub login_or_enroll-vault :
      (w : World) (a : Account) (d : Device V) → (login_or_enroll w a d).0.vault ≡ d.vault
  unfolding login_or_enroll
  login_or_enroll-vault w a d = elim (Reply-cases w.login) [
    | inl e ↦ rw (e, login_or_enroll) refl
    | inr (s, m, e) ↦
        rw (e, login_or_enroll)
          (if-cases (λ (r : Device V × SignIn). r.0.vault ≡ d.vault) (not (s == 401)) (λ _. refl)
            (λ _.
              if-cases (λ (r : Device V × SignIn). r.0.vault ≡ d.vault) (not w.enrolls) (λ _. refl)
                (λ _. enroll-vault w a _)))
  ]

module _ {V : Type 0} (e : Vaults V) where
  pub finish_creation-vault :
      (w : World) (c : Creation) (d : Device V)
      → ((finish_creation e w c d).vault ≡ d.vault)
        ⊎ ((w.register ≡ accepted)
            × ((finish_creation e w c d).vault
                ≡ some (e.seal_account (created_account c) c.password)))
  unfolding finish_creation shows boot_app
  finish_creation-vault w c d = elim (Reply-cases w.register) [
    | inl a ↦ elim (Option-cases w.store_error) [
      | inl s ↦ inr (
        a,
        (rw (a, s, finish_creation)
            (elim (boot_ends-vault w.boot _ _ _) [ inl b ↦ b | inr b ↦ b ])),
      )
      | inr (m, s) ↦ inl (rw (a, s, finish_creation) (shows_error-vault m _ _))
    ]
    | inr (s, m, a) ↦ inl (rw (a, finish_creation) (shows_error-vault m _ _))
  ]

  -- After `onCreate` the device has the vault that it had, or the user agreed to its replacement (or
  -- there was none), the two passwords were equal and long enough, the relay took the registration,
  -- and the new vault is sealed under that password.
  pub on_create-vault :
      (w : World) (c : Creation) (d : Device V)
      → ((on_create e w c d).vault ≡ d.vault)
        ⊎ (((has_vault d && not c.replaces) ≡ false)
            × (c.password ≡ c.password2)
            × (8 ≤ length c.password)
            × (c.acknowledged ≡ true)
            × (w.reachable ≡ true)
            × (w.register ≡ accepted)
            × ((on_create e w c d).vault ≡ some (e.seal_account (created_account c) c.password)))
  unfolding on_create shows ensure_relay_reachable
  on_create-vault w c d =
      let P : Device V → Type 0 = λ after.
        (after.vault ≡ d.vault)
        ⊎ (((has_vault d && not c.replaces) ≡ false)
            × (c.password ≡ c.password2)
            × (8 ≤ length c.password)
            × (c.acknowledged ≡ true)
            × (w.reachable ≡ true)
            × (w.register ≡ accepted)
            × (after.vault ≡ some (e.seal_account (created_account c) c.password))) in
      if-cases P (ltb (length c.password) 8) (λ _. inl refl)
        (λ long.
          if-cases P (not (same c.password c.password2)) (λ _. inl refl)
            (λ equal.
              if-cases P (not c.acknowledged) (λ _. inl refl)
                (λ acked.
                  if-cases P (has_vault d && not c.replaces) (λ _. inl refl)
                    (λ free.
                      if-cases
                        (λ (r : Device V × Bool).
                          P (if not r.1 then r.0 else finish_creation e w c r.0))
                        w.reachable
                        (λ reached. elim (finish_creation-vault w c _) [
                          | inl kept ↦ inl kept
                          | inr (a, sealed) ↦ inr (
                            free,
                            same→eq c.password c.password2 (ground (arith, equal)),
                            ground (arith, long),
                            ground (arith, acked),
                            reached,
                            a,
                            sealed,
                          )
                        ])
                        (λ _. inl refl)))))
