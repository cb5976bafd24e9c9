-- ===== src/Enroll/Unlocking.antt =====
-- What a vault stored by client/js/app.js opens to, now and after later sign-ins.
use lattix.Prelude.{
  ◌≤◌, ◌≡◌, refl, sym, ap, ◌∙◌, inl, inr, arith, Text, codes, same, eq→same, Bool, true, false, not,
  ◌∷◌, ◌&&◌, ◌||◌, none, some, length, ltb, if◌then◌else◌, if-cases,
}
use lattix.Crypto.Primitives.{ok}
use lattix.Enroll.{
  Account, Vaults, probes, logs_in, accepted, Device, World, SignIn, entered, declined, threw,
  has_vault, shows, ensure_relay_reachable, boot_app, finish_creation, login_or_enroll,
  without_avatar, Boot, boots, breaks_off, stops, booted_account, upgrade_vault, Creation,
  created_account, on_create, after_entry, open_and_enter, on_unlock,
}
use lattix.Enroll.Keeping.{
  shows_error-vault, boot_ends-session, boot_ends-vault, login_or_enroll-vault,
}

module _ {V : Type 0} (e : Vaults V) where
  upgrade_vault-session :
      (w : World) (v : V) (a : Account) (password : Text) (d : Device V)
      → (upgrade_vault e w v a password d).session ≡ d.session
  unfolding upgrade_vault
  upgrade_vault-session w v a password d =
      if-cases (λ (r : Device V). r.session ≡ d.session) (not (e.needs_upgrade v) || not w.upgrades)
        (λ _. refl) (λ _. refl)

  after_entry-session :
      (w : World) (v : V) (a : Account) (password fallback : Text) (d : Device V)
      → (after_entry e w v a password fallback false (d, entered)).session
        ≡ some (booted_account w.boot a)
  unfolding after_entry boot_app
  after_entry-session w v a password fallback d =
      boot_ends-session w.boot fallback _ _
        (upgrade_vault-session w v (booted_account w.boot a) password (boot_app w a d))

  login_or_enroll-entered :
      (w : World) (a : Account) (d : Device V)
      → w.login ≡ accepted
      → login_or_enroll w a d ≡ (record d { requests = logs_in a ∷ d.requests }, entered)
  unfolding login_or_enroll
  login_or_enroll-entered w a d known = rw (known, login_or_enroll) refl

  ensure_relay_reachable-reached :
      (w : World) (d : Device V)
      → w.reachable ≡ true
      → ensure_relay_reachable w d ≡ (record d { requests = probes ∷ d.requests }, true)
  unfolding ensure_relay_reachable
  ensure_relay_reachable-reached w d reached = rw (reached, ensure_relay_reachable) refl

  -- Signing in to a relay that knows the account starts its session, with the avatar that the relay has.
  on_unlock-session :
      (w : World) (v : V) (a : Account) (password : Text) (d : Device V)
      → d.vault ≡ some v
      → e.open_account v password ≡ ok a
      → w.reachable ≡ true
      → w.login ≡ accepted
      → (on_unlock e w password d).session ≡ some (booted_account w.boot a)
  unfolding on_unlock open_and_enter
  on_unlock-session w v a password d stored opens reached known =
      rw (on_unlock, stored, open_and_enter, ensure_relay_reachable-reached w d reached, opens)
        (ap (λ r. (after_entry e w v a password (codes "Unlock failed") false r).session)
            (login_or_enroll-entered w a _ known)
          ∙ after_entry-session w v a password (codes "Unlock failed") _)

  -- The device holds a vault that opens under the password to the account.
  abbrev pub Opens : Device V → Text → Account → Type 0
  Opens d password a = (v : V) × (d.vault ≡ some v) × (e.open_account v password ≡ ok a)

  plain_account :
      (b : Boot) (a : Account) → a.avatar ≡ none → without_avatar (booted_account b a) ≡ a
  unfolding without_avatar booted_account
  plain_account (boots avatar) a plain = ap (λ avatar. record a { avatar = avatar }) (sym plain)
  plain_account (breaks_off m) a plain = ap (λ avatar. record a { avatar = avatar }) (sym plain)
  plain_account (stops avatar m) a plain = ap (λ avatar. record a { avatar = avatar }) (sym plain)

  upgrade_vault-Opens :
      (w : World) (v : V) (a : Account) (password : Text) (d : Device V)
      → a.avatar ≡ none
      → d.vault ≡ some v
      → e.open_account v password ≡ ok a
      → Opens (upgrade_vault e w v (booted_account w.boot a) password d) password a
  unfolding upgrade_vault
  upgrade_vault-Opens w v a password d plain stored opens =
      let kept = without_avatar (booted_account w.boot a) in
      if-cases (λ (r : Device V). Opens r password a) (not (e.needs_upgrade v) || not w.upgrades)
        (λ _. (v, stored, opens))
        (λ _. (
          e.seal_account kept password,
          refl,
          e.open_account-seal_account kept password ∙ ap ok (plain_account w.boot a plain),
        ))

  after_entry-Opens :
      (w : World) (v : V) (a : Account) (password fallback : Text) (r : Device V × SignIn)
      → a.avatar ≡ none
      → r.0.vault ≡ some v
      → e.open_account v password ≡ ok a
      → Opens (after_entry e w v a password fallback false r) password a
  unfolding after_entry boot_app
  after_entry-Opens w v a password fallback (d, threw m) plain stored opens =
      (v, shows_error-vault m fallback d ∙ stored, opens)
  after_entry-Opens w v a password fallback (d, declined) plain stored opens = (v, stored, opens)
  after_entry-Opens w v a password fallback (d, entered) plain stored opens =
      let booted = boot_app w a d in
      let (v2, stored2, opens2) = upgrade_vault-Opens w v a password booted plain stored opens in
      let upgraded = upgrade_vault e w v (booted_account w.boot a) password booted in
      elim (boot_ends-vault w.boot fallback upgraded booted) [
        | inl kept ↦ (v2, kept ∙ stored2, opens2)
        | inr kept ↦ (v, kept ∙ stored, opens)
      ]

  -- Where a vault of the device opens under the password, to an account without avatar, it does so
  -- again after `onUnlock` with that password, whatever the relay and the user answer and whether or not an
  -- upgrade can be sealed and stored: it is replaced by one that opens alike, without the avatar that the
  -- relay gave meanwhile.
  pub on_unlock-Opens :
      (w : World) (password : Text) (a : Account) (d : Device V)
      → a.avatar ≡ none
      → Opens d password a
      → Opens (on_unlock e w password d) password a
  unfolding on_unlock open_and_enter ensure_relay_reachable
  on_unlock-Opens w password a d plain (v, stored, opens) =
      rw (stored, on_unlock, opens)
        (if-cases
          (λ (r : Device V × Bool).
            Opens
              (if not r.1
                then r.0
                else after_entry e w v a password (codes "Unlock failed") false
                    (login_or_enroll w a r.0))
              password a)
          w.reachable
          (λ _.
            after_entry-Opens w v a password (codes "Unlock failed") (login_or_enroll w a _) plain
              (login_or_enroll-vault w a _ ∙ stored) opens)
          (λ _. (v, stored, opens)))

  created-vault :
      (w : World) (c : Creation) (d : Device V)
      → 8 ≤ length c.password
      → c.password ≡ c.password2
      → c.acknowledged ≡ true
      → (has_vault d && not c.replaces) ≡ false
      → w.reachable ≡ true
      → w.register ≡ accepted
      → w.store_error ≡ none
      → (on_create e w c d).vault ≡ some (e.seal_account (created_account c) c.password)
  unfolding on_create finish_creation ensure_relay_reachable shows boot_app
  created-vault w c d long equal acked free reached taken stores =
      let P : Device V → Type 0 =
        λ after. after.vault ≡ some (e.seal_account (created_account c) c.password) in
      if-cases P (ltb (length c.password) 8) (λ short. ground (arith, long, short))
        (λ _.
          if-cases P (not (same c.password c.password2))
            (λ n. ground (arith, n, eq→same c.password c.password2 equal))
            (λ _.
              if-cases P (not c.acknowledged) (λ n. ground (arith, n, acked))
                (λ _.
                  if-cases P (has_vault d && not c.replaces) (λ n. ground (arith, n, free))
                    (λ _.
                      if-cases
                        (λ (r : Device V × Bool).
                          P (if not r.1 then r.0 else finish_creation e w c r.0))
                        w.reachable
                        (λ _.
                          rw (taken, stores, finish_creation)
                            (elim (boot_ends-vault w.boot _ _ _) [ inl b ↦ b | inr b ↦ b ]))
                        (λ n. ground (arith, n, reached))))))

  -- An account created with a password of eight characters that was repeated, with the warning
  -- confirmed, with the user's consent where there was a vault, taken by the relay, and whose vault could
  -- be stored, is the one whose session starts when the device is later unlocked with that password and
  -- the relay knows it, with the avatar that the relay then has.
  pub on_create-on_unlock :
      (w later : World) (c : Creation) (d : Device V)
      → 8 ≤ length c.password
      → c.password ≡ c.password2
      → c.acknowledged ≡ true
      → (has_vault d && not c.replaces) ≡ false
      → w.reachable ≡ true
      → w.register ≡ accepted
      → w.store_error ≡ none
      → later.reachable ≡ true
      → later.login ≡ accepted
      → (on_unlock e later c.password (on_create e w c d)).session
        ≡ some (booted_account later.boot (created_account c))
  on_create-on_unlock w later c d long equal acked free reached taken stores reachable known =
      on_unlock-session later (e.seal_account (created_account c) c.password) (created_account c)
        c.password (on_create e w c d)
        (created-vault w c d long equal acked free reached taken stores)
        (e.open_account-seal_account (created_account c) c.password) reachable known
