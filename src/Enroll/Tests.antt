-- ===== src/Enroll/Tests.antt =====
-- Signing in as client/js/app.js does, with vaults that keep the account beside its password.
use lattix.Prelude.{
  ◌≤◌, ◌≡◌, refl, ◌⊎◌, arith, Text, codes, same, same_refl, true, false, not, ◌&&◌, none, some, [],
  length, if◌then◌else◌,
}
use lattix.Crypto.Primitives.{ok, err, wrong_vault_password}
use lattix.Crypto.Identity.{Identity}
use lattix.Enroll.{
  Account, Vaults, accepted, Device, World, create_form, Creation, created_account, on_create,
  on_unlock, on_import, holding, has_vault, ensure_relay_reachable, shows, boot_app, boots,
  booted_account, avatar_or, boot_ends, open_and_enter, after_entry, login_or_enroll, upgrade_vault,
  without_avatar,
}
use lattix.Enroll.Keeping.{on_create-vault}
use lattix.Enroll.Unlocking.{Opens, on_unlock-Opens, on_create-on_unlock}

abbrev Kept : Type 0
Kept = Account × Text

abbrev kept_vaults : Vaults Kept
kept_vaults = record {
  seal_account = λ a password. (a, password);
  open_account = λ v password. if same v.1 password then ok v.0 else err wrong_vault_password;
  needs_upgrade = λ v. true;
  open_account-seal_account = λ a password. rw (same_refl password) refl;
}

abbrev keys : Text → Identity
keys t = record {
  kem = record { public_key = t; secret_key = t };
  dsa = record { public_key = t; secret_key = t };
  fingerprint = t;
  auth_secret = t;
}

abbrev anna : Account
anna = record { username = codes "anna"; keys = keys (codes "k"); avatar = none }

abbrev home : World
home = record {
  reachable = true;
  login = accepted;
  register = accepted;
  label = codes "relay";
  boot = boots (some (codes "img"));
  store_error = none;
  upgrades = true;
  opens_settings = false;
  enrolls = false;
}

abbrev empty_device : Device Kept
empty_device = record {
  vault = none;
  session = none;
  screen = create_form;
  toasts = [];
  requests = [];
  settings_open = false;
}

abbrev form : Creation
form = record {
  username = codes "anna";
  password = codes "password";
  password2 = codes "password";
  acknowledged = true;
  replaces = false;
  keys = keys (codes "k");
}

abbrev with_vault : Device Kept
with_vault = record empty_device { vault = some (anna, codes "password") }

-- An import replaces the vault of the device without a question.
import_test :
    (on_import kept_vaults home
      (holding (record anna { username = codes "bert" }, codes "other"))
      (codes "other")
      with_vault).vault
    ≡ some (record anna { username = codes "bert" }, codes "other")
unfolding on_import booted_account avatar_or open_and_enter after_entry ensure_relay_reachable
    login_or_enroll boot_app boot_ends upgrade_vault without_avatar shows same
import_test = refl

on_create-vault_example :
    ((on_create kept_vaults home form with_vault).vault ≡ with_vault.vault)
    ⊎ (((has_vault with_vault && not form.replaces) ≡ false)
        × (form.password ≡ form.password2)
        × (8 ≤ length form.password)
        × (form.acknowledged ≡ true)
        × (home.reachable ≡ true)
        × (home.register ≡ accepted)
        × ((on_create kept_vaults home form with_vault).vault
            ≡ some (created_account form, form.password)))
on_create-vault_example = on_create-vault kept_vaults home form with_vault

on_unlock-Opens_example :
    Opens kept_vaults
      (on_unlock kept_vaults home (codes "password") with_vault)
      (codes "password")
      anna
unfolding same
on_unlock-Opens_example =
    on_unlock-Opens kept_vaults home (codes "password") anna with_vault refl
      ((anna, codes "password"), refl, refl)

on_create-on_unlock_example :
    (on_unlock kept_vaults home
      (codes "password")
      (on_create kept_vaults home form empty_device)).session
    ≡ some (booted_account home.boot (created_account form))
unfolding has_vault
on_create-on_unlock_example =
    on_create-on_unlock kept_vaults home home form empty_device (omega arith) refl refl refl refl
      refl refl refl refl

-- The avatar that the relay gives is in the session and not in the vault that is sealed again.
upgrade_test :
    let after = on_unlock kept_vaults home (codes "password") with_vault in
    (after.session ≡ some (record anna { avatar = some (codes "img") }))
    × (after.vault ≡ some (anna, codes "password"))
unfolding on_unlock booted_account avatar_or open_and_enter after_entry ensure_relay_reachable
    login_or_enroll boot_app boot_ends upgrade_vault without_avatar same
upgrade_test = (refl, refl)
