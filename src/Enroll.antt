-- ===== src/Enroll.antt =====
-- The sign-in screen of client/js/app.js: creating an account, unlocking and importing a vault,
-- signing in to a relay or registering there, and re-sealing old vaults. Forms, dialogs and the
-- relay are arguments: what was typed, what the user answered, and what the relay replied.
pub mod Instance
pub mod Keeping
pub mod Unlocking
mod Tests
use lattix.Prelude.{
  ℕ, ◌≡◌, Text, codes, same, Bool, true, false, not, ◌&&◌, ◌||◌, Option, none, some, List, [], ◌∷◌,
  ◌++◌, length, ltb, ◌==◌, if◌then◌else◌,
}
use lattix.Crypto.Primitives.{Result, ok, err, Fault}
use lattix.Crypto.Identity.{Identity}

-- `identity` of the app: the keys, the name, and the avatar, which the relay has.
pub record Account : Type 0 where
  pub username : Text
  pub keys : Identity
  pub avatar : Option Text

-- The functions of crypto.js for vaults that this part calls, each with its randomness drawn, and
-- what it relies on.
pub record Vaults (V : Type 0) : Type 0 where
  pub seal_account : Account → Text → V
  pub open_account : V → Text → Result Account
  pub needs_upgrade : V → Bool
  pub open_account-seal_account :
      (a : Account) (password : Text) → open_account (seal_account a password) password ≡ ok a

pub data Toast : Type 0 where
  too_short mismatch not_acknowledged created no_file imported registered : Toast
  failed : Text → Toast
  not_opened : Fault → Toast

pub data Request : Type 0 where
  probes : Request
  registers logs_in : Account → Request

-- What the relay answers to `login` or `register`: success, or an error with its status and text.
pub data Reply : Type 0 where
  accepted : Reply
  refused : ℕ → Text → Reply

pub data Screen : Type 0 where
  create_form unlock_form import_form : Screen

-- `vault` is the one that localStorage holds, `session` the identity of the app.
pub record Device (V : Type 0) : Type 0 where
  pub vault : Option V
  pub session : Option Account
  pub screen : Screen
  pub toasts : List Toast
  pub requests : List Request
  pub settings_open : Bool

-- How `bootApp` ends: with the avatar that the relay gave, or with an error, before or after it.
pub data Boot : Type 0 where
  boots : Option Text → Boot
  breaks_off : Text → Boot
  stops : Option Text → Text → Boot

-- The relay as one sign-in finds it: whether it is reachable, the replies to `login` and
-- `register`, its name, and how `bootApp` ends; the message with which `sealVault` and `storeVault` of a
-- new or imported vault throw, if they do, and whether those of an upgrade succeed; and the user's
-- answers to the dialogs: opening the settings of the relay, and registering there.
pub record World : Type 0 where
  pub reachable : Bool
  pub login : Reply
  pub register : Reply
  pub label : Text
  pub boot : Boot
  pub store_error : Option Text
  pub upgrades : Bool
  pub opens_settings : Bool
  pub enrolls : Bool

-- What `loginOrEnroll` comes to.
pub data SignIn : Type 0 where
  entered declined : SignIn
  threw : Text → SignIn

abbrev pub taken : Text → Text → Text
taken username label =
    codes "The username \""
    ++ username
    ++ codes "\" is already taken on "
    ++ label
    ++ codes " by a different identity."

-- `const { avatar, ...stored } = identity`
unfoldable pub without_avatar : Account → Account
without_avatar a = record a { avatar = none }

-- `me.avatar || identity.avatar || null`
unfoldable pub avatar_or : Option Text → Option Text → Option Text
avatar_or (some (c ∷ cs)) own = some (c ∷ cs)
avatar_or none (some (c ∷ cs)) = some (c ∷ cs)
avatar_or (some []) (some (c ∷ cs)) = some (c ∷ cs)
avatar_or _ _ = none

-- `identity` after `bootApp`, which sets its avatar.
unfoldable pub booted_account : Boot → Account → Account
booted_account (boots avatar) a = record a { avatar = avatar_or avatar a.avatar }
booted_account (breaks_off message) a = a
booted_account (stops avatar message) a = record a { avatar = avatar_or avatar a.avatar }

-- The form of `onCreate`, its name trimmed and in lower case, the answer to its question about a vault that is there, and the keys
-- that `generateIdentity` draws.
pub record Creation : Type 0 where
  pub username : Text
  pub password : Text
  pub password2 : Text
  pub acknowledged : Bool
  pub replaces : Bool
  pub keys : Identity

unfoldable pub created_account : Creation → Account
created_account c = record { username = c.username; keys = c.keys; avatar = none }

-- The file chosen for an import: none, one that `JSON.parse` refuses with a message, or a vault.
pub data VaultFile (V : Type 0) : Type 0 where
  no_choice : VaultFile V
  garbled : Text → VaultFile V
  holding : V → VaultFile V

module _ {V : Type 0} where
  unfoldable pub shows : Toast → Device V → Device V
  shows t d = record d { toasts = t ∷ d.toasts }

  -- `toast(err.message || fallback, "error")`
  unfoldable pub shows_error : Text → Text → Device V → Device V
  unfolding shows
  shows_error [] fallback d = shows (failed fallback) d
  shows_error (c ∷ cs) fallback d = shows (failed (c ∷ cs)) d

  unfoldable pub has_vault : Device V → Bool
  has_vault d = elim d.vault [ none ↦ false | some _ ↦ true ]

  -- `showAuth`
  unfoldable pub show_auth : Device V → Device V
  show_auth d = record d { screen = if has_vault d then unlock_form else create_form }

  unfoldable pub ensure_relay_reachable : World → Device V → Device V × Bool
  ensure_relay_reachable w d =
      let probed = record d { requests = probes ∷ d.requests } in
      if w.reachable
      then (probed, true)
      else (record probed { settings_open = d.settings_open || w.opens_settings }, false)

  -- `bootApp`, of which only the identity matters here.
  unfoldable pub boot_app : World → Account → Device V → Device V
  boot_app w a d = record d { session = some (booted_account w.boot a) }

  -- What follows `bootApp`, or the `catch` if it throws.
  unfoldable pub boot_ends : Boot → Text → Device V → Device V → Device V
  boot_ends (boots avatar) fallback done booted = done
  boot_ends (breaks_off message) fallback done booted = shows_error message fallback booted
  boot_ends (stops avatar message) fallback done booted = shows_error message fallback booted

  unfoldable pub enroll : World → Account → Device V → Device V × SignIn
  enroll w a d =
      let asked = record d { requests = registers a ∷ d.requests } in
      elim w.register [
        | accepted ↦ (shows registered asked, entered)
        | refused status message ↦
            (asked, threw (if status == 409 then taken a.username w.label else message))
      ]

  unfoldable pub login_or_enroll : World → Account → Device V → Device V × SignIn
  login_or_enroll w a d =
      let asked = record d { requests = logs_in a ∷ d.requests } in
      elim w.login [
        | accepted ↦ (asked, entered)
        | refused status message ↦
            if not (status == 401)
            then (asked, threw message)
            else if not w.enrolls
            then (asked, declined)
            else enroll w a asked
      ]

module _ {V : Type 0} (e : Vaults V) where
  -- `upgradeVault`, once it has ended: where sealing or storing fails, the old vault stays.
  unfoldable pub upgrade_vault : World → V → Account → Text → Device V → Device V
  upgrade_vault w vault a password d =
      if not (e.needs_upgrade vault) || not w.upgrades
      then d
      else record d { vault = some (e.seal_account (without_avatar a) password) }

  -- `onCreate` from `generateIdentity` on.
  unfoldable pub finish_creation : World → Creation → Device V → Device V
  finish_creation w c d =
      let a = created_account c in
      let asked = record d { requests = registers a ∷ d.requests } in
      elim w.register [
        | refused status message ↦ shows_error message (codes "Registration failed") asked
        | accepted ↦ elim w.store_error [
          | some message ↦ shows_error message (codes "Registration failed") asked
          | none ↦
              let booted =
                boot_app w a (record asked { vault = some (e.seal_account a c.password) }) in
              boot_ends w.boot (codes "Registration failed") (shows created booted) booted
        ]
      ]

  unfoldable pub on_create : World → Creation → Device V → Device V
  on_create w c d =
      if ltb (length c.password) 8
      then shows too_short d
      else if not (same c.password c.password2)
      then shows mismatch d
      else if not c.acknowledged
      then shows not_acknowledged d
      else if has_vault d && not c.replaces
      then d
      else let (probed, reached) = ensure_relay_reachable w d in
        if not reached then probed else finish_creation w c probed

  -- What `onUnlock` and `onImport` do once `loginOrEnroll` is done; `keeps` stores the vault file.
  unfoldable pub after_entry :
      World → V → Account → Text → Text → Bool → Device V × SignIn → Device V
  after_entry w vault a password fallback keeps (d, threw message) = shows_error message fallback d
  after_entry w vault a password fallback keeps (d, declined) = d
  after_entry w vault a password fallback keeps (d, entered) =
      let enters : Device V → Device V = λ stored.
        let booted = boot_app w a stored in
        let upgraded = upgrade_vault w vault (booted_account w.boot a) password booted in
        boot_ends w.boot fallback (if keeps then shows imported upgraded else upgraded) booted in
      if not keeps then enters d else elim w.store_error [
        | some message ↦ shows_error message fallback d
        | none ↦ enters (record d { vault = some vault })
      ]

  unfoldable pub open_and_enter : World → V → Text → Text → Bool → Device V → Device V
  open_and_enter w vault password fallback keeps d =
      let (probed, reached) = ensure_relay_reachable w d in
      if not reached then probed else elim (e.open_account vault password) [
        | err fault ↦ shows (not_opened fault) probed
        | ok a ↦ after_entry w vault a password fallback keeps (login_or_enroll w a probed)
      ]

  unfoldable pub on_unlock : World → Text → Device V → Device V
  on_unlock w password d = elim d.vault [
    | none ↦ record d { screen = create_form }
    | some vault ↦ open_and_enter w vault password (codes "Unlock failed") false d
  ]

  unfoldable pub on_import : World → VaultFile V → Text → Device V → Device V
  on_import w no_choice password d = shows no_file d
  on_import w (garbled message) password d = shows_error message (codes "Import failed") d
  on_import w (holding vault) password d =
      open_and_enter w vault password (codes "Import failed") true d
