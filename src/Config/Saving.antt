-- ===== src/Config/Saving.antt =====
-- Saving a relay in the dialog of client/js/app.js: which base a URL means, what is stored, and what
-- the user is asked before the app signs out and reloads.
use lattix.Prelude.{
  ◌≡◌, refl, sym, ap, ◌∙◌, arith, Text, same, same→eq, Bool, true, false, not, ◌&&◌, Option, none,
  some, [], if◌then◌else◌, if-cases, ◌⊎◌, inl, inr,
}
use lattix.Config.{
  Page, Url, Normalized, accepted, rejected, trim, strip_slashes, read_store, is_extension,
  default_server, get_server_url, set_server_url, api_base, normalize_server_url,
}

-- `baseFor`
unfoldable pub base_for : Page → Text → Text
base_for page url =
    if same url []
    then default_server page
    else if not (is_extension page) && same url page.origin
    then []
    else url

-- How the hint below the field looks, and what it says: an error, the default, a warning or the URL.
pub data Hint : Type 0 where
  hint_error : Text → Hint
  hint_default : Hint
  hint_warning : Text → Hint
  hint_url : Text → Hint

unfoldable pub hint_of : Normalized → Hint
hint_of (rejected message) = hint_error message
hint_of (accepted url warning) =
    if same url []
    then hint_default
    else if not (same warning [])
    then hint_warning warning
    else hint_url url

-- What is stored for an accepted URL.
unfoldable pub stored_url : Page → Text → Text
stored_url page url = if not (same url []) && same (base_for page url) [] then [] else url

-- The app with the dialog: whether it has an identity, whether the dialog is open, and whether it
-- has signed out of its relay and reloads.
pub record App : Type 0 where
  pub page : Page
  pub signed_in : Bool
  pub dialog_open : Bool
  pub signed_out : Bool
  pub reloading : Bool

-- What the test of the relay gives, and the user's answers to its questions.
pub record Answers : Type 0 where
  pub reachable : Bool
  pub saves_anyway : Bool
  pub switches : Bool

unfoldable pub save_tested : Answers → Text → App → App
save_tested a stored app =
    if not a.reachable && not a.saves_anyway
    then app
    else if app.signed_in
    then if not a.switches
      then app
      else record app { signed_out = true; page = set_server_url app.page stored; reloading = true }
    else record app { page = set_server_url app.page stored; dialog_open = false }

-- The form's "submit".
unfoldable pub save_server : (Text → Option Url) → Answers → Text → App → App
save_server parse a typed app = elim (normalize_server_url parse app.page typed) [
  | rejected message ↦ app
  | accepted url warning ↦
      let stored = stored_url app.page url in
      if same (base_for app.page stored) (api_base app.page)
      then record app {
        page =
            if same stored (get_server_url app.page)
            then app.page
            else set_server_url app.page stored;
        dialog_open = false;
      }
      else save_tested a stored app
]

blank_url : strip_slashes (trim []) ≡ []
unfolding strip_slashes trim
blank_url = refl

reread :
    (url : Text)
    → strip_slashes (trim url) ≡ url
    → let value = strip_slashes (trim url) in
      strip_slashes (trim (read_store (if same value [] then none else some value))) ≡ url
unfolding read_store
reread url e =
    let value = strip_slashes (trim url) in
    if-cases (λ stored. strip_slashes (trim (read_store stored)) ≡ url) (same value [])
      (λ b. blank_url ∙ sym (same→eq value [] b) ∙ e) (λ _. ap (λ t. strip_slashes (trim t)) e ∙ e)

-- Where storing works and the URL has no blanks at its ends and no slash at its end, the base that
-- requests go to after it was stored is the one that `baseFor` gave for it.
pub api_base-set_server_url :
    (page : Page) (url : Text)
    → page.can_save ≡ true
    → strip_slashes (trim url) ≡ url
    → api_base (set_server_url page url) ≡ base_for page url
unfolding api_base set_server_url get_server_url base_for is_extension default_server
api_base-set_server_url page url c e =
    if-cases (λ p. api_base p ≡ base_for page url) (not page.can_save) (λ n. ground (arith, n, c))
      (λ _. ap (base_for page) (reread url e))

-- Whatever is typed, answered and found, an app with an identity changes its relay only together with
-- signing out and reloading, if the new relay is not the one in use under another spelling.
pub save_tested-switches :
    (a : Answers) (stored : Text) (app : App)
    → app.signed_in ≡ true
    → app.signed_out ≡ false
    → (save_tested a stored app ≡ app)
      ⊎ (((save_tested a stored app).signed_out ≡ true)
          × ((save_tested a stored app).reloading ≡ true)
          × (a.switches ≡ true))
unfolding save_tested
save_tested-switches a stored app s l =
    let P : App → Type 0 = λ after.
      (after ≡ app)
      ⊎ ((after.signed_out ≡ true) × (after.reloading ≡ true) × (a.switches ≡ true)) in
    if-cases P (not a.reachable && not a.saves_anyway) (λ _. inl refl)
      (λ _.
        if-cases P app.signed_in
          (λ _.
            if-cases P (not a.switches) (λ _. inl refl) (λ w. inr (refl, refl, ground (arith, w))))
          (λ n. ground (arith, n, s)))
