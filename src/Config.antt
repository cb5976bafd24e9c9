-- ===== src/Config.antt =====
-- The choice of the relay in client/js/config.js. `new URL` is a parameter, `none` where it throws.
pub mod Choice
pub mod Hosts
pub mod Saving
pub mod Status
mod Tests
use lattix.Prelude.{
  ℕ, zero, suc, ◌+◌, ◌-◌, Text, codes, same, Bool, true, false, not, ◌&&◌, ◌||◌, any, Option, none,
  some, List, [], ◌∷◌, ◌++◌, take, leb, ltb, ◌==◌, if◌then◌else◌, length,
}
use lattix.Prelude.Decimal.{decimal}
unfoldable pub use lattix.Config.Hosts.{trim, strip_slashes, lowered, is_local_host, is_private_ip}
use lattix.Config.Hosts.{lower, is_digit}

-- `location`, and localStorage's entry for the relay: `none` where there is none or it cannot be
-- read. `can_save` is false where writing throws.
pub record Page : Type 0 where
  pub protocol : Text
  pub origin : Text
  pub stored : Option Text
  pub can_save : Bool

pub record Url : Type 0 where
  pub protocol : Text
  pub username : Text
  pub password : Text
  pub hostname : Text
  pub host : Text
  pub pathname : Text

-- The result of `normalizeServerUrl`.
pub data Normalized : Type 0 where
  accepted : Text → Text → Normalized
  rejected : Text → Normalized

unfoldable pub is_extension : Page → Bool
is_extension page = same page.protocol (codes "chrome-extension:")

unfoldable pub default_server : Page → Text
default_server page = if is_extension page then codes "http://localhost:8000" else []

read_store : Option Text → Text
read_store none = []
read_store (some s) = s

unfoldable pub get_server_url : Page → Text
unfolding read_store
get_server_url page = strip_slashes (trim (read_store page.stored))

unfoldable pub set_server_url : Page → Text → Page
set_server_url page url =
    let value = strip_slashes (trim url) in
    if not page.can_save
    then page
    else record page { stored = if same value [] then none else some value }

unfoldable pub api_base : Page → Text
api_base page =
    let stored = get_server_url page in
    if same stored []
    then default_server page
    else if not (is_extension page) && same stored page.origin
    then []
    else stored

unfoldable pub server_origin : Page → Text
server_origin page = if same (api_base page) [] then page.origin else api_base page

-- `replace(/^http/i, "ws")`
unfoldable pub to_socket : Text → Text
to_socket (a ∷ b ∷ c ∷ d ∷ s) =
    if same (lowered (a ∷ b ∷ c ∷ d ∷ [])) (codes "http")
    then codes "ws" ++ s
    else a ∷ b ∷ c ∷ d ∷ s
to_socket s = s

unfoldable pub ws_url : Page → Text
ws_url page = strip_slashes (to_socket (server_origin page)) ++ codes "/ws"

unfoldable pub using_remote_server : Page → Bool
using_remote_server page = not (same (api_base page) [])

unfoldable pub share_origin : Page → Text
share_origin page = strip_slashes (server_origin page)

is_letter : ℕ → Bool
is_letter c = leb b'a' (lower c) && leb (lower c) b'z'

-- The rest of a scheme, and `://`.
is_scheme_tail : Text → Bool
is_scheme_tail [] = false
is_scheme_tail (c ∷ s) =
    (c == b':' && same (slashes s) (codes "//"))
    || ((is_letter c || is_digit c || c == b'+' || c == b'.' || c == b'-') && is_scheme_tail s)
  where
    slashes : Text → Text
    slashes (a ∷ b ∷ _) = a ∷ b ∷ []
    slashes t = t

-- `/^[a-z][a-z0-9+.-]*:\/\//i`
has_scheme : Text → Bool
has_scheme [] = false
has_scheme (c ∷ s) = is_letter c && is_scheme_tail s

-- `split(/[/:?#]/)[0]`
typed_host : Text → Text
typed_host [] = []
typed_host (c ∷ s) =
    let rest = typed_host s in
    if c == b'/' || c == b':' || c == b'?' || c == b'#' then [] else c ∷ rest

with_scheme : Text → Text
with_scheme raw =
    if has_scheme raw
    then raw
    else (if is_local_host (typed_host raw) || is_private_ip (typed_host raw)
        then codes "http://"
        else codes "https://")
      ++ raw

-- What follows the slash of a WebSocket or API path, in lower case.
is_api_tail : Text → Bool
is_api_tail s = same s (codes "ws") || same s (codes "api") || same (take 4 s) (codes "api/")

-- `replace(/\/(ws|api(\/.*)?)$/i, "")`
pub drop_api : Text → Text
drop_api [] = []
drop_api (c ∷ s) =
    let rest = drop_api s in if c == b'/' && is_api_tail (lowered s) then [] else c ∷ rest

pub http_protocol : Text → Text
http_protocol protocol =
    if same protocol (codes "ws:")
    then codes "http:"
    else if same protocol (codes "wss:")
    then codes "https:"
    else protocol

-- The part below the parser: protocol, credentials, host, mixed content, warning.
judge_url : Page → Url → Normalized
unfolding http_protocol drop_api
judge_url page u =
    let protocol = http_protocol u.protocol in
    let url = protocol ++ codes "//" ++ u.host ++ drop_api (strip_slashes u.pathname) in
    if not (same protocol (codes "http:")) && not (same protocol (codes "https:"))
    then rejected (codes "The relay URL must start with https:// or http://.")
    else if not (same u.username []) || not (same u.password [])
    then rejected (codes "Don't put a username or password in the relay URL.")
    else if same u.hostname []
    then rejected (codes "The relay URL needs a host name.")
    else if same page.protocol (codes "https:")
        && same protocol (codes "http:")
        && not (is_local_host u.hostname)
    then rejected (
        codes
          "This page is loaded over HTTPS, so the browser will block an http:// relay. Use https://.")
    else accepted url (
        if same protocol (codes "http:")
          && not (is_local_host u.hostname)
          && not (is_private_ip u.hostname)
        then codes
            "Plain http:// over the internet exposes your login token and metadata to the network. Messages stay end-to-end encrypted, but put the relay behind HTTPS (Caddy or nginx)."
        else [])

unfoldable pub normalize_server_url : (Text → Option Url) → Page → Text → Normalized
unfolding lower is_digit is_api_tail is_letter is_scheme_tail has_scheme typed_host with_scheme
    judge_url http_protocol drop_api
normalize_server_url parse page input =
    let raw = trim input in
    if same raw [] then accepted [] [] else elim (parse (with_scheme raw)) [
      | none ↦ rejected (codes "That doesn't look like a valid URL.")
      | some u ↦ judge_url page u
    ]
