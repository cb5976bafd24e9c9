-- ===== src/Api.antt =====
-- Requests of client/js/api.js: `_req` with its retries and its renewal of the token, `_relogin`
-- and `statusMessage`. What the network answers is an argument, one exchange for each sending.
pub mod Bounds
pub mod Endpoints
pub mod Outcomes
pub mod Probe
pub mod Session
pub mod SingleFlight
mod Tests
use lattix.Prelude.{
  ℕ, zero, suc, ◌+◌, ◌*◌, ◌^◌, Text, codes, same, Bool, true, false, not, ◌&&◌, ◌||◌, Option, none,
  some, List, [], ◌∷◌, ◌++◌, leb, ltb, ◌==◌, if◌then◌else◌,
}
use lattix.Prelude.Dict
use lattix.Prelude.Decimal.{decimal}

pub data Method : Type 0 where
  get post put delete : Method

-- What `_send` comes to: a transport failure (true for a timeout), or a status with the value that
-- a success returns (its JSON is taken to be readable) and the `detail` of an error, empty where there is
-- none.
pub data Answer : Type 0 where
  failed : Bool → Answer
  answered : ℕ → Text → Text → Answer

-- What the registered `_reauth` comes to: none is registered, the token of a new session, or an
-- error with its status, 0 for none.
pub data Login : Type 0 where
  unregistered : Login
  session : Text → Login
  rejected : ℕ → Login

pub data Renewal : Type 0 where
  renewed denied unreachable : Renewal

-- One sending: the answer, the token when the answer is there (other requests may have renewed it
-- meanwhile), and what a login would come to then.
pub record Exchange : Type 0 where
  pub answer : Answer
  pub token_then : Option Text
  pub login : Login

pub data Outcome : Type 0 where
  returned : Text → Outcome
  lost : Bool → Outcome
  refused : ℕ → Text → Outcome

-- The variables of the loop of `_req`, with the numbers of sendings and of calls of
-- `_relogin`, and the time slept in milliseconds.
-- While the loop sleeps, no other request is taken to change the token.
pub record Loop : Type 0 where
  pub attempt : ℕ
  pub reauthed : Bool
  pub token : Option Text
  pub sent : ℕ
  pub logins : ℕ
  pub slept : ℕ

pub data Next : Type 0 where
  again : Loop → Next
  done : Outcome → Loop → Next

abbrev pub read_attempts : ℕ
read_attempts = 3

unfoldable pub attempts_of : Method → ℕ
attempts_of get = read_attempts
attempts_of _ = 1

unfoldable pub is_retry_status : ℕ → Bool
is_retry_status s = s == 502 || s == 503 || s == 504

-- `res.ok`
unfoldable pub is_ok : ℕ → Bool
is_ok s = leb 200 s && leb s 299

-- `NO_REAUTH.has(path)`
unfoldable pub is_auth_path : Text → Bool
is_auth_path path =
    same path (codes "/api/login")
    || same path (codes "/api/register")
    || same path (codes "/api/logout")

unfoldable pub status_message : ℕ → Text → Text
status_message s (c ∷ detail) = c ∷ detail
status_message s [] =
    if s == 413
    then codes "That upload is larger than the relay (or the proxy in front of it) accepts."
    else if s == 502 || s == 504
    then codes "The relay's proxy couldn't reach the Lattix server behind it (HTTP "
      ++ decimal s
      ++ codes "). Try again shortly."
    else if s == 503
    then codes "The relay is temporarily unavailable (HTTP 503). Try again shortly."
    else codes "The relay answered HTTP " ++ decimal s ++ codes "."

-- A token that is there and not empty.
has_token : Option Text → Bool
has_token none = false
has_token (some t) = not (same t [])

is_same_token : Option Text → Option Text → Bool
is_same_token none none = true
is_same_token (some s) (some t) = same s t
is_same_token _ _ = false

-- `_relogin`, with nobody else logging in: the result and the token afterwards.
unfoldable pub relogin : Login → Option Text → Renewal × Option Text
relogin unregistered token = (denied, token)
relogin (session t) token = (renewed, some t)
relogin (rejected s) token =
    if s == 401 || s == 403 || s == 404 then (denied, token) else (unreachable, token)

is_renewed : Renewal → Bool
is_renewed renewed = true
is_renewed _ = false

-- `await sleep(500 * 2 ** attempt); continue`
sleep_again : Loop → Next
sleep_again l = again (record l { attempt = l.attempt + 1; slept = l.slept + 500 * 2 ^ l.attempt })

-- The part below the renewal of the token.
settle : ℕ → ℕ → Text → Text → Loop → Next
unfolding sleep_again
settle attempts s value detail l =
    if not (is_ok s) && is_retry_status s && ltb (l.attempt + 1) attempts
    then sleep_again l
    else if not (is_ok s)
    then done (refused s (status_message s detail)) l
    else done (returned value) l

-- The renewal: the loop goes on without counting an attempt, or what follows it is done.
renew : ℕ → ℕ → Text → Text → Login → Option Text → Loop → Next
unfolding settle is_same_token is_renewed
renew attempts s value detail login token_used l =
    let tried = record l { reauthed = true } in
    if not (is_same_token l.token token_used)
    then again tried
    else let (renewal, token) = relogin login l.token in
      let logged = record tried { token = token; logins = l.logins + 1 } in
      if is_renewed renewal then again logged else settle attempts s value detail logged

-- One round of the loop of `_req`.
unfoldable pub round : ℕ → Text → Exchange → Loop → Next
unfolding has_token renew settle sleep_again
round attempts path x l =
    let sent = record l { token = x.token_then; sent = l.sent + 1 } in
    elim x.answer [
      | failed timeout ↦
          if ltb (l.attempt + 1) attempts then sleep_again sent else done (lost timeout) sent
      | answered s value detail ↦
          if s == 401 && has_token l.token && not (is_auth_path path) && not l.reauthed
          then renew attempts s value detail x.login l.token sent
          else settle attempts s value detail sent
    ]

-- The loop, on fuel; `exchange n` is the one of the n-th sending.
unfoldable pub rounds : ℕ → ℕ → Text → (ℕ → Exchange) → Loop → Option (Outcome × Loop)
rounds zero attempts path exchange l = none
rounds (suc fuel) attempts path exchange l = elim (round attempts path (exchange l.sent) l) [
  | again next ↦ rounds fuel attempts path exchange next
  | done outcome last ↦ some (outcome, last)
]

-- `_req`: a round for each attempt and one for a renewed token.
unfoldable pub request : Method → Text → Option Text → (ℕ → Exchange) → Option (Outcome × Loop)
request method path token exchange =
    rounds (attempts_of method + 1) (attempts_of method) path exchange
      (record { attempt = 0; reauthed = false; token = token; sent = 0; logins = 0; slept = 0 })
