-- ===== src/Api/Session.antt =====
-- Sessions in client/js/api.js: the request that `_send` makes, the text of an error, `login`,
-- `register`, `health` and `logout` on the fields of the client, and `_relogin` with any number of
-- callers at a time.
use lattix.Prelude.{
  ℕ, zero, suc, ◌+◌, ◌-◌, Text, codes, same, Bool, true, false, not, ◌||◌, Option, none, some, List,
  [], ◌∷◌, ◌++◌, ◌==◌, if◌then◌else◌,
}
use lattix.Api.{Method, Renewal, renewed, denied, unreachable}

-- The `detail` of an error's body: a text, a list whose first entry has a message or none, or
-- something else, also where the body is no JSON.
pub data Detail : Type 0 where
  detail_text : Text → Detail
  detail_list : Option Text → Detail
  detail_other : Detail

unfoldable pub read_detail : Detail → Text
read_detail (detail_text s) = s
read_detail (detail_list (some message)) = message
read_detail (detail_list none) = []
read_detail detail_other = []

-- What `fetch` comes to, and what `timedFetch` makes of it; true is that the timeout aborted it.
pub data Fetched : Type 0 where
  response : ℕ → Fetched
  thrown : Bool → Fetched

pub record RelayError : Type 0 where
  pub message : Text
  pub network : Bool
  pub timeout : Bool

pub data FetchResult : Type 0 where
  fetch_ok : ℕ → FetchResult
  fetch_error : RelayError → FetchResult

unfoldable pub timed_fetch : Text → Fetched → FetchResult
timed_fetch label (response status) = fetch_ok status
timed_fetch label (thrown aborted) =
    if aborted
    then fetch_error (record {
      message = codes "The relay at " ++ label ++ codes " took too long to answer.";
      network = false;
      timeout = true;
    })
    else fetch_error (record {
      message =
          codes "Can't reach the relay at "
          ++ label
          ++ codes ". Check your connection, or the address in Relay server settings.";
      network = true;
      timeout = false;
    })

-- What is sent: a form, the JSON of a body, or nothing.
pub data Content : Type 0 where
  form_data json_body : Text → Content
  no_payload : Content

pub record Sent : Type 0 where
  pub url : Text
  pub method : Method
  pub authorization : Option Text
  pub content_type : Option Text
  pub payload : Content
  pub timeout : ℕ

abbrev pub request_timeout : ℕ
request_timeout = 30000

-- `_send`; `timeout` is 0 where the call gives none.
unfoldable pub send : Text → Option Text → Method → Text → Content → ℕ → Sent
send base token method path payload timeout = record {
  url = base ++ path;
  method = method;
  authorization = elim token [
    | none ↦ none
    | some t ↦ if same t [] then none else some (codes "Bearer " ++ t)
  ];
  content_type = elim payload [ json_body _ ↦ some (codes "application/json") | _ ↦ none ];
  payload = payload;
  timeout = if timeout == 0 then request_timeout else timeout;
}

-- The fields of the client that sessions change; `reauth` that a way to log in again is registered.
-- `logging_in` are the calls of it that run, `waiting` the callers of `_relogin` that await one, and
-- `told` the results that callers got; `auth_events` what the app was told.
pub record Client : Type 0 where
  pub token : Option Text
  pub username : Option Text
  pub features : Option (List Text)
  pub reauth : Bool
  pub reauthing : Bool
  pub logging_in : ℕ
  pub waiting : ℕ
  pub calls : ℕ
  pub told : List Renewal
  pub auth_events : List Bool

unfoldable pub set_session : Text → Text → Client → Client
set_session token username c = record c { token = some token; username = some username }

-- `login` and `register`, by what the relay answered: a token and a name, or an error.
unfoldable pub login_answered : Option (Text × Text) → Client → Client
login_answered none c = c
login_answered (some (token, username)) c = set_session token username c

-- `health`: a body without a list of features counts as one with none.
unfoldable pub health_answered : Option (Option (List Text)) → Client → Client
health_answered none c = c
health_answered (some none) c = record c { features = some [] }
health_answered (some (some features)) c = record c { features = some features }

unfoldable pub logged_out : Client → Client
logged_out c = record c { token = none; username = none }

-- A call of `_relogin`: without a way to log in it is answered at once, and otherwise it awaits the
-- login that runs, or the one that it starts.
unfoldable pub relogin_called : Client → Client
relogin_called c =
    let counted = record c { calls = c.calls + 1 } in
    if not c.reauth
    then record counted { told = denied ∷ c.told }
    else if c.reauthing
    then record counted { waiting = c.waiting + 1 }
    else record counted { waiting = c.waiting + 1; reauthing = true; logging_in = c.logging_in + 1 }

unfoldable pub tell : ℕ → Renewal → List Renewal → List Renewal
tell zero r told = told
tell (suc n) r told = r ∷ tell n r told

-- What the login comes to: a session, or an error with its status.
pub data LoginEnd : Type 0 where
  login_ok : Text → Text → LoginEnd
  login_error : ℕ → LoginEnd

unfoldable pub is_denial : ℕ → Bool
is_denial status = status == 401 || status == 403 || status == 404

-- The end of the login that runs: everyone who waits is told the same.
unfoldable pub relogin_ended : LoginEnd → Client → Client
relogin_ended end c =
    let ended = record c { reauthing = false; logging_in = c.logging_in - 1; waiting = 0 } in
    if not c.reauthing then c else elim end [
      | login_ok token username ↦ record ended {
        token = some token;
        username = some username;
        told = tell c.waiting renewed c.told;
        auth_events = true ∷ c.auth_events;
      }
      | login_error status ↦
          if is_denial status
          then record ended {
            told = tell c.waiting denied c.told;
            auth_events = false ∷ c.auth_events;
          }
          else record ended { told = tell c.waiting unreachable c.told }
    ]
