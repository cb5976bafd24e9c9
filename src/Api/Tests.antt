-- ===== src/Api/Tests.antt =====
-- The theorems about requests of client/js/api.js at concrete inputs.
use lattix.Prelude.{
  if◌then◌else◌, ◌||◌, ◌==◌, length, List, ◌∷◌, ℕ, zero, suc, ◌+◌, ◌≤◌, ◌<◌, ◌≡◌, refl, Text, codes,
  same, true, false, some, [], arith,
}
use lattix.Api.{
  get, post, Answer, failed, answered, session, Exchange, Outcome, returned, Loop, attempts_of,
  is_ok, is_retry_status, is_auth_path, relogin, round, rounds, request,
}
use lattix.Api.Bounds.{request-bounded}
use lattix.Api.Outcomes.{outcome_of, is_transient, write_resent_after_401, read_survives}
use lattix.Api.Session.{login_ok}
use lattix.Api.SingleFlight.{
  SessionEvent, calls_relogin, ends_login, session_run, fresh_client, relogin_single_flight,
}

abbrev plain : Answer → Exchange
plain a = record { answer = a; token_then = some (codes "t"); login = session (codes "u") }

-- A relay that restarts: two answers are lost, and then it works.
abbrev restarting : ℕ → Exchange
restarting zero = plain (answered 503 [] [])
restarting (suc zero) = plain (failed true)
restarting (suc (suc n)) = plain (answered 200 (codes "me") [])

-- A relay that has forgotten the session.
abbrev forgetful : ℕ → Exchange
forgetful zero = plain (answered 401 [] (codes "Invalid token"))
forgetful (suc n) = plain (answered 200 (codes "sent") [])

request-bounded_example :
    (o : Outcome) × (l : Loop) × (request get (codes "/api/me") (some (codes "t")) restarting
      ≡ some (o, l))
    × (l.sent ≤ attempts_of get + 1)
    × (l.logins ≤ 1)
request-bounded_example = request-bounded get (codes "/api/me") (some (codes "t")) restarting

abbrev resent : Loop
resent = record {
  attempt = 0;
  reauthed = true;
  token = some (codes "t");
  sent = 2;
  logins = 1;
  slept = 0;
}

runs :
    request post (codes "/api/messages") (some (codes "t")) forgetful
    ≡ some (returned (codes "sent"), resent)
unfolding request rounds round attempts_of is_ok is_retry_status is_auth_path relogin same
runs = refl

write_resent_after_401_example :
    (is_auth_path (codes "/api/messages") ≡ false)
    × (value : Text) × (detail : Text) × (answered 401 [] (codes "Invalid token")
        ≡ answered 401 value detail)
write_resent_after_401_example =
    write_resent_after_401 post (codes "/api/messages") (some (codes "t")) forgetful
      (returned (codes "sent")) resent (λ e. absurd (cc)) runs (omega arith)

early : (i : ℕ) → i < 2 → is_transient (restarting i).answer ≡ true
unfolding is_retry_status
early zero h = refl
early (suc zero) h = refl
early (suc (suc n)) h = absurd (omega arith)

read_survives_example :
    (l : Loop) × (request get (codes "/api/me") (some (codes "t")) restarting
      ≡ some (outcome_of (restarting 2).answer, l))
    × (l.sent ≡ 3)
unfolding is_retry_status
read_survives_example =
    read_survives (codes "/api/me") (some (codes "t")) restarting 2 (omega arith) early refl refl

-- Two callers share a login, and a third one starts another.
abbrev three_calls : List SessionEvent
three_calls =
    calls_relogin
    ∷ calls_relogin
    ∷ ends_login (login_ok (codes "t") (codes "anna"))
    ∷ calls_relogin
    ∷ []

relogin_single_flight_example :
    let c = session_run three_calls (fresh_client true) in
    (c.logging_in ≡ (if c.reauthing then 1 else 0))
    × (c.calls ≡ c.waiting + length c.told)
    × (c.logging_in == 1 || c.waiting == 0 ≡ true)
relogin_single_flight_example = relogin_single_flight true three_calls
