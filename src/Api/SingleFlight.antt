-- ===== src/Api/SingleFlight.antt =====
-- `_relogin` of client/js/api.js under any number of callers.
use lattix.Prelude.{
  ℕ, zero, suc, ◌+◌, ◌≡◌, refl, arith, Text, Bool, true, false, not, ◌||◌, Option, none, some, List,
  [], ◌∷◌, length, ◌==◌, if◌then◌else◌, if-cases,
}
use lattix.Api.{Renewal, renewed, denied, unreachable}
use lattix.Api.Session.{
  Client, set_session, login_answered, health_answered, logged_out, relogin_called, tell, LoginEnd,
  is_denial, relogin_ended, login_ok, login_error,
}

-- At most one login runs, exactly while one is recorded, nobody waits for none, and every call of
-- `_relogin` waits or has been told a result.
pub record IsSingle (c : Client) : Type 0 where
  pub running : c.logging_in ≡ (if c.reauthing then 1 else 0)
  pub awaited : c.reauthing || c.waiting == 0 ≡ true
  pub accounted : c.calls ≡ c.waiting + length c.told

length-tell : (n : ℕ) (r : Renewal) (told : List Renewal) → length (tell n r told) ≡ n + length told
unfolding tell
length-tell zero r told = omega arith
length-tell (suc n) r told = omega (arith, length-tell n r told)

pub relogin_called-IsSingle : (c : Client) → IsSingle c → IsSingle (relogin_called c)
unfolding relogin_called
relogin_called-IsSingle c h = record {
  running = ground (arith, h.running);
  awaited = ground (arith, h.awaited);
  accounted = ground (arith, h.accounted);
}

pub relogin_ended-IsSingle :
    (end : LoginEnd) (c : Client) → IsSingle c → IsSingle (relogin_ended end c)
unfolding relogin_ended
relogin_ended-IsSingle (login_ok token username) c h =
    if-cases IsSingle (not c.reauthing) (λ _. h)
      (λ r. record {
        running = ground (arith, h.running, r);
        awaited = refl;
        accounted = ground (arith, h.accounted, length-tell c.waiting renewed c.told);
      })
relogin_ended-IsSingle (login_error status) c h =
    if-cases IsSingle (not c.reauthing) (λ _. h)
      (λ r.
        if-cases IsSingle (is_denial status)
          (λ _. record {
            running = ground (arith, h.running, r);
            awaited = refl;
            accounted = ground (arith, h.accounted, length-tell c.waiting denied c.told);
          })
          (λ _. record {
            running = ground (arith, h.running, r);
            awaited = refl;
            accounted = ground (arith, h.accounted, length-tell c.waiting unreachable c.told);
          }))

pub data SessionEvent : Type 0 where
  calls_relogin : SessionEvent
  ends_login : LoginEnd → SessionEvent
  answers_login : Option (Text × Text) → SessionEvent
  answers_health : Option (Option (List Text)) → SessionEvent
  logs_out : SessionEvent

unfoldable pub session_step : SessionEvent → Client → Client
session_step calls_relogin c = relogin_called c
session_step (ends_login end) c = relogin_ended end c
session_step (answers_login answer) c = login_answered answer c
session_step (answers_health answer) c = health_answered answer c
session_step logs_out c = logged_out c

unfoldable pub session_run : List SessionEvent → Client → Client
session_run [] c = c
session_run (e ∷ events) c = session_run events (session_step e c)

session_step-IsSingle : (e : SessionEvent) (c : Client) → IsSingle c → IsSingle (session_step e c)
unfolding session_step login_answered set_session health_answered logged_out
session_step-IsSingle calls_relogin c h = relogin_called-IsSingle c h
session_step-IsSingle (ends_login end) c h = relogin_ended-IsSingle end c h
session_step-IsSingle (answers_login none) c h = h
session_step-IsSingle (answers_login (some (token, username))) c h = record {
  running = h.running;
  awaited = h.awaited;
  accounted = h.accounted;
}
session_step-IsSingle (answers_health none) c h = h
session_step-IsSingle (answers_health (some none)) c h = record {
  running = h.running;
  awaited = h.awaited;
  accounted = h.accounted;
}
session_step-IsSingle (answers_health (some (some features))) c h = record {
  running = h.running;
  awaited = h.awaited;
  accounted = h.accounted;
}
session_step-IsSingle logs_out c h = record {
  running = h.running;
  awaited = h.awaited;
  accounted = h.accounted;
}

session_run-IsSingle :
    (events : List SessionEvent) (c : Client) → IsSingle c → IsSingle (session_run events c)
unfolding session_run
session_run-IsSingle [] c h = h
session_run-IsSingle (e ∷ events) c h =
    session_run-IsSingle events (session_step e c) (session_step-IsSingle e c h)

abbrev pub fresh_client : Bool → Client
fresh_client reauth = record {
  token = none;
  username = none;
  features = none;
  reauth = reauth;
  reauthing = false;
  logging_in = 0;
  waiting = 0;
  calls = 0;
  told = [];
  auth_events = [];
}

-- However calls of `_relogin`, answers and logouts follow each other from the start: a single login
-- runs while `_reauthing` is set and none while it is not, every call of `_relogin` either waits or has
-- been told a result, once, and one waits only while a login runs.
pub relogin_single_flight :
    (reauth : Bool) (events : List SessionEvent)
    → let c = session_run events (fresh_client reauth) in
      (c.logging_in ≡ (if c.reauthing then 1 else 0))
      × (c.calls ≡ c.waiting + length c.told)
      × (c.logging_in == 1 || c.waiting == 0 ≡ true)
relogin_single_flight reauth events =
    let h =
      session_run-IsSingle events (fresh_client reauth)
        (record { running = refl; awaited = refl; accounted = refl }) in
    (h.running, h.accounted, ground (arith, h.running, h.awaited))
