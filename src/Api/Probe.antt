-- ===== src/Api/Probe.antt =====
-- The check of a relay in client/js/api.js, `probeRelay` and `probeSocket`, and the parts of
-- client/js/app.js that report and save its result.
use lattix.Prelude.{
  ℕ, ◌≡◌, refl, arith, if-cases, Bool-cases, inl, inr, same→eq, Text, codes, same, Bool, true,
  false, not, ◌&&◌, ◌||◌, Option, none, some, List, [], ◌∷◌, any, ◌==◌, if◌then◌else◌,
}
use lattix.Api.{is_ok, status_message}

pub data SocketState : Type 0 where
  socket_ok socket_failed socket_skipped : SocketState

pub data Problem : Type 0 where
  no_answer unreachable_relay no_health not_a_relay no_upgrade : Problem
  status_problem : Text → Problem

pub record Probe : Type 0 where
  pub ok : Bool
  pub version : Text
  pub features : List Text
  pub socket : SocketState
  pub problem : Option Problem

-- The body of `/api/health`: its status, version and features, where it is JSON and has them.
pub record Health : Type 0 where
  pub status : Text
  pub version : Option Text
  pub features : Option (List Text)

-- What `timedFetch` of `/api/health` gives: a failure (true for a timeout), or a status with the
-- `detail` of an error and the body.
pub data HealthAnswer : Type 0 where
  fetch_failed : Bool → HealthAnswer
  fetched : ℕ → Text → Option Health → HealthAnswer

-- What happens to the socket of the probe.
pub data SocketEvent : Type 0 where
  opens errs times_out : SocketEvent
  closes : ℕ → SocketEvent

-- `probeSocket`, which settles with the first event that says enough. At the end of the events, which
-- the timer is, it counts whether the socket was opened.
unfoldable pub probe_socket : Bool → List SocketEvent → Bool
probe_socket opened [] = opened
probe_socket opened (opens ∷ events) = probe_socket true events
probe_socket opened (times_out ∷ events) = opened
probe_socket opened (closes code ∷ events) = opened || code == 4401
probe_socket opened (errs ∷ events) =
    let rest = probe_socket opened events in if opened then rest else false

abbrev failed_probe : Problem → Probe
failed_probe problem = record {
  ok = false;
  version = [];
  features = [];
  socket = socket_skipped;
  problem = some problem;
}

abbrev version_of : Option Text → Text
version_of none = []
version_of (some v) = v

abbrev features_of : Option (List Text) → List Text
features_of none = []
features_of (some fs) = fs

-- `probeRelay` from a health body that is a relay's on; `creates` tells whether `new WebSocket` works.
unfoldable pub probe_upgrade : Bool → Bool → List SocketEvent → Health → Probe
probe_upgrade check_socket creates events health =
    let good : Probe = record {
      ok = true;
      version = version_of health.version;
      features = features_of health.features;
      socket = socket_skipped;
      problem = none;
    } in
    if not (check_socket && any (same (codes "ws-auth-message")) good.features)
    then good
    else if creates && probe_socket false events
    then record good { socket = socket_ok }
    else record good { socket = socket_failed; ok = false; problem = some no_upgrade }

unfoldable pub probe_relay : Bool → HealthAnswer → Bool → List SocketEvent → Probe
probe_relay check_socket (fetch_failed timeout) creates events =
    failed_probe (if timeout then no_answer else unreachable_relay)
probe_relay check_socket (fetched status detail body) creates events =
    if not (is_ok status)
    then failed_probe
        (if status == 404 then no_health else status_problem (status_message status detail))
    else elim body [
      | none ↦ failed_probe not_a_relay
      | some health ↦
          if not (same health.status (codes "ok"))
          then failed_probe not_a_relay
          else probe_upgrade check_socket creates events health
    ]

probe_upgrade-ok :
    (check_socket creates : Bool) (events : List SocketEvent) (health : Health)
    → (probe_upgrade check_socket creates events health).ok ≡ true
    → (not (check_socket && any (same (codes "ws-auth-message")) (features_of health.features))
        || (creates && probe_socket false events))
      ≡ true
unfolding probe_upgrade
probe_upgrade-ok check_socket creates events health =
    let goal : Type 0 =
      (not (check_socket && any (same (codes "ws-auth-message")) (features_of health.features))
        || (creates && probe_socket false events))
      ≡ true in
    if-cases (λ (p : Probe). p.ok ≡ true → goal)
      (not (check_socket && any (same (codes "ws-auth-message")) (features_of health.features)))
      (λ e _. ground (arith, e))
      (λ _.
        if-cases (λ (p : Probe). p.ok ≡ true → goal) (creates && probe_socket false events)
          (λ e _. ground (arith, e)) (λ _ h. ground (arith, h)))

body_ok :
    (check_socket creates : Bool) (status : ℕ) (detail : Text) (events : List SocketEvent)
    (health : Health)
    → (probe_relay check_socket (fetched status detail (some health)) creates events).ok ≡ true
    → (is_ok status ≡ true)
      × (health.status ≡ codes "ok")
      × ((not (check_socket && any (same (codes "ws-auth-message")) (features_of health.features))
            || (creates && probe_socket false events))
          ≡ true)
unfolding probe_relay
body_ok check_socket creates status detail events health =
    let goal : Type 0 =
      (is_ok status ≡ true)
      × (health.status ≡ codes "ok")
      × ((not (check_socket && any (same (codes "ws-auth-message")) (features_of health.features))
            || (creates && probe_socket false events))
          ≡ true) in
    if-cases (λ (p : Probe). p.ok ≡ true → goal) (not (is_ok status)) (λ _ h. ground (arith, h))
      (λ fine.
        if-cases (λ (p : Probe). p.ok ≡ true → goal) (not (same health.status (codes "ok")))
          (λ _ h. ground (arith, h))
          (λ relays h. (
            ground (arith, fine),
            same→eq health.status (codes "ok") (ground (arith, relays)),
            probe_upgrade-ok check_socket creates events health h,
          )))

-- A probe says that a relay is fine only if it answered with a success and a body whose status is
-- "ok", and, where the socket is checked and the relay takes the token in the first frame, a socket
-- could be created and was opened, or was closed with 4401.
pub probe_relay-ok :
    (check_socket creates : Bool) (answer : HealthAnswer) (events : List SocketEvent)
    → (probe_relay check_socket answer creates events).ok ≡ true
    → (status : ℕ) × (detail : Text) × (health : Health) × (answer
        ≡ fetched status detail (some health))
      × (is_ok status ≡ true)
      × (health.status ≡ codes "ok")
      × ((not (check_socket && any (same (codes "ws-auth-message")) (features_of health.features))
            || (creates && probe_socket false events))
          ≡ true)
unfolding probe_relay
probe_relay-ok check_socket creates (fetch_failed timeout) events h = ground (arith, h)
probe_relay-ok check_socket creates (fetched status detail none) events h =
    elim (Bool-cases (is_ok status)) [ inl e ↦ ground (arith, h, e) | inr e ↦ ground (arith, h, e) ]
probe_relay-ok check_socket creates (fetched status detail (some health)) events h =
    let (fine, relays, works) = body_ok check_socket creates status detail events health h in
    (status, detail, health, refl, fine, relays, works)
