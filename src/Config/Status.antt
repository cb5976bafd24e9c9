-- ===== src/Config/Status.antt =====
-- What client/js/app.js tells of the relay: the light on the sign-in screen, the report of a test, and
-- what is to follow when the dialog is dismissed.
use lattix.Prelude.{
  ℕ, ◌+◌, ◌≡◌, ◌≢◌, refl, ap, ◌∙◌, arith, Text, codes, same, Option, none, some, List, [], ◌∷◌,
  ◌++◌, All, not, ◌==◌, if◌then◌else◌,
}
use lattix.Config.{Page, is_extension, is_local_host, default_server}
use lattix.Api.Probe.{Probe, Problem, SocketState, socket_ok}

pub data Light : Type 0 where
  checking unreachable : Light
  online : ℕ → Light

-- `_authProbe`, the number of the last check, and what is shown.
pub record Status : Type 0 where
  pub probe : ℕ
  pub shown : Light

-- `refreshAuthRelay` up to its `await`, and the rest: the number of the check, and its latency where
-- the relay answered.
unfoldable pub refresh_begins : Status → Status
refresh_begins st = record { probe = st.probe + 1; shown = checking }

unfoldable pub light_of : Option ℕ → Light
light_of none = unreachable
light_of (some latency) = online latency

unfoldable pub refresh_ends : ℕ × Option ℕ → Status → Status
refresh_ends (call, found) st =
    if call == st.probe then record st { shown = light_of found } else st

unfoldable pub all_end : List (ℕ × Option ℕ) → Status → Status
all_end [] st = st
all_end (answer ∷ answers) st = all_end answers (refresh_ends answer st)

abbrev Others : ℕ → List (ℕ × Option ℕ) → Type 0
Others probe = All (λ a. a.0 ≢ probe)

all_end-Others :
    (answers : List (ℕ × Option ℕ)) (st : Status)
    → Others st.probe answers
    → all_end answers st ≡ st
unfolding all_end refresh_ends
all_end-Others [] st h = refl
all_end-Others (a ∷ answers) st h =
    let unchanged : refresh_ends a st ≡ st = ground (arith, h.0) in
    ap (all_end answers) unchanged ∙ all_end-Others answers st h.1

all_end-append :
    (answers more : List (ℕ × Option ℕ)) (st : Status)
    → all_end (answers ++ more) st ≡ all_end more (all_end answers st)
unfolding all_end
all_end-append [] more st = refl
all_end-append (a ∷ answers) more st = all_end-append answers more (refresh_ends a st)

-- Whatever checks of before are still answered, and in whatever order, the light is that of the last
-- check once it is answered.
pub shown-last :
    (early late : List (ℕ × Option ℕ)) (st : Status) (found : Option ℕ)
    → let begun = refresh_begins st in
      Others begun.probe early
      → Others begun.probe late
      → (all_end (early ++ (begun.probe, found) ∷ late) begun).shown ≡ light_of found
unfolding all_end refresh_ends refresh_begins
shown-last early late st found h k =
    let begun = refresh_begins st in
    let lit : Status = record begun { shown = light_of found } in
    let answer : refresh_ends (begun.probe, found) begun ≡ lit = ground arith in
    ap (λ s. s.shown)
      (all_end-append early ((begun.probe, found) ∷ late) begun
        ∙ ap (all_end ((begun.probe, found) ∷ late)) (all_end-Others early begun h)
        ∙ ap (all_end late) answer
        ∙ all_end-Others late lit k)

-- The report of `testServer`; a line that is empty is left out.
pub data Level : Type 0 where
  good warning bad : Level

pub data Line : Type 0 where
  problem : Problem → Line
  relay : Text → Line
  latency : ℕ → Line
  upgrades_work upgrades_unchecked : Line

pub record Report : Type 0 where
  pub level : Level
  pub lines : List Line

unfoldable pub socket_level : SocketState → Level
socket_level socket_ok = good
socket_level _ = warning

unfoldable pub socket_line : SocketState → Line
socket_line socket_ok = upgrades_work
socket_line _ = upgrades_unchecked

unfoldable pub test_report : Probe → ℕ → Report
test_report r ms =
    if not r.ok
    then record { level = bad; lines = elim r.problem [ none ↦ [] | some p ↦ problem p ∷ [] ] }
    else record {
      level = socket_level r.socket;
      lines =
          relay (if same r.version [] then codes "relay" else r.version)
          ∷ latency ms
          ∷ socket_line r.socket
          ∷ [];
    }

-- `defaultRelayDescription`
pub data DefaultRelay : Type 0 where
  server_at : Text → DefaultRelay
  built_in loaded_from : DefaultRelay

unfoldable pub default_relay : Page → Text → DefaultRelay
default_relay page hostname =
    if is_extension page
    then server_at (default_server page)
    else if is_local_host hostname
    then built_in
    else loaded_from

-- `_serverAfterClose`: what the dialog was opened with is run when it is dismissed, and only once.
unfoldable pub dismissed {ℓ} : {A : Type ℓ} → Option A → Option A × Option A
dismissed after = (none, after)
