-- ===== src/Presence/Since.antt =====
-- Whom client/js/app.js believes to be online, and how often it fetches what it missed.
use lattix.Prelude.{
  ◌≡◌, refl, ap, ◌∙◌, arith, Text, same, Bool, true, false, List, [], ◌∷◌, if◌then◌else◌, if-cases,
}
use lattix.Prelude.Dict
use lattix.Presence.{State, on_presence, set_connected, resync, resync_ends, on_status}

unfoldable pub presences : List (Text × Bool) → State → State
presences [] st = st
presences ((u, online) ∷ events) st = presences events (on_presence u online st)

-- The last that the events say of a user, or what was believed before.
unfoldable pub last_said : List (Text × Bool) → Text → Bool → Bool
last_said [] u before = before
last_said ((v, online) ∷ events) u before = last_said events u (if same v u then online else before)

on_presence-member :
    (st : State) (v u : Text) (online : Bool)
    → Dict.member (on_presence v online st).online u
      ≡ (if same v u then online else Dict.member st.online u)
unfolding on_presence
on_presence-member st v u true = Dict.member-add st.online v u ∙ ground arith
on_presence-member st v u false = Dict.member-remove st.online v u

presences-last_said :
    (events : List (Text × Bool)) (st : State) (u : Text)
    → Dict.member (presences events st).online u ≡ last_said events u (Dict.member st.online u)
unfolding presences last_said
presences-last_said [] st u = refl
presences-last_said ((v, online) ∷ events) st u =
    presences-last_said events (on_presence v online st) u
    ∙ ap (last_said events u) (on_presence-member st v u online)

nobody :
    (st : State) (reconnected : Bool) (u : Text)
    → Dict.member (on_status true reconnected (record st { connected = false })).online u ≡ false
unfolding on_status set_connected resync Dict.member
nobody st reconnected u =
    let P : State → Type 0 = λ s. Dict.member s.online u ≡ false in
    if-cases P reconnected (λ _. if-cases P st.resyncing (λ _. refl) (λ _. refl)) (λ _. refl)

-- After a connection came back, exactly those users are believed to be online of whom the relay has
-- since said so last, whatever was believed before the connection was lost.
pub online_since :
    (st : State) (reconnected : Bool) (events : List (Text × Bool)) (u : Text)
    → Dict.member
        (presences events (on_status true reconnected (record st { connected = false }))).online
        u
      ≡ last_said events u false
online_since st reconnected events u =
    presences-last_said events (on_status true reconnected (record st { connected = false })) u
    ∙ ap (last_said events u) (nobody st reconnected u)

-- A fetch is started only while none runs.
pub record IsFetching (st : State) : Type 0 where
  pub one : st.running ≡ (if st.resyncing then 1 else 0)

pub on_status-IsFetching :
    (st : State) (connected reconnected : Bool)
    → IsFetching st
    → IsFetching (on_status connected reconnected st)
unfolding on_status set_connected resync
on_status-IsFetching st connected reconnected h = record { one = ground (arith, h.one) }

pub resync_ends-IsFetching : (st : State) → IsFetching st → IsFetching (resync_ends st)
unfolding resync_ends
resync_ends-IsFetching st h = record { one = ground (arith, h.one) }
