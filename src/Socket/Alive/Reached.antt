-- ===== src/Socket/Alive/Reached.antt =====
-- The states that the WebSocket of client/js/api.js reaches from its start.
use native.Mathlib.Nat.{mul-le-mul_right}
use lattix.Prelude.{
  ℕ, ◌+◌, ◌≤◌, ◌<◌, ◌≡◌, refl, true, false, some, List, [], ◌∷◌, ◌==◌, arith, if-cases,
}
use lattix.Prelude.Ids.{member_id}
use lattix.Socket.{State, initial, Outside, has_session, delay_of, schedule_reconnect}
use lattix.Socket.Step.{
  Event, logs_in, connects, reconnects, returns, pings, readies, retries, answers, opens, receives,
  closes, relogs, checks, starts_logout, ends_logout, step, run,
}
use lattix.Socket.Alive.{are_past, current, is_trying, IsAlive}
use lattix.Socket.Alive.Handlers.{
  handle_close-IsAlive, on_open-IsAlive, on_message-IsAlive, check_done-IsAlive,
  ready_fires-IsAlive,
}
use lattix.Socket.Alive.Timers.{
  ping_tick-IsAlive, retry_fires-IsAlive, reconnect_now-IsAlive, connect_socket-IsAlive,
  on_return-IsAlive, logs_in-IsAlive, logout_begins-IsAlive, logout_ends-IsAlive,
}
use lattix.Socket.Alive.Waits.{relogin_done-IsAlive, health_done-IsAlive}

initial-IsAlive : IsAlive initial
unfolding initial are_past has_session member_id
initial-IsAlive = record {
  single = refl;
  at_least = omega arith;
  at_most = omega arith;
  watched = refl;
  signed_in = refl;
  past = refl;
  alone = refl;
  trying = refl;
}

step-IsAlive : (o : Outside) (e : Event) (st : State) → IsAlive st → IsAlive (step o e st)
unfolding step
step-IsAlive o (logs_in t) st h = logs_in-IsAlive o st h t
step-IsAlive o connects st h = connect_socket-IsAlive o st h
step-IsAlive o reconnects st h = reconnect_now-IsAlive o st h
step-IsAlive o returns st h = on_return-IsAlive o st h
step-IsAlive o pings st h = ping_tick-IsAlive o st h
step-IsAlive o readies st h = ready_fires-IsAlive o st h
step-IsAlive o retries st h = retry_fires-IsAlive o st h
step-IsAlive o (answers gen answer) st h =
    if-cases IsAlive (member_id st.health_waits gen) (λ m. health_done-IsAlive o st h gen m answer)
      (λ _. h)
step-IsAlive o (opens n) st h = on_open-IsAlive o st h n
step-IsAlive o (receives n frame) st h = on_message-IsAlive o st h n frame
step-IsAlive o (closes n code) st h = handle_close-IsAlive o st h n code
step-IsAlive o (relogs result) st h =
    if-cases IsAlive (st.relogins == 0) (λ _. h) (λ _. relogin_done-IsAlive o st h result)
step-IsAlive o (checks c) st h = check_done-IsAlive o st h c
step-IsAlive o starts_logout st h = logout_begins-IsAlive o st h
step-IsAlive o ends_logout st h = logout_ends-IsAlive o st h

run-IsAlive : (events : List (Outside × Event)) (st : State) → IsAlive st → IsAlive (run events st)
unfolding run
run-IsAlive [] st h = h
run-IsAlive ((o, e) ∷ events) st h = run-IsAlive events (step o e st) (step-IsAlive o e st h)

-- In every state that events in any order lead to from the start, while the app wants a connection,
-- has not logged out, and its last renewal was not denied, one of these is under way: a watched
-- socket that is connected or has its timer running, a retry timer, a request for the features by the
-- current attempt, or a renewal of the session.
pub never_stranded :
    (events : List (Outside × Event))
    → (run events initial).want_socket ≡ true
    → (run events initial).over ≡ false
    → (run events initial).refused ≡ false
    → is_trying (run events initial) ≡ true
never_stranded events w v r =
    ground (arith, (run-IsAlive events initial initial-IsAlive).trying, w, v, r)

-- In every state that events in any order lead to from the start, the connections that neither side
-- has closed are the current socket, or none where there is no current socket.
pub one_connection :
    (events : List (Outside × Event))
    → (run events initial).unclosed ≡ current (run events initial).ws
one_connection events = (run-IsAlive events initial initial-IsAlive).single

delay_of-bounds :
    (b r : ℕ)
    → 1000000 ≤ b
    → b ≤ 20000000
    → r < 1000
    → (800 ≤ delay_of b r) × (delay_of b r ≤ 24000)
unfolding delay_of
delay_of-bounds b r l u m =
    omega (arith, mul-le-mul_right (2000 + r) l, mul-le-mul_right (2000 + r) u)

-- In every state that events in any order lead to from the start, the next retry is set to a delay of
-- at least 0.8 and at most 24 seconds, whatever `Math.random()` returns.
pub retry_delay :
    (events : List (Outside × Event)) (o : Outside)
    → o.random < 1000
    → let d = delay_of (run events initial).backoff o.random in
      ((schedule_reconnect o (run events initial)).retry ≡ some d) × (800 ≤ d) × (d ≤ 24000)
unfolding schedule_reconnect
retry_delay events o r =
    let h = run-IsAlive events initial initial-IsAlive in
    let d = delay_of-bounds (run events initial).backoff o.random h.at_least h.at_most r in
    (refl, d.0, d.1)
