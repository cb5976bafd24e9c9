-- ===== src/Socket/Step.antt =====
-- The events of the WebSocket in client/js/api.js as the steps of a state machine.
use lattix.Prelude.{ℕ, Text, Option, some, List, [], ◌∷◌, ◌==◌, if◌then◌else◌}
use lattix.Prelude.Ids.{member_id}
use lattix.Socket.{
  State, Outside, Frame, Relogin, health_done, on_open, on_message, handle_close, relogin_done,
}
use lattix.Socket.Watch.{
  ping_tick, check_done, ready_fires, retry_fires, connect_socket, reconnect_now, on_return,
  logout_begins, logout_ends,
}

-- `logs_in` is the session that `login`, `register` or a renewal of a request sets.
pub data Event : Type 0 where
  logs_in : Text → Event
  connects reconnects returns pings readies retries : Event
  answers : ℕ → Option (List Text) → Event
  opens : ℕ → Event
  receives : ℕ → Frame → Event
  closes : ℕ → ℕ → Event
  relogs : Relogin → Event
  checks : ℕ × ℕ → Event
  starts_logout ends_logout : Event

unfoldable pub step : Outside → Event → State → State
step o (logs_in t) st = record st { token = some t }
step o connects st = connect_socket o st
step o reconnects st = reconnect_now o st
step o returns st = on_return o st
step o pings st = ping_tick o st
step o readies st = ready_fires o st
step o retries st = retry_fires o st
step o (answers gen answer) st =
    if member_id st.health_waits gen then health_done o gen answer st else st
step o (opens n) st = on_open o n st
step o (receives n frame) st = on_message o n frame st
step o (closes n code) st = handle_close o n code st
step o (relogs result) st = if st.relogins == 0 then st else relogin_done o result st
step o (checks c) st = check_done o c st
step o starts_logout st = logout_begins st
step o ends_logout st = logout_ends st

unfoldable pub run : List (Outside × Event) → State → State
run [] st = st
run ((o, e) ∷ events) st = run events (step o e st)
