-- ===== src/Socket/Watch.antt =====
-- The timers of the WebSocket in client/js/api.js, its watchdog, and the calls that open and end it.
use lattix.Prelude.{
  ℕ, ◌-◌, codes, Bool, true, false, not, ◌&&◌, ◌||◌, none, some, ◌∷◌, ltb, ◌==◌, if◌then◌else◌,
}
use lattix.Socket.{
  State, Outside, has_feature, is_ws, has_session, close_socket, open_socket, drop_socket,
}

unfoldable pub supports_pong : State → Bool
supports_pong st = has_feature (codes "ws-pong") st.features

-- One tick of the interval.
unfoldable pub ping_tick : Outside → State → State
ping_tick o st = elim st.ws [
  | none ↦ st
  | some n ↦
      if not st.pinging || not st.opened
      then st
      else if supports_pong st
          && st.connected
          && not (st.ping_sent_at == 0)
          && ltb st.last_seen st.ping_sent_at
          && ltb 10000 (o.now - st.ping_sent_at)
      then drop_socket o n st
      else if o.sends
      then record st { ping_sent_at = o.now }
      else st
]

-- `_checkAlive`
unfoldable pub check_alive : Outside → State → State
check_alive o st = elim st.ws [
  | none ↦ st
  | some n ↦
      if not st.opened || not (supports_pong st)
      then st
      else if o.sends
      then record st { checks = (n, o.now) ∷ st.checks }
      else drop_socket o n st
]

-- The end of its timer, which captured the socket and the time of the ping.
unfoldable pub check_done : Outside → ℕ × ℕ → State → State
check_done o (n, sent) st = if is_ws st n && ltb st.last_seen sent then drop_socket o n st else st

unfoldable pub ready_fires : Outside → State → State
ready_fires o st = elim st.ready_timer [
  | none ↦ st
  | some n ↦
      let fired = record st { ready_timer = none } in
      if is_ws st n && not st.connected then drop_socket o n fired else fired
]

unfoldable pub retry_fires : Outside → State → State
retry_fires o st = elim st.retry [
  | none ↦ st
  | some _ ↦
      let fired = record st { retry = none } in
      if st.want_socket then open_socket o fired else fired
]

unfoldable pub connect_socket : Outside → State → State
connect_socket o st =
    if not (has_session st) then st else open_socket o (record st { want_socket = true })

unfoldable pub reconnect_now : Outside → State → State
reconnect_now o st =
    if not (has_session st)
    then st
    else open_socket o (record st { retry = none; backoff = 1000000; want_socket = true })

-- The network comes back, or the page becomes visible.
unfoldable pub on_return : Outside → State → State
on_return o st =
    if not st.want_socket then st else if st.connected then check_alive o st else reconnect_now o st

-- `logout` up to its `await`, and from there on.
unfoldable pub logout_begins : State → State
logout_begins st = record st { want_socket = false }

unfoldable pub logout_ends : State → State
logout_ends st = record (close_socket st) { token = none; over = true }
