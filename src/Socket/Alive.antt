-- ===== src/Socket/Alive.antt =====
-- The invariant of the WebSocket of client/js/api.js: one connection at most, and something under
-- way for as long as the app wants a connection.
pub mod Opening
pub mod Handlers
pub mod Timers
pub mod Waits
pub mod Reached
use lattix.Prelude.{
  ℕ, zero, suc, ◌+◌, ◌-◌, ◌*◌, ◌/◌, ◌≤◌, ◌<◌, ◌≡◌, refl, min, Text, codes, same, Bool, true, false,
  not, ◌&&◌, ◌||◌, Option, none, some, List, [], ◌∷◌, All, any, ltb, leb, ◌==◌, ==_iff,
  if◌then◌else◌, arith, if-cases, Bool-cases, Option-cases, inl, inr, ◌⊎◌,
}
use lattix.Prelude.Ids.{member_id, remove_id}
use lattix.Socket.{
  Emitted, status, Frame, ready, pong, garbled, other, pushed, State, initial, Outside, has_feature,
  is_ws, has_session, teardown, close_socket, delay_of, schedule_reconnect, new_socket, open_socket,
  health_done, mark_connected, on_open, on_message, handle_close, drop_socket, Relogin, renewed,
  denied, unreachable, relogin_done,
}
use lattix.Socket.Watch.{
  supports_pong, ping_tick, check_alive, check_done, ready_fires, retry_fires, connect_socket,
  reconnect_now, on_return, logout_begins, logout_ends,
}

-- No number of the list exceeds the first.
unfoldable pub are_past : ℕ → List ℕ → Bool
are_past n [] = true
are_past n (g ∷ gs) = leb g n && are_past n gs

abbrev pub current : Option ℕ → List ℕ
current none = []
current (some n) = n ∷ []

-- A socket is there that the interval watches, and it is connected or its timer runs.
abbrev pub is_watched : State → Bool
is_watched st = elim st.ws [
  | none ↦ false
  | some n ↦ st.pinging && (st.connected || elim st.ready_timer [ none ↦ false | some m ↦ m == n ])
]

abbrev pub is_some : Option ℕ → Bool
is_some none = false
is_some (some _) = true

-- Something is under way that leads to a connection or to another attempt.
abbrev pub is_trying : State → Bool
is_trying st =
    is_watched st || is_some st.retry || member_id st.health_waits st.gen || not (st.relogins == 0)

pub record IsAlive (st : State) : Type 0 where
  pub single : st.unclosed ≡ current st.ws
  pub at_least : 1000000 ≤ st.backoff
  pub at_most : st.backoff ≤ 20000000
  pub watched : not (is_some st.ws) || is_watched st ≡ true
  pub signed_in : not st.want_socket || st.over || has_session st ≡ true
  pub past : are_past st.gen st.health_waits ≡ true
  pub alone : not (member_id st.health_waits st.gen) || not (is_some st.ws) ≡ true
  pub trying : not st.want_socket || st.over || st.refused || is_trying st ≡ true

-- The part that a new attempt needs.
pub record IsReady (st : State) : Type 0 where
  pub single : st.unclosed ≡ current st.ws
  pub at_least : 1000000 ≤ st.backoff
  pub at_most : st.backoff ≤ 20000000
  pub signed_in : not st.want_socket || st.over || has_session st ≡ true
  pub past : are_past st.gen st.health_waits ≡ true
