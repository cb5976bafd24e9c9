-- ===== src/Socket/Alive/Handlers.antt =====
-- The handlers of the socket in client/js/api.js keep its invariant.
use lattix.Prelude.{ℕ, ◌&&◌, ltb, arith, Bool-cases, inl, inr}
use lattix.Prelude.Ids.{remove_id}
use lattix.Socket.{
  Frame, State, Outside, is_ws, has_session, teardown, schedule_reconnect, mark_connected, on_open,
  on_message, handle_close, drop_socket,
}
use lattix.Socket.Watch.{check_alive, check_done, ready_fires}
use lattix.Socket.Alive.{IsAlive, IsReady}

module _ (o : Outside) (st : State) (h : IsAlive st) where
  pub IsAlive-IsReady : IsReady st
  IsAlive-IsReady = record {
    single = h.single;
    at_least = h.at_least;
    at_most = h.at_most;
    signed_in = h.signed_in;
    past = ground (arith, h.past);
  }

  pub mark_connected-IsAlive : IsAlive (mark_connected st)
  unfolding mark_connected has_session
  mark_connected-IsAlive = record {
    single = ground (arith, h.single);
    at_least = ground (arith, h.at_least);
    at_most = ground (arith, h.at_most);
    watched = ground (arith, h.watched);
    signed_in = ground (arith, h.signed_in);
    past = ground (arith, h.past);
    alone = ground (arith, h.alone);
    trying = ground (arith, h.trying, h.watched);
  }

  pub handle_close-IsAlive : (n code : ℕ) → IsAlive (handle_close o n code st)
  unfolding handle_close teardown is_ws remove_id has_session schedule_reconnect
  handle_close-IsAlive n code = record {
    single = ground (arith, h.single);
    at_least = ground (arith, h.at_least, h.at_most);
    at_most = ground (arith, h.at_least, h.at_most);
    watched = ground (arith, h.watched);
    signed_in = ground (arith, h.signed_in);
    past = ground (arith, h.past);
    alone = ground (arith, h.alone);
    trying = ground (arith, h.trying, h.signed_in);
  }

  pub drop_socket-IsAlive : (n : ℕ) → IsAlive (drop_socket o n st)
  unfolding drop_socket
  drop_socket-IsAlive n = elim (Bool-cases (is_ws st n)) [
    | inl e ↦ rw (e, drop_socket) (handle_close-IsAlive n 4000)
    | inr e ↦ rw (e, drop_socket) h
  ]

  pub on_open-IsAlive : (n : ℕ) → IsAlive (on_open o n st)
  unfolding on_open is_ws has_session mark_connected
  on_open-IsAlive n = record {
    single = ground (arith, h.single);
    at_least = ground (arith, h.at_least);
    at_most = ground (arith, h.at_most);
    watched = ground (arith, h.watched);
    signed_in = ground (arith, h.signed_in);
    past = ground (arith, h.past);
    alone = ground (arith, h.alone);
    trying = ground (arith, h.trying, h.watched);
  }

  pub on_message-IsAlive : (n : ℕ) (frame : Frame) → IsAlive (on_message o n frame st)
  unfolding on_message is_ws has_session mark_connected
  on_message-IsAlive n frame = record {
    single = ground (arith, h.single);
    at_least = ground (arith, h.at_least);
    at_most = ground (arith, h.at_most);
    watched = ground (arith, h.watched);
    signed_in = ground (arith, h.signed_in);
    past = ground (arith, h.past);
    alone = ground (arith, h.alone);
    trying = ground (arith, h.trying, h.watched);
  }

  pub ready_fires-IsAlive : IsAlive (ready_fires o st)
  unfolding ready_fires drop_socket handle_close teardown is_ws remove_id has_session
      schedule_reconnect
  ready_fires-IsAlive = record {
    single = ground (arith, h.single);
    at_least = ground (arith, h.at_least, h.at_most);
    at_most = ground (arith, h.at_least, h.at_most);
    watched = ground (arith, h.watched);
    signed_in = ground (arith, h.signed_in);
    past = ground (arith, h.past);
    alone = ground (arith, h.alone);
    trying = ground (arith, h.trying, h.signed_in, h.watched);
  }

  pub check_alive-IsAlive : IsAlive (check_alive o st)
  unfolding check_alive drop_socket handle_close teardown is_ws remove_id has_session
      schedule_reconnect
  check_alive-IsAlive = record {
    single = ground (arith, h.single);
    at_least = ground (arith, h.at_least, h.at_most);
    at_most = ground (arith, h.at_least, h.at_most);
    watched = ground (arith, h.watched);
    signed_in = ground (arith, h.signed_in);
    past = ground (arith, h.past);
    alone = ground (arith, h.alone);
    trying = ground (arith, h.trying, h.signed_in, h.watched);
  }

  pub check_done-IsAlive : (c : ℕ × ℕ) → IsAlive (check_done o c st)
  unfolding check_done
  check_done-IsAlive (n, sent) = elim (Bool-cases (is_ws st n && ltb st.last_seen sent)) [
    | inl e ↦ rw (e, check_done) (drop_socket-IsAlive n)
    | inr e ↦ rw (e, check_done) h
  ]
