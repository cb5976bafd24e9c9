-- ===== src/Socket/Alive/Timers.antt =====
-- The timers of client/js/api.js, and the calls of the app, keep the invariant of the socket.
use lattix.Prelude.{
  ◌≡◌, Text, false, not, none, some, arith, if-cases, Bool-cases, Option-cases, inl, inr,
}
use lattix.Prelude.Ids.{remove_id}
use lattix.Socket.{
  State, Outside, has_feature, is_ws, has_session, teardown, close_socket, schedule_reconnect,
  handle_close, drop_socket,
}
use lattix.Socket.Watch.{
  supports_pong, ping_tick, retry_fires, connect_socket, reconnect_now, on_return, logout_begins,
  logout_ends,
}
use lattix.Socket.Alive.{IsAlive, IsReady}
use lattix.Socket.Alive.Opening.{open_socket-IsAlive}
use lattix.Socket.Alive.Handlers.{check_alive-IsAlive}

module _ (o : Outside) (st : State) (h : IsAlive st) where
  pub ping_tick-IsAlive : IsAlive (ping_tick o st)
  unfolding ping_tick supports_pong has_feature drop_socket handle_close teardown is_ws remove_id
      has_session schedule_reconnect
  ping_tick-IsAlive = record {
    single = ground (arith, h.single);
    at_least = ground (arith, h.at_least, h.at_most);
    at_most = ground (arith, h.at_least, h.at_most);
    watched = ground (arith, h.watched);
    signed_in = ground (arith, h.signed_in);
    past = ground (arith, h.past);
    alone = ground (arith, h.alone);
    trying = ground (arith, h.trying, h.signed_in, h.watched);
  }

  pub retry_fires-IsAlive : IsAlive (retry_fires o st)
  unfolding retry_fires has_session
  retry_fires-IsAlive = elim (Option-cases st.retry) [
    | inl e ↦ rw (e, retry_fires) h
    | inr (d, e) ↦
        rw (e, retry_fires)
          (if-cases IsAlive st.want_socket (λ w. open_socket-IsAlive o fired fired_ready)
            fired_alive)
  ]
    where
      fired : State
      fired = record st { retry = none }

      fired_ready : IsReady fired
      fired_ready = record {
        single = h.single;
        at_least = h.at_least;
        at_most = h.at_most;
        signed_in = h.signed_in;
        past = ground (arith, h.past);
      }

      fired_alive : st.want_socket ≡ false → IsAlive fired
      fired_alive w = record {
        single = h.single;
        at_least = h.at_least;
        at_most = h.at_most;
        watched = h.watched;
        signed_in = h.signed_in;
        past = ground (arith, h.past);
        alone = ground (arith, h.alone);
        trying = ground arith;
      }

  pub reconnect_now-IsAlive : IsAlive (reconnect_now o st)
  unfolding reconnect_now has_session
  reconnect_now-IsAlive = elim (Bool-cases (has_session st)) [
    | inl e ↦
        rw (e, reconnect_now)
          (open_socket-IsAlive o _ (record {
            single = h.single;
            at_least = omega arith;
            at_most = omega arith;
            signed_in = ground arith;
            past = ground (arith, h.past);
          }))
    | inr e ↦ rw (e, reconnect_now) h
  ]

  pub connect_socket-IsAlive : IsAlive (connect_socket o st)
  unfolding connect_socket has_session
  connect_socket-IsAlive = elim (Bool-cases (has_session st)) [
    | inl e ↦
        rw (e, connect_socket)
          (open_socket-IsAlive o _ (record {
            single = h.single;
            at_least = h.at_least;
            at_most = h.at_most;
            signed_in = ground arith;
            past = ground (arith, h.past);
          }))
    | inr e ↦ rw (e, connect_socket) h
  ]

  pub on_return-IsAlive : IsAlive (on_return o st)
  unfolding on_return
  on_return-IsAlive =
      if-cases IsAlive (not st.want_socket) (λ _. h)
        (λ _.
          if-cases IsAlive st.connected (λ _. check_alive-IsAlive o st h)
            (λ _. reconnect_now-IsAlive))

  pub logs_in-IsAlive : (t : Text) → IsAlive (record st { token = some t })
  unfolding has_session
  logs_in-IsAlive t = record {
    single = h.single;
    at_least = h.at_least;
    at_most = h.at_most;
    watched = h.watched;
    signed_in = ground arith;
    past = ground (arith, h.past);
    alone = ground (arith, h.alone);
    trying = h.trying;
  }

  pub logout_begins-IsAlive : IsAlive (logout_begins st)
  unfolding logout_begins
  logout_begins-IsAlive = record {
    single = h.single;
    at_least = h.at_least;
    at_most = h.at_most;
    watched = h.watched;
    signed_in = ground arith;
    past = ground (arith, h.past);
    alone = ground (arith, h.alone);
    trying = ground arith;
  }

  pub logout_ends-IsAlive : IsAlive (logout_ends st)
  unfolding logout_ends close_socket teardown remove_id
  logout_ends-IsAlive = record {
    single = ground (arith, h.single);
    at_least = ground (arith, h.at_least);
    at_most = ground (arith, h.at_most);
    watched = ground arith;
    signed_in = ground arith;
    past = ground (arith, h.past);
    alone = ground (arith, h.alone);
    trying = ground arith;
  }
