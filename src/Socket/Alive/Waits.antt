-- ===== src/Socket/Alive/Waits.antt =====
-- What `_openSocket` and `_handleClose` of client/js/api.js await keeps the invariant of the socket.
use lattix.Prelude.{
  ℕ, ◌-◌, ◌≡◌, Text, true, false, not, ◌||◌, Option, none, some, List, ◌∷◌, ◌==◌, arith, if-cases,
}
use lattix.Prelude.Ids.{member_id, remove_id, member_id-remove_id}
use lattix.Socket.{
  status, State, Outside, has_session, schedule_reconnect, new_socket, health_done, Relogin,
  renewed, denied, unreachable, relogin_done,
}
use lattix.Socket.Alive.{IsAlive, IsReady}
use lattix.Socket.Alive.Opening.{
  new_socket-IsAlive, schedule_reconnect-IsAlive, open_socket-IsAlive, are_past-remove_id,
}

module _ (o : Outside) (st : State) (h : IsAlive st) where
  pub relogin_done-IsAlive : (result : Relogin) → IsAlive (relogin_done o result st)
  unfolding relogin_done
  relogin_done-IsAlive (renewed t) =
      if-cases IsAlive st.want_socket
        (λ w.
          open_socket-IsAlive o
            (record st { relogins = st.relogins - 1; token = some t; backoff = 1000000 })
            (record {
              single = h.single;
              at_least = omega arith;
              at_most = omega arith;
              signed_in = unfold has_session in ground arith;
              past = ground (arith, h.past);
            }))
        (λ w. record {
          single = h.single;
          at_least = h.at_least;
          at_most = h.at_most;
          watched = h.watched;
          signed_in = ground arith;
          past = ground (arith, h.past);
          alone = ground (arith, h.alone);
          trying = ground arith;
        })
  relogin_done-IsAlive unreachable =
      if-cases IsAlive st.want_socket
        (λ w. record {
          single = unfold schedule_reconnect in h.single;
          at_least = unfold schedule_reconnect in ground (arith, h.at_least, h.at_most);
          at_most = unfold schedule_reconnect in ground (arith, h.at_least, h.at_most);
          watched = unfold schedule_reconnect in h.watched;
          signed_in = unfold schedule_reconnect in unfold has_session in h.signed_in;
          past = unfold schedule_reconnect in ground (arith, h.past);
          alone = unfold schedule_reconnect in ground (arith, h.alone);
          trying = unfold schedule_reconnect in ground arith;
        })
        (λ w. record {
          single = h.single;
          at_least = h.at_least;
          at_most = h.at_most;
          watched = h.watched;
          signed_in = ground arith;
          past = ground (arith, h.past);
          alone = ground (arith, h.alone);
          trying = ground arith;
        })
  relogin_done-IsAlive denied =
      if-cases IsAlive st.want_socket
        (λ w. record {
          single = h.single;
          at_least = h.at_least;
          at_most = h.at_most;
          watched = h.watched;
          signed_in = unfold has_session in h.signed_in;
          past = ground (arith, h.past);
          alone = ground (arith, h.alone);
          trying = ground arith;
        })
        (λ w. record {
          single = h.single;
          at_least = h.at_least;
          at_most = h.at_most;
          watched = h.watched;
          signed_in = ground arith;
          past = ground (arith, h.past);
          alone = ground (arith, h.alone);
          trying = ground arith;
        })

-- Only the call of the current generation goes on, and it finds no socket.
module _ (o : Outside) (st : State) (h : IsAlive st) (gen : ℕ)
    (m : member_id st.health_waits gen ≡ true) where
  learned : Option (List Text) → State
  learned f = record st { health_waits = remove_id st.health_waits gen; features = f }

  learned-IsReady : (f : Option (List Text)) → IsReady (learned f)
  unfolding learned has_session
  learned-IsReady f = record {
    single = h.single;
    at_least = h.at_least;
    at_most = h.at_most;
    signed_in = h.signed_in;
    past = are_past-remove_id st.gen st.health_waits gen h.past;
  }

  learned-IsAlive :
      (f : Option (List Text))
      → (not (gen == st.gen) || not (has_session st) || not st.want_socket) ≡ true
      → IsAlive (learned f)
  unfolding learned has_session
  learned-IsAlive f e = record {
    single = h.single;
    at_least = h.at_least;
    at_most = h.at_most;
    watched = h.watched;
    signed_in = h.signed_in;
    past = are_past-remove_id st.gen st.health_waits gen h.past;
    alone = ground (arith, h.alone, member_id-remove_id st.health_waits gen st.gen);
    trying = ground (arith, h.trying, h.signed_in, member_id-remove_id st.health_waits gen st.gen);
  }

  going_on-IsAlive :
      (f : Option (List Text))
      → (not (gen == st.gen) || not (has_session st) || not st.want_socket) ≡ false
      → IsAlive (elim f as (λ _. State) [
        | none ↦
            schedule_reconnect o (record (learned f) { emitted = status false false ∷ st.emitted })
        | some _ ↦ new_socket o (learned f)
      ])
  unfolding learned has_session
  going_on-IsAlive none e =
      schedule_reconnect-IsAlive o _
        (record {
          single = h.single;
          at_least = h.at_least;
          at_most = h.at_most;
          signed_in = h.signed_in;
          past = are_past-remove_id st.gen st.health_waits gen h.past;
        })
        (no_socket e)
    where
      no_socket :
          (not (gen == st.gen) || not (has_session st) || not st.want_socket) ≡ false → st.ws ≡ none
      no_socket e = ground (arith, h.alone, m, e)
  going_on-IsAlive (some fs) e =
      new_socket-IsAlive o (learned (some fs)) (learned-IsReady (some fs))
        (ground (arith, h.alone, m, e))
        (ground (arith, member_id-remove_id st.health_waits gen st.gen))

  pub health_done-IsAlive : (answer : Option (List Text)) → IsAlive (health_done o gen answer st)
  unfolding health_done learned
  health_done-IsAlive none =
      if-cases IsAlive (not (gen == st.gen) || not (has_session st) || not st.want_socket)
        (learned-IsAlive st.features) (going_on-IsAlive st.features)
  health_done-IsAlive (some fs) =
      if-cases IsAlive (not (gen == st.gen) || not (has_session st) || not st.want_socket)
        (learned-IsAlive (some fs)) (going_on-IsAlive (some fs))
