-- ===== src/Socket/Alive/Opening.antt =====
-- `_openSocket` and `_scheduleReconnect` of client/js/api.js lead to a state of the invariant.
use lattix.Prelude.{
  ℕ, ◌+◌, ◌≡◌, refl, true, false, none, List, [], ◌∷◌, arith, Bool-cases, Option-cases, inl, inr,
}
use lattix.Prelude.Ids.{member_id, remove_id}
use lattix.Socket.{
  State, Outside, has_session, teardown, close_socket, schedule_reconnect, new_socket, open_socket,
}
use lattix.Socket.Alive.{are_past, IsAlive, IsReady}

are_past-suc : (n : ℕ) (gs : List ℕ) → are_past n gs ≡ true → are_past (n + 1) gs ≡ true
unfolding are_past
are_past-suc n [] h = refl
are_past-suc n (g ∷ gs) h = ground (arith, h, are_past-suc n gs)

are_past-cons : (n : ℕ) (gs : List ℕ) → are_past n gs ≡ true → are_past n (n ∷ gs) ≡ true
unfolding are_past
are_past-cons n gs h = ground (arith, h)

not_member : (n : ℕ) (gs : List ℕ) → are_past n gs ≡ true → member_id gs (n + 1) ≡ false
unfolding are_past member_id
not_member n [] h = refl
not_member n (g ∷ gs) h = ground (arith, h, not_member n gs)

pub are_past-remove_id :
    (n : ℕ) (gs : List ℕ) (a : ℕ) → are_past n gs ≡ true → are_past n (remove_id gs a) ≡ true
unfolding are_past remove_id
are_past-remove_id n [] a h = refl
are_past-remove_id n (g ∷ gs) a h = ground (arith, h, are_past-remove_id n gs a)

module _ (o : Outside) (st : State) (h : IsReady st) where
  pub new_socket-IsAlive :
      st.ws ≡ none → member_id st.health_waits st.gen ≡ false → IsAlive (new_socket o st)
  unfolding new_socket schedule_reconnect has_session
  new_socket-IsAlive e m = record {
    single = ground (arith, h.single);
    at_least = ground (arith, h.at_least, h.at_most);
    at_most = ground (arith, h.at_least, h.at_most);
    watched = ground arith;
    signed_in = ground (arith, h.signed_in);
    past = ground (arith, h.past);
    alone = ground arith;
    trying = ground arith;
  }

  pub schedule_reconnect-IsAlive : st.ws ≡ none → IsAlive (schedule_reconnect o st)
  unfolding schedule_reconnect has_session
  schedule_reconnect-IsAlive e = record {
    single = ground (arith, h.single);
    at_least = ground (arith, h.at_least, h.at_most);
    at_most = ground (arith, h.at_least, h.at_most);
    watched = ground arith;
    signed_in = ground (arith, h.signed_in);
    past = h.past;
    alone = ground (arith, e);
    trying = ground arith;
  }

  closed : State
  closed = record (close_socket st) { gen = st.gen + 1; refused = false }

  closed-IsReady :
      IsReady closed × (closed.ws ≡ none) × (member_id closed.health_waits closed.gen ≡ false)
  unfolding closed close_socket teardown remove_id has_session
  closed-IsReady = (
    record {
      single = ground (arith, h.single);
      at_least = ground (arith, h.at_least);
      at_most = ground (arith, h.at_most);
      signed_in = ground (arith, h.signed_in);
      past = ground (arith, are_past-suc st.gen st.health_waits h.past);
    },
    ground arith,
    ground (arith, not_member st.gen st.health_waits h.past),
  )

module _ (o : Outside) (st : State) (h : IsReady st) where
  pub open_socket-IsAlive : IsAlive (open_socket o st)
  unfolding open_socket closed close_socket has_session
  open_socket-IsAlive =
      let c = closed-IsReady o st h in
      elim (Bool-cases (has_session st)) [
        | inl e ↦ elim (Option-cases st.features) [
          | inl n ↦
              rw (e, n, open_socket)
                (record {
                  single = c.0.single;
                  at_least = c.0.at_least;
                  at_most = c.0.at_most;
                  watched = ground (arith, c.1);
                  signed_in = c.0.signed_in;
                  past =
                      are_past-cons (st.gen + 1) st.health_waits
                        (are_past-suc st.gen st.health_waits h.past);
                  alone = ground (arith, c.1);
                  trying = unfold member_id in ground arith;
                })
          | inr (fs, n) ↦ rw (e, n, open_socket) (new_socket-IsAlive o _ c.0 c.1 c.2)
        ]
        | inr e ↦
            rw (e, open_socket)
              (record {
                single = c.0.single;
                at_least = c.0.at_least;
                at_most = c.0.at_most;
                watched = ground (arith, c.1);
                signed_in = c.0.signed_in;
                past = c.0.past;
                alone = ground (arith, c.1);
                trying = unfold teardown in ground (arith, h.signed_in);
              })
      ]
