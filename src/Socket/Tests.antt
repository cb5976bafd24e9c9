-- ===== src/Socket/Tests.antt =====
-- A concrete course of the WebSocket of client/js/api.js, and the theorems on it.
use lattix.Prelude.{ℕ, ◌≡◌, refl, codes, same, true, false, some, List, [], ◌∷◌}
use lattix.Prelude.Ids.{member_id, remove_id}
use lattix.Socket.{
  status, ready, Outside, initial, has_feature, is_ws, has_session, teardown, close_socket,
  schedule_reconnect, new_socket, open_socket, health_done, mark_connected, on_open, on_message,
  handle_close,
}
use lattix.Socket.Watch.{connect_socket, retry_fires}
use lattix.Socket.Step.{
  Event, logs_in, connects, answers, opens, receives, closes, retries, step, run,
}
use lattix.Socket.Alive.{is_trying, current}
use lattix.Socket.Alive.Reached.{never_stranded, one_connection}

abbrev at : ℕ → Outside
at t = record { now = t; random = 500; creates = true; sends = true }

-- A connection that is lost and comes back by the retry timer.
abbrev lost_and_back : List (Outside × Event)
lost_and_back =
    (at 0, logs_in (codes "t"))
    ∷ (at 1, connects)
    ∷ (at 2, answers 1 (some (codes "ws-auth-message" ∷ [])))
    ∷ (at 3, opens 0)
    ∷ (at 4, receives 0 ready)
    ∷ (at 5, closes 0 1006)
    ∷ (at 6, retries)
    ∷ []

reconnects_test : (run lost_and_back initial).ws ≡ some 1
unfolding run step initial connect_socket has_session open_socket close_socket teardown remove_id
    member_id health_done new_socket has_feature on_open is_ws on_message mark_connected
    handle_close schedule_reconnect retry_fires same
reconnects_test = refl

told_test : (run lost_and_back initial).emitted ≡ status false false ∷ status true false ∷ []
unfolding run step initial connect_socket has_session open_socket close_socket teardown remove_id
    member_id health_done new_socket has_feature on_open is_ws on_message mark_connected
    handle_close schedule_reconnect retry_fires same
told_test = refl

never_stranded_example : is_trying (run lost_and_back initial) ≡ true
unfolding run step initial connect_socket has_session open_socket close_socket teardown remove_id
    member_id health_done new_socket has_feature on_open is_ws on_message mark_connected
    handle_close schedule_reconnect retry_fires same
never_stranded_example = never_stranded lost_and_back refl refl refl

one_connection_example :
    (run lost_and_back initial).unclosed ≡ current (run lost_and_back initial).ws
one_connection_example = one_connection lost_and_back
