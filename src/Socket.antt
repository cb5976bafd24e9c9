-- ===== src/Socket.antt =====
-- The WebSocket of client/js/api.js: opening, closing, the timers and the watchdog. Times are in
-- milliseconds; the backoff, which grows by a factor of 1.6, is in microseconds, so that it stays
-- whole. A timer or promise that is pending is a field, and its end an event.
pub mod Watch
pub mod Step
pub mod Alive
mod Tests
use lattix.Prelude.{
  ℕ, zero, suc, ◌+◌, ◌-◌, ◌*◌, ◌/◌, ◌<◌, min, Text, codes, same, Bool, true, false, not, ◌&&◌, ◌||◌,
  Option, none, some, List, [], ◌∷◌, any, ltb, leb, ◌==◌, if◌then◌else◌,
}
use lattix.Prelude.Ids.{member_id, remove_id}

-- What the handlers of the app are told.
pub data Emitted : Type 0 where
  status : Bool → Bool → Emitted
  envelope group_envelope group_event presence : Emitted

-- A message of the relay, by its `type`; `garbled` is no JSON, `other` any other type.
pub data Frame : Type 0 where
  ready pong garbled other : Frame
  pushed : Emitted → Frame

-- `ws` numbers the sockets in the order of their creation; `opened` is its `readyState`, and
-- `message_auth` what its handlers captured. `unclosed` are the sockets that neither side has
-- closed. `health_waits` are the calls of `_openSocket` that await `health`, by their generation,
-- and `relogins` counts the pending renewals after a close with 4401. `refused` is set when the
-- last of these was denied, and `over` by the end of `logout`.
pub record State : Type 0 where
  pub token : Option Text
  pub features : Option (List Text)
  pub want_socket : Bool
  pub ever_connected : Bool
  pub connected : Bool
  pub backoff : ℕ
  pub gen : ℕ
  pub ws : Option ℕ
  pub opened : Bool
  pub message_auth : Bool
  pub created : ℕ
  pub unclosed : List ℕ
  pub last_seen : ℕ
  pub ping_sent_at : ℕ
  pub pinging : Bool
  pub ready_timer : Option ℕ
  pub retry : Option ℕ
  pub checks : List (ℕ × ℕ)
  pub health_waits : List ℕ
  pub relogins : ℕ
  pub emitted : List Emitted
  pub refused : Bool
  pub over : Bool

unfoldable pub initial : State
initial = record {
  token = none;
  features = none;
  want_socket = false;
  ever_connected = false;
  connected = false;
  backoff = 1000000;
  gen = 0;
  ws = none;
  opened = false;
  message_auth = false;
  created = 0;
  unclosed = [];
  last_seen = 0;
  ping_sent_at = 0;
  pinging = false;
  ready_timer = none;
  retry = none;
  checks = [];
  health_waits = [];
  relogins = 0;
  emitted = [];
  refused = false;
  over = false;
}

-- What an event brings with it: the time, `Math.random()` in thousandths, and whether
-- `new WebSocket` and `ws.send` succeed.
pub record Outside : Type 0 where
  pub now : ℕ
  pub random : ℕ
  pub creates : Bool
  pub sends : Bool

unfoldable pub has_feature : Text → Option (List Text) → Bool
has_feature f none = false
has_feature f (some features) = any (λ g. same g f) features

unfoldable pub is_ws : State → ℕ → Bool
is_ws st n = elim st.ws [ none ↦ false | some m ↦ m == n ]

unfoldable pub has_session : State → Bool
has_session st = elim st.token [ none ↦ false | some _ ↦ true ]

unfoldable pub teardown : State → State
teardown st = record st {
  pinging = false;
  ready_timer = none;
  ws = none;
  opened = false;
  connected = false;
}

-- `_closeSocket`
unfoldable pub close_socket : State → State
close_socket st = elim st.ws [
  | none ↦ record (teardown st) { retry = none }
  | some n ↦ record (teardown st) { retry = none; unclosed = remove_id st.unclosed n }
]

-- `Math.round(this._backoff * (0.8 + Math.random() * 0.4))`, in milliseconds.
unfoldable pub delay_of : ℕ → ℕ → ℕ
delay_of backoff random = (backoff * (2000 + random) + 1250000) / 2500000

unfoldable pub schedule_reconnect : Outside → State → State
schedule_reconnect o st = record st {
  retry = some (delay_of st.backoff o.random);
  backoff = min (st.backoff * 8 / 5) 20000000;
}

-- The part of `_openSocket` from `new WebSocket` on.
unfoldable pub new_socket : Outside → State → State
new_socket o st = if not o.creates then schedule_reconnect o st else record st {
  ws = some st.created;
  created = st.created + 1;
  unclosed = st.created ∷ st.unclosed;
  message_auth = has_feature (codes "ws-auth-message") st.features;
  last_seen = o.now;
  ready_timer = some st.created;
  pinging = true;
  ping_sent_at = 0;
}

-- `_openSocket` up to its `await`, or to its end where the features are known.
unfoldable pub open_socket : Outside → State → State
open_socket o st =
    let closed = record (close_socket st) { gen = st.gen + 1; refused = false } in
    if not (has_session st) then closed else elim st.features [
      | none ↦ record closed { health_waits = (st.gen + 1) ∷ st.health_waits }
      | some _ ↦ new_socket o closed
    ]

-- `_openSocket` after its `await` of `health`, which learns the features unless it fails.
unfoldable pub health_done : Outside → ℕ → Option (List Text) → State → State
health_done o gen answer st =
    let waited = record st { health_waits = remove_id st.health_waits gen } in
    let learned : State = elim answer [
      | none ↦ waited
      | some fs ↦ record waited { features = some fs }
    ] in
    if not (gen == st.gen) || not (has_session st) || not st.want_socket
    then learned
    else elim learned.features [
      | none ↦ schedule_reconnect o (record learned { emitted = status false false ∷ st.emitted })
      | some _ ↦ new_socket o learned
    ]

unfoldable pub mark_connected : State → State
mark_connected st =
    let timed = record st { ready_timer = none } in
    if st.connected then timed else record timed {
      connected = true;
      backoff = 1000000;
      ever_connected = true;
      emitted = status true st.ever_connected ∷ st.emitted;
    }

unfoldable pub on_open : Outside → ℕ → State → State
on_open o n st =
    let seen = record st { last_seen = o.now; opened = true } in
    if not (is_ws st n) then st else if st.message_auth then seen else mark_connected seen

unfoldable pub on_message : Outside → ℕ → Frame → State → State
on_message o n frame st =
    let seen = record st { last_seen = o.now } in
    if not (is_ws st n) then st else elim frame [
      | ready ↦ mark_connected seen
      | pushed e ↦ record seen { emitted = e ∷ st.emitted }
      | _ ↦ seen
    ]

-- `_handleClose`: after 4401 a renewal of the session is awaited.
unfoldable pub handle_close : Outside → ℕ → ℕ → State → State
handle_close o n code st =
    let down = record (teardown st) {
      emitted = status false false ∷ st.emitted;
      unclosed = remove_id st.unclosed n;
    } in
    if not (is_ws st n)
    then st
    else if not (has_session st) || not st.want_socket
    then down
    else if code == 4401
    then record down { relogins = st.relogins + 1 }
    else schedule_reconnect o down

unfoldable pub drop_socket : Outside → ℕ → State → State
drop_socket o n st = if not (is_ws st n) then st else handle_close o n 4000 st

-- The continuation of `_relogin` in `_handleClose`: `login` is the new token, or `none` with whether
-- it was denied.
pub data Relogin : Type 0 where
  renewed : Text → Relogin
  denied unreachable : Relogin

unfoldable pub relogin_done : Outside → Relogin → State → State
relogin_done o result st =
    let ended = record st { relogins = st.relogins - 1 } in
    elim result [
      | renewed t ↦
          let fresh = record ended { token = some t } in
          if st.want_socket then open_socket o (record fresh { backoff = 1000000 }) else fresh
      | unreachable ↦ if st.want_socket then schedule_reconnect o ended else ended
      | denied ↦ if st.want_socket then record ended { refused = true } else ended
    ]
