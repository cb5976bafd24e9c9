-- ===== src/Presence.antt =====
-- Who is online, and what is told of an incoming message, in client/js/app.js: presence events, the
-- state of the connection, the fetching of what was missed, and desktop notifications.
pub mod Since
use lattix.Prelude.{
  ℕ, ◌+◌, ◌-◌, Text, codes, same, Bool, true, false, not, ◌&&◌, ◌||◌, Option, none, some, List, [],
  ◌∷◌, ◌++◌, ◌==◌, if◌then◌else◌,
}
use lattix.Prelude.Dict

-- `online` are the users believed to be online; `resyncing` that `_resync` is set, with the number of
-- fetches that run and that were started.
pub record State : Type 0 where
  pub connected : Bool
  pub online : List Text
  pub resyncing : Bool
  pub running : ℕ
  pub started : ℕ

unfoldable pub on_presence : Text → Bool → State → State
on_presence username online st = record st {
  online = if online then Dict.add st.online username else Dict.remove st.online username;
}

-- `setConnected`, less the strip that shows it.
unfoldable pub set_connected : Bool → State → State
set_connected v st = record st {
  connected = v;
  online = if v && not st.connected then [] else st.online;
}

-- `resyncAfterReconnect`, up to its first `await`, and at its end.
unfoldable pub resync : State → State
resync st =
    if st.resyncing
    then st
    else record st { resyncing = true; running = st.running + 1; started = st.started + 1 }

unfoldable pub resync_ends : State → State
resync_ends st =
    if not st.resyncing then st else record st { resyncing = false; running = st.running - 1 }

-- The "status" event of the network layer.
unfoldable pub on_status : Bool → Bool → State → State
on_status connected reconnected st =
    let set = set_connected connected st in if connected && reconnected then resync set else set

-- What `maybeNotify` looks at: the stored setting, whether the browser has notifications and grants
-- them, and whether the page is hidden.
pub record Desk : Type 0 where
  pub wanted : Bool
  pub available : Bool
  pub granted : Bool
  pub hidden : Bool

-- The sign before a group's name, and a blank.
abbrev pub group_mark : Text
group_mark = 55357 ∷ 56421 ∷ 32 ∷ []

-- `maybeNotify` for a message of a contact, or of a group with its name: the title and the text of
-- the notification. `is_open` is that the conversation is the one shown.
unfoldable pub notification : Desk → Bool → Option Text → Text → Option (Text × Text)
notification desk is_open group_name sender =
    if not desk.wanted || not (desk.available && desk.granted) || (not desk.hidden && is_open)
    then none
    else elim group_name [
      | none ↦ some (sender, codes "New message")
      | some [] ↦ some (group_mark ++ codes "Group", sender ++ codes ": new message")
      | some (c ∷ name) ↦ some (group_mark ++ c ∷ name, sender ++ codes ": new message")
    ]

-- `Notification.permission`, and what the user answers when asked.
pub data Permission : Type 0 where
  is_granted is_denied is_default : Permission

unfoldable pub ensure_notify_permission : Bool → Permission → Bool → Bool
ensure_notify_permission available is_granted answer = available
ensure_notify_permission available is_denied answer = false
ensure_notify_permission available is_default answer = available && answer

-- The switch of the settings: the stored setting afterwards.
unfoldable pub toggle_notify : Bool → Bool → Desk → Desk
toggle_notify checked permitted desk =
    if not checked
    then record desk { wanted = false }
    else if permitted
    then record desk { wanted = true }
    else desk
