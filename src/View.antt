-- ===== src/View.antt =====
-- What client/js/app.js puts on the screen: the HTML of a message, the order and the filter of the
-- sidebar, the part of a conversation that is rendered, the coalescing of renders, and small values
-- (colours, sizes, password strength). The DOM calls around them are left out.
pub mod Cards
pub mod Html
pub mod Sidebar
pub mod Scheduling
pub mod Timeline
mod Tests
use lattix.Prelude.{
  ℕ, ◌+◌, ◌-◌, ◌*◌, ◌/◌, ◌%◌, ◌^◌, ◌≤◌, min, Text, codes, same, Bool, true, false, not, ◌&&◌, ◌||◌,
  Option, none, some, List, [], ◌∷◌, ◌++◌, map, filter, any, length, drop, ltb, leb, ◌==◌,
  if◌then◌else◌,
}
use lattix.Prelude.Dict
use lattix.Prelude.Dict.{Dict}
use lattix.Prelude.Decimal.{decimal}
use lattix.History.{State, Convo, Message, Kind, message, file, error, Peer, dm, group}

-- `lastTs`
unfoldable pub last_ts_of : List Message → ℕ
last_ts_of [] = 0
last_ts_of (m ∷ []) = m.ts
last_ts_of (m ∷ n ∷ ms) = last_ts_of (n ∷ ms)

unfoldable pub last_ts : State → Text → ℕ
last_ts st cid = elim (Dict.get st.convos cid) [ none ↦ 0 | some c ↦ last_ts_of c.messages ]

-- A direct conversation with a blocked user.
unfoldable pub is_hidden : State → Text × Convo → Bool
is_hidden st (cid, c) = elim c.peer [ dm _ ↦ Dict.member st.blocked cid | group _ ↦ false ]

unfoldable pub unread_total : State → ℕ
unread_total st = total st.convos
  where
    total : Dict Convo → ℕ
    total [] = 0
    total ((cid, c) ∷ convos) = (if is_hidden st (cid, c) then 0 else c.unread) + total convos

-- The title of the page, without the app's own name.
unfoldable pub unread_title : State → Option ℕ
unread_title st = if unread_total st == 0 then none else some (unread_total st)

unfoldable pub starts_with : Text → Text → Bool
starts_with s [] = true
starts_with [] (q ∷ qs) = false
starts_with (c ∷ s) (q ∷ qs) = c == q && starts_with s qs

-- `includes` on strings.
unfoldable pub includes : Text → Text → Bool
includes [] q = starts_with [] q
includes (c ∷ s) q = starts_with (c ∷ s) q || includes s q

-- `toLowerCase`, and the names of the groups; a file's name is its message's text.
module _ (lower : Text → Text) (group_name : ℕ → Text) where
  unfoldable pub matches_filter : Text → Convo → Bool
  matches_filter q c =
      let name : Text = elim c.peer [ dm username ↦ username | group id ↦ group_name id ] in
      same q [] || includes (lower name) q || any (λ m. includes (lower m.text) q) c.messages

  -- `sort((a, b) => lastTs(b) - lastTs(a))`, which is stable.
  unfoldable pub insert_recent : State → Text → List Text → List Text
  insert_recent st cid [] = cid ∷ []
  insert_recent st cid (d ∷ ds) =
      if leb (last_ts st d) (last_ts st cid) then cid ∷ d ∷ ds else d ∷ insert_recent st cid ds

  unfoldable pub sort_recent : State → List Text → List Text
  sort_recent st [] = []
  sort_recent st (cid ∷ cids) = insert_recent st cid (sort_recent st cids)

  unfoldable pub is_listed : State → Text → Text × Convo → Bool
  is_listed st q entry = not (is_hidden st entry) && matches_filter q entry.1

  -- The conversations that `renderContacts` lists, for the trimmed filter in lower case.
  unfoldable pub contacts : State → Text → List Text
  contacts st q = sort_recent st (map (λ e. e.0) (filter (is_listed st q) st.convos))

-- `scorePassword`, with the classes of characters by their codes.
in_range : ℕ → ℕ → ℕ → Bool
in_range a b c = leb a c && leb c b

unfoldable pub score_password : Text → ℕ
unfolding in_range
score_password pw =
    let long : ℕ → ℕ = λ n. if leb n (length pw) then 1 else 0 in
    let lower = any (in_range b'a' b'z') pw in
    let upper = any (in_range b'A' b'Z') pw in
    let digit = any (in_range b'0' b'9') pw in
    let sign =
      any (λ c. not (in_range b'A' b'Z' c || in_range b'a' b'z' c || in_range b'0' b'9' c)) pw in
    if ltb (length pw) 8
    then 0
    else min
        (1
          + long 12
          + long 16
          + (if lower && upper then 1 else 0)
          + (if digit && sign then 1 else 0))
        4

-- `senderHue`, on the first code unit of each character of the name.
unfoldable pub hue_step : Text → ℕ → ℕ
hue_step [] h = h
hue_step (c ∷ seed) h = hue_step seed ((h * 31 + c) % 2 ^ 32)

unfoldable pub sender_hue : Text → ℕ
sender_hue seed = hue_step seed 0 % 360

abbrev pub render_window : ℕ
render_window = 200

-- The window of a conversation, `_windowFor` being `none` until it is widened.
unfoldable pub window_size : Option ℕ → ℕ
window_size none = render_window
window_size (some n) = if n == 0 then render_window else n

unfoldable pub hidden_count : ℕ → List Message → ℕ
hidden_count size messages = length messages - size

unfoldable pub shown_messages : ℕ → List Message → List Message
shown_messages size messages = drop (hidden_count size messages) messages

-- The button above the messages.
unfoldable pub load_earlier : Option ℕ → Option ℕ
load_earlier window = some (window_size window + render_window)

-- `sameRun`: the message continues a run of its sender; `new_day` compares the labels of the days.
unfoldable pub is_error : Message → Bool
is_error m = elim m.kind [ error ↦ true | _ ↦ false ]

unfoldable pub same_run : Option Message → Bool → Message → Bool
same_run none new_day m = false
same_run (some prev) new_day m =
    not new_day
    && same prev.sender m.sender
    && not (is_error prev)
    && not (is_error m)
    && ltb m.ts (prev.ts + 300)

-- Whether the bubble warns of a signature that failed.
unfoldable pub is_failed : Message → Bool
is_failed m = not m.verified && not (is_error m)

abbrev pub preview_max : ℕ
preview_max = 8 * 1024 * 1024

unfoldable pub is_preview_mime : (Text → Text) → Text → Bool
is_preview_mime lower mime = any (same (lower mime)) (
    codes "image/png"
    ∷ codes "image/jpeg"
    ∷ codes "image/gif"
    ∷ codes "image/webp"
    ∷ codes "image/avif"
    ∷ [])

-- Whether `renderFile` shows the file as an image, by its type and size.
unfoldable pub is_previewable : (Text → Text) → Message → Text → ℕ → Bool
is_previewable lower m mime size = m.verified && is_preview_mime lower mime && leb size preview_max
