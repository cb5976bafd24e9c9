-- ===== src/Api/Endpoints/Reading.antt =====
-- A reader of the requests of client/js/api.js that knows only the table of the relay's paths.
use lattix.Prelude.{
  ℕ, ◌≡◌, refl, Text, codes, same, Bool, true, not, Option, none, some, List, [], ◌∷◌, ◌++◌, All,
  ◌==◌, ◌&&◌, ◌||◌, arith, if◌then◌else◌,
}
use lattix.Prelude.Decimal.{decimal, read, read-decimal, are_digits, are_digits-decimal}
use lattix.Api.{Method, get, post, put, delete}
use lattix.Api.Endpoints.{
  Call, health, logout, login, register, login_body, me, delete_account, list_groups, get_user,
  search_users, download_file, set_avatar, send_message, send_file_message, create_group,
  conversation, get_group, add_group_member, remove_group_member, send_group_message,
  send_group_file, group_messages, upload_file, Body, no_body, avatar_body, member_body,
  payload_body, form_body, Route, path_of, method_of, body_of, route,
}

-- The separators of a path, and the words between them.
unfoldable is_separator : ℕ → Bool
is_separator c = c == b'/' || c == b'?' || c == b'='

add_first : ℕ → List Text → List Text
add_first c [] = (c ∷ []) ∷ []
add_first c (s ∷ ss) = (c ∷ s) ∷ ss

tokens : Text → List Text
unfolding is_separator add_first
tokens [] = [] ∷ []
tokens (c ∷ s) =
    let rest = tokens s in if is_separator c then [] ∷ (c ∷ []) ∷ rest else add_first c rest

unfoldable pub is_plain : Text → Bool
unfolding is_separator
is_plain [] = true
is_plain (c ∷ s) = not (is_separator c) && is_plain s

tokens-plain : (s : Text) → is_plain s ≡ true → tokens s ≡ s ∷ []
unfolding tokens is_plain add_first
tokens-plain [] h = refl
tokens-plain (c ∷ s) h = ground (arith, h, tokens-plain s)

tokens-append :
    (s : Text) (c : ℕ) (t : Text)
    → is_plain s ≡ true
    → is_separator c ≡ true
    → tokens (s ++ c ∷ t) ≡ s ∷ (c ∷ []) ∷ tokens t
unfolding tokens is_plain add_first
tokens-append [] c t h sep = ground (arith, sep)
tokens-append (x ∷ s) c t h sep = ground (arith, h, tokens-append s c t, sep)

digits-plain : (s : Text) → are_digits s ≡ true → is_plain s ≡ true
unfolding is_plain are_digits is_separator
digits-plain [] h = refl
digits-plain (c ∷ s) h = ground (arith, h, digits-plain s)

decimal-plain : (n : ℕ) → is_plain (decimal n) ≡ true
decimal-plain n = digits-plain (decimal n) (are_digits-decimal n)

drop_root : List Text → List Text
drop_root (root ∷ p ∷ api ∷ q ∷ ws) =
    if same (root ++ (p ++ (api ++ q))) (codes "/api/") then ws else []
drop_root _ = []

-- The table, by the number of words: their separators are put together in `marks`.
module _ (decode : Text → Text) {A : Type 0} where
  read_one : Method → Body A → Text → Option (Call A)
  read_one get no_body w =
      if same w (codes "me")
      then some me
      else if same w (codes "health")
      then some health
      else if same w (codes "groups")
      then some list_groups
      else none
  read_one post no_body w = if same w (codes "logout") then some logout else none
  read_one post (login_body username auth_secret) w =
      if same w (codes "login") then some (login username auth_secret) else none
  read_one delete no_body w = if same w (codes "me") then some delete_account else none
  read_one post (payload_body payload) w =
      if same w (codes "messages")
      then some (send_message payload)
      else if same w (codes "groups")
      then some (create_group payload)
      else if same w (codes "register")
      then some (register payload)
      else none
  read_one post (form_body bytes size) w =
      if same w (codes "files") then some (upload_file bytes (read 0 size)) else none
  read_one _ _ _ = none

  read_two : Method → Body A → Text → Text → Option (Call A)
  read_two get no_body w x =
      if same w (codes "users")
      then some (get_user (decode x))
      else if same w (codes "files")
      then some (download_file (decode x))
      else if same w (codes "groups")
      then some (get_group (read 0 x))
      else none
  read_two put (avatar_body avatar) w x =
      if same w (codes "me") && same x (codes "avatar") then some (set_avatar avatar) else none
  read_two post (payload_body payload) w x =
      if same w (codes "messages") && same x (codes "file")
      then some (send_file_message payload)
      else none
  read_two _ _ _ _ = none

  read_three : Method → Body A → Text → Text → Text → Text → Option (Call A)
  read_three get no_body marks w x y =
      if same marks (codes "?=") && (same w (codes "users") && same x (codes "q"))
      then some (search_users (decode y))
      else none
  read_three post (member_body username) marks w x y =
      if same marks (codes "//") && (same w (codes "groups") && same y (codes "members"))
      then some (add_group_member (read 0 x) username)
      else none
  read_three post (payload_body payload) marks w x y =
      if same marks (codes "//") && (same w (codes "groups") && same y (codes "messages"))
      then some (send_group_message (read 0 x) payload)
      else none
  read_three _ _ _ _ _ _ = none

  read_four : Method → Body A → Text → Text → Text → Text → Text → Option (Call A)
  read_four get no_body marks w x y z =
      if same marks (codes "/?=") && (same w (codes "conversations") && same y (codes "since"))
      then some (conversation (decode x) (read 0 z))
      else none
  read_four delete no_body marks w x y z =
      if same marks (codes "///") && (same w (codes "groups") && same y (codes "members"))
      then some (remove_group_member (read 0 x) (decode z))
      else none
  read_four post (payload_body payload) marks w x y z =
      if same marks (codes "///")
        && (same w (codes "groups") && (same y (codes "messages") && same z (codes "file")))
      then some (send_group_file (read 0 x) payload)
      else none
  read_four _ _ _ _ _ _ _ = none

  read_five : Method → Body A → Text → Text → Text → Text → Text → Text → Option (Call A)
  read_five get no_body marks w x y z t =
      if same marks (codes "//?=")
        && (same w (codes "groups") && (same y (codes "messages") && same z (codes "since")))
      then some (group_messages (read 0 x) (read 0 t))
      else none
  read_five _ _ _ _ _ _ _ _ = none

  read_words : Method → Body A → List Text → Option (Call A)
  unfolding read_one read_two read_three read_four read_five
  read_words m b (w ∷ []) = read_one m b w
  read_words m b (w ∷ p ∷ x ∷ []) = if same p (codes "/") then read_two m b w x else none
  read_words m b (w ∷ p ∷ x ∷ q ∷ y ∷ []) = read_three m b (p ++ q) w x y
  read_words m b (w ∷ p ∷ x ∷ q ∷ y ∷ r ∷ z ∷ []) = read_four m b (p ++ (q ++ r)) w x y z
  read_words m b (w ∷ p ∷ x ∷ q ∷ y ∷ r ∷ z ∷ o ∷ t ∷ []) =
      read_five m b (p ++ (q ++ (r ++ o))) w x y z t
  read_words m b _ = none

  unfoldable pub read_route : Route A → Option (Call A)
  unfolding read_words drop_root tokens
  read_route r = read_words r.method r.body (drop_root (tokens r.path))

-- The texts that are escaped in the path of a call.
unfoldable pub escaped : {A : Type 0} → Call A → List Text
escaped (get_user username) = username ∷ []
escaped (search_users q) = q ∷ []
escaped (download_file file_id) = file_id ∷ []
escaped (conversation peer since) = peer ∷ []
escaped (remove_group_member id username) = username ∷ []
escaped _ = []

abbrev pub Survives : (Text → Text) → (Text → Text) → Text → Type 0
Survives encode decode x = (decode (encode x) ≡ x) × (is_plain (encode x) ≡ true)

module _ (encode decode : Text → Text) {A : Type 0} where
  -- Every call is read back from its method, path and body, whatever the names in it contain, if
  -- escaping keeps them readable and leaves none of the separators in them.
  pub read_route-route :
      (call : Call A)
      → All (Survives encode decode) (escaped call)
      → read_route decode (route encode call) ≡ some call
  unfolding read_route route tokens drop_root path_of method_of body_of escaped same
  read_route-route health h = refl
  read_route-route logout h = refl
  read_route-route (login username auth_secret) h = refl
  read_route-route (register payload) h = refl
  read_route-route me h = refl
  read_route-route delete_account h = refl
  read_route-route list_groups h = refl
  read_route-route (get_user username) h = rw (tokens-plain (encode username) h.0.1, h.0.0)
  read_route-route (search_users q) h = rw (tokens-plain (encode q) h.0.1, h.0.0)
  read_route-route (download_file file_id) h = rw (tokens-plain (encode file_id) h.0.1, h.0.0)
  read_route-route (set_avatar avatar) h = refl
  read_route-route (send_message payload) h = refl
  read_route-route (send_file_message payload) h = refl
  read_route-route (create_group payload) h = refl
  read_route-route (conversation peer since) h = rw (
    tokens-append (encode peer) b'?' (codes "since=" ++ decimal since) h.0.1 refl,
    tokens-plain (decimal since) (decimal-plain since),
    h.0.0,
    read-decimal since,
  )
  read_route-route (get_group id) h =
      rw (tokens-plain (decimal id) (decimal-plain id), read-decimal id)
  read_route-route (add_group_member id username) h =
      rw
        (tokens-append (decimal id) b'/' (codes "members") (decimal-plain id) refl, read-decimal id)
  read_route-route (remove_group_member id username) h = rw (
    tokens-append (decimal id) b'/' (codes "members/" ++ encode username) (decimal-plain id) refl,
    tokens-plain (encode username) h.0.1,
    read-decimal id,
    h.0.0,
  )
  read_route-route (send_group_message id payload) h =
      rw (
        tokens-append (decimal id) b'/' (codes "messages") (decimal-plain id) refl,
        read-decimal id,
      )
  read_route-route (send_group_file id payload) h = rw (
    tokens-append (decimal id) b'/' (codes "messages/file") (decimal-plain id) refl,
    read-decimal id,
  )
  read_route-route (group_messages id since) h = rw (
    tokens-append (decimal id) b'/' (codes "messages?since=" ++ decimal since) (decimal-plain id)
        refl,
    tokens-plain (decimal since) (decimal-plain since),
    read-decimal id,
    read-decimal since,
  )
  read_route-route (upload_file bytes size) h = rw (read-decimal size)
