-- ===== src/Api/Endpoints.antt =====
-- The methods of `LattixApi` in client/js/api.js that only name what is asked of the relay: the method,
-- the path and the body of each, which `_req` then sends.
pub mod Reading
mod Tests
use lattix.Prelude.{ℕ, Text, Bytes, codes, Option, ◌++◌}
use lattix.Prelude.Decimal.{decimal}
use lattix.Api.{Method, get, post, put, delete}

-- What is asked. A payload is what conversations and groups are given to send.
pub data Call (A : Type 0) : Type 0 where
  health logout me delete_account list_groups : Call A
  login : Text → Text → Call A
  register : A → Call A
  get_user search_users download_file : Text → Call A
  set_avatar : Option Text → Call A
  send_message send_file_message create_group : A → Call A
  conversation : Text → ℕ → Call A
  get_group : ℕ → Call A
  add_group_member remove_group_member : ℕ → Text → Call A
  send_group_message send_group_file : ℕ → A → Call A
  group_messages : ℕ → ℕ → Call A
  upload_file : Bytes → ℕ → Call A

pub data Body (A : Type 0) : Type 0 where
  no_body : Body A
  avatar_body : Option Text → Body A
  member_body : Text → Body A
  login_body : Text → Text → Body A
  payload_body : A → Body A
  form_body : Bytes → Text → Body A

pub record Route (A : Type 0) : Type 0 where
  pub method : Method
  pub path : Text
  pub body : Body A
  pub timeout : ℕ

-- `encode` is `encodeURIComponent`.
module _ (encode : Text → Text) {A : Type 0} where
  unfoldable pub path_of : Call A → Text
  path_of health = codes "/api/health"
  path_of logout = codes "/api/logout"
  path_of (login username auth_secret) = codes "/api/login"
  path_of (register payload) = codes "/api/register"
  path_of me = codes "/api/me"
  path_of delete_account = codes "/api/me"
  path_of list_groups = codes "/api/groups"
  path_of (get_user username) = codes "/api/users/" ++ encode username
  path_of (search_users q) = codes "/api/users?q=" ++ encode q
  path_of (download_file file_id) = codes "/api/files/" ++ encode file_id
  path_of (set_avatar avatar) = codes "/api/me/avatar"
  path_of (send_message payload) = codes "/api/messages"
  path_of (send_file_message payload) = codes "/api/messages/file"
  path_of (create_group payload) = codes "/api/groups"
  path_of (conversation peer since) =
      codes "/api/conversations/" ++ (encode peer ++ (codes "?since=" ++ decimal since))
  path_of (get_group id) = codes "/api/groups/" ++ decimal id
  path_of (add_group_member id username) = codes "/api/groups/" ++ (decimal id ++ codes "/members")
  path_of (remove_group_member id username) =
      codes "/api/groups/" ++ (decimal id ++ (codes "/members/" ++ encode username))
  path_of (send_group_message id payload) =
      codes "/api/groups/" ++ (decimal id ++ codes "/messages")
  path_of (send_group_file id payload) =
      codes "/api/groups/" ++ (decimal id ++ codes "/messages/file")
  path_of (group_messages id since) =
      codes "/api/groups/" ++ (decimal id ++ (codes "/messages?since=" ++ decimal since))
  path_of (upload_file bytes size) = codes "/api/files"

unfoldable pub method_of : {A : Type 0} → Call A → Method
method_of health = get
method_of logout = post
method_of (login _ _) = post
method_of (register _) = post
method_of me = get
method_of delete_account = delete
method_of list_groups = get
method_of (get_user _) = get
method_of (search_users _) = get
method_of (download_file _) = get
method_of (set_avatar _) = put
method_of (send_message _) = post
method_of (send_file_message _) = post
method_of (create_group _) = post
method_of (conversation _ _) = get
method_of (get_group _) = get
method_of (add_group_member _ _) = post
method_of (remove_group_member _ _) = delete
method_of (send_group_message _ _) = post
method_of (send_group_file _ _) = post
method_of (group_messages _ _) = get
method_of (upload_file _ _) = post

unfoldable pub body_of : {A : Type 0} → Call A → Body A
body_of (login username auth_secret) = login_body username auth_secret
body_of (register payload) = payload_body payload
body_of (set_avatar avatar) = avatar_body avatar
body_of (send_message payload) = payload_body payload
body_of (send_file_message payload) = payload_body payload
body_of (create_group payload) = payload_body payload
body_of (add_group_member id username) = member_body username
body_of (send_group_message id payload) = payload_body payload
body_of (send_group_file id payload) = payload_body payload
body_of (upload_file bytes size) = form_body bytes (decimal size)
body_of _ = no_body

abbrev pub transfer_timeout : ℕ
transfer_timeout = 600000

-- The milliseconds that are asked for, 0 for none.
unfoldable pub timeout_of : {A : Type 0} → Call A → ℕ
timeout_of health = 10000
timeout_of logout = 5000
timeout_of (download_file _) = transfer_timeout
timeout_of (upload_file _ _) = transfer_timeout
timeout_of _ = 0

-- What `_req` is given.
unfoldable pub route : {A : Type 0} → (Text → Text) → Call A → Route A
route encode call = record {
  method = method_of call;
  path = path_of encode call;
  body = body_of call;
  timeout = timeout_of call;
}
