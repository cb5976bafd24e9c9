-- ===== src/Shell.antt =====
-- What client/js/app.js does around the conversations: keyboard shortcuts, a session that the relay
-- rejects, the check of one's own published keys, the banner about keys, the search for people, and
-- the refusal to start where the browser has no cryptography.
pub mod Searching
mod Tests
use lattix.Prelude.{
  ℕ, ◌+◌, Text, codes, same, Bool, true, false, not, ◌&&◌, ◌||◌, Option, none, some, List, [], ◌∷◌,
  ◌++◌, ◌==◌, if◌then◌else◌,
}
use lattix.Prelude.Dict
use lattix.Config.{trim}
use lattix.Trust
use lattix.Trust.{Reason, Alert, KeyRecord, Self, alerted_in}

-- A key that is pressed: its name, the name in small letters, and whether Control or Meta is down.
pub record Press : Type 0 where
  pub key : Text
  pub lower : Text
  pub ctrl : Bool
  pub meta : Bool

-- The page as the shortcuts see it; `in_box` is that the message box has the focus.
pub record Page : Type 0 where
  pub dialogs : ℕ
  pub app_hidden : Bool
  pub typing : Bool
  pub in_box : Bool
  pub box : Text

pub data Shortcut : Type 0 where
  no_shortcut search_people focus_filter focus_box leave_box : Shortcut

-- `wireShortcuts`
unfoldable pub shortcut : Page → Press → Shortcut
shortcut page press =
    let mod_key = press.ctrl || press.meta in
    if not (page.dialogs == 0)
    then no_shortcut
    else if page.app_hidden
    then no_shortcut
    else if mod_key && same press.lower (codes "k")
    then search_people
    else if mod_key && same press.lower (codes "f")
    then focus_filter
    else if same press.key (codes "/") && not page.typing
    then focus_box
    else if same press.key (codes "Escape") && page.typing && page.in_box && same page.box []
    then leave_box
    else no_shortcut

-- `_sessionRejected`, and how often the user was asked.
pub record Rejection : Type 0 where
  pub rejected : Bool
  pub asked : ℕ

unfoldable pub on_session_rejected : Rejection → Rejection
on_session_rejected r = if r.rejected then r else record { rejected = true; asked = r.asked + 1 }

-- `checkOwnPublishedKeys`: whether the user is warned. `answer` is `none` where the relay does not
-- answer, and `fingerprint_of` where the keys cannot be read.
unfoldable pub warns_of_own_keys : (Text → Text → Option Text) → Self → Option KeyRecord → Bool
warns_of_own_keys fingerprint_of me none = false
warns_of_own_keys fingerprint_of me (some rec) =
    elim (fingerprint_of rec.kem_public_key rec.dsa_public_key) [
      | none ↦ false
      | some fp ↦ not (same fp me.fingerprint)
    ]

-- `refreshKeyBanner`: whose review the banner offers, the reason that it gives, and all names in it.
unfoldable pub key_banner :
    Trust.State → Option Trust.Convo → Option (Text × Option Reason × List Text)
key_banner st none = none
key_banner st (some convo) = elim (alerted_in st convo) [
  | [] ↦ none
  | first ∷ others ↦ some (
    first,
    elim (Dict.get st.alerts first) [ none ↦ none | some alert ↦ some alert.reason ],
    first ∷ others,
  )
]

-- A search field: the text in it, and the people that are listed.
pub record Search : Type 0 where
  pub field : Text
  pub results : List Text

-- The timer of `openUserSearch`: an empty text clears the list, another starts a request, which is
-- given back.
unfoldable pub user_timer : Search → Search × Option Text
user_timer s =
    if same (trim s.field) [] then (record s { results = [] }, none) else (s, some (trim s.field))

-- The relay's answer to a request, whichever it was.
unfoldable pub user_answer : List Text → Search → Search
user_answer found s = record s { results = found }

-- The same of the field for the members of a group: the list is cleared before the request, and the
-- answer is added to it.
unfoldable pub member_timer : Search → Search × Option Text
member_timer s =
    (record s { results = [] }, if same (trim s.field) [] then none else some (trim s.field))

unfoldable pub member_answer : List Text → Search → Search
member_answer found s = record s { results = s.results ++ found }

-- What the browser offers; `none` where asking throws.
pub record Context : Type 0 where
  pub is_secure : Bool
  pub has_crypto : Bool
  pub has_subtle : Bool

unfoldable pub crypto_unavailable : Option Context → Bool
crypto_unavailable none = true
crypto_unavailable (some c) = not c.is_secure || not c.has_crypto || not c.has_subtle

pub data FirstScreen : Type 0 where
  insecure_notice sign_in : FirstScreen

-- The end of the file.
unfoldable pub first_screen : Option Context → FirstScreen
first_screen context = if crypto_unavailable context then insecure_notice else sign_in
