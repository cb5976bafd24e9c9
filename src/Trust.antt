-- ===== src/Trust.antt =====
-- Key trust of client/js/app.js: pinned safety codes, key alerts, and what may be sent to whom.
-- A relay's answer arrives as an argument. The hash of two public keys (`fingerprintOf` of
-- client/js/crypto.js) is a parameter here; it is `none` where decoding the keys throws.
pub mod Effects
pub mod Guard
pub mod Cache
pub mod Session
pub mod Sending
pub mod Alerts
pub mod Stale
pub mod Persist
mod Tests
use lattix.Prelude.{
  ℕ, Text, same, codes, Bool, true, false, not, ◌&&◌, Option, none, some, List, [], ◌∷◌, ◌++◌, map,
  filter, any, length, ◌||◌, ◌==◌, leb, if◌then◌else◌,
}
use lattix.Prelude.Dict
use lattix.Prelude.Dict.{Dict}

-- What the relay says of a user, and what `state.peers` holds.
pub record KeyRecord : Type 0 where
  pub kem_public_key : Text
  pub dsa_public_key : Text
  pub fingerprint : Text
  pub avatar : Option Text

pub record Pin : Type 0 where
  pub fp : Text
  pub verified : Bool
  pub stamp : ℕ

pub data Reason : Type 0 where
  changed link : Reason

pub record Alert : Type 0 where
  pub old_fp : Text
  pub new_fp : Text
  pub reason : Reason

-- The parts of the unlocked identity that key trust reads.
pub record Self : Type 0 where
  pub username : Text
  pub kem_public_key : Text
  pub fingerprint : Text

-- `storage` is what localStorage holds under the pins' keys: `none` for a value that is not the
-- JSON of an object. `can_save` is false where `setItem` throws.
pub record State : Type 0 where
  pub identity : Option Self
  pub peers : Dict KeyRecord
  pub pins : Dict Pin
  pub alerts : Dict Alert
  pub origin : Text
  pub storage : Dict (Option (Dict Pin))
  pub can_save : Bool

unfoldable pub pin_store_key : State → Text
pin_store_key st = codes "lattix.pins." ++ st.origin

parsed_pins : Option (Option (Dict Pin)) → Dict Pin
parsed_pins (some (some pins)) = pins
parsed_pins _ = []

unfoldable pub load_pins : State → Dict Pin
unfolding parsed_pins
load_pins st = parsed_pins (Dict.get st.storage (pin_store_key st))

-- What `JSON.stringify` writes of the pins: on a plain object, an assignment to `__proto__` replaces its
-- prototype and makes no property.
unfoldable pub written_pins : Dict Pin → Dict Pin
written_pins pins = Dict.del pins (codes "__proto__")

unfoldable pub save_pins : State → State
unfolding written_pins
save_pins st =
    if st.can_save
    then record st {
      storage = Dict.put st.storage (pin_store_key st) (some (written_pins st.pins));
    }
    else st

unfoldable pub pin_key : ℕ → State → Text → Text → Bool → State
pin_key now st username fp verified = save_pins (record st {
  pins = Dict.put st.pins username (record { fp = fp; verified = verified; stamp = now });
})

unfoldable pub is_verified : State → Text → Bool
is_verified st username = elim (Dict.get st.pins username) [
  | none ↦ false
  | some pin ↦ pin.verified && not (Dict.has st.alerts username)
]

-- A verified contact with another key: an alert, unless one for that very key stands.
unfoldable pub raise_alert : State → Text → Text → Text → Option Alert → State
raise_alert st username old_fp fp none = record st {
  alerts = Dict.put st.alerts username (record { old_fp = old_fp; new_fp = fp; reason = changed });
}
raise_alert st username old_fp fp (some prev) = if same prev.new_fp fp then st else record st {
  alerts = Dict.put st.alerts username (record { old_fp = old_fp; new_fp = fp; reason = changed });
}

is_changed : Reason → Bool
is_changed changed = true
is_changed link = false

-- The keys are the pinned ones: an alert for a changed key resolves itself.
unfoldable pub resolve_alert : State → Text → Option Alert → State
unfolding is_changed
resolve_alert st username none = st
resolve_alert st username (some prev) =
    if is_changed prev.reason then record st { alerts = Dict.del st.alerts username } else st

-- The part of `adoptPeerKeys` below its early return.
unfoldable pub judge : ℕ → State → Text → Text → State
judge now st username fp = elim (Dict.get st.pins username) [
  | none ↦ pin_key now st username fp false
  | some pin ↦
      if same pin.fp fp
      then resolve_alert st username (Dict.get st.alerts username)
      else if pin.verified
      then raise_alert st username pin.fp fp (Dict.get st.alerts username)
      else pin_key now st username fp false
]

-- `!state.identity || username === state.identity.username`
unfoldable pub is_exempt : State → Text → Bool
is_exempt st username = elim st.identity [ none ↦ true | some me ↦ same username me.username ]

-- `{ ...state.peers[username], ...u }`
unfoldable pub merge_peer : Option KeyRecord → KeyRecord → KeyRecord
merge_peer none u = u
merge_peer (some old) u = elim u.avatar [ none ↦ record u { avatar = old.avatar } | some _ ↦ u ]

unfoldable pub store_peer : State → Text → KeyRecord → State
store_peer st username u = record st {
  peers = Dict.put st.peers username (merge_peer (Dict.get st.peers username) u);
}

unfoldable pub accept_new_key : ℕ → State → Text → State
accept_new_key now st username = elim (Dict.get st.alerts username) [
  | none ↦ st
  | some alert ↦
      let pinned = pin_key now st username alert.new_fp false in
      record pinned { alerts = Dict.del pinned.alerts username }
]

unfoldable pub set_verified : ℕ → State → Text → Text → Bool → State
set_verified now st username fp verified =
    let pinned = pin_key now st username fp verified in
    record pinned { alerts = Dict.del pinned.alerts username }

-- The start of a session: `bootApp` keeps our own record and loads the pins.
unfoldable pub boot : State → Self → KeyRecord → State
boot st me own = record st {
  identity = some me;
  peers = Dict.put [] me.username own;
  pins = load_pins st;
  alerts = [];
}

module _ (fingerprint_of : Text → Text → Option Text) where
  -- `none` where `fingerprintOf` throws.
  unfoldable pub adopt_peer_keys : ℕ → State → Text → KeyRecord → Option (State × KeyRecord)
  adopt_peer_keys now st username rec =
      elim (fingerprint_of rec.kem_public_key rec.dsa_public_key) [
        | none ↦ none
        | some fp ↦
            let out = record rec { fingerprint = fp } in
            some ((if is_exempt st username then st else judge now st username fp), out)
      ]

  -- The answer of the relay is adopted and put in the cache.
  unfoldable pub refresh_peer : ℕ → State → Text → KeyRecord → Option State
  refresh_peer now st username rec = elim (adopt_peer_keys now st username rec) [
    | none ↦ none
    | some (st', u) ↦ some (store_peer st' username u)
  ]

  -- `getPeerKeys`: the cache unless `refresh`; `answer` is `none` where the relay cannot be asked.
  -- The result has no record where the promise rejects.
  unfoldable pub get_peer_keys :
      ℕ → State → Text → Bool → Option KeyRecord → State × Option KeyRecord
  get_peer_keys now st username refresh answer =
      let fetched : State × Option KeyRecord = elim answer [
        | none ↦ (st, none)
        | some rec ↦ elim (refresh_peer now st username rec) [
          | none ↦ (st, none)
          | some st' ↦ (st', Dict.get st'.peers username)
        ]
      ] in
      elim (Dict.get st.peers username) [
        | none ↦ fetched
        | some cached ↦
            if not refresh && not (same cached.kem_public_key [])
            then (st, some cached)
            else fetched
      ]

  -- The loop over `detail.members` in `ensureGroupLoaded`: false where it throws half way.
  unfoldable pub adopt_members : ℕ → State → List (Text × KeyRecord) → State × Bool
  adopt_members now st [] = (st, true)
  adopt_members now st ((username, rec) ∷ members) = elim (refresh_peer now st username rec) [
    | none ↦ (st, false)
    | some st' ↦ adopt_members now st' members
  ]

-- The members with the cached record put over each, as `ensureGroupLoaded` leaves them.
merged_member : State → Text × KeyRecord → Text × KeyRecord
merged_member st (username, rec) = elim (Dict.get st.peers username) [
  | none ↦ (username, rec)
  | some peer ↦ (username, merge_peer (some rec) peer)
]

unfoldable pub merged_members : State → List (Text × KeyRecord) → List (Text × KeyRecord)
unfolding merged_member
merged_members st = map (merged_member st)

unfoldable pub is_hex_digit : ℕ → Bool
is_hex_digit c = (leb b'0' c && leb c b'9') || (leb b'a' c && leb c b'f')

-- `/^[0-9a-f]{64}$/`
unfoldable pub is_safety_code : Text → Bool
is_safety_code fp = length fp == 64 && not (any (λ c. not (is_hex_digit c)) fp)

-- What `processDeepLink` does with the keys once it has them: the link's code against the cache's.
unfoldable pub check_link : ℕ → State → Text → Text → KeyRecord → State
check_link now st who link_fp keys =
    if same keys.fingerprint link_fp then set_verified now st who link_fp true else record st {
      alerts =
          Dict.put st.alerts who
            (record { old_fp = link_fp; new_fp = keys.fingerprint; reason = link });
    }

module _ (fingerprint_of : Text → Text → Option Text) where
  -- `processDeepLink`, from the link's name and code on. Opening the conversation asks the relay
  -- (`opened`); the keys come from the cache, or the relay is asked again (`answer`).
  unfoldable pub process_deep_link :
      ℕ → State → Self → Text → Text → Option KeyRecord → Option KeyRecord → State
  process_deep_link now st me who link_fp opened answer =
      if same who [] || same who me.username
      then st
      else let shown = (get_peer_keys fingerprint_of now st who true opened).0 in
        if not (is_safety_code link_fp)
        then shown
        else let (asked, found) = get_peer_keys fingerprint_of now shown who false answer in
          elim found [ none ↦ asked | some keys ↦ check_link now asked who link_fp keys ]

  -- The dialog that `openFingerprint` shows for another user: the code on it, and whether its
  -- button takes the verification away. `none` where the keys cannot be loaded.
  unfoldable pub open_fingerprint :
      ℕ → State → Text → Option KeyRecord → State × Option (Text × Bool)
  open_fingerprint now st username answer =
      let (asked, found) = get_peer_keys fingerprint_of now st username true answer in
      (
        asked,
        elim found [
          | none ↦ none
          | some keys ↦ some (keys.fingerprint, is_verified asked username)
        ],
      )

-- The button of that dialog.
unfoldable pub toggle_verified : ℕ → State → Text → Text × Bool → State
toggle_verified now st username (fp, verified) = set_verified now st username fp (not verified)

-- A conversation as key trust sees it.
pub data Convo : Type 0 where
  dm : Text → Convo
  group : List (Text × KeyRecord) → Convo

names_in : Convo → List Text
names_in (dm username) = username ∷ []
names_in (group members) = map (λ m. m.0) members

unfoldable pub alerted_in : State → Convo → List Text
unfolding names_in
alerted_in st convo = filter (Dict.has st.alerts) (names_in convo)

-- `assertSendable`: false where it throws.
unfoldable pub assert_sendable : State → Convo → Bool
assert_sendable st convo = elim (alerted_in st convo) [ [] ↦ true | _ ∷ _ ↦ false ]

-- `recipientsFor`: `none` where a missing cache entry throws.
unfoldable pub recipients_for : State → Self → Convo → Option (List (Text × Text))
recipients_for st me (group members) = some (map (λ m. (m.0, m.1.kem_public_key)) members)
recipients_for st me (dm username) = elim (Dict.get st.peers username) [
  | none ↦ none
  | some peer ↦ some (
      (username, peer.kem_public_key)
      ∷ (if same username me.username then [] else (me.username, me.kem_public_key) ∷ []))
]
