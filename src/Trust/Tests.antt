-- ===== src/Trust/Tests.antt =====
-- The theorems about key trust in client/js/app.js at concrete inputs: Alice's session, whose pins
-- hold Bob's code as verified. Two keys' code is the one followed by the other.
use lattix.Prelude.{
  Text, codes, same, ◌≡◌, refl, true, false, Option, none, some, [], ◌∷◌, ◌++◌, All, arith,
}
use lattix.Prelude.Dict
use lattix.Prelude.Dict.{Dict}
use lattix.Trust.{
  pin_key, save_pins, written_pins, KeyRecord, Pin, Self, State, dm, group, changed, link,
  pin_store_key, load_pins, is_verified, raise_alert, resolve_alert, judge, is_exempt, merge_peer,
  store_peer, boot, adopt_peer_keys, refresh_peer, get_peer_keys, adopt_members, merged_members,
  toggle_verified, alerted_in, assert_sendable, recipients_for,
}
use lattix.Trust.Session.{Reach, here, next, asked}
use lattix.Trust.Sending.{IsVerifiedKey, Reach-dm_recipients, Reach-group_recipients}
use lattix.Trust.Stale.{stale_dialog_verifies, own_key_unchecked}
use lattix.Trust.Persist.{reboot_keeps_pins}

abbrev hash : Text → Text → Option Text
hash kem dsa = some (kem ++ dsa)

abbrev alice : Text
alice = codes "al"

abbrev bob : Text
bob = codes "bo"

abbrev me : Self
me = record { username = alice; kem_public_key = codes "ka"; fingerprint = codes "kada" }

abbrev own : KeyRecord
own = record {
  kem_public_key = codes "ka";
  dsa_public_key = codes "da";
  fingerprint = codes "kada";
  avatar = none;
}

abbrev bob_keys : KeyRecord
bob_keys = record {
  kem_public_key = codes "kb";
  dsa_public_key = codes "db";
  fingerprint = codes "kbdb";
  avatar = none;
}

abbrev other_keys : KeyRecord
other_keys = record bob_keys { kem_public_key = codes "kx" }

abbrev pin : Pin
pin = record { fp = codes "kbdb"; verified = true; stamp = 1 }

abbrev unverified_pin : Pin
unverified_pin = record pin { verified = false }

abbrev start : State
start = record {
  identity = none;
  peers = [];
  pins = [];
  alerts = [];
  origin = codes "o";
  storage = (codes "lattix.pins.o", some ((bob, pin) ∷ [])) ∷ [];
  can_save = true;
}

-- The session right after its start.
abbrev session : State
session = record start { identity = some me; peers = (alice, own) ∷ []; pins = (bob, pin) ∷ [] }

abbrev talking : State
talking = record session { peers = (alice, own) ∷ (bob, bob_keys) ∷ [] }

boots : boot start me own ≡ session
unfolding boot load_pins pin_store_key Dict.get Dict.put same
boots = refl

reached : Reach hash (boot start me own) talking
unfolding boot load_pins pin_store_key Dict.get Dict.put Dict.del get_peer_keys refresh_peer
    adopt_peer_keys is_exempt judge resolve_alert store_peer merge_peer same
reached = next here (asked 5 bob true (some bob_keys) refl)

Reach-dm_recipients_example :
    All (IsVerifiedKey hash talking) ((bob, codes "kb") ∷ (alice, codes "ka") ∷ [])
unfolding assert_sendable alerted_in recipients_for Dict.has Dict.get same
Reach-dm_recipients_example =
    Reach-dm_recipients hash start me own talking bob ((bob, codes "kb") ∷ (alice, codes "ka") ∷ [])
      reached refl refl

Reach-group_recipients_example :
    All (IsVerifiedKey hash talking) ((bob, codes "kb") ∷ (alice, codes "ka") ∷ [])
unfolding adopt_members refresh_peer adopt_peer_keys is_exempt judge resolve_alert store_peer
    merge_peer merged_members assert_sendable alerted_in recipients_for Dict.has Dict.get Dict.put
    Dict.del same
Reach-group_recipients_example =
    Reach-group_recipients hash start me own talking talking 6 ((bob, bob_keys) ∷ (alice, own) ∷ [])
      ((bob, codes "kb") ∷ (alice, codes "ka") ∷ []) reached refl refl refl

abbrev warned : State
warned = record talking {
  peers = (alice, own) ∷ (bob, record other_keys { fingerprint = codes "kxdb" }) ∷ [];
  alerts = (bob, record { old_fp = codes "kbdb"; new_fp = codes "kxdb"; reason = changed }) ∷ [];
}

warns : refresh_peer hash 7 talking bob other_keys ≡ some warned
unfolding refresh_peer adopt_peer_keys is_exempt judge raise_alert store_peer merge_peer Dict.get
    Dict.put same
warns = refl

abbrev unsure : State
unsure = record talking { pins = (bob, unverified_pin) ∷ [] }

abbrev repinned : State
repinned = record unsure {
  peers = (alice, own) ∷ (bob, record other_keys { fingerprint = codes "kxdb" }) ∷ [];
  pins = (bob, record { fp = codes "kxdb"; verified = false; stamp = 7 }) ∷ [];
  storage =
      (
        codes "lattix.pins.o",
        some ((bob, record { fp = codes "kxdb"; verified = false; stamp = 7 }) ∷ []),
      )
      ∷ [];
}

abbrev suspected : State
suspected = record talking {
  alerts = (bob, record { old_fp = codes "link"; new_fp = codes "kbdb"; reason = link }) ∷ [];
}

stale_dialog_verifies_example :
    (is_verified (toggle_verified 8 warned bob (codes "kbdb", false)) bob ≡ true)
    × (assert_sendable (toggle_verified 8 warned bob (codes "kbdb", false)) (dm bob) ≡ true)
    × (recipients_for (toggle_verified 8 warned bob (codes "kbdb", false)) me (dm bob)
        ≡ some ((bob, codes "kx") ∷ (alice, codes "ka") ∷ []))
unfolding Dict.get same
stale_dialog_verifies_example =
    stale_dialog_verifies hash 8 warned me bob (codes "kbdb")
      (record other_keys { fingerprint = codes "kxdb" }) refl (λ e. absurd (ground arith))
      (λ e. absurd (ground arith))

abbrev forged : KeyRecord
forged = record own { kem_public_key = codes "kz" }

abbrev misled : State
misled = record session { peers = (alice, record forged { fingerprint = codes "kzda" }) ∷ [] }

own_key_unchecked_example :
    (misled.pins ≡ session.pins)
    × (misled.alerts ≡ session.alerts)
    × (recipients_for misled me (group (merged_members misled ((alice, forged) ∷ [])))
        ≡ some ((alice, codes "kz") ∷ []))
unfolding adopt_members refresh_peer adopt_peer_keys is_exempt store_peer merge_peer Dict.get
    Dict.put same
own_key_unchecked_example = own_key_unchecked hash 9 session misled me forged refl refl

reboot_keeps_pins_example :
    (Dict.get (boot talking me own).pins bob ≡ Dict.get talking.pins bob)
    × ((boot talking me own).alerts ≡ [])
unfolding same
reboot_keeps_pins_example = reboot_keeps_pins hash start me own talking me own bob refl reached refl

-- The pin of this name is lost.
lost_pin_test :
    Dict.get
      (load_pins (pin_key 7 start (codes "__proto__") (codes "kbdb") true))
      (codes "__proto__")
    ≡ none
unfolding pin_key save_pins written_pins load_pins pin_store_key Dict.get Dict.put Dict.del same
lost_pin_test = refl
