-- ===== src/Delivery/Tests.antt =====
-- A message and a file of client/js/app.js from Alice to Bob.
use lattix.Prelude.{
  Option, Bytes, Text, codes, same, ◌≡◌, refl, true, false, none, some, [], ◌∷◌, ◌++◌,
  if◌then◌else◌,
}
use lattix.Prelude.Dict
use lattix.Crypto.Primitives.{Fault, ok}
use lattix.Crypto.Message.{Payload, decrypt_message, open_message}
use lattix.Crypto.Encoding.{b64_to_bytes}
use lattix.Crypto.Transcript.{sort, build_transcript, append_entries, entry_bytes}
use lattix.Crypto.Wrap.{unwrap_cek, derive_kek}
use lattix.Crypto.Toy.{keep, keep_laws, draw, alice, bob, both, signer, decoded, both_can}
use lattix.Trust
use lattix.Trust.Session.{here}
use lattix.Delivery.Authentic.{verified_message_authentic}
use lattix.Trust.{
  Pin, boot, load_pins, pin_store_key, get_peer_keys, refresh_peer, adopt_peer_keys, is_exempt,
  judge, resolve_alert, store_peer, merge_peer, Self, KeyRecord, alerted_in, assert_sendable,
  recipients_for,
}
use lattix.History.{group_loads, decode_answer, decode_envelope}
use lattix.History.{
  message, file, dm, Convo, State, Envelope, Kind, cid_of, is_past, peer_of, blocker_of, ingest,
}
use lattix.History.Races.{messages_in}
use lattix.History.Loading.{IsNew}
use lattix.Delivery
use lattix.Delivery.{
  ctx_for, prepared, UserFile, FileBody, posted, held, sealed_text, sealed_file, octet_stream,
  send_text, send_file, fetch_decrypted_file, received,
}
use lattix.Delivery.Arrival.{arrived, text_arrives, file_arrives}

abbrev self : Self
self = record { username = alice; kem_public_key = codes "ka"; fingerprint = codes "f" }

abbrev bob_keys : KeyRecord
bob_keys = record {
  kem_public_key = codes "kb";
  dsa_public_key = codes "db";
  fingerprint = codes "g";
  avatar = none;
}

-- Alice's session, which knows Bob's keys.
abbrev sending : Trust.State
sending = record {
  identity = some self;
  peers = (bob, bob_keys) ∷ [];
  pins = [];
  alerts = [];
  origin = codes "o";
  storage = [];
  can_save = true;
}

sending_allowed : prepared sending self (Trust.dm bob) ≡ some both
unfolding prepared assert_sendable alerted_in recipients_for Dict.get Dict.has same
sending_allowed = refl

-- Bob's conversation with Alice, and the envelope in which the relay hands a payload on.
abbrev talk : Convo
talk = record { peer = dm alice; messages = []; unread = 0; max_id = 0 }

abbrev receiving : State
receiving = record {
  me = bob;
  convos = (alice, talk) ∷ [];
  seen = [];
  blocked = [];
  current = none;
}

abbrev envelope : Kind → Envelope
envelope kind = record {
  id = 4;
  sender = alice;
  recipient = bob;
  group_id = none;
  group_load = group_loads;
  created_at = 50;
  kind = some kind;
  expires_at = none;
}

envelope-IsNew : (kind : Kind) → IsNew 60 receiving (dm alice) (envelope kind)
unfolding peer_of blocker_of is_past same Dict.member
envelope-IsNew kind = record { own = refl; unseen = refl; allowed = refl; fresh = refl }

abbrev shows : Fault → Text
shows fault = codes "error"

text_arrives_example :
    (payload : Payload) × (send_text keep draw
        (codes "hi")
        (prepared sending self (Trust.dm bob))
        (codes "dsa")
        (dm bob)
      ≡ posted payload)
    × (messages_in
          (ingest 60 receiving
            (envelope message)
            (some (
              false,
              Delivery.decoded keep shows bob
                  (codes "secret")
                  (codes "dsa")
                  (ctx_for (dm alice))
                  (sealed_text payload),
            ))
            true)
          (dm alice)
        ≡ [] ++ arrived receiving (envelope message) false message (codes "hi") ∷ [])
unfolding same cid_of Dict.get ctx_for
text_arrives_example =
    text_arrives 60 receiving (dm alice) talk (envelope message) true false refl tt tt
      (envelope-IsNew message) keep keep_laws draw (codes "secret") both (both_can bob)
      (codes "dsa") (codes "dsa") (codes "dsa") (codes "dsa") (decoded (codes "dsa"))
      (decoded (codes "dsa")) signer refl shows (dm bob) refl sending self (Trust.dm bob)
      sending_allowed (codes "hi") refl refl

abbrev note : UserFile
note = record { filename = codes "a.txt"; mime = []; bytes = codes "abc" }

file_arrives_example :
    (body : FileBody) × (send_file keep draw
        (λ b. some b)
        note
        (prepared sending self (Trust.dm bob))
        (codes "dsa")
        (dm bob)
      ≡ posted body)
    × (body.filename ≡ codes "file")
    × (body.mime ≡ octet_stream)
    × (messages_in
          (ingest 60 receiving
            (envelope file)
            (some (
              false,
              Delivery.decoded keep shows bob
                  (codes "secret")
                  (codes "dsa")
                  (ctx_for (dm alice))
                  (sealed_file body.payload),
            ))
            true)
          (dm alice)
        ≡ []
          ++ arrived receiving
              (envelope file)
              false
              file
              (if same (codes "a.txt") [] then codes "file" else codes "a.txt")
            ∷ [])
    × (fetch_decrypted_file keep
          (λ id. some id)
          body.file_id
          body.payload
          bob
          (codes "secret")
          (codes "dsa")
          (ctx_for (dm alice))
        ≡ some (ok (codes "abc")))
unfolding same cid_of Dict.get ctx_for
file_arrives_example =
    file_arrives 60 receiving (dm alice) talk (envelope file) true false refl tt tt
      (envelope-IsNew file) keep keep_laws draw (codes "secret") both (both_can bob) (codes "dsa")
      (codes "dsa") (codes "dsa") (codes "dsa") (decoded (codes "dsa")) (decoded (codes "dsa"))
      signer refl shows (dm bob) refl sending self (Trust.dm bob) sending_allowed note (λ b. some b)
      (λ id. some id) refl (λ b. (b, refl, refl)) refl

-- An alert for Bob's keys holds the message back.
held_test :
    send_text keep draw
      (codes "hi")
      (prepared
        (record sending {
          alerts =
              (bob, record { old_fp = codes "a"; new_fp = codes "b"; reason = Trust.link }) ∷ [];
        })
        self
        (Trust.dm bob))
      (codes "dsa")
      (dm bob)
    ≡ held
unfolding send_text prepared assert_sendable alerted_in Dict.get Dict.has same
held_test = refl

-- Bob's session at its start, which remembers Alice's code as verified; two keys' code is the one
-- followed by the other.
abbrev code_of : Text → Text → Option Text
code_of kem dsa = some (kem ++ dsa)

abbrev bob_self : Self
bob_self = record { username = bob; kem_public_key = codes "kb"; fingerprint = codes "kbdb" }

abbrev alice_keys : KeyRecord
alice_keys = record {
  kem_public_key = codes "ka";
  dsa_public_key = codes "dsa";
  fingerprint = [];
  avatar = none;
}

abbrev alice_pin : Pin
alice_pin = record { fp = codes "kadsa"; verified = true; stamp = 1 }

abbrev at_start : Trust.State
at_start = record sending {
  identity = none;
  peers = [];
  storage = (codes "lattix.pins.o", some ((alice, alice_pin) ∷ [])) ∷ [];
}

abbrev hello : Payload
hello = record {
  iv = codes "i";
  ciphertext = codes "khi";
  keys = (bob, record { kem_ct = codes "s"; iv = codes "v"; wrapped = codes "sk" }) ∷ [];
  signature = codes "dsa" ++ codes "msgikhi" ++ codes "bobsvsk";
}

verified_message_authentic_example :
    (kem dsa : Text) × (iv ct t pk signature : Bytes) × (code_of kem dsa ≡ some (codes "kadsa"))
    × (decrypt_message keep hello bob (codes "secret") dsa [] ≡ ok (codes "hi", true))
    × (build_transcript keep (keep.utf8 (codes "msg" ++ [])) iv ct hello.keys ≡ ok t)
    × (b64_to_bytes keep dsa ≡ ok pk)
    × (b64_to_bytes keep hello.signature ≡ ok signature)
    × (keep.verify pk t signature ≡ true)
unfolding received Delivery.decoded get_peer_keys refresh_peer adopt_peer_keys is_exempt judge
    resolve_alert store_peer merge_peer boot load_pins pin_store_key Dict.get Dict.put Dict.del
    Dict.has same decode_answer decode_envelope decrypt_message open_message build_transcript
    append_entries entry_bytes sort b64_to_bytes unwrap_cek derive_kek
verified_message_authentic_example =
    verified_message_authentic keep code_of at_start bob_self bob_keys
      (boot at_start bob_self bob_keys) 7 (some alice_keys) shows (codes "secret") [] hello
      receiving (envelope message) alice_pin
      (arrived receiving (envelope message) false message (codes "hi")) here refl refl refl refl
      refl refl
