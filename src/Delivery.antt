-- ===== src/Delivery.antt =====
-- A message or a file of client/js/app.js on its whole way: held back or encrypted by `sendCurrent` and
-- `sendFile` for whom key trust gives, and decrypted, shown and fetched by whoever receives it. It
-- joins the envelope (client/js/crypto.js), key trust and the conversations.
pub mod Arrival
pub mod Authentic
mod Tests
use lattix.Prelude.{
  ℕ, Text, Bytes, codes, same, Bool, true, false, Option, none, some, List, [], ◌∷◌, ◌++◌, length,
  if◌then◌else◌,
}
use lattix.Prelude.Dict
use lattix.Prelude.Decimal.{decimal}
use lattix.Crypto.Primitives.{Primitives, Fault, Result, ok, err}
use lattix.Crypto.Message.{Payload, encrypt_message, decrypt_message}
use lattix.Crypto.File.{Meta, FilePayload, encrypt_file, decrypt_file, open_file_payload}
use lattix.Trust
use lattix.Trust.{Self, KeyRecord, assert_sendable, recipients_for, get_peer_keys}
use lattix.History.{Peer, dm, group, Decoded, opened, failed}

-- `ctxFor`
unfoldable pub ctx_for : Peer → Text
ctx_for (dm username) = []
ctx_for (group gid) = codes "g:" ++ decimal gid

-- Whom a message goes to, once the keys are loaded; `none` where `assertSendable` or a missing key
-- throws.
unfoldable pub prepared : Trust.State → Self → Trust.Convo → Option (List (Text × Text))
prepared st me convo = if assert_sendable st convo then recipients_for st me convo else none

abbrev pub octet_stream : Text
octet_stream = codes "application/octet-stream"

-- A file of the user, `mime` being its `type`.
pub record UserFile : Type 0 where
  pub filename : Text
  pub mime : Text
  pub bytes : Bytes

unfoldable pub meta_of : UserFile → Meta
meta_of file = record {
  filename = file.filename;
  mime = if same file.mime [] then octet_stream else file.mime;
  size = length file.bytes;
}

-- What the relay is told of a file besides its contents.
pub record FileBody : Type 0 where
  pub file_id : Text
  pub filename : Text
  pub mime : Text
  pub size : ℕ
  pub payload : FilePayload

-- Where the sending ends: held back, in an error of the encryption or of the upload, or with what is
-- posted to the relay.
pub data SendEnd (A : Type 0) : Type 0 where
  held not_uploaded : SendEnd A
  thrown : Fault → SendEnd A
  posted : A → SendEnd A

-- The payload of an envelope.
pub data Content : Type 0 where
  sealed_text : Payload → Content
  sealed_file : FilePayload → Content

module _ (p : Primitives) where
  -- `sendCurrent` from the keys to the request.
  unfoldable pub send_text :
      (ℕ → Bytes) → Text → Option (List (Text × Text)) → Text → Peer → SendEnd Payload
  send_text draw text none dsa_secret peer = held
  send_text draw text (some recipients) dsa_secret peer =
      elim (encrypt_message p draw text recipients dsa_secret (ctx_for peer)) [
        | err fault ↦ thrown fault
        | ok payload ↦ posted payload
      ]

  -- `sendFile` from the keys to the request; `upload` gives the id of the stored bytes.
  unfoldable pub send_file :
      (ℕ → Bytes)
      → (Bytes → Option Text)
      → UserFile
      → Option (List (Text × Text))
      → Text
      → Peer
      → SendEnd FileBody
  send_file draw upload file none dsa_secret peer = held
  send_file draw upload file (some recipients) dsa_secret peer =
      elim (encrypt_file p draw file.bytes (meta_of file) recipients dsa_secret (ctx_for peer)) [
        | err fault ↦ thrown fault
        | ok (cipher_bytes, payload) ↦ elim (upload cipher_bytes) [
          | none ↦ not_uploaded
          | some file_id ↦ posted (record {
            file_id = file_id;
            filename = codes "file";
            mime = octet_stream;
            size = length file.bytes;
            payload = payload;
          })
        ]
      ]

  -- The decryption inside `decodeEnvelope`; a file is known by its name.
  unfoldable pub decoded : (Fault → Text) → Text → Text → Text → Text → Content → Decoded
  decoded shows me kem_secret dsa_pub ctx (sealed_text payload) =
      elim (decrypt_message p payload me kem_secret dsa_pub ctx) [
        | err fault ↦ failed (shows fault)
        | ok (text, verified) ↦ opened text verified
      ]
  decoded shows me kem_secret dsa_pub ctx (sealed_file payload) =
      elim (open_file_payload p payload me kem_secret dsa_pub ctx) [
        | err fault ↦ failed (shows fault)
        | ok file ↦ opened file.meta.filename file.verified
      ]

  -- `fetchDecryptedFile`; `download` is `none` where the relay does not give the bytes.
  unfoldable pub fetch_decrypted_file :
      (Text → Option Bytes) → Text → FilePayload → Text → Text → Text → Text → Option (Result Bytes)
  fetch_decrypted_file download file_id payload me kem_secret dsa_pub ctx =
      elim (download file_id) [
        | none ↦ none
        | some cipher_bytes ↦ some (decrypt_file p cipher_bytes payload me kem_secret dsa_pub ctx)
      ]

  -- What `ingestDm` and `ingestGroup` have of an envelope once the keys of its sender are there, and
  -- whether an alert stands for the sender (`keyAlert`); `answer` is what the relay says of the sender.
  unfoldable pub received :
      (Text → Text → Option Text)
      → ℕ
      → Trust.State
      → Text
      → Option KeyRecord
      → (Fault → Text)
      → Text
      → Text
      → Text
      → Content
      → Trust.State × Option (Bool × Decoded)
  received fingerprint_of now trust sender answer shows me kem_secret ctx content =
      let (asked, found) = get_peer_keys fingerprint_of now trust sender false answer in
      (
        asked,
        elim found [
          | none ↦ none
          | some keys ↦ some (
            Dict.has asked.alerts sender,
            decoded shows me kem_secret keys.dsa_public_key ctx content,
          )
        ],
      )
