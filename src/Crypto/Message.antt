-- ===== src/Crypto/Message.antt =====
-- `encryptMessage` and `decryptMessage` of client/js/crypto.js.
pub mod Laws
use lattix.Prelude.{ℕ, Text, Bytes, Bool, true, false, List, [], ◌++◌, codes, if◌then◌else◌}
use lattix.Prelude.Dict
use lattix.Prelude.Dict.{Dict}
use lattix.Crypto.Primitives.{
  Primitives, Result, ok, err, or_throw, decrypt_failed, message_not_authentic,
  message_not_addressed, ◌>>=◌,
}
use lattix.Crypto.Encoding.{bytes_to_b64, b64_to_bytes}
use lattix.Crypto.Transcript.{Entry, build_transcript}
use lattix.Crypto.Wrap.{wrap_cek_for_parties, unwrap_cek}

pub record Payload : Type 0 where
  pub iv : Text
  pub ciphertext : Text
  pub keys : Dict Entry
  pub signature : Text

module _ (p : Primitives) where
  open p use {utf8, decode, gcm_encrypt, gcm_decrypt, sign, verify}

  -- The randomness: `draw 0` is the content key, `draw 1` the IV, and the rest wraps the key.
  unfoldable pub encrypt_message :
      (ℕ → Bytes) → Text → List (Text × Text) → Text → Text → Result Payload
  encrypt_message draw plaintext recipients sender_dsa_secret context = do
    let cek_raw = draw 0
    let iv = draw 1
    let ct = gcm_encrypt cek_raw iv (utf8 plaintext)
    keys ← wrap_cek_for_parties p draw 2 cek_raw [] recipients
    transcript ← build_transcript p (utf8 (codes "msg" ++ context)) iv ct keys
    secret ← b64_to_bytes p sender_dsa_secret
    ok (record {
      iv = bytes_to_b64 p iv;
      ciphertext = bytes_to_b64 p ct;
      keys = keys;
      signature = bytes_to_b64 p (sign secret transcript);
    })

  -- The part below the signature check.
  unfoldable pub open_message : Payload → Bytes → Bytes → Text → Text → Result (Text × Bool)
  open_message payload iv ct my_username my_kem_secret = do
    entry ← or_throw message_not_addressed (Dict.get payload.keys my_username)
    cek ← unwrap_cek p entry my_kem_secret
    pt ← or_throw decrypt_failed (gcm_decrypt cek iv ct)
    ok (decode pt, true)

  unfoldable pub decrypt_message : Payload → Text → Text → Text → Text → Result (Text × Bool)
  decrypt_message payload my_username my_kem_secret sender_dsa_pub context = do
    iv ← b64_to_bytes p payload.iv
    ct ← b64_to_bytes p payload.ciphertext
    transcript ← build_transcript p (utf8 (codes "msg" ++ context)) iv ct payload.keys
    pub_key ← b64_to_bytes p sender_dsa_pub
    signature ← b64_to_bytes p payload.signature
    if verify pub_key transcript signature
        then open_message payload iv ct my_username my_kem_secret
        else err message_not_authentic
