-- ===== src/Crypto/File.antt =====
-- Files in client/js/crypto.js: `encryptFile`, `verifyFilePayload`, `openFilePayload` and
-- `decryptFile`, in the formats v2 and v1 (legacy).
pub mod Laws
use lattix.Prelude.{
  ℕ, ◌+◌, Text, Bytes, Bool, true, false, Option, none, some, List, [], ◌∷◌, ◌++◌, codes, same,
  ◌==◌, ◌&&◌, not, if◌then◌else◌,
}
use lattix.Prelude.Dict
use lattix.Prelude.Dict.{Dict}
use lattix.Crypto.Primitives.{
  Primitives, RawMeta, Result, ok, err, or_throw, bad_base64, bad_json, decrypt_failed,
  file_not_authentic, file_contents_differ, file_not_addressed, ◌>>=◌,
}
use lattix.Crypto.Encoding.{bytes_to_b64, b64_to_bytes}
use lattix.Crypto.Transcript.{Entry, build_transcript}
use lattix.Crypto.Wrap.{wrap_cek_for_parties, unwrap_cek}

pub record Meta : Type 0 where
  pub filename : Text
  pub mime : Text
  pub size : ℕ

-- A payload of either format; absent properties are `none`.
pub record FilePayload : Type 0 where
  pub v : Option ℕ
  pub iv : Text
  pub meta_iv : Option Text
  pub meta_ct : Option Text
  pub ct_sha256 : Option Text
  pub raw : RawMeta
  pub keys : Dict Entry
  pub signature : Text

pub record Opened : Type 0 where
  pub meta : Meta
  pub verified : Bool
  pub legacy : Bool

unfoldable pub is_file_v2 : FilePayload → Bool
is_file_v2 payload = elim payload.v [
  | none ↦ false
  | some n ↦ n == 2 && elim payload.meta_ct [ none ↦ false | some _ ↦ true ]
]

-- `String(x || fallback)`
text_or : Option Text → Text → Text
text_or none fallback = fallback
text_or (some []) fallback = fallback
text_or (some (c ∷ s)) fallback = c ∷ s

-- `Number(x) || 0`
number_or_zero : Option ℕ → ℕ
number_or_zero none = 0
number_or_zero (some n) = n

unfoldable pub clean_meta : RawMeta → Meta
unfolding text_or number_or_zero
clean_meta m = record {
  filename = text_or m.filename (codes "file");
  mime = text_or m.mime [];
  size = number_or_zero m.size;
}

module _ (p : Primitives) where
  open p use {
    utf8, decode, sha256, gcm_encrypt, gcm_decrypt, sign, verify, stringify_meta, parse_meta,
  }

  -- `b64ToBytes` of a property: `atob("undefined")` throws too.
  field_bytes : Option Text → Result Bytes
  field_bytes none = err bad_base64
  field_bytes (some b64) = b64_to_bytes p b64

  unfoldable pub file_v2_transcript : FilePayload → Text → Result Bytes
  unfolding field_bytes
  file_v2_transcript payload context = do
    let prefix = utf8 (codes "lattix-file-v2" ++ 0 ∷ context ++ 0 ∷ [])
    iv ← b64_to_bytes p payload.iv
    meta_iv ← field_bytes payload.meta_iv
    ct_sha256 ← field_bytes payload.ct_sha256
    meta_ct ← field_bytes payload.meta_ct
    build_transcript p prefix (iv ++ meta_iv ++ ct_sha256) meta_ct payload.keys

  unfoldable pub legacy_transcript : FilePayload → Text → Result Bytes
  legacy_transcript payload context = do
    iv ← b64_to_bytes p payload.iv
    build_transcript p (utf8 (context ++ stringify_meta payload.raw)) iv [] payload.keys

  unfoldable pub verify_file_payload : FilePayload → Text → Text → Result Bool
  verify_file_payload payload sender_dsa_pub context =
      if is_file_v2 payload
      then (do
        pub_key ← b64_to_bytes p sender_dsa_pub
        transcript ← file_v2_transcript payload context
        signature ← b64_to_bytes p payload.signature
        ok (verify pub_key transcript signature))
      else do
        transcript ← legacy_transcript payload context
        pub_key ← b64_to_bytes p sender_dsa_pub
        signature ← b64_to_bytes p payload.signature
        ok (verify pub_key transcript signature)

  -- The randomness: `draw 0` is the content key, `draw 1` and `draw 2` the IVs of the contents and
  -- of the metadata, and the rest wraps the key.
  unfoldable pub encrypt_file :
      (ℕ → Bytes) → Bytes → Meta → List (Text × Text) → Text → Text → Result (Bytes × FilePayload)
  encrypt_file draw file_bytes meta recipients sender_dsa_secret context = do
    let cek_raw = draw 0
    let iv = draw 1
    let cipher_bytes = gcm_encrypt cek_raw iv file_bytes
    let meta_iv = draw 2
    let raw : RawMeta = record {
      filename = some meta.filename;
      mime = some meta.mime;
      size = some meta.size;
    }
    let meta_ct = gcm_encrypt cek_raw meta_iv (utf8 (stringify_meta raw))
    keys ← wrap_cek_for_parties p draw 3 cek_raw [] recipients
    let unsigned : FilePayload = record {
      v = some 2;
      iv = bytes_to_b64 p iv;
      meta_iv = some (bytes_to_b64 p meta_iv);
      meta_ct = some (bytes_to_b64 p meta_ct);
      ct_sha256 = some (bytes_to_b64 p (sha256 cipher_bytes));
      raw = record { filename = none; mime = none; size = none };
      keys = keys;
      signature = [];
    }
    secret ← b64_to_bytes p sender_dsa_secret
    transcript ← file_v2_transcript unsigned context
    ok (cipher_bytes, record unsigned { signature = bytes_to_b64 p (sign secret transcript) })

  -- The part of `openFilePayload` below the check of a v2 signature.
  unfoldable pub open_meta : FilePayload → Text → Text → Result Opened
  unfolding field_bytes
  open_meta payload my_username my_kem_secret = do
    entry ← or_throw file_not_addressed (Dict.get payload.keys my_username)
    cek ← unwrap_cek p entry my_kem_secret
    meta_iv ← field_bytes payload.meta_iv
    meta_ct ← field_bytes payload.meta_ct
    raw ← or_throw decrypt_failed (gcm_decrypt cek meta_iv meta_ct)
    m ← or_throw bad_json (parse_meta (decode raw))
    ok (record { meta = clean_meta m; verified = true; legacy = false })

  unfoldable pub open_file_payload : FilePayload → Text → Text → Text → Text → Result Opened
  open_file_payload payload my_username my_kem_secret sender_dsa_pub context = do
    verified ← verify_file_payload payload sender_dsa_pub context
    if not (is_file_v2 payload)
        then ok (record { meta = clean_meta payload.raw; verified = verified; legacy = true })
        else if not verified
        then err file_not_authentic
        else open_meta payload my_username my_kem_secret

  -- The part of `decryptFile` below its checks.
  unfoldable pub open_contents : Bytes → FilePayload → Text → Text → Result Bytes
  open_contents cipher_bytes payload my_username my_kem_secret = do
    entry ← or_throw file_not_addressed (Dict.get payload.keys my_username)
    cek ← unwrap_cek p entry my_kem_secret
    iv ← b64_to_bytes p payload.iv
    or_throw decrypt_failed (gcm_decrypt cek iv cipher_bytes)

  -- `got !== payload.ct_sha256`
  hash_differs : Bytes → Option Text → Bool
  hash_differs cipher_bytes none = true
  hash_differs cipher_bytes (some signed) = not (same (bytes_to_b64 p (sha256 cipher_bytes)) signed)

  unfoldable pub decrypt_file : Bytes → FilePayload → Text → Text → Text → Text → Result Bytes
  unfolding hash_differs
  decrypt_file cipher_bytes payload my_username my_kem_secret sender_dsa_pub context = do
    verified ← verify_file_payload payload sender_dsa_pub context
    if not verified
        then err file_not_authentic
        else if is_file_v2 payload && hash_differs cipher_bytes payload.ct_sha256
        then err file_contents_differ
        else open_contents cipher_bytes payload my_username my_kem_secret
