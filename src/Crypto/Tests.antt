-- ===== src/Crypto/Tests.antt =====
-- The theorems about client/js/crypto.js at concrete inputs, over primitives that compute.
use lattix.Prelude.{
  Bytes, ◌≡◌, refl, true, false, none, some, [], ◌∷◌, ◌++◌, All, codes, same, arith,
}
use lattix.Prelude.Dict
use lattix.Prelude.Dict.{Dict}
use lattix.Crypto.Primitives.{RawMeta, ok, err, file_contents_differ}
use lattix.Crypto.Encoding.{bytes_to_b64, b64_to_bytes, join_chunks}
use lattix.Crypto.Transcript.{Entry, sort, build_transcript, append_entries, entry_bytes}
use lattix.Crypto.Wrap.{unwrap_cek, derive_kek}
use lattix.Crypto.Message.{Payload, encrypt_message, decrypt_message, open_message}
use lattix.Crypto.Message.Laws.{decrypt-encrypt_message, decrypt_message_verified}
use lattix.Crypto.File.{
  Meta, encrypt_file, FilePayload, is_file_v2, clean_meta, verify_file_payload, open_file_payload,
  decrypt_file, file_v2_transcript,
}
use lattix.Crypto.File.Laws.{decrypt-encrypt_file, decrypt_file_refuses_other}
use lattix.Crypto.Binding.{SameKey, build_transcript_binds}
use lattix.Crypto.Toy.{alice, keep, keep_laws, draw, bob, both, signer, decoded, both_can}

decrypt-encrypt_message_example :
    (payload : Payload) × (encrypt_message keep draw (codes "hi") both (codes "dsa") (codes "g:1")
      ≡ ok payload)
    × (decrypt_message keep payload bob (codes "secret") (codes "dsa") (codes "g:1")
        ≡ ok (codes "hi", true))
unfolding same
decrypt-encrypt_message_example =
    decrypt-encrypt_message keep keep_laws draw bob (codes "secret") both (both_can bob)
      (codes "dsa") (codes "dsa") (codes "dsa") (codes "dsa") (decoded (codes "dsa"))
      (decoded (codes "dsa")) signer (codes "hi") (codes "g:1") refl refl

abbrev note : Meta
note = record { filename = codes "a.txt"; mime = codes "text/plain"; size = 3 }

abbrev note_raw : RawMeta
note_raw = record {
  filename = some (codes "a.txt");
  mime = some (codes "text/plain");
  size = some 3;
}

-- A content key wrapped for Bob, and its bytes in a transcript.
abbrev bob_entry : Entry
bob_entry = record { kem_ct = codes "s"; iv = codes "v"; wrapped = codes "sk" }

abbrev bob_part : Bytes
bob_part = codes "bobsvsk"

abbrev hello : Payload
hello = record {
  iv = codes "i";
  ciphertext = codes "khi";
  keys = (bob, bob_entry) ∷ [];
  signature = codes "dsa" ++ codes "msgikhi" ++ bob_part;
}

hello_opens :
    decrypt_message keep hello bob (codes "secret") (codes "dsa") [] ≡ ok (codes "hi", true)
unfolding decrypt_message open_message build_transcript append_entries entry_bytes sort b64_to_bytes
    unwrap_cek derive_kek Dict.get same
hello_opens = refl

decrypt_message_verified_example :
    (iv ct t pk signature : Bytes) × (b64_to_bytes keep (codes "i") ≡ ok iv)
    × (b64_to_bytes keep (codes "khi") ≡ ok ct)
    × (build_transcript keep (codes "msg") iv ct ((bob, bob_entry) ∷ []) ≡ ok t)
    × (b64_to_bytes keep (codes "dsa") ≡ ok pk)
    × (b64_to_bytes keep (codes "dsamsgikhibobsvsk") ≡ ok signature)
    × (same signature (pk ++ t) ≡ true)
    × (true ≡ true)
decrypt_message_verified_example =
    decrypt_message_verified keep hello bob (codes "secret") (codes "dsa") [] (codes "hi") true
      hello_opens

abbrev note_file : FilePayload
note_file = record {
  v = some 2;
  iv = codes "i";
  meta_iv = some (codes "m");
  meta_ct = some (codes "kmeta");
  ct_sha256 = some (codes "kabc");
  raw = record { filename = none; mime = none; size = none };
  keys = (bob, bob_entry) ∷ [];
  signature =
      codes "dsa"
      ++ codes "lattix-file-v2"
      ++ (0 ∷ 0 ∷ [])
      ++ codes "imkabc"
      ++ codes "kmeta"
      ++ bob_part;
}

note_verifies : verify_file_payload keep note_file (codes "dsa") [] ≡ ok true
unfolding verify_file_payload is_file_v2 file_v2_transcript build_transcript append_entries
    entry_bytes sort b64_to_bytes Dict.get same
note_verifies = refl

decrypt_file_refuses_other_example :
    decrypt_file keep (codes "kxyz") note_file bob (codes "secret") (codes "dsa") []
    ≡ err file_contents_differ
unfolding is_file_v2 bytes_to_b64 join_chunks
decrypt_file_refuses_other_example =
    decrypt_file_refuses_other keep keep_laws note_file bob (codes "secret") (codes "dsa") []
      (codes "kabc") (codes "kxyz") refl refl note_verifies (λ e. absurd (ground arith))

note_unverified : verify_file_payload keep note_file (codes "eve") [] ≡ ok false
unfolding verify_file_payload is_file_v2 file_v2_transcript build_transcript append_entries
    entry_bytes sort b64_to_bytes Dict.get same
note_unverified = refl

build_transcript_binds_example :
    (codes "i" ≡ codes "i")
    × (codes "khi" ≡ codes "khi")
    × All
        (SameKey keep ((bob, bob_entry) ∷ []) ((bob, bob_entry) ∷ []))
        (sort (Dict.keys ((bob, bob_entry) ∷ [])))
unfolding build_transcript append_entries entry_bytes sort b64_to_bytes Dict.get same
build_transcript_binds_example =
    build_transcript_binds keep ((bob, bob_entry) ∷ []) ((bob, bob_entry) ∷ []) (codes "msg")
      (codes "i") (codes "i") (codes "khi") (codes "khi") (codes "msgikhi" ++ bob_part) refl refl
      refl
      (
        (λ e e' k k' i i' w w' he he' hk hk' hi hi' hw hw'.
            (ground arith, ground arith, ground arith)),
        tt,
      )
      refl refl

-- Signed for group 1: the context and the IV, cut after one byte, are an IV and a ciphertext.
abbrev grouped : Payload
grouped = record {
  iv = codes "i";
  ciphertext = codes "khi";
  keys = (bob, bob_entry) ∷ [];
  signature = codes "dsa" ++ codes "msgg:1ikhi" ++ bob_part;
}

decrypt-encrypt_file_example :
    (c : Bytes) × (f : FilePayload) × (encrypt_file keep draw
        (codes "abc")
        note
        both
        (codes "dsa")
        []
      ≡ ok (c, f))
    × (decrypt_file keep c f alice (codes "secret") (codes "dsa") [] ≡ ok (codes "abc"))
    × (open_file_payload keep f alice (codes "secret") (codes "dsa") []
        ≡ ok (record { meta = clean_meta note_raw; verified = true; legacy = false }))
unfolding same
decrypt-encrypt_file_example =
    decrypt-encrypt_file keep keep_laws draw alice (codes "secret") both (both_can alice)
      (codes "dsa") (codes "dsa") (codes "dsa") (codes "dsa") (decoded (codes "dsa"))
      (decoded (codes "dsa")) signer (codes "abc") note [] refl refl
