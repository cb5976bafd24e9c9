-- ===== src/Crypto/File/Laws.antt =====
-- What the file functions of client/js/crypto.js make of a payload, the sender's own among them.
use lattix.Prelude.{
  ℕ, Text, Bytes, ◌≡◌, ◌≢◌, true, false, none, some, List, [], ◌∷◌, ◌++◌, any, same, same_iff,
  same_refl, All, codes, arith, Option-cases, Bool-cases, inl, inr, if◌then◌else◌,
}
use lattix.Prelude.Dict
use lattix.Crypto.Primitives.{
  Primitives, Laws, RawMeta, IsDsaPair, ok, err, file_not_authentic, file_contents_differ, ◌>>=◌,
}
use lattix.Crypto.Encoding.{bytes_to_b64, b64_to_bytes, b64_to_bytes-bytes_to_b64}
use lattix.Crypto.Transcript.{Entry, build_transcript, build_transcript_total}
use lattix.Crypto.Wrap.{
  CanWrap, Wrapped, wrap_cek_for_parties, wrap_cek_for_parties_lem, unwrap_cek,
}
use lattix.Crypto.File.{
  Meta, FilePayload, is_file_v2, clean_meta, file_v2_transcript, verify_file_payload, encrypt_file,
  open_meta, open_file_payload, open_contents, decrypt_file,
}

-- Different contents have different encodings.
bytes_to_b64_injective :
    (p : Primitives) (laws : Laws p) (a b : Bytes) → bytes_to_b64 p a ≡ bytes_to_b64 p b → a ≡ b
bytes_to_b64_injective p laws a b e = let f = b64_to_bytes-bytes_to_b64 p laws in cc (f a, f b, e)

module _ (p : Primitives) (laws : Laws p) (draw : ℕ → Bytes) (me secret : Text)
    (recipients : List (Text × Text)) (can : All (CanWrap p me secret) recipients)
    (dsa_secret dsa_pub : Text) (sk pk : Bytes) (hsk : b64_to_bytes p dsa_secret ≡ ok sk)
    (hpk : b64_to_bytes p dsa_pub ≡ ok pk) (pair : IsDsaPair p pk sk) (file_bytes : Bytes)
    (meta : Meta) (context : Text) where
  honest :
      Wrapped p laws draw
        (draw 0)
        me
        secret
        []
        recipients
        (wrap_cek_for_parties p draw 3 (draw 0) [] recipients)
  unfolding Dict.get
  honest =
      wrap_cek_for_parties_lem p laws draw (draw 0) me secret 3 [] recipients can
        (record { at_name = λ u e h. absurd (ground arith) }) (λ e h. absurd (ground arith))

  abbrev raw : RawMeta
  raw = record { filename = some meta.filename; mime = some meta.mime; size = some meta.size }

  abbrev cipher : Bytes
  cipher = p.gcm_encrypt (draw 0) (draw 1) file_bytes

  abbrev meta_cipher : Bytes
  meta_cipher = p.gcm_encrypt (draw 0) (draw 2) (p.utf8 (p.stringify_meta raw))

  abbrev unsigned : FilePayload
  unsigned = record {
    v = some 2;
    iv = bytes_to_b64 p (draw 1);
    meta_iv = some (bytes_to_b64 p (draw 2));
    meta_ct = some (bytes_to_b64 p meta_cipher);
    ct_sha256 = some (bytes_to_b64 p (p.sha256 cipher));
    raw = record { filename = none; mime = none; size = none };
    keys = honest.out;
    signature = [];
  }

  total :
      (t : Bytes) × (build_transcript p
          (p.utf8 (codes "lattix-file-v2" ++ 0 ∷ context ++ 0 ∷ []))
          (draw 1 ++ draw 2 ++ p.sha256 cipher)
          meta_cipher
          honest.out
        ≡ ok t)
  total = build_transcript_total p honest.out honest.decodable _ _ meta_cipher

  transcribed :
      (signature : Text)
      → file_v2_transcript p (record unsigned { signature = signature }) context ≡ ok total.0
  unfolding file_v2_transcript
  transcribed signature =
      rw
        (
          b64_to_bytes-bytes_to_b64 p laws (draw 1),
          b64_to_bytes-bytes_to_b64 p laws (draw 2),
          b64_to_bytes-bytes_to_b64 p laws (p.sha256 cipher),
          b64_to_bytes-bytes_to_b64 p laws meta_cipher,
          ◌>>=◌,
        )
        total.1

  abbrev payload : FilePayload
  payload = record unsigned { signature = bytes_to_b64 p (p.sign sk total.0) }

  sent : encrypt_file p draw file_bytes meta recipients dsa_secret context ≡ ok (cipher, payload)
  unfolding encrypt_file
  sent = rw (honest.returned, hsk, transcribed [], ◌>>=◌)

  vouched : verify_file_payload p payload dsa_pub context ≡ ok true
  unfolding verify_file_payload is_file_v2
  vouched = rw (
    hpk,
    transcribed payload.signature,
    b64_to_bytes-bytes_to_b64 p laws (p.sign sk total.0),
    pair total.0,
    ◌>>=◌,
  )

  addressed_entry :
      any (λ r. same r.0 me) recipients ≡ true
      → (e : Entry) × (Dict.get honest.out me ≡ some e) × (unwrap_cek p e secret ≡ ok (draw 0))
  unfolding Dict.has
  addressed_entry addressed = elim (Option-cases (Dict.get honest.out me)) [
    | inl e ↦ absurd (ground (arith, honest.names me))
    | inr (entry, e) ↦ (entry, e, honest.opens entry e)
  ]

  -- Let the primitives satisfy their laws, every recipient's public key be base64 and those under
  -- the name of `me` belong to the secret key of `me`, the sender's keys be a signature pair, and
  -- the metadata's JSON survive UTF-8. Then encrypting a file succeeds, and if `me` is named among
  -- the recipients, `me` gets back the contents and, without them, the name, type and size that the
  -- sender gave, `file` standing for an empty name, marked as verified and not as legacy.
  pub decrypt-encrypt_file :
      any (λ r. same r.0 me) recipients ≡ true
      → p.decode (p.utf8 (p.stringify_meta raw)) ≡ p.stringify_meta raw
      → (c : Bytes) × (f : FilePayload) × (encrypt_file p draw file_bytes meta recipients dsa_secret
            context
          ≡ ok (c, f))
        × (decrypt_file p c f me secret dsa_pub context ≡ ok file_bytes)
        × (open_file_payload p f me secret dsa_pub context
            ≡ ok (record { meta = clean_meta raw; verified = true; legacy = false }))
  unfolding decrypt_file open_file_payload open_contents open_meta is_file_v2
  decrypt-encrypt_file addressed decodes =
      let (entry, e, opens) = addressed_entry addressed in
      (
        cipher,
        payload,
        sent,
        rw (
          vouched,
          same_refl (bytes_to_b64 p (p.sha256 cipher)),
          e,
          opens,
          b64_to_bytes-bytes_to_b64 p laws (draw 1),
          laws.gcm (draw 0) (draw 1) file_bytes,
          ◌>>=◌,
        ),
        rw (
          vouched,
          e,
          opens,
          b64_to_bytes-bytes_to_b64 p laws (draw 2),
          b64_to_bytes-bytes_to_b64 p laws meta_cipher,
          laws.gcm (draw 0) (draw 2) (p.utf8 (p.stringify_meta raw)),
          decodes,
          laws.parse-stringify_meta raw,
          ◌>>=◌,
        ),
      )

module _ (p : Primitives) (laws : Laws p) (payload : FilePayload)
    (me secret dsa_pub context : Text) where
  -- Of a v2 payload that carries the hash of the signed contents and whose signature verifies:
  -- served contents with another hash give the error that they are not what was signed, if base64
  -- decodes what it encodes.
  pub decrypt_file_refuses_other :
      (signed served : Bytes)
      → is_file_v2 payload ≡ true
      → payload.ct_sha256 ≡ some (bytes_to_b64 p (p.sha256 signed))
      → verify_file_payload p payload dsa_pub context ≡ ok true
      → p.sha256 served ≢ p.sha256 signed
      → decrypt_file p served payload me secret dsa_pub context ≡ err file_contents_differ
  unfolding decrypt_file
  decrypt_file_refuses_other signed served v2 h vouched ne =
      let a = bytes_to_b64 p (p.sha256 served) in
      let b = bytes_to_b64 p (p.sha256 signed) in
      elim (Bool-cases (same a b)) [
        | inl e ↦ absurd (ne (bytes_to_b64_injective p laws _ _ ((same_iff a b).0 e)))
        | inr e ↦ rw (vouched, v2, h, e, ◌>>=◌)
      ]

  -- A payload of either format whose signature does not verify: no contents come out, and of a v2
  -- payload no metadata either; of a legacy one the metadata come marked as unverified.
  pub unverified_file_refused :
      (served : Bytes)
      → verify_file_payload p payload dsa_pub context ≡ ok false
      → (decrypt_file p served payload me secret dsa_pub context ≡ err file_not_authentic)
        × (open_file_payload p payload me secret dsa_pub context ≡ (
            if is_file_v2 payload
            then err file_not_authentic
            else ok (record { meta = clean_meta payload.raw; verified = false; legacy = true })))
  unfolding decrypt_file open_file_payload
  unverified_file_refused served h = elim (Bool-cases (is_file_v2 payload)) [
    | inl e ↦ (rw (h, ◌>>=◌), rw (h, e, ◌>>=◌))
    | inr e ↦ (rw (h, ◌>>=◌), rw (h, e, ◌>>=◌))
  ]
