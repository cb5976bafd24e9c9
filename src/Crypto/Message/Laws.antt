-- ===== src/Crypto/Message/Laws.antt =====
-- What `decryptMessage` of client/js/crypto.js makes of a payload, the sender's own among them.
use lattix.Prelude.{
  ℕ, Text, Bytes, ◌≡◌, refl, Bool, true, false, none, List, [], ◌++◌, any, same, All, codes, arith,
  Option-cases, inl, inr,
}
use lattix.Prelude.Dict
use lattix.Crypto.Primitives.{Primitives, Laws, IsDsaPair, ok, err, message_not_addressed, ◌>>=◌}
use lattix.Crypto.Encoding.{bytes_to_b64, b64_to_bytes, b64_to_bytes-bytes_to_b64}
use lattix.Crypto.Transcript.{build_transcript, build_transcript_total}
use lattix.Crypto.Wrap.{CanWrap, Wrapped, wrap_cek_for_parties, wrap_cek_for_parties_lem}
use lattix.Crypto.Message.{Payload, encrypt_message, open_message, decrypt_message}

-- An honest exchange: the laws of the primitives, recipients whose keys decode and open with the
-- secret key of `me`, the sender's signature pair, and the randomness.
module _ (p : Primitives) (laws : Laws p) (draw : ℕ → Bytes) (me secret : Text)
    (recipients : List (Text × Text)) (can : All (CanWrap p me secret) recipients)
    (dsa_secret dsa_pub : Text) (sk pk : Bytes) (hsk : b64_to_bytes p dsa_secret ≡ ok sk)
    (hpk : b64_to_bytes p dsa_pub ≡ ok pk) (pair : IsDsaPair p pk sk)
    (plaintext context : Text) where
  pub honest :
      Wrapped p laws draw
        (draw 0)
        me
        secret
        []
        recipients
        (wrap_cek_for_parties p draw 2 (draw 0) [] recipients)
  unfolding Dict.get
  honest =
      wrap_cek_for_parties_lem p laws draw (draw 0) me secret 2 [] recipients can
        (record { at_name = λ u e h. absurd (ground arith) }) (λ e h. absurd (ground arith))

  -- What the sender's payload decrypts to is what stands below the signature check.
  accepted :
      (payload : Payload) × (encrypt_message p draw plaintext recipients dsa_secret context
        ≡ ok payload)
      × (payload.keys ≡ honest.out)
      × (decrypt_message p payload me secret dsa_pub context
          ≡ open_message p payload
              (draw 1)
              (p.gcm_encrypt (draw 0) (draw 1) (p.utf8 plaintext))
              me
              secret)
  unfolding encrypt_message decrypt_message
  accepted =
      let ct = p.gcm_encrypt (draw 0) (draw 1) (p.utf8 plaintext) in
      let (t, ht) =
        build_transcript_total p honest.out honest.decodable (p.utf8 (codes "msg" ++ context))
          (draw 1) ct in
      (
        record {
          iv = bytes_to_b64 p (draw 1);
          ciphertext = bytes_to_b64 p ct;
          keys = honest.out;
          signature = bytes_to_b64 p (p.sign sk t);
        },
        rw (honest.returned, ht, hsk, ◌>>=◌),
        refl,
        rw (
          b64_to_bytes-bytes_to_b64 p laws (draw 1),
          b64_to_bytes-bytes_to_b64 p laws ct,
          ht,
          hpk,
          b64_to_bytes-bytes_to_b64 p laws (p.sign sk t),
          pair t,
          ◌>>=◌,
        ),
      )

  -- Let the primitives satisfy their laws, every recipient's public key be base64 and those under
  -- the name of `me` belong to the secret key of `me`, the sender's keys be a signature pair, and
  -- the text survive UTF-8. Then encrypting succeeds, and if `me` is named among the recipients, in
  -- whatever number and order they are, decrypting gives back the text, marked as verified.
  pub decrypt-encrypt_message :
      any (λ r. same r.0 me) recipients ≡ true
      → p.decode (p.utf8 plaintext) ≡ plaintext
      → (payload : Payload) × (encrypt_message p draw plaintext recipients dsa_secret context
          ≡ ok payload)
        × (decrypt_message p payload me secret dsa_pub context ≡ ok (plaintext, true))
  unfolding open_message Dict.has
  decrypt-encrypt_message addressed decodes =
      let (payload, sent, hk, received) = accepted in
      elim (Option-cases (Dict.get honest.out me)) [
        | inl e ↦ absurd (ground (arith, honest.names me))
        | inr (entry, e) ↦ (
          payload,
          sent,
          rw received (
              rw (
                hk,
                e,
                honest.opens entry e,
                laws.gcm (draw 0) (draw 1) (p.utf8 plaintext),
                decodes,
                ◌>>=◌,
              )),
        )
      ]

  -- Under the same conditions on primitives and keys: whoever is not named among the recipients is
  -- refused, by the error that the message is not addressed to them.
  pub decrypt-encrypt_message_unaddressed :
      any (λ r. same r.0 me) recipients ≡ false
      → (payload : Payload) × (encrypt_message p draw plaintext recipients dsa_secret context
          ≡ ok payload)
        × (decrypt_message p payload me secret dsa_pub context ≡ err message_not_addressed)
  unfolding open_message Dict.has Dict.get
  decrypt-encrypt_message_unaddressed absent =
      let (payload, sent, hk, received) = accepted in
      let gone : Dict.get honest.out me ≡ none = ground (arith, honest.names me) in
      (payload, sent, rw received (rw (hk, gone, ◌>>=◌)))

module _ (p : Primitives) (payload : Payload) (me secret dsa_pub context : Text) (text : Text)
    (flag : Bool) where
  -- Nothing is returned that the signature key does not vouch for: a text comes out only with the
  -- mark `verified`, and only if the sender's key accepts the signature over the transcript of this
  -- very context, IV, ciphertext and wrapped keys.
  pub decrypt_message_verified :
      decrypt_message p payload me secret dsa_pub context ≡ ok (text, flag)
      → (iv ct t pk signature : Bytes) × (b64_to_bytes p payload.iv ≡ ok iv)
        × (b64_to_bytes p payload.ciphertext ≡ ok ct)
        × (build_transcript p (p.utf8 (codes "msg" ++ context)) iv ct payload.keys ≡ ok t)
        × (b64_to_bytes p dsa_pub ≡ ok pk)
        × (b64_to_bytes p payload.signature ≡ ok signature)
        × (p.verify pk t signature ≡ true)
        × (flag ≡ true)
  unfolding decrypt_message open_message
  decrypt_message_verified h = ground arith
