-- ===== src/Delivery/Authentic.antt =====
-- What the mark of a verified message in client/js/app.js stands for.
use lattix.Prelude.{
  ℕ, ◌≡◌, refl, sym, ap, ◌∙◌, Text, Bytes, codes, same, Bool, true, false, Option, none, some, ◌++◌,
  arith, Option-cases, inl, inr,
}
use lattix.Prelude.Dict
use lattix.Prelude.Dict.{Dict}
use lattix.Crypto.Primitives.{Primitives, Fault, ok}
use lattix.Crypto.Encoding.{b64_to_bytes}
use lattix.Crypto.Transcript.{build_transcript}
use lattix.Crypto.Message.{Payload, decrypt_message}
use lattix.Crypto.Message.Laws.{decrypt_message_verified}
use lattix.Trust
use lattix.Trust.{Self, KeyRecord, Pin, is_exempt, boot, get_peer_keys}
use lattix.Trust.Guard.{get_peer_keys-cached}
use lattix.Trust.Session.{Reach, next, asked, Reach-IsSound, boot-IsSound, Reach-identity}
use lattix.History
use lattix.History.{Message, Envelope, Decoded, opened, failed, decode_envelope, decode_answer}
use lattix.Delivery.{sealed_text, decoded, received}

-- A message marked as verified was opened with a signature that verified, and with no alert.
decode_answer_verified :
    (st : History.State) (env : Envelope) (alerted : Bool) (d : Decoded) (m : Message)
    → decode_answer st env (some (alerted, d)) ≡ some m
    → m.verified ≡ true
    → same env.sender st.me ≡ false
    → (alerted ≡ false) × (d ≡ opened m.text true)
unfolding decode_answer decode_envelope
decode_answer_verified st env alerted (opened text verified) m e v other = ground arith
decode_answer_verified st env alerted (failed text) m e v other = absurd (ground arith)

decode_answer_nothing :
    (st : History.State) (env : Envelope) (m : Message) → decode_answer st env none ≡ some m → ⊥
unfolding decode_answer
decode_answer_nothing st env m e = cc

absent {ℓ} : {V : Type ℓ} (d : Dict V) (k : Text) → Dict.has d k ≡ false → Dict.get d k ≡ none
unfolding Dict.has
absent d k h = ground (arith, h)

decoded-eq-opened :
    (p : Primitives) (shows : Fault → Text) (me secret dsa_pub ctx : Text) (payload : Payload)
    (text : Text)
    → decoded p shows me secret dsa_pub ctx (sealed_text payload) ≡ opened text true
    → decrypt_message p payload me secret dsa_pub ctx ≡ ok (text, true)
unfolding decoded
decoded-eq-opened p shows me secret dsa_pub ctx payload text e = ground arith

module _ (p : Primitives) (f : Text → Text → Option Text) (start : Trust.State) (me : Self)
    (own : KeyRecord) (trust : Trust.State) (now : ℕ) (answer : Option KeyRecord)
    (shows : Fault → Text) (secret ctx : Text) (payload : Payload) (st : History.State)
    (env : Envelope) where
  abbrev outcome : Trust.State × Option (Bool × Decoded)
  outcome =
      received p f now trust env.sender answer shows me.username secret ctx (sealed_text payload)

  -- The keys that were used, where anything was shown, are those that are then in the cache.
  shown_with :
      (alerted : Bool) (d : Decoded)
      → outcome.1 ≡ some (alerted, d)
      → (keys : KeyRecord) × (Dict.get outcome.0.peers env.sender ≡ some keys)
        × (alerted ≡ Dict.has outcome.0.alerts env.sender)
        × (d ≡ decoded p shows me.username secret keys.dsa_public_key ctx (sealed_text payload))
  unfolding received
  shown_with alerted d e =
      elim (Option-cases (get_peer_keys f now trust env.sender false answer).1) [
        | inl n ↦ absurd (ground (arith, e, n))
        | inr (keys, k) ↦ (
          keys,
          get_peer_keys-cached f now trust env.sender false answer keys k,
          ground (arith, e, k),
          ground (arith, e, k),
        )
      ]

  -- In every state of key trust that a session reaches from its start, the dialog's button being
  -- pressed only while its code is that of the cached keys: if an envelope of another user, whose
  -- pin is then marked verified, becomes a message that is marked as verified, then some keys of the
  -- pinned safety code hold its signature, over the transcript of the conversation's context, the IV,
  -- the ciphertext and the wrapped keys, and its text is what decryption under them gives.
  pub verified_message_authentic :
      (pin : Pin) (m : Message)
      → Reach f (boot start me own) trust
      → same env.sender me.username ≡ false
      → st.me ≡ me.username
      → Dict.get outcome.0.pins env.sender ≡ some pin
      → pin.verified ≡ true
      → decode_answer st env outcome.1 ≡ some m
      → m.verified ≡ true
      → (kem dsa : Text) × (iv ct t pk signature : Bytes) × (f kem dsa ≡ some pin.fp)
        × (decrypt_message p payload me.username secret dsa ctx ≡ ok (m.text, true))
        × (build_transcript p (p.utf8 (codes "msg" ++ ctx)) iv ct payload.keys ≡ ok t)
        × (b64_to_bytes p dsa ≡ ok pk)
        × (b64_to_bytes p payload.signature ≡ ok signature)
        × (p.verify pk t signature ≡ true)
  unfolding received is_exempt
  verified_message_authentic pin m reach other mine pinned marked shown verified =
      elim (Option-cases outcome.1) [
        | inl n ↦ absurd (nothing n)
        | inr ((alerted, d), e) ↦
            let (keys, cached, alert, opens) = shown_with alerted d e in
            let (calm, text) =
              decode_answer_verified st env alerted d m (rw e at shown) verified (rw mine other) in
            let sound = Reach-IsSound f (boot-IsSound f start me own) later in
            let contact : is_exempt outcome.0 env.sender ≡ false =
              rw (Reach-identity f start me own later, is_exempt) other in
            let quiet : Dict.get outcome.0.alerts env.sender ≡ none =
              absent outcome.0.alerts env.sender (sym alert ∙ calm) in
            let code = sound.computed.computed env.sender keys cached contact in
            let held = sound.guarded.held env.sender pin keys pinned cached quiet contact marked in
            let plain =
              decoded-eq-opened p shows me.username secret keys.dsa_public_key ctx payload m.text
                (sym opens ∙ text) in
            let (iv, ct, t, pk, signature, e_iv, e_ct, e_t, e_pk, e_signature, vouched, _) =
              decrypt_message_verified p payload me.username secret keys.dsa_public_key ctx m.text
                true plain in
            (
              keys.kem_public_key,
              keys.dsa_public_key,
              iv,
              ct,
              t,
              pk,
              signature,
              code ∙ ap some held,
              plain,
              e_t,
              e_pk,
              e_signature,
              vouched,
            )
      ]
    where
      later : Reach f (boot start me own) outcome.0
      later = next reach (asked now env.sender false answer refl)

      nothing : outcome.1 ≡ none → ⊥
      nothing n = decode_answer_nothing st env m (ap (decode_answer st env) (sym n) ∙ shown)
