-- ===== src/Crypto/Wrap.antt =====
-- Wrapping a content key for each recipient and unwrapping it: `deriveKek`, `wrapCekForParties` and
-- `unwrapCek` of client/js/crypto.js. `draw n` is what the n-th request for randomness gives.
use lattix.Prelude.{
  ℕ, ◌+◌, Text, Bytes, ◌≡◌, refl, ◌∙◌, true, some, List, [], ◌∷◌, same, All, any, ◌||◌, arith,
  codes, Bool-cases, inl, inr,
}
use lattix.Prelude.Dict
use lattix.Prelude.Dict.{Dict, get-put}
use lattix.Crypto.Primitives.{
  Primitives, Laws, IsKemPair, Result, ok, or_throw, decrypt_failed, ◌>>=◌,
}
use lattix.Crypto.Encoding.{bytes_to_b64, b64_to_bytes, b64_to_bytes-bytes_to_b64}
use lattix.Crypto.Transcript.{
  Entry, entry_bytes, entry_bytes_of, entry_bytes_same, has-put, IsDecodable,
}

module _ (p : Primitives) where
  open p use {utf8, hkdf, gcm_encrypt, gcm_decrypt, encapsulate, decapsulate}

  unfoldable pub derive_kek : Bytes → Bytes
  derive_kek shared_secret = hkdf shared_secret (utf8 (codes "lattix-wrap-v1"))

  -- One round of the loop: the entry for a public key.
  unfoldable pub wrap_entry : (ℕ → Bytes) → ℕ → Bytes → Bytes → Entry
  unfolding derive_kek
  wrap_entry draw n cek_raw pk =
      let (kem_ct, shared_secret) = encapsulate pk (draw n) in
      let iv = draw (n + 1) in
      record {
        kem_ct = bytes_to_b64 p kem_ct;
        iv = bytes_to_b64 p iv;
        wrapped = bytes_to_b64 p (gcm_encrypt (derive_kek shared_secret) iv cek_raw);
      }

  unfoldable pub wrap_cek_for_parties :
      (ℕ → Bytes) → ℕ → Bytes → Dict Entry → List (Text × Text) → Result (Dict Entry)
  wrap_cek_for_parties draw n cek_raw keys [] = ok keys
  wrap_cek_for_parties draw n cek_raw keys ((username, kem_pub) ∷ recipients) = do
    pk ← b64_to_bytes p kem_pub
    wrap_cek_for_parties draw (n + 2) cek_raw
        (Dict.put keys username (wrap_entry draw n cek_raw pk)) recipients

  unfoldable pub unwrap_cek : Entry → Text → Result Bytes
  unwrap_cek entry my_kem_secret = do
    ct ← b64_to_bytes p entry.kem_ct
    sk ← b64_to_bytes p my_kem_secret
    iv ← b64_to_bytes p entry.iv
    wrapped ← b64_to_bytes p entry.wrapped
    or_throw decrypt_failed (gcm_decrypt (derive_kek (decapsulate ct sk)) iv wrapped)

  -- A recipient's public key is base64, and if the recipient is `me`, the secret key belongs to it.
  pub record CanWrap (me secret : Text) (r : Text × Text) : Type 0 where
    pub pk : Bytes
    pub decoded : b64_to_bytes p r.1 ≡ ok pk
    pub mine :
        same r.0 me ≡ true → (sk : Bytes) × (b64_to_bytes p secret ≡ ok sk) × IsKemPair p pk sk

module _ (p : Primitives) (laws : Laws p) (draw : ℕ → Bytes) (cek_raw : Bytes) where
  unwrap-wrap_entry :
      (n : ℕ) (pk sk : Bytes) (secret : Text)
      → b64_to_bytes p secret ≡ ok sk
      → IsKemPair p pk sk
      → unwrap_cek p (wrap_entry p draw n cek_raw pk) secret ≡ ok cek_raw
  unfolding unwrap_cek wrap_entry
  unwrap-wrap_entry n pk sk secret hs pair =
      let (ct, ss) = p.encapsulate pk (draw n) in
      let kek = derive_kek p (p.encapsulate pk (draw n)).1 in
      rw (
        b64_to_bytes-bytes_to_b64 p laws (p.encapsulate pk (draw n)).0,
        hs,
        b64_to_bytes-bytes_to_b64 p laws (draw (n + 1)),
        b64_to_bytes-bytes_to_b64 p laws (p.gcm_encrypt kek (draw (n + 1)) cek_raw),
        pair (draw n),
        laws.gcm kek (draw (n + 1)) cek_raw,
      )

  wrap_entry_decodes :
      (n : ℕ) (pk : Bytes) (keys : Dict Entry) (u : Text)
      → Dict.get keys u ≡ some (wrap_entry p draw n cek_raw pk)
      → (b : Bytes) × (entry_bytes p keys u ≡ ok b)
  unfolding wrap_entry
  wrap_entry_decodes n pk keys u e =
      let kek = derive_kek p (p.encapsulate pk (draw n)).1 in
      (
        _,
        entry_bytes_of p keys u _ _ _ _ e
            (b64_to_bytes-bytes_to_b64 p laws (p.encapsulate pk (draw n)).0)
            (b64_to_bytes-bytes_to_b64 p laws (draw (n + 1)))
            (b64_to_bytes-bytes_to_b64 p laws (p.gcm_encrypt kek (draw (n + 1)) cek_raw)),
      )

  -- Putting one more wrapped key keeps the dictionary decodable.
  put-IsDecodable :
      (n : ℕ) (pk : Bytes) (keys : Dict Entry) (u : Text)
      → IsDecodable p keys
      → IsDecodable p (Dict.put keys u (wrap_entry p draw n cek_raw pk))
  put-IsDecodable n pk keys u d =
      let w = wrap_entry p draw n cek_raw pk in
      record {
        at_name = λ v e h. elim (Bool-cases (same u v)) [
          | inl y ↦
              wrap_entry_decodes n pk (Dict.put keys u w) v (ground (arith, get-put keys u w v))
          | inr n' ↦
              let old : Dict.get keys v ≡ some e = ground (arith, get-put keys u w v) in
              let (b, hb) = d.at_name v e old in
              (
                b,
                entry_bytes_same p (Dict.put keys u w) keys v (ground (arith, get-put keys u w v))
                    ∙ hb,
              )
        ];
      }

  module _ (me secret : Text) where
    -- What `me` finds in the dictionary opens to the content key.
    abbrev pub Opens : Dict Entry → Type 0
    Opens keys = (e : Entry) → Dict.get keys me ≡ some e → unwrap_cek p e secret ≡ ok cek_raw

    put-Opens :
        (n : ℕ) (keys : Dict Entry) (r : Text × Text) (c : CanWrap p me secret r)
        → Opens keys
        → Opens (Dict.put keys r.0 (wrap_entry p draw n cek_raw c.pk))
    put-Opens n keys (u, kem_pub) c h e he =
        let w = wrap_entry p draw n cek_raw c.pk in
        elim (Bool-cases (same u me)) [
          | inl y ↦
              let (sk, hs, pair) = c.mine y in
              let is : e ≡ w = ground (arith, get-put keys u w me) in
              rw is (unwrap-wrap_entry n c.pk sk secret hs pair)
          | inr n' ↦ h e (ground (arith, get-put keys u w me))
        ]

    -- The result of the loop: it exists, decodes, opens for `me`, and has an entry for exactly the
    -- names that were there before or are among the recipients.
    pub record Wrapped (keys : Dict Entry) (recipients : List (Text × Text))
        (r : Result (Dict Entry)) : Type 0 where
      pub out : Dict Entry
      pub returned : r ≡ ok out
      pub decodable : IsDecodable p out
      pub opens : Opens out
      pub names :
          (v : Text) → Dict.has out v ≡ (Dict.has keys v || any (λ q. same q.0 v) recipients)

    pub wrap_cek_for_parties_lem :
        (n : ℕ) (keys : Dict Entry) (recipients : List (Text × Text))
        → All (CanWrap p me secret) recipients
        → IsDecodable p keys
        → Opens keys
        → Wrapped keys recipients (wrap_cek_for_parties p draw n cek_raw keys recipients)
    unfolding wrap_cek_for_parties
    wrap_cek_for_parties_lem n keys [] h d o = record {
      out = keys;
      returned = refl;
      decodable = d;
      opens = o;
      names = λ v. ground arith;
    }
    wrap_cek_for_parties_lem n keys ((u, kem_pub) ∷ recipients) h d o =
        let w = wrap_entry p draw n cek_raw h.0.pk in
        let rest =
          wrap_cek_for_parties_lem (n + 2) (Dict.put keys u w) recipients h.1
            (put-IsDecodable n h.0.pk keys u d) (put-Opens n keys (u, kem_pub) h.0 o) in
        record {
          out = rest.out;
          returned = rw (h.0.decoded, ◌>>=◌) rest.returned;
          decodable = rest.decodable;
          opens = rest.opens;
          names = λ v. ground (arith, rest.names v, has-put keys u w v);
        }
