-- ===== src/Crypto/Binding.antt =====
-- What the signed transcript of client/js/crypto.js binds, and what it does not.
use lattix.Prelude.{
  ℕ, ◌+◌, Text, Bytes, ◌≡◌, refl, sym, ap, ◌∙◌, true, Option, none, some, List, [], ◌∷◌, ◌++◌, take,
  drop, take-append-drop, length, length-append, All, codes, arith, append_assoc,
}
use lattix.Prelude.Dict
use lattix.Prelude.Dict.{Dict}
use lattix.Crypto.Primitives.{Primitives, Laws, ok, or_throw, type_error, ◌>>=◌, >>=-eq-ok}
use lattix.Crypto.Encoding.{bytes_to_b64, b64_to_bytes, b64_to_bytes-bytes_to_b64}
use lattix.Crypto.Transcript.{Entry, sort, entry_bytes, append_entries, build_transcript}
use lattix.Crypto.Message.{Payload, decrypt_message, open_message}
use lattix.Crypto.File.{FilePayload, is_file_v2, file_v2_transcript, verify_file_payload}

append_inj : (a a' b b' : Bytes) → length a ≡ length a' → a ++ b ≡ a' ++ b' → (a ≡ a') × (b ≡ b')
append_inj [] [] b b' l e = (refl, e)
append_inj [] (x ∷ a') b b' l e = absurd (omega arith)
append_inj (x ∷ a) [] b b' l e = absurd (omega arith)
append_inj (x ∷ a) (y ∷ a') b b' l e = ground (arith, append_inj a a' b b')

found_ok : (found : Option Entry) (e : Entry) → or_throw type_error found ≡ ok e → found ≡ some e
found_ok none e h = absurd (ground arith)
found_ok (some x) e h = ground arith

-- The parts that a round of the loop puts together.
entry_parts :
    (p : Primitives) (keys : Dict Entry) (u : Text) (part : Bytes)
    → entry_bytes p keys u ≡ ok part
    → (e : Entry) × (k i w : Bytes) × (Dict.get keys u ≡ some e)
      × (b64_to_bytes p e.kem_ct ≡ ok k)
      × (b64_to_bytes p e.iv ≡ ok i)
      × (b64_to_bytes p e.wrapped ≡ ok w)
      × (part ≡ p.utf8 u ++ k ++ i ++ w)
unfolding entry_bytes
entry_parts p keys u part h =
    let (e, he, h1) = >>=-eq-ok (or_throw type_error (Dict.get keys u)) _ h in
    let (k, hk, h2) = >>=-eq-ok (b64_to_bytes p e.kem_ct) _ h1 in
    let (i, hi, h3) = >>=-eq-ok (b64_to_bytes p e.iv) _ h2 in
    let (w, hw, h4) = >>=-eq-ok (b64_to_bytes p e.wrapped) _ h3 in
    (e, k, i, w, found_ok (Dict.get keys u) e he, hk, hi, hw, ground (arith, h4))

parts_length :
    (n k i w : Bytes) → length (n ++ k ++ i ++ w) ≡ length n + length k + length i + length w
parts_length n k i w =
    omega (arith, length-append (n ++ k ++ i) w, length-append (n ++ k) i, length-append n k)

parts_inj :
    (n k k' i i' w w' : Bytes)
    → length k ≡ length k'
    → length i ≡ length i'
    → n ++ k ++ i ++ w ≡ n ++ k' ++ i' ++ w'
    → (k ≡ k') × (i ≡ i') × (w ≡ w')
parts_inj n k k' i i' w w' lk li e =
    let (e1, ew) =
      append_inj (n ++ k ++ i) (n ++ k' ++ i') w w'
        (omega (
          arith,
          lk,
          li,
          length-append (n ++ k) i,
          length-append (n ++ k') i',
          length-append n k,
          length-append n k',
        ))
        e in
    let (e2, ei) =
      append_inj (n ++ k) (n ++ k') i i' (omega (arith, lk, length-append n k, length-append n k'))
        e1 in
    ((append_inj n n k k' refl e2).1, ei, ew)

module _ (p : Primitives) (keys keys' : Dict Entry) where
  -- The dictionaries have, under a name, wrapped keys whose parts have the same lengths, as those of one
  -- key size have.
  abbrev pub SameLengths : Text → Type 0
  SameLengths u =
      (e e' : Entry) (k k' i i' w w' : Bytes)
      → Dict.get keys u ≡ some e
      → Dict.get keys' u ≡ some e'
      → b64_to_bytes p e.kem_ct ≡ ok k
      → b64_to_bytes p e'.kem_ct ≡ ok k'
      → b64_to_bytes p e.iv ≡ ok i
      → b64_to_bytes p e'.iv ≡ ok i'
      → b64_to_bytes p e.wrapped ≡ ok w
      → b64_to_bytes p e'.wrapped ≡ ok w'
      → (length k ≡ length k') × (length i ≡ length i') × (length w ≡ length w')

  -- The dictionaries have, under a name, wrapped keys of the same bytes: KEM ciphertext, IV and wrapped
  -- content key.
  abbrev pub SameKey : Text → Type 0
  SameKey u =
      (e : Entry) × (e' : Entry) × (k i w : Bytes) × (Dict.get keys u ≡ some e)
      × (Dict.get keys' u ≡ some e')
      × (b64_to_bytes p e.kem_ct ≡ ok k)
      × (b64_to_bytes p e'.kem_ct ≡ ok k)
      × (b64_to_bytes p e.iv ≡ ok i)
      × (b64_to_bytes p e'.iv ≡ ok i)
      × (b64_to_bytes p e.wrapped ≡ ok w)
      × (b64_to_bytes p e'.wrapped ≡ ok w)

  entries_of_bytes :
      (u : Text) (part part' : Bytes)
      → SameLengths u
      → entry_bytes p keys u ≡ ok part
      → entry_bytes p keys' u ≡ ok part'
      → (length part ≡ length part') × (part ≡ part' → SameKey u)
  entries_of_bytes u part part' h b b' =
      let (e, k, i, w, he, hk, hi, hw, hb) = entry_parts p keys u part b in
      let (e', k', i', w', he', hk', hi', hw', hb') = entry_parts p keys' u part' b' in
      let (lk, li, lw) = h e e' k k' i i' w w' he he' hk hk' hi hi' hw hw' in
      (
        omega (
          arith,
          ap length hb,
          ap length hb',
          lk,
          li,
          lw,
          parts_length (p.utf8 u) k i w,
          parts_length (p.utf8 u) k' i' w',
        ),
        (λ eq.
            let (ek, ei, ew) = parts_inj (p.utf8 u) k k' i i' w w' lk li (sym hb ∙ eq ∙ hb') in
            (
              e,
              e',
              k,
              i,
              w,
              he,
              he',
              hk,
              hk' ∙ ap ok (sym ek),
              hi,
              hi' ∙ ap ok (sym ei),
              hw,
              hw' ∙ ap ok (sym ew),
            )),
      )

  append_entries_inj :
      (names : List Text) (t t' r : Bytes)
      → length t ≡ length t'
      → All SameLengths names
      → append_entries p keys t names ≡ ok r
      → append_entries p keys' t' names ≡ ok r
      → (t ≡ t') × All SameKey names
  unfolding append_entries
  append_entries_inj [] t t' r l h e e' = ground arith
  append_entries_inj (u ∷ names) t t' r l h e e' =
      let (part, hp, rest) =
        >>=-eq-ok (entry_bytes p keys u) (λ b. append_entries p keys (t ++ b) names) e in
      let (part', hp', rest') =
        >>=-eq-ok (entry_bytes p keys' u) (λ b. append_entries p keys' (t' ++ b) names) e' in
      let (lp, agree) = entries_of_bytes u part part' h.0 hp hp' in
      let (et, all) =
        append_entries_inj names (t ++ part) (t' ++ part') r
          (omega (arith, lp, l, length-append t part, length-append t' part')) h.1 rest rest' in
      let (e1, e2) = append_inj t t' part part' l et in (e1, (agree e2, all))

  -- Two envelopes of the same prefix, with the same names, IVs and ciphertexts of the same lengths,
  -- and wrapped keys whose parts have the same lengths under each name: if they have one transcript, they
  -- have the same IV and ciphertext and, under each name, the same bytes of the KEM ciphertext, of the
  -- IV and of the wrapped content key.
  pub build_transcript_binds :
      (prefix iv iv' ct ct' r : Bytes)
      → sort (Dict.keys keys) ≡ sort (Dict.keys keys')
      → length iv ≡ length iv'
      → length ct ≡ length ct'
      → All SameLengths (sort (Dict.keys keys))
      → build_transcript p prefix iv ct keys ≡ ok r
      → build_transcript p prefix iv' ct' keys' ≡ ok r
      → (iv ≡ iv') × (ct ≡ ct') × All SameKey (sort (Dict.keys keys))
  unfolding build_transcript
  build_transcript_binds prefix iv iv' ct ct' r hn li lc h e e' =
      let (et, all) =
        append_entries_inj (sort (Dict.keys keys)) (prefix ++ iv ++ ct) (prefix ++ iv' ++ ct') r
          (omega (
            arith,
            length-append (prefix ++ iv) ct,
            length-append (prefix ++ iv') ct',
            length-append prefix iv,
            length-append prefix iv',
          ))
          h e (rw hn e') in
      let (e1, e2) =
        append_inj (prefix ++ iv) (prefix ++ iv') ct ct'
          (omega (arith, length-append prefix iv, length-append prefix iv')) et in
      ((append_inj prefix prefix iv iv' refl e1).1, e2, all)

-- Bytes after the ciphertext and a wrapped key of those bytes are one.
one_key_is_bytes :
    (p : Primitives) (u : Text) (e : Entry) (part m : Bytes)
    → entry_bytes p ((u, e) ∷ []) u ≡ ok part
    → (prefix fixed : Bytes)
    → build_transcript p prefix fixed m ((u, e) ∷ [])
      ≡ build_transcript p prefix fixed (m ++ part) []
unfolding build_transcript append_entries sort
one_key_is_bytes p u e part m hp prefix fixed =
    rw (hp, ◌>>=◌) (ap ok (append_assoc (prefix ++ fixed) m part))

recut :
    (m c iv ct : Bytes) (n : ℕ)
    → m ++ take n (c ++ iv ++ ct) ++ drop n (c ++ iv ++ ct) ≡ (m ++ c) ++ iv ++ ct
recut m c iv ct n =
    append_assoc m (take n (c ++ iv ++ ct)) (drop n (c ++ iv ++ ct))
    ∙ ap (λ b. m ++ b) (take-append-drop n (c ++ iv ++ ct))
    ∙ simp append_assoc

module _ (p : Primitives) (laws : Laws p) where
  -- A v2 file payload with one wrapped key, whose base64 decodes, and the payload whose encrypted
  -- metadata are followed by the bytes of that wrapped key and that has no wrapped key: the signature
  -- check gives the same on both.
  pub file_transcript_collides :
      (payload : FilePayload) (u : Text) (e : Entry) (meta_ct : Text) (meta_bytes part : Bytes)
      (dsa_pub context : Text)
      → is_file_v2 payload ≡ true
      → payload.keys ≡ (u, e) ∷ []
      → payload.meta_ct ≡ some meta_ct
      → b64_to_bytes p meta_ct ≡ ok meta_bytes
      → entry_bytes p ((u, e) ∷ []) u ≡ ok part
      → verify_file_payload p
          (record payload { meta_ct = some (bytes_to_b64 p (meta_bytes ++ part)); keys = [] })
          dsa_pub
          context
        ≡ verify_file_payload p payload dsa_pub context
  unfolding verify_file_payload file_v2_transcript is_file_v2
  file_transcript_collides payload u e meta_ct meta_bytes part dsa_pub context v2 hk hm hb hp =
      let same_v2 : is_file_v2
            (record payload { meta_ct = some (bytes_to_b64 p (meta_bytes ++ part)); keys = [] })
          ≡ true =
        ground arith in
      simp (
        v2,
        same_v2,
        hk,
        hm,
        hb,
        b64_to_bytes-bytes_to_b64 p laws (meta_bytes ++ part),
        one_key_is_bytes p u e part meta_bytes hp,
      )

  -- A message whose signature verifies in one context, where UTF-8 encodes the prefix and the context
  -- one after the other: if context, IV and ciphertext are cut elsewhere into an IV and a ciphertext,
  -- the result passes the signature check in the empty context, with the same wrapped keys and
  -- signature, and is opened under the new IV and ciphertext.
  pub context_shifts :
      (payload : Payload) (me secret dsa_pub context : Text) (iv ct t pk signature : Bytes) (n : ℕ)
      → b64_to_bytes p payload.iv ≡ ok iv
      → b64_to_bytes p payload.ciphertext ≡ ok ct
      → build_transcript p (p.utf8 (codes "msg" ++ context)) iv ct payload.keys ≡ ok t
      → b64_to_bytes p dsa_pub ≡ ok pk
      → b64_to_bytes p payload.signature ≡ ok signature
      → p.verify pk t signature ≡ true
      → p.utf8 (codes "msg" ++ context) ≡ p.utf8 (codes "msg") ++ p.utf8 context
      → let rest = p.utf8 context ++ iv ++ ct in
        let shifted : Payload = record payload {
          iv = bytes_to_b64 p (take n rest);
          ciphertext = bytes_to_b64 p (drop n rest);
        } in
        decrypt_message p shifted me secret dsa_pub []
        ≡ open_message p shifted (take n rest) (drop n rest) me secret
  unfolding decrypt_message build_transcript
  context_shifts payload me secret dsa_pub context iv ct t pk signature n hiv hct ht hpk hs hv hu =
      let rest = p.utf8 context ++ iv ++ ct in
      let t' : build_transcript p (p.utf8 (codes "msg")) (take n rest) (drop n rest) payload.keys
          ≡ ok t =
        ap (λ b. append_entries p payload.keys b (sort (Dict.keys payload.keys)))
          (recut (p.utf8 (codes "msg")) (p.utf8 context) iv ct n ∙ ap (λ b. b ++ iv ++ ct) (sym hu))
        ∙ ht in
      rw (
        b64_to_bytes-bytes_to_b64 p laws (take n rest),
        b64_to_bytes-bytes_to_b64 p laws (drop n rest),
        t',
        hpk,
        hs,
        hv,
        ◌>>=◌,
      )
