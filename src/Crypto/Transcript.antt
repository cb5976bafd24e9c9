-- ===== src/Crypto/Transcript.antt =====
-- `buildTranscript` of client/js/crypto.js: the bytes that a signature covers.
use lattix.Prelude.{
  Text, Bytes, ◌≡◌, refl, true, some, List, [], ◌∷◌, ◌++◌, text_lt, same, same_iff, All, All_map,
  arith, if◌then◌else◌, Option-cases, Bool-cases, inl, inr,
}
use lattix.Prelude.Dict
use lattix.Prelude.Dict.{Dict, get-put}
use lattix.Crypto.Primitives.{Primitives, Result, ok, or_throw, type_error, ◌>>=◌}
use lattix.Crypto.Encoding.{b64_to_bytes}

-- A wrapped content key: what `keys` holds under each user name.
pub record Entry : Type 0 where
  pub kem_ct : Text
  pub iv : Text
  pub wrapped : Text

insert_text : Text → List Text → List Text
insert_text a [] = a ∷ []
insert_text a (x ∷ xs) = if text_lt x a then x ∷ insert_text a xs else a ∷ x ∷ xs

-- `.sort()` on an array of texts.
unfoldable pub sort : List Text → List Text
unfolding insert_text
sort [] = []
sort (x ∷ xs) = insert_text x (sort xs)

module _ (p : Primitives) where
  open p use {utf8}

  -- One round of the loop: what it appends for a user name.
  unfoldable pub entry_bytes : Dict Entry → Text → Result Bytes
  entry_bytes keys username = do
    k ← or_throw type_error (Dict.get keys username)
    kem_ct ← b64_to_bytes p k.kem_ct
    iv ← b64_to_bytes p k.iv
    wrapped ← b64_to_bytes p k.wrapped
    ok (utf8 username ++ kem_ct ++ iv ++ wrapped)

  unfoldable pub append_entries : Dict Entry → Bytes → List Text → Result Bytes
  append_entries keys t [] = ok t
  append_entries keys t (username ∷ names) = do
    part ← entry_bytes keys username
    append_entries keys (t ++ part) names

  unfoldable pub build_transcript : Bytes → Bytes → Bytes → Dict Entry → Result Bytes
  build_transcript prefix iv ciphertext keys =
      append_entries keys (prefix ++ iv ++ ciphertext) (sort (Dict.keys keys))

module _ (p : Primitives) (keys : Dict Entry) (u : Text) (e : Entry) where
  pub entry_bytes_of :
      (kem_ct iv wrapped : Bytes)
      → Dict.get keys u ≡ some e
      → b64_to_bytes p e.kem_ct ≡ ok kem_ct
      → b64_to_bytes p e.iv ≡ ok iv
      → b64_to_bytes p e.wrapped ≡ ok wrapped
      → entry_bytes p keys u ≡ ok (p.utf8 u ++ kem_ct ++ iv ++ wrapped)
  unfolding entry_bytes
  entry_bytes_of kem_ct iv wrapped h hk hi hw = rw (h, hk, hi, hw, ◌>>=◌)

pub entry_bytes_same :
    (p : Primitives) (keys keys' : Dict Entry) (u : Text)
    → Dict.get keys u ≡ Dict.get keys' u
    → entry_bytes p keys u ≡ entry_bytes p keys' u
unfolding entry_bytes
entry_bytes_same p keys keys' u e = rw (e, ◌>>=◌)

-- Sorting keeps a property of every element.
All-insert :
    (P : Text → Type 0) (a : Text) (xs : List Text) → P a → All P xs → All P (insert_text a xs)
unfolding insert_text
All-insert P a [] h hs = (h, tt)
All-insert P a (x ∷ xs) h hs = elim (Bool-cases (text_lt x a)) [
  | inl e ↦ rw (e, insert_text) (hs.0, All-insert P a xs h hs.1)
  | inr e ↦ rw (e, insert_text) (h, hs)
]

All-sort : (P : Text → Type 0) (xs : List Text) → All P xs → All P (sort xs)
unfolding sort
All-sort P [] h = tt
All-sort P (x ∷ xs) h = All-insert P x (sort xs) h.0 (All-sort P xs h.1)

pub has-put :
    (keys : Dict Entry) (u : Text) (e : Entry) (v : Text)
    → Dict.has (Dict.put keys u e) v ≡ (if same u v then true else Dict.has keys v)
unfolding Dict.has
has-put keys u e v = ground (arith, get-put keys u e v)

All-keys : (keys : Dict Entry) → All (λ u. Dict.has keys u ≡ true) (Dict.keys keys)
unfolding Dict.has Dict.get
All-keys [] = tt
All-keys ((u, e) ∷ keys) = (
  ground (arith, same_iff u u),
  All_map _ _ (Dict.keys keys) (λ v h. ground (arith)) (All-keys keys),
)

-- Every wrapped key of the dictionary decodes.
pub record IsDecodable (p : Primitives) (keys : Dict Entry) : Type 0 where
  pub at_name :
      (u : Text) (e : Entry)
      → Dict.get keys u ≡ some e
      → (b : Bytes) × (entry_bytes p keys u ≡ ok b)

module _ (p : Primitives) (keys : Dict Entry) (d : IsDecodable p keys) where
  append_entries_total :
      (t : Bytes) (names : List Text)
      → All (λ u. Dict.has keys u ≡ true) names
      → (b : Bytes) × (append_entries p keys t names ≡ ok b)
  unfolding append_entries
  append_entries_total t [] h = (t, refl)
  append_entries_total t (u ∷ names) h = elim (Option-cases (Dict.get keys u)) [
    | inl e ↦ absurd (unfold Dict.has in ground (arith, h.0))
    | inr (e, he) ↦
        let (part, hp) = d.at_name u e he in
        let (b, hb) = append_entries_total (t ++ part) names h.1 in (b, rw (hp, ◌>>=◌) hb)
  ]

  -- The transcript exists.
  pub build_transcript_total :
      (prefix iv ciphertext : Bytes)
      → (b : Bytes) × (build_transcript p prefix iv ciphertext keys ≡ ok b)
  unfolding build_transcript
  build_transcript_total prefix iv ciphertext =
      append_entries_total (prefix ++ iv ++ ciphertext) (sort (Dict.keys keys))
        (All-sort _ (Dict.keys keys) (All-keys keys))
