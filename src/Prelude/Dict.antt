-- ===== src/Prelude/Dict.antt =====
-- A plain object or a `Map` with text keys, in insertion order, and a `Set` of texts.
use mathlib.Core.Path.{◌≡◌, refl}
use mathlib.Core.Bool.{Bool, true, false, ◌||◌}
use mathlib.Core.List.{List, [], ◌∷◌, map}
use mathlib.Core.Option.{Option, none, some}
use native.Mathlib.Omega.{arith}
use lattix.Prelude.Tests.{if◌then◌else◌}
use lattix.Prelude.Strings.{Text, same, same_iff}

abbrev pub Dict {ℓ} : Type ℓ → Type ℓ
Dict V = List (Text × V)

-- `Object.keys`.
abbrev pub keys {ℓ} : {V : Type ℓ} → Dict V → List Text
keys = map (λ e. e.0)

module _ {ℓ} {V : Type ℓ} where
  -- `d[k]`, `none` for `undefined`.
  unfoldable pub get : Dict V → Text → Option V
  get [] k = none
  get ((j, v) ∷ d) k = if same j k then some v else get d k

  -- `d[k] = v`: a key that is there keeps its place.
  unfoldable pub put : Dict V → Text → V → Dict V
  put [] k v = (k, v) ∷ []
  put ((j, w) ∷ d) k v = if same j k then (j, v) ∷ d else (j, w) ∷ put d k v

  -- `delete d[k]`.
  unfoldable pub del : Dict V → Text → Dict V
  del [] k = []
  del ((j, v) ∷ d) k = let rest = del d k in if same j k then rest else (j, v) ∷ rest

  unfoldable pub has : Dict V → Text → Bool
  has d k = elim (get d k) [ none ↦ false | some _ ↦ true ]

  pub get-put :
      (d : Dict V) (k : Text) (v : V) (j : Text)
      → get (put d k v) j ≡ (if same k j then some v else get d j)
  unfolding get put
  get-put [] k v j = refl
  get-put ((i, w) ∷ d) k v j =
      ground (arith, same_iff k j, same_iff i k, same_iff i j, get-put d k v j)

  pub get-del : (d : Dict V) (k j : Text) → get (del d k) j ≡ (if same k j then none else get d j)
  unfolding get del
  get-del [] k j = ground arith
  get-del ((i, w) ∷ d) k j = ground (arith, same_iff k j, same_iff i k, same_iff i j, get-del d k j)

-- `Set.prototype.has`.
unfoldable pub member : List Text → Text → Bool
member [] a = false
member (x ∷ xs) a = same x a || member xs a

-- `Set.prototype.add`.
unfoldable pub add : List Text → Text → List Text
add [] a = a ∷ []
add (x ∷ xs) a = if same x a then x ∷ xs else x ∷ add xs a

-- `Set.prototype.delete`.
unfoldable pub remove : List Text → Text → List Text
remove [] a = []
remove (x ∷ xs) a = let rest = remove xs a in if same x a then rest else x ∷ rest

pub member-add : (s : List Text) (a b : Text) → member (add s a) b ≡ (same a b || member s b)
unfolding member add
member-add [] a b = ground arith
member-add (x ∷ xs) a b =
    ground (arith, same_iff x a, same_iff x b, same_iff a b, member-add xs a b)

pub member-remove :
    (s : List Text) (a b : Text) → member (remove s a) b ≡ (if same a b then false else member s b)
unfolding member remove
member-remove [] a b = ground arith
member-remove (x ∷ xs) a b =
    ground (arith, same_iff x a, same_iff x b, same_iff a b, member-remove xs a b)
