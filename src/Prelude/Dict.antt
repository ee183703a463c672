-- ===== src/Prelude/Dict.antt =====
-- Python's `dict` with integer keys: an association list in insertion order, one entry to a key.
-- A `set` of integers is the list of its members, each once.
use Prim.Native.Nat.{ℕ, ◌≤◌}
use mathlib.Core.Path.{◌≡◌, refl}
use mathlib.Core.Bool.{Bool, true, false}
use mathlib.Core.Option.{Option, none, some}
use mathlib.Core.List.{List, [], ◌∷◌, map}
use mathlib.Core.Logic.{◌≢◌}
use native.Mathlib.Omega.{arith}
use screen_airdrop.Prelude.{◌==◌, leb, if◌then◌else◌, length}

abbrev pub Dict {ℓ} : Type ℓ → Type ℓ
Dict V = List (ℕ × V)

module _ {ℓ} {V : Type ℓ} where
  -- d.get(k)
  abbrev pub get : Dict V → ℕ → Option V
  get [] k = none
  get ((j, v) ∷ d) k = if j == k then some v else get d k

  -- k in d
  abbrev pub has : Dict V → ℕ → Bool
  has [] k = false
  has ((j, v) ∷ d) k = if j == k then true else has d k

  -- d[k] = v: in place, or at the end
  abbrev pub put : Dict V → ℕ → V → Dict V
  put [] k v = (k, v) ∷ []
  put ((j, w) ∷ d) k v = if j == k then (k, v) ∷ d else (j, w) ∷ put d k v

  -- del d[k], d.pop(k, None)
  abbrev pub remove : Dict V → ℕ → Dict V
  remove [] k = []
  remove ((j, w) ∷ d) k = if j == k then d else (j, w) ∷ remove d k

  abbrev pub keys : Dict V → List ℕ
  keys = map (λ e. e.0)

  pub get-put :
      (d : Dict V) (k j : ℕ) (v : V) → get (put d k v) j ≡ (if k == j then some v else get d j)
  get-put [] k j v = refl
  get-put ((i, w) ∷ d) k j v = ground (arith, get-put d k j v)

  pub get-put_self : (d : Dict V) (k : ℕ) (v : V) → get (put d k v) k ≡ some v
  get-put_self d k v = ground (arith, get-put d k k v)

  pub get-put_ne : (d : Dict V) (k j : ℕ) (v : V) → k ≢ j → get (put d k v) j ≡ get d j
  get-put_ne d k j v h = ground (arith, get-put d k j v)

  -- Each key occurs once.
  abbrev pub Distinct : Dict V → Type ℓ
  Distinct [] = Unit {ℓ}
  Distinct ((k, v) ∷ d) = (get d k ≡ none) × Distinct d

  pub get-remove :
      (d : Dict V) (k j : ℕ) → Distinct d → get (remove d k) j ≡ (if k == j then none else get d j)
  get-remove [] k j h = ground arith
  get-remove ((i, w) ∷ d) k j h = ground (arith, get-remove d k j)

  pub put-Distinct : (d : Dict V) (k : ℕ) (v : V) → Distinct d → Distinct (put d k v)
  put-Distinct [] k v h = (refl, tt)
  put-Distinct ((i, w) ∷ d) k v h = ground (arith, get-put d k i v, put-Distinct d k v)

  pub remove-Distinct : (d : Dict V) (k : ℕ) → Distinct d → Distinct (remove d k)
  remove-Distinct [] k h = tt
  remove-Distinct ((i, w) ∷ d) k h = ground (arith, get-remove d k i, remove-Distinct d k)

  pub length-put : (d : Dict V) (k : ℕ) (v : V) → length d ≤ length (put d k v)
  length-put [] k v = omega arith
  length-put ((i, w) ∷ d) k v = ground (arith, length-put d k v)

-- x in xs
abbrev pub mem : List ℕ → ℕ → Bool
mem [] a = false
mem (x ∷ xs) a = if x == a then true else mem xs a

-- sorted(xs)
abbrev pub insert : ℕ → List ℕ → List ℕ
insert a [] = a ∷ []
insert a (x ∷ xs) = if leb a x then a ∷ x ∷ xs else x ∷ insert a xs

abbrev pub sorted : List ℕ → List ℕ
sorted [] = []
sorted (x ∷ xs) = insert x (sorted xs)
