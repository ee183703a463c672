-- ===== src/Coding/Equation/Selection.antt =====
-- The indices that the V2 scheme selects: a window of consecutive sources, wrapped round.
use screen_airdrop.Prelude.{
  ℕ, zero, suc, ◌+◌, ◌-◌, ◌*◌, ◌/◌, ◌%◌, ◌≤◌, ◌<◌, ◌≡◌, ◌≢◌, refl, sym, ap, ◌∙◌, true, false, inl,
  inr, List, [], ◌∷◌, ◌++◌, ◌==◌, ◌||◌, not, ltb, if◌then◌else◌, length, length-append, arith,
  Bool-cases,
}
use screen_airdrop.Prelude.Dict.{mem, insert, sorted}
use screen_airdrop.Prelude.Result.{Result, ok, ◌>>=◌}
use screen_airdrop.Coding.Equation.{Unique, Within, select, expand_equation_indices_v2}
use native.Mathlib.Nat.{mod-lt, mod-add-mod, div-add-mod', add_assoc, add-zero}
use native.Mathlib.Numerals.{add-one}

pub mem-insert : (a x : ℕ) (xs : List ℕ) → mem (insert x xs) a ≡ (if x == a then true else mem xs a)
mem-insert a x [] = refl
mem-insert a x (y ∷ ys) = ground (arith, mem-insert a x ys)

pub mem-sorted : (a : ℕ) (xs : List ℕ) → mem (sorted xs) a ≡ mem xs a
mem-sorted a [] = refl
mem-sorted a (x ∷ xs) = ground (arith, mem-insert a x (sorted xs), mem-sorted a xs)

insert-Unique : (x : ℕ) (xs : List ℕ) → mem xs x ≡ false → Unique xs → Unique (insert x xs)
insert-Unique x [] h u = (refl, tt)
insert-Unique x (y ∷ ys) h u = ground (arith, mem-insert y x ys, insert-Unique x ys)

pub sorted-Unique : (xs : List ℕ) → Unique xs → Unique (sorted xs)
sorted-Unique [] u = tt
sorted-Unique (x ∷ xs) (h, u) =
    insert-Unique x (sorted xs) (mem-sorted x xs ∙ h) (sorted-Unique xs u)

insert-Within : (n x : ℕ) (xs : List ℕ) → 1 ≤ x → x ≤ n → Within n xs → Within n (insert x xs)
insert-Within n x [] p q w = (p, q, tt)
insert-Within n x (y ∷ ys) p q w = ground (arith, insert-Within n x ys)

pub sorted-Within : (n : ℕ) (xs : List ℕ) → Within n xs → Within n (sorted xs)
sorted-Within n [] w = tt
sorted-Within n (x ∷ xs) (p, q, w) = insert-Within n x (sorted xs) p q (sorted-Within n xs w)

length-insert : (x : ℕ) (xs : List ℕ) → length (insert x xs) ≡ suc (length xs)
length-insert x [] = refl
length-insert x (y ∷ ys) = ground (arith, length-insert x ys)

pub length-sorted : (xs : List ℕ) → length (sorted xs) ≡ length xs
length-sorted [] = refl
length-sorted (x ∷ xs) = omega (arith, length-insert x (sorted xs), length-sorted xs)

pub mem-append :
    (a : ℕ) (xs : List ℕ) (y : ℕ)
    → mem (xs ++ y ∷ []) a ≡ (if mem xs a then true else if y == a then true else false)
mem-append a [] y = refl
mem-append a (x ∷ xs) y = ground (arith, mem-append a xs y)

pub append-Unique : (xs : List ℕ) (y : ℕ) → Unique xs → mem xs y ≡ false → Unique (xs ++ y ∷ [])
append-Unique [] y u h = (refl, tt)
append-Unique (x ∷ xs) y u h = ground (arith, mem-append x xs y, append-Unique xs y)

append-Within :
    (n : ℕ) (xs : List ℕ) (y : ℕ) → Within n xs → 1 ≤ y → y ≤ n → Within n (xs ++ y ∷ [])
append-Within n [] y w p q = (p, q, tt)
append-Within n (x ∷ xs) y w p q = ground (arith, append-Within n xs y)

-- The first `k` positions from `start`, round a generation of `size` sources.
abbrev pub window : ℕ → ℕ → ℕ → List ℕ
window size start zero = []
window size start (suc k) = window size start k ++ ((start + k) % size + 1) ∷ []

pub length-window : (size start k : ℕ) → length (window size start k) ≡ k
length-window size start zero = refl
length-window size start (suc k) = omega (
  arith,
  length-append (window size start k) (((start + k) % size + 1) ∷ []),
  length-window size start k,
)

mul_mono : (a b c : ℕ) → a ≤ b → a * c ≤ b * c
mul_mono a b c h = grind arith

-- Two numbers less than `size` apart have different remainders.
position_ne : (size a b : ℕ) → a < b → b < a + size → a % size ≢ b % size
position_ne size a b p q e = elim (Bool-cases (ltb (a / size) (b / size))) [
  | inl lt ↦ absurd (
      omega (
        arith,
        div-add-mod' a size,
        div-add-mod' b size,
        mul_mono (a / size + 1) (b / size) size (ground arith),
      ))
  | inr ge ↦ absurd (
      omega (
        arith,
        div-add-mod' a size,
        div-add-mod' b size,
        mul_mono (b / size) (a / size) size (ground arith),
      ))
]

-- A position past the window, less than a round away, is not in it.
not-mem-window :
    (size start k m : ℕ)
    → k ≤ m
    → m < size
    → mem (window size start k) ((start + m) % size + 1) ≡ false
not-mem-window size start zero m p q = refl
not-mem-window size start (suc k) m p q = ground (
  arith,
  mem-append ((start + m) % size + 1) (window size start k) ((start + k) % size + 1),
  not-mem-window size start k m (omega arith) q,
  position_ne size (start + k) (start + m) (omega arith) (omega arith),
)

pub window-Unique : (size start k : ℕ) → k ≤ size → Unique (window size start k)
window-Unique size start zero h = tt
window-Unique size start (suc k) h =
    append-Unique (window size start k) ((start + k) % size + 1)
      (window-Unique size start k (omega arith)) (not-mem-window size start k k (omega arith) h)

pub window-Within : (size start k : ℕ) → 0 < size → Within size (window size start k)
window-Within size start zero h = tt
window-Within size start (suc k) h =
    append-Within size (window size start k) ((start + k) % size + 1) (window-Within size start k h)
      (omega arith) (omega (arith, mod-lt (start + k) h))

-- With `degree - k` rounds of fuel the loop extends the window of `k` to one of `degree`.
select-window :
    (fuel size start degree k : ℕ)
    → k + fuel ≡ degree
    → degree ≤ size
    → select fuel size degree ((start + k) % size) (window size start k)
      ≡ ok (window size start degree)
unfolding select
select-window zero size start degree k e h =
    let f : k ≡ degree = omega arith in rw (length-window, f) (ground arith)
select-window (suc fuel) size start degree k e h = ground (
  arith,
  length-window size start k,
  not-mem-window size start k k (omega arith) (omega arith),
  mod-add-mod (start + k) size 1,
  ap (λ (t : ℕ). t % size) (add_assoc start k 1),
  add-one k,
  select-window fuel size start degree (suc k) (omega arith) h,
)

-- The position at which the V2 scheme starts, before it is taken round the generation.
abbrev pub first_position : ℕ → ℕ → ℕ → ℕ
first_position size coding_seed degree =
    let group_count = (size + degree - 1) / degree in
    coding_seed / group_count + coding_seed % group_count * degree

-- For a degree from 1 up to the generation's size the V2 selection loop ends, and the indices
-- returned are, sorted, the window of as many consecutive sources as the degree, wrapped round the
-- generation from the first position.
pub expand_indices_v2-window :
    (size coding_seed degree : ℕ)
    → 0 < degree
    → degree ≤ size
    → expand_equation_indices_v2 size coding_seed degree
      ≡ ok (sorted (window size (first_position size coding_seed degree) degree))
unfolding expand_equation_indices_v2
expand_indices_v2-window size coding_seed degree p h =
    let start = first_position size coding_seed degree in
    let divides : not (degree == 0 || size == 0) ≡ true = ground arith in
    rw divides (
      ap (λ (r : Result (List ℕ)). do selected ← r; ok (sorted selected))
        (ap (λ (c : ℕ). select degree size degree (c % size) []) (sym (add-zero start))
          ∙ select-window degree size start degree 0 (omega arith) h))
