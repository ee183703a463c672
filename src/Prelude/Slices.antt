-- ===== src/Prelude/Slices.antt =====
-- `[data[i : i + n] for i in range(0, len(data), n)]`: a sequence cut into slices.
use Prim.Native.Nat.{ℕ, zero, suc, ◌≤◌, ◌<◌}
use mathlib.Core.Path.{◌≡◌, refl, ap, ◌∙◌}
use mathlib.Core.List.{List, [], ◌∷◌, ◌++◌}
use native.Mathlib.Omega.{arith}
use screen_airdrop.Prelude.{length, take, drop, length-drop}

module _ {A : Type 0} where
  -- The slices of what is left, with fuel for its length.
  abbrev pub slices_from : ℕ → ℕ → List A → List (List A)
  slices_from zero n xs = []
  slices_from (suc fuel) n [] = []
  slices_from (suc fuel) n (x ∷ xs) = take n (x ∷ xs) ∷ slices_from fuel n (drop n (x ∷ xs))

  abbrev pub slices : ℕ → List A → List (List A)
  slices n xs = slices_from (length xs) n xs

  abbrev pub concat : List (List A) → List A
  concat [] = []
  concat (xs ∷ xss) = xs ++ concat xss

  pub take-drop : (n : ℕ) (xs : List A) → take n xs ++ drop n xs ≡ xs
  take-drop zero xs = refl
  take-drop (suc n) [] = refl
  take-drop (suc n) (x ∷ xs) = ap (λ ys. x ∷ ys) (take-drop n xs)

  concat-slices_from :
      (fuel n : ℕ) (xs : List A) → 0 < n → length xs ≤ fuel → concat (slices_from fuel n xs) ≡ xs
  concat-slices_from zero n [] h f = refl
  concat-slices_from zero n (x ∷ xs) h f = absurd (omega (arith, f))
  concat-slices_from (suc fuel) n [] h f = refl
  concat-slices_from (suc fuel) n (x ∷ xs) h f =
      ap (λ ys. take n (x ∷ xs) ++ ys)
        (concat-slices_from fuel n (drop n (x ∷ xs)) h
          (omega (arith, h, f, length-drop n (x ∷ xs))))
      ∙ take-drop n (x ∷ xs)

  -- The fuel is enough: the slices are the whole sequence.
  pub concat-slices : (n : ℕ) (xs : List A) → 0 < n → concat (slices n xs) ≡ xs
  concat-slices n xs h = concat-slices_from (length xs) n xs h (omega arith)
