-- ===== src/Solver/Reduce/First.antt =====
-- `map_to_terms` lists the terms in the order of their indices, so the first one is the pivot.
use screen_airdrop.Prelude.{
  ℕ, ◌≤◌, ◌<◌, ◌≡◌, ◌≢◌, refl, List, [], ◌∷◌, ◌==◌, arith, Bool-cases, inl, inr,
}
use screen_airdrop.Prelude.Dict.{Dict, keys, insert, sorted}
use screen_airdrop.Solver.Rows.{get_zero, entries_at, map_to_terms}

-- The first term is that of source `k`.
abbrev pub First : ℕ → List (ℕ × ℕ) → Type 0
First k [] = ⊥
First k ((i, c) ∷ ts) = i ≡ k

abbrev AtLeast : ℕ → List ℕ → Type 0
AtLeast m [] = Unit
AtLeast m (x ∷ xs) = (m ≤ x) × AtLeast m xs

abbrev Ordered : List ℕ → Type 0
Ordered [] = Unit
Ordered (x ∷ xs) = AtLeast x xs × Ordered xs

AtLeast-le : (m n : ℕ) (xs : List ℕ) → m ≤ n → AtLeast n xs → AtLeast m xs
AtLeast-le m n [] h a = tt
AtLeast-le m n (x ∷ xs) h a = (omega arith, AtLeast-le m n xs h a.1)

insert-AtLeast : (m x : ℕ) (xs : List ℕ) → m ≤ x → AtLeast m xs → AtLeast m (insert x xs)
insert-AtLeast m x [] h a = (h, tt)
insert-AtLeast m x (y ∷ ys) h a = ground (arith, insert-AtLeast m x ys h)

insert-Ordered : (x : ℕ) (xs : List ℕ) → Ordered xs → Ordered (insert x xs)
insert-Ordered x [] o = (tt, tt)
insert-Ordered x (y ∷ ys) o =
    ground (arith, insert-Ordered x ys o.1, insert-AtLeast y x ys, AtLeast-le x y ys)

sorted-Ordered : (xs : List ℕ) → Ordered (sorted xs)
sorted-Ordered [] = tt
sorted-Ordered (x ∷ xs) = insert-Ordered x (sorted xs) (sorted-Ordered xs)

entries_at_low :
    (d : Dict ℕ) (m j : ℕ) (ks : List ℕ) → AtLeast m ks → j < m → get_zero (entries_at d ks) j ≡ 0
unfolding entries_at get_zero
entries_at_low d m j [] a h = refl
entries_at_low d m j (k ∷ ks) a h = ground (arith, entries_at_low d m j ks a.1)

entries_at-First :
    (d : Dict ℕ) (k : ℕ) (ks : List ℕ)
    → Ordered ks
    → get_zero (entries_at d ks) k ≢ 0
    → ((j : ℕ) → j < k → get_zero (entries_at d ks) j ≡ 0)
    → First k (entries_at d ks)
unfolding entries_at get_zero
entries_at-First d k [] o n b = n refl
entries_at-First d k (i ∷ ks) o n b = elim (Bool-cases (get_zero d i == 0)) [
  | inl zero_at ↦
      rw zero_at (entries_at-First d k ks o.1 (rw zero_at at n) (λ j h. rw zero_at at (b j h)))
  | inr value ↦ ground (arith, value, b i, entries_at_low d i k ks o.0)
]

pub map_to_terms-First :
    (d : Dict ℕ) (k : ℕ)
    → get_zero (map_to_terms d) k ≢ 0
    → ((j : ℕ) → j < k → get_zero (map_to_terms d) j ≡ 0)
    → First k (map_to_terms d)
unfolding map_to_terms
map_to_terms-First d k n b = entries_at-First d k (sorted (keys d)) (sorted-Ordered (keys d)) n b
