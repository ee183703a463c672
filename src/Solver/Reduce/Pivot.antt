-- ===== src/Solver/Reduce/Pivot.antt =====
-- The row of a new pivot, and the least key of a dictionary.
use screen_airdrop.Prelude.{
  ℕ, ◌≤◌, ◌<◌, ◌≡◌, ◌≢◌, ◌⊎◌, refl, sym, ap, ◌∙◌, none, [], ◌∷◌, ◌==◌, arith, inl, inr, Bool-cases,
  min,
}
use screen_airdrop.Prelude.Dict.{Dict, get, Distinct}
use screen_airdrop.Prelude.Result.{ok}
use screen_airdrop.Coding.Gf256.{gf256_mul, gf256_div}
use screen_airdrop.Coding.Gf256.Field.{gf256_inv_lem, one-mul, zero-mul, mul-lt}
use screen_airdrop.Coding.Payload.{Payload, gf256_scale_payload}
use screen_airdrop.Coding.Payload.Symbols.{
  Symbol, zeros-scale, scale-Symbol, scale-xor, scale-scale,
}
use screen_airdrop.Solver.Rows.{EquationRow, get_zero, map_to_terms}
use screen_airdrop.Solver.Rows.Coefficients.{
  Bytes, NonZero, IsTerms, map_to_terms-IsTerms, get_zero-map_to_terms,
}
use screen_airdrop.Solver.Rows.Value.{dot, dot-Symbol, dot-map_to_terms}
use screen_airdrop.Solver.Reduce.{scale_terms, min_key, pivot_row}
use screen_airdrop.Solver.Reduce.First.{First, map_to_terms-First}
use screen_airdrop.Solver.Reduce.Truth.{IsTrue}

-- The least key has a coefficient, and no smaller index has one.
min_key_bounds :
    (m : ℕ) (d : Dict ℕ) → (min_key m d ≤ m) × ((j : ℕ) → j < min_key m d → get_zero d j ≡ 0)
unfolding min_key get_zero
min_key_bounds m [] = (omega arith, λ j h. refl)
min_key_bounds m ((i, v) ∷ d) =
    let (le, below) = min_key_bounds (min m i) d in (omega arith, λ j h. ground (arith, below j h))

min_key_found :
    (m : ℕ) (d : Dict ℕ) → NonZero d → (min_key m d ≡ m) ⊎ (get_zero d (min_key m d) ≢ 0)
unfolding min_key get_zero
min_key_found m [] n = inl refl
min_key_found m ((i, v) ∷ d) n = ground (arith, min_key_found (min m i) d n.1)

pub min_key-below : (k v : ℕ) (d : Dict ℕ) (j : ℕ) → j < min_key k d → get_zero ((k, v) ∷ d) j ≡ 0
unfolding get_zero
min_key-below k v d j h = let (le, below) = min_key_bounds k d in ground (arith, below j h)

pub min_key-ne :
    (k v : ℕ) (d : Dict ℕ) → NonZero ((k, v) ∷ d) → get_zero ((k, v) ∷ d) (min_key k d) ≢ 0
unfolding get_zero
min_key-ne k v d n = ground (arith, min_key_found k d n.1)

-- The quotient of 1 by a byte other than 0.
pub gf256_div_one :
    (c : ℕ) → 0 < c → c < 256 → (s : ℕ) × (gf256_div 1 c ≡ ok s) × (s < 256) × (gf256_mul c s ≡ 1)
unfolding gf256_div
gf256_div_one c p h =
    let (s, e, pos, lt, product) = gf256_inv_lem c p h in
    (s, rw e (ap ok (one-mul s lt)), lt, product)

scale_terms-none : (d : Dict ℕ) (s j : ℕ) → get d j ≡ none → get (scale_terms d s) j ≡ none
unfolding scale_terms
scale_terms-none [] s j h = refl
scale_terms-none ((i, c) ∷ d) s j h = ground (arith, scale_terms-none d s j)

scale_terms-Distinct : (d : Dict ℕ) (s : ℕ) → Distinct d → Distinct (scale_terms d s)
unfolding scale_terms
scale_terms-Distinct [] s u = tt
scale_terms-Distinct ((i, c) ∷ d) s u = (scale_terms-none d s i u.0, scale_terms-Distinct d s u.1)

scale_terms-Bytes : (d : Dict ℕ) (s : ℕ) → s < 256 → Bytes d → Bytes (scale_terms d s)
unfolding scale_terms
scale_terms-Bytes [] s h b = tt
scale_terms-Bytes ((i, c) ∷ d) s h b = (mul-lt c s b.0 h, scale_terms-Bytes d s h b.1)

get_zero-scale_terms :
    (d : Dict ℕ) (s j : ℕ) → get_zero (scale_terms d s) j ≡ gf256_mul (get_zero d j) s
unfolding scale_terms get_zero
get_zero-scale_terms [] s j = sym (zero-mul s)
get_zero-scale_terms ((i, c) ∷ d) s j = ground (arith, get_zero-scale_terms d s j)

module _ (w : ℕ) (x : ℕ → Payload) (source : (i : ℕ) → Symbol w (x i)) where
  dot-scale_terms :
      (d : Dict ℕ) (s : ℕ)
      → s < 256
      → Bytes d
      → dot w x (scale_terms d s) ≡ gf256_scale_payload (dot w x d) s
  unfolding scale_terms dot
  dot-scale_terms [] s h b = sym (zeros-scale w s h)
  dot-scale_terms ((i, c) ∷ d) s h b =
      let t = gf256_scale_payload (x i) c in
      cc (
        dot-scale_terms d s h b.1,
        scale-scale w (x i) c s (source i) b.0 h,
        scale-xor w t (dot w x d) s (scale-Symbol w (x i) c (source i) b.0)
            (dot-Symbol w x source d b.1) h,
      )

  -- A true row with coefficient 1 at its pivot and none below it.
  pub record IsPivotRow (Off : ℕ → Type 0) (k : ℕ) (row : EquationRow) : Type 0 where
    pub true_row : IsTrue w x source row
    pub first : First k row.terms
    pub one : get_zero row.terms k ≡ 1
    pub below : (j : ℕ) → j < k → get_zero row.terms j ≡ 0
    pub off : (j : ℕ) → Off j → get_zero row.terms j ≡ 0

  pub pivot_row-IsPivotRow :
      (Off : ℕ → Type 0) (d : Dict ℕ) (rhs : Payload) (k : ℕ)
      → IsTerms d
      → Symbol w rhs
      → dot w x d ≡ rhs
      → 0 < get_zero d k
      → get_zero d k < 256
      → ((j : ℕ) → j < k → get_zero d j ≡ 0)
      → ((j : ℕ) → Off j → get_zero d j ≡ 0)
      → (row : EquationRow) × (pivot_row d rhs k ≡ ok row) × IsPivotRow Off k row
  unfolding pivot_row
  pivot_row-IsPivotRow Off d rhs k t s e pos lt b f = elim (Bool-cases (get_zero d k == 1)) [
    | inl one ↦ (
      record { terms = map_to_terms d; rhs_payload = rhs },
      rw one,
      record {
        true_row = record {
          terms = map_to_terms-IsTerms d t.distinct t.bytes;
          rhs_symbol = s;
          holds = dot-map_to_terms w x source d t.distinct t.bytes ∙ e;
        };
        first =
            map_to_terms-First d k (ground (arith, get_zero-map_to_terms d k))
              (λ j h. get_zero-map_to_terms d j ∙ b j h);
        one = ground (arith, get_zero-map_to_terms d k);
        below = λ j h. get_zero-map_to_terms d j ∙ b j h;
        off = λ j h. get_zero-map_to_terms d j ∙ f j h;
      },
    )
    | inr other ↦
        let (c, q, c_lt, product) = gf256_div_one (get_zero d k) pos lt in
        let d' = scale_terms d c in
        let u' = scale_terms-Distinct d c t.distinct in
        let b' = scale_terms-Bytes d c c_lt t.bytes in
        let zeroed : (j : ℕ) → get_zero d j ≡ 0 → get_zero (map_to_terms d') j ≡ 0 =
          λ j h. cc (get_zero-map_to_terms d' j, get_zero-scale_terms d c j, h, zero-mul c) in
        let at_k : get_zero (map_to_terms d') k ≡ 1 =
          get_zero-map_to_terms d' k ∙ get_zero-scale_terms d c k ∙ product in
        (
          record { terms = map_to_terms d'; rhs_payload = gf256_scale_payload rhs c },
          rw (other, q),
          record {
            true_row = record {
              terms = map_to_terms-IsTerms d' u' b';
              rhs_symbol = scale-Symbol w rhs c s c_lt;
              holds =
                  dot-map_to_terms w x source d' u' b'
                  ∙ dot-scale_terms d c c_lt t.bytes
                  ∙ ap (λ p. gf256_scale_payload p c) e;
            };
            first = map_to_terms-First d' k (λ z. ground (arith, at_k)) (λ j h. zeroed j (b j h));
            one = at_k;
            below = λ j h. zeroed j (b j h);
            off = λ j h. zeroed j (f j h);
          },
        )
  ]
