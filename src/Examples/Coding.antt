-- ===== src/Examples/Coding.antt =====
-- The codec's theorems on small inputs.
use screen_airdrop.Prelude.{ℕ, ◌<◌, ◌≡◌, refl, List, [], ◌∷◌, bit_xor, arith}
use screen_airdrop.Prelude.Dict.{sorted}
use screen_airdrop.Prelude.Result.{ok, err, zero_division_error}
use screen_airdrop.Coding.Gf256.{gf256_mul, gf256_inv}
use screen_airdrop.Coding.Gf256.Field.{mul_assoc, mul-bit_xor, gf256_inv_lem}
use screen_airdrop.Coding.Payload.{gf256_linear_combine}
use screen_airdrop.Coding.Payload.Sums.{weighted_sum, linear_combine-weighted_sum}
use screen_airdrop.Coding.Equation.{
  expand_equation_indices_v2, expand_equation_terms, gf256_seed_v2,
}
use screen_airdrop.Coding.Equation.Selection.{window, first_position, expand_indices_v2-window}
use screen_airdrop.Coding.Equation.Terms.{IsEquation, expand_equation_terms_lem}
use screen_airdrop.Examples.Data.{plain_random}

mul_assoc_example : gf256_mul (gf256_mul 200 3) 77 ≡ gf256_mul 200 (gf256_mul 3 77)
mul_assoc_example = mul_assoc 200 3 77 (omega arith) (omega arith) (omega arith)

mul-bit_xor_example : gf256_mul 200 (bit_xor 3 77) ≡ bit_xor (gf256_mul 200 3) (gf256_mul 200 77)
mul-bit_xor_example = mul-bit_xor 200 3 77 (omega arith) (omega arith) (omega arith)

gf256_inv_example : (b : ℕ) × (gf256_inv 200 ≡ ok b) × (0 < b) × (b < 256) × (gf256_mul 200 b ≡ 1)
gf256_inv_example = gf256_inv_lem 200 (omega arith) (omega arith)

linear_combine_example :
    gf256_linear_combine ((3, 7 ∷ 9 ∷ []) ∷ (200, 3 ∷ 200 ∷ []) ∷ [])
    ≡ ok (weighted_sum 2 ((3, 7 ∷ 9 ∷ []) ∷ (200, 3 ∷ 200 ∷ []) ∷ []))
linear_combine_example = linear_combine-weighted_sum 2 3 (7 ∷ 9 ∷ []) ((200, 3 ∷ 200 ∷ []) ∷ []) (
  omega arith,
  (omega arith, (omega arith, tt)),
  (omega arith, (omega arith, (omega arith, tt)), tt),
)

window_example :
    expand_equation_indices_v2 7 12 3 ≡ ok (sorted (window 7 (first_position 7 12 3) 3))
window_example = expand_indices_v2-window 7 12 3 (omega arith) (omega arith)

no_degree_example : expand_equation_indices_v2 7 12 0 ≡ err zero_division_error
unfolding expand_equation_indices_v2
no_degree_example = refl

terms_example :
    (ts : List (ℕ × ℕ)) × (expand_equation_terms plain_random 7 12 3 gf256_seed_v2 ≡ ok ts)
    × IsEquation 7 3 ts
terms_example =
    expand_equation_terms_lem plain_random 7 12 3 gf256_seed_v2 (omega arith) (omega arith)
