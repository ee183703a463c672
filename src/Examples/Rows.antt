-- ===== src/Examples/Rows.antt =====
-- The theorems on rows and their reduction, on an equation of two sources.
use screen_airdrop.Prelude.{ℕ, zero, suc, ◌≡◌, refl, Option, [], ◌∷◌, bit_xor, arith}
use screen_airdrop.Prelude.Dict.{Dict}
use screen_airdrop.Prelude.Result.{ok}
use screen_airdrop.Coding.Gf256.{gf256_mul}
use screen_airdrop.Coding.Tables.{exp_at, exp_table, log_at, log_table}
use screen_airdrop.Coding.Payload.{gf256_scale_payload, xor_into}
use screen_airdrop.Solver.Rows.{EquationRow, get_zero, subtract_rows}
use screen_airdrop.Solver.Rows.Coefficients.{Bytes, IsTerms, get_zero-subtract_rows}
use screen_airdrop.Solver.Rows.Value.{dot, dot-subtract_rows}
use screen_airdrop.Solver.Reduce.{normalize_row}
use screen_airdrop.Solver.Reduce.Normalize.{Agrees}
use screen_airdrop.Solver.Reduce.Truth.{IsNormal, normalize_row-IsNormal}
use screen_airdrop.Examples.Data.{symbol, symbol-Symbol, sum_row, known_one}

abbrev row : Dict ℕ
row = (1, 2) ∷ (2, 5) ∷ []

abbrev other : Dict ℕ
other = (2, 1) ∷ (4, 9) ∷ []

row-IsTerms : IsTerms row
row-IsTerms = record {
  distinct = (refl, (refl, tt));
  bytes = (omega arith, (omega arith, tt));
  nonzero = (omega arith, (omega arith, tt));
}

other-Bytes : Bytes other
other-Bytes = (omega arith, (omega arith, tt))

subtract_example :
    get_zero (subtract_rows row other 5) 4
    ≡ bit_xor (get_zero row 4) (gf256_mul (get_zero other 4) 5)
subtract_example =
    get_zero-subtract_rows row other 5 4 (omega arith) row-IsTerms (refl, (refl, tt)) other-Bytes

dot_example :
    dot 2 symbol (subtract_rows row other 5)
    ≡ xor_into (dot 2 symbol row) (gf256_scale_payload (dot 2 symbol other) 5)
dot_example =
    dot-subtract_rows 2 symbol symbol-Symbol row other 5 (omega arith) other-Bytes row-IsTerms

pub sum-holds : dot 2 symbol sum_row.terms ≡ sum_row.rhs_payload
unfolding dot xor_into gf256_scale_payload gf256_mul exp_at exp_table log_at log_table
sum-holds = refl

pub sum-Bytes : Bytes sum_row.terms
sum-Bytes = (omega arith, (omega arith, tt))

pub known-Agrees : Agrees 2 symbol symbol-Symbol known_one
known-Agrees zero p e = cc
known-Agrees (suc zero) p e = cc
known-Agrees (suc (suc i)) p e = absurd (ground arith)

normalize_example :
    (o : Option EquationRow) × (normalize_row sum_row known_one ≡ ok o)
    × IsNormal 2 symbol symbol-Symbol known_one sum_row.terms o
normalize_example =
    normalize_row-IsNormal 2 symbol symbol-Symbol known_one sum_row known-Agrees (refl, (refl, tt))
      sum-Bytes (omega arith, (omega arith, tt)) sum-holds
