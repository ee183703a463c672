-- ===== src/Examples/Solve.antt =====
-- Reduction and solution on an equation of two sources, one of which is known or has a pivot row.
use screen_airdrop.Prelude.{
  ℕ, zero, suc, ◌≡◌, refl, subst, false, Option, List, [], ◌∷◌, arith, inl,
}
use screen_airdrop.Prelude.Dict.{Dict, mem}
use screen_airdrop.Prelude.Result.{ok}
use screen_airdrop.Solver.Rows.{EquationRow, get_zero}
use screen_airdrop.Solver.Reduce.{reduce_row}
use screen_airdrop.Solver.Reduce.Pivot.{IsPivotRow}
use screen_airdrop.Solver.Reduce.Loop.{IsPivotRows, IsReduced, reduce_row-Ends}
use screen_airdrop.Solver.Solve.{Solved, build_pivots, solve_equations}
use screen_airdrop.Solver.Solve.Pivots.{AreTrue, IsEquationRow, Off, build_pivots-IsPivotRows}
use screen_airdrop.Solver.Solve.Sound.{HoldsOf, AllHold, IsSolved, solve_equations-IsSolved}
use screen_airdrop.Coding.Payload.{gf256_scale_payload, xor_into}
use screen_airdrop.Solver.Rows.Value.{dot}
use screen_airdrop.Examples.Data.{symbol, symbol-Symbol, sum_row, known_one}
use screen_airdrop.Examples.Rows.{sum-holds, sum-Bytes, known-Agrees}

abbrev equations : Dict EquationRow
equations = (0, sum_row) ∷ []

abbrev sources : List ℕ
sources = 1 ∷ 2 ∷ []

sum-HoldsOf : HoldsOf 2 symbol symbol-Symbol sum_row
sum-HoldsOf = record {
  distinct = (refl, (refl, tt));
  bytes = sum-Bytes;
  rhs_symbol = (omega arith, (omega arith, tt));
  holds = sum-holds;
}

equations-AllHold : AllHold 2 symbol symbol-Symbol equations
equations-AllHold zero row e =
    let same : sum_row ≡ row = cc in subst (HoldsOf 2 symbol symbol-Symbol) same sum-HoldsOf
equations-AllHold (suc i) row e = absurd (ground arith)

solve_example :
    (r : ℕ × Solved) × (solve_equations equations known_one ≡ ok r)
    × IsSolved 2 symbol symbol-Symbol known_one r.1
solve_example =
    solve_equations-IsSolved 2 symbol symbol-Symbol equations known_one equations-AllHold
      known-Agrees

inside : (j : ℕ) → mem sources j ≡ false → get_zero sum_row.terms j ≡ 0
unfolding get_zero
inside j h = ground arith

sum-IsEquationRow : IsEquationRow 2 symbol symbol-Symbol sources sum_row
sum-IsEquationRow = record {
  distinct = (refl, (refl, tt));
  bytes = sum-Bytes;
  rhs_symbol = (omega arith, (omega arith, tt));
  holds = sum-holds;
  inside = inside;
}

equations-AreTrue : AreTrue 2 symbol symbol-Symbol sources equations
equations-AreTrue zero row e =
    let same : sum_row ≡ row = cc in
    subst (IsEquationRow 2 symbol symbol-Symbol sources) same sum-IsEquationRow
equations-AreTrue (suc i) row e = absurd (ground arith)

build_pivots_example :
    (rows : Dict EquationRow) × (build_pivots equations known_one ≡ ok rows)
    × IsPivotRows 2 symbol symbol-Symbol (Off 2 symbol symbol-Symbol sources known_one) rows
build_pivots_example =
    build_pivots-IsPivotRows 2 symbol symbol-Symbol sources equations known_one known-Agrees
      equations-AreTrue

abbrev one_row : EquationRow
one_row = record { terms = (1, 1) ∷ []; rhs_payload = 7 ∷ 9 ∷ [] }

abbrev pivots : Dict EquationRow
pivots = (1, one_row) ∷ []

abbrev Outside : ℕ → Type 0
Outside j = mem sources j ≡ false

one_row-IsPivotRow : IsPivotRow 2 symbol symbol-Symbol Outside 1 one_row
unfolding get_zero dot xor_into gf256_scale_payload
one_row-IsPivotRow = record {
  true_row = record {
    terms = record {
      distinct = (refl, tt);
      bytes = (omega arith, tt);
      nonzero = (omega arith, tt);
    };
    rhs_symbol = (omega arith, (omega arith, tt));
    holds = refl;
  };
  first = refl;
  one = refl;
  below = λ j h. ground arith;
  off = λ j h. ground arith;
}

pivots-IsPivotRows : IsPivotRows 2 symbol symbol-Symbol Outside pivots
pivots-IsPivotRows zero row e = absurd (ground arith)
pivots-IsPivotRows (suc zero) row e =
    let same : one_row ≡ row = cc in
    subst (IsPivotRow 2 symbol symbol-Symbol Outside 1) same one_row-IsPivotRow
pivots-IsPivotRows (suc (suc i)) row e = absurd (ground arith)

reduce_row_example :
    (o : Option EquationRow) × (reduce_row sum_row [] pivots ≡ ok o)
    × IsReduced 2 symbol symbol-Symbol Outside pivots o
reduce_row_example =
    reduce_row-Ends 2 symbol symbol-Symbol Outside [] pivots (λ i p e. cc) pivots-IsPivotRows
      sum_row (refl, (refl, tt)) sum-Bytes (omega arith, (omega arith, tt)) sum-holds
      (λ j h. inl (inside j h))
