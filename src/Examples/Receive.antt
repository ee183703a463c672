-- ===== src/Examples/Receive.antt =====
-- The solver's operations on a generation of two sources, of which one arrives, and an equation.
use screen_airdrop.Prelude.{ℕ, suc, ◌≡◌, ◌⊎◌, refl, ap, ◌∙◌, List, some, arith}
use screen_airdrop.Prelude.Dict.{get}
use screen_airdrop.Prelude.Result.{ok}
use screen_airdrop.Coding.Equation.{
  expand_equation_terms, expand_equation_indices_for_scheme, draw_coefficients, gf256_seed_v2,
}
use screen_airdrop.Solver.Rows.Value.{dot}
use screen_airdrop.Solver.State.{
  SolverState, SolverCodedResult, accepted, recovered, ingest_systematic, ingest_coded,
}
use screen_airdrop.Solver.State.Sound.{
  IsSound, IsTruthful, Keeps, ingest_systematic-IsSound, ingest_coded-IsSound,
}
use screen_airdrop.Examples.Data.{
  symbol, symbol-Symbol, plain_random, fresh, fresh-IsSound, first_unit, sum_unit, sum_row,
}
use screen_airdrop.Examples.Rows.{sum-holds}

sum_unit-expands : expand_equation_terms plain_random 2 0 2 gf256_seed_v2 ≡ ok sum_row.terms
unfolding expand_equation_terms expand_equation_indices_for_scheme draw_coefficients
sum_unit-expands = refl

pub sum_unit-IsTruthful : IsTruthful 2 symbol symbol-Symbol plain_random sum_unit
sum_unit-IsTruthful = record {
  symbol = (omega arith, (omega arith, tt));
  positive = omega arith;
  bounded = omega arith;
  combination = λ ts e.
      let same : ts ≡ sum_row.terms = cc (e, sum_unit-expands) in
      ap (dot 2 symbol) same ∙ sum-holds;
}

ingest_coded_example :
    (r : SolverState × SolverCodedResult) × (ingest_coded plain_random fresh sum_unit ≡ ok r)
    × IsSound 2 symbol symbol-Symbol r.0
    × Keeps 2 symbol symbol-Symbol fresh r.0
    × (r.0.raw_coded_count ≡ suc fresh.raw_coded_count)
    × ((r.1.status ≡ accepted) ⊎ (r.1.status ≡ recovered))
ingest_coded_example =
    ingest_coded-IsSound 2 symbol symbol-Symbol plain_random fresh sum_unit fresh-IsSound
      sum_unit-IsTruthful

ingest_systematic_example :
    (r : SolverState × List ℕ) × (ingest_systematic fresh first_unit ≡ ok r)
    × IsSound 2 symbol symbol-Symbol r.0
    × (get r.0.decoded_source_symbols first_unit.source_index ≡ some first_unit.payload)
    × Keeps 2 symbol symbol-Symbol fresh r.0
ingest_systematic_example =
    ingest_systematic-IsSound 2 symbol symbol-Symbol fresh first_unit fresh-IsSound refl
