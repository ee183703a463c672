-- ===== src/Examples/Send.antt =====
-- The sender's builders on two chunks.
use screen_airdrop.Prelude.{◌≡◌, refl, List, [], ◌∷◌, arith}
use screen_airdrop.Prelude.Result.{ok}
use screen_airdrop.Coding.Equation.{gf256_seed_v2}
use screen_airdrop.Units.{SystematicUnit, CodedUnit}
use screen_airdrop.Solver.State.Sound.{IsTruthful}
use screen_airdrop.Sender.Builder.{
  GenerationPlan, build_coded_unit, build_systematic_generation_plans,
}
use screen_airdrop.Sender.Builder.Truthful.{build_coded_unit-IsTruthful}
use screen_airdrop.Sender.Builder.Plans.{IsPlan, generation_plans-IsPlan}
use screen_airdrop.Examples.Data.{symbol, symbol-Symbol, plain_random, first_unit, second_unit}

abbrev two_units : List SystematicUnit
two_units = first_unit ∷ second_unit ∷ []

coded_unit_example :
    (u : CodedUnit) × (build_coded_unit plain_random 5 0 2 two_units 4 6 2 gf256_seed_v2 ≡ ok u)
    × IsTruthful 2 symbol symbol-Symbol plain_random u
    × (u.equation_id ≡ 4)
    × (u.coding_seed ≡ 6)
    × (u.degree ≡ 2)
coded_unit_example =
    build_coded_unit-IsTruthful 2 symbol symbol-Symbol plain_random 5 0 two_units 4 6 2
      gf256_seed_v2 (refl, refl, (refl, refl, tt)) (omega arith) (omega arith)

plans_example :
    (ps : List GenerationPlan) × (build_systematic_generation_plans 5
        ((1 ∷ []) ∷ (2 ∷ []) ∷ (3 ∷ []) ∷ [])
        2
      ≡ ok ps)
    × IsPlan 2 0 0 ((1 ∷ []) ∷ (2 ∷ []) ∷ (3 ∷ []) ∷ []) ps
plans_example = generation_plans-IsPlan 5 ((1 ∷ []) ∷ (2 ∷ []) ∷ (3 ∷ []) ∷ []) 2
