-- ===== src/Examples/Schedule.antt =====
-- Units that are sent three times each, or once.
use screen_airdrop.Prelude.{List, ◌≡◌, refl, some, [], ◌∷◌, length, get_elem?, arith}
use screen_airdrop.Units.{systematic, coded}
use screen_airdrop.Sender.Schedule.{
  schedule_units, schedule_generation_units, GenerationUnitCandidate, SchedulerContext,
}
use screen_airdrop.Sender.Schedule.Order.{
  realization, schedule_units-order, schedule_generation_units-order,
}
use screen_airdrop.Examples.Data.{first_unit, second_unit, sum_unit}

-- The first unit of the second candidate is the third to be sent.
abbrev two_candidates : List GenerationUnitCandidate
two_candidates =
    record { generation_id = 1; units = systematic first_unit ∷ systematic second_unit ∷ [] }
    ∷ record { generation_id = 2; units = coded sum_unit ∷ systematic first_unit ∷ [] }
    ∷ []

abbrev session_context : SchedulerContext
session_context = record { transport_epoch_id = 9; realization_count = 3 }

schedule_example :
    (get_elem?
        (schedule_units (systematic second_unit ∷ []) 4 1 two_candidates (some session_context))
        8
      ≡ some (realization (coded sum_unit) 9 3 2))
    × (length
          (schedule_units (systematic second_unit ∷ []) 4 1 two_candidates (some session_context))
        ≡ 12)
schedule_example =
    schedule_units-order (systematic second_unit ∷ []) 4 1 2 2 (coded sum_unit) two_candidates
      (some session_context) refl (omega arith)

generation_example :
    (get_elem? (schedule_generation_units (systematic first_unit ∷ []) (coded sum_unit ∷ []) 4 0) 0
      ≡ some (realization (systematic first_unit) 4 1 0))
    × (get_elem?
          (schedule_generation_units (systematic first_unit ∷ []) (coded sum_unit ∷ []) 4 0)
          1
        ≡ some (realization (coded sum_unit) 4 1 0))
generation_example =
    schedule_generation_units-order (systematic first_unit ∷ []) (coded sum_unit ∷ []) 4 0 0 0 0
      (systematic first_unit) (coded sum_unit) refl refl (omega arith)
