-- ===== src/Sender/Schedule.antt =====
-- common/scheduling/interfaces.py and sender/scheduling: the order in which units are sent. The two
-- schedulers of unit_schedule.py and ogrb_scheduler.py run the same code. A count below 1 is taken
-- for 1, so the counts are natural numbers. The context's `policy` is not read.
pub mod Order
use screen_airdrop.Prelude.{
  ℕ, zero, suc, ◌+◌, ◌-◌, Bool, true, false, Option, none, some, List, [], ◌∷◌, ◌++◌, max,
}
use screen_airdrop.Units.{TransmissionUnit}

pub record GenerationUnitCandidate : Type 0 where
  pub generation_id : ℕ
  pub units : List TransmissionUnit

pub record SchedulerContext : Type 0 where
  pub transport_epoch_id : ℕ
  pub realization_count : ℕ

pub record ScheduledUnit : Type 0 where
  pub unit : TransmissionUnit
  pub transport_epoch_id : ℕ
  pub realization_index : ℕ
  pub realization_count : ℕ

-- broadcast_schedule.py
pub record BroadcastSchedule : Type 0 where
  pub sync_frames : ℕ
  pub control_burst_repeat : ℕ
  pub data_realizations : ℕ

unfoldable pub normalized_sync_frames : BroadcastSchedule → ℕ
normalized_sync_frames s = max 0 s.sync_frames

unfoldable pub normalized_control_burst_repeat : BroadcastSchedule → ℕ
normalized_control_burst_repeat s = max 1 s.control_burst_repeat

unfoldable pub normalized_data_realizations : BroadcastSchedule → ℕ
normalized_data_realizations s = max 1 s.data_realizations

unfoldable pub flattened : List GenerationUnitCandidate → List TransmissionUnit
flattened [] = []
flattened (candidate ∷ candidates) = candidate.units ++ flattened candidates

-- `if generation_candidates`: the candidates' units, where there are candidates.
unfoldable pub chosen_units :
    List TransmissionUnit → List GenerationUnitCandidate → List TransmissionUnit
unfolding flattened
chosen_units units [] = units
chosen_units units (candidate ∷ candidates) = flattened (candidate ∷ candidates)

-- The inner loop from `index` on, with `left` realizations to schedule.
unfoldable pub realizations : TransmissionUnit → ℕ → ℕ → ℕ → ℕ → List ScheduledUnit
realizations unit epoch count index zero = []
realizations unit epoch count index (suc left) =
    record {
      unit = unit;
      transport_epoch_id = epoch;
      realization_index = index;
      realization_count = count;
    }
    ∷ realizations unit epoch count (index + 1) left

unfoldable pub schedule_each : List TransmissionUnit → ℕ → ℕ → List ScheduledUnit
unfolding realizations
schedule_each [] epoch count = []
schedule_each (unit ∷ units) epoch count =
    realizations unit epoch count 0 count ++ schedule_each units epoch count

unfoldable pub schedule_units :
    List TransmissionUnit
    → ℕ
    → ℕ
    → List GenerationUnitCandidate
    → Option SchedulerContext
    → List ScheduledUnit
unfolding chosen_units schedule_each
schedule_units units epoch count candidates none =
    schedule_each (chosen_units units candidates) epoch (max 1 count)
schedule_units units epoch count candidates (some context) =
    schedule_each (chosen_units units candidates) context.transport_epoch_id
      (max 1 context.realization_count)

-- CodedAugmentedBroadcastScheduler
unfoldable pub schedule_generation_units :
    List TransmissionUnit → List TransmissionUnit → ℕ → ℕ → List ScheduledUnit
unfolding schedule_units
schedule_generation_units systematic_units coded_units epoch count =
    schedule_units (systematic_units ++ coded_units) epoch count [] none
