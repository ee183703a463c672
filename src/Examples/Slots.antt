-- ===== src/Examples/Slots.antt =====
-- One free slot of two, taken for a grab.
use screen_airdrop.Prelude.{ℕ, ◌≡◌, zero, suc, refl, [], ◌∷◌, none, some, false, arith}
use screen_airdrop.Runtime.Slots.{
  SlotRecord, SlotManager, SlotState, free, filled, is_filled, allocate_for_grab,
}
use screen_airdrop.Runtime.Slots.Reclaim.{
  overwrite_oldest_filled, writer_owned, reclaim_writer_owner,
}
use screen_airdrop.Runtime.Slots.Reclaimed.{reclaim_writer_owner-owned}
use screen_airdrop.Runtime.Slots.Oldest.{Overwritten, overwrite_oldest_filled-oldest}
use screen_airdrop.Prelude.Dict.{get, mem}
use screen_airdrop.Runtime.Slots.Agree.{free_at, IsValid}
use screen_airdrop.Runtime.Slots.Valid.{allocated, Step-IsValid}

abbrev slot : SlotState → SlotRecord
slot state = record {
  shm_name = 0;
  generation = 3;
  state = state;
  writer_owner = none;
  decode_owner = none;
  dump_reader_ref = 0;
  current_descriptor = none;
}

abbrev manager : SlotManager
manager = record {
  slots = (0, slot filled) ∷ (1, slot free) ∷ [];
  free_slots = 1 ∷ [];
  slot_in_use_peak = 1;
  generation_mismatch_count = 0;
  overwrite_count = 0;
  overwrite_before_prep_count = 0;
}

manager-IsValid : IsValid manager
manager-IsValid = record { agree = agree; unique = (refl, tt) }
  where
    agree : (i : ℕ) → mem manager.free_slots i ≡ free_at (get manager.slots i)
    agree zero = refl
    agree (suc zero) = refl
    agree (suc (suc i)) = ground arith

slots_example : IsValid (allocate_for_grab manager 7).0
slots_example =
    Step-IsValid manager (allocate_for_grab manager 7).0 (allocated manager 7) manager-IsValid

-- Two filled slots of which the second was captured first, and none free.
abbrev taken : ℕ → ℕ → SlotRecord
taken id capture_index = record (slot filled) {
  current_descriptor =
      some (record { slot_id = some id; generation = some 3; capture_index = capture_index });
  writer_owner = some 7;
  decode_owner = some 2;
}

abbrev full_manager : SlotManager
full_manager = record manager { slots = (0, taken 0 9) ∷ (1, taken 1 4) ∷ []; free_slots = [] }

oldest_example : Overwritten full_manager 9 (overwrite_oldest_filled full_manager 7).1
unfolding is_filled
oldest_example =
    overwrite_oldest_filled-oldest full_manager 7 0 (taken 0 9)
      (record { slot_id = some 0; generation = some 3; capture_index = 9 }) (refl, (refl, tt)) refl
      refl refl refl

reclaim_example : writer_owned (get (reclaim_writer_owner full_manager 7).slots 1) 7 ≡ false
reclaim_example = reclaim_writer_owner-owned full_manager 7 1 (taken 1 4) refl
