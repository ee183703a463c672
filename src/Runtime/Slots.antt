-- ===== src/Runtime/Slots.antt =====
-- slot_manager.py: the shared-memory slots and their life. `_slots` and `_slot_index_by_id` are one
-- dictionary from ids to records, in the order of `_slots`. A lock is held during each operation,
-- so operations do not interleave. Owners and memory names are only compared, so they are numbers;
-- the owner `decode:n` is the number n of its worker. An object without an attribute has `none`.
pub mod Reclaim
pub mod Reclaimed
pub mod Candidates
pub mod Oldest
pub mod Agree
pub mod Valid
use screen_airdrop.Prelude.{
  ℕ, ◌+◌, ◌-◌, ◌≡◌, refl, Bool, true, false, ◌&&◌, Option, none, some, List, [], ◌∷◌, ◌++◌, ◌==◌,
  ltb, not, if◌then◌else◌, length, max,
}
use screen_airdrop.Prelude.Dict.{Dict, get, put, mem}

pub data SlotState : Type 0 where
  free filling filled in_decode reclaiming : SlotState

pub record Descriptor : Type 0 where
  pub slot_id : Option ℕ
  pub generation : Option ℕ
  pub capture_index : ℕ

pub record SlotRecord : Type 0 where
  pub shm_name : ℕ
  pub generation : ℕ
  pub state : SlotState
  pub writer_owner : Option ℕ
  pub decode_owner : Option ℕ
  pub dump_reader_ref : ℕ
  pub current_descriptor : Option Descriptor

pub record SlotManager : Type 0 where
  pub slots : Dict SlotRecord
  pub free_slots : List ℕ
  pub slot_in_use_peak : ℕ
  pub generation_mismatch_count : ℕ
  pub overwrite_count : ℕ
  pub overwrite_before_prep_count : ℕ

-- The test `owner == name` on an owner that may be None.
unfoldable pub owned_by : Option ℕ → ℕ → Bool
owned_by none name = false
owned_by (some owner) name = owner == name

unfoldable pub is_filling : SlotState → Bool
is_filling filling = true
is_filling _ = false

unfoldable pub is_filled : SlotState → Bool
is_filled filled = true
is_filled _ = false

unfoldable pub mismatch : SlotManager → SlotManager × Bool
mismatch m = (record m { generation_mismatch_count = m.generation_mismatch_count + 1 }, false)

unfoldable pub put_slot : SlotManager → ℕ → SlotRecord → SlotManager
put_slot m slot_id slot = record m { slots = put m.slots slot_id slot }

-- `if slot_id not in self._free_slots: self._free_slots.append(slot_id)`
unfoldable pub add_free : List ℕ → ℕ → List ℕ
add_free free_slots slot_id =
    if mem free_slots slot_id then free_slots else free_slots ++ slot_id ∷ []

-- A slot that is taken for a grab, and one that is given back.
unfoldable pub start_filling : SlotRecord → ℕ → SlotRecord
start_filling slot writer_owner = record slot {
  generation = slot.generation + 1;
  state = filling;
  writer_owner = some writer_owner;
  decode_owner = none;
  dump_reader_ref = 0;
  current_descriptor = none;
}

unfoldable pub cleared : SlotRecord → ℕ → SlotRecord
cleared slot generation = record slot {
  generation = generation;
  state = free;
  writer_owner = none;
  decode_owner = none;
  dump_reader_ref = 0;
  current_descriptor = none;
}

-- allocate_for_grab, from the test on the list of free slots on.
unfoldable pub allocate_from : SlotManager → List ℕ → ℕ → SlotManager × Option (ℕ × ℕ × ℕ)
unfolding start_filling
allocate_from m [] writer_owner = (m, none)
allocate_from m (slot_id ∷ rest) writer_owner = elim (get m.slots slot_id) [
  | none ↦ (record m { free_slots = rest }, none)
  | some slot ↦ (
    record m {
      slots = put m.slots slot_id (start_filling slot writer_owner);
      free_slots = rest;
      slot_in_use_peak = max m.slot_in_use_peak (length m.slots - length rest);
    },
    some (slot_id, slot.generation + 1, slot.shm_name),
  )
]

unfoldable pub allocate_for_grab : SlotManager → ℕ → SlotManager × Option (ℕ × ℕ × ℕ)
unfolding allocate_from
allocate_for_grab m writer_owner = allocate_from m m.free_slots writer_owner

-- _force_reclaim_locked
unfoldable pub force_reclaim : SlotManager → ℕ → SlotManager
unfolding add_free cleared
force_reclaim m slot_id = elim (get m.slots slot_id) [
  | none ↦ m
  | some slot ↦ record m {
    slots = put m.slots slot_id (cleared slot (slot.generation + 1));
    free_slots = add_free m.free_slots slot_id;
  }
]

-- _release_locked
unfoldable pub release : SlotManager → ℕ → ℕ → SlotManager × Bool
unfolding add_free cleared mismatch
release m slot_id generation = elim (get m.slots slot_id) [
  | none ↦ (m, false)
  | some slot ↦
      if slot.generation == generation
      then (
        record m {
          slots = put m.slots slot_id (cleared slot slot.generation);
          free_slots = add_free m.free_slots slot_id;
        },
        true,
      )
      else mismatch m
]

-- The operations on a descriptor, on its slot's record.
unfoldable pub fill_slot : SlotManager → ℕ → ℕ → Descriptor → ℕ → SlotRecord → SlotManager × Bool
unfolding owned_by is_filling mismatch put_slot
fill_slot m slot_id generation descriptor writer_owner slot =
    if owned_by slot.writer_owner writer_owner && is_filling slot.state
    then if slot.generation == generation
      then (
        put_slot m slot_id (record slot {
          state = filled;
          writer_owner = none;
          current_descriptor = some descriptor;
        }),
        true,
      )
      else mismatch m
    else (m, false)

unfoldable pub assign_slot : SlotManager → ℕ → ℕ → ℕ → SlotRecord → SlotManager × Bool
unfolding is_filled mismatch put_slot
assign_slot m slot_id generation worker_id slot =
    if slot.generation == generation
    then if is_filled slot.state
      then (
        put_slot m slot_id (record slot { state = in_decode; decode_owner = some worker_id }),
        true,
      )
      else (m, false)
    else mismatch m

unfoldable pub complete_slot : SlotManager → ℕ → ℕ → ℕ → SlotRecord → SlotManager × Bool
unfolding owned_by mismatch put_slot release
complete_slot m slot_id generation worker_id slot =
    if slot.generation == generation
    then if owned_by slot.decode_owner worker_id
      then (let done = put_slot m slot_id (record slot { decode_owner = none }) in
          (if slot.dump_reader_ref == 0 then (release done slot_id generation).0 else done, true))
      else (m, false)
    else mismatch m

unfoldable pub set_reader_slot : SlotManager → ℕ → ℕ → SlotRecord → SlotManager × Bool
unfolding mismatch put_slot
set_reader_slot m slot_id generation slot =
    if slot.generation == generation
    then if slot.dump_reader_ref == 0
      then (put_slot m slot_id (record slot { dump_reader_ref = 1 }), true)
      else (m, false)
    else mismatch m

unfoldable pub clear_reader_slot : SlotManager → ℕ → ℕ → SlotRecord → SlotManager × Bool
unfolding mismatch put_slot release
clear_reader_slot m slot_id generation slot =
    if slot.generation == generation
    then (let done = put_slot m slot_id (record slot { dump_reader_ref = 0 }) in
        (
          elim slot.decode_owner [ none ↦ (release done slot_id generation).0 | some owner ↦ done ],
          true,
        ))
    else mismatch m

-- The tests for a descriptor without an id or a generation, and for an unknown id.
unfoldable pub on_slot :
    SlotManager → Descriptor → (ℕ → ℕ → SlotRecord → SlotManager × Bool) → SlotManager × Bool
on_slot m d f = elim d.slot_id [
  | none ↦ (m, false)
  | some slot_id ↦ elim d.generation [
    | none ↦ (m, false)
    | some generation ↦ elim (get m.slots slot_id) [
      | none ↦ (m, false)
      | some slot ↦ f slot_id generation slot
    ]
  ]
]

unfoldable pub mark_filled : SlotManager → Descriptor → ℕ → SlotManager × Bool
unfolding on_slot fill_slot
mark_filled m d writer_owner = on_slot m d (λ i g slot. fill_slot m i g d writer_owner slot)

unfoldable pub assign_decode : SlotManager → Descriptor → ℕ → SlotManager × Bool
unfolding on_slot assign_slot
assign_decode m d worker_id = on_slot m d (λ i g slot. assign_slot m i g worker_id slot)

unfoldable pub complete_decode : SlotManager → Descriptor → ℕ → SlotManager × Bool
unfolding on_slot complete_slot
complete_decode m d worker_id = on_slot m d (λ i g slot. complete_slot m i g worker_id slot)

unfoldable pub set_dump_reader : SlotManager → Descriptor → SlotManager × Bool
unfolding on_slot set_reader_slot
set_dump_reader m d = on_slot m d (λ i g slot. set_reader_slot m i g slot)

unfoldable pub clear_dump_reader : SlotManager → Descriptor → SlotManager × Bool
unfolding on_slot clear_reader_slot
clear_dump_reader m d = on_slot m d (λ i g slot. clear_reader_slot m i g slot)

unfoldable pub mark_duplicate_and_release : SlotManager → Descriptor → SlotManager × Bool
unfolding on_slot release
mark_duplicate_and_release m d = on_slot m d (λ i g slot. release m i g)
