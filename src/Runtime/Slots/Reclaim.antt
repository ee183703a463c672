-- ===== src/Runtime/Slots/Reclaim.antt =====
-- slot_manager.py: the overwriting of the oldest filled slot, the check of a descriptor, and the
-- slots taken back from a worker that stopped.
use screen_airdrop.Prelude.{
  ℕ, ◌+◌, Bool, true, false, ◌&&◌, Option, none, some, List, [], ◌∷◌, ◌==◌, ltb, not, if◌then◌else◌,
}
use screen_airdrop.Prelude.Dict.{Dict, get, keys}
use screen_airdrop.Runtime.Slots.{
  Descriptor, SlotRecord, SlotManager, owned_by, is_filling, is_filled, mismatch, put_slot,
  allocate_for_grab, force_reclaim, release, on_slot,
}

-- The filled slots with a descriptor: their ids and capture indices, in the order of the slots.
unfoldable pub candidates : Dict SlotRecord → List (ℕ × ℕ)
unfolding is_filled
candidates [] = []
candidates ((slot_id, slot) ∷ slots) =
    let rest = candidates slots in
    if is_filled slot.state
    then elim slot.current_descriptor [ none ↦ rest | some d ↦ (slot_id, d.capture_index) ∷ rest ]
    else rest

-- `min(candidates, key=capture_index)`: the first of the smallest
unfoldable pub oldest : ℕ × ℕ → List (ℕ × ℕ) → ℕ × ℕ
oldest best [] = best
oldest (i, c) ((j, k) ∷ rest) = oldest (if ltb k c then (j, k) else (i, c)) rest

-- The counters of overwritten slots, when a slot was taken.
unfoldable pub counted : SlotManager × Option (ℕ × ℕ × ℕ) → SlotManager × Option (ℕ × ℕ × ℕ)
counted (m, none) = (m, none)
counted (m, some taken) = (
  record m {
    overwrite_count = m.overwrite_count + 1;
    overwrite_before_prep_count = m.overwrite_before_prep_count + 1;
  },
  some taken,
)

-- overwrite_oldest_filled, from the test on the candidates on.
unfoldable pub overwrite_from : SlotManager → List (ℕ × ℕ) → ℕ → SlotManager × Option (ℕ × ℕ × ℕ)
unfolding oldest counted force_reclaim allocate_for_grab
overwrite_from m [] writer_owner = (m, none)
overwrite_from m (c ∷ found) writer_owner =
    counted (allocate_for_grab (force_reclaim m (oldest c found).0) writer_owner)

unfoldable pub overwrite_oldest_filled : SlotManager → ℕ → SlotManager × Option (ℕ × ℕ × ℕ)
unfolding candidates overwrite_from
overwrite_oldest_filled m writer_owner = overwrite_from m (candidates m.slots) writer_owner

-- descriptor_matches_current, on its slot's record.
unfoldable pub match_slot : SlotManager → ℕ → SlotRecord → SlotManager × Bool
unfolding owned_by mismatch
match_slot m generation slot =
    if slot.generation == generation
    then (
      m,
      elim slot.current_descriptor [ none ↦ false | some d ↦ owned_by d.generation generation ],
    )
    else mismatch m

unfoldable pub descriptor_matches_current : SlotManager → Descriptor → SlotManager × Bool
unfolding on_slot match_slot
descriptor_matches_current m d = on_slot m d (λ i g slot. match_slot m g slot)

unfoldable pub reclaim_if : Bool → SlotManager → ℕ → SlotManager
unfolding force_reclaim
reclaim_if true m slot_id = force_reclaim m slot_id
reclaim_if false m slot_id = m

unfoldable pub writer_owned : Option SlotRecord → ℕ → Bool
unfolding owned_by
writer_owned none writer_owner = false
writer_owned (some slot) writer_owner = owned_by slot.writer_owner writer_owner

unfoldable pub decode_owned : Option SlotRecord → ℕ → Bool
unfolding owned_by
decode_owned none worker_id = false
decode_owned (some slot) worker_id = owned_by slot.decode_owner worker_id

-- The loop over `_slots` that takes back the slots that pass a test, by the ids that are left.
unfoldable pub reclaim_where : SlotManager → List ℕ → (Option SlotRecord → Bool) → SlotManager
unfolding reclaim_if
reclaim_where m [] owned = m
reclaim_where m (slot_id ∷ ids) owned =
    reclaim_where (reclaim_if (owned (get m.slots slot_id)) m slot_id) ids owned

unfoldable pub reclaim_writer_owner : SlotManager → ℕ → SlotManager
unfolding writer_owned reclaim_where
reclaim_writer_owner m writer_owner =
    reclaim_where m (keys m.slots) (λ slot. writer_owned slot writer_owner)

unfoldable pub reclaim_decode_owner : SlotManager → ℕ → SlotManager
unfolding decode_owned reclaim_where
reclaim_decode_owner m worker_id =
    reclaim_where m (keys m.slots) (λ slot. decode_owned slot worker_id)

-- `slot.decode_owner is None and slot.state != SlotState.FILLING`
unfoldable pub reader_freed : SlotRecord → Bool
unfolding is_filling
reader_freed slot =
    elim slot.decode_owner [ none ↦ true | some owner ↦ false ] && not (is_filling slot.state)

-- The body of the loop of reclaim_dump_reader.
unfoldable pub reclaim_reader : SlotManager → ℕ → SlotManager
unfolding reader_freed put_slot release
reclaim_reader m slot_id = elim (get m.slots slot_id) [
  | none ↦ m
  | some slot ↦
      if slot.dump_reader_ref == 0
      then m
      else (let done = put_slot m slot_id (record slot { dump_reader_ref = 0 }) in
          if reader_freed slot then (release done slot_id slot.generation).0 else done)
]

unfoldable pub reclaim_readers : SlotManager → List ℕ → SlotManager
unfolding reclaim_reader
reclaim_readers m [] = m
reclaim_readers m (slot_id ∷ ids) = reclaim_readers (reclaim_reader m slot_id) ids

unfoldable pub reclaim_dump_reader : SlotManager → SlotManager
unfolding reclaim_readers
reclaim_dump_reader m = reclaim_readers m (keys m.slots)
