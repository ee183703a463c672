-- ===== src/Runtime/Slots/Valid.antt =====
-- The list of free slots agrees with the states of the slots, through every call.
use screen_airdrop.Prelude.{
  ℕ, refl, Bool, true, false, Option, none, some, List, [], ◌∷◌, ◌==◌, inl, inr, Bool-cases,
  Option-cases,
}
use screen_airdrop.Prelude.Dict.{get, keys}
use screen_airdrop.Runtime.Slots.{
  Descriptor, SlotRecord, SlotManager, put_slot, allocate_from, allocate_for_grab, force_reclaim,
  release, fill_slot, assign_slot, complete_slot, set_reader_slot, clear_reader_slot, mark_filled,
  assign_decode, complete_decode, set_dump_reader, clear_dump_reader, mark_duplicate_and_release,
}
use screen_airdrop.Runtime.Slots.Agree.{
  IsValid, release-IsValid, force_reclaim-IsValid, put_slot-IsValid, mismatch-IsValid,
  fill_slot-IsValid, assign_slot-IsValid, complete_slot-IsValid, set_reader_slot-IsValid,
  clear_reader_slot-IsValid, on_slot-IsValid, allocate-IsValid,
}
use screen_airdrop.Runtime.Slots.Reclaim.{
  candidates, oldest, counted, overwrite_from, overwrite_oldest_filled, match_slot,
  descriptor_matches_current, reclaim_if, writer_owned, decode_owned, reclaim_where,
  reclaim_writer_owner, reclaim_decode_owner, reader_freed, reclaim_reader, reclaim_readers,
  reclaim_dump_reader,
}

counted-IsValid : (r : SlotManager × Option (ℕ × ℕ × ℕ)) → IsValid r.0 → IsValid (counted r).0
unfolding counted
counted-IsValid (m, none) h = h
counted-IsValid (m, some taken) h = record { agree = h.agree; unique = h.unique }

overwrite-IsValid :
    (m : SlotManager) (found : List (ℕ × ℕ)) (owner : ℕ)
    → IsValid m
    → IsValid (overwrite_from m found owner).0
unfolding overwrite_from counted allocate_for_grab
overwrite-IsValid m [] owner h = h
overwrite-IsValid m (c ∷ found) owner h =
    let r = force_reclaim m (oldest c found).0 in
    counted-IsValid (allocate_from r r.free_slots owner)
      (allocate-IsValid r r.free_slots owner (force_reclaim-IsValid m (oldest c found).0 h) refl)

match_slot-IsValid :
    (m : SlotManager) (g : ℕ) (slot : SlotRecord) → IsValid m → IsValid (match_slot m g slot).0
unfolding match_slot
match_slot-IsValid m g slot h = elim (Bool-cases (slot.generation == g)) [
  | inl q ↦ rw q h
  | inr q ↦ rw q (mismatch-IsValid m h)
]

reclaim_if-IsValid :
    (test : Bool) (m : SlotManager) (k : ℕ) → IsValid m → IsValid (reclaim_if test m k)
unfolding reclaim_if
reclaim_if-IsValid true m k h = force_reclaim-IsValid m k h
reclaim_if-IsValid false m k h = h

reclaim_where-IsValid :
    (m : SlotManager) (ids : List ℕ) (owned : Option SlotRecord → Bool)
    → IsValid m
    → IsValid (reclaim_where m ids owned)
unfolding reclaim_where
reclaim_where-IsValid m [] owned h = h
reclaim_where-IsValid m (k ∷ ids) owned h =
    reclaim_where-IsValid (reclaim_if (owned (get m.slots k)) m k) ids owned
      (reclaim_if-IsValid (owned (get m.slots k)) m k h)

reclaim_reader-IsValid : (m : SlotManager) (k : ℕ) → IsValid m → IsValid (reclaim_reader m k)
unfolding reclaim_reader
reclaim_reader-IsValid m k h = elim (Option-cases (get m.slots k)) [
  | inl e ↦ rw (e, reclaim_reader) h
  | inr (slot, e) ↦
      let done = put_slot m k (record slot { dump_reader_ref = 0 }) in
      let good : IsValid done = put_slot-IsValid m k slot _ h e refl in
      elim (Bool-cases (slot.dump_reader_ref == 0)) [
        | inl q ↦ rw (e, q, reclaim_reader) h
        | inr q ↦ elim (Bool-cases (reader_freed slot)) [
          | inl r ↦ rw (e, q, r, reclaim_reader) (release-IsValid done k slot.generation good)
          | inr r ↦ rw (e, q, r, reclaim_reader) good
        ]
      ]
]

reclaim_readers-IsValid :
    (m : SlotManager) (ids : List ℕ) → IsValid m → IsValid (reclaim_readers m ids)
unfolding reclaim_readers
reclaim_readers-IsValid m [] h = h
reclaim_readers-IsValid m (k ∷ ids) h =
    reclaim_readers-IsValid (reclaim_reader m k) ids (reclaim_reader-IsValid m k h)

-- One call of an operation, by any worker and with any descriptor.
pub data Step : SlotManager → SlotManager → Type 0 where
  allocated : (m : SlotManager) (owner : ℕ) → Step m (allocate_for_grab m owner).0
  marked_filled : (m : SlotManager) (d : Descriptor) (owner : ℕ) → Step m (mark_filled m d owner).0
  assigned : (m : SlotManager) (d : Descriptor) (worker : ℕ) → Step m (assign_decode m d worker).0
  completed :
      (m : SlotManager) (d : Descriptor) (worker : ℕ) → Step m (complete_decode m d worker).0
  reader_set : (m : SlotManager) (d : Descriptor) → Step m (set_dump_reader m d).0
  reader_cleared : (m : SlotManager) (d : Descriptor) → Step m (clear_dump_reader m d).0
  released : (m : SlotManager) (d : Descriptor) → Step m (mark_duplicate_and_release m d).0
  overwritten : (m : SlotManager) (owner : ℕ) → Step m (overwrite_oldest_filled m owner).0
  matched : (m : SlotManager) (d : Descriptor) → Step m (descriptor_matches_current m d).0
  writer_reclaimed : (m : SlotManager) (owner : ℕ) → Step m (reclaim_writer_owner m owner)
  decode_reclaimed : (m : SlotManager) (worker : ℕ) → Step m (reclaim_decode_owner m worker)
  reader_reclaimed : (m : SlotManager) → Step m (reclaim_dump_reader m)
  reclaimed : (m : SlotManager) (slot_id : ℕ) → Step m (force_reclaim m slot_id)

-- Where the ids in the list of free slots are those of the slots in the state FREE, each once, the
-- same holds after a call of any operation of SlotManager, by any owner and with any descriptor,
-- whether it succeeds or not.
pub Step-IsValid : (m m' : SlotManager) → Step m m' → IsValid m → IsValid m'
unfolding allocate_for_grab mark_filled assign_decode complete_decode set_dump_reader
    clear_dump_reader mark_duplicate_and_release overwrite_oldest_filled descriptor_matches_current
    reclaim_writer_owner reclaim_decode_owner reclaim_dump_reader
Step-IsValid _ _ (allocated m owner) h = allocate-IsValid m m.free_slots owner h refl
Step-IsValid _ _ (marked_filled m d owner) h =
    on_slot-IsValid m d (λ i g slot. fill_slot m i g d owner slot) h
      (λ k g slot e. fill_slot-IsValid m k g d owner slot h e)
Step-IsValid _ _ (assigned m d worker) h =
    on_slot-IsValid m d (λ i g slot. assign_slot m i g worker slot) h
      (λ k g slot e. assign_slot-IsValid m k g worker slot h e)
Step-IsValid _ _ (completed m d worker) h =
    on_slot-IsValid m d (λ i g slot. complete_slot m i g worker slot) h
      (λ k g slot e. complete_slot-IsValid m k g worker slot h e)
Step-IsValid _ _ (reader_set m d) h =
    on_slot-IsValid m d (λ i g slot. set_reader_slot m i g slot) h
      (λ k g slot e. set_reader_slot-IsValid m k g slot h e)
Step-IsValid _ _ (reader_cleared m d) h =
    on_slot-IsValid m d (λ i g slot. clear_reader_slot m i g slot) h
      (λ k g slot e. clear_reader_slot-IsValid m k g slot h e)
Step-IsValid _ _ (released m d) h =
    on_slot-IsValid m d (λ i g slot. release m i g) h (λ k g slot e. release-IsValid m k g h)
Step-IsValid _ _ (reclaimed m slot_id) h = force_reclaim-IsValid m slot_id h
Step-IsValid _ _ (overwritten m owner) h = overwrite-IsValid m (candidates m.slots) owner h
Step-IsValid _ _ (matched m d) h =
    on_slot-IsValid m d (λ i g slot. match_slot m g slot) h
      (λ k g slot e. match_slot-IsValid m g slot h)
Step-IsValid _ _ (writer_reclaimed m owner) h =
    reclaim_where-IsValid m (keys m.slots) (λ slot. writer_owned slot owner) h
Step-IsValid _ _ (decode_reclaimed m worker) h =
    reclaim_where-IsValid m (keys m.slots) (λ slot. decode_owned slot worker) h
Step-IsValid _ _ (reader_reclaimed m) h = reclaim_readers-IsValid m (keys m.slots) h
