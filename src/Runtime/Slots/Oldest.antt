-- ===== src/Runtime/Slots/Oldest.antt =====
-- Which slot is overwritten, when no slot is free.
use screen_airdrop.Prelude.{
  All, ℕ, ◌+◌, ◌≡◌, ◌≤◌, refl, ap, subst, ◌∙◌, true, Option, none, some, List, [], ◌∷◌, arith,
}
use screen_airdrop.Prelude.Dict.{Distinct, get, put, get-put_self}
use screen_airdrop.Runtime.Slots.{
  Descriptor, SlotRecord, SlotManager, is_filled, add_free, cleared, allocate_from,
  allocate_for_grab, force_reclaim,
}
use screen_airdrop.Runtime.Slots.Reclaim.{
  candidates, oldest, counted, overwrite_from, overwrite_oldest_filled,
}
use screen_airdrop.Runtime.Slots.Candidates.{
  FilledAt, oldest-All, least, candidates-FilledAt, candidates_complete,
}

-- With no slot free, the slot taken back is the one that is allocated.
module _ (m : SlotManager) (k : ℕ) (slot : SlotRecord) (none_free : m.free_slots ≡ [])
    (found : get m.slots k ≡ some slot) where
  freed_slots : (force_reclaim m k).slots ≡ put m.slots k (cleared slot (slot.generation + 1))
  unfolding force_reclaim
  freed_slots = rw (found, force_reclaim) refl

  freed_list : (force_reclaim m k).free_slots ≡ k ∷ []
  unfolding force_reclaim add_free
  freed_list = rw (found, force_reclaim, none_free) refl

  freed_slot : get (force_reclaim m k).slots k ≡ some (cleared slot (slot.generation + 1))
  freed_slot =
      ap (λ d. get d k) freed_slots ∙ get-put_self m.slots k (cleared slot (slot.generation + 1))

  taken_slot :
      (owner : ℕ)
      → (allocate_for_grab (force_reclaim m k) owner).1
        ≡ some (k, slot.generation + 2, slot.shm_name)
  unfolding allocate_for_grab allocate_from cleared
  taken_slot owner =
      ap (λ ids. (allocate_from (force_reclaim m k) ids owner).1) freed_list
      ∙ rw (freed_slot, allocate_from) (ap (λ g. some (k, g, slot.shm_name)) (omega arith))

counted_lem : (r : SlotManager × Option (ℕ × ℕ × ℕ)) → (counted r).1 ≡ r.1
unfolding counted
counted_lem (m, none) = refl
counted_lem (m, some taken) = refl

overwrite-taken :
    (m : SlotManager) (owner : ℕ) (x : ℕ × ℕ) (cs : List (ℕ × ℕ))
    → (overwrite_from m (x ∷ cs) owner).1
      ≡ (allocate_for_grab (force_reclaim m (oldest x cs).0) owner).1
unfolding overwrite_from
overwrite-taken m owner x cs =
    counted_lem (allocate_for_grab (force_reclaim m (oldest x cs).0) owner)

-- The slot that was overwritten, and that no filled slot was captured before it.
pub record Overwritten (m : SlotManager) (capture_index : ℕ) (result : Option (ℕ × ℕ × ℕ))
    : Type 0 where
  pub slot_id : ℕ
  pub slot : SlotRecord
  pub descriptor : Descriptor
  pub found : get m.slots slot_id ≡ some slot
  pub state : is_filled slot.state ≡ true
  pub current : slot.current_descriptor ≡ some descriptor
  pub earliest : descriptor.capture_index ≤ capture_index
  pub taken : result ≡ some (slot_id, slot.generation + 2, slot.shm_name)

overwritten :
    (m : SlotManager) (owner n : ℕ) (x : ℕ × ℕ) (cs : List (ℕ × ℕ))
    → m.free_slots ≡ []
    → All (FilledAt m.slots) (x ∷ cs)
    → (oldest x cs).1 ≤ n
    → Overwritten m n (overwrite_from m (x ∷ cs) owner).1
overwritten m owner n x cs none_free (first, others) least_n =
    let f = oldest-All (FilledAt m.slots) x cs first others in
    record {
      slot_id = (oldest x cs).0;
      slot = f.slot;
      descriptor = f.descriptor;
      found = f.found;
      state = f.state;
      current = f.current;
      earliest = omega (arith, f.captured, least_n);
      taken =
          overwrite-taken m owner x cs
          ∙ taken_slot m (oldest x cs).0 f.slot none_free f.found owner;
    }

Overwritten-from :
    (m : SlotManager) (owner n : ℕ) (cs : List (ℕ × ℕ))
    → m.free_slots ≡ []
    → All (FilledAt m.slots) cs
    → ((Q : ℕ × ℕ → Type 0) → All Q cs → (y : ℕ × ℕ) × Q y × (y.1 ≡ n))
    → Overwritten m n (overwrite_from m cs owner).1
Overwritten-from m owner n [] none_free filled_all pick =
    let (y, none_of, at) = pick (λ x. ⊥) tt in absurd none_of
Overwritten-from m owner n (x ∷ cs) none_free filled_all pick =
    let (y, le, at) = pick (λ z. (oldest x cs).1 ≤ z.1) (least x cs) in
    overwritten m owner n x cs none_free filled_all (subst (λ c. (oldest x cs).1 ≤ c) at le)

-- Where no slot is free and each slot has its own id, for any filled slot with a descriptor,
-- overwrite_oldest_filled returns the id of a filled slot whose descriptor has no larger capture
-- index, with its memory and its generation plus 2.
pub overwrite_oldest_filled-oldest :
    (m : SlotManager) (owner k : ℕ) (slot : SlotRecord) (d : Descriptor)
    → Distinct m.slots
    → m.free_slots ≡ []
    → get m.slots k ≡ some slot
    → is_filled slot.state ≡ true
    → slot.current_descriptor ≡ some d
    → Overwritten m d.capture_index (overwrite_oldest_filled m owner).1
unfolding overwrite_oldest_filled
overwrite_oldest_filled-oldest m owner k slot d distinct none_free found is_full current =
    Overwritten-from m owner d.capture_index (candidates m.slots) none_free
      (candidates-FilledAt m.slots distinct)
      (λ Q h. (
        (k, d.capture_index),
        candidates_complete Q m.slots k slot d found is_full current h,
        refl,
      ))
