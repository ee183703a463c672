-- ===== src/Runtime/Slots/Reclaimed.antt =====
-- What a worker's slots are after they are taken back.
use screen_airdrop.Prelude.{
  ℕ, ◌+◌, ◌≡◌, refl, sym, ap, ◌∙◌, Bool, true, false, Option, none, some, List, [], ◌∷◌, ◌==◌,
  if◌then◌else◌, arith, inl, inr, Bool-cases, Option-cases,
}
use screen_airdrop.Prelude.Dict.{Dict, get, keys, mem, get-put}
use screen_airdrop.Runtime.Slots.{SlotRecord, SlotManager, owned_by, cleared, force_reclaim}
use screen_airdrop.Runtime.Slots.Reclaim.{
  reclaim_if, writer_owned, decode_owned, reclaim_where, reclaim_writer_owner, reclaim_decode_owner,
}

mem-keys :
    (d : Dict SlotRecord) (i : ℕ) (slot : SlotRecord) → get d i ≡ some slot → mem (keys d) i ≡ true
mem-keys [] i slot e = cc
mem-keys ((j, s) ∷ d) i slot e = ground (arith, mem-keys d i slot)

if_false : (b : Bool) → (if b then false else false) ≡ false
if_false true = refl
if_false false = refl

-- A test of a slot's record that a cleared record does not pass, nor a missing one.
module _ (owned : Option SlotRecord → Bool)
    (cleared_lem : (slot : SlotRecord) (g : ℕ) → owned (some (cleared slot g)) ≡ false)
    (none_lem : owned none ≡ false) where
  reclaimed_one :
      (m : SlotManager) (k i : ℕ)
      → owned (get (force_reclaim m k).slots i) ≡ (if k == i then false else owned (get m.slots i))
  unfolding force_reclaim
  reclaimed_one m k i = elim (Option-cases (get m.slots k)) [
    | inl e ↦ elim (Bool-cases (k == i)) [
      | inl same ↦
          let at : k ≡ i = ground arith in
          rw (e, same, force_reclaim)
            (ap (λ x. owned (get m.slots x)) (sym at) ∙ ap owned e ∙ none_lem)
      | inr other ↦ rw (e, other, force_reclaim) refl
    ]
    | inr (slot, e) ↦ elim (Bool-cases (k == i)) [
      | inl same ↦
          rw (e, force_reclaim, get-put m.slots k i (cleared slot (slot.generation + 1)), same)
            (cleared_lem slot (slot.generation + 1))
      | inr other ↦
          rw (e, force_reclaim, get-put m.slots k i (cleared slot (slot.generation + 1)), other)
            refl
    ]
  ]

  after_one :
      (m : SlotManager) (k i : ℕ)
      → owned (get (reclaim_if (owned (get m.slots k)) m k).slots i)
        ≡ (if k == i then false else owned (get m.slots i))
  unfolding reclaim_if
  after_one m k i = elim (Bool-cases (owned (get m.slots k))) [
    | inl e ↦ rw (e, reclaim_if) (reclaimed_one m k i)
    | inr e ↦ elim (Bool-cases (k == i)) [
      | inl same ↦
          let at : k ≡ i = ground arith in
          rw (e, reclaim_if, same) (ap (λ x. owned (get m.slots x)) (sym at) ∙ e)
      | inr other ↦ rw (e, reclaim_if, other) refl
    ]
  ]

  after_all :
      (m : SlotManager) (ids : List ℕ) (i : ℕ)
      → owned (get (reclaim_where m ids owned).slots i)
        ≡ (if mem ids i then false else owned (get m.slots i))
  unfolding reclaim_where
  after_all m [] i = refl
  after_all m (k ∷ ids) i =
      let one = after_one m k i in
      let rest = after_all (reclaim_if (owned (get m.slots k)) m k) ids i in
      elim (Bool-cases (k == i)) [
        | inl same ↦ rw (rest, one, same) (if_false (mem ids i))
        | inr other ↦ rw (rest, one, other) refl
      ]

  none_left :
      (m : SlotManager) (i : ℕ) (slot : SlotRecord)
      → get m.slots i ≡ some slot
      → owned (get (reclaim_where m (keys m.slots) owned).slots i) ≡ false
  none_left m i slot e = rw (after_all m (keys m.slots) i, mem-keys m.slots i slot e) refl

-- After reclaim_writer_owner no slot that was there is owned by the writer.
pub reclaim_writer_owner-owned :
    (m : SlotManager) (owner i : ℕ) (slot : SlotRecord)
    → get m.slots i ≡ some slot
    → writer_owned (get (reclaim_writer_owner m owner).slots i) owner ≡ false
unfolding reclaim_writer_owner writer_owned cleared owned_by
reclaim_writer_owner-owned m owner i slot e =
    none_left (λ s. writer_owned s owner) (λ s g. refl) refl m i slot e

-- After reclaim_decode_owner no slot that was there is owned by the worker.
pub reclaim_decode_owner-owned :
    (m : SlotManager) (worker i : ℕ) (slot : SlotRecord)
    → get m.slots i ≡ some slot
    → decode_owned (get (reclaim_decode_owner m worker).slots i) worker ≡ false
unfolding reclaim_decode_owner decode_owned cleared owned_by
reclaim_decode_owner-owned m worker i slot e =
    none_left (λ s. decode_owned s worker) (λ s g. refl) refl m i slot e
