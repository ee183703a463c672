-- ===== src/Runtime/Slots/Agree.antt =====
-- The list of free slots agrees with the states of the slots, through each operation.
use screen_airdrop.Prelude.{
  ℕ, ◌+◌, ◌≡◌, refl, sym, subst, ap, ◌∙◌, Bool, true, false, ◌&&◌, Option, none, some, List, [],
  ◌∷◌, ◌==◌, if◌then◌else◌, arith, inl, inr, Bool-cases, Option-cases,
}
use screen_airdrop.Prelude.Dict.{get, put, mem, get-put}
use screen_airdrop.Coding.Equation.{Unique}
use screen_airdrop.Coding.Equation.Selection.{mem-append, append-Unique}
use screen_airdrop.Runtime.Slots.{
  SlotState, free, filling, filled, in_decode, reclaiming, Descriptor, SlotRecord, SlotManager,
  owned_by, is_filling, is_filled, mismatch, put_slot, add_free, start_filling, cleared,
  allocate_from, force_reclaim, release, fill_slot, assign_slot, complete_slot, set_reader_slot,
  clear_reader_slot, on_slot,
}

abbrev pub free_state : SlotState → Bool
free_state free = true
free_state _ = false

abbrev pub free_at : Option SlotRecord → Bool
free_at none = false
free_at (some slot) = free_state slot.state

-- The ids in the list of free slots are those of the slots in the state FREE, each once.
pub record IsValid (m : SlotManager) : Type 0 where
  pub agree : (i : ℕ) → mem m.free_slots i ≡ free_at (get m.slots i)
  pub unique : Unique m.free_slots

same_id : (k i : ℕ) → (k == i) ≡ true → k ≡ i
same_id k i h = ground arith

pub put_slot-IsValid :
    (m : SlotManager) (k : ℕ) (old slot : SlotRecord)
    → IsValid m
    → get m.slots k ≡ some old
    → free_state slot.state ≡ free_state old.state
    → IsValid (put_slot m k slot)
unfolding put_slot
put_slot-IsValid m k old slot h e s = record {
  agree = λ i. elim (Bool-cases (k == i)) [
    | inl same ↦
        let at : k ≡ i = same_id k i same in
        rw (get-put m.slots k i slot, same)
          (ap (mem m.free_slots) (sym at) ∙ h.agree k ∙ ap free_at e ∙ sym s)
    | inr other ↦ rw (get-put m.slots k i slot, other) (h.agree i)
  ];
  unique = h.unique;
}

add_free-Unique : (xs : List ℕ) (k : ℕ) → Unique xs → Unique (add_free xs k)
unfolding add_free
add_free-Unique xs k u = elim (Bool-cases (mem xs k)) [
  | inl e ↦ rw e u
  | inr e ↦ rw e (append-Unique xs k u e)
]

mem-add_free : (xs : List ℕ) (k i : ℕ) → mem (add_free xs k) i ≡ (if k == i then true else mem xs i)
unfolding add_free
mem-add_free xs k i = ground (arith, mem-append i xs k)

cleared-IsValid :
    (m : SlotManager) (k g : ℕ) (slot : SlotRecord)
    → IsValid m
    → IsValid
        (record m { slots = put m.slots k (cleared slot g); free_slots = add_free m.free_slots k })
unfolding cleared
cleared-IsValid m k g slot h = record {
  agree = λ i. elim (Bool-cases (k == i)) [
    | inl same ↦ rw (mem-add_free m.free_slots k i, get-put m.slots k i (cleared slot g), same) refl
    | inr other ↦
        rw (mem-add_free m.free_slots k i, get-put m.slots k i (cleared slot g), other) (h.agree i)
  ];
  unique = add_free-Unique m.free_slots k h.unique;
}

pub release-IsValid : (m : SlotManager) (k g : ℕ) → IsValid m → IsValid (release m k g).0
unfolding release mismatch
release-IsValid m k g h = elim (Option-cases (get m.slots k)) [
  | inl e ↦ rw (e, release) h
  | inr (slot, e) ↦ elim (Bool-cases (slot.generation == g)) [
    | inl f ↦ rw (e, f, release) (cleared-IsValid m k slot.generation slot h)
    | inr f ↦ rw (e, f, release) (record { agree = h.agree; unique = h.unique })
  ]
]

pub force_reclaim-IsValid : (m : SlotManager) (k : ℕ) → IsValid m → IsValid (force_reclaim m k)
unfolding force_reclaim
force_reclaim-IsValid m k h = elim (Option-cases (get m.slots k)) [
  | inl e ↦ rw (e, force_reclaim) h
  | inr (slot, e) ↦ rw (e, force_reclaim) (cleared-IsValid m k (slot.generation + 1) slot h)
]

pub mismatch-IsValid : (m : SlotManager) → IsValid m → IsValid (mismatch m).0
unfolding mismatch
mismatch-IsValid m h = record { agree = h.agree; unique = h.unique }

filling_not_free : (b : Bool) (s : SlotState) → (b && is_filling s) ≡ true → false ≡ free_state s
unfolding is_filling
filling_not_free b free f = ground arith
filling_not_free b filling f = refl
filling_not_free b filled f = refl
filling_not_free b in_decode f = refl
filling_not_free b reclaiming f = refl

pub fill_slot-IsValid :
    (m : SlotManager) (k g : ℕ) (d : Descriptor) (owner : ℕ) (slot : SlotRecord)
    → IsValid m
    → get m.slots k ≡ some slot
    → IsValid (fill_slot m k g d owner slot).0
unfolding fill_slot
fill_slot-IsValid m k g d owner slot h e =
    elim (Bool-cases (owned_by slot.writer_owner owner && is_filling slot.state)) [
      | inl f ↦ elim (Bool-cases (slot.generation == g)) [
        | inl q ↦
            rw (f, q)
              (put_slot-IsValid m k slot _ h e
                (filling_not_free (owned_by slot.writer_owner owner) slot.state f))
        | inr q ↦ rw (f, q) (mismatch-IsValid m h)
      ]
      | inr f ↦ rw f h
    ]

filled_not_free : (s : SlotState) → is_filled s ≡ true → false ≡ free_state s
unfolding is_filled
filled_not_free free f = cc
filled_not_free filling f = refl
filled_not_free filled f = refl
filled_not_free in_decode f = refl
filled_not_free reclaiming f = refl

pub assign_slot-IsValid :
    (m : SlotManager) (k g worker : ℕ) (slot : SlotRecord)
    → IsValid m
    → get m.slots k ≡ some slot
    → IsValid (assign_slot m k g worker slot).0
unfolding assign_slot
assign_slot-IsValid m k g worker slot h e = elim (Bool-cases (slot.generation == g)) [
  | inl q ↦ elim (Bool-cases (is_filled slot.state)) [
    | inl f ↦ rw (f, q) (put_slot-IsValid m k slot _ h e (filled_not_free slot.state f))
    | inr f ↦ rw (f, q) h
  ]
  | inr q ↦ rw q (mismatch-IsValid m h)
]

pub complete_slot-IsValid :
    (m : SlotManager) (k g worker : ℕ) (slot : SlotRecord)
    → IsValid m
    → get m.slots k ≡ some slot
    → IsValid (complete_slot m k g worker slot).0
unfolding complete_slot
complete_slot-IsValid m k g worker slot h e =
    let done = put_slot m k (record slot { decode_owner = none }) in
    let good : IsValid done = put_slot-IsValid m k slot _ h e refl in
    elim (Bool-cases (slot.generation == g)) [
      | inl q ↦ elim (Bool-cases (owned_by slot.decode_owner worker)) [
        | inl f ↦ elim (Bool-cases (slot.dump_reader_ref == 0)) [
          | inl r ↦ rw (q, f, r) (release-IsValid done k g good)
          | inr r ↦ rw (q, f, r) good
        ]
        | inr f ↦ rw (q, f) h
      ]
      | inr q ↦ rw q (mismatch-IsValid m h)
    ]

pub set_reader_slot-IsValid :
    (m : SlotManager) (k g : ℕ) (slot : SlotRecord)
    → IsValid m
    → get m.slots k ≡ some slot
    → IsValid (set_reader_slot m k g slot).0
unfolding set_reader_slot
set_reader_slot-IsValid m k g slot h e = elim (Bool-cases (slot.generation == g)) [
  | inl q ↦ elim (Bool-cases (slot.dump_reader_ref == 0)) [
    | inl f ↦ rw (q, f) (put_slot-IsValid m k slot _ h e refl)
    | inr f ↦ rw (q, f) h
  ]
  | inr q ↦ rw q (mismatch-IsValid m h)
]

pub clear_reader_slot-IsValid :
    (m : SlotManager) (k g : ℕ) (slot : SlotRecord)
    → IsValid m
    → get m.slots k ≡ some slot
    → IsValid (clear_reader_slot m k g slot).0
unfolding clear_reader_slot
clear_reader_slot-IsValid m k g slot h e =
    let done = put_slot m k (record slot { dump_reader_ref = 0 }) in
    let good : IsValid done = put_slot-IsValid m k slot _ h e refl in
    elim (Bool-cases (slot.generation == g)) [
      | inl q ↦ elim (Option-cases slot.decode_owner) [
        | inl f ↦ rw (q, f) (release-IsValid done k g good)
        | inr (owner, f) ↦ rw (q, f) good
      ]
      | inr q ↦ rw q (mismatch-IsValid m h)
    ]

pub on_slot-IsValid :
    (m : SlotManager) (d : Descriptor) (f : ℕ → ℕ → SlotRecord → SlotManager × Bool)
    → IsValid m
    → ((k g : ℕ) (slot : SlotRecord) → get m.slots k ≡ some slot → IsValid (f k g slot).0)
    → IsValid (on_slot m d f).0
unfolding on_slot
on_slot-IsValid m d f h step = elim (Option-cases d.slot_id) [
  | inl e ↦ rw (e, on_slot) h
  | inr (k, e) ↦ elim (Option-cases d.generation) [
    | inl q ↦ rw (e, q, on_slot) h
    | inr (g, q) ↦ elim (Option-cases (get m.slots k)) [
      | inl r ↦ rw (e, q, r, on_slot) h
      | inr (slot, r) ↦ rw (e, q, r, on_slot) (step k g slot r)
    ]
  ]
]

skip : (xs : List ℕ) (j i : ℕ) → (j == i) ≡ false → mem xs i ≡ mem (j ∷ xs) i
skip xs j i other = rw other refl

pub allocate-IsValid :
    (m : SlotManager) (free_slots : List ℕ) (owner : ℕ)
    → IsValid m
    → m.free_slots ≡ free_slots
    → IsValid (allocate_from m free_slots owner).0
unfolding allocate_from start_filling
allocate-IsValid m [] owner h e = h
allocate-IsValid m (k ∷ rest) owner h e =
    let u : Unique (k ∷ rest) = subst Unique e h.unique in
    let at_k : true ≡ free_at (get m.slots k) =
      ground arith ∙ ap (λ xs. mem xs k) (sym e) ∙ h.agree k in
    elim (Option-cases (get m.slots k)) [
      | inl q ↦ absurd (cc (at_k, q))
      | inr (slot, q) ↦
          rw (q, allocate_from)
            (record {
              agree = λ i. elim (Bool-cases (k == i)) [
                | inl same ↦
                    let at : k ≡ i = same_id k i same in
                    rw (get-put m.slots k i (start_filling slot owner), same)
                      (ap (mem rest) (sym at) ∙ u.0)
                | inr other ↦
                    rw (get-put m.slots k i (start_filling slot owner), other)
                      (skip rest k i other ∙ ap (λ xs. mem xs i) (sym e) ∙ h.agree i)
              ];
              unique = u.1;
            })
    ]
