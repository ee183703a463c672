-- ===== src/Sender/Schedule/Order.antt =====
-- Which unit is sent when.
use screen_airdrop.Prelude.{
  ℕ, zero, suc, ◌+◌, ◌*◌, ◌<◌, ◌≡◌, refl, sym, ap, ap₂, ◌∙◌, none, some, List, [], ◌∷◌, ◌++◌, max,
  length, length-append, get_elem?, arith, map, Option,
}
use screen_airdrop.Prelude.Slices.{concat}
use screen_airdrop.Units.{TransmissionUnit}
use screen_airdrop.Sender.Schedule.{
  ScheduledUnit, GenerationUnitCandidate, SchedulerContext, realizations, schedule_each, flattened,
  chosen_units, schedule_units, schedule_generation_units,
}

-- The realization `r` of a unit.
abbrev pub realization : TransmissionUnit → ℕ → ℕ → ℕ → ScheduledUnit
realization unit epoch count r = record {
  unit = unit;
  transport_epoch_id = epoch;
  realization_index = r;
  realization_count = count;
}

length-realizations :
    (unit : TransmissionUnit) (epoch count index left : ℕ)
    → length (realizations unit epoch count index left) ≡ left
unfolding realizations
length-realizations unit epoch count index zero = refl
length-realizations unit epoch count index (suc left) =
    ap suc (length-realizations unit epoch count (index + 1) left)

realization_at :
    (unit : TransmissionUnit) (epoch count index left r : ℕ)
    → r < left
    → get_elem? (realizations unit epoch count index left) r
      ≡ some (realization unit epoch count (index + r))
unfolding realizations
realization_at unit epoch count index zero r h = absurd (omega (arith, h))
realization_at unit epoch count index (suc left) zero h =
    ap (λ k. some (realization unit epoch count k)) (omega arith)
realization_at unit epoch count index (suc left) (suc r) h =
    realization_at unit epoch count (index + 1) left r (omega (arith, h))
    ∙ ap (λ k. some (realization unit epoch count k)) (omega arith)

next : (n i : ℕ) → suc n + i ≡ suc (n + i)
next n i = omega arith

suc_times : (n c : ℕ) → suc n * c ≡ c + n * c
suc_times n c = grind arith

get-skip :
    {A : Type 0} (xs ys : List A) (i : ℕ) → get_elem? (xs ++ ys) (length xs + i) ≡ get_elem? ys i
get-skip [] ys i = ap (get_elem? ys) (omega arith)
get-skip (x ∷ xs) ys i = ap (get_elem? (x ∷ (xs ++ ys))) (next (length xs) i) ∙ get-skip xs ys i

get-first :
    {A : Type 0} (xs ys : List A) (i : ℕ) → i < length xs → get_elem? (xs ++ ys) i ≡ get_elem? xs i
get-first [] ys i h = absurd (omega (arith, h))
get-first (x ∷ xs) ys zero h = refl
get-first (x ∷ xs) ys (suc i) h = get-first xs ys i (omega (arith, h))

found_first :
    {A : Type 0} (xs ys : List A) (i : ℕ) (x : A)
    → get_elem? xs i ≡ some x
    → get_elem? (xs ++ ys) i ≡ some x
found_first [] ys i x e = absurd (cc e)
found_first (y ∷ xs) ys zero x e = e
found_first (y ∷ xs) ys (suc i) x e = found_first xs ys i x e

length-schedule_each :
    (units : List TransmissionUnit) (epoch count : ℕ)
    → length (schedule_each units epoch count) ≡ length units * count
unfolding schedule_each
length-schedule_each [] epoch count = omega arith
length-schedule_each (unit ∷ units) epoch count =
    length-append (realizations unit epoch count 0 count) (schedule_each units epoch count)
    ∙ omega (
      arith,
      length-realizations unit epoch count 0 count,
      length-schedule_each units epoch count,
      suc_times (length units) count,
    )

scheduled_at :
    (units : List TransmissionUnit) (epoch count i r : ℕ) (unit : TransmissionUnit)
    → get_elem? units i ≡ some unit
    → r < count
    → get_elem? (schedule_each units epoch count) (i * count + r)
      ≡ some (realization unit epoch count r)
unfolding schedule_each
scheduled_at [] epoch count i r unit e h = absurd (cc e)
scheduled_at (u ∷ units) epoch count zero r unit e h =
    let here : unit ≡ u = cc e in
    let n = length-realizations u epoch count 0 count in
    ap (get_elem? (realizations u epoch count 0 count ++ schedule_each units epoch count))
      (omega arith)
    ∙ get-first (realizations u epoch count 0 count) (schedule_each units epoch count) r
        (omega (arith, h, n))
    ∙ realization_at u epoch count 0 count r h
    ∙ ap₂ (λ w k. some (realization w epoch count k)) (sym here) (omega arith)
scheduled_at (u ∷ units) epoch count (suc i) r unit e h =
    let n = length-realizations u epoch count 0 count in
    ap (get_elem? (realizations u epoch count 0 count ++ schedule_each units epoch count))
      (omega (arith, n, suc_times i count))
    ∙ get-skip (realizations u epoch count 0 count) (schedule_each units epoch count)
        (i * count + r)
    ∙ scheduled_at units epoch count i r unit e h

-- The units to send: those of the candidates, one candidate after the other, where there are
-- candidates.
abbrev pub sent : List TransmissionUnit → List GenerationUnitCandidate → List TransmissionUnit
sent units [] = units
sent units (candidate ∷ candidates) =
    concat (map (λ (c : GenerationUnitCandidate). c.units) (candidate ∷ candidates))

-- A context's epoch and count go before those of the call.
abbrev pub sent_epoch : ℕ → Option SchedulerContext → ℕ
sent_epoch epoch none = epoch
sent_epoch epoch (some context) = context.transport_epoch_id

abbrev pub sent_count : ℕ → Option SchedulerContext → ℕ
sent_count count none = max 1 count
sent_count count (some context) = max 1 context.realization_count

flattened_lem :
    (candidates : List GenerationUnitCandidate)
    → flattened candidates ≡ concat (map (λ (c : GenerationUnitCandidate). c.units) candidates)
unfolding flattened
flattened_lem [] = refl
flattened_lem (candidate ∷ candidates) =
    ap (λ units. candidate.units ++ units) (flattened_lem candidates)

chosen_units_lem :
    (units : List TransmissionUnit) (candidates : List GenerationUnitCandidate)
    → chosen_units units candidates ≡ sent units candidates
unfolding chosen_units
chosen_units_lem units [] = refl
chosen_units_lem units (candidate ∷ candidates) = flattened_lem (candidate ∷ candidates)

schedule_units-each :
    (units : List TransmissionUnit) (epoch count : ℕ) (candidates : List GenerationUnitCandidate)
    (context : Option SchedulerContext)
    → schedule_units units epoch count candidates context
      ≡ schedule_each (sent units candidates) (sent_epoch epoch context) (sent_count count context)
unfolding schedule_units
schedule_units-each units epoch count candidates none =
    ap (λ us. schedule_each us epoch (max 1 count)) (chosen_units_lem units candidates)
schedule_units-each units epoch count candidates (some context) =
    ap (λ us. schedule_each us context.transport_epoch_id (max 1 context.realization_count))
      (chosen_units_lem units candidates)

-- schedule_units sends the units of the call or, where there are candidates, the units of the
-- candidates, one candidate after the other, each of them count times in a row. The epoch and the
-- count are the context's where there is one, and otherwise those of the call, and a count of 0 is
-- taken for 1. The realization r of the unit of index i is at i times the count plus r, with its
-- index, the count and the epoch, and the schedule has no other entries.
pub schedule_units-order :
    (units : List TransmissionUnit) (epoch count i r : ℕ) (unit : TransmissionUnit)
    (candidates : List GenerationUnitCandidate) (context : Option SchedulerContext)
    → get_elem? (sent units candidates) i ≡ some unit
    → r < sent_count count context
    → (get_elem?
          (schedule_units units epoch count candidates context)
          (i * sent_count count context + r)
        ≡ some (realization unit (sent_epoch epoch context) (sent_count count context) r))
      × (length (schedule_units units epoch count candidates context)
          ≡ length (sent units candidates) * sent_count count context)
schedule_units-order units epoch count i r unit candidates context e h =
    rw (schedule_units-each units epoch count candidates context) (
      scheduled_at (sent units candidates) (sent_epoch epoch context) (sent_count count context) i r
          unit e h,
      length-schedule_each (sent units candidates) (sent_epoch epoch context)
          (sent_count count context),
    )

-- schedule_generation_units schedules every realization of the systematic units, in order, before
-- those of the coded units, in order.
pub schedule_generation_units-order :
    (systematic_units coded_units : List TransmissionUnit) (epoch count i j r : ℕ)
    (s c : TransmissionUnit)
    → get_elem? systematic_units i ≡ some s
    → get_elem? coded_units j ≡ some c
    → r < max 1 count
    → (get_elem?
          (schedule_generation_units systematic_units coded_units epoch count)
          (i * max 1 count + r)
        ≡ some (realization s epoch (max 1 count) r))
      × (get_elem?
            (schedule_generation_units systematic_units coded_units epoch count)
            ((length systematic_units + j) * max 1 count + r)
          ≡ some (realization c epoch (max 1 count) r))
unfolding schedule_generation_units schedule_units chosen_units
schedule_generation_units-order systematic_units coded_units epoch count i j r s c e q h = (
  scheduled_at (systematic_units ++ coded_units) epoch (max 1 count) i r s
      (found_first systematic_units coded_units i s e) h,
  scheduled_at (systematic_units ++ coded_units) epoch (max 1 count) (length systematic_units + j) r
      c (get-skip systematic_units coded_units j ∙ q) h,
)
