-- ===== src/Sender/Builder/Plans.antt =====
-- The sender cuts the chunks into generations without losing or changing any.
use screen_airdrop.Prelude.{
  ℕ, zero, suc, ◌+◌, ◌≤◌, ◌<◌, ◌≡◌, refl, true, List, [], ◌∷◌, ◌==◌, length, take, drop, min, max,
  arith, length-take, length-drop,
}
use screen_airdrop.Prelude.Result.{ok}
use screen_airdrop.Coding.Payload.{Payload}
use screen_airdrop.Units.{SystematicUnit, make_systematic_unit}
use screen_airdrop.Sender.Builder.{
  GenerationPlan, build_units_from, build_systematic_units, build_plans_from,
  build_systematic_generation_plans,
}

-- The units `us` carry `chunks` under the indices from `start` on.
abbrev pub Carries : ℕ → List Payload → List SystematicUnit → Type 0
Carries start [] [] = Unit
Carries start [] (u ∷ us) = ⊥
Carries start (c ∷ cs) [] = ⊥
Carries start (c ∷ cs) (u ∷ us) =
    (u.source_index ≡ start) × (u.payload ≡ c) × Carries (start + 1) cs us

pub build_units-Carries :
    (session_id generation_id generation_size start : ℕ) (chunks : List Payload)
    → (us : List SystematicUnit) × (build_units_from session_id generation_id generation_size start
          chunks
        ≡ ok us)
      × Carries start chunks us
unfolding build_units_from make_systematic_unit
build_units-Carries s g n start [] = ([], refl, tt)
build_units-Carries s g n start (c ∷ cs) =
    let (us, e, h) = build_units-Carries s g n (start + 1) cs in
    let same : (length c == length c) ≡ true = ground arith in
    let u : SystematicUnit = record {
      session_id = s;
      generation_id = g;
      generation_size = n;
      payload_size = length c;
      payload = c;
      source_index = start;
    } in
    (u ∷ us, rw (same, e) refl, (refl, refl, h))

-- The plans are numbered from `id` on, begin at the offset `start`, carry the chunks in order
-- and are full but for the last.
abbrev pub IsPlan : ℕ → ℕ → ℕ → List Payload → List GenerationPlan → Type 0
IsPlan window id start chunks [] = chunks ≡ []
IsPlan window id start chunks (p ∷ ps) =
    (p.generation_id ≡ id)
    × (p.source_index_base ≡ start + 1)
    × (p.generation_size ≡ min window (length chunks))
    × (0 < p.generation_size)
    × Carries 1 (take window chunks) p.source_units
    × IsPlan window (id + 1) (start + window) (drop window chunks) ps

plans_step :
    (fuel s window id start : ℕ) (c : Payload) (cs : List Payload) (us : List SystematicUnit)
    (ps : List GenerationPlan)
    → build_systematic_units s id (length (take window (c ∷ cs))) (take window (c ∷ cs)) ≡ ok us
    → build_plans_from fuel s window (id + 1) (start + window) (drop window (c ∷ cs)) ≡ ok ps
    → build_plans_from (suc fuel) s window id start (c ∷ cs)
      ≡ ok (
          record {
            generation_id = id;
            generation_size = length (take window (c ∷ cs));
            source_index_base = start + 1;
            source_units = us;
          }
          ∷ ps)
unfolding build_plans_from
plans_step fuel s window id start c cs us ps e f = rw (e, f) refl

plans-IsPlan :
    (fuel session_id window id start : ℕ) (chunks : List Payload)
    → length chunks ≤ fuel
    → 0 < window
    → (ps : List GenerationPlan) × (build_plans_from fuel session_id window id start chunks ≡ ok ps)
      × IsPlan window id start chunks ps
unfolding build_systematic_units
plans-IsPlan fuel s window id start [] h w = ([], unfold build_plans_from in refl, refl)
plans-IsPlan zero s window id start (c ∷ cs) h w = absurd (omega arith)
plans-IsPlan (suc fuel) s window id start (c ∷ cs) h w =
    let here = take window (c ∷ cs) in
    let (us, e, carries) = build_units-Carries s id (length here) 1 here in
    let (ps, f, rest) =
      plans-IsPlan fuel s window (id + 1) (start + window) (drop window (c ∷ cs))
        (omega (arith, length-drop window (c ∷ cs))) w in
    let n = length-take window (c ∷ cs) in
    (
      _,
      plans_step fuel s window id start c cs us ps e f,
      (refl, refl, n, omega (arith, n), carries, rest),
    )

-- build_systematic_generation_plans returns plans numbered from 0 on that hold all the chunks in
-- order: each takes the next chunks, as many as the requested size, at least 1, or as are left,
-- records their number and the index of the first, and carries them in systematic units with the
-- indices from 1 on.
pub generation_plans-IsPlan :
    (session_id : ℕ) (chunks : List Payload) (size : ℕ)
    → (ps : List GenerationPlan) × (build_systematic_generation_plans session_id chunks size
        ≡ ok ps)
      × IsPlan (max 1 size) 0 0 chunks ps
unfolding build_systematic_generation_plans
generation_plans-IsPlan session_id chunks size =
    plans-IsPlan (length chunks) session_id (max 1 size) 0 0 chunks (omega arith) (omega arith)
