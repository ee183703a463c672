-- ===== src/Sender/Builder.antt =====
-- unit_builder.py, generation_builder.py and coded_builder.py: systematic units from payload
-- chunks, chunks cut into generations, and coded units from a generation's systematic ones.
pub mod Truthful
pub mod Plans
use screen_airdrop.Prelude.{
  ℕ, zero, suc, ◌+◌, ◌*◌, ◌≡◌, refl, Bool, true, false, not, Option, none, some, List, [], ◌∷◌,
  ◌==◌, ltb, if◌then◌else◌, length, take, drop, max,
}
use screen_airdrop.Prelude.Dict.{Dict, get, put, mem}
use screen_airdrop.Prelude.Result.{Result, ok, err, value_error, stuck, require, ◌>>=◌, ◌>>◌}
use screen_airdrop.Coding.Payload.{Payload, gf256_linear_combine}
use screen_airdrop.Coding.Equation.{CodingScheme, Random, expand_equation_terms}
use screen_airdrop.Units.{SystematicUnit, CodedUnit, make_systematic_unit, make_coded_unit}

-- The loop of build_systematic_units from the chunk numbered `source_index` on.
unfoldable pub build_units_from : ℕ → ℕ → ℕ → ℕ → List Payload → Result (List SystematicUnit)
build_units_from session_id generation_id generation_size source_index [] = ok []
build_units_from session_id generation_id generation_size source_index (payload ∷ chunks) =
    let rest =
      build_units_from session_id generation_id generation_size (source_index + 1) chunks in
    do
      u ← make_systematic_unit (record {
        session_id = session_id;
        generation_id = generation_id;
        generation_size = generation_size;
        payload_size = length payload;
        payload = payload;
        source_index = source_index;
      })
      units ← rest
      ok (u ∷ units)

unfoldable pub build_systematic_units : ℕ → ℕ → ℕ → List Payload → Result (List SystematicUnit)
unfolding build_units_from
build_systematic_units session_id generation_id generation_size payload_chunks =
    build_units_from session_id generation_id generation_size 1 payload_chunks

pub record GenerationPlan : Type 0 where
  pub generation_id : ℕ
  pub generation_size : ℕ
  pub source_index_base : ℕ
  pub source_units : List SystematicUnit

-- The loop over `range(0, len(all_chunks), window)`: `start` is the index of the first of the
-- remaining chunks. Each round takes a chunk, so as much fuel as there are chunks is enough.
unfoldable pub build_plans_from : ℕ → ℕ → ℕ → ℕ → ℕ → List Payload → Result (List GenerationPlan)
build_plans_from fuel session_id window generation_id start [] = ok []
build_plans_from zero session_id window generation_id start (c ∷ chunks) = err stuck
build_plans_from (suc fuel) session_id window generation_id start (c ∷ chunks) =
    let generation_chunks = take window (c ∷ chunks) in
    let rest =
      build_plans_from fuel session_id window (generation_id + 1) (start + window)
        (drop window (c ∷ chunks)) in
    do
      source_units ←
          build_systematic_units session_id generation_id (length generation_chunks)
            generation_chunks
      plans ← rest
      ok (
          record {
            generation_id = generation_id;
            generation_size = length generation_chunks;
            source_index_base = start + 1;
            source_units = source_units;
          }
          ∷ plans)

unfoldable pub build_systematic_generation_plans :
    ℕ → List Payload → ℕ → Result (List GenerationPlan)
unfolding build_plans_from
build_systematic_generation_plans session_id all_chunks systematic_generation_size =
    build_plans_from (length all_chunks) session_id (max 1 systematic_generation_size) 0 0
      all_chunks

-- `{len(unit.payload) for unit in source_units}`
unfoldable pub payload_sizes : List SystematicUnit → List ℕ
payload_sizes [] = []
payload_sizes (u ∷ units) =
    let sizes = payload_sizes units in
    if mem sizes (length u.payload) then sizes else length u.payload ∷ sizes

-- `{int(unit.source_index): unit for unit in source_units}`, added to the dictionary `d`.
unfoldable pub by_index : List SystematicUnit → Dict SystematicUnit → Dict SystematicUnit
by_index [] d = d
by_index (u ∷ units) d = by_index units (put d u.source_index u)

-- `selected_payloads`
unfoldable pub select_payloads : Dict SystematicUnit → List (ℕ × ℕ) → List (ℕ × Payload)
select_payloads d [] = []
select_payloads d ((index, coefficient) ∷ terms) =
    let rest = select_payloads d terms in
    elim (get d index) [ none ↦ rest | some u ↦ (coefficient, u.payload) ∷ rest ]

module _ (random : Random) where
  -- _build_coded_payload
  unfoldable pub build_coded_payload :
      List SystematicUnit → ℕ → ℕ → ℕ → CodingScheme → Result Payload
  build_coded_payload source_units generation_size coding_seed degree coding_scheme = do
    selected_terms ← expand_equation_terms random generation_size coding_seed degree coding_scheme
    let selected_payloads = select_payloads (by_index source_units []) selected_terms
    require (length selected_payloads == length selected_terms) value_error
    gf256_linear_combine selected_payloads

  unfoldable pub build_coded_unit :
      ℕ → ℕ → ℕ → List SystematicUnit → ℕ → ℕ → ℕ → CodingScheme → Result CodedUnit
  unfolding build_coded_payload
  build_coded_unit session_id generation_id generation_size source_units equation_id coding_seed
        degree coding_scheme =
      do
        require (ltb 0 (length source_units)) value_error
        require (generation_size == length source_units) value_error
        require (length (payload_sizes source_units) == 1) value_error
        require (ltb 0 degree) value_error
        require (not (ltb (length source_units) degree)) value_error
        payload ← build_coded_payload source_units generation_size coding_seed degree coding_scheme
        make_coded_unit (record {
          session_id = session_id;
          generation_id = generation_id;
          generation_size = generation_size;
          payload_size = length payload;
          payload = payload;
          equation_id = equation_id;
          coding_seed = coding_seed;
          degree = degree;
          coding_scheme = coding_scheme;
        })

  -- The list of build_coded_units for the offsets from `offset` on, `count` of them.
  unfoldable pub build_coded_units_from :
      ℕ → ℕ → ℕ → List SystematicUnit → ℕ → ℕ → ℕ → ℕ → CodingScheme → Result (List CodedUnit)
  build_coded_units_from session_id generation_id generation_size source_units zero offset
        coding_seed_start degree coding_scheme =
      ok []
  build_coded_units_from session_id generation_id generation_size source_units (suc count) offset
        coding_seed_start degree coding_scheme =
      let rest =
        build_coded_units_from session_id generation_id generation_size source_units count
          (offset + 1) coding_seed_start degree coding_scheme in
      do
        u ←
            build_coded_unit session_id generation_id generation_size source_units offset
              (coding_seed_start + offset) degree coding_scheme
        units ← rest
        ok (u ∷ units)

  unfoldable pub build_coded_units :
      ℕ → ℕ → ℕ → List SystematicUnit → ℕ → ℕ → ℕ → CodingScheme → Result (List CodedUnit)
  build_coded_units session_id generation_id generation_size source_units count coding_seed_start
        degree coding_scheme =
      build_coded_units_from session_id generation_id generation_size source_units count 0
        coding_seed_start degree coding_scheme
