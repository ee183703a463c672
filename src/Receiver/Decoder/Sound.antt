-- ===== src/Receiver/Decoder/Sound.antt =====
-- The decoder on units that are true of the source symbols of their generations.
use screen_airdrop.Prelude.{
  ℕ, ◌<◌, ◌≡◌, ◌≢◌, ◌⊎◌, refl, sym, subst, ap, ◌∙◌, Bool, true, false, not, ◌&&◌, ◌||◌, none, some,
  List, ◌==◌, ltb, arith, inl, inr, Bool-cases, Option-cases,
}
use screen_airdrop.Prelude.Dict.{get, has, put, get-put}
use screen_airdrop.Prelude.Result.{Result, ok}
use screen_airdrop.Coding.Payload.{Payload}
use screen_airdrop.Coding.Payload.Symbols.{Symbol}
use screen_airdrop.Coding.Equation.{Random}
use screen_airdrop.Units.{
  SystematicUnit, CodedUnit, TransmissionUnit, systematic, coded, systematic_unit_identity,
  coded_unit_identity, has_source, has_equation,
}
use screen_airdrop.Solver.Reduce.{is_empty}
use screen_airdrop.Solver.State.{
  SolverState, SolverCodedStatus, SolverCodedResult, accepted, recovered, invalid, conflicting,
  new_solver_state,
}
use screen_airdrop.Solver.State.Sound.{
  IsSound, IsTruthful, put-Agrees, ingest_systematic-IsSound, ingest_coded-IsSound,
}
use screen_airdrop.Receiver.Store.{
  GenerationState, GenerationStore, AcceptResult, accepted_systematic, accepted_coded, duplicate,
  new_generation, set_size, found, get_or_create, record_progress, record_coded_progress,
  add_systematic, add_coded, accept_unit, unit_generation, unit_size, accept,
}
use screen_airdrop.Receiver.Decoder.{
  IngestStatus, IngestResult, invalid_coded, conflicting_coded, sync_state, sized_systematic,
  sized_coded, duplicate_result, systematic_result, coded_status, coded_ingest_result, ingest_state,
  ingest_accepted, ingest,
}

-- The statuses that turn a unit down.
abbrev pub rejected : IngestStatus → Bool
rejected invalid_coded = true
rejected conflicting_coded = true
rejected _ = false

sized_coded-eq :
    (state : GenerationState) (u : CodedUnit) → 0 < u.generation_size → sized_coded state u ≡ u
unfolding sized_coded
sized_coded-eq state u h = let e : ltb 0 u.generation_size ≡ true = ground arith in rw e refl

sized_systematic-eq :
    (state : GenerationState) (u : SystematicUnit)
    → ((sized_systematic state u).payload ≡ u.payload)
      × ((sized_systematic state u).source_index ≡ u.source_index)
unfolding sized_systematic
sized_systematic-eq state u =
    elim (Bool-cases (not (ltb 0 u.generation_size) && ltb 0 state.generation_size)) [
      | inl e ↦ rw e (refl, refl)
      | inr e ↦ rw e (refl, refl)
    ]

coded_status-rejected :
    (state : GenerationState) (r : SolverCodedResult) (s : SolverCodedStatus)
    → (s ≡ accepted) ⊎ (s ≡ recovered)
    → rejected (coded_status state r s) ≡ false
unfolding coded_status
coded_status-rejected state r accepted h = elim (Bool-cases state.decode_complete) [
  | inl e ↦ rw e refl
  | inr e ↦ elim (Bool-cases (is_empty r.recovered_indices)) [
    | inl f ↦ rw (e, f) refl
    | inr f ↦ rw (e, f) refl
  ]
]
coded_status-rejected state r recovered h = elim (Bool-cases state.decode_complete) [
  | inl e ↦ rw e refl
  | inr e ↦ elim (Bool-cases (is_empty r.recovered_indices)) [
    | inl f ↦ rw (e, f) refl
    | inr f ↦ rw (e, f) refl
  ]
]
coded_status-rejected state r invalid (inl h) = cc
coded_status-rejected state r invalid (inr h) = cc
coded_status-rejected state r conflicting (inl h) = cc
coded_status-rejected state r conflicting (inr h) = cc

found-new :
    (store : GenerationStore) (g n : ℕ) → get store g ≡ none → found store g n ≡ new_generation g n
unfolding found
found-new store g n e = rw (e, found) refl

found-sized :
    (store : GenerationStore) (g n : ℕ) (state : GenerationState)
    → get store g ≡ some state
    → (ltb 0 n && not (ltb 0 state.generation_size)) ≡ true
    → found store g n ≡ set_size state n
unfolding found
found-sized store g n state e f = rw (e, f, found) refl

found-old :
    (store : GenerationStore) (g n : ℕ) (state : GenerationState)
    → get store g ≡ some state
    → (ltb 0 n && not (ltb 0 state.generation_size)) ≡ false
    → found store g n ≡ state
unfolding found
found-old store g n state e f = rw (e, f, found) refl

module _ (w : ℕ) (x : ℕ → ℕ → Payload) (source : (g i : ℕ) → Symbol w (x g i))
    (random : Random) where
  abbrev Good : ℕ → GenerationState → Type 0
  Good g state = IsSound w (x g) (source g) state.solver_state

  -- Every generation's solver is sound for the source symbols of that generation.
  abbrev pub IsStore : GenerationStore → Type 0
  IsStore store = (g : ℕ) (state : GenerationState) → get store g ≡ some state → Good g state

  -- The unit carries a source symbol of its generation, or a combination of them.
  abbrev pub IsTrueUnit : TransmissionUnit → Type 0
  IsTrueUnit (systematic u) = u.payload ≡ x u.generation_id u.source_index
  IsTrueUnit (coded u) = IsTruthful w (x u.generation_id) (source u.generation_id) random u

  put-IsStore :
      (store : GenerationStore) (g : ℕ) (state : GenerationState)
      → IsStore store
      → Good g state
      → IsStore (put store g state)
  put-IsStore store g state h q j other e = elim (Bool-cases (g == j)) [
    | inl same ↦
        let here : state ≡ other = ground (arith, get-put store g j state) in
        let at : g ≡ j = ground arith in subst (λ k. Good k other) at (subst (Good g) here q)
    | inr apart ↦ h j other (ground (arith, get-put store g j state))
  ]

  set_size-Good :
      (g : ℕ) (state : GenerationState) (n : ℕ) → Good g state → Good g (set_size state n)
  unfolding set_size
  set_size-Good g state n h = record { size = h.size; equations = h.equations; decoded = h.decoded }

  new_generation-Good : (g n : ℕ) → Good g (new_generation g n)
  unfolding new_generation new_solver_state
  new_generation-Good g n = record {
    size = inl refl;
    equations = λ i row e. cc;
    decoded = λ i p e. cc;
  }

  found-Good : (store : GenerationStore) (g n : ℕ) → IsStore store → Good g (found store g n)
  found-Good store g n h = elim (Option-cases (get store g)) [
    | inl e ↦ subst (Good g) (sym (found-new store g n e)) (new_generation-Good g n)
    | inr (state, e) ↦ elim (Bool-cases (ltb 0 n && not (ltb 0 state.generation_size))) [
      | inl f ↦
          subst (Good g) (sym (found-sized store g n state e f))
            (set_size-Good g state n (h g state e))
      | inr f ↦ subst (Good g) (sym (found-old store g n state e f)) (h g state e)
    ]
  ]

  accept_unit-Good :
      (unit : TransmissionUnit) (state : GenerationState)
      → IsTrueUnit unit
      → Good (unit_generation unit) state
      → Good (unit_generation unit) (accept_unit state unit).0
  unfolding accept_unit unit_generation add_systematic record_progress add_coded
      record_coded_progress
  accept_unit-Good (systematic u) state t h =
      elim (Bool-cases (
        has_source state.received_source_ids (systematic_unit_identity u)
        || has state.systematic_symbols u.source_index)) [
          | inl e ↦ rw e h
          | inr e ↦ rw e (record {
            size = h.size;
            equations = h.equations;
            decoded =
                put-Agrees w (x u.generation_id) (source u.generation_id)
                  state.solver_state.decoded_source_symbols u.source_index u.payload h.decoded t;
          })
        ]
  accept_unit-Good (coded u) state t h =
      elim (Bool-cases (
        has_equation state.received_equation_ids (coded_unit_identity u)
        || has state.coded_equations u.equation_id)) [
          | inl e ↦ rw e h
          | inr e ↦ rw e (record { size = h.size; equations = h.equations; decoded = h.decoded })
        ]

  abbrev Fine : ℕ → Result (GenerationState × IngestResult) → Type 0
  Fine g m =
      (a : GenerationState × IngestResult) × (m ≡ ok a) × Good g a.0 × (rejected a.1.status ≡ false)

  systematic_status-rejected :
      (state : GenerationState) (is : List ℕ) → rejected (systematic_result state is).status ≡ false
  unfolding systematic_result
  systematic_status-rejected state is = elim (Bool-cases state.decode_complete) [
    | inl e ↦ rw e refl
    | inr e ↦ rw e refl
  ]

  sync-Good :
      (g : ℕ) (state : GenerationState) (s : SolverState)
      → IsSound w (x g) (source g) s
      → Good g (sync_state state s)
  unfolding sync_state record_coded_progress
  sync-Good g state s h = h

  ingest_state-Fine :
      (unit : TransmissionUnit) (state : GenerationState)
      → IsTrueUnit unit
      → Good (unit_generation unit) state
      → Fine (unit_generation unit) (ingest_state random state unit)
  unfolding ingest_state unit_generation
  ingest_state-Fine (systematic u) state t h =
      let v = sized_systematic state u in
      let g = u.generation_id in
      let (same, index) = sized_systematic-eq state u in
      let (r, e, sound, stored, keeps) =
        ingest_systematic-IsSound w (x g) (source g) state.solver_state v h
          (same ∙ t ∙ ap (x g) (sym index)) in
      (
        (sync_state state r.0, systematic_result (sync_state state r.0) r.1),
        rw e refl,
        sync-Good g state r.0 sound,
        systematic_status-rejected (sync_state state r.0) r.1,
      )
  ingest_state-Fine (coded u) state t h =
      let g = u.generation_id in
      let (r, e, sound, keeps, count, status) =
        ingest_coded-IsSound w (x g) (source g) random state.solver_state u h t in
      let same = sized_coded-eq state u (omega (arith, t.positive, t.bounded)) in
      (
        (sync_state state r.0, coded_ingest_result (sync_state state r.0) r.1),
        rw (same, e) refl,
        sync-Good g state r.0 sound,
        unfold coded_ingest_result in
            coded_status-rejected (sync_state state r.0) r.1 r.1.status status,
      )

  get_or_create-IsStore :
      (store : GenerationStore) (g n : ℕ)
      → IsStore store
      → IsStore (get_or_create store g n).0 × Good g (get_or_create store g n).1
  unfolding get_or_create
  get_or_create-IsStore store g n h =
      let good = found-Good store g n h in (put-IsStore store g (found store g n) h good, good)

  abbrev Takes : Result (GenerationStore × IngestResult) → Type 0
  Takes m =
      (r : GenerationStore × IngestResult) × (m ≡ ok r)
      × IsStore r.0
      × (rejected r.1.status ≡ false)

  ingest_state-Takes :
      (store : GenerationStore) (unit : TransmissionUnit) (hint : ℕ)
      → IsStore store
      → IsTrueUnit unit
      → (accept : AcceptResult) → accept ≢ duplicate
      → Takes (ingest_accepted random store unit hint accept)
  unfolding ingest_accepted
  ingest_state-Takes store unit hint h t duplicate n = absurd (n refl)
  ingest_state-Takes store unit hint h t accepted_systematic n =
      let g = unit_generation unit in
      let (kept, good) = get_or_create-IsStore store g (unit_size unit hint) h in
      let c = get_or_create store g (unit_size unit hint) in
      let (a, e, fine, status) = ingest_state-Fine unit c.1 t good in
      ((put c.0 g a.0, a.1), rw e refl, put-IsStore c.0 g a.0 kept fine, status)
  ingest_state-Takes store unit hint h t accepted_coded n =
      let g = unit_generation unit in
      let (kept, good) = get_or_create-IsStore store g (unit_size unit hint) h in
      let c = get_or_create store g (unit_size unit hint) in
      let (a, e, fine, status) = ingest_state-Fine unit c.1 t good in
      ((put c.0 g a.0, a.1), rw e refl, put-IsStore c.0 g a.0 kept fine, status)

  ingest_accepted-Takes :
      (store : GenerationStore) (unit : TransmissionUnit) (hint : ℕ)
      → IsStore store
      → IsTrueUnit unit
      → (accept : AcceptResult) → Takes (ingest_accepted random store unit hint accept)
  ingest_accepted-Takes store unit hint h t accepted_systematic =
      ingest_state-Takes store unit hint h t accepted_systematic (λ e. cc)
  ingest_accepted-Takes store unit hint h t accepted_coded =
      ingest_state-Takes store unit hint h t accepted_coded (λ e. cc)
  ingest_accepted-Takes store unit hint h t duplicate =
      let g = unit_generation unit in
      let (kept, good) = get_or_create-IsStore store g (unit_size unit hint) h in
      let c = get_or_create store g (unit_size unit hint) in
      (
        (c.0, duplicate_result c.1),
        unfold ingest_accepted in refl,
        kept,
        unfold duplicate_result in refl,
      )

  -- Where every generation's solver in the store is sound for the source symbols of its
  -- generation, InformationDecoder.ingest of a systematic unit that carries the source symbol of
  -- its index, or of a coded unit whose payload is the combination that its seed names, of w
  -- bytes, with a degree from 1 to its generation's size, returns, whatever the size hint; every
  -- generation's solver stays sound, and the status is neither INVALID_CODED nor
  -- CONFLICTING_CODED.
  pub ingest-IsStore :
      (store : GenerationStore) (unit : TransmissionUnit) (hint : ℕ)
      → IsStore store
      → IsTrueUnit unit
      → (r : GenerationStore × IngestResult) × (ingest random store unit hint ≡ ok r)
        × IsStore r.0
        × (rejected r.1.status ≡ false)
  unfolding ingest accept
  ingest-IsStore store unit hint h t =
      let g = unit_generation unit in
      let (kept, good) = get_or_create-IsStore store g (unit_size unit hint) h in
      let c = get_or_create store g (unit_size unit hint) in
      let a = accept_unit c.1 unit in
      ingest_accepted-Takes (put c.0 g a.0) unit hint
        (put-IsStore c.0 g a.0 kept (accept_unit-Good unit c.1 t good)) t a.1
