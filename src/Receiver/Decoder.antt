-- ===== src/Receiver/Decoder.antt =====
-- decoder.py: a unit that arrives is accepted into its generation and given to its solver.
pub mod Sound
use Prim.Native.String.{String}
use screen_airdrop.Prelude.{
  ℕ, Bool, true, false, not, ◌&&◌, Option, none, some, List, [], ◌∷◌, ltb, if◌then◌else◌, length,
}
use screen_airdrop.Prelude.Dict.{Dict, get, put}
use screen_airdrop.Prelude.Result.{Result, ok, ◌>>=◌}
use screen_airdrop.Coding.Payload.{Payload}
use screen_airdrop.Coding.Equation.{Random}
use screen_airdrop.Units.{SystematicUnit, CodedUnit, TransmissionUnit, systematic, coded}
use screen_airdrop.Solver.Reduce.{is_empty}
use screen_airdrop.Solver.State.{
  SolverState, SolverCodedStatus, SolverCodedResult, accepted, recovered, invalid, conflicting,
  ingest_systematic, ingest_coded,
}
use screen_airdrop.Receiver.Store.{
  GenerationState, GenerationStore, AcceptResult, accepted_systematic, accepted_coded, duplicate,
  get_or_create, record_coded_progress, unit_generation, unit_size, accept,
}

pub data IngestStatus : Type 0 where
  ingested_duplicate ingested_systematic ingested_coded recovered_new_symbols generation_complete
        invalid_coded conflicting_coded :
      IngestStatus

pub record IngestResult : Type 0 where
  pub status : IngestStatus
  pub recovered_source_symbols : Dict Payload
  pub complete : Bool
  pub rank_increased : Bool
  pub dependent_equation : Bool
  pub error : String

-- `{index: symbols[index] for index in indices if index in symbols}`, added to `d`.
unfoldable pub pick : Dict Payload → List ℕ → Dict Payload → Dict Payload
pick symbols [] d = d
pick symbols (index ∷ indices) d =
    pick symbols indices
      (elim (get symbols index) [ none ↦ d | some payload ↦ put d index payload ])

-- _sync_state, with the solver's new state.
unfoldable pub sync_state : GenerationState → SolverState → GenerationState
sync_state state solver_state = record_coded_progress (record state {
  received_source_ids = solver_state.received_source_ids;
  solver_state = solver_state;
})

-- A unit without a generation size gets that of its generation. The constructor's checks pass.
unfoldable pub sized_systematic : GenerationState → SystematicUnit → SystematicUnit
sized_systematic state u =
    if not (ltb 0 u.generation_size) && ltb 0 state.generation_size
    then record u { generation_size = state.generation_size; payload_size = length u.payload }
    else u

unfoldable pub sized_coded : GenerationState → CodedUnit → CodedUnit
sized_coded state u =
    if not (ltb 0 u.generation_size) && ltb 0 state.generation_size
    then record u { generation_size = state.generation_size; payload_size = length u.payload }
    else u

unfoldable pub duplicate_result : GenerationState → IngestResult
duplicate_result state = record {
  status = ingested_duplicate;
  recovered_source_symbols = [];
  complete = state.decode_complete;
  rank_increased = false;
  dependent_equation = false;
  error = "";
}

unfoldable pub systematic_result : GenerationState → List ℕ → IngestResult
unfolding pick
systematic_result state indices = record {
  status = if state.decode_complete then generation_complete else ingested_systematic;
  recovered_source_symbols = pick state.recovered_source_symbols indices [];
  complete = state.decode_complete;
  rank_increased = false;
  dependent_equation = false;
  error = "";
}

unfoldable pub coded_status : GenerationState → SolverCodedResult → SolverCodedStatus → IngestStatus
coded_status state r invalid = invalid_coded
coded_status state r conflicting = conflicting_coded
coded_status state r accepted =
    if state.decode_complete
    then generation_complete
    else if is_empty r.recovered_indices
    then ingested_coded
    else recovered_new_symbols
coded_status state r recovered =
    if state.decode_complete
    then generation_complete
    else if is_empty r.recovered_indices
    then ingested_coded
    else recovered_new_symbols

unfoldable pub coded_ingest_result : GenerationState → SolverCodedResult → IngestResult
unfolding pick coded_status
coded_ingest_result state r = record {
  status = coded_status state r r.status;
  recovered_source_symbols = pick state.recovered_source_symbols r.recovered_indices [];
  complete = state.decode_complete;
  rank_increased = r.rank_increased;
  dependent_equation = r.dependent_equation;
  error = r.error;
}

module _ (random : Random) where
  -- The part of `ingest` after the test for duplicates: the generation's new state, and the result.
  unfoldable pub ingest_state :
      GenerationState → TransmissionUnit → Result (GenerationState × IngestResult)
  ingest_state state (systematic u) = do
    r ← ingest_systematic state.solver_state (sized_systematic state u)
    ok (sync_state state r.0, systematic_result (sync_state state r.0) r.1)
  ingest_state state (coded u) = do
    r ← ingest_coded random state.solver_state (sized_coded state u)
    ok (sync_state state r.0, coded_ingest_result (sync_state state r.0) r.1)

  unfoldable pub ingest_accepted :
      GenerationStore
      → TransmissionUnit
      → ℕ
      → AcceptResult
      → Result (GenerationStore × IngestResult)
  unfolding ingest_state
  ingest_accepted store unit hint duplicate =
      let r = get_or_create store (unit_generation unit) (unit_size unit hint) in
      ok (r.0, duplicate_result r.1)
  ingest_accepted store unit hint _ =
      let r = get_or_create store (unit_generation unit) (unit_size unit hint) in
      do a ← ingest_state r.1 unit; ok (put r.0 (unit_generation unit) a.0, a.1)

  unfoldable pub ingest :
      GenerationStore → TransmissionUnit → ℕ → Result (GenerationStore × IngestResult)
  unfolding ingest_accepted
  ingest store unit hint = let a = accept store unit hint in ingest_accepted a.0 unit hint a.1
