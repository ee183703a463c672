-- ===== src/Receiver/Store.antt =====
-- generation_store.py and unit_acceptor.py: the generations and the acceptance of units. The field
-- `last_progress_ts`, a time stamp that these files only write, is left out. `state` objects are
-- shared with the store, so an operation that changes one puts it back.
use screen_airdrop.Prelude.{
  ℕ, Bool, true, false, not, ◌&&◌, ◌||◌, none, some, List, [], ◌+◌, ltb, leb, if◌then◌else◌, length,
}
use screen_airdrop.Prelude.Dict.{Dict, get, has, put}
use screen_airdrop.Coding.Payload.{Payload}
use screen_airdrop.Units.{
  SystematicUnit, CodedUnit, TransmissionUnit, systematic, coded, SystematicUnitIdentity,
  CodedUnitIdentity, systematic_unit_identity, coded_unit_identity, has_source, add_source,
  has_equation, add_equation,
}
use screen_airdrop.Solver.State.{SolverState, new_solver_state}

pub record GenerationState : Type 0 where
  pub generation_id : ℕ
  pub generation_size : ℕ
  pub symbol_size : ℕ
  pub systematic_symbols : Dict Payload
  pub received_source_ids : List SystematicUnitIdentity
  pub coded_equations : Dict CodedUnit
  pub coded_equation_count : ℕ
  pub duplicate_equation_count : ℕ
  pub received_equation_ids : List CodedUnitIdentity
  pub solver_rank : ℕ
  pub conflict_count : ℕ
  pub invalid_equation_count : ℕ
  pub dependent_equation_count : ℕ
  pub decode_complete : Bool
  pub decoded_payload_ready : Bool
  pub recovered_source_symbols : Dict Payload
  pub recovered_source_count : ℕ
  pub solver_state : SolverState

-- `self._generations`
abbrev pub GenerationStore : Type 0
GenerationStore = Dict GenerationState

unfoldable pub new_generation : ℕ → ℕ → GenerationState
new_generation generation_id generation_size = record {
  generation_id = generation_id;
  generation_size = generation_size;
  symbol_size = 0;
  systematic_symbols = [];
  received_source_ids = [];
  coded_equations = [];
  coded_equation_count = 0;
  duplicate_equation_count = 0;
  received_equation_ids = [];
  solver_rank = 0;
  conflict_count = 0;
  invalid_equation_count = 0;
  dependent_equation_count = 0;
  decode_complete = false;
  decoded_payload_ready = false;
  recovered_source_symbols = [];
  recovered_source_count = 0;
  solver_state = new_solver_state generation_id generation_size;
}

unfoldable pub set_size : GenerationState → ℕ → GenerationState
set_size state generation_size = record state {
  generation_size = generation_size;
  solver_state = record state.solver_state { generation_size = generation_size };
}

-- The state that get_or_create returns. The store holds it afterwards.
unfoldable pub found : GenerationStore → ℕ → ℕ → GenerationState
unfolding new_generation set_size
found store generation_id generation_size = elim (get store generation_id) [
  | none ↦ new_generation generation_id generation_size
  | some state ↦
      if ltb 0 generation_size && not (ltb 0 state.generation_size)
      then set_size state generation_size
      else state
]

unfoldable pub get_or_create : GenerationStore → ℕ → ℕ → GenerationStore × GenerationState
unfolding found
get_or_create store generation_id generation_size =
    let state = found store generation_id generation_size in (put store generation_id state, state)

unfoldable pub update_generation_size : GenerationStore → ℕ → ℕ → GenerationStore × GenerationState
unfolding get_or_create set_size
update_generation_size store generation_id generation_size =
    let r = get_or_create store generation_id generation_size in
    if ltb 0 generation_size
    then (let sized = set_size r.1 generation_size in
        let state = record sized {
          decode_complete =
              if leb generation_size (length sized.systematic_symbols)
              then true
              else sized.decode_complete;
        } in
        (put r.0 generation_id state, state))
    else r

unfoldable pub record_progress : GenerationState → GenerationState
record_progress state = record state {
  decode_complete =
      if ltb 0 state.generation_size
        && leb state.generation_size (length state.recovered_source_symbols)
      then true
      else state.decode_complete;
}

unfoldable pub record_coded_progress : GenerationState → GenerationState
record_coded_progress state = record state {
  symbol_size = state.solver_state.symbol_size;
  systematic_symbols = state.solver_state.systematic_symbols;
  recovered_source_symbols = state.solver_state.decoded_source_symbols;
  coded_equation_count = state.solver_state.raw_coded_count;
  solver_rank = state.solver_state.rank;
  conflict_count = state.solver_state.conflict_count;
  invalid_equation_count = state.solver_state.invalid_equation_count;
  dependent_equation_count = state.solver_state.dependent_equation_count;
  decode_complete = state.solver_state.solvable;
  decoded_payload_ready = state.solver_state.solvable;
  recovered_source_count = length state.solver_state.decoded_source_symbols;
}

unfoldable bind_solver_state : GenerationState → GenerationState
unfolding new_solver_state
bind_solver_state state = record state {
  solver_state = record (new_solver_state state.generation_id state.generation_size) {
    symbol_size = state.symbol_size;
    systematic_symbols = state.systematic_symbols;
    equations = [];
    received_source_ids = state.received_source_ids;
    received_equation_ids = state.received_equation_ids;
    decoded_source_symbols = state.recovered_source_symbols;
    rank = state.solver_rank;
    dependent_equation_count = state.dependent_equation_count;
    solvable = state.decoded_payload_ready;
  };
}

pub data AcceptResult : Type 0 where
  accepted_systematic accepted_coded duplicate : AcceptResult

-- The systematic branch of `accept`, after its test for duplicates.
unfoldable pub add_systematic : GenerationState → SystematicUnit → GenerationState
unfolding record_progress
add_systematic state u = record_progress (record state {
  received_source_ids = add_source state.received_source_ids (systematic_unit_identity u);
  systematic_symbols = put state.systematic_symbols u.source_index u.payload;
  recovered_source_symbols = put state.recovered_source_symbols u.source_index u.payload;
  solver_state = record state.solver_state {
    systematic_symbols = put state.solver_state.systematic_symbols u.source_index u.payload;
    decoded_source_symbols = put state.solver_state.decoded_source_symbols u.source_index u.payload;
    received_source_ids =
        add_source state.solver_state.received_source_ids (systematic_unit_identity u);
  };
})

-- The coded branch of `accept`, after its test for duplicates.
unfoldable pub add_coded : GenerationState → CodedUnit → GenerationState
unfolding record_coded_progress
add_coded state u = record_coded_progress (record state {
  received_equation_ids = add_equation state.received_equation_ids (coded_unit_identity u);
  coded_equations = put state.coded_equations u.equation_id u;
  solver_state = record state.solver_state {
    received_equation_ids =
        add_equation state.solver_state.received_equation_ids (coded_unit_identity u);
  };
})

-- `accept` on the state that get_or_create has returned.
unfoldable pub accept_unit : GenerationState → TransmissionUnit → GenerationState × AcceptResult
unfolding add_systematic add_coded
accept_unit state (systematic u) =
    if has_source state.received_source_ids (systematic_unit_identity u)
      || has state.systematic_symbols u.source_index
    then (state, duplicate)
    else (add_systematic state u, accepted_systematic)
accept_unit state (coded u) =
    if has_equation state.received_equation_ids (coded_unit_identity u)
      || has state.coded_equations u.equation_id
    then (record state { duplicate_equation_count = state.duplicate_equation_count + 1 }, duplicate)
    else (add_coded state u, accepted_coded)

unfoldable pub unit_generation : TransmissionUnit → ℕ
unit_generation (systematic u) = u.generation_id
unit_generation (coded u) = u.generation_id

-- `unit.generation_size if unit.generation_size > 0 else generation_size_hint`
unfoldable pub unit_size : TransmissionUnit → ℕ → ℕ
unit_size (systematic u) hint = if ltb 0 u.generation_size then u.generation_size else hint
unit_size (coded u) hint = if ltb 0 u.generation_size then u.generation_size else hint

unfoldable pub accept : GenerationStore → TransmissionUnit → ℕ → GenerationStore × AcceptResult
unfolding get_or_create accept_unit unit_generation unit_size
accept store unit hint =
    let r = get_or_create store (unit_generation unit) (unit_size unit hint) in
    let a = accept_unit r.1 unit in (put r.0 (unit_generation unit) a.0, a.1)
