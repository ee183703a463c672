-- ===== src/Solver/State.antt =====
-- solver_state.py: the solver's state and its operations. What an
-- operation leaves behind when it raises is not modelled.
pub mod Sound
use Prim.Native.String.{String}
use screen_airdrop.Prelude.{
  ℕ, zero, suc, ◌+◌, ◌-◌, ◌≤◌, ◌<◌, ◌≡◌, refl, Bool, true, false, not, ◌&&◌, Option, none, some,
  List, [], ◌∷◌, ◌++◌, ◌==◌, ltb, leb, if◌then◌else◌, length, max,
}
use screen_airdrop.Prelude.Dict.{Dict, get, put, keys, sorted}
use screen_airdrop.Prelude.Result.{Result, ok, err, value_error, ◌>>=◌}
use screen_airdrop.Coding.Payload.{Payload}
use screen_airdrop.Coding.Equation.{Random, expand_equation_terms}
use screen_airdrop.Units.{
  SystematicUnit, CodedUnit, SystematicUnitIdentity, CodedUnitIdentity, systematic_unit_identity,
  coded_unit_identity, add_source, add_equation,
}
use screen_airdrop.Solver.Rows.{EquationRow, is_zero_payload}
use screen_airdrop.Solver.Reduce.{add_known, is_empty}
use screen_airdrop.Solver.Solve.{solve_equations, unresolved_terms, known_terms}

pub data SolverCodedStatus : Type 0 where
  accepted recovered invalid conflicting : SolverCodedStatus

pub record SolverCodedResult : Type 0 where
  pub status : SolverCodedStatus
  pub recovered_indices : List ℕ
  pub rank_increased : Bool
  pub dependent_equation : Bool
  pub error : String

pub record SolverState : Type 0 where
  pub generation_id : ℕ
  pub generation_size : ℕ
  pub symbol_size : ℕ
  pub systematic_symbols : Dict Payload
  pub equations : Dict EquationRow
  pub received_source_ids : List SystematicUnitIdentity
  pub received_equation_ids : List CodedUnitIdentity
  pub raw_coded_count : ℕ
  pub rank : ℕ
  pub conflict_count : ℕ
  pub invalid_equation_count : ℕ
  pub dependent_equation_count : ℕ
  pub solvable : Bool
  pub decoded_source_symbols : Dict Payload

-- SolverState(generation_id=…, generation_size=…)
unfoldable pub new_solver_state : ℕ → ℕ → SolverState
new_solver_state generation_id generation_size = record {
  generation_id = generation_id;
  generation_size = generation_size;
  symbol_size = 0;
  systematic_symbols = [];
  equations = [];
  received_source_ids = [];
  received_equation_ids = [];
  raw_coded_count = 0;
  rank = 0;
  conflict_count = 0;
  invalid_equation_count = 0;
  dependent_equation_count = 0;
  solvable = false;
  decoded_source_symbols = [];
}

-- _update_symbol_size: the new size, or the exception.
unfoldable pub update_symbol_size : ℕ → Payload → Bool → Result ℕ
update_symbol_size symbol_size payload strict =
    if is_empty payload
    then ok symbol_size
    else if symbol_size == 0
    then ok (length payload)
    else if symbol_size == length payload
    then ok symbol_size
    else if strict
    then err value_error
    else ok symbol_size

-- _solve: the fields that it writes, and the recovered indices in order.
unfoldable pub solve : SolverState → Result (SolverState × List ℕ)
solve s = do
  (basis_rank, r) ← solve_equations s.equations s.decoded_source_symbols
  let rank = max basis_rank (length r.pivot_rows)
  ok (
    record s {
      rank = rank;
      dependent_equation_count = s.raw_coded_count - rank;
      solvable = ltb 0 s.generation_size && leb s.generation_size (length r.known);
      decoded_source_symbols = r.known;
    },
    sorted (keys r.recovered),
  )

-- ingest_systematic, up to the call of _solve.
unfoldable pub record_source : SolverState → SystematicUnit → ℕ → SolverState
record_source s u symbol_size = record s {
  symbol_size = symbol_size;
  systematic_symbols = put s.systematic_symbols u.source_index u.payload;
  decoded_source_symbols = put s.decoded_source_symbols u.source_index u.payload;
  received_source_ids = add_source s.received_source_ids (systematic_unit_identity u);
}

unfoldable pub ingest_systematic : SolverState → SystematicUnit → Result (SolverState × List ℕ)
unfolding record_source
ingest_systematic s u = do
  symbol_size ← update_symbol_size s.symbol_size u.payload (not (is_empty s.equations))
  solve (record_source s u symbol_size)

-- _equation_conflicts_with_known
unfoldable pub equation_conflicts : Dict Payload → List (ℕ × ℕ) → Payload → Result Bool
equation_conflicts known terms rhs_payload = do
  normalized_rhs ← add_known rhs_payload (known_terms known terms)
  ok (is_empty (unresolved_terms known terms) && not (is_zero_payload normalized_rhs))

-- The unit is turned down, and one of the counters grows.
unfoldable pub reject_invalid : SolverState → String → SolverState × SolverCodedResult
reject_invalid s error = (
  record s { invalid_equation_count = s.invalid_equation_count + 1 },
  record {
    status = invalid;
    recovered_indices = [];
    rank_increased = false;
    dependent_equation = false;
    error = error;
  },
)

unfoldable pub reject_conflicting : SolverState → SolverState × SolverCodedResult
reject_conflicting s = (
  record s { conflict_count = s.conflict_count + 1 },
  record {
    status = conflicting;
    recovered_indices = [];
    rank_increased = false;
    dependent_equation = false;
    error = "equation conflicts with known symbols";
  },
)

unfoldable pub record_equation : SolverState → CodedUnit → List (ℕ × ℕ) → SolverState
record_equation s u terms = record s {
  received_equation_ids = add_equation s.received_equation_ids (coded_unit_identity u);
  equations = put s.equations u.equation_id (record { terms = terms; rhs_payload = u.payload });
  raw_coded_count = s.raw_coded_count + 1;
}

unfoldable pub coded_result : ℕ → SolverState → List ℕ → SolverCodedResult
coded_result previous_rank s indices =
    let rank_increased = ltb previous_rank s.rank in
    record {
      status = if is_empty indices then accepted else recovered;
      recovered_indices = indices;
      rank_increased = rank_increased;
      dependent_equation = is_empty indices && not rank_increased;
      error = "";
    }

-- The last part of ingest_coded: the equation is stored and the system is solved.
unfoldable pub accept_equation :
    SolverState → CodedUnit → List (ℕ × ℕ) → Result (SolverState × SolverCodedResult)
accept_equation s u terms = do
  (s', indices) ← solve (record_equation s u terms)
  ok (s', coded_result s.rank s' indices)

-- The part of ingest_coded from the test on the expanded terms.
unfoldable pub ingest_terms :
    SolverState → CodedUnit → List (ℕ × ℕ) → Result (SolverState × SolverCodedResult)
ingest_terms s u terms =
    if is_empty terms
    then ok (reject_invalid s "coded equation expanded to no source terms")
    else (do
      conflict ← equation_conflicts s.decoded_source_symbols terms u.payload
      if conflict then ok (reject_conflicting s) else accept_equation s u terms)

module _ (random : Random) where
  -- The part of ingest_coded from the test on the degree; `except ValueError` of the expansion.
  unfoldable pub ingest_sized : SolverState → CodedUnit → Result (SolverState × SolverCodedResult)
  ingest_sized s u =
      if u.degree == 0
      then ok (reject_invalid s "degree must be positive")
      else elim (expand_equation_terms random u.generation_size u.coding_seed u.degree
          u.coding_scheme) [
            | ok terms ↦ ingest_terms s u terms
            | err value_error ↦ ok (reject_invalid s "degree must be within [1, generation_size]")
            | err e ↦ err e
          ]

  unfoldable pub ingest_coded : SolverState → CodedUnit → Result (SolverState × SolverCodedResult)
  unfolding ingest_sized
  ingest_coded s u = elim (update_symbol_size s.symbol_size u.payload true) [
    | ok symbol_size ↦ ingest_sized (record s { symbol_size = symbol_size }) u
    | err e ↦ ok (reject_invalid s "symbol_size must stay constant within one generation")
  ]
