-- ===== src/Examples/Assembler.antt =====
-- A session of two chunks, received as one control item and two chunks.
use screen_airdrop.Prelude.{
  ℕ, zero, suc, ◌≤◌, ◌<◌, ◌≡◌, ◌↔◌, refl, sym, ap, ◌∙◌, Bool, true, none, some, [], ◌∷◌, get_elem?,
  arith,
}
use screen_airdrop.Prelude.Dict.{get}
use screen_airdrop.Prelude.Result.{Result, ok}
use screen_airdrop.Coding.Payload.{Payload}
use screen_airdrop.Receiver.Assembler.{
  manifest_kind, Manifest, ControlCodec, ChunkAssembler, new_assembler,
  control_kind_from_wire_chunk_id,
}
use screen_airdrop.Receiver.Assembler.Control.{
  add, add_control, complete, missing_chunk_ids, payload,
}
use screen_airdrop.Receiver.Assembler.Assembled.{joined, missing_chunk_ids-payload}
use screen_airdrop.Receiver.Assembler.Counted.{NewWithin}
use screen_airdrop.Receiver.Assembler.Runs.{
  Run, begun, then_step, chunk_added, control_added, complete-payload,
}
use screen_airdrop.Receiver.Assembler.Session.{chunk_bytes-payload}
use screen_airdrop.Sender.Packing.{chunk_bytes}
use screen_airdrop.Receiver.Store.{accept}
use screen_airdrop.Units.{has_source, add_source, systematic_unit_identity}
use screen_airdrop.Solver.State.{ingest_systematic, update_symbol_size, new_solver_state, solve}
use screen_airdrop.Receiver.Decoder.{sized_systematic, sync_state}
use screen_airdrop.Solver.Solve.{
  solve_equations, build_pivots, pivot_loop, solve_loop, recover_loop,
}
use screen_airdrop.Examples.Data.{plain_random}

-- Every manifest is of a session of two chunks.
abbrev codec : ControlCodec ℕ
codec = record {
  manifest_from_json_bytes = λ bytes. ok (record { session_id = 5; total_chunks = 2 });
  decode_generation_control = λ bytes. ok (record {
    generation_id = none;
    generation_size = 0;
    payload_chunk_count = 0;
    source_index_base = 0;
    coded_payload_envelope = none;
  });
  decode_session_bootstrap = λ bytes. ok (record { session_id = none });
  decode_layout_bootstrap = λ bytes. ok 0;
}

abbrev value : Result (ChunkAssembler ℕ) → ChunkAssembler ℕ
value (Result.ok a) = a
value (Result.err f) = new_assembler

abbrev first : Result (ChunkAssembler ℕ × Bool) → ChunkAssembler ℕ
first (Result.ok r) = r.0
first (Result.err f) = new_assembler

abbrev with_manifest : ChunkAssembler ℕ
with_manifest = value (add_control codec new_assembler manifest_kind (1 ∷ []))

abbrev with_one : ChunkAssembler ℕ
with_one = first (add codec plain_random with_manifest 1 (8 ∷ 9 ∷ []))

abbrev with_two : ChunkAssembler ℕ
with_two = first (add codec plain_random with_one 2 (7 ∷ []))

manifest_added : add_control codec new_assembler manifest_kind (1 ∷ []) ≡ ok with_manifest
unfolding add_control
manifest_added = refl

first_added : add codec plain_random with_manifest 1 (8 ∷ 9 ∷ []) ≡ ok (with_one, true)
unfolding add accept has_source ingest_systematic update_symbol_size sized_systematic
    new_solver_state solve solve_equations build_pivots pivot_loop solve_loop recover_loop
    sync_state add_source systematic_unit_identity
first_added = refl

second_added : add codec plain_random with_one 2 (7 ∷ []) ≡ ok (with_two, true)
unfolding add accept has_source ingest_systematic update_symbol_size sized_systematic
    new_solver_state solve solve_equations build_pivots pivot_loop solve_loop recover_loop
    sync_state add_source systematic_unit_identity
second_added = refl

chunks_of_none : with_manifest.chunks ≡ []
unfolding add_control
chunks_of_none = refl

chunks_of_one : with_one.chunks ≡ (1, 8 ∷ 9 ∷ []) ∷ []
unfolding add accept has_source ingest_systematic update_symbol_size sized_systematic
    new_solver_state solve solve_equations build_pivots pivot_loop solve_loop recover_loop
    sync_state add_source systematic_unit_identity
chunks_of_one = refl

chunks_of_two : with_two.chunks ≡ (1, 8 ∷ 9 ∷ []) ∷ (2, 7 ∷ []) ∷ []
unfolding add accept has_source ingest_systematic update_symbol_size sized_systematic
    new_solver_state solve solve_equations build_pivots pivot_loop solve_loop recover_loop
    sync_state add_source systematic_unit_identity
chunks_of_two = refl

first_within : NewWithin 2 with_manifest.chunks with_one.chunks
first_within = rw (chunks_of_none, chunks_of_one) (λ k there fresh. ground arith)

second_within : NewWithin 2 with_one.chunks with_two.chunks
second_within = rw (chunks_of_one, chunks_of_two) (λ k there fresh. ground arith)

no_control : (id : ℕ) → 1 ≤ id → id < 9 → control_kind_from_wire_chunk_id id ≡ none
unfolding control_kind_from_wire_chunk_id
no_control id lo hi = ground arith

run : Run codec plain_random 2 with_two
run =
    then_step
      (then_step
        (then_step begun
          (control_added new_assembler with_manifest manifest_kind (1 ∷ []) manifest_added))
        (chunk_added with_manifest with_one 1 (8 ∷ 9 ∷ []) true
          (no_control 1 (omega arith) (omega arith)) first_added first_within))
      (chunk_added with_one with_two 2 (7 ∷ []) true (no_control 2 (omega arith) (omega arith))
        second_added second_within)

abbrev two_chunks : Manifest
two_chunks = record { session_id = 5; total_chunks = 2 }

manifest_there : with_two.manifest ≡ some two_chunks
unfolding add accept has_source ingest_systematic update_symbol_size sized_systematic
    new_solver_state solve solve_equations build_pivots pivot_loop solve_loop recover_loop
    sync_state add_source systematic_unit_identity add_control
manifest_there = refl

two_complete : complete with_two ≡ true
unfolding add accept has_source ingest_systematic update_symbol_size sized_systematic
    new_solver_state solve solve_equations build_pivots pivot_loop solve_loop recover_loop
    sync_state add_source systematic_unit_identity add_control complete
two_complete = refl

complete_example : payload with_two ≡ ok (joined with_two.chunks 1 2)
complete_example =
    complete-payload codec plain_random 2 with_two two_chunks run manifest_there refl two_complete

truth :
    (k : ℕ) (p : Payload)
    → k < 2
    → get with_two.chunks (suc k) ≡ some p
    → get_elem? ((8 ∷ 9 ∷ []) ∷ (7 ∷ []) ∷ []) k ≡ some p
truth zero p h e = sym (ap (λ d. get d 1) chunks_of_two) ∙ e
truth (suc zero) p h e = sym (ap (λ d. get d 2) chunks_of_two) ∙ e
truth (suc (suc k)) p h e = absurd (omega (arith, h))

session_example : payload with_two ≡ ok (8 ∷ 9 ∷ 7 ∷ [])
unfolding chunk_bytes
session_example =
    chunk_bytes-payload codec plain_random (8 ∷ 9 ∷ 7 ∷ []) 2 ((8 ∷ 9 ∷ []) ∷ (7 ∷ []) ∷ [])
      with_two two_chunks refl run manifest_there refl two_complete truth

missing_example :
    (missing_chunk_ids with_one 8 ≡ some []) ↔ ((bytes : Payload) × (payload with_one ≡ ok bytes))
missing_example = missing_chunk_ids-payload with_one 8
