-- ===== src/Receiver/Assembler/Arrive.antt =====
-- receiver/information/assembler.py: the units that arrive, and the chunks that they bring.
use screen_airdrop.Prelude.{ℕ, ◌+◌, Bool, true, false, [], ◌∷◌, if◌then◌else◌}
use screen_airdrop.Prelude.Dict.{Dict, has, put}
use screen_airdrop.Prelude.Result.{Result, ok, ◌>>=◌}
use screen_airdrop.Coding.Payload.{Payload}
use screen_airdrop.Coding.Equation.{Random}
use screen_airdrop.Units.{CodedUnit, TransmissionUnit, systematic, coded}
use screen_airdrop.Receiver.Store.{get_or_create}
use screen_airdrop.Receiver.Decoder.{IngestResult, ingest}
use screen_airdrop.Receiver.Assembler.{
  ChunkAssembler, is_duplicate, default_generation_size, generation_accepts_coded, resolve_unit,
  global_chunk_id,
}

module _ {J : Type 0} where
  -- A chunk that is not there yet, stored and counted.
  unfoldable pub store_chunk : ChunkAssembler J → ℕ → Payload → ChunkAssembler J
  store_chunk a id payload =
      if has a.chunks id
      then a
      else record a { chunks = put a.chunks id payload; received_count = a.received_count + 1 }

  unfoldable pub materialize : ChunkAssembler J → ℕ → Dict Payload → ChunkAssembler J
  unfolding global_chunk_id store_chunk
  materialize a generation_id [] = a
  materialize a generation_id ((source_index, payload) ∷ symbols) =
      materialize (store_chunk a (global_chunk_id a generation_id source_index) payload)
        generation_id symbols

  unfoldable pub note_invalid_coded_payload : ChunkAssembler J → ChunkAssembler J
  unfolding default_generation_size get_or_create
  note_invalid_coded_payload a =
      let r = get_or_create a.generation_store a.active_generation_id (default_generation_size a) in
      record a {
        invalid_coded_payload_count = a.invalid_coded_payload_count + 1;
        generation_store =
            put r.0 a.active_generation_id
              (record r.1 { invalid_equation_count = r.1.invalid_equation_count + 1 });
      }

  -- The end of _add_unit_locked for a coded unit.
  unfoldable pub finish_recovered : ChunkAssembler J → ℕ → Dict Payload → ChunkAssembler J × Bool
  unfolding materialize
  finish_recovered a generation_id [] = (a, false)
  finish_recovered a generation_id (symbol ∷ symbols) =
      (materialize a generation_id (symbol ∷ symbols), true)

  unfoldable pub finish_coded : ChunkAssembler J → ℕ → IngestResult → ChunkAssembler J × Bool
  unfolding is_duplicate finish_recovered
  finish_coded a generation_id r =
      if is_duplicate r.status
      then (a, false)
      else finish_recovered a generation_id r.recovered_source_symbols

  module _ (random : Random) where
    -- _add_unit_locked, for a coded unit that its generation accepts or not.
    unfoldable pub add_coded_unit :
        ChunkAssembler J → CodedUnit → Bool → Result (ChunkAssembler J × Bool)
    unfolding default_generation_size finish_coded note_invalid_coded_payload ingest
    add_coded_unit a u true = do
      r ← ingest random a.generation_store (coded u) (default_generation_size a)
      ok (finish_coded (record a { generation_store = r.0 }) u.generation_id r.1)
    add_coded_unit a u false = ok (note_invalid_coded_payload a, false)

    unfoldable pub add_resolved :
        ChunkAssembler J → TransmissionUnit → Result (ChunkAssembler J × Bool)
    unfolding default_generation_size global_chunk_id store_chunk add_coded_unit
        generation_accepts_coded ingest
    add_resolved a (systematic u) = do
      r ← ingest random a.generation_store (systematic u) (default_generation_size a)
      ok (
        store_chunk (record a { generation_store = r.0 })
            (global_chunk_id a u.generation_id u.source_index) u.payload,
        true,
      )
    add_resolved a (coded u) = add_coded_unit a u (generation_accepts_coded a u.generation_id)

    unfoldable pub add_unit : ChunkAssembler J → TransmissionUnit → Result (ChunkAssembler J × Bool)
    unfolding resolve_unit add_resolved
    add_unit a unit = add_resolved a (resolve_unit a unit)
