-- ===== src/Receiver/Assembler.antt =====
-- receiver/information/assembler.py and common/control_plane.py: the chunks of the payload, the
-- control items, and the units given to the information decoder. A lock is held during each
-- operation. The decoding of the JSON control items is an argument; the numbers in them are natural
-- numbers, 0 where the code's default is 0, and an item or field that the assembler only keeps is a
-- value of the type `J`. What the objects hold after an exception is not modelled.
pub mod Arrive
pub mod Control
pub mod Chunks
pub mod Assembled
pub mod Counted
pub mod Same
pub mod Runs
pub mod Session
use screen_airdrop.Prelude.{
  ℕ, zero, suc, ◌+◌, ◌-◌, Bool, true, false, not, ◌||◌, Option, none, some, List, [], ◌∷◌, ◌++◌,
  ◌==◌, ltb, leb, if◌then◌else◌, length,
}
use screen_airdrop.Prelude.Dict.{Dict, get, has, put}
use screen_airdrop.Prelude.Result.{Result, ok, err, runtime_error, ◌>>=◌}
use screen_airdrop.Coding.Payload.{Payload}
use screen_airdrop.Coding.Equation.{CodingScheme, Random}
use screen_airdrop.Units.{SystematicUnit, CodedUnit, TransmissionUnit, systematic, coded}
use screen_airdrop.Receiver.Store.{GenerationStore, update_generation_size, get_or_create}
use screen_airdrop.Receiver.Decoder.{IngestResult, IngestStatus, ingested_duplicate, ingest}

pub data ControlKind : Type 0 where
  manifest_kind session_kind layout_kind generation_kind : ControlKind
  other_kind : ℕ → ControlKind

-- The key of a kind in `control_items`.
abbrev pub kind_key : ControlKind → ℕ
kind_key manifest_kind = 0
kind_key session_kind = 1
kind_key layout_kind = 2
kind_key generation_kind = 3
kind_key (other_kind n) = n + 4

abbrev pub wire_chunk_id_to_control_kind : Dict ControlKind
wire_chunk_id_to_control_kind =
    (0, manifest_kind)
    ∷ (0xfffffffc, generation_kind)
    ∷ (0xfffffffd, session_kind)
    ∷ (0xfffffffe, layout_kind)
    ∷ []

unfoldable pub control_kind_from_wire_chunk_id : ℕ → Option ControlKind
control_kind_from_wire_chunk_id id = get wire_chunk_id_to_control_kind id

-- The fields of the manifest that the assembler reads.
pub record Manifest : Type 0 where
  pub session_id : ℕ
  pub total_chunks : ℕ

-- A generation's control item. `generation_id` is `none` where it is missing or negative, and
-- `coded_payload_envelope` where it names no coding scheme of the two.
pub record GenerationInfo : Type 0 where
  pub generation_id : Option ℕ
  pub generation_size : ℕ
  pub payload_chunk_count : ℕ
  pub source_index_base : ℕ
  pub coded_payload_envelope : Option CodingScheme

pub record SessionInfo : Type 0 where
  pub session_id : Option ℕ

pub record ControlCodec (J : Type 0) : Type 0 where
  pub manifest_from_json_bytes : Payload → Result Manifest
  pub decode_generation_control : Payload → Result GenerationInfo
  pub decode_session_bootstrap : Payload → Result SessionInfo
  pub decode_layout_bootstrap : Payload → Result J

pub record ChunkAssembler (J : Type 0) : Type 0 where
  pub chunks : Dict Payload
  pub manifest : Option Manifest
  pub control_items : Dict Payload
  pub generation_info : Option GenerationInfo
  pub generations : Dict GenerationInfo
  pub session_info : Option SessionInfo
  pub layout_info : Option J
  pub received_count : ℕ
  pub generation_store : GenerationStore
  pub active_generation_id : ℕ
  pub invalid_coded_payload_count : ℕ

abbrev pub new_assembler : {J : Type 0} → ChunkAssembler J
new_assembler = record {
  chunks = [];
  manifest = none;
  control_items = [];
  generation_info = none;
  generations = [];
  session_info = none;
  layout_info = none;
  received_count = 0;
  generation_store = [];
  active_generation_id = 0;
  invalid_coded_payload_count = 0;
}

unfoldable pub is_duplicate : IngestStatus → Bool
is_duplicate ingested_duplicate = true
is_duplicate _ = false

-- `a or b` on integers.
unfoldable pub nonzero_or : ℕ → ℕ → ℕ
nonzero_or a b = if a == 0 then b else a

-- `info.get("generation_size", 0) or 0`, and `payload_chunk_count` where that is 0.
unfoldable pub info_size : GenerationInfo → ℕ
unfolding nonzero_or
info_size info = nonzero_or info.generation_size info.payload_chunk_count

module _ {J : Type 0} where
  unfoldable pub manifest_session_id : ChunkAssembler J → ℕ
  manifest_session_id a = elim a.manifest [ some m ↦ m.session_id | none ↦ 0 ]

  unfoldable pub default_session_id : ChunkAssembler J → ℕ
  unfolding manifest_session_id
  default_session_id a = elim a.session_info [
    | none ↦ manifest_session_id a
    | some info ↦ elim info.session_id [ none ↦ manifest_session_id a | some id ↦ id ]
  ]

  unfoldable pub default_generation_size : ChunkAssembler J → ℕ
  unfolding info_size
  default_generation_size a = elim a.manifest [
    | some m ↦ m.total_chunks
    | none ↦ elim a.generation_info [ some info ↦ info_size info | none ↦ 0 ]
  ]

  unfoldable pub active_generation_info : ChunkAssembler J → Option GenerationInfo
  active_generation_info a = get a.generations a.active_generation_id

  -- `self.generations.get(id) or active`: an item that is there is a dictionary with a
  -- `generation_id`, so it is true.
  unfoldable pub info_for : ChunkAssembler J → ℕ → Option GenerationInfo
  unfolding active_generation_info
  info_for a generation_id = elim (get a.generations generation_id) [
    | some info ↦ some info
    | none ↦ active_generation_info a
  ]

  unfoldable pub generation_accepts_coded : ChunkAssembler J → ℕ → Bool
  unfolding info_for
  generation_accepts_coded a generation_id = elim (info_for a generation_id) [
    | none ↦ false
    | some info ↦ elim info.coded_payload_envelope [ none ↦ false | some scheme ↦ true ]
  ]

  -- _resolve_unit_locked: the item of the unit's generation, its id, and its size.
  unfoldable pub unit_info : ChunkAssembler J → ℕ → ℕ → Option GenerationInfo
  unfolding active_generation_info info_for
  unit_info a generation_id generation_size =
      if generation_size == 0 then active_generation_info a else info_for a generation_id

  unfoldable pub active_id : ChunkAssembler J → ℕ → ℕ
  unfolding active_generation_info nonzero_or
  active_id a generation_id = elim (active_generation_info a) [
    | none ↦ generation_id
    | some info ↦ elim info.generation_id [
      | none ↦ generation_id
      | some id ↦ nonzero_or id generation_id
    ]
  ]

  unfoldable pub resolved_id : ChunkAssembler J → ℕ → ℕ → ℕ
  unfolding active_id
  resolved_id a generation_id generation_size =
      if generation_size == 0
      then active_id a generation_id
      else (if has a.generations generation_id then generation_id else active_id a generation_id)

  unfoldable pub resolved_size : ChunkAssembler J → ℕ → ℕ → ℕ
  unfolding unit_info nonzero_or
  resolved_size a generation_id generation_size = elim (unit_info a generation_id generation_size) [
    | none ↦ generation_size
    | some info ↦
        let size = nonzero_or info.generation_size generation_size in
        if size == 0 then nonzero_or info.payload_chunk_count size else size
  ]

  unfoldable pub resolve_unit : ChunkAssembler J → TransmissionUnit → TransmissionUnit
  unfolding resolved_id resolved_size
  resolve_unit a (systematic u) = systematic (record u {
    generation_id = resolved_id a u.generation_id u.generation_size;
    generation_size = resolved_size a u.generation_id u.generation_size;
    payload_size = length u.payload;
  })
  resolve_unit a (coded u) = coded (record u {
    generation_id = resolved_id a u.generation_id u.generation_size;
    generation_size = resolved_size a u.generation_id u.generation_size;
    payload_size = length u.payload;
  })

  -- Both last branches of the code give the unit's source index.
  unfoldable pub global_chunk_id : ChunkAssembler J → ℕ → ℕ → ℕ
  global_chunk_id a generation_id source_index = elim (get a.generations generation_id) [
    | none ↦ source_index
    | some info ↦
        if ltb 0 info.source_index_base
        then info.source_index_base + source_index - 1
        else source_index
  ]
