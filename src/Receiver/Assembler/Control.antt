-- ===== src/Receiver/Assembler/Control.antt =====
-- receiver/information/assembler.py: the control items, the chunks added by their ids, and what the
-- assembler tells of the payload.
use screen_airdrop.Prelude.{
  ℕ, zero, suc, ◌+◌, ◌-◌, Bool, true, false, Option, none, some, List, [], ◌∷◌, ◌++◌, ltb, leb,
  if◌then◌else◌, length,
}
use screen_airdrop.Prelude.Dict.{Dict, get, has, put}
use screen_airdrop.Prelude.Result.{Result, ok, err, runtime_error, ◌>>=◌}
use screen_airdrop.Coding.Payload.{Payload}
use screen_airdrop.Coding.Equation.{Random}
use screen_airdrop.Units.{TransmissionUnit, systematic}
use screen_airdrop.Receiver.Store.{update_generation_size}
use screen_airdrop.Receiver.Assembler.{
  ControlKind, manifest_kind, session_kind, layout_kind, generation_kind, other_kind, kind_key,
  control_kind_from_wire_chunk_id, Manifest, GenerationInfo, SessionInfo, ControlCodec,
  ChunkAssembler, info_size, default_session_id, default_generation_size,
}
use screen_airdrop.Receiver.Assembler.Arrive.{add_unit}

-- With no generation's item yet, the manifest gives the size of generation 0.
unfoldable pub size_first :
    {J : Type 0} → ChunkAssembler J → Dict GenerationInfo → ℕ → ChunkAssembler J
unfolding update_generation_size
size_first a [] total_chunks = record a {
  generation_store = (update_generation_size a.generation_store 0 total_chunks).0;
}
size_first a (item ∷ items) total_chunks = a

unfoldable pub set_manifest : {J : Type 0} → ChunkAssembler J → Manifest → ChunkAssembler J
unfolding size_first
set_manifest a m = size_first (record a { manifest = some m }) a.generations m.total_chunks

unfoldable pub set_generation : {J : Type 0} → ChunkAssembler J → GenerationInfo → ChunkAssembler J
unfolding info_size update_generation_size
set_generation a info =
    let kept = record a { generation_info = some info } in
    elim info.generation_id [
      | none ↦ kept
      | some id ↦ record kept {
        generations = put a.generations id info;
        active_generation_id = id;
        generation_store =
            if ltb 0 (info_size info)
            then (update_generation_size a.generation_store id (info_size info)).0
            else a.generation_store;
      }
    ]

-- The item under its kind, unless one is there.
unfoldable pub keep_item :
    {J : Type 0} → ChunkAssembler J → ControlKind → Payload → ChunkAssembler J
keep_item a kind payload =
    if has a.control_items (kind_key kind)
    then a
    else record a { control_items = put a.control_items (kind_key kind) payload }

-- The unit of a chunk that is added by its id.
unfoldable pub chunk_unit : {J : Type 0} → ChunkAssembler J → ℕ → Payload → TransmissionUnit
unfolding default_session_id default_generation_size
chunk_unit a chunk_id payload = systematic (record {
  session_id = default_session_id a;
  generation_id = 0;
  generation_size = default_generation_size a;
  payload_size = length payload;
  payload = payload;
  source_index = chunk_id;
})

module _ {J : Type 0} (codec : ControlCodec J) where
  -- The first manifest, session and layout are kept.
  unfoldable pub first_manifest :
      ChunkAssembler J → Option Manifest → Payload → Result (ChunkAssembler J)
  unfolding set_manifest
  first_manifest a (some m) payload = ok a
  first_manifest a none payload = do
    m ← codec.manifest_from_json_bytes payload
    ok (set_manifest a m)

  unfoldable pub first_session :
      ChunkAssembler J → Option SessionInfo → Payload → Result (ChunkAssembler J)
  first_session a (some info) payload = ok a
  first_session a none payload = do
    info ← codec.decode_session_bootstrap payload
    ok (record a { session_info = some info })

  unfoldable pub first_layout : ChunkAssembler J → Option J → Payload → Result (ChunkAssembler J)
  first_layout a (some info) payload = ok a
  first_layout a none payload = do
    info ← codec.decode_layout_bootstrap payload
    ok (record a { layout_info = some info })

  -- The branches on the kind, after the item is kept.
  unfoldable pub read_control : ChunkAssembler J → ControlKind → Payload → Result (ChunkAssembler J)
  unfolding first_manifest first_session first_layout set_generation
  read_control a manifest_kind payload = first_manifest a a.manifest payload
  read_control a generation_kind payload = do
    info ← codec.decode_generation_control payload
    ok (set_generation a info)
  read_control a session_kind payload = first_session a a.session_info payload
  read_control a layout_kind payload = first_layout a a.layout_info payload
  read_control a (other_kind n) payload = ok a

  unfoldable pub add_control : ChunkAssembler J → ControlKind → Payload → Result (ChunkAssembler J)
  unfolding keep_item read_control
  add_control a kind payload = read_control (keep_item a kind payload) kind payload

  -- `add` of a control item's chunk, and whether a chunk with its id is there.
  unfoldable pub add_bootstrap :
      ChunkAssembler J → ℕ → ControlKind → Payload → Bool → Result (ChunkAssembler J × Bool)
  unfolding add_control
  add_bootstrap a chunk_id kind payload true = ok (a, false)
  add_bootstrap a chunk_id kind payload false = do
    b ← add_control (record a { chunks = put a.chunks chunk_id payload }) kind payload
    ok (b, true)

  module _ (random : Random) where
    unfoldable pub add_as :
        ChunkAssembler J → ℕ → Payload → Option ControlKind → Result (ChunkAssembler J × Bool)
    unfolding add_bootstrap chunk_unit add_unit
    add_as a chunk_id payload (some kind) =
        add_bootstrap a chunk_id kind payload (has a.chunks chunk_id)
    add_as a chunk_id payload none = add_unit random a (chunk_unit a chunk_id payload)

    unfoldable pub add : ChunkAssembler J → ℕ → Payload → Result (ChunkAssembler J × Bool)
    unfolding control_kind_from_wire_chunk_id add_as
    add a chunk_id payload = add_as a chunk_id payload (control_kind_from_wire_chunk_id chunk_id)

-- The loop of missing_chunk_ids from `cid` on, with `left` chunks to look at. The test on the
-- limit comes after an id is added, so a limit of 0 gives one id.
unfoldable pub missing_from : Dict Payload → ℕ → ℕ → List ℕ → ℕ → List ℕ
missing_from chunks cid zero missing max_items = missing
missing_from chunks cid (suc left) missing max_items =
    if has chunks cid
    then missing_from chunks (cid + 1) left missing max_items
    else (let more = missing ++ cid ∷ [] in
        if leb max_items (length more)
        then more
        else missing_from chunks (cid + 1) left more max_items)

-- The loop of `payload` from `cid` on, with `left` chunks to join.
unfoldable pub join_chunks : Dict Payload → ℕ → ℕ → Payload → Result Payload
join_chunks chunks cid zero parts = ok parts
join_chunks chunks cid (suc left) parts = elim (get chunks cid) [
  | none ↦ err runtime_error
  | some chunk ↦ join_chunks chunks (cid + 1) left (parts ++ chunk)
]

-- What the assembler tells, from its manifest.
unfoldable pub complete_of : Option Manifest → ℕ → Bool
complete_of none received_count = false
complete_of (some m) received_count = leb m.total_chunks received_count

unfoldable pub missing_of : Option Manifest → Dict Payload → ℕ → Option (List ℕ)
unfolding missing_from
missing_of none chunks limit = none
missing_of (some m) chunks limit = some (missing_from chunks 1 m.total_chunks [] limit)

unfoldable pub payload_of : Option Manifest → Dict Payload → Result Payload
unfolding join_chunks
payload_of none chunks = err runtime_error
payload_of (some m) chunks = join_chunks chunks 1 m.total_chunks []

module _ {J : Type 0} where
  unfoldable pub complete : ChunkAssembler J → Bool
  unfolding complete_of
  complete a = complete_of a.manifest a.received_count

  unfoldable pub missing_count : ChunkAssembler J → Option ℕ
  missing_count a = elim a.manifest [
    | none ↦ none
    | some m ↦ some (m.total_chunks - a.received_count)
  ]

  unfoldable pub missing_chunk_ids : ChunkAssembler J → ℕ → Option (List ℕ)
  unfolding missing_of
  missing_chunk_ids a limit = missing_of a.manifest a.chunks limit

  unfoldable pub payload : ChunkAssembler J → Result Payload
  unfolding payload_of
  payload a = payload_of a.manifest a.chunks
