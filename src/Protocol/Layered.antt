-- ===== src/Protocol/Layered.antt =====
-- protocol_layered.py: the bootstrap field and the body of a layered frame.
pub mod Bootstrap
pub mod Body
use screen_airdrop.Prelude.{
  ℕ, ◌+◌, ◌*◌, ◌/◌, ◌%◌, Bool, true, false, not, List, [], ◌∷◌, ◌++◌, ◌==◌, ltb, if◌then◌else◌,
  length, take, drop, get_or,
}
use screen_airdrop.Prelude.Result.{Result, ok, err, value_error, require, ◌>>=◌, ◌>>◌}
use screen_airdrop.Coding.Payload.{Payload}
use screen_airdrop.Wire.{struct_pack, struct_unpack, struct_size, from_bytes}
use screen_airdrop.Wire.Crc.{crc32}

abbrev pub layered_magic : ℕ
layered_magic = 0x534c

abbrev pub layered_version : ℕ
layered_version = 6

abbrev pub profile_dense : ℕ
profile_dense = 3

abbrev pub profile_robust : ℕ
profile_robust = 4

-- Struct("<HBBHH") and Struct("<IIIII")
abbrev pub bootstrap_format : List ℕ
bootstrap_format = 2 ∷ 1 ∷ 1 ∷ 2 ∷ 2 ∷ []

abbrev pub body_meta_format : List ℕ
body_meta_format = 4 ∷ 4 ∷ 4 ∷ 4 ∷ 4 ∷ []

-- layered_body_profile_wire_id
unfoldable pub profile_wire_id : ℕ → Result ℕ
profile_wire_id profile_id =
    if profile_id == profile_dense
    then ok 0
    else if profile_id == profile_robust
    then ok 1
    else err value_error

-- layered_body_profile_id_from_wire_id
unfoldable pub profile_id_from_wire_id : ℕ → Result ℕ
profile_id_from_wire_id wire_id =
    if wire_id == 0
    then ok profile_dense
    else if wire_id == 1
    then ok profile_robust
    else err value_error

pub record BootstrapFields : Type 0 where
  pub magic : ℕ
  pub version : ℕ
  pub frame_type : ℕ
  pub short_session_tag : ℕ
  pub body_profile_id : ℕ
  pub payload_len : ℕ
  pub body_mask_id : ℕ

-- The three parts of the byte do not overlap, so the disjunction is a sum.
unfoldable pub packed_mode : BootstrapFields → ℕ
packed_mode f = f.version % 8 * 32 + f.frame_type % 4 * 8 + f.body_mask_id % 8

unfoldable pub pack_without_crc : BootstrapFields → Result Payload
unfolding packed_mode profile_wire_id
pack_without_crc f = do
  wire_id ← profile_wire_id f.body_profile_id
  struct_pack bootstrap_format (
      f.magic % 65536
      ∷ packed_mode f
      ∷ wire_id % 4
      ∷ f.short_session_tag % 65536
      ∷ f.payload_len % 65536
      ∷ [])

unfoldable pub pack_bootstrap : BootstrapFields → Result Payload
unfolding pack_without_crc
pack_bootstrap f = do
  raw ← pack_without_crc f
  crc ← struct_pack (2 ∷ []) (crc32 raw % 65536 ∷ [])
  ok (raw ++ crc)

-- The fields from the parts of the struct. The profile's test of `& 0xFC` is made before.
unfoldable pub bootstrap_of : List ℕ → ℕ → BootstrapFields
bootstrap_of parts profile_id = record {
  magic = get_or parts 0 0;
  version = get_or parts 1 0 / 32 % 8;
  frame_type = get_or parts 1 0 / 8 % 4;
  short_session_tag = get_or parts 3 0;
  body_profile_id = profile_id;
  payload_len = get_or parts 4 0;
  body_mask_id = get_or parts 1 0 % 8;
}

unfoldable pub check_bootstrap : BootstrapFields → Result BootstrapFields
check_bootstrap f = do
  require (f.magic == layered_magic) value_error
  require (f.version == layered_version) value_error
  require (ltb f.frame_type 3) value_error
  ok f

unfoldable pub unpack_bootstrap : Payload → Result BootstrapFields
unfolding profile_id_from_wire_id bootstrap_of check_bootstrap
unpack_bootstrap bytes =
    let raw = take (struct_size bootstrap_format) bytes in
    let crc_expected = from_bytes (take 2 (drop (struct_size bootstrap_format) bytes)) in
    let parts = struct_unpack bootstrap_format raw in
    do
      require (not (ltb (length bytes) (struct_size bootstrap_format + 2))) value_error
      require (crc32 raw % 65536 == crc_expected) value_error
      require (get_or parts 2 0 / 4 == 0) value_error
      profile_id ← profile_id_from_wire_id (get_or parts 2 0 % 4)
      check_bootstrap (bootstrap_of parts profile_id)

pub record LayeredBodyMeta : Type 0 where
  pub total_frames : ℕ
  pub chunk_id : ℕ
  pub payload_crc32 : ℕ
  pub epoch_id : ℕ
  pub frame_id : ℕ

abbrev pub meta_values : LayeredBodyMeta → List ℕ
meta_values m = m.total_frames ∷ m.chunk_id ∷ m.payload_crc32 ∷ m.epoch_id ∷ m.frame_id ∷ []

unfoldable pub pack_meta : LayeredBodyMeta → Result Payload
pack_meta m = struct_pack body_meta_format (meta_values m)

abbrev pub meta_of : List ℕ → LayeredBodyMeta
meta_of parts = record {
  total_frames = get_or parts 0 0;
  chunk_id = get_or parts 1 0;
  payload_crc32 = get_or parts 2 0;
  epoch_id = get_or parts 3 0;
  frame_id = get_or parts 4 0;
}

unfoldable pub unpack_meta : Payload → Result LayeredBodyMeta
unpack_meta bytes = do
  require (not (ltb (length bytes) (struct_size body_meta_format))) value_error
  ok (meta_of (struct_unpack body_meta_format (take (struct_size body_meta_format) bytes)))

unfoldable pub build_body_raw_bytes : LayeredBodyMeta → Payload → Result Payload
unfolding pack_meta
build_body_raw_bytes m payload = do
  head ← pack_meta m
  trailer ← struct_pack (4 ∷ []) (crc32 (head ++ payload) ∷ [])
  ok ((head ++ payload) ++ trailer)

unfoldable pub decode_body_raw_bytes : Payload → ℕ → Result (LayeredBodyMeta × Payload)
unfolding unpack_meta
decode_body_raw_bytes bytes payload_len =
    let plain_len = struct_size body_meta_format + payload_len in
    let body_plain = take plain_len bytes in
    let body_crc_expected = from_bytes (take 4 (drop plain_len bytes)) in
    do
      require (not (ltb (length bytes) (plain_len + 4))) value_error
      require (crc32 body_plain == body_crc_expected) value_error
      m ← unpack_meta (take (struct_size body_meta_format) body_plain)
      ok (m, take payload_len (drop (struct_size body_meta_format) body_plain))
