-- ===== src/Protocol/Basic.antt =====
-- protocol_basic.py: the format field and the frame header with their checks, and a frame's bits.
pub mod Format
pub mod Header
pub mod Frame
use screen_airdrop.Prelude.{
  ℕ, ◌+◌, ◌%◌, Bool, not, List, [], ◌∷◌, ◌++◌, ◌==◌, ltb, if◌then◌else◌, length, take, drop, get_or,
}
use screen_airdrop.Prelude.Result.{Result, ok, err, e2003, e2004, require, ◌>>=◌, ◌>>◌}
use screen_airdrop.Coding.Payload.{Payload}
use screen_airdrop.Wire.{struct_pack, struct_unpack, struct_size, from_bytes}
use screen_airdrop.Wire.Crc.{crc32}
use screen_airdrop.Protocol.Bits.{
  bits_from_bytes, bytes_from_bits, ecc_repetition, decode_repetition,
}

abbrev pub header_magic : ℕ
header_magic = 0x5341_5233

abbrev pub header_version : ℕ
header_version = 3

abbrev pub format_magic : ℕ
format_magic = 0xa35d

-- Struct("<IBBHQIIIIHII") and Struct("<HBBBBH")
abbrev pub header_format : List ℕ
header_format = 4 ∷ 1 ∷ 1 ∷ 2 ∷ 8 ∷ 4 ∷ 4 ∷ 4 ∷ 4 ∷ 2 ∷ 4 ∷ 4 ∷ []

abbrev pub format_format : List ℕ
format_format = 2 ∷ 1 ∷ 1 ∷ 1 ∷ 1 ∷ 2 ∷ []

pub data EccLevel : Type 0 where
  ecc_l ecc_m ecc_q ecc_h : EccLevel

abbrev pub ecc_to_rep : EccLevel → ℕ
ecc_to_rep ecc_l = 1
ecc_to_rep ecc_m = 2
ecc_to_rep ecc_q = 3
ecc_to_rep ecc_h = 4

unfoldable pub validate_payload_crc : ℕ → Payload → Result (Unit {0})
validate_payload_crc payload_crc32 payload = require (crc32 payload == payload_crc32) e2004

pub record FormatInfoBasic : Type 0 where
  pub magic : ℕ
  pub version : ℕ
  pub frame_type : ℕ
  pub mask_id : ℕ
  pub ecc_id : ℕ
  pub reserved : ℕ

unfoldable pub pack_format : FormatInfoBasic → Result Payload
pack_format f = do
  raw ←
      struct_pack format_format
        (f.magic ∷ f.version ∷ f.frame_type ∷ f.mask_id ∷ f.ecc_id ∷ f.reserved ∷ [])
  parity ← struct_pack (2 ∷ []) (crc32 raw % 65536 ∷ [])
  ok (raw ++ parity)

abbrev pub format_of : List ℕ → FormatInfoBasic
format_of parts = record {
  magic = get_or parts 0 0;
  version = get_or parts 1 0;
  frame_type = get_or parts 2 0;
  mask_id = get_or parts 3 0;
  ecc_id = get_or parts 4 0;
  reserved = get_or parts 5 0;
}

unfoldable pub unpack_format : Payload → Result FormatInfoBasic
unpack_format bytes =
    let raw = take (struct_size format_format) bytes in
    let parity_expected = from_bytes (take 2 (drop (struct_size format_format) bytes)) in
    let f = format_of (struct_unpack format_format raw) in
    do
      require (not (ltb (length bytes) (struct_size format_format + 2))) e2003
      require (crc32 raw % 65536 == parity_expected) e2003
      require (f.magic == format_magic) e2003
      ok f

pub record FrameHeaderBasic : Type 0 where
  pub magic : ℕ
  pub version : ℕ
  pub frame_type : ℕ
  pub flags : ℕ
  pub session_id : ℕ
  pub epoch_id : ℕ
  pub frame_id : ℕ
  pub total_frames : ℕ
  pub chunk_id : ℕ
  pub payload_len : ℕ
  pub header_crc32 : ℕ
  pub payload_crc32 : ℕ

-- The fields in the order of the struct, with another header checksum.
abbrev pub header_values : FrameHeaderBasic → ℕ → List ℕ
header_values h header_crc32 =
    h.magic ∷ h.version ∷ h.frame_type ∷ h.flags ∷ h.session_id ∷ h.epoch_id ∷ h.frame_id
    ∷ h.total_frames ∷ h.chunk_id ∷ h.payload_len ∷ header_crc32 ∷ h.payload_crc32 ∷ []

-- _pack_with_crc
unfoldable pub pack_with_crc : FrameHeaderBasic → ℕ → Result Payload
pack_with_crc h header_crc32 = struct_pack header_format (header_values h header_crc32)

unfoldable pub compute_header_crc : FrameHeaderBasic → Result ℕ
unfolding pack_with_crc
compute_header_crc h = do bytes ← pack_with_crc h 0; ok (crc32 bytes)

unfoldable pub pack_header : FrameHeaderBasic → Result Payload
unfolding pack_with_crc
pack_header h = pack_with_crc h h.header_crc32

-- The header that `make` begins with, its own checksum still 0.
unfoldable pub unsigned_header : ℕ → ℕ → ℕ → ℕ → ℕ → ℕ → Payload → ℕ → FrameHeaderBasic
unsigned_header frame_type session_id epoch_id frame_id total_frames chunk_id payload flags =
    record {
      magic = header_magic;
      version = header_version;
      frame_type = frame_type;
      flags = flags;
      session_id = session_id;
      epoch_id = epoch_id;
      frame_id = frame_id;
      total_frames = total_frames;
      chunk_id = chunk_id;
      payload_len = length payload;
      header_crc32 = 0;
      payload_crc32 = crc32 payload;
    }

unfoldable pub make_header : ℕ → ℕ → ℕ → ℕ → ℕ → ℕ → Payload → ℕ → Result FrameHeaderBasic
unfolding unsigned_header compute_header_crc
make_header frame_type session_id epoch_id frame_id total_frames chunk_id payload flags =
    let header =
      unsigned_header frame_type session_id epoch_id frame_id total_frames chunk_id payload flags in
    do crc ← compute_header_crc header; ok (record header { header_crc32 = crc })

abbrev pub header_of : List ℕ → FrameHeaderBasic
header_of parts = record {
  magic = get_or parts 0 0;
  version = get_or parts 1 0;
  frame_type = get_or parts 2 0;
  flags = get_or parts 3 0;
  session_id = get_or parts 4 0;
  epoch_id = get_or parts 5 0;
  frame_id = get_or parts 6 0;
  total_frames = get_or parts 7 0;
  chunk_id = get_or parts 8 0;
  payload_len = get_or parts 9 0;
  header_crc32 = get_or parts 10 0;
  payload_crc32 = get_or parts 11 0;
}

-- The checks of `unpack` on the unpacked header.
unfoldable pub check_header : FrameHeaderBasic → Result FrameHeaderBasic
unfolding compute_header_crc
check_header h = do
  require (h.magic == header_magic) e2003
  require (h.version == header_version) e2003
  crc ← compute_header_crc h
  require (crc == h.header_crc32) e2003
  ok h

unfoldable pub unpack_header : Payload → Result FrameHeaderBasic
unfolding check_header
unpack_header bytes =
    let h = header_of (struct_unpack header_format (take (struct_size header_format) bytes)) in
    do require (not (ltb (length bytes) (struct_size header_format))) e2003; check_header h

unfoldable pub encode_header_and_payload_bits :
    FrameHeaderBasic → Payload → EccLevel → Result (List ℕ)
unfolding pack_header
encode_header_and_payload_bits h payload ecc_level = do
  bytes ← pack_header h
  ok (ecc_repetition (bits_from_bytes (bytes ++ payload)) (ecc_to_rep ecc_level))

-- The part of decode_header_and_payload_bits from the decoded bytes on.
unfoldable pub decode_raw : Payload → Result (FrameHeaderBasic × Payload)
unfolding unpack_header validate_payload_crc
decode_raw raw = do
  require (not (ltb (length raw) (struct_size header_format))) e2003
  h ← unpack_header (take (struct_size header_format) raw)
  let payload = take h.payload_len (drop (struct_size header_format) raw)
  require (length payload == h.payload_len) e2003
  validate_payload_crc h.payload_crc32 payload
  ok (h, payload)

unfoldable pub decode_header_and_payload_bits :
    List ℕ → EccLevel → Result (FrameHeaderBasic × Payload)
unfolding decode_raw
decode_header_and_payload_bits bits ecc_level =
    decode_raw (bytes_from_bits (decode_repetition bits (ecc_to_rep ecc_level)))
