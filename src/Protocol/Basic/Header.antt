-- ===== src/Protocol/Basic/Header.antt =====
-- The frame header, made, packed and unpacked.
use screen_airdrop.Prelude.{
  ℕ, ◌<◌, ◌≤◌, ◌≡◌, refl, sym, ap, ◌∙◌, true, false, ◌++◌, ◌==◌, ==_refl, ltb, length, take, arith,
}
use screen_airdrop.Prelude.Result.{ok}
use screen_airdrop.Coding.Payload.{Payload}
use screen_airdrop.Wire.{
  struct_unpack, struct_size, Fits, packed, struct_pack-packed, struct_unpack_exact, take-packed,
  long-packed,
}
use screen_airdrop.Wire.Crc.{crc32, crc32-lt}
use screen_airdrop.Protocol.Basic.{
  FrameHeaderBasic, header_format, header_magic, header_version, header_values, header_of,
  pack_with_crc, compute_header_crc, pack_header, unsigned_header, make_header, check_header,
  unpack_header,
}

-- The fields fit, and the header's checksum is that of its bytes with a checksum of 0.
pub record IsHeader (h : FrameHeaderBasic) : Type 0 where
  pub magic : h.magic ≡ header_magic
  pub version : h.version ≡ header_version
  pub frame_type : h.frame_type < 256
  pub flags : h.flags < 65536
  pub session_id : h.session_id < 18446744073709551616
  pub epoch_id : h.epoch_id < 4294967296
  pub frame_id : h.frame_id < 4294967296
  pub total_frames : h.total_frames < 4294967296
  pub chunk_id : h.chunk_id < 4294967296
  pub payload_len : h.payload_len < 65536
  pub payload_crc32 : h.payload_crc32 < 4294967296
  pub header_crc32 : h.header_crc32 ≡ crc32 (packed header_format (header_values h 0))

-- The header with another checksum fits.
header-Fits :
    (h : FrameHeaderBasic) (crc : ℕ)
    → IsHeader h
    → crc < 4294967296
    → Fits header_format (header_values h crc)
header-Fits h crc i c = (
  rw i.magic (omega arith),
  (
    rw i.version (omega arith),
    (
      i.frame_type,
      (
        i.flags,
        (
          i.session_id,
          (
            i.epoch_id,
            (
              i.frame_id,
              (i.total_frames, (i.chunk_id, (i.payload_len, (c, (i.payload_crc32, tt))))),
            ),
          ),
        ),
      ),
    ),
  ),
)

unfoldable pub header_bytes : FrameHeaderBasic → Payload
header_bytes h = packed header_format (header_values h h.header_crc32)

crc_small : (h : FrameHeaderBasic) → IsHeader h → h.header_crc32 < 4294967296
crc_small h i = rw i.header_crc32 (crc32-lt (packed header_format (header_values h 0)))

pub pack_header-eq : (h : FrameHeaderBasic) → IsHeader h → pack_header h ≡ ok (header_bytes h)
unfolding pack_header pack_with_crc header_bytes
pack_header-eq h i =
    struct_pack-packed header_format (header_values h h.header_crc32)
      (header-Fits h h.header_crc32 i (crc_small h i))

compute_header_crc-eq :
    (h : FrameHeaderBasic) → IsHeader h → compute_header_crc h ≡ ok h.header_crc32
unfolding compute_header_crc pack_with_crc
compute_header_crc-eq h i =
    rw (struct_pack-packed header_format (header_values h 0) (header-Fits h 0 i (omega arith)))
      (ap ok (sym i.header_crc32))

check_header-eq : (h : FrameHeaderBasic) → IsHeader h → check_header h ≡ ok h
unfolding check_header
check_header-eq h i =
    let m : (h.magic == header_magic) ≡ true = rw i.magic refl in
    let v : (h.version == header_version) ≡ true = rw i.version refl in
    rw (m, v, compute_header_crc-eq h i, ==_refl h.header_crc32) refl

unpack_header-eq :
    (h : FrameHeaderBasic) (bytes : Payload)
    → ltb (length bytes) (struct_size header_format) ≡ false
    → header_of (struct_unpack header_format (take (struct_size header_format) bytes)) ≡ h
    → check_header h ≡ ok h
    → unpack_header bytes ≡ ok h
unfolding unpack_header
unpack_header-eq h bytes long fields good = rw long (ap check_header fields ∙ good)

pub long_header : (bytes : Payload) → 42 ≤ length bytes → ltb (length bytes) 42 ≡ false
long_header bytes h = ground arith

pub header_bytes-Fits :
    (h : FrameHeaderBasic) → IsHeader h → Fits header_format (header_values h h.header_crc32)
header_bytes-Fits h i = header-Fits h h.header_crc32 i (crc_small h i)

-- A header that is as `make` makes it is unpacked from its bytes.
pub unpack_header-bytes :
    (h : FrameHeaderBasic) (rest : Payload)
    → IsHeader h
    → unpack_header (header_bytes h ++ rest) ≡ ok h
unfolding header_bytes
unpack_header-bytes h rest i =
    let values = header_values h h.header_crc32 in
    let fits = header-Fits h h.header_crc32 i (crc_small h i) in
    let bytes = packed header_format values ++ rest in
    unpack_header-eq h bytes (long_header bytes (long-packed header_format values rest fits))
      (ap (λ b. header_of (struct_unpack header_format b))
          (take-packed header_format values rest fits)
        ∙ ap header_of (struct_unpack_exact header_format values fits))
      (check_header-eq h i)

-- The arguments of `make` fit the header's fields.
pub record IsFrameInput (frame_type session_id epoch_id frame_id total_frames chunk_id : ℕ)
    (payload : Payload) (flags : ℕ) : Type 0 where
  pub frame_type_lt : frame_type < 256
  pub flags_lt : flags < 65536
  pub session_id_lt : session_id < 18446744073709551616
  pub epoch_id_lt : epoch_id < 4294967296
  pub frame_id_lt : frame_id < 4294967296
  pub total_frames_lt : total_frames < 4294967296
  pub chunk_id_lt : chunk_id < 4294967296
  pub payload_lt : length payload < 65536

-- `make` returns a header for the payload.
pub make_header-IsHeader :
    (frame_type session_id epoch_id frame_id total_frames chunk_id : ℕ) (payload : Payload)
    (flags : ℕ)
    → IsFrameInput frame_type session_id epoch_id frame_id total_frames chunk_id payload flags
    → (h : FrameHeaderBasic) × (make_header frame_type session_id epoch_id frame_id total_frames
          chunk_id payload flags
        ≡ ok h)
      × IsHeader h
      × (h.payload_len ≡ length payload)
      × (h.payload_crc32 ≡ crc32 payload)
unfolding make_header unsigned_header compute_header_crc pack_with_crc
make_header-IsHeader frame_type session_id epoch_id frame_id total_frames chunk_id payload flags i =
    let u =
      unsigned_header frame_type session_id epoch_id frame_id total_frames chunk_id payload flags in
    let crc = crc32 (packed header_format (header_values u 0)) in
    let h : FrameHeaderBasic = record u { header_crc32 = crc } in
    let good : IsHeader h = record {
      magic = refl;
      version = refl;
      frame_type = i.frame_type_lt;
      flags = i.flags_lt;
      session_id = i.session_id_lt;
      epoch_id = i.epoch_id_lt;
      frame_id = i.frame_id_lt;
      total_frames = i.total_frames_lt;
      chunk_id = i.chunk_id_lt;
      payload_len = i.payload_lt;
      payload_crc32 = crc32-lt payload;
      header_crc32 = refl;
    } in
    (
      h,
      rw (struct_pack-packed header_format (header_values u 0) (header-Fits h 0 good (omega arith)))
          refl,
      good,
      refl,
      refl,
    )
