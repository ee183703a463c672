-- ===== src/Examples/Frames.antt =====
-- Frames of a payload of two bytes, as sent and as received.
use screen_airdrop.Prelude.{ℕ, ◌≡◌, refl, List, [], ◌∷◌, ◌++◌, arith}
use screen_airdrop.Prelude.Result.{ok}
use screen_airdrop.Coding.Payload.{Payload}
use screen_airdrop.Wire.{struct_pack}
use screen_airdrop.Wire.Crc.{crc32, crc16_ccitt_false}
use screen_airdrop.Protocol.Bits.{bits_from_bytes, ecc_repetition, decode_repetition}
use screen_airdrop.Protocol.Bits.Roundtrip.{
  flips, bits_from_bytes-IsBits, decode_repetition-Received, ecc_repetition-Received,
}
use screen_airdrop.Protocol.Basic.{
  FormatInfoBasic, FrameHeaderBasic, ecc_m, ecc_to_rep, format_magic, header_magic, header_version,
  pack_format, unpack_format, make_header, encode_header_and_payload_bits,
  decode_header_and_payload_bits,
}
use screen_airdrop.Protocol.Basic.Format.{unpack-pack_format}
use screen_airdrop.Protocol.Basic.Header.{header_bytes}
use screen_airdrop.Protocol.Basic.Frame.{decode-encode_frame}

-- The check values of the two checksums, of the digits 1 to 9.
abbrev digits : Payload
digits = 49 ∷ 50 ∷ 51 ∷ 52 ∷ 53 ∷ 54 ∷ 55 ∷ 56 ∷ 57 ∷ []

crc32_check : crc32 digits ≡ 0xcbf43926
unfolding crc32
crc32_check = refl

crc16_check : crc16_ccitt_false digits 0xffff ≡ 0x29b1
unfolding crc16_ccitt_false
crc16_check = refl

abbrev two_bytes : Payload
two_bytes = 8 ∷ 159 ∷ []

-- One of the three copies of the last bit is wrong.
vote_example :
    (rest : List ℕ) × (decode_repetition (1 ∷ 1 ∷ 1 ∷ 0 ∷ 1 ∷ 0 ∷ []) 3 ≡ (1 ∷ 0 ∷ []) ++ rest)
unfolding flips
vote_example =
    decode_repetition-Received 3 (1 ∷ 0 ∷ []) (1 ∷ 1 ∷ 1 ∷ 0 ∷ 1 ∷ 0 ∷ []) (omega arith)
      (omega arith, (omega arith, tt))
      (
        omega arith,
        (omega arith, (omega arith, (omega arith, tt))),
        omega arith,
        (omega arith, (omega arith, (omega arith, (omega arith, tt))), omega arith, tt),
      )

abbrev format : FormatInfoBasic
format = record {
  magic = format_magic;
  version = 3;
  frame_type = 1;
  mask_id = 2;
  ecc_id = 1;
  reserved = 0;
}

format_example :
    (bytes : Payload) × (pack_format format ≡ ok bytes)
    × (unpack_format (bytes ++ two_bytes) ≡ ok format)
format_example = unpack-pack_format format two_bytes (record {
  magic = refl;
  version = omega arith;
  frame_type = omega arith;
  mask_id = omega arith;
  ecc_id = omega arith;
  reserved = omega arith;
})

abbrev header : FrameHeaderBasic
header = record {
  magic = header_magic;
  version = header_version;
  frame_type = 1;
  flags = 3;
  session_id = 77;
  epoch_id = 0;
  frame_id = 9;
  total_frames = 40;
  chunk_id = 5;
  payload_len = 2;
  header_crc32 = 3518515490;
  payload_crc32 = 3920631330;
}

header-made : make_header 1 77 0 9 40 5 two_bytes 3 ≡ ok header
unfolding make_header struct_pack crc32
header-made = refl

-- What is sent on the level M, two copies of each bit.
abbrev frame_bits : List ℕ
frame_bits = ecc_repetition (bits_from_bytes (header_bytes header ++ two_bytes)) 2 ++ []

frame_example :
    (encode_header_and_payload_bits header two_bytes ecc_m
      ≡ ok (ecc_repetition (bits_from_bytes (header_bytes header ++ two_bytes)) (ecc_to_rep ecc_m)))
    × (decode_header_and_payload_bits frame_bits ecc_m ≡ ok (header, two_bytes))
frame_example =
    decode-encode_frame 1 77 0 9 40 5 two_bytes 3 ecc_m header frame_bits
      (record {
        frame_type_lt = omega arith;
        flags_lt = omega arith;
        session_id_lt = omega arith;
        epoch_id_lt = omega arith;
        frame_id_lt = omega arith;
        total_frames_lt = omega arith;
        chunk_id_lt = omega arith;
        payload_lt = omega arith;
      })
      (omega arith, (omega arith, tt)) header-made
      (ecc_repetition-Received 2 2 (bits_from_bytes (header_bytes header ++ two_bytes)) []
        (omega arith) (bits_from_bytes-IsBits (header_bytes header ++ two_bytes)))

-- A header and a payload of one byte each, three copies of a symbol, of which one is wrong.
abbrev symbols : List ℕ
symbols =
    0 ∷ 3 ∷ 0 ∷ 0 ∷ 0 ∷ 0 ∷ 2 ∷ 2 ∷ 2 ∷ 0 ∷ 0 ∷ 0 ∷ 2 ∷ 2 ∷ 2 ∷ 1 ∷ 1 ∷ 1 ∷ 3 ∷ 3 ∷ 3 ∷ 3 ∷ 3 ∷ 0
    ∷ []
