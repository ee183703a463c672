-- ===== src/Protocol/Basic/Frame.antt =====
-- A frame's bits, encoded, and decoded from what a receiver sees of them.
use screen_airdrop.Prelude.{
  ℕ, zero, suc, ◌/◌, ◌<◌, ◌≡◌, refl, sym, subst, ap, ◌∙◌, true, false, List, [], ◌∷◌, ◌++◌, ◌==◌,
  ==_refl, ltb, length, take, drop, arith, take-append,
}
use screen_airdrop.Prelude.Result.{Result, ok}
use screen_airdrop.Coding.Payload.{Payload}
use screen_airdrop.Wire.{struct_size, to_bytes, take-packed, drop-packed, long-packed, packed}
use mathlib.Core.List.{append_assoc, append-nil}
use screen_airdrop.Wire.Crc.{crc32}
use screen_airdrop.Protocol.Bits.{bits_from_bytes, bytes_from_bits, ecc_repetition}
use screen_airdrop.Protocol.Bits.Roundtrip.{
  IsBytes, Received, bytes-bits, bits_from_bytes-IsBits, decode_repetition-Received,
}
use screen_airdrop.Protocol.Basic.{
  FrameHeaderBasic, EccLevel, ecc_l, ecc_m, ecc_q, ecc_h, ecc_to_rep, header_format, header_values,
  make_header, unpack_header, validate_payload_crc, encode_header_and_payload_bits, decode_raw,
  decode_header_and_payload_bits,
}
use screen_airdrop.Protocol.Basic.Header.{
  IsHeader, IsFrameInput, header_bytes, header_bytes-Fits, long_header, pack_header-eq,
  unpack_header-bytes, make_header-IsHeader,
}

pub ecc_to_rep-pos : (e : EccLevel) → 0 < ecc_to_rep e
ecc_to_rep-pos ecc_l = omega arith
ecc_to_rep-pos ecc_m = omega arith
ecc_to_rep-pos ecc_q = omega arith
ecc_to_rep-pos ecc_h = omega arith

decode_raw-eq :
    (h : FrameHeaderBasic) (raw bytes payload : Payload)
    → ltb (length raw) (struct_size header_format) ≡ false
    → take (struct_size header_format) raw ≡ bytes
    → unpack_header bytes ≡ ok h
    → take h.payload_len (drop (struct_size header_format) raw) ≡ payload
    → (length payload == h.payload_len) ≡ true
    → (crc32 payload == h.payload_crc32) ≡ true
    → decode_raw raw ≡ ok (h, payload)
unfolding decode_raw validate_payload_crc
decode_raw-eq h raw bytes payload long cut e body n c = rw (long, cut, e, body, n, c) refl

decode_raw-frame :
    (h : FrameHeaderBasic) (payload rest : Payload)
    → IsHeader h
    → h.payload_len ≡ length payload
    → h.payload_crc32 ≡ crc32 payload
    → decode_raw (header_bytes h ++ (payload ++ rest)) ≡ ok (h, payload)
unfolding header_bytes
decode_raw-frame h payload rest i n c =
    let values = header_values h h.header_crc32 in
    let fits = header_bytes-Fits h i in
    let tail = payload ++ rest in
    let n_eq : (length payload == h.payload_len) ≡ true = ground (arith, n) in
    let c_eq : (crc32 payload == h.payload_crc32) ≡ true = rw c (==_refl (crc32 payload)) in
    let alone : unpack_header (packed header_format values) ≡ ok h =
      ap unpack_header (sym (append-nil (packed header_format values)))
      ∙ (unfold header_bytes in unpack_header-bytes h [] i) in
    decode_raw-eq h (packed header_format values ++ tail) (packed header_format values) payload
      (long_header (packed header_format values ++ tail)
        (long-packed header_format values tail fits))
      (take-packed header_format values tail fits) alone
      (ap (take h.payload_len) (drop-packed header_format values tail fits)
        ∙ ap (λ k. take k (payload ++ rest)) n
        ∙ take-append payload rest)
      n_eq c_eq

to_bytes-IsBytes :
    (width n : ℕ) (rest : Payload) → IsBytes rest → IsBytes (to_bytes width n ++ rest)
to_bytes-IsBytes zero n rest h = h
to_bytes-IsBytes (suc width) n rest h = (omega arith, to_bytes-IsBytes width (n / 256) rest h)

packed-IsBytes :
    (format values : List ℕ) (rest : Payload)
    → IsBytes rest
    → IsBytes (packed format values ++ rest)
unfolding packed
packed-IsBytes [] values rest h = h
packed-IsBytes (width ∷ format) [] rest h = h
packed-IsBytes (width ∷ format) (n ∷ values) rest h =
    rw (append_assoc (to_bytes width n) (packed format values) rest) (
      to_bytes-IsBytes width n (packed format values ++ rest) (packed-IsBytes format values rest h))

same_header : (h k : FrameHeaderBasic) → Result.ok h ≡ ok k → h ≡ k
same_header h k e = cc

-- A header that is as `make` makes it, its payload, and the bits that arrive.
frame-Received :
    (h : FrameHeaderBasic) (payload : Payload) (ecc_level : EccLevel) (bits : List ℕ)
    → IsHeader h
    → h.payload_len ≡ length payload
    → h.payload_crc32 ≡ crc32 payload
    → IsBytes payload
    → Received 2 (ecc_to_rep ecc_level) (bits_from_bytes (header_bytes h ++ payload)) bits
    → (encode_header_and_payload_bits h payload ecc_level
        ≡ ok (ecc_repetition (bits_from_bytes (header_bytes h ++ payload)) (ecc_to_rep ecc_level)))
      × (decode_header_and_payload_bits bits ecc_level ≡ ok (h, payload))
unfolding encode_header_and_payload_bits decode_header_and_payload_bits
frame-Received h payload ecc_level bits good n c bytes r =
    let raw = header_bytes h ++ payload in
    let raw_bytes : IsBytes raw =
      unfold header_bytes in
      packed-IsBytes header_format (header_values h h.header_crc32) payload bytes in
    let (rest, d) =
      decode_repetition-Received (ecc_to_rep ecc_level) (bits_from_bytes raw) bits
        (ecc_to_rep-pos ecc_level) (bits_from_bytes-IsBits raw) r in
    (
      rw (pack_header-eq h good) refl,
      ap (λ b. decode_raw (bytes_from_bits b)) d
          ∙ ap decode_raw (bytes-bits raw rest raw_bytes)
          ∙ ap decode_raw (append_assoc (header_bytes h) payload (bytes_from_bits rest))
          ∙ decode_raw-frame h payload (bytes_from_bits rest) good n c,
    )

-- For a header that make returns from arguments that fit its fields, a payload of bytes, and an
-- ECC level, encode_header_and_payload_bits returns the repetition of the frame's bits, and from
-- received bits in which fewer than half of the copies of each bit are wrong, whatever follows
-- them, decode_header_and_payload_bits returns the header and the payload.
pub decode-encode_frame :
    (frame_type session_id epoch_id frame_id total_frames chunk_id : ℕ) (payload : Payload)
    (flags : ℕ) (ecc_level : EccLevel) (h : FrameHeaderBasic) (bits : List ℕ)
    → IsFrameInput frame_type session_id epoch_id frame_id total_frames chunk_id payload flags
    → IsBytes payload
    → make_header frame_type session_id epoch_id frame_id total_frames chunk_id payload flags ≡ ok h
    → Received 2 (ecc_to_rep ecc_level) (bits_from_bytes (header_bytes h ++ payload)) bits
    → (encode_header_and_payload_bits h payload ecc_level
        ≡ ok (ecc_repetition (bits_from_bytes (header_bytes h ++ payload)) (ecc_to_rep ecc_level)))
      × (decode_header_and_payload_bits bits ecc_level ≡ ok (h, payload))
decode-encode_frame frame_type session_id epoch_id frame_id total_frames chunk_id payload flags
      ecc_level h bits i bytes made r =
    let (k, e, good, n, c) =
      make_header-IsHeader frame_type session_id epoch_id frame_id total_frames chunk_id payload
        flags i in
    let same : k ≡ h = same_header k h (sym e ∙ made) in
    frame-Received h payload ecc_level bits (subst IsHeader same good)
      (subst (λ x. x.payload_len ≡ length payload) same n)
      (subst (λ x. x.payload_crc32 ≡ crc32 payload) same c) bytes r
