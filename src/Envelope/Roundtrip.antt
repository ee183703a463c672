-- ===== src/Envelope/Roundtrip.antt =====
-- What is encoded is decoded again.
use screen_airdrop.Prelude.{
  ℕ, ◌+◌, ◌*◌, ◌/◌, ◌%◌, ◌<◌, ◌≡◌, refl, true, false, some, ◌∷◌, ◌++◌, ◌==◌, ltb, length, arith,
}
use screen_airdrop.Prelude.Result.{ok}
use screen_airdrop.Coding.Payload.{Payload}
use screen_airdrop.Coding.Equation.{CodingScheme, gf256_seed_v1, gf256_seed_v2}
use screen_airdrop.Envelope.{
  valid, magic, envelope_version, header_size, scheme_to_wire, wire_to_scheme, pack_u16, pack_u32,
  encode_coded_payload, same_bytes, check_fields, unpack_fields, decode_coded_payload,
}

unpack-u32 :
    (n : ℕ)
    → n < 4294967296
    → n / 16777216 % 256 * 16777216 + n / 65536 % 256 * 65536 + n / 256 % 256 * 256 + n % 256 ≡ n
unpack-u32 n h = omega arith

unpack-u16 : (n : ℕ) → n < 65536 → n / 256 % 256 * 256 + n % 256 ≡ n
unpack-u16 n h = omega arith

wire_to_scheme-scheme_to_wire : (s : CodingScheme) → wire_to_scheme (scheme_to_wire s) ≡ some s
unfolding wire_to_scheme scheme_to_wire
wire_to_scheme-scheme_to_wire gf256_seed_v1 = refl
wire_to_scheme-scheme_to_wire gf256_seed_v2 = refl

-- For an equation id and a coding seed below 2 to the 32, a degree from 1 to 65535, either coding
-- scheme and a payload that is not empty, encode_coded_payload returns bytes that
-- decode_coded_payload reads as VALID, with the same fields and payload and the envelope version
-- 2.
pub decode-encode :
    (equation_id coding_seed degree : ℕ) (scheme : CodingScheme) (byte : ℕ) (rest : Payload)
    → equation_id < 4294967296
    → coding_seed < 4294967296
    → 0 < degree
    → degree < 65536
    → (bytes : Payload) × (encode_coded_payload equation_id coding_seed degree scheme (byte ∷ rest)
        ≡ ok bytes)
      × (decode_coded_payload bytes
          ≡ valid (record {
            version = 2;
            coding_scheme = scheme;
            equation_id = equation_id;
            coding_seed = coding_seed;
            degree = degree;
            payload = byte ∷ rest;
          }))
unfolding encode_coded_payload decode_coded_payload unpack_fields check_fields pack_u16 pack_u32
    same_bytes
decode-encode q c d s byte rest hq hc pos hd =
    let a : ltb q 4294967296 ≡ true = ground arith in
    let b : ltb c 4294967296 ≡ true = ground arith in
    let e : ltb d 65536 ≡ true = ground arith in
    let z : (d == 0) ≡ false = ground arith in
    let bytes : Payload =
      magic
      ++ envelope_version ∷ scheme_to_wire s ∷ pack_u32 q
      ++ pack_u32 c
      ++ pack_u16 d
      ++ byte ∷ rest in
    let long : ltb (length bytes) header_size ≡ false = ground arith in
    (
      bytes,
      rw (a, b, e) refl,
      rw
          (
            long,
            wire_to_scheme-scheme_to_wire s,
            unpack-u32 q hq,
            unpack-u32 c hc,
            unpack-u16 d hd,
            z,
          )
          refl,
    )
