-- ===== src/Envelope.antt =====
-- common/transport/coded_payload.py: the envelope of a coded payload. `struct.Struct(">8sBBIIH")`
-- packs big-endian integers of 1, 1, 4, 4 and 2 bytes after the magic; `pack` raises struct.error
-- for a number that does not fit its field.
pub mod Roundtrip
use Prim.Native.String.{String}
use screen_airdrop.Prelude.{
  ℕ, zero, suc, ◌+◌, ◌*◌, ◌/◌, ◌%◌, ◌^◌, ◌≡◌, refl, Bool, true, false, ◌&&◌, Option, none, some,
  List, [], ◌∷◌, ◌++◌, ◌==◌, ltb, if◌then◌else◌, length, take, drop,
}
use screen_airdrop.Prelude.Result.{Result, ok, struct_error, require, ◌>>◌}
use screen_airdrop.Coding.Payload.{Payload}
use screen_airdrop.Coding.Equation.{CodingScheme, gf256_seed_v1, gf256_seed_v2}

-- b"SARCODE1"
abbrev pub magic : Payload
magic = 83 ∷ 65 ∷ 82 ∷ 67 ∷ 79 ∷ 68 ∷ 69 ∷ 49 ∷ []

abbrev pub envelope_version : ℕ
envelope_version = 2

abbrev pub header_size : ℕ
header_size = 20

unfoldable pub scheme_to_wire : CodingScheme → ℕ
scheme_to_wire gf256_seed_v1 = 1
scheme_to_wire gf256_seed_v2 = 2

unfoldable pub wire_to_scheme : ℕ → Option CodingScheme
wire_to_scheme wire_id =
    if wire_id == 1 then some gf256_seed_v1 else if wire_id == 2 then some gf256_seed_v2 else none

pub record DecodedCodedPayload : Type 0 where
  pub version : ℕ
  pub coding_scheme : CodingScheme
  pub equation_id : ℕ
  pub coding_seed : ℕ
  pub degree : ℕ
  pub payload : Payload

-- A parse result has `decoded` in the status VALID, and `error` in the status MALFORMED.
pub data CodedPayloadParseResult : Type 0 where
  not_coded : CodedPayloadParseResult
  malformed : String → CodedPayloadParseResult
  valid : DecodedCodedPayload → CodedPayloadParseResult

unfoldable pub pack_u16 : ℕ → Payload
pack_u16 n = n / 256 % 256 ∷ n % 256 ∷ []

unfoldable pub pack_u32 : ℕ → Payload
pack_u32 n = n / 16777216 % 256 ∷ n / 65536 % 256 ∷ n / 256 % 256 ∷ n % 256 ∷ []

unfoldable pub encode_coded_payload : ℕ → ℕ → ℕ → CodingScheme → Payload → Result Payload
unfolding scheme_to_wire pack_u16 pack_u32
encode_coded_payload equation_id coding_seed degree coding_scheme payload = do
  require (ltb equation_id 4294967296) struct_error
  require (ltb coding_seed 4294967296) struct_error
  require (ltb degree 65536) struct_error
  ok (
      magic
      ++ envelope_version ∷ scheme_to_wire coding_scheme ∷ pack_u32 equation_id
      ++ pack_u32 coding_seed
      ++ pack_u16 degree
      ++ payload)

-- `a == b` on bytes.
unfoldable pub same_bytes : Payload → Payload → Bool
same_bytes [] [] = true
same_bytes [] (b ∷ q) = false
same_bytes (a ∷ p) [] = false
same_bytes (a ∷ p) (b ∷ q) = a == b && same_bytes p q

-- The tests of decode_coded_payload on the unpacked fields.
unfoldable pub check_fields :
    ℕ → Option CodingScheme → ℕ → ℕ → ℕ → Payload → CodedPayloadParseResult
check_fields version scheme equation_id coding_seed degree [] =
    if version == envelope_version
    then elim scheme [
      | none ↦ malformed "unsupported coding_scheme"
      | some s ↦
          if degree == 0
          then malformed "degree must be positive"
          else malformed "coded payload must not be empty"
    ]
    else malformed "unsupported coded payload envelope version"
check_fields version scheme equation_id coding_seed degree (b ∷ p) =
    if version == envelope_version
    then elim scheme [
      | none ↦ malformed "unsupported coding_scheme"
      | some s ↦
          if degree == 0
          then malformed "degree must be positive"
          else valid (record {
            version = version;
            coding_scheme = s;
            equation_id = equation_id;
            coding_seed = coding_seed;
            degree = degree;
            payload = b ∷ p;
          })
    ]
    else malformed "unsupported coded payload envelope version"

-- `unpack_from` after the magic, and the payload after the header.
unfoldable pub unpack_fields : Payload → CodedPayloadParseResult
unfolding check_fields wire_to_scheme
unpack_fields (v ∷ s ∷ a ∷ b ∷ c ∷ d ∷ e ∷ f ∷ g ∷ h ∷ i ∷ j ∷ payload) =
    check_fields v (wire_to_scheme s) (a * 16777216 + b * 65536 + c * 256 + d)
      (e * 16777216 + f * 65536 + g * 256 + h) (i * 256 + j) payload
unpack_fields _ = not_coded

unfoldable pub decode_coded_payload : Payload → CodedPayloadParseResult
unfolding same_bytes unpack_fields
decode_coded_payload payload =
    if ltb (length payload) header_size
    then if same_bytes (take 8 payload) (take (length payload) magic)
      then malformed "coded payload envelope too short"
      else not_coded
    else if same_bytes (take 8 payload) magic
    then unpack_fields (drop 8 payload)
    else not_coded
