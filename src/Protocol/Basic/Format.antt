-- ===== src/Protocol/Basic/Format.antt =====
-- The format field, packed and unpacked.
use screen_airdrop.Prelude.{
  ℕ, ◌+◌, ◌%◌, ◌<◌, ◌≤◌, ◌≡◌, refl, sym, subst, ap, ◌∙◌, true, false, List, [], ◌∷◌, ◌++◌, ◌==◌,
  ltb, length, take, drop, arith, ==_refl, length-append,
}
use screen_airdrop.Prelude.Result.{ok}
use screen_airdrop.Coding.Payload.{Payload}
use screen_airdrop.Wire.{
  struct_pack, struct_unpack, struct_size, from_bytes, from-to_bytes, Fits, packed,
  struct_pack-packed, struct_unpack_exact, take-packed, drop-packed, long-packed, length-packed,
}
use screen_airdrop.Wire.Crc.{crc32}
use screen_airdrop.Protocol.Basic.{
  FormatInfoBasic, format_format, format_magic, pack_format, unpack_format,
}
use mathlib.Core.List.{append_assoc}

abbrev format_values : FormatInfoBasic → List ℕ
format_values f = f.magic ∷ f.version ∷ f.frame_type ∷ f.mask_id ∷ f.ecc_id ∷ f.reserved ∷ []

abbrev raw_format : FormatInfoBasic → Payload
raw_format f = packed format_format (format_values f)

-- The fields of the format fit.
pub record IsFormat (f : FormatInfoBasic) : Type 0 where
  pub magic : f.magic ≡ format_magic
  pub version : f.version < 256
  pub frame_type : f.frame_type < 256
  pub mask_id : f.mask_id < 256
  pub ecc_id : f.ecc_id < 256
  pub reserved : f.reserved < 65536

format-Fits : (f : FormatInfoBasic) → IsFormat f → Fits format_format (format_values f)
format-Fits f h = (
  rw h.magic (omega arith),
  (h.version, (h.frame_type, (h.mask_id, (h.ecc_id, (h.reserved, tt))))),
)

parity-Fits : (n : ℕ) → Fits (2 ∷ []) (n % 65536 ∷ [])
parity-Fits n = (omega arith, tt)

pack_eq :
    (f : FormatInfoBasic) (raw check : Payload)
    → struct_pack format_format (format_values f) ≡ ok raw
    → struct_pack (2 ∷ []) (crc32 raw % 65536 ∷ []) ≡ ok check
    → pack_format f ≡ ok (raw ++ check)
unfolding pack_format
pack_eq f raw check e g = rw (e, g) refl

long_enough : (bytes : Payload) → 10 ≤ length bytes → ltb (length bytes) 10 ≡ false
long_enough bytes h = ground arith

unpack_format-eq :
    (f : FormatInfoBasic) (bytes raw : Payload)
    → ltb (length bytes) (struct_size format_format + 2) ≡ false
    → take (struct_size format_format) bytes ≡ raw
    → from_bytes (take 2 (drop (struct_size format_format) bytes)) ≡ crc32 raw % 65536
    → struct_unpack format_format raw ≡ format_values f
    → (f.magic == format_magic) ≡ true
    → unpack_format bytes ≡ ok f
unfolding unpack_format
unpack_format-eq f bytes raw long cut parity fields m =
    rw (long, cut, parity, fields, ==_refl (crc32 raw % 65536), m) refl

-- For a format with the magic of the protocol and fields that fit theirs, pack returns bytes that
-- unpack reads back as the same format, whatever follows them.
pub unpack-pack_format :
    (f : FormatInfoBasic) (rest : Payload)
    → IsFormat f
    → (bytes : Payload) × (pack_format f ≡ ok bytes) × (unpack_format (bytes ++ rest) ≡ ok f)
unpack-pack_format f rest h =
    let fits = format-Fits f h in
    let raw = raw_format f in
    let parity : List ℕ = crc32 raw % 65536 ∷ [] in
    let check = packed (2 ∷ []) parity in
    let check_fits = parity-Fits (crc32 raw) in
    let split : (raw ++ check) ++ rest ≡ raw ++ (check ++ rest) = append_assoc raw check rest in
    let cut = take-packed format_format (format_values f) (check ++ rest) fits in
    let left = drop-packed format_format (format_values f) (check ++ rest) fits in
    let check_unpacked : from_bytes (take 2 (check ++ rest)) ≡ crc32 raw % 65536 =
      ap from_bytes (take-packed (2 ∷ []) parity rest check_fits)
      ∙ (unfold packed in from-to_bytes 2 (crc32 raw % 65536) (omega arith)) in
    let m : (f.magic == format_magic) ≡ true = rw h.magic refl in
    (
      raw ++ check,
      pack_eq f raw check (struct_pack-packed format_format (format_values f) fits)
          (struct_pack-packed (2 ∷ []) parity check_fits),
      subst (λ b. unpack_format b ≡ ok f) (sym split)
          (unpack_format-eq f (raw ++ (check ++ rest)) raw
            (long_enough (raw ++ (check ++ rest)) (
              omega (
                arith,
                length-append {0} raw (check ++ rest),
                length-packed format_format (format_values f) fits,
                long-packed (2 ∷ []) parity rest check_fits,
              )))
            cut (ap (λ b. from_bytes (take 2 b)) left ∙ check_unpacked)
            (struct_unpack_exact format_format (format_values f) fits) m),
    )
