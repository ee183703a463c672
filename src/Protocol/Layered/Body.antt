-- ===== src/Protocol/Layered/Body.antt =====
-- The body of a layered frame, built and decoded.
use screen_airdrop.Prelude.{
  ℕ, ◌+◌, ◌≤◌, ◌≡◌, refl, sym, subst, ap, ◌∙◌, false, List, [], ◌∷◌, ◌++◌, ==_refl, ltb, length,
  take, drop, arith, length-append, take-append, drop-append,
}
use screen_airdrop.Prelude.Result.{ok}
use screen_airdrop.Coding.Payload.{Payload}
use screen_airdrop.Wire.{
  struct_pack, struct_unpack, struct_size, from_bytes, from-to_bytes, Fits, packed,
  struct_pack-packed, struct_unpack_exact, take-packed, drop-packed, long-packed, length-packed,
}
use screen_airdrop.Wire.Crc.{crc32, crc32-lt}
use screen_airdrop.Protocol.Layered.{
  LayeredBodyMeta, body_meta_format, meta_values, pack_meta, unpack_meta, build_body_raw_bytes,
  decode_body_raw_bytes,
}
use mathlib.Core.List.{append_assoc, append-nil}

build-eq :
    (m : LayeredBodyMeta) (head payload trailer : Payload)
    → struct_pack body_meta_format (meta_values m) ≡ ok head
    → struct_pack (4 ∷ []) (crc32 (head ++ payload) ∷ []) ≡ ok trailer
    → build_body_raw_bytes m payload ≡ ok ((head ++ payload) ++ trailer)
unfolding build_body_raw_bytes pack_meta
build-eq m head payload trailer e g = rw (e, g) refl

unpack_meta-eq :
    (m : LayeredBodyMeta) (bytes : Payload)
    → ltb (length bytes) (struct_size body_meta_format) ≡ false
    → struct_unpack body_meta_format (take (struct_size body_meta_format) bytes) ≡ meta_values m
    → unpack_meta bytes ≡ ok m
unfolding unpack_meta
unpack_meta-eq m bytes long fields = rw (long, fields) refl

decode-eq :
    (m : LayeredBodyMeta) (bytes plain head payload : Payload) (n : ℕ)
    → ltb (length bytes) (struct_size body_meta_format + n + 4) ≡ false
    → take (struct_size body_meta_format + n) bytes ≡ plain
    → from_bytes (take 4 (drop (struct_size body_meta_format + n) bytes)) ≡ crc32 plain
    → take (struct_size body_meta_format) plain ≡ head
    → unpack_meta head ≡ ok m
    → take n (drop (struct_size body_meta_format) plain) ≡ payload
    → decode_body_raw_bytes bytes n ≡ ok (m, payload)
unfolding decode_body_raw_bytes
decode-eq m bytes plain head payload n long cut crc top fields body =
    rw (long, cut, crc, ==_refl (crc32 plain), top, fields, body) refl

long_enough : (n k : ℕ) → k ≤ n → ltb n k ≡ false
long_enough n k h = ground arith

take_all : (p : Payload) → take (length p) p ≡ p
take_all [] = refl
take_all (b ∷ p) = ap (◌∷◌ b) (take_all p)

-- For a meta whose fields are below 2 to the 32, build_body_raw_bytes returns bytes from which,
-- whatever follows them, decode_body_raw_bytes with the payload's length returns the meta and the
-- payload.
pub decode-build_body :
    (m : LayeredBodyMeta) (payload rest : Payload)
    → Fits body_meta_format (meta_values m)
    → (bytes : Payload) × (build_body_raw_bytes m payload ≡ ok bytes)
      × (decode_body_raw_bytes (bytes ++ rest) (length payload) ≡ ok (m, payload))
decode-build_body m payload rest fits =
    let head = packed body_meta_format (meta_values m) in
    let plain = head ++ payload in
    let crc : List ℕ = crc32 plain ∷ [] in
    let crc_fits : Fits (4 ∷ []) crc = (crc32-lt plain, tt) in
    let trailer = packed (4 ∷ []) crc in
    let n = length payload in
    let size : length plain ≡ 20 + n = omega (
      arith,
      length-append {0} head payload,
      length-packed body_meta_format (meta_values m) fits,
    ) in
    let split : (plain ++ trailer) ++ rest ≡ plain ++ (trailer ++ rest) =
      append_assoc plain trailer rest in
    let long : ltb (length (plain ++ (trailer ++ rest))) (20 + n + 4) ≡ false =
      long_enough (length (plain ++ (trailer ++ rest))) (20 + n + 4) (
        omega (
          arith,
          length-append {0} plain (trailer ++ rest),
          size,
          long-packed (4 ∷ []) crc rest crc_fits,
        )) in
    let cut : take (20 + n) (plain ++ (trailer ++ rest)) ≡ plain =
      subst (λ k. take k (plain ++ (trailer ++ rest)) ≡ plain) size
        (take-append plain (trailer ++ rest)) in
    let left : drop (20 + n) (plain ++ (trailer ++ rest)) ≡ trailer ++ rest =
      subst (λ k. drop k (plain ++ (trailer ++ rest)) ≡ trailer ++ rest) size
        (drop-append plain (trailer ++ rest)) in
    let crc_unpacked : from_bytes (take 4 (trailer ++ rest)) ≡ crc32 plain =
      ap from_bytes (take-packed (4 ∷ []) crc rest crc_fits)
      ∙ (unfold packed in from-to_bytes 4 (crc32 plain) (crc32-lt plain)) in
    let values = meta_values m in
    let head_long : ltb (length head) 20 ≡ false =
      long_enough (length head) 20 (omega (arith, length-packed body_meta_format values fits)) in
    let head_cut : take 20 head ≡ head =
      ap (take 20) (sym (append-nil head)) ∙ take-packed body_meta_format values [] fits in
    (
      plain ++ trailer,
      build-eq m head payload trailer (struct_pack-packed body_meta_format values fits)
          (struct_pack-packed (4 ∷ []) crc crc_fits),
      subst (λ b. decode_body_raw_bytes b n ≡ ok (m, payload)) (sym split)
          (decode-eq m (plain ++ (trailer ++ rest)) plain head payload n long cut
            (ap (λ b. from_bytes (take 4 b)) left ∙ crc_unpacked)
            (take-packed body_meta_format values payload fits)
            (unpack_meta-eq m head head_long (
              ap (struct_unpack body_meta_format) head_cut
              ∙ struct_unpack_exact body_meta_format values fits))
            (ap (take n) (drop-packed body_meta_format values payload fits) ∙ take_all payload)),
    )
