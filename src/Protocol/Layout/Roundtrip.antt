-- ===== src/Protocol/Layout/Roundtrip.antt =====
-- A layout packed and unpacked, and what unpacking lets through.
use screen_airdrop.Prelude.{
  ℕ, ◌/◌, ◌%◌, ◌<◌, ◌≤◌, ◌≡◌, refl, subst, ap, ◌∙◌, false, not, [], ◌∷◌, ◌++◌, ==_refl, ltb, length,
  take, arith,
}
use screen_airdrop.Prelude.Result.{Result, ok, err, layout_info_error, require, ◌>>=◌, ◌>>◌}
use screen_airdrop.Coding.Payload.{Payload}
use screen_airdrop.Wire.{
  struct_pack, struct_unpack, struct_size, Fits, packed, struct_pack-packed, struct_unpack_exact,
  take-packed, long-packed,
}
use screen_airdrop.Wire.Crc.{crc16_ccitt_false, crc16-lt}
use screen_airdrop.Protocol.Layout.{
  LayoutInfoBasic, layout_format_nocrc, layout_format, layout_values, layout_of, frame_w, frame_h,
  validate_layout, pack_layout_without_crc, pack_layout, unpack_layout,
}

-- The layouts that `validate` lets through.
pub record IsLayout (l : LayoutInfoBasic) : Type 0 where
  pub layout_ver : 0 < l.layout_ver
  pub quiet : 1 ≤ l.quiet
  pub finder : 7 ≤ l.finder
  pub finder_odd : l.finder % 2 ≡ 1
  pub guard : 1 ≤ l.guard
  pub grid_w : 16 ≤ l.grid_w
  pub grid_h : 16 ≤ l.grid_h
  pub timing_mode : l.timing_mode ≡ 1
  pub flags : l.flags / 4 % 64 ≡ 0

validate-IsLayout : (l : LayoutInfoBasic) → IsLayout l → validate_layout l ≡ ok tt
unfolding validate_layout
validate-IsLayout l i = ground (arith, i.layout_ver, i.quiet, i.finder, i.finder_odd)

IsLayout-validate : (l : LayoutInfoBasic) → validate_layout l ≡ ok tt → IsLayout l
unfolding validate_layout
IsLayout-validate l e = ground arith

layout-Fits :
    (l : LayoutInfoBasic) (crc : ℕ)
    → Fits layout_format_nocrc (layout_values l)
    → crc < 65536
    → Fits layout_format (layout_values l ++ crc ∷ [])
layout-Fits l crc (a, (b, (c, (d, (e, (f, (g, (h, t)))))))) k =
    (a, (b, (c, (d, (e, (f, (g, (h, (k, tt)))))))))

pack-eq :
    (l : LayoutInfoBasic) (head bytes : Payload)
    → validate_layout l ≡ ok tt
    → struct_pack layout_format_nocrc (layout_values l) ≡ ok head
    → struct_pack layout_format (layout_values l ++ crc16_ccitt_false head 0xffff ∷ []) ≡ ok bytes
    → pack_layout l ≡ ok bytes
unfolding pack_layout pack_layout_without_crc
pack-eq l head bytes v e g = rw (v, e, g) refl

unpack-eq :
    (l : LayoutInfoBasic) (bytes head : Payload)
    → ltb (length bytes) (struct_size layout_format) ≡ false
    → struct_unpack layout_format (take (struct_size layout_format) bytes)
      ≡ layout_values l ++ crc16_ccitt_false head 0xffff ∷ []
    → struct_pack layout_format_nocrc (layout_values l) ≡ ok head
    → validate_layout l ≡ ok tt
    → unpack_layout bytes ≡ ok l
unfolding unpack_layout
unpack-eq l bytes head long fields e v =
    rw (long, fields, e, ==_refl (crc16_ccitt_false head 0xffff), v) refl

long_enough : (bytes : Payload) → 12 ≤ length bytes → ltb (length bytes) 12 ≡ false
long_enough bytes h = ground arith

-- For a layout that validate lets through and whose fields fit theirs, pack returns bytes that
-- unpack reads back as the same layout, whatever follows them.
pub unpack-pack_layout :
    (l : LayoutInfoBasic) (rest : Payload)
    → IsLayout l
    → Fits layout_format_nocrc (layout_values l)
    → (bytes : Payload) × (pack_layout l ≡ ok bytes) × (unpack_layout (bytes ++ rest) ≡ ok l)
unpack-pack_layout l rest i fits =
    let head = packed layout_format_nocrc (layout_values l) in
    let values = layout_values l ++ crc16_ccitt_false head 0xffff ∷ [] in
    let all_fits = layout-Fits l (crc16_ccitt_false head 0xffff) fits (crc16-lt head 0xffff) in
    let bytes = packed layout_format values in
    let e = struct_pack-packed layout_format_nocrc (layout_values l) fits in
    let v = validate-IsLayout l i in
    (
      bytes,
      pack-eq l head bytes v e (struct_pack-packed layout_format values all_fits),
      unpack-eq l (bytes ++ rest) head
          (long_enough (bytes ++ rest) (long-packed layout_format values rest all_fits))
          (ap (struct_unpack layout_format) (take-packed layout_format values rest all_fits)
            ∙ struct_unpack_exact layout_format values all_fits)
          e v,
    )

-- What comes after a test, or a bound value, when the block gives a value.
rest_of_test :
    {B : Type 0} (t : Result (Unit {0})) (k : Result B) (b : B) → (t >> k) ≡ ok b → k ≡ ok b
rest_of_test (err f) k b e = cc
rest_of_test (ok u) k b e = e

validated_of :
    (t : Result Payload) (more : Payload → Result (Unit {0})) (test : Result (Unit {0}))
    (a l : LayoutInfoBasic)
    → (t >>= (λ body. more body >> (test >> ok a))) ≡ ok l
    → (test ≡ ok tt) × (a ≡ l)
validated_of (err f) more test a l e = cc
validated_of (ok body) more (err f) a l e =
    let q : Result.err f ≡ ok l = rest_of_test (more body) (err f) l e in cc
validated_of (ok body) more (ok tt) a l e =
    let q : Result.ok a ≡ ok l = rest_of_test (more body) (ok a) l e in (refl, cc q)

validated :
    (bytes : Payload) (l : LayoutInfoBasic) → unpack_layout bytes ≡ ok l → validate_layout l ≡ ok tt
unfolding unpack_layout
validated bytes l e =
    let fields = struct_unpack layout_format (take (struct_size layout_format) bytes) in
    let (v, same) =
      validated_of (struct_pack layout_format_nocrc (take 8 fields)) _
        (validate_layout (layout_of fields)) (layout_of fields) l
        (rest_of_test
          (require (not (ltb (length bytes) (struct_size layout_format))) layout_info_error) _ l
          e) in
    subst (λ x. validate_layout x ≡ ok tt) same v

-- unpack of any bytes raises an exception unless the layout has a version and a quiet zone and a
-- guard of at least 1, an odd finder of at least 7, a grid of at least 16 by 16, the timing mode 1
-- and no reserved flag; a frame is then at least 34 modules wide and high.
pub unpack_layout-IsLayout :
    (bytes : Payload) (l : LayoutInfoBasic)
    → unpack_layout bytes ≡ ok l
    → IsLayout l × (34 ≤ frame_w l) × (34 ≤ frame_h l)
unfolding frame_w frame_h
unpack_layout-IsLayout bytes l e =
    let i = IsLayout-validate l (validated bytes l e) in
    (
      i,
      omega (arith, i.quiet, i.finder, i.guard, i.grid_w),
      omega (arith, i.quiet, i.finder, i.guard, i.grid_h),
    )
