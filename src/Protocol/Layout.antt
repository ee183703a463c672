-- ===== src/Protocol/Layout.antt =====
-- layout_basic.py: the layout of a frame, its checks, and its checksummed bytes. layout_compact.py
-- repeats the code with other defaults.
pub mod Roundtrip
use screen_airdrop.Prelude.{
  ℕ, ◌+◌, ◌*◌, ◌/◌, ◌%◌, Bool, true, false, not, List, [], ◌∷◌, ◌++◌, ◌==◌, ltb, if◌then◌else◌,
  length, take, get_or,
}
use screen_airdrop.Prelude.Result.{Result, ok, layout_info_error, require, ◌>>=◌, ◌>>◌}
use screen_airdrop.Coding.Payload.{Payload}
use screen_airdrop.Wire.{struct_pack, struct_unpack, struct_size}
use screen_airdrop.Wire.Crc.{crc16_ccitt_false}

-- Struct("<BBBBHHBB") and Struct("<BBBBHHBBH")
abbrev pub layout_format_nocrc : List ℕ
layout_format_nocrc = 1 ∷ 1 ∷ 1 ∷ 1 ∷ 2 ∷ 2 ∷ 1 ∷ 1 ∷ []

abbrev pub layout_format : List ℕ
layout_format = 1 ∷ 1 ∷ 1 ∷ 1 ∷ 2 ∷ 2 ∷ 1 ∷ 1 ∷ 2 ∷ []

pub record LayoutInfoBasic : Type 0 where
  pub layout_ver : ℕ
  pub quiet : ℕ
  pub finder : ℕ
  pub guard : ℕ
  pub grid_w : ℕ
  pub grid_h : ℕ
  pub timing_mode : ℕ
  pub flags : ℕ

unfoldable pub frame_w : LayoutInfoBasic → ℕ
frame_w l = 2 * l.quiet + 2 * l.finder + 2 * l.guard + l.grid_w

unfoldable pub frame_h : LayoutInfoBasic → ℕ
frame_h l = 2 * l.quiet + 2 * l.finder + 2 * l.guard + l.grid_h

-- The flags fill one byte, so `flags & 0xFC` is 0 exactly when `flags / 4` is, below 256.
unfoldable pub validate_layout : LayoutInfoBasic → Result (Unit {0})
validate_layout l = do
  require (ltb 0 l.layout_ver) layout_info_error
  require (not (ltb l.quiet 1)) layout_info_error
  require (not (ltb l.finder 7)) layout_info_error
  require (not (l.finder % 2 == 0)) layout_info_error
  require (not (ltb l.guard 1)) layout_info_error
  require (not (ltb l.grid_w 16)) layout_info_error
  require (not (ltb l.grid_h 16)) layout_info_error
  require (l.timing_mode == 1) layout_info_error
  require (l.flags / 4 % 64 == 0) layout_info_error
  ok tt

abbrev pub layout_values : LayoutInfoBasic → List ℕ
layout_values l =
    l.layout_ver ∷ l.quiet ∷ l.finder ∷ l.guard ∷ l.grid_w ∷ l.grid_h ∷ l.timing_mode ∷ l.flags ∷ []

unfoldable pub pack_layout_without_crc : LayoutInfoBasic → Result Payload
unfolding validate_layout
pack_layout_without_crc l = do validate_layout l; struct_pack layout_format_nocrc (layout_values l)

unfoldable pub pack_layout : LayoutInfoBasic → Result Payload
unfolding pack_layout_without_crc
pack_layout l = do
  head ← pack_layout_without_crc l
  struct_pack layout_format (layout_values l ++ crc16_ccitt_false head 0xffff ∷ [])

abbrev pub layout_of : List ℕ → LayoutInfoBasic
layout_of fields = record {
  layout_ver = get_or fields 0 0;
  quiet = get_or fields 1 0;
  finder = get_or fields 2 0;
  guard = get_or fields 3 0;
  grid_w = get_or fields 4 0;
  grid_h = get_or fields 5 0;
  timing_mode = get_or fields 6 0;
  flags = get_or fields 7 0;
}

unfoldable pub unpack_layout : Payload → Result LayoutInfoBasic
unfolding validate_layout
unpack_layout bytes =
    let fields = struct_unpack layout_format (take (struct_size layout_format) bytes) in
    do
      require (not (ltb (length bytes) (struct_size layout_format))) layout_info_error
      body ← struct_pack layout_format_nocrc (take 8 fields)
      require (get_or fields 8 0 == crc16_ccitt_false body 0xffff) layout_info_error
      validate_layout (layout_of fields)
      ok (layout_of fields)
