-- ===== src/Examples/Layers.antt =====
-- A bootstrap field, the body of a layered frame, and a layout.
use screen_airdrop.Prelude.{◌≤◌, ◌≡◌, inl, refl, [], ◌∷◌, ◌++◌, arith}
use screen_airdrop.Prelude.Result.{ok}
use screen_airdrop.Coding.Payload.{Payload}
use screen_airdrop.Protocol.Layered.{
  BootstrapFields, LayeredBodyMeta, layered_magic, layered_version, profile_dense, pack_bootstrap,
  unpack_bootstrap, build_body_raw_bytes, decode_body_raw_bytes,
}
use screen_airdrop.Protocol.Layered.Bootstrap.{unpack-pack_bootstrap}
use screen_airdrop.Protocol.Layered.Body.{decode-build_body}
use screen_airdrop.Wire.Crc.{crc16_ccitt_false}
use screen_airdrop.Wire.{struct_pack, struct_unpack}
use screen_airdrop.Protocol.Layout.{LayoutInfoBasic, frame_w, frame_h, pack_layout, unpack_layout}
use screen_airdrop.Protocol.Layout.Roundtrip.{IsLayout, unpack-pack_layout, unpack_layout-IsLayout}

abbrev two_bytes : Payload
two_bytes = 8 ∷ 159 ∷ []

abbrev bootstrap : BootstrapFields
bootstrap = record {
  magic = layered_magic;
  version = layered_version;
  frame_type = 1;
  short_session_tag = 513;
  body_profile_id = profile_dense;
  payload_len = 2;
  body_mask_id = 5;
}

bootstrap_example :
    (bytes : Payload) × (pack_bootstrap bootstrap ≡ ok bytes)
    × (unpack_bootstrap (bytes ++ two_bytes) ≡ ok bootstrap)
bootstrap_example = unpack-pack_bootstrap bootstrap two_bytes (record {
  magic = refl;
  version = refl;
  frame_type = omega arith;
  short_session_tag = omega arith;
  body_profile_id = inl refl;
  payload_len = omega arith;
  body_mask_id = omega arith;
})

abbrev body_meta : LayeredBodyMeta
body_meta = record {
  total_frames = 40;
  chunk_id = 5;
  payload_crc32 = 70000;
  epoch_id = 0;
  frame_id = 9;
}

body_example :
    (bytes : Payload) × (build_body_raw_bytes body_meta two_bytes ≡ ok bytes)
    × (decode_body_raw_bytes (bytes ++ 0 ∷ []) 2 ≡ ok (body_meta, two_bytes))
body_example =
    decode-build_body body_meta two_bytes (0 ∷ [])
      (omega arith, (omega arith, (omega arith, (omega arith, (omega arith, tt)))))

abbrev layout : LayoutInfoBasic
layout = record {
  layout_ver = 1;
  quiet = 4;
  finder = 9;
  guard = 2;
  grid_w = 160;
  grid_h = 96;
  timing_mode = 1;
  flags = 1;
}

layout-IsLayout : IsLayout layout
layout-IsLayout = record {
  layout_ver = omega arith;
  quiet = omega arith;
  finder = omega arith;
  finder_odd = refl;
  guard = omega arith;
  grid_w = omega arith;
  grid_h = omega arith;
  timing_mode = refl;
  flags = refl;
}

layout_example :
    (bytes : Payload) × (pack_layout layout ≡ ok bytes)
    × (unpack_layout (bytes ++ two_bytes) ≡ ok layout)
layout_example = unpack-pack_layout layout two_bytes layout-IsLayout (
  omega arith,
  (
    omega arith,
    (omega arith, (omega arith, (omega arith, (omega arith, (omega arith, (omega arith, tt)))))),
  ),
)

abbrev layout_bytes : Payload
layout_bytes = 1 ∷ 4 ∷ 9 ∷ 2 ∷ 160 ∷ 0 ∷ 96 ∷ 0 ∷ 1 ∷ 1 ∷ 147 ∷ 176 ∷ []

layout-unpacked : unpack_layout layout_bytes ≡ ok layout
unfolding unpack_layout struct_pack struct_unpack crc16_ccitt_false
layout-unpacked = refl

unpack_layout_example : IsLayout layout × (34 ≤ frame_w layout) × (34 ≤ frame_h layout)
unpack_layout_example = unpack_layout-IsLayout layout_bytes layout layout-unpacked
