-- ===== src/Protocol/ReedSolomon.antt =====
-- common/ecc_rs.py: the blocks that the Reed-Solomon codec of the package reedsolo encodes and
-- decodes. The codec is an argument. The profiles of the code have 15, 8 and 16 parity bytes, so
-- a block has room for data.
pub mod Blocks
pub mod Size
use screen_airdrop.Prelude.{
  ℕ, zero, suc, ◌+◌, ◌-◌, ◌*◌, ◌/◌, ◌%◌, Bool, true, false, ◌&&◌, not, List, [], ◌∷◌, ◌++◌, map,
  ◌==◌, ltb, leb, if◌then◌else◌, length, take, drop,
}
use screen_airdrop.Prelude.Slices.{slices, concat}
use screen_airdrop.Prelude.Result.{Result, ok, err, stuck, reed_solomon_error, require, ◌>>=◌, ◌>>◌}
use screen_airdrop.Coding.Payload.{Payload}

abbrev pub rs_block_size : ℕ
rs_block_size = 255

pub record RsEccProfile : Type 0 where
  pub profile_id : ℕ
  pub nsym : ℕ

abbrev pub layered_bootstrap_rs : RsEccProfile
layered_bootstrap_rs = record { profile_id = 2; nsym = 15 }

abbrev pub layered_body_rs_dense : RsEccProfile
layered_body_rs_dense = record { profile_id = 3; nsym = 8 }

abbrev pub layered_body_rs_robust : RsEccProfile
layered_body_rs_robust = record { profile_id = 4; nsym = 16 }

-- RSCodec(nsym): `encode`, and `decode` of a block with the positions of its erasures, which gives
-- the data and the number of corrected bytes.
pub record RsCodec : Type 0 where
  pub encode : ℕ → Payload → Payload
  pub decode : ℕ → Payload → List ℕ → Result (Payload × ℕ)

unfoldable pub rs_max_data_bytes : RsEccProfile → ℕ
rs_max_data_bytes profile = rs_block_size - profile.nsym

-- The quotient and the remainder of `divmod`, for a profile with room for data.
unfoldable pub rs_encoded_size : RsEccProfile → ℕ → ℕ
unfolding rs_max_data_bytes
rs_encoded_size profile raw_len =
    let chunk = rs_max_data_bytes profile in
    let total = raw_len / chunk * rs_block_size in
    let rem = raw_len % chunk in
    if raw_len == 0 then 0 else (if rem == 0 then total else total + (rem + profile.nsym))

-- `[pos - offset for pos in erase_positions if offset <= pos < offset + block_len]`
unfoldable pub local_erasures : ℕ → ℕ → List ℕ → List ℕ
local_erasures offset block_len [] = []
local_erasures offset block_len (pos ∷ positions) =
    let rest = local_erasures offset block_len positions in
    if leb offset pos && ltb pos (offset + block_len) then (pos - offset) ∷ rest else rest

module _ (codec : RsCodec) where
  unfoldable pub encode_rs_bytes : RsEccProfile → Payload → Payload
  unfolding rs_max_data_bytes
  encode_rs_bytes profile raw_bytes =
      concat (map (codec.encode profile.nsym) (slices (rs_max_data_bytes profile) raw_bytes))

  -- The loop of decode_rs_bytes_with_erasures from `offset` on, with the bytes that are left and
  -- fuel for their number.
  unfoldable pub decode_blocks : ℕ → RsEccProfile → List ℕ → ℕ → Payload → Result (Payload × ℕ)
  unfolding local_erasures
  decode_blocks fuel profile erasures offset [] = ok ([], 0)
  decode_blocks zero profile erasures offset (b ∷ bytes) = err stuck
  decode_blocks (suc fuel) profile erasures offset (b ∷ bytes) =
      let block = take rs_block_size (b ∷ bytes) in
      do
        require (not (leb (length block) profile.nsym)) reed_solomon_error
        first ← codec.decode profile.nsym block (local_erasures offset (length block) erasures)
        rest ←
            decode_blocks fuel profile erasures (offset + length block)
              (drop rs_block_size (b ∷ bytes))
        ok (first.0 ++ rest.0, first.1 + rest.1)

  unfoldable pub decode_rs_bytes_with_erasures :
      RsEccProfile → Payload → List ℕ → Result (Payload × ℕ)
  unfolding decode_blocks
  decode_rs_bytes_with_erasures profile coded_bytes erase_positions =
      decode_blocks (length coded_bytes) profile erase_positions 0 coded_bytes

  -- The same loop, with no erasures.
  unfoldable pub decode_rs_bytes : RsEccProfile → Payload → Result (Payload × ℕ)
  unfolding decode_blocks
  decode_rs_bytes profile coded_bytes = decode_blocks (length coded_bytes) profile [] 0 coded_bytes
