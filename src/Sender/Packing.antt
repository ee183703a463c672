-- ===== src/Sender/Packing.antt =====
-- common/packing.py: the payload cut into chunks.
use screen_airdrop.Prelude.{ℕ, List, ltb}
use screen_airdrop.Prelude.Slices.{slices}
use screen_airdrop.Prelude.Result.{Result, ok, value_error, require, ◌>>◌}
use screen_airdrop.Coding.Payload.{Payload}

unfoldable pub chunk_bytes : Payload → ℕ → Result (List Payload)
chunk_bytes data_bytes chunk_size = do
  require (ltb 0 chunk_size) value_error
  ok (slices chunk_size data_bytes)
