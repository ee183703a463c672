-- ===== src/Protocol/Gray4/Roundtrip.antt =====
-- Symbols back to bytes, and the votes of the repetition code on symbols.
use screen_airdrop.Prelude.{List}
use screen_airdrop.Coding.Payload.{Payload}
