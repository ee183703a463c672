-- ===== src/Examples/Store.antt =====
-- The decoder on a coded unit of a generation that is new to its store.
use screen_airdrop.Prelude.{ℕ, ◌≡◌, false, []}
use screen_airdrop.Prelude.Result.{ok}
use screen_airdrop.Coding.Payload.{Payload}
use screen_airdrop.Coding.Payload.Symbols.{Symbol}
use screen_airdrop.Units.{coded}
use screen_airdrop.Receiver.Store.{GenerationStore}
use screen_airdrop.Receiver.Decoder.{IngestResult, ingest}
use screen_airdrop.Receiver.Decoder.Sound.{IsStore, rejected, ingest-IsStore}
use screen_airdrop.Examples.Data.{symbol, symbol-Symbol, plain_random, sum_unit}
use screen_airdrop.Examples.Receive.{sum_unit-IsTruthful}

abbrev symbols : ℕ → ℕ → Payload
symbols g i = symbol i

abbrev symbols-Symbol : (g i : ℕ) → Symbol 2 (symbols g i)
symbols-Symbol g i = symbol-Symbol i

arrival_example :
    (r : GenerationStore × IngestResult) × (ingest plain_random [] (coded sum_unit) 0 ≡ ok r)
    × IsStore 2 symbols symbols-Symbol plain_random r.0
    × (rejected r.1.status ≡ false)
arrival_example =
    ingest-IsStore 2 symbols symbols-Symbol plain_random [] (coded sum_unit) 0 (λ g state e. cc)
      sum_unit-IsTruthful
