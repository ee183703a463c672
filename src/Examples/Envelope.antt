-- ===== src/Examples/Envelope.antt =====
-- A payload of two bytes in its envelope.
use screen_airdrop.Prelude.{◌≡◌, [], ◌∷◌, arith}
use screen_airdrop.Prelude.Result.{ok}
use screen_airdrop.Coding.Payload.{Payload}
use screen_airdrop.Coding.Equation.{gf256_seed_v2}
use screen_airdrop.Envelope.{valid, encode_coded_payload, decode_coded_payload}
use screen_airdrop.Envelope.Roundtrip.{decode-encode}

envelope_example :
    (bytes : Payload) × (encode_coded_payload 70000 5 2 gf256_seed_v2 (8 ∷ 159 ∷ []) ≡ ok bytes)
    × (decode_coded_payload bytes
        ≡ valid (record {
          version = 2;
          coding_scheme = gf256_seed_v2;
          equation_id = 70000;
          coding_seed = 5;
          degree = 2;
          payload = 8 ∷ 159 ∷ [];
        }))
envelope_example =
    decode-encode 70000 5 2 gf256_seed_v2 8 (159 ∷ []) (omega arith) (omega arith) (omega arith)
      (omega arith)
