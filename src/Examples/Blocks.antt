-- ===== src/Examples/Blocks.antt =====
-- A codec that adds zeros and corrects nothing but the bytes at the erasures.
use screen_airdrop.Prelude.{
  ℕ, zero, suc, ◌-◌, ◌≡◌, refl, List, [], ◌∷◌, ◌++◌, length, length-append, replicate, take,
  take-append, arith, ap, ◌∙◌,
}
use screen_airdrop.Prelude.Result.{ok}
use screen_airdrop.Coding.Payload.{Payload}
use screen_airdrop.Protocol.ReedSolomon.{
  RsCodec, layered_body_rs_dense, encode_rs_bytes, decode_rs_bytes, rs_encoded_size,
  decode_rs_bytes_with_erasures,
}
use screen_airdrop.Protocol.ReedSolomon.Size.{length-encode_rs_bytes}
use screen_airdrop.Protocol.ReedSolomon.Blocks.{
  ErasuresIn, no_more, inside, before, behind, Received, full, one, IsCodec,
  decode_rs_bytes-Received, decode-encode_rs_bytes,
}

-- The byte at a position gets lost and back as 5.
abbrev mend : Payload → ℕ → Payload
mend [] index = []
mend (b ∷ bytes) zero = 5 ∷ bytes
mend (b ∷ bytes) (suc index) = b ∷ mend bytes index

abbrev repaired : Payload → List ℕ → Payload
repaired bytes [] = bytes
repaired bytes (index ∷ erasures) = repaired (mend bytes index) erasures

abbrev codec : RsCodec
codec = record {
  encode = λ nsym bytes. bytes ++ replicate nsym 0;
  decode = λ nsym bytes erasures.
      ok (repaired (take (length bytes - nsym) bytes) erasures, length erasures);
}

abbrev zeros : ℕ → Payload
zeros n = replicate n 0

length-zeros : (n : ℕ) → length (zeros n) ≡ n
length-zeros zero = refl
length-zeros (suc n) = ap suc (length-zeros n)

without_zeros :
    (bytes : Payload) (n : ℕ) → take (length (bytes ++ zeros n) - n) (bytes ++ zeros n) ≡ bytes
without_zeros bytes n =
    ap (λ k. take k (bytes ++ zeros n))
      (omega (arith, length-append bytes (zeros n), length-zeros n))
    ∙ take-append bytes (zeros n)

codec-IsCodec : IsCodec codec 8
codec-IsCodec = record {
  length-encode = λ bytes some_data fits. length-append bytes (zeros 8);
  decode-encode = λ bytes some_data fits. ap (λ b. ok (b, 0)) (without_zeros bytes 8);
}

rs_example :
    decode_rs_bytes codec layered_body_rs_dense
      (encode_rs_bytes codec layered_body_rs_dense (5 ∷ 6 ∷ 7 ∷ []))
    ≡ ok (5 ∷ 6 ∷ 7 ∷ [], 0)
rs_example =
    decode-encode_rs_bytes codec layered_body_rs_dense (omega arith) codec-IsCodec (5 ∷ 6 ∷ 7 ∷ [])

-- A block of 255 bytes, of which 247 are data, and one of 10 bytes, of which 2 are data.
abbrev first_block : Payload
first_block = zeros 255

abbrev second_block : Payload
second_block = 0 ∷ 6 ∷ zeros 8

-- The last byte of the first block's data, the first byte of the second block, and the position
-- just past the second block.
abbrev erased : List ℕ
erased = 246 ∷ 255 ∷ 265 ∷ []

in_first_block : ErasuresIn 0 255 erased (246 ∷ [])
in_first_block =
    inside 246 (255 ∷ 265 ∷ []) [] (omega arith)
      (behind 255 (265 ∷ []) [] (omega arith) (behind 265 [] [] (omega arith) no_more))

in_second_block : ErasuresIn 255 10 erased (0 ∷ [])
in_second_block =
    before 246 (255 ∷ 265 ∷ []) (0 ∷ []) (omega arith)
      (inside 0 (265 ∷ []) [] (omega arith) (behind 265 [] [] (omega arith) no_more))

two_blocks :
    Received codec layered_body_rs_dense erased 0
      ((zeros 246 ++ 5 ∷ []) ++ 5 ∷ 6 ∷ [])
      (first_block ++ second_block)
      2
two_blocks =
    full 0 (zeros 246 ++ 5 ∷ []) first_block (5 ∷ 6 ∷ []) second_block (246 ∷ []) 1 1 (omega arith)
      (length-zeros 255) in_first_block refl
      (one 255 (5 ∷ 6 ∷ []) second_block (0 ∷ []) 1 (omega arith) (omega arith) in_second_block
        refl)

erasure_example :
    decode_rs_bytes_with_erasures codec layered_body_rs_dense (first_block ++ second_block) erased
    ≡ ok ((zeros 246 ++ 5 ∷ []) ++ 5 ∷ 6 ∷ [], 2)
erasure_example =
    decode_rs_bytes-Received codec layered_body_rs_dense erased
      ((zeros 246 ++ 5 ∷ []) ++ 5 ∷ 6 ∷ []) (first_block ++ second_block) 2 two_blocks

size_example :
    length (encode_rs_bytes codec layered_body_rs_dense (5 ∷ 6 ∷ 7 ∷ []))
    ≡ rs_encoded_size layered_body_rs_dense 3
size_example =
    length-encode_rs_bytes codec layered_body_rs_dense (omega arith) codec-IsCodec (5 ∷ 6 ∷ 7 ∷ [])
