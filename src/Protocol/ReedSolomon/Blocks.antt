-- ===== src/Protocol/ReedSolomon/Blocks.antt =====
-- The blocks of a Reed-Solomon code, sent and received.
use mathlib.Core.List.{append-nil}
use screen_airdrop.Prelude.{
  ℕ, zero, suc, ◌+◌, ◌-◌, ◌≤◌, ◌<◌, ◌≡◌, refl, sym, subst, ap, ◌∙◌, false, List, [], ◌∷◌, ◌++◌, map,
  leb, length, take, drop, take-append, drop-append, length-append, length-take, length-drop, ap₂,
  inl, inr, Bool-cases, arith,
}
use screen_airdrop.Prelude.Slices.{slices_from, concat, take-drop}
use screen_airdrop.Prelude.Result.{ok}
use screen_airdrop.Coding.Payload.{Payload}
use screen_airdrop.Protocol.ReedSolomon.{
  RsEccProfile, RsCodec, rs_max_data_bytes, local_erasures, encode_rs_bytes, decode_blocks,
  decode_rs_bytes, decode_rs_bytes_with_erasures,
}

take_all : (n : ℕ) (xs : Payload) → length xs ≤ n → take n xs ≡ xs
take_all zero [] h = refl
take_all zero (x ∷ xs) h = absurd (omega (arith, h))
take_all (suc n) [] h = refl
take_all (suc n) (x ∷ xs) h = ap (λ ys. x ∷ ys) (take_all n xs (omega (arith, h)))

drop_all : (n : ℕ) (xs : Payload) → length xs ≤ n → drop n xs ≡ []
drop_all zero [] h = refl
drop_all zero (x ∷ xs) h = absurd (omega (arith, h))
drop_all (suc n) [] h = refl
drop_all (suc n) (x ∷ xs) h = drop_all n xs (omega (arith, h))

take_exact : (n : ℕ) (xs ys : Payload) → length xs ≡ n → take n (xs ++ ys) ≡ xs
take_exact n xs ys e = subst (λ k. take k (xs ++ ys) ≡ xs) e (take-append xs ys)

drop_exact : (n : ℕ) (xs ys : Payload) → length xs ≡ n → drop n (xs ++ ys) ≡ ys
drop_exact n xs ys e = subst (λ k. drop k (xs ++ ys) ≡ ys) e (drop-append xs ys)

-- The positions among the first list that lie in the `len` bytes from `offset` on, counted from
-- `offset`, in order.
pub data ErasuresIn (offset len : ℕ) : List ℕ → List ℕ → Type 0 where
  no_more : ErasuresIn offset len [] []
  inside :
      (index : ℕ) (positions local : List ℕ)
      → index < len
      → ErasuresIn offset len positions local
      → ErasuresIn offset len ((offset + index) ∷ positions) (index ∷ local)
  before :
      (pos : ℕ) (positions local : List ℕ)
      → pos < offset
      → ErasuresIn offset len positions local
      → ErasuresIn offset len (pos ∷ positions) local
  behind :
      (pos : ℕ) (positions local : List ℕ)
      → offset + len ≤ pos
      → ErasuresIn offset len positions local
      → ErasuresIn offset len (pos ∷ positions) local

local_erasures_lem :
    (offset len : ℕ) (positions local : List ℕ)
    → ErasuresIn offset len positions local
    → local_erasures offset len positions ≡ local
unfolding local_erasures
local_erasures_lem offset len _ _ no_more = refl
local_erasures_lem offset len _ _ (inside index positions local h r) =
    let same : offset + index - offset ≡ index = omega arith in
    let rest = local_erasures_lem offset len positions local r in ground (arith, same, rest)
local_erasures_lem offset len _ _ (before pos positions local h r) =
    ground (arith, local_erasures_lem offset len positions local r)
local_erasures_lem offset len _ _ (behind pos positions local h r) =
    ground (arith, local_erasures_lem offset len positions local r)

module _ (codec : RsCodec) (profile : RsEccProfile) (erasures : List ℕ) where
  -- The bytes, block by block, that the codec corrects to the data: all blocks but the last are
  -- full. The first number is the position of the first block, the last one counts corrections.
  pub data Received : ℕ → Payload → Payload → ℕ → Type 0 where
    nothing : (offset : ℕ) → Received offset [] [] 0
    one :
        (offset : ℕ) (chunk block : Payload) (local : List ℕ) (errata : ℕ)
        → profile.nsym < length block
        → length block ≤ 255
        → ErasuresIn offset (length block) erasures local
        → codec.decode profile.nsym block local ≡ ok (chunk, errata)
        → Received offset chunk block errata
    full :
        (offset : ℕ) (chunk block raw coded : Payload) (local : List ℕ) (errata more : ℕ)
        → profile.nsym < length block
        → length block ≡ 255
        → ErasuresIn offset (length block) erasures local
        → codec.decode profile.nsym block local ≡ ok (chunk, errata)
        → Received (offset + length block) raw coded more
        → Received offset (chunk ++ raw) (block ++ coded) (errata + more)

  one_block :
      (fuel offset : ℕ) (bytes : Payload) (chunk raw : Payload) (errata more : ℕ)
      → profile.nsym < length (take 255 bytes)
      → codec.decode profile.nsym
          (take 255 bytes)
          (local_erasures offset (length (take 255 bytes)) erasures)
        ≡ ok (chunk, errata)
      → decode_blocks codec fuel profile erasures
          (offset + length (take 255 bytes))
          (drop 255 bytes)
        ≡ ok (raw, more)
      → decode_blocks codec (suc fuel) profile erasures offset bytes
        ≡ ok (chunk ++ raw, errata + more)
  unfolding decode_blocks
  one_block fuel offset [] chunk raw errata more room e q = absurd (omega (arith, room))
  one_block fuel offset (b ∷ bytes) chunk raw errata more room e q =
      let long : leb (length (take 255 (b ∷ bytes))) profile.nsym ≡ false = ground (arith, room) in
      rw (long, e, q) refl

  decoded :
      (offset : ℕ) (chunk block local : List ℕ) (errata : ℕ)
      → ErasuresIn offset (length block) erasures local
      → codec.decode profile.nsym block local ≡ ok (chunk, errata)
      → codec.decode profile.nsym block (local_erasures offset (length block) erasures)
        ≡ ok (chunk, errata)
  decoded offset chunk block local errata r e =
      rw (local_erasures_lem offset (length block) erasures local r) e

  no_blocks : (fuel offset : ℕ) → decode_blocks codec fuel profile erasures offset [] ≡ ok ([], 0)
  unfolding decode_blocks
  no_blocks zero offset = refl
  no_blocks (suc fuel) offset = refl

  decode_blocks-Received :
      (fuel offset : ℕ) (raw coded : Payload) (errata : ℕ)
      → Received offset raw coded errata
      → length coded ≤ fuel
      → decode_blocks codec fuel profile erasures offset coded ≡ ok (raw, errata)
  decode_blocks-Received fuel _ _ _ _ (nothing offset) f = no_blocks fuel offset
  decode_blocks-Received zero _ _ _ _ (one offset chunk block local errata room fits place e) f =
      absurd (omega (arith, room, f))
  decode_blocks-Received (suc fuel) _ _ _ _ (one offset chunk block local errata room fits place e)
        f =
      let all = take_all 255 block fits in
      subst (λ r. decode_blocks codec (suc fuel) profile erasures offset block ≡ ok r)
        (ap (λ r. (r, errata + 0)) (append-nil chunk) ∙ ap (λ n. (chunk, n)) (omega arith))
        (one_block fuel offset block chunk [] errata 0 (rw all room)
          (rw all (decoded offset chunk block local errata place e))
          (rw (drop_all 255 block fits) (no_blocks fuel (offset + length (take 255 block)))))
  decode_blocks-Received zero _ _ _ _
        (full offset chunk block raw coded local errata more room fits place e rest) f =
      absurd (omega (arith, fits, f, length-append block coded))
  decode_blocks-Received (suc fuel) _ _ _ _
        (full offset chunk block raw coded local errata more room fits place e rest) f =
      let first = take_exact 255 block coded fits in
      let others = drop_exact 255 block coded fits in
      one_block fuel offset (block ++ coded) chunk raw errata more (rw first room)
        (rw first (decoded offset chunk block local errata place e))
        (rw (first, others)
          (decode_blocks-Received fuel (offset + length block) raw coded more rest
            (omega (arith, fits, f, length-append block coded))))

  -- If the received bytes are blocks of 255 bytes, the last of at most 255, each longer than the
  -- parity, that the codec decodes to chunks with the erasures that fall into the block (from its
  -- first byte to its last), counted from its start and in order, then
  -- decode_rs_bytes_with_erasures returns the chunks one after the other, and the sum of the
  -- counts of corrections.
  pub decode_rs_bytes-Received :
      (raw coded : Payload) (errata : ℕ)
      → Received 0 raw coded errata
      → decode_rs_bytes_with_erasures codec profile coded erasures ≡ ok (raw, errata)
  unfolding decode_rs_bytes_with_erasures
  decode_rs_bytes-Received raw coded errata r =
      decode_blocks-Received (length coded) 0 raw coded errata r (omega arith)

-- What a codec without noise does: a block of the data and `nsym` bytes more, which decodes to the
-- data with nothing corrected.
pub record IsCodec (codec : RsCodec) (nsym : ℕ) : Type 0 where
  pub length-encode :
      (data_bytes : Payload)
      → 0 < length data_bytes
      → length data_bytes + nsym ≤ 255
      → length (codec.encode nsym data_bytes) ≡ length data_bytes + nsym
  pub decode-encode :
      (data_bytes : Payload)
      → 0 < length data_bytes
      → length data_bytes + nsym ≤ 255
      → codec.decode nsym (codec.encode nsym data_bytes) [] ≡ ok (data_bytes, 0)

module _ (codec : RsCodec) (profile : RsEccProfile) (room : profile.nsym < 255)
    (good : IsCodec codec profile.nsym) where
  encode_from : ℕ → Payload → Payload
  encode_from fuel raw =
      concat (map (codec.encode profile.nsym) (slices_from fuel (255 - profile.nsym) raw))

  encoded_nil : (fuel : ℕ) → encode_from fuel [] ≡ []
  unfolding encode_from
  encoded_nil zero = refl
  encoded_nil (suc fuel) = refl

  last_block :
      (fuel offset : ℕ) (raw : Payload)
      → 0 < length raw
      → length raw ≤ 255 - profile.nsym
      → Received codec profile [] offset raw
          (codec.encode profile.nsym (take (255 - profile.nsym) raw)
            ++ encode_from fuel (drop (255 - profile.nsym) raw))
          0
  last_block fuel offset raw some_data small =
      let n = 255 - profile.nsym in
      let fits : length raw + profile.nsym ≤ 255 = omega (arith, small, room) in
      let size = good.length-encode raw some_data fits in
      let tail : encode_from fuel (drop n raw) ≡ [] =
        ap (encode_from fuel) (drop_all n raw small) ∙ encoded_nil fuel in
      let bytes =
        ap₂ (λ x y. codec.encode profile.nsym x ++ y) (take_all n raw small) tail
        ∙ append-nil (codec.encode profile.nsym raw) in
      subst (λ c. Received codec profile [] offset raw c 0) (sym bytes)
        (one offset raw (codec.encode profile.nsym raw) [] 0 (omega (arith, size, some_data))
          (omega (arith, size, fits)) no_more (good.decode-encode raw some_data fits))

  full_block :
      (fuel offset : ℕ) (raw : Payload)
      → 255 - profile.nsym < length raw
      → Received codec profile []
          (offset + length (codec.encode profile.nsym (take (255 - profile.nsym) raw)))
          (drop (255 - profile.nsym) raw)
          (encode_from fuel (drop (255 - profile.nsym) raw))
          0
      → Received codec profile [] offset raw
          (codec.encode profile.nsym (take (255 - profile.nsym) raw)
            ++ encode_from fuel (drop (255 - profile.nsym) raw))
          0
  full_block fuel offset raw large rest =
      let n = 255 - profile.nsym in
      let chunk = take n raw in
      let len : length chunk ≡ n = omega (arith, length-take n raw, large) in
      let some_data : 0 < length chunk = omega (arith, len, room) in
      let fits : length chunk + profile.nsym ≤ 255 = omega (arith, len, room) in
      let size = good.length-encode chunk some_data fits in
      subst
        (λ r.
          Received codec profile [] offset r
            (codec.encode profile.nsym chunk ++ encode_from fuel (drop n raw)) 0)
        (take-drop n raw)
        (full offset chunk (codec.encode profile.nsym chunk) (drop n raw)
          (encode_from fuel (drop n raw)) [] 0 0 (omega (arith, size, some_data))
          (omega (arith, size, len, room)) no_more (good.decode-encode chunk some_data fits) rest)

  encode_from-Received :
      (fuel offset : ℕ) (raw : Payload)
      → length raw ≤ fuel
      → Received codec profile [] offset raw (encode_from fuel raw) 0
  unfolding encode_from
  encode_from-Received zero offset [] f = nothing offset
  encode_from-Received zero offset (b ∷ raw) f = absurd (omega (arith, f))
  encode_from-Received (suc fuel) offset [] f = nothing offset
  encode_from-Received (suc fuel) offset (b ∷ raw) f =
      elim (Bool-cases (leb (length (b ∷ raw)) (255 - profile.nsym))) [
        | inl small ↦ last_block fuel offset (b ∷ raw) (omega arith) (ground (arith, small))
        | inr large ↦ full_block fuel offset (b ∷ raw) (ground (arith, large)) (
            encode_from-Received fuel _ (drop (255 - profile.nsym) (b ∷ raw))
              (omega (arith, room, f, length-drop (255 - profile.nsym) (b ∷ raw))))
      ]

  -- For fewer than 255 parity bytes and a codec that adds them to a block of up to 255 bytes in
  -- all and decodes what it encodes, decode_rs_bytes returns what encode_rs_bytes encodes, with no
  -- correction.
  pub decode-encode_rs_bytes :
      (raw : Payload)
      → decode_rs_bytes codec profile (encode_rs_bytes codec profile raw) ≡ ok (raw, 0)
  unfolding decode_rs_bytes encode_rs_bytes rs_max_data_bytes encode_from
  decode-encode_rs_bytes raw =
      decode_blocks-Received codec profile [] _ 0 raw (encode_from (length raw) raw) 0
        (encode_from-Received (length raw) 0 raw (omega arith)) (omega arith)
