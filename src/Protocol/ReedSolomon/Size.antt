-- ===== src/Protocol/ReedSolomon/Size.antt =====
-- The number of bytes of a Reed-Solomon code.
use screen_airdrop.Prelude.{
  ℕ, zero, suc, ◌+◌, ◌-◌, ◌*◌, ◌/◌, ◌%◌, ◌≤◌, ◌<◌, ◌≡◌, min, refl, sym, ap, ◌∙◌, false, [], ◌∷◌,
  map, ◌==◌, leb, if◌then◌else◌, length, length-append, length-take, length-drop, take, drop, inl,
  inr, Bool-cases, arith,
}
use screen_airdrop.Prelude.Slices.{slices_from, concat}
use screen_airdrop.Coding.Payload.{Payload}
use screen_airdrop.Protocol.ReedSolomon.{
  RsEccProfile, RsCodec, rs_max_data_bytes, rs_encoded_size, encode_rs_bytes,
}
use screen_airdrop.Protocol.ReedSolomon.Blocks.{IsCodec}

-- rs_encoded_size, for `c` bytes of data in a block.
abbrev size_of : ℕ → ℕ → ℕ → ℕ
size_of nsym c n = if n % c == 0 then n / c * 255 else n / c * 255 + (n % c + nsym)

div_step : (n c : ℕ) → c ≤ n → 0 < c → n / c ≡ suc ((n - c) / c)
div_step n c h p = grind arith

mod_step : (n c : ℕ) → c ≤ n → 0 < c → n % c ≡ (n - c) % c
mod_step n c h p = grind arith

div_small : (n c : ℕ) → n < c → n / c ≡ 0
div_small n c h = grind arith

mod_small : (n c : ℕ) → n < c → n % c ≡ n
mod_small n c h = grind arith

size-step : (nsym c n : ℕ) → c ≤ n → 0 < c → size_of nsym c n ≡ 255 + size_of nsym c (n - c)
size-step nsym c n h p = rw (div_step n c h p, mod_step n c h p) (ground arith)

size-small : (nsym c n : ℕ) → 0 < n → n < c → size_of nsym c n ≡ n + nsym
size-small nsym c n p h = rw (div_small n c h, mod_small n c h) (ground (arith, p))

size-zero : (nsym c : ℕ) → 0 < c → size_of nsym c 0 ≡ 0
size-zero nsym c p = rw (div_small 0 c p, mod_small 0 c p) refl

size-guard : (nsym c n : ℕ) → 0 < c → size_of nsym c n ≡ (if n == 0 then 0 else size_of nsym c n)
size-guard nsym c zero p = size-zero nsym c p
size-guard nsym c (suc n) p = let other : (suc n == 0) ≡ false = ground arith in rw other refl

-- One block of the data, and the size of the rest.
size-block :
    (nsym n chunk : ℕ)
    → nsym < 255
    → 0 < n
    → chunk ≡ min (255 - nsym) n
    → chunk + nsym + size_of nsym (255 - nsym) (n - (255 - nsym)) ≡ size_of nsym (255 - nsym) n
size-block nsym n chunk room some_data e = elim (Bool-cases (leb (255 - nsym) n)) [
  | inl large ↦
      let all : 255 - nsym ≤ n = ground (arith, large) in
      omega (arith, room, e, all, size-step nsym (255 - nsym) n all (omega (arith, room)))
  | inr small ↦
      let less : n < 255 - nsym = ground (arith, small) in
      let none_left : n - (255 - nsym) ≡ 0 = omega (arith, less) in
      let rest =
        ap (size_of nsym (255 - nsym)) none_left
        ∙ size-zero nsym (255 - nsym) (omega (arith, room)) in
      omega (arith, e, less, rest, size-small nsym (255 - nsym) n some_data less)
]

module _ (codec : RsCodec) (profile : RsEccProfile) (room : profile.nsym < 255)
    (good : IsCodec codec profile.nsym) where
  length-encode_from :
      (fuel : ℕ) (raw : Payload)
      → length raw ≤ fuel
      → length
          (concat (map (codec.encode profile.nsym) (slices_from fuel (255 - profile.nsym) raw)))
        ≡ size_of profile.nsym (255 - profile.nsym) (length raw)
  length-encode_from zero [] f =
      sym (size-zero profile.nsym (255 - profile.nsym) (omega (arith, room)))
  length-encode_from zero (b ∷ raw) f = absurd (omega (arith, f))
  length-encode_from (suc fuel) [] f =
      sym (size-zero profile.nsym (255 - profile.nsym) (omega (arith, room)))
  length-encode_from (suc fuel) (b ∷ raw) f =
      let n = 255 - profile.nsym in
      let chunk = take n (b ∷ raw) in
      let left = drop n (b ∷ raw) in
      let len = length-take n (b ∷ raw) in
      let later = length-drop n (b ∷ raw) in
      let some_data : 0 < length chunk = omega (arith, len, room) in
      let fits : length chunk + profile.nsym ≤ 255 = omega (arith, len, room) in
      let rest =
        length-encode_from fuel left (omega (arith, f, later, room))
        ∙ ap (size_of profile.nsym n) later in
      length-append (codec.encode profile.nsym chunk) _
      ∙ omega (
        arith,
        good.length-encode chunk some_data fits,
        rest,
        size-block profile.nsym (length (b ∷ raw)) (length chunk) room (omega arith) len,
      )

  -- For fewer than 255 parity bytes and a codec that adds them to a block of up to 255 bytes in
  -- all and decodes what it encodes, encode_rs_bytes returns as many bytes as rs_encoded_size
  -- computes from the length of the data.
  pub length-encode_rs_bytes :
      (raw : Payload)
      → length (encode_rs_bytes codec profile raw) ≡ rs_encoded_size profile (length raw)
  unfolding encode_rs_bytes rs_encoded_size rs_max_data_bytes
  length-encode_rs_bytes raw =
      length-encode_from (length raw) raw (omega arith)
      ∙ size-guard profile.nsym (255 - profile.nsym) (length raw) (omega (arith, room))
