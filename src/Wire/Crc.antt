-- ===== src/Wire/Crc.antt =====
-- zlib.crc32, and crc16_ccitt_false of common/transport/layout_basic.py.
use screen_airdrop.Prelude.{
  ℕ, zero, suc, ◌*◌, ◌/◌, ◌%◌, ◌<◌, [], ◌∷◌, bit_and, bit_xor, ◌==◌, if◌then◌else◌, arith,
}
use screen_airdrop.Coding.Payload.{Payload}

-- One bit of zlib's crc32, the polynomial reflected.
unfoldable pub crc32_bit : ℕ → ℕ
crc32_bit crc = if crc % 2 == 1 then bit_xor (crc / 2) 0xedb8_8320 else crc / 2

unfoldable pub crc32_bits : ℕ → ℕ → ℕ
unfolding crc32_bit
crc32_bits zero crc = crc
crc32_bits (suc n) crc = crc32_bits n (crc32_bit crc)

unfoldable pub crc32_loop : ℕ → Payload → ℕ
unfolding crc32_bits
crc32_loop crc [] = crc
crc32_loop crc (b ∷ p) = crc32_loop (crc32_bits 8 (bit_xor crc b)) p

-- crc32 of protocol_basic.py, with the mask that it applies.
unfoldable pub crc32 : Payload → ℕ
unfolding crc32_loop
crc32 p = bit_xor (crc32_loop 0xffff_ffff p) 0xffff_ffff % 4294967296

-- One round of the inner loop.
unfoldable pub crc16_bit : ℕ → ℕ
crc16_bit crc =
    if bit_and crc 0x8000 == 0 then crc * 2 % 65536 else bit_xor (crc * 2) 0x1021 % 65536

unfoldable pub crc16_bits : ℕ → ℕ → ℕ
unfolding crc16_bit
crc16_bits zero crc = crc
crc16_bits (suc n) crc = crc16_bits n (crc16_bit crc)

unfoldable pub crc16_loop : ℕ → Payload → ℕ
unfolding crc16_bits
crc16_loop crc [] = crc
crc16_loop crc (b ∷ p) = crc16_loop (crc16_bits 8 (bit_xor crc (b % 256 * 256))) p

unfoldable pub crc16_ccitt_false : Payload → ℕ → ℕ
unfolding crc16_loop
crc16_ccitt_false p init = crc16_loop (init % 65536) p

pub crc32-lt : (p : Payload) → crc32 p < 4294967296
unfolding crc32
crc32-lt p = omega arith

crc16_bit-lt : (crc : ℕ) → crc16_bit crc < 65536
unfolding crc16_bit
crc16_bit-lt crc = ground arith

crc16_bits-lt : (n crc : ℕ) → crc16_bits (suc n) crc < 65536
unfolding crc16_bits
crc16_bits-lt zero crc = crc16_bit-lt crc
crc16_bits-lt (suc n) crc = crc16_bits-lt n (crc16_bit crc)

crc16_loop-lt : (p : Payload) (crc : ℕ) → crc < 65536 → crc16_loop crc p < 65536
unfolding crc16_loop
crc16_loop-lt [] crc h = h
crc16_loop-lt (b ∷ p) crc h =
    crc16_loop-lt p (crc16_bits 8 (bit_xor crc (b % 256 * 256)))
      (crc16_bits-lt 7 (bit_xor crc (b % 256 * 256)))

pub crc16-lt : (p : Payload) (init : ℕ) → crc16_ccitt_false p init < 65536
unfolding crc16_ccitt_false
crc16-lt p init = crc16_loop-lt p (init % 65536) (omega arith)
