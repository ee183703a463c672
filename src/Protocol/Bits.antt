-- ===== src/Protocol/Bits.antt =====
-- protocol_basic.py: bytes as bits, and the repetition code on bits.
pub mod Roundtrip
use screen_airdrop.Prelude.{
  ℕ, zero, suc, ◌+◌, ◌*◌, ◌/◌, ◌%◌, List, [], ◌∷◌, ◌++◌, leb, if◌then◌else◌, length, take, drop,
  replicate,
}
use screen_airdrop.Coding.Payload.{Payload}

-- `(b >> i) & 1` for i from 7 down to 0.
unfoldable pub byte_bits : ℕ → List ℕ
byte_bits b =
    b / 128 % 2
    ∷ b / 64 % 2
    ∷ b / 32 % 2
    ∷ b / 16 % 2
    ∷ b / 8 % 2
    ∷ b / 4 % 2
    ∷ b / 2 % 2
    ∷ b % 2
    ∷ []

unfoldable pub bits_from_bytes : Payload → List ℕ
unfolding byte_bits
bits_from_bytes [] = []
bits_from_bytes (b ∷ p) = byte_bits b ++ bits_from_bytes p

-- `v = (v << 1) | b` over eight bits. The lowest bit of `v << 1` is 0 and `b` is 0 or 1, so the
-- disjunction is a sum.
unfoldable pub byte_of_bits : ℕ → List ℕ → ℕ
byte_of_bits v [] = v
byte_of_bits v (b ∷ bits) = byte_of_bits (v * 2 + b % 2) bits

-- Eight bits at a time; a rest of fewer is dropped.
unfoldable pub bytes_from_bits : List ℕ → Payload
unfolding byte_of_bits
bytes_from_bits (a ∷ b ∷ c ∷ d ∷ e ∷ f ∷ g ∷ h ∷ bits) =
    byte_of_bits 0 (a ∷ b ∷ c ∷ d ∷ e ∷ f ∷ g ∷ h ∷ []) ∷ bytes_from_bits bits
bytes_from_bits _ = []

unfoldable pub repeat_all : List ℕ → ℕ → List ℕ
repeat_all [] rep = []
repeat_all (b ∷ bits) rep = replicate rep b ++ repeat_all bits rep

unfoldable pub ecc_repetition : List ℕ → ℕ → List ℕ
unfolding repeat_all
ecc_repetition bits rep = if leb rep 1 then bits else repeat_all bits rep

-- The sum of the bits of one group.
unfoldable pub score : List ℕ → ℕ
score [] = 0
score (b ∷ bits) = b + score bits

-- `for i in range(n)`: the group of index i begins at `i * rep`.
unfoldable pub vote_groups : ℕ → List ℕ → ℕ → List ℕ
unfolding score
vote_groups zero bits rep = []
vote_groups (suc n) bits rep =
    (if leb rep (score (take rep bits) * 2) then 1 else 0) ∷ vote_groups n (drop rep bits) rep

unfoldable pub decode_repetition : List ℕ → ℕ → List ℕ
unfolding vote_groups
decode_repetition bits rep = if leb rep 1 then bits else vote_groups (length bits / rep) bits rep
