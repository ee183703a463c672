-- ===== src/Protocol/Bits/Roundtrip.antt =====
-- Bits back to bytes, and the votes of the repetition code.
use screen_airdrop.Prelude.{
  ℕ, zero, suc, ◌+◌, ◌-◌, ◌*◌, ◌/◌, ◌<◌, ◌≤◌, ◌≡◌, refl, sym, subst, ap, ap₂, List, [], ◌∷◌, ◌++◌,
  leb, if◌then◌else◌, ◌==◌, length, take, drop, replicate, arith, inl, inr, Bool-cases, All,
  length-take, length-drop,
}
use mathlib.Core.List.{append_assoc}
use screen_airdrop.Coding.Payload.{Payload}
use screen_airdrop.Protocol.Bits.{
  byte_bits, bits_from_bytes, byte_of_bits, bytes_from_bits, repeat_all, ecc_repetition, score,
  vote_groups, decode_repetition,
}

abbrev pub IsBytes : Payload → Type 0
IsBytes = All (λ b. b < 256)

abbrev pub Below : ℕ → List ℕ → Type 0
Below base = All (λ b. b < base)

abbrev pub IsBits : List ℕ → Type 0
IsBits = Below 2

byte_of_bits-byte_bits : (b : ℕ) → b < 256 → byte_of_bits 0 (byte_bits b) ≡ b
unfolding byte_of_bits byte_bits
byte_of_bits-byte_bits b h = omega arith

pub bytes-bits :
    (p : Payload) (rest : List ℕ)
    → IsBytes p
    → bytes_from_bits (bits_from_bytes p ++ rest) ≡ p ++ bytes_from_bits rest
unfolding bits_from_bytes bytes_from_bits byte_bits
bytes-bits [] rest h = refl
bytes-bits (b ∷ p) rest h = ap₂ ◌∷◌ (byte_of_bits-byte_bits b h.0) (bytes-bits p rest h.1)

pub bits_from_bytes-IsBits : (p : Payload) → IsBits (bits_from_bytes p)
unfolding bits_from_bytes byte_bits
bits_from_bytes-IsBits [] = tt
bits_from_bytes-IsBits (b ∷ p) = (
  omega arith,
  (
    omega arith,
    (
      omega arith,
      (
        omega arith,
        (omega arith, (omega arith, (omega arith, (omega arith, bits_from_bytes-IsBits p)))),
      ),
    ),
  ),
)

-- How many bits of a group differ from `b`.
unfoldable pub flips : ℕ → List ℕ → ℕ
flips b [] = 0
flips b (c ∷ group) = (if b == c then 0 else 1) + flips b group

-- Each bit or symbol, below `base`, has a group of `rep` received ones, of which fewer than half
-- differ from it. Anything may follow the groups.
abbrev pub Received : ℕ → ℕ → List ℕ → List ℕ → Type 0
Received base rep [] bits = Unit
Received base rep (b ∷ sent) bits =
    (rep ≤ length bits)
    × Below base (take rep bits)
    × (flips b (take rep bits) * 2 < rep)
    × Received base rep sent (drop rep bits)

-- What follows the groups.
abbrev pub after : ℕ → List ℕ → List ℕ → List ℕ
after rep [] bits = bits
after rep (b ∷ sent) bits = after rep sent (drop rep bits)

score-flips :
    (b : ℕ) (group : List ℕ)
    → b < 2
    → IsBits group
    → (if b == 1 then score group + flips b group else flips b group)
      ≡ (if b == 1 then length group else score group)
unfolding score flips
score-flips b [] h g = ground arith
score-flips b (c ∷ group) h g = ground (arith, score-flips b group h g.1)

pub div_step : (n r : ℕ) → r ≤ n → 0 < r → n / r ≡ suc ((n - r) / r)
div_step n r h p = grind arith

vote :
    (b rep : ℕ) (group : List ℕ)
    → b < 2
    → IsBits group
    → length group ≡ rep
    → flips b group * 2 < rep
    → (if leb rep (score group * 2) then 1 else 0) ≡ b
vote b rep group h g e f = ground (arith, score-flips b group h g)

vote_groups-Received :
    (rep : ℕ) (sent bits : List ℕ)
    → 0 < rep
    → IsBits sent
    → Received 2 rep sent bits
    → vote_groups (length bits / rep) bits rep
      ≡ sent ++ vote_groups (length (after rep sent bits) / rep) (after rep sent bits) rep
unfolding vote_groups
vote_groups-Received rep [] bits p s r = refl
vote_groups-Received rep (b ∷ sent) bits p s (le, g, f, r) =
    let n = length-take rep bits in
    rw (div_step (length bits) rep le p, ← length-drop rep bits)
      (ap₂ ◌∷◌ (vote b rep (take rep bits) s.0 g (omega (arith, n, le)) f)
        (vote_groups-Received rep sent (drop rep bits) p s.1 r))

pub single-Received :
    (base : ℕ) (sent bits : List ℕ) → Received base 1 sent bits → bits ≡ sent ++ after 1 sent bits
unfolding flips
single-Received base [] bits r = refl
single-Received base (b ∷ sent) [] (le, g, f, r) = absurd (omega (arith, le))
single-Received base (b ∷ sent) (c ∷ bits) (le, g, f, r) =
    ap₂ ◌∷◌ (ground (arith, f)) (single-Received base sent bits r)

-- For at least one copy of each bit, from received bits in which fewer than half of the copies of
-- each bit are wrong, decode_repetition returns the bits that were sent, and then what it reads
-- from the rest.
pub decode_repetition-Received :
    (rep : ℕ) (sent bits : List ℕ)
    → 0 < rep
    → IsBits sent
    → Received 2 rep sent bits
    → (rest : List ℕ) × (decode_repetition bits rep ≡ sent ++ rest)
unfolding decode_repetition
decode_repetition-Received rep sent bits p s r = elim (Bool-cases (leb rep 1)) [
  | inl one ↦
      let e : rep ≡ 1 = ground arith in
      (
        after 1 sent bits,
        rw one (single-Received 2 sent bits (subst (λ k. Received 2 k sent bits) e r)),
      )
  | inr many ↦ (
    vote_groups (length (after rep sent bits) / rep) (after rep sent bits) rep,
    rw many (vote_groups-Received rep sent bits p s r),
  )
]

flips_self : (b rep : ℕ) → flips b (replicate rep b) ≡ 0
unfolding flips
flips_self b zero = refl
flips_self b (suc rep) = ground (arith, flips_self b rep)

replicate-Below : (base b rep : ℕ) → b < base → Below base (replicate rep b)
replicate-Below base b zero h = tt
replicate-Below base b (suc rep) h = (h, replicate-Below base b rep h)

take-replicate : (b rep : ℕ) (rest : List ℕ) → take rep (replicate rep b ++ rest) ≡ replicate rep b
take-replicate b zero rest = refl
take-replicate b (suc rep) rest = ap (◌∷◌ b) (take-replicate b rep rest)

drop-replicate : (b rep : ℕ) (rest : List ℕ) → drop rep (replicate rep b ++ rest) ≡ rest
drop-replicate b zero rest = refl
drop-replicate b (suc rep) rest = drop-replicate b rep rest

le-replicate : (b rep : ℕ) (rest : List ℕ) → rep ≤ length (replicate rep b ++ rest)
le-replicate b zero rest = omega arith
le-replicate b (suc rep) rest = omega (arith, le-replicate b rep rest)

repeat_all-Received :
    (base rep : ℕ) (sent rest : List ℕ)
    → 0 < rep
    → Below base sent
    → Received base rep sent (repeat_all sent rep ++ rest)
unfolding repeat_all
repeat_all-Received base rep [] rest p s = tt
repeat_all-Received base rep (b ∷ sent) rest p s =
    rw
      (
        append_assoc (replicate rep b) (repeat_all sent rep) rest,
        take-replicate b rep (repeat_all sent rep ++ rest),
        drop-replicate b rep (repeat_all sent rep ++ rest),
        flips_self b rep,
      )
      (
        le-replicate b rep (repeat_all sent rep ++ rest),
        replicate-Below base b rep s.0,
        p,
        repeat_all-Received base rep sent rest p s.1,
      )

repeat_once : (bits : List ℕ) → repeat_all bits 1 ≡ bits
unfolding repeat_all
repeat_once [] = refl
repeat_once (b ∷ bits) = ap (◌∷◌ b) (repeat_once bits)

-- What is sent is received without a flip.
pub ecc_repetition-Received :
    (base rep : ℕ) (sent rest : List ℕ)
    → 0 < rep
    → Below base sent
    → Received base rep sent (ecc_repetition sent rep ++ rest)
unfolding ecc_repetition
ecc_repetition-Received base rep sent rest p s = elim (Bool-cases (leb rep 1)) [
  | inl one ↦
      let e : rep ≡ 1 = ground arith in
      rw one (
        subst (λ k. Received base k sent (sent ++ rest)) (sym e)
          (subst (λ bits. Received base 1 sent (bits ++ rest)) (repeat_once sent)
            (repeat_all-Received base 1 sent rest (omega arith) s)))
  | inr many ↦ rw many (repeat_all-Received base rep sent rest p s)
]
