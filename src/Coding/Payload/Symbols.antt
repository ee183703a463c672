-- ===== src/Coding/Payload/Symbols.antt =====
-- Payloads of one width as vectors over GF(256): the laws of their sums and multiples.
use screen_airdrop.Prelude.{
  ℕ, zero, suc, ◌<◌, ◌≡◌, refl, ap, ap₂, ◌∙◌, [], ◌∷◌, map, bit_xor, length, replicate, arith,
}
use screen_airdrop.Prelude.Xor.{
  byte-bit_xor, zero-bit_xor, bit_xor_comm, bit_xor_assoc, bit_xor_self,
}
use screen_airdrop.Coding.Gf256.{gf256_mul}
use screen_airdrop.Coding.Gf256.Field.{
  low_byte, mul-lt, mul_assoc, mul-bit_xor, bit_xor-mul, mul-zero, zero-mul, mul-one,
}
use screen_airdrop.Coding.Payload.{Payload, gf256_scale_payload, xor_into}

-- A payload of `w` bytes.
abbrev pub Symbol : ℕ → Payload → Type 0
Symbol zero [] = Unit
Symbol zero (b ∷ p) = ⊥
Symbol (suc w) [] = ⊥
Symbol (suc w) (b ∷ p) = (b < 256) × Symbol w p

abbrev pub zeros : ℕ → Payload
zeros w = replicate w 0

pub length-Symbol : (w : ℕ) (p : Payload) → Symbol w p → length p ≡ w
length-Symbol zero [] s = refl
length-Symbol zero (b ∷ p) s = absurd s
length-Symbol (suc w) [] s = absurd s
length-Symbol (suc w) (b ∷ p) s = ap suc (length-Symbol w p s.1)

pub zeros-Symbol : (w : ℕ) → Symbol w (zeros w)
zeros-Symbol zero = tt
zeros-Symbol (suc w) = (omega arith, zeros-Symbol w)

-- Each byte multiplied, without the shortcuts.
scaled : Payload → ℕ → Payload
scaled [] c = []
scaled (b ∷ p) c = gf256_mul b c ∷ scaled p c

scaled_zero : (p : Payload) → scaled p 0 ≡ replicate (length p) 0
unfolding scaled
scaled_zero [] = refl
scaled_zero (b ∷ p) = ap₂ {B = Payload} ◌∷◌ (mul-zero b) (scaled_zero p)

scaled_one : (w : ℕ) (p : Payload) → Symbol w p → scaled p 1 ≡ p
unfolding scaled
scaled_one zero [] s = refl
scaled_one zero (b ∷ p) s = absurd s
scaled_one (suc w) [] s = absurd s
scaled_one (suc w) (b ∷ p) s = ap₂ {B = Payload} ◌∷◌ (mul-one b s.0) (scaled_one w p s.1)

scaled-map : (p : Payload) (c : ℕ) → map (λ b. gf256_mul b c) p ≡ scaled p c
unfolding scaled
scaled-map [] c = refl
scaled-map (b ∷ p) c = ap (◌∷◌ (gf256_mul b c)) (scaled-map p c)

-- The shortcuts for the factors 0 and 1 change nothing.
scale-eq-scaled :
    (w : ℕ) (p : Payload) (c : ℕ) → Symbol w p → c < 256 → gf256_scale_payload p c ≡ scaled p c
unfolding gf256_scale_payload
scale-eq-scaled w p c s h =
    ground (arith, low_byte c h, scaled_zero p, scaled_one w p s, scaled-map p c)

pub xor-Symbol : (w : ℕ) (p q : Payload) → Symbol w p → Symbol w q → Symbol w (xor_into p q)
unfolding xor_into
xor-Symbol zero [] [] s t = tt
xor-Symbol (suc w) (b ∷ p) (c ∷ q) s t = (byte-bit_xor b c s.0 t.0, xor-Symbol w p q s.1 t.1)
xor-Symbol _ _ _ s t = absurd (assumption)

pub xor_comm : (w : ℕ) (p q : Payload) → Symbol w p → Symbol w q → xor_into p q ≡ xor_into q p
unfolding xor_into
xor_comm zero [] [] s t = refl
xor_comm (suc w) (b ∷ p) (c ∷ q) s t =
    ap₂ {B = Payload} ◌∷◌ (bit_xor_comm b c) (xor_comm w p q s.1 t.1)
xor_comm _ _ _ s t = absurd (assumption)

pub xor_assoc :
    (w : ℕ) (p q r : Payload)
    → Symbol w p
    → Symbol w q
    → Symbol w r
    → xor_into (xor_into p q) r ≡ xor_into p (xor_into q r)
unfolding xor_into
xor_assoc zero [] [] [] s t u = refl
xor_assoc (suc w) (b ∷ p) (c ∷ q) (d ∷ r) s t u =
    ap₂ {B = Payload} ◌∷◌ (bit_xor_assoc b c d) (xor_assoc w p q r s.1 t.1 u.1)
xor_assoc _ _ _ _ s t u = absurd (assumption)

pub zeros-xor : (w : ℕ) (p : Payload) → Symbol w p → xor_into (zeros w) p ≡ p
unfolding xor_into
zeros-xor zero [] s = refl
zeros-xor (suc w) (b ∷ p) s = ap₂ {B = Payload} ◌∷◌ (zero-bit_xor b) (zeros-xor w p s.1)
zeros-xor _ _ s = absurd (assumption)

pub xor-zeros : (w : ℕ) (p : Payload) → Symbol w p → xor_into p (zeros w) ≡ p
xor-zeros w p s = xor_comm w p (zeros w) s (zeros-Symbol w) ∙ zeros-xor w p s

pub xor_self : (w : ℕ) (p : Payload) → Symbol w p → xor_into p p ≡ zeros w
unfolding xor_into
xor_self zero [] s = refl
xor_self (suc w) (b ∷ p) s = ap₂ {B = Payload} ◌∷◌ (bit_xor_self b) (xor_self w p s.1)
xor_self _ _ s = absurd (assumption)

scaled-Symbol : (w : ℕ) (p : Payload) (c : ℕ) → Symbol w p → c < 256 → Symbol w (scaled p c)
unfolding scaled
scaled-Symbol zero [] c s h = tt
scaled-Symbol (suc w) (b ∷ p) c s h = (mul-lt b c s.0 h, scaled-Symbol w p c s.1 h)
scaled-Symbol _ _ c s h = absurd (assumption)

scaled-xor :
    (w : ℕ) (p q : Payload) (c : ℕ)
    → Symbol w p
    → Symbol w q
    → c < 256
    → scaled (xor_into p q) c ≡ xor_into (scaled p c) (scaled q c)
unfolding scaled xor_into
scaled-xor zero [] [] c s t h = refl
scaled-xor (suc w) (b ∷ p) (d ∷ q) c s t h =
    ap₂ {B = Payload} ◌∷◌ (bit_xor-mul b d c s.0 t.0 h) (scaled-xor w p q c s.1 t.1 h)
scaled-xor _ _ _ c s t h = absurd (assumption)

scaled-bit_xor :
    (w : ℕ) (p : Payload) (c d : ℕ)
    → Symbol w p
    → c < 256
    → d < 256
    → scaled p (bit_xor c d) ≡ xor_into (scaled p c) (scaled p d)
unfolding scaled xor_into
scaled-bit_xor zero [] c d s h k = refl
scaled-bit_xor (suc w) (b ∷ p) c d s h k =
    ap₂ {B = Payload} ◌∷◌ (mul-bit_xor b c d s.0 h k) (scaled-bit_xor w p c d s.1 h k)
scaled-bit_xor _ _ c d s h k = absurd (assumption)

scaled-scaled :
    (w : ℕ) (p : Payload) (c d : ℕ)
    → Symbol w p
    → c < 256
    → d < 256
    → scaled (scaled p c) d ≡ scaled p (gf256_mul c d)
unfolding scaled
scaled-scaled zero [] c d s h k = refl
scaled-scaled (suc w) (b ∷ p) c d s h k =
    ap₂ {B = Payload} ◌∷◌ (mul_assoc b c d s.0 h k) (scaled-scaled w p c d s.1 h k)
scaled-scaled _ _ c d s h k = absurd (assumption)

pub scale-Symbol :
    (w : ℕ) (p : Payload) (c : ℕ) → Symbol w p → c < 256 → Symbol w (gf256_scale_payload p c)
scale-Symbol w p c s h = rw (scale-eq-scaled w p c s h) (scaled-Symbol w p c s h)

pub scale_one : (w : ℕ) (p : Payload) → Symbol w p → gf256_scale_payload p 1 ≡ p
scale_one w p s = scale-eq-scaled w p 1 s (omega arith) ∙ scaled_one w p s

pub scale_zero : (w : ℕ) (p : Payload) → Symbol w p → gf256_scale_payload p 0 ≡ zeros w
scale_zero w p s =
    scale-eq-scaled w p 0 s (omega arith) ∙ scaled_zero p ∙ ap zeros (length-Symbol w p s)

pub scale-xor :
    (w : ℕ) (p q : Payload) (c : ℕ)
    → Symbol w p
    → Symbol w q
    → c < 256
    → gf256_scale_payload (xor_into p q) c
      ≡ xor_into (gf256_scale_payload p c) (gf256_scale_payload q c)
scale-xor w p q c s t h = cc (
  scale-eq-scaled w (xor_into p q) c (xor-Symbol w p q s t) h,
  scale-eq-scaled w p c s h,
  scale-eq-scaled w q c t h,
  scaled-xor w p q c s t h,
)

pub scale-bit_xor :
    (w : ℕ) (p : Payload) (c d : ℕ)
    → Symbol w p
    → c < 256
    → d < 256
    → gf256_scale_payload p (bit_xor c d)
      ≡ xor_into (gf256_scale_payload p c) (gf256_scale_payload p d)
scale-bit_xor w p c d s h k = cc (
  scale-eq-scaled w p (bit_xor c d) s (byte-bit_xor c d h k),
  scale-eq-scaled w p c s h,
  scale-eq-scaled w p d s k,
  scaled-bit_xor w p c d s h k,
)

pub scale-scale :
    (w : ℕ) (p : Payload) (c d : ℕ)
    → Symbol w p
    → c < 256
    → d < 256
    → gf256_scale_payload (gf256_scale_payload p c) d ≡ gf256_scale_payload p (gf256_mul c d)
scale-scale w p c d s h k = cc (
  scale-eq-scaled w (gf256_scale_payload p c) d (scale-Symbol w p c s h) k,
  scale-eq-scaled w p c s h,
  scale-eq-scaled w p (gf256_mul c d) s (mul-lt c d h k),
  scaled-scaled w p c d s h k,
)

zeros-scaled : (w c : ℕ) → scaled (zeros w) c ≡ zeros w
unfolding scaled
zeros-scaled zero c = refl
zeros-scaled (suc w) c = ap₂ {B = Payload} ◌∷◌ (zero-mul c) (zeros-scaled w c)

pub zeros-scale : (w c : ℕ) → c < 256 → gf256_scale_payload (zeros w) c ≡ zeros w
zeros-scale w c h = scale-eq-scaled w (zeros w) c (zeros-Symbol w) h ∙ zeros-scaled w c

-- xor_into a (xor_into b c) with the first two exchanged
pub xor_left_comm :
    (w : ℕ) (p q r : Payload)
    → Symbol w p
    → Symbol w q
    → Symbol w r
    → xor_into p (xor_into q r) ≡ xor_into q (xor_into p r)
xor_left_comm w p q r s t u =
    cc (xor_assoc w p q r s t u, xor_assoc w q p r t s u, xor_comm w p q s t)

-- p + (p + q) = q
pub xor_cancel : (w : ℕ) (p q : Payload) → Symbol w p → Symbol w q → xor_into p (xor_into p q) ≡ q
xor_cancel w p q s t = cc (xor_assoc w p p q s s t, xor_self w p s, zeros-xor w q t)
