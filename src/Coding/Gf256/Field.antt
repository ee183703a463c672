-- ===== src/Coding/Gf256/Field.antt =====
-- GF(256) is a field: the laws of the table-driven product on bytes.
use screen_airdrop.Prelude.{
  ℕ, zero, suc, ◌+◌, ◌-◌, ◌%◌, ◌<◌, ◌≡◌, refl, sym, ap, ◌∙◌, Bool, true, ◌⊎◌, inl, inr, bit_and,
  bit_xor, arith, ◌==◌, all_below, all_below→at, ==_iff, Bool-cases, ltb, ap₂,
}
use screen_airdrop.Prelude.Xor.{byte-bit_xor, bit_xor-zero}
use screen_airdrop.Prelude.Result.{ok}
use screen_airdrop.Coding.Tables.{
  exp_at, log_at, double, exp_at_wrap, exp_at_pos, exp_at-lt, log_at-exp_at, exp_at_next, log_at-lt,
  exp_at-log_at, exp_table,
}
use screen_airdrop.Coding.Gf256.{gf256_mul, gf256_inv}

low_byte_table : all_below 256 (λ a. bit_and a 0xff == a) ≡ true
unfolding all_below
low_byte_table = refl

pub low_byte : (a : ℕ) → a < 256 → bit_and a 0xff ≡ a
low_byte a h = (==_iff _ a).0 (all_below→at 256 _ low_byte_table a h)

-- The product of two bytes other than 0, by their logarithms.
mul_pos :
    (a b : ℕ) → 0 < a → a < 256 → 0 < b → b < 256 → gf256_mul a b ≡ exp_at (log_at a + log_at b)
unfolding gf256_mul
mul_pos a b pa ha pb hb = ground (arith, low_byte a ha, low_byte b hb)

pub zero-mul : (b : ℕ) → gf256_mul 0 b ≡ 0
unfolding gf256_mul
zero-mul b = refl

pub mul-zero : (a : ℕ) → gf256_mul a 0 ≡ 0
unfolding gf256_mul
mul-zero a = ground arith

-- The power of 2 with exponent `i`, for any `i`.
power : ℕ → ℕ
power i = exp_at (i % 255)

exp_at-power : (i : ℕ) → i < 510 → exp_at i ≡ power i
unfolding power
exp_at-power i h = elim (Bool-cases (ltb i 255)) [
  | inl low ↦ ap exp_at (ground arith)
  | inr high ↦
      let e : i ≡ i % 255 + 255 = ground arith in ap exp_at e ∙ exp_at_wrap (i % 255) (omega arith)
]

power_pos : (i : ℕ) → 0 < power i
unfolding power
power_pos i = exp_at_pos (i % 255) (omega arith)

power-lt : (i : ℕ) → power i < 256
unfolding power
power-lt i = exp_at-lt (i % 255) (omega arith)

log_at-power : (i : ℕ) → log_at (power i) ≡ i % 255
unfolding power
log_at-power i = log_at-exp_at (i % 255) (omega arith)

power-log_at : (a : ℕ) → 0 < a → a < 256 → power (log_at a) ≡ a
power-log_at a p h =
    sym (exp_at-power (log_at a) (omega (arith, log_at-lt a p h))) ∙ exp_at-log_at a p h

power_mod : (i j : ℕ) → i % 255 ≡ j % 255 → power i ≡ power j
unfolding power
power_mod i j e = ap exp_at e

mul-power : (i j : ℕ) → gf256_mul (power i) (power j) ≡ power (i + j)
mul-power i j =
    mul_pos (power i) (power j) (power_pos i) (power-lt i) (power_pos j) (power-lt j)
    ∙ ap exp_at (ap₂ (λ (a b : ℕ). a + b) (log_at-power i) (log_at-power j))
    ∙ exp_at-power (i % 255 + j % 255) (omega arith)
    ∙ power_mod (i % 255 + j % 255) (i + j) (omega arith)

-- A byte is 0 or a power of 2.
byte-cases : (a : ℕ) → a < 256 → (a ≡ 0) ⊎ ((i : ℕ) × (a ≡ power i))
byte-cases zero h = inl refl
byte-cases (suc a) h = inr (log_at (suc a), sym (power-log_at (suc a) (omega arith) h))

pub mul-lt : (a b : ℕ) → a < 256 → b < 256 → gf256_mul a b < 256
mul-lt a b ha hb = elim (byte-cases a ha) [
  | inl e ↦ rw (e, zero-mul) (omega arith)
  | inr (i, e) ↦ elim (byte-cases b hb) [
    | inl f ↦ rw (f, mul-zero) (omega arith)
    | inr (j, f) ↦ rw (e, f, mul-power) (power-lt (i + j))
  ]
]

pub mul_comm : (a b : ℕ) → a < 256 → b < 256 → gf256_mul a b ≡ gf256_mul b a
mul_comm a b ha hb = elim (byte-cases a ha) [
  | inl e ↦ rw e (zero-mul b ∙ sym (mul-zero b))
  | inr (i, e) ↦ elim (byte-cases b hb) [
    | inl f ↦ rw f (mul-zero a ∙ sym (zero-mul a))
    | inr (j, f) ↦
        rw (e, f) (mul-power i j ∙ power_mod (i + j) (j + i) (omega arith) ∙ sym (mul-power j i))
  ]
]

mul_assoc_power :
    (i j k : ℕ)
    → gf256_mul (gf256_mul (power i) (power j)) (power k)
      ≡ gf256_mul (power i) (gf256_mul (power j) (power k))
mul_assoc_power i j k =
    ap (λ t. gf256_mul t (power k)) (mul-power i j)
    ∙ mul-power (i + j) k
    ∙ power_mod (i + j + k) (i + (j + k)) (omega arith)
    ∙ sym (ap (gf256_mul (power i)) (mul-power j k) ∙ mul-power i (j + k))

-- On bytes, gf256_mul is associative.
pub mul_assoc :
    (a b c : ℕ)
    → a < 256
    → b < 256
    → c < 256
    → gf256_mul (gf256_mul a b) c ≡ gf256_mul a (gf256_mul b c)
mul_assoc a b c ha hb hc = elim (byte-cases a ha) [
  | inl e ↦ rw e (cc (zero-mul b, zero-mul c, zero-mul (gf256_mul b c)))
  | inr (i, e) ↦ elim (byte-cases b hb) [
    | inl f ↦ rw f (cc (zero-mul c, mul-zero a))
    | inr (j, f) ↦ elim (byte-cases c hc) [
      | inl g ↦ rw g (cc (mul-zero b, mul-zero a, mul-zero (gf256_mul a b)))
      | inr (k, g) ↦ rw (e, f, g) (mul_assoc_power i j k)
    ]
  ]
]

-- `double` is linear: 65,536 pairs of bytes, by evaluation.
double_checks : ℕ → ℕ → Bool
unfolding double
double_checks a b = double (bit_xor a b) == bit_xor (double a) (double b)

double_checked : all_below 256 (λ a. all_below 256 (double_checks a)) ≡ true
unfolding all_below double_checks
double_checked = refl

double-bit_xor :
    (a b : ℕ) → a < 256 → b < 256 → double (bit_xor a b) ≡ bit_xor (double a) (double b)
unfolding double_checks
double-bit_xor a b ha hb = (==_iff _ _).0 (
    all_below→at 256 (double_checks a)
      (all_below→at 256 (λ a. all_below 256 (double_checks a)) double_checked a ha) b hb)

double_zero : double 0 ≡ 0
unfolding double
double_zero = refl

double-power : (i : ℕ) → double (power i) ≡ power (i + 1)
double-power i =
    unfold power in
    sym (exp_at_next (i % 255) (omega arith))
    ∙ exp_at-power (i % 255 + 1) (omega arith)
    ∙ power_mod (i % 255 + 1) (i + 1) (omega arith)

-- The product with `power i` doubles `i` times.
double_times : ℕ → ℕ → ℕ
double_times zero b = b
double_times (suc i) b = double (double_times i b)

double_times_zero : (i : ℕ) → double_times i 0 ≡ 0
unfolding double_times
double_times_zero zero = refl
double_times_zero (suc i) = ap double (double_times_zero i) ∙ double_zero

double_times-power : (i j : ℕ) → double_times i (power j) ≡ power (i + j)
unfolding double_times
double_times-power zero j = ap power (omega arith)
double_times-power (suc i) j =
    ap double (double_times-power i j)
    ∙ double-power (i + j)
    ∙ power_mod (i + j + 1) (suc i + j) (omega arith)

mul_double : (i b : ℕ) → b < 256 → gf256_mul (power i) b ≡ double_times i b
mul_double i b h = elim (byte-cases b h) [
  | inl e ↦ rw e (mul-zero (power i) ∙ sym (double_times_zero i))
  | inr (j, e) ↦ rw e (mul-power i j ∙ sym (double_times-power i j))
]

double_times-lt : (i b : ℕ) → b < 256 → double_times i b < 256
double_times-lt i b h = rw (← mul_double i b h) (mul-lt (power i) b (power-lt i) h)

double_times-bit_xor :
    (i b c : ℕ)
    → b < 256
    → c < 256
    → double_times i (bit_xor b c) ≡ bit_xor (double_times i b) (double_times i c)
unfolding double_times
double_times-bit_xor zero b c hb hc = refl
double_times-bit_xor (suc i) b c hb hc =
    ap double (double_times-bit_xor i b c hb hc)
    ∙ double-bit_xor (double_times i b) (double_times i c) (double_times-lt i b hb)
        (double_times-lt i c hc)

-- On bytes, gf256_mul distributes over the exclusive or.
pub mul-bit_xor :
    (a b c : ℕ)
    → a < 256
    → b < 256
    → c < 256
    → gf256_mul a (bit_xor b c) ≡ bit_xor (gf256_mul a b) (gf256_mul a c)
mul-bit_xor a b c ha hb hc = elim (byte-cases a ha) [
  | inl e ↦ rw e (cc (zero-mul (bit_xor b c), zero-mul b, zero-mul c, bit_xor-zero 0))
  | inr (i, e) ↦ rw e (
      cc (
        mul_double i (bit_xor b c) (byte-bit_xor b c hb hc),
        mul_double i b hb,
        mul_double i c hc,
        double_times-bit_xor i b c hb hc,
      ))
]

pub bit_xor-mul :
    (a b c : ℕ)
    → a < 256
    → b < 256
    → c < 256
    → gf256_mul (bit_xor a b) c ≡ bit_xor (gf256_mul a c) (gf256_mul b c)
bit_xor-mul a b c ha hb hc = cc (
  mul_comm (bit_xor a b) c (byte-bit_xor a b ha hb) hc,
  mul-bit_xor c a b hc ha hb,
  mul_comm a c ha hc,
  mul_comm b c hb hc,
)

power_zero : power 0 ≡ 1
unfolding power exp_at exp_table
power_zero = refl

pub one-mul : (b : ℕ) → b < 256 → gf256_mul 1 b ≡ b
one-mul b h = rw (← power_zero) (mul_double 0 b h ∙ unfold double_times in refl)

pub mul-one : (b : ℕ) → b < 256 → gf256_mul b 1 ≡ b
mul-one b h = mul_comm b 1 h (omega arith) ∙ one-mul b h

-- For a byte other than 0, gf256_inv returns a byte other than 0, and gf256_mul of the two is 1.
pub gf256_inv_lem :
    (a : ℕ)
    → 0 < a
    → a < 256
    → (b : ℕ) × (gf256_inv a ≡ ok b) × (0 < b) × (b < 256) × (gf256_mul a b ≡ 1)
gf256_inv_lem a p h = (power (255 - log_at a), found, power_pos _, power-lt _, product)
  where
    lt : log_at a < 255
    lt = log_at-lt a p h

    found : gf256_inv a ≡ ok (power (255 - log_at a))
    found =
        unfold gf256_inv in
        ground (arith, low_byte a h, exp_at-power (255 - log_at a) (omega arith))

    product : gf256_mul a (power (255 - log_at a)) ≡ 1
    product =
        ap (λ t. gf256_mul t (power (255 - log_at a))) (sym (power-log_at a p h))
        ∙ mul-power (log_at a) (255 - log_at a)
        ∙ power_mod (log_at a + (255 - log_at a)) 0 (omega (arith, lt))
        ∙ power_zero
