-- ===== src/Coding/Tables.antt =====
-- coding.py: the tables that the module's top-level loops fill.
use screen_airdrop.Prelude.{
  ℕ, zero, suc, ◌+◌, ◌-◌, ◌*◌, ◌<◌, ◌≡◌, refl, Bool, true, List, bit_and, bit_xor, arith, ltb, ◌==◌,
  ◌&&◌, if◌then◌else◌, set, get_or, replicate, all_below, all_below→at,
}

pub record Tables : Type 0 where
  pub exp : List ℕ
  pub log : List ℕ
  pub value : ℕ

abbrev pub primitive_poly : ℕ
primitive_poly = 0x11d

-- `_value <<= 1; if _value & 0x100: _value ^= _GF256_PRIMITIVE_POLY`
unfoldable pub double : ℕ → ℕ
double value =
    let shifted = value * 2 in
    if bit_and shifted 0x100 == 0 then shifted else bit_xor shifted primitive_poly

-- One round of the first loop.
unfoldable pub fill_round : ℕ → Tables → Tables
unfolding double
fill_round index t = record {
  exp = set t.exp index t.value;
  log = set t.log t.value index;
  value = double t.value;
}

-- `for _index in range(255)`: the count of rounds left, and the index.
unfoldable pub fill : ℕ → ℕ → Tables → Tables
unfolding fill_round
fill zero index t = t
fill (suc n) index t = fill n (index + 1) (fill_round index t)

-- `for _index in range(255, 512): EXP[_index] = EXP[_index - 255]`
unfoldable pub extend : ℕ → ℕ → List ℕ → List ℕ
extend zero index exp = exp
extend (suc n) index exp = extend n (index + 1) (set exp index (get_or exp (index - 255) 0))

unfoldable pub built : Tables
unfolding fill
built = fill 255 0 (record { exp = replicate 512 0; log = replicate 256 0; value = 1 })

unfoldable pub exp_table : List ℕ
unfolding built extend
exp_table = extend 257 255 built.exp

unfoldable pub log_table : List ℕ
unfolding built
log_table = built.log

-- What one run over both tables checks at an index below 255: the table repeats, its entries are
-- the powers of 2, and the two tables are inverse to one another.
exp_checks : List ℕ → List ℕ → ℕ → Bool
unfolding double
exp_checks exp log i =
    let e = get_or exp i 0 in
    (get_or exp (i + 255) 0 == e)
    && (ltb 0 e && (ltb e 256 && ((get_or log e 0 == i) && (get_or exp (i + 1) 0 == double e))))

log_checks : List ℕ → List ℕ → ℕ → Bool
log_checks exp log x = let i = get_or log (x + 1) 0 in ltb i 255 && (get_or exp i 0 == x + 1)

exp_checked : all_below 255 (exp_checks exp_table log_table) ≡ true
unfolding all_below exp_checks exp_table log_table
exp_checked = refl

log_checked : all_below 255 (log_checks exp_table log_table) ≡ true
unfolding all_below log_checks exp_table log_table
log_checked = refl

-- EXP[i] and LOG[a]
unfoldable pub exp_at : ℕ → ℕ
exp_at i = get_or exp_table i 0

unfoldable pub log_at : ℕ → ℕ
log_at a = get_or log_table a 0

module _ (i : ℕ) (h : i < 255) where
  exp_facts : exp_checks exp_table log_table i ≡ true
  exp_facts = all_below→at 255 (exp_checks exp_table log_table) exp_checked i h

  pub exp_at_wrap : exp_at (i + 255) ≡ exp_at i
  unfolding exp_checks exp_at
  exp_at_wrap = ground (arith, exp_facts)

  pub exp_at_pos : 0 < exp_at i
  unfolding exp_checks exp_at
  exp_at_pos = ground (arith, exp_facts)

  pub exp_at-lt : exp_at i < 256
  unfolding exp_checks exp_at
  exp_at-lt = ground (arith, exp_facts)

  pub log_at-exp_at : log_at (exp_at i) ≡ i
  unfolding exp_checks exp_at log_at
  log_at-exp_at = ground (arith, exp_facts)

  pub exp_at_next : exp_at (i + 1) ≡ double (exp_at i)
  unfolding exp_checks exp_at
  exp_at_next = ground (arith, exp_facts)

module _ (a : ℕ) (pos : 0 < a) (h : a < 256) where
  log_facts : log_checks exp_table log_table (a - 1) ≡ true
  log_facts = all_below→at 255 (log_checks exp_table log_table) log_checked (a - 1) (omega arith)

  a_suc : a - 1 + 1 ≡ a
  a_suc = omega arith

  pub log_at-lt : log_at a < 255
  unfolding log_checks log_at
  log_at-lt = ground (arith, log_facts, a_suc)

  pub exp_at-log_at : exp_at (log_at a) ≡ a
  unfolding log_checks log_at exp_at
  exp_at-log_at = ground (arith, log_facts, a_suc)
