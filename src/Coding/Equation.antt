-- ===== src/Coding/Equation.antt =====
-- coding.py: a coding seed expanded into the terms of an equation.
pub mod Selection
pub mod Terms
use screen_airdrop.Prelude.{
  ℕ, zero, suc, ◌+◌, ◌-◌, ◌*◌, ◌/◌, ◌%◌, ◌^◌, ◌≤◌, ◌<◌, ◌≡◌, refl, Bool, true, false, List, [], ◌∷◌,
  ◌++◌, map, bit_and, bit_xor, ◌==◌, ◌||◌, not, ltb, leb, if◌then◌else◌, length,
}
use screen_airdrop.Prelude.Dict.{mem, sorted}
use screen_airdrop.Prelude.Result.{
  Result, ok, err, value_error, zero_division_error, stuck, require, ◌>>=◌, ◌>>◌,
}

pub data CodingScheme : Type 0 where
  gf256_seed_v1 gf256_seed_v2 : CodingScheme

-- Each element once.
abbrev pub Unique : List ℕ → Type 0
Unique [] = Unit
Unique (x ∷ xs) = (mem xs x ≡ false) × Unique xs

-- All elements lie in 1 .. n.
abbrev pub Within : ℕ → List ℕ → Type 0
Within n [] = Unit
Within n (x ∷ xs) = (1 ≤ x) × (x ≤ n) × Within n xs

-- Python's `random.Random`, which is not part of the repository: `sample seed n k` is
-- `Random(seed).sample(range(1, n + 1), k)`, and `randrange seed i` the result of the call number
-- `i` of `randrange(1, 256)` on `Random(seed)`. The laws are what its documentation says of them.
pub record Random : Type 0 where
  pub sample : ℕ → ℕ → ℕ → List ℕ
  pub randrange : ℕ → ℕ → ℕ
  pub sample_length : (seed n k : ℕ) → k ≤ n → length (sample seed n k) ≡ k
  pub sample_unique : (seed n k : ℕ) → k ≤ n → Unique (sample seed n k)
  pub sample_within : (seed n k : ℕ) → k ≤ n → Within n (sample seed n k)
  pub randrange_bounds : (seed i : ℕ) → (1 ≤ randrange seed i) × (randrange seed i < 256)

unfoldable pub mix_u32 : ℕ → ℕ
mix_u32 value =
    let mixed = bit_and value 0xffff_ffff in
    let mixed₁ = bit_xor mixed (mixed / 2 ^ 16) in
    let mixed₂ = bit_and (mixed₁ * 0x7feb_352d) 0xffff_ffff in
    let mixed₃ = bit_xor mixed₂ (mixed₂ / 2 ^ 15) in
    let mixed₄ = bit_and (mixed₃ * 0x846c_a68b) 0xffff_ffff in bit_xor mixed₄ (mixed₄ / 2 ^ 16)

scheme_tag : CodingScheme → ℕ
scheme_tag gf256_seed_v1 = 0x5631
scheme_tag gf256_seed_v2 = 0x5632

unfoldable pub coefficient_seed : ℕ → ℕ → ℕ → CodingScheme → ℕ
unfolding mix_u32 scheme_tag
coefficient_seed coding_seed generation_size degree coding_scheme =
    let mixed = mix_u32 (bit_xor coding_seed (scheme_tag coding_scheme)) in
    mix_u32
      (bit_xor (bit_xor mixed (bit_and generation_size 0xffff * 2 ^ 16)) (bit_and degree 0xffff))

-- `while len(selected) < degree` of `_expand_equation_indices_v2`. `seen` holds what `selected`
-- holds, so one list stands for both.
unfoldable pub select : ℕ → ℕ → ℕ → ℕ → List ℕ → Result (List ℕ)
select zero generation_size degree cursor selected =
    if ltb (length selected) degree then err stuck else ok selected
select (suc fuel) generation_size degree cursor selected =
    let source_index = cursor + 1 in
    let rest =
      select fuel generation_size degree ((cursor + 1) % generation_size)
        (if mem selected source_index then selected else selected ++ source_index ∷ []) in
    if ltb (length selected) degree then rest else ok selected

-- The divisors are the degree, the count of groups, which is 0 for a generation of size 0, and the
-- size. `degree` rounds are enough: each round selects a new index.
unfoldable pub expand_equation_indices_v2 : ℕ → ℕ → ℕ → Result (List ℕ)
unfolding select
expand_equation_indices_v2 generation_size coding_seed degree =
    let group_count = (generation_size + degree - 1) / degree in
    let round_index = coding_seed / group_count in
    let group_index = coding_seed % group_count in
    let base_start = (round_index + group_index * degree) % generation_size in
    do
      require (not (degree == 0 || generation_size == 0)) zero_division_error
      selected ← select degree generation_size degree base_start []
      ok (sorted selected)

module _ (random : Random) where
  unfoldable pub expand_equation_indices_for_scheme : ℕ → ℕ → ℕ → CodingScheme → Result (List ℕ)
  unfolding expand_equation_indices_v2
  expand_equation_indices_for_scheme generation_size coding_seed degree gf256_seed_v1 =
      ok (sorted (random.sample coding_seed generation_size degree))
  expand_equation_indices_for_scheme generation_size coding_seed degree gf256_seed_v2 =
      expand_equation_indices_v2 generation_size coding_seed degree

  -- `(int(index), coefficient_rng.randrange(1, 256)) for index in indices`: `call` counts the calls.
  unfoldable pub draw_coefficients : ℕ → ℕ → List ℕ → List (ℕ × ℕ)
  draw_coefficients seed call [] = []
  draw_coefficients seed call (index ∷ indices) =
      (index, random.randrange seed call) ∷ draw_coefficients seed (call + 1) indices

  unfoldable pub expand_equation_terms : ℕ → ℕ → ℕ → CodingScheme → Result (List (ℕ × ℕ))
  expand_equation_terms size coding_seed degree coding_scheme =
      if size == 0 then ok [] else if degree == 0 || ltb size degree then err value_error else (do
        indices ← expand_equation_indices_for_scheme size coding_seed degree coding_scheme
        ok (draw_coefficients (coefficient_seed coding_seed size degree coding_scheme) 0 indices))

  unfoldable pub expand_equation_indices : ℕ → ℕ → ℕ → CodingScheme → Result (List ℕ)
  expand_equation_indices generation_size coding_seed degree coding_scheme = do
    terms ← expand_equation_terms generation_size coding_seed degree coding_scheme
    ok (map (λ t. t.0) terms)
