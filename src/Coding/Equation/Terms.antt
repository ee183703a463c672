-- ===== src/Coding/Equation/Terms.antt =====
-- The terms of an expanded equation: as many as its degree, of different sources of the generation,
-- with coefficients other than 0.
use screen_airdrop.Prelude.{
  ℕ, suc, ◌+◌, ◌≤◌, ◌<◌, ◌≡◌, refl, ap, ◌∙◌, false, none, List, [], ◌∷◌, length, arith,
}
use screen_airdrop.Prelude.Dict.{get, Distinct, mem, sorted}
use screen_airdrop.Prelude.Result.{ok}
use screen_airdrop.Coding.Equation.{
  CodingScheme, gf256_seed_v1, gf256_seed_v2, Unique, Within, Random, coefficient_seed,
  expand_equation_indices_for_scheme, draw_coefficients, expand_equation_terms,
}
use screen_airdrop.Coding.Equation.Selection.{
  sorted-Unique, sorted-Within, length-sorted, window, length-window, window-Unique, window-Within,
  first_position, expand_indices_v2-window,
}

-- Every coefficient is a byte other than 0, and every index is one of a generation of `size`.
abbrev pub IsProper : ℕ → List (ℕ × ℕ) → Type 0
IsProper size [] = Unit
IsProper size ((i, c) ∷ ts) = (1 ≤ i) × (i ≤ size) × (1 ≤ c) × (c < 256) × IsProper size ts

pub record IsEquation (size degree : ℕ) (ts : List (ℕ × ℕ)) : Type 0 where
  pub count : length ts ≡ degree
  pub distinct : Distinct ts
  pub proper : IsProper size ts

record IsSelection (size degree : ℕ) (indices : List ℕ) : Type 0 where
  count : length indices ≡ degree
  unique : Unique indices
  within : Within size indices

module _ (random : Random) where
  length-draw :
      (seed call : ℕ) (indices : List ℕ)
      → length (draw_coefficients random seed call indices) ≡ length indices
  unfolding draw_coefficients
  length-draw seed call [] = refl
  length-draw seed call (i ∷ is) = ap suc (length-draw seed (call + 1) is)

  get-draw_none :
      (seed call : ℕ) (indices : List ℕ) (i : ℕ)
      → mem indices i ≡ false
      → get (draw_coefficients random seed call indices) i ≡ none
  unfolding draw_coefficients
  get-draw_none seed call [] i h = refl
  get-draw_none seed call (j ∷ is) i h = ground (arith, get-draw_none seed (call + 1) is i)

  draw-Distinct :
      (seed call : ℕ) (indices : List ℕ)
      → Unique indices
      → Distinct (draw_coefficients random seed call indices)
  unfolding draw_coefficients
  draw-Distinct seed call [] u = tt
  draw-Distinct seed call (i ∷ is) (h, u) =
      (get-draw_none seed (call + 1) is i h, draw-Distinct seed (call + 1) is u)

  draw-IsProper :
      (size seed call : ℕ) (indices : List ℕ)
      → Within size indices
      → IsProper size (draw_coefficients random seed call indices)
  unfolding draw_coefficients
  draw-IsProper size seed call [] w = tt
  draw-IsProper size seed call (i ∷ is) (p, q, w) =
      let b = random.randrange_bounds seed call in
      (p, q, b.0, b.1, draw-IsProper size seed (call + 1) is w)

  indices-IsSelection :
      (size coding_seed degree : ℕ) (scheme : CodingScheme)
      → 0 < degree
      → degree ≤ size
      → (indices : List ℕ) × (expand_equation_indices_for_scheme random size coding_seed degree
            scheme
          ≡ ok indices)
        × IsSelection size degree indices
  unfolding expand_equation_indices_for_scheme
  indices-IsSelection size coding_seed degree gf256_seed_v1 p h =
      let drawn = random.sample coding_seed size degree in
      (
        sorted drawn,
        refl,
        record {
          count = length-sorted drawn ∙ random.sample_length coding_seed size degree h;
          unique = sorted-Unique drawn (random.sample_unique coding_seed size degree h);
          within = sorted-Within size drawn (random.sample_within coding_seed size degree h);
        },
      )
  indices-IsSelection size coding_seed degree gf256_seed_v2 p h =
      let start = first_position size coding_seed degree in
      let chosen = window size start degree in
      (
        sorted chosen,
        expand_indices_v2-window size coding_seed degree p h,
        record {
          count = length-sorted chosen ∙ length-window size start degree;
          unique = sorted-Unique chosen (window-Unique size start degree h);
          within = sorted-Within size chosen (window-Within size start degree (omega arith));
        },
      )

  expand_terms-eq :
      (size coding_seed degree : ℕ) (scheme : CodingScheme) (indices : List ℕ)
      → 0 < degree
      → degree ≤ size
      → expand_equation_indices_for_scheme random size coding_seed degree scheme ≡ ok indices
      → expand_equation_terms random size coding_seed degree scheme
        ≡ ok (draw_coefficients random (coefficient_seed coding_seed size degree scheme) 0 indices)
  unfolding expand_equation_terms
  expand_terms-eq size coding_seed degree scheme indices p h e = rw e (ground arith)

  -- Under either coding scheme and for a degree from 1 to the generation's size,
  -- expand_equation_terms returns as many terms as the degree, of different sources of the
  -- generation, each with a coefficient from 1 to 255.
  pub expand_equation_terms_lem :
      (size coding_seed degree : ℕ) (scheme : CodingScheme)
      → 0 < degree
      → degree ≤ size
      → (ts : List (ℕ × ℕ)) × (expand_equation_terms random size coding_seed degree scheme ≡ ok ts)
        × IsEquation size degree ts
  expand_equation_terms_lem size coding_seed degree scheme p h =
      let (indices, e, s) = indices-IsSelection size coding_seed degree scheme p h in
      let seed = coefficient_seed coding_seed size degree scheme in
      (
        draw_coefficients random seed 0 indices,
        expand_terms-eq size coding_seed degree scheme indices p h e,
        record {
          count = length-draw seed 0 indices ∙ s.count;
          distinct = draw-Distinct seed 0 indices s.unique;
          proper = draw-IsProper size seed 0 indices s.within;
        },
      )
