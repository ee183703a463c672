-- ===== src/Examples/Data.antt =====
-- Three source symbols of two bytes, a random source, equations that hold of the symbols, and a
-- generation's units.
use screen_airdrop.Prelude.{ℕ, zero, suc, ◌≤◌, refl, [], ◌∷◌, arith, inl}
use screen_airdrop.Prelude.Dict.{Dict}
use screen_airdrop.Coding.Payload.{Payload}
use screen_airdrop.Coding.Payload.Symbols.{Symbol}
use screen_airdrop.Coding.Equation.{Random, Within, gf256_seed_v2}
use screen_airdrop.Coding.Equation.Selection.{window, length-window, window-Unique, window-Within}
use screen_airdrop.Units.{SystematicUnit, CodedUnit}
use screen_airdrop.Solver.Rows.{EquationRow}
use screen_airdrop.Solver.State.{SolverState, new_solver_state}
use screen_airdrop.Solver.State.Sound.{IsSound}

abbrev pub symbol : ℕ → Payload
symbol zero = 1 ∷ 2 ∷ []
symbol (suc zero) = 7 ∷ 9 ∷ []
symbol (suc (suc n)) = 3 ∷ 200 ∷ []

pub symbol-Symbol : (i : ℕ) → Symbol 2 (symbol i)
symbol-Symbol zero = (omega arith, (omega arith, tt))
symbol-Symbol (suc zero) = (omega arith, (omega arith, tt))
symbol-Symbol (suc (suc n)) = (omega arith, (omega arith, tt))

pub sample_inside : (n k : ℕ) → k ≤ n → Within n (window n 0 k)
sample_inside n zero h = tt
sample_inside zero (suc k) h = absurd (omega arith)
sample_inside (suc n) (suc k) h = window-Within (suc n) 0 (suc k) (omega arith)

-- The sample is the first sources, and each draw is 2.
abbrev pub plain_random : Random
plain_random = record {
  sample = λ seed n k. window n 0 k;
  randrange = λ seed i. 2;
  sample_length = λ seed n k h. length-window n 0 k;
  sample_unique = λ seed n k h. window-Unique n 0 k h;
  sample_within = λ seed n k h. sample_inside n k h;
  randrange_bounds = λ seed i. (omega arith, omega arith);
}

-- 2 · symbol 1 + 2 · symbol 2 = (8, 159)
abbrev pub sum_row : EquationRow
sum_row = record { terms = (1, 2) ∷ (2, 2) ∷ []; rhs_payload = 8 ∷ 159 ∷ [] }

abbrev pub known_one : Dict Payload
known_one = (1, 7 ∷ 9 ∷ []) ∷ []

abbrev pub first_unit : SystematicUnit
first_unit = record {
  session_id = 5;
  generation_id = 0;
  generation_size = 2;
  payload_size = 2;
  payload = 7 ∷ 9 ∷ [];
  source_index = 1;
}

abbrev pub second_unit : SystematicUnit
second_unit = record {
  session_id = 5;
  generation_id = 0;
  generation_size = 2;
  payload_size = 2;
  payload = 3 ∷ 200 ∷ [];
  source_index = 2;
}

abbrev pub sum_unit : CodedUnit
sum_unit = record {
  session_id = 5;
  generation_id = 0;
  generation_size = 2;
  payload_size = 2;
  payload = 8 ∷ 159 ∷ [];
  equation_id = 0;
  coding_seed = 0;
  degree = 2;
  coding_scheme = gf256_seed_v2;
}

abbrev pub fresh : SolverState
fresh = new_solver_state 0 2

pub fresh-IsSound : IsSound 2 symbol symbol-Symbol fresh
unfolding new_solver_state
fresh-IsSound = record { size = inl refl; equations = λ i row e. cc; decoded = λ i p e. cc }
