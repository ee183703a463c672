-- ===== src/Solver/Solve.antt =====
-- solver_state.py: `_solve`, on the equations and the known symbols.
pub mod Pivots
pub mod Recover
pub mod Sound
use screen_airdrop.Prelude.{
  ℕ, zero, suc, ◌+◌, ◌≤◌, ◌<◌, ◌≡◌, refl, Bool, true, false, Option, none, some, List, [], ◌∷◌,
  ◌++◌, if◌then◌else◌, length, map,
}
use screen_airdrop.Prelude.Dict.{Dict, get, has, put, keys, sorted}
use screen_airdrop.Prelude.Result.{Result, ok, err, key_error, stuck, ◌>>=◌}
use screen_airdrop.Coding.Gf256.{gf256_div}
use screen_airdrop.Coding.Payload.{Payload, gf256_scale_payload}
use screen_airdrop.Solver.Rows.{EquationRow}
use screen_airdrop.Solver.Reduce.{add_known, reduce_row}
use mathlib.Core.List.{reverse}

-- `if reduced is None or not reduced.terms: continue`, else the row is stored at its pivot.
unfoldable pub store_pivot : Dict EquationRow → Option EquationRow → List (ℕ × ℕ) → Dict EquationRow
store_pivot pivot_rows none terms = pivot_rows
store_pivot pivot_rows (some row) [] = pivot_rows
store_pivot pivot_rows (some row) ((pivot, coefficient) ∷ terms) = put pivot_rows pivot row

abbrev pub terms_of : Option EquationRow → List (ℕ × ℕ)
terms_of none = []
terms_of (some row) = row.terms

-- `self.equations[equation_id]`
abbrev pub row_at : Dict EquationRow → ℕ → Result EquationRow
row_at equations equation_id = elim (get equations equation_id) [
  | none ↦ err key_error
  | some row ↦ ok row
]

-- `for equation_id in sorted(self.equations): …`
unfoldable pub pivot_loop :
    Dict EquationRow → Dict Payload → List ℕ → Dict EquationRow → Result (Dict EquationRow)
pivot_loop equations known [] pivot_rows = ok pivot_rows
pivot_loop equations known (equation_id ∷ ids) pivot_rows = do
  row ← row_at equations equation_id
  reduced ← reduce_row row known pivot_rows
  pivot_loop equations known ids (store_pivot pivot_rows reduced (terms_of reduced))

unfoldable pub build_pivots : Dict EquationRow → Dict Payload → Result (Dict EquationRow)
build_pivots equations known = pivot_loop equations known (sorted (keys equations)) []

pub record Progress : Type 0 where
  pub known : Dict Payload
  pub recovered : Dict Payload
  pub changed : Bool

-- `[… for source_index, coefficient in row.terms if source_index not in known]`
unfoldable pub unresolved_terms : Dict Payload → List (ℕ × ℕ) → List (ℕ × ℕ)
unresolved_terms known [] = []
unresolved_terms known ((source_index, coefficient) ∷ terms) =
    let rest = unresolved_terms known terms in
    if has known source_index then rest else (source_index, coefficient) ∷ rest

-- `[(coef, known[source_index]) for … if source_index in known]`
unfoldable pub known_terms : Dict Payload → List (ℕ × ℕ) → List (ℕ × Payload)
known_terms known [] = []
known_terms known ((source_index, coefficient) ∷ terms) =
    let rest = known_terms known terms in
    elim (get known source_index) [ none ↦ rest | some payload ↦ (coefficient, payload) ∷ rest ]

-- The symbol of the only unresolved source. A source that is known already is left as it is.
unfoldable pub recover : Progress → EquationRow → ℕ → ℕ → Result Progress
unfolding known_terms
recover s row target coefficient = do
  rhs ← add_known row.rhs_payload (known_terms s.known row.terms)
  scale ← gf256_div 1 coefficient
  ok (elim (get s.known target) [
    | some existing ↦ s
    | none ↦
        let payload = gf256_scale_payload rhs scale in
        record {
          known = put s.known target payload;
          recovered = put s.recovered target payload;
          changed = true;
        }
  ])

-- `if len(unresolved) != 1: continue`
unfoldable pub recover_single : Progress → EquationRow → List (ℕ × ℕ) → Result Progress
unfolding recover
recover_single s row ((target, coefficient) ∷ []) = recover s row target coefficient
recover_single s row [] = ok s
recover_single s row (first ∷ second ∷ unresolved) = ok s

-- `for pivot in sorted(pivot_rows.keys(), reverse=True): …`
unfoldable pub recover_loop : Dict EquationRow → List ℕ → Progress → Result Progress
recover_loop pivot_rows [] s = ok s
recover_loop pivot_rows (pivot ∷ pivots) s = do
  row ← row_at pivot_rows pivot
  s' ← recover_single s row (unresolved_terms s.known row.terms)
  recover_loop pivot_rows pivots s'

pub record Solved : Type 0 where
  pub known : Dict Payload
  pub recovered : Dict Payload
  pub pivot_rows : Dict EquationRow

-- `while changed: …`: a round that changes something is followed by another on new pivot rows.
unfoldable pub solve_loop : ℕ → Dict EquationRow → Solved → Result Solved
solve_loop zero equations s = err stuck
solve_loop (suc fuel) equations s = do
  p ←
      recover_loop s.pivot_rows (reverse (sorted (keys s.pivot_rows)))
        (record { known = s.known; recovered = s.recovered; changed = false })
  elim p.changed [
    | false ↦ ok (record { known = p.known; recovered = p.recovered; pivot_rows = s.pivot_rows })
    | true ↦ (do
      pivot_rows ← build_pivots equations p.known
      solve_loop fuel equations
          (record { known = p.known; recovered = p.recovered; pivot_rows = pivot_rows }))
  ]

-- The sources that the equations name, as often as they do.
unfoldable pub all_sources : Dict EquationRow → List ℕ
all_sources [] = []
all_sources ((equation_id, row) ∷ equations) = map (λ t. t.0) row.terms ++ all_sources equations

-- Each round but the last makes a source known that an equation names: the fuel is enough.
unfoldable pub solve_equations : Dict EquationRow → Dict Payload → Result (ℕ × Solved)
solve_equations equations known = do
  pivot_rows ← build_pivots equations known
  s ←
      solve_loop (suc (length (all_sources equations))) equations
        (record { known = known; recovered = []; pivot_rows = pivot_rows })
  ok (length pivot_rows, s)
