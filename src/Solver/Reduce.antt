-- ===== src/Solver/Reduce.antt =====
-- solver_state.py: `_normalize_row` and `_reduce_row`.
pub mod Normalize
pub mod Truth
pub mod First
pub mod Pivot
pub mod Loop
use screen_airdrop.Prelude.{
  ℕ, zero, suc, ◌+◌, ◌≤◌, ◌<◌, ◌≡◌, refl, Bool, true, false, not, Option, none, some, List, [], ◌∷◌,
  ◌++◌, ◌==◌, ◌&&◌, if◌then◌else◌, length, min,
}
use screen_airdrop.Prelude.Dict.{Dict, get, put, keys}
use screen_airdrop.Prelude.Result.{Result, ok, err, stuck, ◌>>=◌}
use screen_airdrop.Coding.Gf256.{gf256_mul, gf256_div}
use screen_airdrop.Coding.Payload.{Payload, gf256_scale_payload, gf256_linear_combine}
use screen_airdrop.Solver.Rows.{
  EquationRow, get_zero, terms_to_map, map_to_terms, subtract_rows, is_zero_payload,
}

-- The terms of unknown sources as a dictionary, and the weighted payloads of the known ones.
pub record Split : Type 0 where
  pub unresolved : Dict ℕ
  pub known_terms : List (ℕ × Payload)

unfoldable pub split_terms : Dict Payload → Split → List (ℕ × ℕ) → Split
split_terms known s [] = s
split_terms known s ((source_index, coefficient) ∷ terms) =
    split_terms known
      (elim (get known source_index) [
        | none ↦ record s { unresolved = put s.unresolved source_index coefficient }
        | some payload ↦ record s { known_terms = s.known_terms ++ (coefficient, payload) ∷ [] }
      ])
      terms

-- `rhs = gf256_linear_combine([(1, rhs), *known_terms])` if there are known terms.
unfoldable pub add_known : Payload → List (ℕ × Payload) → Result Payload
add_known rhs [] = ok rhs
add_known rhs (term ∷ known_terms) = gf256_linear_combine ((1, rhs) ∷ term ∷ known_terms)

-- `{index: coefficient for … if coefficient != 0}`
unfoldable pub drop_zeros : Dict ℕ → Dict ℕ
drop_zeros [] = []
drop_zeros ((index, coefficient) ∷ values) =
    let rest = drop_zeros values in if coefficient == 0 then rest else (index, coefficient) ∷ rest

abbrev pub is_empty {ℓ} : {A : Type ℓ} → List A → Bool
is_empty [] = true
is_empty (x ∷ xs) = false

-- The end of `_normalize_row`, on the right side with the known terms added.
unfoldable pub finish_row : Dict ℕ → Payload → Option EquationRow
finish_row unresolved rhs =
    if is_empty unresolved && is_zero_payload rhs
    then none
    else some (record { terms = map_to_terms unresolved; rhs_payload = rhs })

unfoldable pub normalize_terms : Dict Payload → EquationRow → Result (Option EquationRow)
normalize_terms known row =
    let s = split_terms known (record { unresolved = []; known_terms = [] }) row.terms in
    do rhs ← add_known row.rhs_payload s.known_terms; ok (finish_row (drop_zeros s.unresolved) rhs)

unfoldable pub normalize_row : EquationRow → Dict Payload → Result (Option EquationRow)
normalize_row row known =
    if is_empty row.terms
    then if is_zero_payload row.rhs_payload
      then ok none
      else ok (some (record { terms = []; rhs_payload = row.rhs_payload }))
    else normalize_terms known row

-- `{index: gf256_mul(coefficient, scale) for …}`
unfoldable pub scale_terms : Dict ℕ → ℕ → Dict ℕ
scale_terms [] scale = []
scale_terms ((index, coefficient) ∷ values) scale =
    (index, gf256_mul coefficient scale) ∷ scale_terms values scale

-- `min(terms_map)`: the least key of a dictionary that is not empty.
unfoldable pub min_key : ℕ → Dict ℕ → ℕ
min_key k [] = k
min_key k ((j, v) ∷ values) = min_key (min k j) values

-- The row of a new pivot: its first coefficient is made 1.
unfoldable pub pivot_row : Dict ℕ → Payload → ℕ → Result EquationRow
unfolding scale_terms
pivot_row terms_map rhs pivot =
    let pivot_coefficient = get_zero terms_map pivot in
    if pivot_coefficient == 1
    then ok (record { terms = map_to_terms terms_map; rhs_payload = rhs })
    else (do
      scale ← gf256_div 1 pivot_coefficient
      ok (record {
        terms = map_to_terms (scale_terms terms_map scale);
        rhs_payload = gf256_scale_payload rhs scale;
      }))

-- One elimination by the row of an existing pivot, normalized again.
unfoldable pub eliminate :
    Dict Payload → Dict ℕ → Payload → ℕ → EquationRow → Result (Option EquationRow)
eliminate known terms_map rhs pivot existing =
    let factor = get_zero terms_map pivot in
    let reduced = subtract_rows terms_map (terms_to_map existing.terms) factor in
    do
      rhs' ← gf256_linear_combine ((1, rhs) ∷ (factor, existing.rhs_payload) ∷ [])
      normalize_row (record { terms = map_to_terms reduced; rhs_payload = rhs' }) known

-- `while terms_map:` of `_reduce_row`.
unfoldable pub reduce_loop :
    ℕ → Dict Payload → Dict EquationRow → Dict ℕ → Payload → Result (Option EquationRow)
reduce_loop fuel known pivot_rows [] rhs = ok (some (record { terms = []; rhs_payload = rhs }))
reduce_loop zero known pivot_rows ((k, v) ∷ values) rhs = err stuck
reduce_loop (suc fuel) known pivot_rows ((k, v) ∷ values) rhs =
    let terms_map = (k, v) ∷ values in
    let pivot = min_key k values in
    elim (get pivot_rows pivot) [
      | none ↦ (do row ← pivot_row terms_map rhs pivot; ok (some row))
      | some existing ↦ (do
        normalized ← eliminate known terms_map rhs pivot existing
        elim normalized [
          | none ↦ ok none
          | some row ↦ reduce_loop fuel known pivot_rows (terms_to_map row.terms) row.rhs_payload
        ])
    ]

-- Each round uses up the row of one pivot, and the last one adds a pivot.
unfoldable pub reduce_row :
    EquationRow → Dict Payload → Dict EquationRow → Result (Option EquationRow)
reduce_row row known pivot_rows = do
  reduced ← normalize_row row known
  elim reduced [
    | none ↦ ok none
    | some r ↦
        reduce_loop (suc (length pivot_rows)) known pivot_rows (terms_to_map r.terms) r.rhs_payload
  ]
