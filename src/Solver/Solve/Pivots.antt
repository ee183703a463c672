-- ===== src/Solver/Solve/Pivots.antt =====
-- `build_pivots` on true equations: every row that it stores is a true row with a new pivot.
use screen_airdrop.Prelude.{
  ℕ, ◌≡◌, ◌⊎◌, refl, subst, ◌∙◌, true, false, Option, none, some, List, [], ◌∷◌, ◌==◌, arith, inl,
  inr, Bool-cases,
}
use screen_airdrop.Prelude.Dict.{Dict, get, has, keys, mem, sorted, Distinct, get-put}
use screen_airdrop.Prelude.Result.{ok, ◌>>=◌}
use screen_airdrop.Coding.Payload.{Payload}
use screen_airdrop.Coding.Payload.Symbols.{Symbol}
use screen_airdrop.Coding.Equation.Selection.{mem-sorted}
use screen_airdrop.Solver.Rows.{EquationRow, get_zero}
use screen_airdrop.Solver.Rows.Coefficients.{Bytes}
use screen_airdrop.Solver.Rows.Value.{dot}
use screen_airdrop.Solver.Reduce.{reduce_row}
use screen_airdrop.Solver.Reduce.Normalize.{Agrees}
use screen_airdrop.Solver.Reduce.Pivot.{IsPivotRow}
use screen_airdrop.Solver.Reduce.Loop.{IsPivotRows, IsReduced, HasNewPivot, reduce_row-Ends}
use screen_airdrop.Solver.Solve.{store_pivot, terms_of, row_at, pivot_loop, build_pivots}

-- All elements of `ids` are keys of `d`.
abbrev pub AllIn {ℓ} : {V : Type ℓ} → Dict V → List ℕ → Type ℓ
AllIn {V = V} d [] = Unit
AllIn {V = V} d (i ∷ ids) = ((v : V) × (get d i ≡ some v)) × AllIn d ids

module _ {ℓ} {V : Type ℓ} where
  get-AllIn :
      (d : Dict V) (ids : List ℕ)
      → ((i : ℕ) → mem ids i ≡ true → (v : V) × (get d i ≡ some v))
      → AllIn d ids
  get-AllIn d [] h = tt
  get-AllIn d (i ∷ ids) h = (h i (ground arith), get-AllIn d ids (λ j m. h j (ground arith)))

  mem-keys-some : (d : Dict V) (i : ℕ) → mem (keys d) i ≡ true → (v : V) × (get d i ≡ some v)
  mem-keys-some [] i h = cc
  mem-keys-some ((j, v) ∷ d) i h = elim (Bool-cases (j == i)) [
    | inl same ↦ (v, rw same)
    | inr other ↦ rw other (mem-keys-some d i (rw other at h))
  ]

  -- `sorted(d)` lists keys of `d`.
  pub sorted-keys-AllIn : (d : Dict V) → AllIn d (sorted (keys d))
  sorted-keys-AllIn d =
      get-AllIn d (sorted (keys d))
        (λ i h. mem-keys-some d i (ground (arith, h, mem-sorted i (keys d))))

module _ (w : ℕ) (x : ℕ → Payload) (source : (i : ℕ) → Symbol w (x i)) (universe : List ℕ) where
  -- An equation that is true of the source symbols, and names sources of `universe` only.
  pub record IsEquationRow (row : EquationRow) : Type 0 where
    pub distinct : Distinct row.terms
    pub bytes : Bytes row.terms
    pub rhs_symbol : Symbol w row.rhs_payload
    pub holds : dot w x row.terms ≡ row.rhs_payload
    pub inside : (j : ℕ) → mem universe j ≡ false → get_zero row.terms j ≡ 0

  abbrev pub AreTrue : Dict EquationRow → Type 0
  AreTrue equations = (i : ℕ) (row : EquationRow) → get equations i ≡ some row → IsEquationRow row

  -- The sources on which no pivot row has a coefficient.
  abbrev pub Off : Dict Payload → ℕ → Type 0
  Off known j = (mem universe j ≡ false) ⊎ (has known j ≡ true)

  module _ (equations : Dict EquationRow) (known : Dict Payload) (agrees : Agrees w x source known)
      (truth : AreTrue equations) where
    abbrev Pivots : Dict EquationRow → Type 0
    Pivots = IsPivotRows w x source (Off known)

    put_pivot :
        (rows : Dict EquationRow) (row : EquationRow) (ts : List (ℕ × ℕ))
        → Pivots rows
        → HasNewPivot w x source (Off known) rows row ts
        → Pivots (store_pivot rows (some row) ts)
    unfolding store_pivot
    put_pivot rows row [] p h i r e = p i r e
    put_pivot rows row ((k, c) ∷ ts) p (good, new) i r e = elim (Bool-cases (k == i)) [
      | inl same ↦
          let here : row ≡ r = ground (arith, get-put rows k i row) in
          let at : k ≡ i = ground arith in
          subst (λ a. IsPivotRow w x source (Off known) i a) here
            (subst (λ a. IsPivotRow w x source (Off known) a row) at good)
      | inr other ↦ p i r (ground (arith, get-put rows k i row))
    ]

    store-IsPivotRows :
        (rows : Dict EquationRow) (o : Option EquationRow)
        → Pivots rows
        → IsReduced w x source (Off known) rows o
        → Pivots (store_pivot rows o (terms_of o))
    store-IsPivotRows rows none p h = unfold store_pivot in p
    store-IsPivotRows rows (some row) p h = put_pivot rows row row.terms p h

    pivot_loop-eq :
        (i : ℕ) (ids : List ℕ) (rows : Dict EquationRow) (row : EquationRow)
        (o : Option EquationRow)
        → get equations i ≡ some row
        → reduce_row row known rows ≡ ok o
        → pivot_loop equations known (i ∷ ids) rows
          ≡ pivot_loop equations known ids (store_pivot rows o (terms_of o))
    unfolding pivot_loop
    pivot_loop-eq i ids rows row o e f = rw (e, f, pivot_loop, row_at, ◌>>=◌)

    pivot_loop-IsPivotRows :
        (ids : List ℕ) (rows : Dict EquationRow)
        → AllIn equations ids
        → Pivots rows
        → (rows' : Dict EquationRow) × (pivot_loop equations known ids rows ≡ ok rows')
          × Pivots rows'
    pivot_loop-IsPivotRows [] rows a p = (rows, unfold pivot_loop in refl, p)
    pivot_loop-IsPivotRows (i ∷ ids) rows ((row, e), a) p =
        let q = truth i row e in
        let (o, f, r) =
          reduce_row-Ends w x source (Off known) known rows agrees p row q.distinct q.bytes
            q.rhs_symbol q.holds
            (λ j off. elim off [ inl out ↦ inl (q.inside j out) | inr k ↦ inr k ]) in
        let (rows', g, p') =
          pivot_loop-IsPivotRows ids (store_pivot rows o (terms_of o)) a
            (store-IsPivotRows rows o p r) in
        (rows', pivot_loop-eq i ids rows row o e f ∙ g, p')

    -- From equations with different sources of a given list, coefficients below 256 and right
    -- sides of w bytes, which hold of the source symbols, and known symbols that are right, the
    -- elimination loop of _solve returns, and each row that it stores under a pivot is true,
    -- begins with that pivot, has the coefficient 1 there, and has none on a smaller source, on a
    -- known one or on one outside the list.
    pub build_pivots-IsPivotRows :
        (rows : Dict EquationRow) × (build_pivots equations known ≡ ok rows)
        × IsPivotRows w x source (Off known) rows
    unfolding build_pivots
    build_pivots-IsPivotRows =
        pivot_loop-IsPivotRows (sorted (keys equations)) [] (sorted-keys-AllIn equations)
          (λ i r e. cc)
