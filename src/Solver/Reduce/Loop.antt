-- ===== src/Solver/Reduce/Loop.antt =====
-- `reduce_row` ends, raises nothing, and returns a true row: without terms, or with a new pivot.
use screen_airdrop.Prelude.{
  ℕ, zero, suc, ◌+◌, ◌≤◌, ◌<◌, ◌≡◌, ◌⊎◌, refl, ap, ◌∙◌, true, Option, none, some, List, [], ◌∷◌,
  ◌==◌, leb, if◌then◌else◌, arith, inl, inr, Bool-cases, Option-cases, length, bit_xor,
}
use screen_airdrop.Prelude.Dict.{Dict, get, has, Distinct}
use screen_airdrop.Prelude.Xor.{bit_xor_self, bit_xor-zero}
use screen_airdrop.Prelude.Result.{Result, ok}
use screen_airdrop.Coding.Gf256.{gf256_mul}
use screen_airdrop.Coding.Gf256.Field.{one-mul, zero-mul}
use screen_airdrop.Coding.Payload.{Payload, gf256_scale_payload, gf256_linear_combine, xor_into}
use screen_airdrop.Coding.Payload.Symbols.{Symbol, scale-Symbol, scale_one, xor-Symbol, xor-zeros}
use screen_airdrop.Coding.Payload.Sums.{weighted_sum, linear_combine-weighted_sum}
use screen_airdrop.Solver.Rows.{EquationRow, get_zero, terms_to_map, map_to_terms, subtract_rows}
use screen_airdrop.Solver.Rows.Coefficients.{
  Bytes, IsTerms, get_zero-lt, terms_to_map-IsTerms, get_zero-terms_to_map, map_to_terms-IsTerms,
  get_zero-map_to_terms, subtract_rows-IsTerms, get_zero-subtract_rows,
}
use screen_airdrop.Solver.Rows.Value.{dot, dot-terms_to_map, dot-map_to_terms, dot-subtract_rows}
use screen_airdrop.Solver.Reduce.{
  eliminate, min_key, pivot_row, reduce_loop, reduce_row, normalize_row,
}
use screen_airdrop.Solver.Reduce.Normalize.{Agrees}
use screen_airdrop.Solver.Reduce.Truth.{IsNormal, normalize_row-IsNormal}
use screen_airdrop.Solver.Reduce.First.{First}
use screen_airdrop.Solver.Reduce.Pivot.{IsPivotRow, pivot_row-IsPivotRow, min_key-below, min_key-ne}

-- How many pivots are at least `p`.
pivots_from : ℕ → Dict EquationRow → ℕ
pivots_from p [] = 0
pivots_from p ((k, row) ∷ rows) = (if leb p k then 1 else 0) + pivots_from p rows

pivots_from-le : (p : ℕ) (rows : Dict EquationRow) → pivots_from p rows ≤ length rows
unfolding pivots_from
pivots_from-le p [] = omega arith
pivots_from-le p ((k, row) ∷ rows) = ground (arith, pivots_from-le p rows)

pivots_from_mono :
    (p q : ℕ) (rows : Dict EquationRow) → p ≤ q → pivots_from q rows ≤ pivots_from p rows
unfolding pivots_from
pivots_from_mono p q [] h = omega arith
pivots_from_mono p q ((k, row) ∷ rows) h = ground (arith, pivots_from_mono p q rows h)

-- A pivot that is passed counts no more.
pivots_from_used :
    (p k : ℕ) (rows : Dict EquationRow) (row : EquationRow)
    → p ≤ k
    → get rows k ≡ some row
    → suc (pivots_from (suc k) rows) ≤ pivots_from p rows
unfolding pivots_from
pivots_from_used p k [] row h e = cc
pivots_from_used p k ((i, r) ∷ rows) row h e =
    ground (arith, pivots_from_used p k rows row h, pivots_from_mono p (suc k) rows (omega arith))

module _ (w : ℕ) (x : ℕ → Payload) (source : (i : ℕ) → Symbol w (x i)) (Off : ℕ → Type 0) where
  abbrev pub IsPivotRows : Dict EquationRow → Type 0
  IsPivotRows rows =
      (k : ℕ) (row : EquationRow) → get rows k ≡ some row → IsPivotRow w x source Off k row

  -- A row that keeps terms has a pivot that no row of `rows` has.
  abbrev pub HasNewPivot : Dict EquationRow → EquationRow → List (ℕ × ℕ) → Type 0
  HasNewPivot rows row [] = Unit
  HasNewPivot rows row ((k, c) ∷ ts) = IsPivotRow w x source Off k row × (get rows k ≡ none)

  abbrev pub IsReduced : Dict EquationRow → Option EquationRow → Type 0
  IsReduced rows none = Unit
  IsReduced rows (some row) = HasNewPivot rows row row.terms

  new_pivot :
      (rows : Dict EquationRow) (k : ℕ) (row : EquationRow) (ts : List (ℕ × ℕ))
      → First k ts
      → IsPivotRow w x source Off k row
      → get rows k ≡ none
      → HasNewPivot rows row ts
  new_pivot rows k row [] f r n = absurd f
  new_pivot rows k row ((i, c) ∷ ts) f r n = rw f (r, n)

  module _ (known : Dict Payload) (rows : Dict EquationRow) (agrees : Agrees w x source known)
      (pivots : IsPivotRows rows) where
    -- One elimination: the pivot's coefficient becomes 0 and no smaller one appears.
    eliminate-IsNormal :
        (d : Dict ℕ) (rhs : Payload) (k : ℕ) (existing : EquationRow)
        → IsTerms d
        → Symbol w rhs
        → dot w x d ≡ rhs
        → ((j : ℕ) → j < k → get_zero d j ≡ 0)
        → ((j : ℕ) → Off j → get_zero d j ≡ 0)
        → get rows k ≡ some existing
        → (o : Option EquationRow) × (eliminate known d rhs k existing ≡ ok o)
          × IsNormal w x source known
              (map_to_terms (subtract_rows d (terms_to_map existing.terms) (get_zero d k)))
              o
    unfolding eliminate
    eliminate-IsNormal d rhs k existing t s e b f found =
        let p = pivots k existing found in
        let q = p.true_row in
        let c = get_zero d k in
        let c_lt = get_zero-lt d k t.bytes in
        let m = terms_to_map existing.terms in
        let m_terms = terms_to_map-IsTerms existing.terms q.terms.bytes in
        let r = subtract_rows d m c in
        let r_terms = subtract_rows-IsTerms d m c c_lt m_terms.bytes t in
        let y = gf256_scale_payload existing.rhs_payload c in
        let y_symbol = scale-Symbol w existing.rhs_payload c q.rhs_symbol c_lt in
        let n = map_to_terms-IsTerms r r_terms.distinct r_terms.bytes in
        let combined : gf256_linear_combine ((1, rhs) ∷ (c, existing.rhs_payload) ∷ [])
            ≡ ok (xor_into rhs y) =
          linear_combine-weighted_sum w 1 rhs ((c, existing.rhs_payload) ∷ [])
            (omega arith, s, (c_lt, q.rhs_symbol, tt))
          ∙ unfold weighted_sum in cc (scale_one w rhs s, xor-zeros w y y_symbol) in
        let value : dot w x (map_to_terms r) ≡ xor_into rhs y = cc (
          dot-map_to_terms w x source r r_terms.distinct r_terms.bytes,
          dot-subtract_rows w x source d m c c_lt m_terms.bytes t,
          dot-terms_to_map w x source existing.terms q.terms.distinct q.terms.bytes,
          q.holds,
          e,
        ) in
        rw combined (
          normalize_row-IsNormal w x source known
            (record { terms = map_to_terms r; rhs_payload = xor_into rhs y }) agrees n.distinct
            n.bytes (xor-Symbol w rhs y s y_symbol) value)

    eliminated_zero :
        (d : Dict ℕ) (k : ℕ) (existing : EquationRow) (j : ℕ)
        → IsTerms d
        → IsPivotRow w x source Off k existing
        → (get_zero d j ≡ 0) × (get_zero existing.terms j ≡ 0) ⊎ (j ≡ k)
        → get_zero (map_to_terms (subtract_rows d (terms_to_map existing.terms) (get_zero d k))) j
          ≡ 0
    eliminated_zero d k existing j t p h =
        let q = p.true_row in
        let c = get_zero d k in
        let c_lt = get_zero-lt d k t.bytes in
        let m = terms_to_map existing.terms in
        let m_terms = terms_to_map-IsTerms existing.terms q.terms.bytes in
        let at_j : get_zero (map_to_terms (subtract_rows d m c)) j
            ≡ bit_xor (get_zero d j) (gf256_mul (get_zero existing.terms j) c) =
          get_zero-map_to_terms (subtract_rows d m c) j
          ∙ get_zero-subtract_rows d m c j c_lt t m_terms.distinct m_terms.bytes
          ∙ ap (λ t. bit_xor (get_zero d j) (gf256_mul t c))
              (get_zero-terms_to_map existing.terms j q.terms.distinct q.terms.bytes) in
        elim h [
          | inl (a, b) ↦ cc (at_j, a, b, zero-mul c, bit_xor-zero 0)
          | inr same ↦ cc (
            at_j,
            ap (get_zero d) same,
            ap (get_zero existing.terms) same,
            p.one,
            one-mul c c_lt,
            bit_xor_self c,
          )
        ]

    loop_new :
        (fuel k v : ℕ) (d : Dict ℕ) (rhs : Payload) (row : EquationRow)
        → get rows (min_key k d) ≡ none
        → pivot_row ((k, v) ∷ d) rhs (min_key k d) ≡ ok row
        → reduce_loop (suc fuel) known rows ((k, v) ∷ d) rhs ≡ ok (some row)
    unfolding reduce_loop
    loop_new fuel k v d rhs row e f = rw (e, f, reduce_loop)

    loop_stop :
        (fuel k v : ℕ) (d : Dict ℕ) (rhs : Payload) (existing : EquationRow)
        → get rows (min_key k d) ≡ some existing
        → eliminate known ((k, v) ∷ d) rhs (min_key k d) existing ≡ ok none
        → reduce_loop (suc fuel) known rows ((k, v) ∷ d) rhs ≡ ok none
    unfolding reduce_loop
    loop_stop fuel k v d rhs existing e f = rw (e, f, reduce_loop)

    loop_continue :
        (fuel k v : ℕ) (d : Dict ℕ) (rhs : Payload) (existing row : EquationRow)
        → get rows (min_key k d) ≡ some existing
        → eliminate known ((k, v) ∷ d) rhs (min_key k d) existing ≡ ok (some row)
        → reduce_loop (suc fuel) known rows ((k, v) ∷ d) rhs
          ≡ reduce_loop fuel known rows (terms_to_map row.terms) row.rhs_payload
    unfolding reduce_loop
    loop_continue fuel k v d rhs existing row e f = rw (e, f, reduce_loop)

    abbrev Ends : Result (Option EquationRow) → Type 0
    Ends m = (o : Option EquationRow) × (m ≡ ok o) × IsReduced rows o

    -- The premises of the loop at the lower bound `p` for the pivots still to come.
    record IsRound (p : ℕ) (d : Dict ℕ) (rhs : Payload) : Type 0 where
      terms : IsTerms d
      symbol : Symbol w rhs
      holds : dot w x d ≡ rhs
      low : (j : ℕ) → j < p → get_zero d j ≡ 0
      off : (j : ℕ) → Off j → get_zero d j ≡ 0

    bound_low :
        (p k v : ℕ) (d : Dict ℕ) (rhs : Payload) → IsRound p ((k, v) ∷ d) rhs → p ≤ min_key k d
    bound_low p k v d rhs r = elim (Bool-cases (leb p (min_key k d))) [
      | inl le ↦ ground arith
      | inr gt ↦ absurd (min_key-ne k v d r.terms.nonzero (r.low (min_key k d) (ground arith)))
    ]

    round_new :
        (fuel p k v : ℕ) (d : Dict ℕ) (rhs : Payload)
        → IsRound p ((k, v) ∷ d) rhs
        → get rows (min_key k d) ≡ none
        → Ends (reduce_loop (suc fuel) known rows ((k, v) ∷ d) rhs)
    round_new fuel p k v d rhs r e =
        let m = min_key k d in
        let e' = (k, v) ∷ d in
        let ne = min_key-ne k v d r.terms.nonzero in
        let (row, q, good) =
          pivot_row-IsPivotRow w x source Off e' rhs m r.terms r.symbol r.holds (omega (arith, ne))
            (get_zero-lt e' m r.terms.bytes) (min_key-below k v d) r.off in
        (
          some row,
          loop_new fuel k v d rhs row e q,
          new_pivot rows m row row.terms good.first good e,
        )

    -- The row after an elimination meets the premises at the next bound.
    IsRound-next :
        (p k v : ℕ) (d : Dict ℕ) (rhs : Payload) (existing row : EquationRow)
        → IsRound p ((k, v) ∷ d) rhs
        → get rows (min_key k d) ≡ some existing
        → IsNormal w x source known
            (map_to_terms (
              subtract_rows
                ((k, v) ∷ d)
                (terms_to_map existing.terms)
                (get_zero ((k, v) ∷ d) (min_key k d))))
            (some row)
        → IsRound (suc (min_key k d)) (terms_to_map row.terms) row.rhs_payload
    IsRound-next p k v d rhs existing row r e (good, zeroed) =
        let m = min_key k d in
        let q = pivots m existing e in
        let u = good.terms.distinct in
        let b = good.terms.bytes in
        let clear : (j : ℕ)
            → (get_zero ((k, v) ∷ d) j ≡ 0) × (get_zero existing.terms j ≡ 0) ⊎ (j ≡ m)
            → get_zero (terms_to_map row.terms) j ≡ 0 =
          λ j h.
            get_zero-terms_to_map row.terms j u b
            ∙ zeroed j (inl (eliminated_zero ((k, v) ∷ d) m existing j r.terms q h)) in
        record {
          terms = terms_to_map-IsTerms row.terms b;
          symbol = good.rhs_symbol;
          holds = dot-terms_to_map w x source row.terms u b ∙ good.holds;
          low = λ j h. elim (Bool-cases (j == m)) [
            | inl same ↦ clear j (inr (ground arith))
            | inr other ↦
                let lt : j < m = ground arith in
                clear j (inl (min_key-below k v d j lt, q.below j lt))
          ];
          off = λ j h. clear j (inl (r.off j h, q.off j h));
        }

    loop-Ends :
        (fuel p : ℕ) (d : Dict ℕ) (rhs : Payload)
        → pivots_from p rows < fuel
        → IsRound p d rhs
        → Ends (reduce_loop fuel known rows d rhs)
    loop-Ends fuel p [] rhs h r =
        (some (record { terms = []; rhs_payload = rhs }), unfold reduce_loop in refl, tt)
    loop-Ends zero p ((k, v) ∷ d) rhs h r = absurd (omega arith)
    loop-Ends (suc fuel) p ((k, v) ∷ d) rhs h r = elim (Option-cases (get rows (min_key k d))) [
      | inl e ↦ round_new fuel p k v d rhs r e
      | inr (existing, e) ↦
          let q = pivots (min_key k d) existing e in
          let used = pivots_from_used p (min_key k d) rows existing (bound_low p k v d rhs r) e in
          go existing e
            (eliminate-IsNormal ((k, v) ∷ d) rhs (min_key k d) existing r.terms r.symbol r.holds
              (min_key-below k v d) r.off e)
            (λ row n.
              loop-Ends fuel (suc (min_key k d)) (terms_to_map row.terms) row.rhs_payload
                (omega (arith, used)) (IsRound-next p k v d rhs existing row r e n))
    ]
      where
        go :
            (existing : EquationRow)
            → get rows (min_key k d) ≡ some existing
            → (o : Option EquationRow) × (eliminate known ((k, v) ∷ d) rhs (min_key k d) existing
                ≡ ok o)
              × IsNormal w x source known
                  (map_to_terms (
                    subtract_rows
                      ((k, v) ∷ d)
                      (terms_to_map existing.terms)
                      (get_zero ((k, v) ∷ d) (min_key k d))))
                  o
            → ((row : EquationRow)
                → IsNormal w x source known
                    (map_to_terms (
                      subtract_rows
                        ((k, v) ∷ d)
                        (terms_to_map existing.terms)
                        (get_zero ((k, v) ∷ d) (min_key k d))))
                    (some row)
                → Ends (reduce_loop fuel known rows (terms_to_map row.terms) row.rhs_payload))
            → Ends (reduce_loop (suc fuel) known rows ((k, v) ∷ d) rhs)
        go existing e (none, f, n) next = (none, loop_stop fuel k v d rhs existing e f, tt)
        go existing e (some row, f, n) next =
            let (o, g, i) = next row n in (o, loop_continue fuel k v d rhs existing row e f ∙ g, i)

    -- On a row with different sources, coefficients below 256 and a right side of w bytes, which
    -- holds of the source symbols, with right known symbols, and with pivot rows that are true,
    -- begin with their pivots with the coefficient 1 and have none on the sources outside a given
    -- set, on which the row has none either or which are known, the loop of _reduce_row ends
    -- within one round for each pivot row and one more, and raises nothing; a row that it returns
    -- with terms is a true row whose first source is a pivot that no pivot row has, with the
    -- coefficient 1 there and none on the sources outside.
    pub reduce_row-Ends :
        (row : EquationRow)
        → Distinct row.terms
        → Bytes row.terms
        → Symbol w row.rhs_payload
        → dot w x row.terms ≡ row.rhs_payload
        → ((j : ℕ) → Off j → (get_zero row.terms j ≡ 0) ⊎ (has known j ≡ true))
        → (o : Option EquationRow) × (reduce_row row known rows ≡ ok o) × IsReduced rows o
    unfolding reduce_row
    reduce_row-Ends row u b s e f = go (normalize_row-IsNormal w x source known row agrees u b s e)
      where
        go :
            (o : Option EquationRow) × (normalize_row row known ≡ ok o)
              × IsNormal w x source known row.terms o
            → Ends (reduce_row row known rows)
        go (none, q, n) = (none, rw (q, reduce_row), tt)
        go (some r, q, (good, zeroed)) =
            let d = terms_to_map r.terms in
            let (o, g, i) =
              loop-Ends (suc (length rows)) 0 d r.rhs_payload (omega (arith, pivots_from-le 0 rows))
                (record {
                  terms = terms_to_map-IsTerms r.terms good.terms.bytes;
                  symbol = good.rhs_symbol;
                  holds =
                      dot-terms_to_map w x source r.terms good.terms.distinct good.terms.bytes
                      ∙ good.holds;
                  low = λ j h. absurd (omega arith);
                  off = λ j h.
                      get_zero-terms_to_map r.terms j good.terms.distinct good.terms.bytes
                      ∙ zeroed j (f j h);
                }) in
            (o, rw (q, reduce_row) g, i)
