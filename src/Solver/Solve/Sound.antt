-- ===== src/Solver/Solve/Sound.antt =====
-- `_solve` on true equations: it ends, raises nothing, and every symbol that it recovers is right.
use screen_airdrop.Prelude.{
  ℕ, zero, suc, ◌≤◌, ◌<◌, ◌≡◌, refl, sym, subst, ◌∙◌, true, false, some, List, [], ◌∷◌, ◌++◌, map,
  ◌==◌, arith, inl, inr, Bool-cases, length,
}
use screen_airdrop.Prelude.Dict.{Dict, get, keys, mem, sorted, Distinct}
use screen_airdrop.Prelude.Result.{Result, ok, ◌>>=◌}
use screen_airdrop.Coding.Payload.{Payload}
use screen_airdrop.Coding.Payload.Symbols.{Symbol}
use screen_airdrop.Solver.Rows.{EquationRow, get_zero}
use screen_airdrop.Solver.Rows.Coefficients.{Bytes}
use screen_airdrop.Solver.Rows.Value.{dot}
use screen_airdrop.Solver.Reduce.Normalize.{Agrees}
use screen_airdrop.Solver.Reduce.Loop.{IsPivotRows}
use screen_airdrop.Solver.Solve.{
  Progress, Solved, build_pivots, recover_loop, solve_loop, solve_equations, all_sources,
}
use screen_airdrop.Solver.Solve.Pivots.{
  AllIn, sorted-keys-AllIn, AreTrue, Off, build_pivots-IsPivotRows,
}
use screen_airdrop.Solver.Solve.Recover.{unknown_count, recover_loop-IsProgress}
use mathlib.Core.List.{reverse, reverse-append}

module _ {ℓ} {V : Type ℓ} where
  append-AllIn : (d : Dict V) (is js : List ℕ) → AllIn d is → AllIn d js → AllIn d (is ++ js)
  append-AllIn d [] js a b = b
  append-AllIn d (i ∷ is) js a b = (a.0, append-AllIn d is js a.1 b)

  reverse-AllIn : (d : Dict V) (is : List ℕ) → AllIn d is → AllIn d (reverse is)
  reverse-AllIn d [] a = a
  reverse-AllIn d (i ∷ is) a =
      subst (AllIn d) (sym (reverse-append (i ∷ []) is))
        (append-AllIn d (reverse is) (i ∷ []) (reverse-AllIn d is a.1) (a.0, tt))

unknown_count-le : (known : Dict Payload) (js : List ℕ) → unknown_count known js ≤ length js
unfolding unknown_count
unknown_count-le known [] = omega arith
unknown_count-le known (j ∷ js) = ground (arith, unknown_count-le known js)

abbrev pass : Solved → Result Progress
pass s =
    recover_loop s.pivot_rows (reverse (sorted (keys s.pivot_rows)))
      (record { known = s.known; recovered = s.recovered; changed = false })

module _ (w : ℕ) (x : ℕ → Payload) (source : (i : ℕ) → Symbol w (x i)) (first : Dict Payload) where
  -- What `_solve` delivers: right symbols, all that were known, and those that were recovered.
  pub record IsSolved (s : Solved) : Type 0 where
    pub agrees : Agrees w x source s.known
    pub extends : (i : ℕ) (p : Payload) → get first i ≡ some p → get s.known i ≡ some p
    pub recovered_known :
        (i : ℕ) (p : Payload) → get s.recovered i ≡ some p → get s.known i ≡ some p

module _ (w : ℕ) (x : ℕ → Payload) (source : (i : ℕ) → Symbol w (x i)) (universe : List ℕ)
    (equations : Dict EquationRow) (truth : AreTrue w x source universe equations)
    (first : Dict Payload) where
  -- The state of the loop: the known symbols are right, and the pivot rows are true.
  record IsState (s : Solved) : Type 0 where
    agrees : Agrees w x source s.known
    extends : (i : ℕ) (p : Payload) → get first i ≡ some p → get s.known i ≡ some p
    recovered_known : (i : ℕ) (p : Payload) → get s.recovered i ≡ some p → get s.known i ≡ some p
    pivots : IsPivotRows w x source (Off w x source universe s.known) s.pivot_rows

  loop_done :
      (fuel : ℕ) (s : Solved) (p : Progress)
      → pass s ≡ ok p
      → p.changed ≡ false
      → solve_loop (suc fuel) equations s
        ≡ ok (record { known = p.known; recovered = p.recovered; pivot_rows = s.pivot_rows })
  unfolding solve_loop
  loop_done fuel s p e f = rw (e, f, solve_loop, ◌>>=◌)

  loop_again :
      (fuel : ℕ) (s : Solved) (p : Progress) (rows : Dict EquationRow)
      → pass s ≡ ok p
      → p.changed ≡ true
      → build_pivots equations p.known ≡ ok rows
      → solve_loop (suc fuel) equations s
        ≡ solve_loop fuel equations
            (record { known = p.known; recovered = p.recovered; pivot_rows = rows })
  unfolding solve_loop
  loop_again fuel s p rows e f g = rw (e, f, g, solve_loop, ◌>>=◌)

  solve_loop-IsSolved :
      (fuel : ℕ) (s : Solved)
      → unknown_count s.known universe < fuel
      → IsState s
      → (s' : Solved) × (solve_loop fuel equations s ≡ ok s') × IsSolved w x source first s'
  solve_loop-IsSolved zero s h i = absurd (omega arith)
  solve_loop-IsSolved (suc fuel) s h i =
      let rows = s.pivot_rows in
      let ks = reverse (sorted (keys rows)) in
      let bound = unknown_count s.known universe in
      let begin : Progress = record { known = s.known; recovered = s.recovered; changed = false } in
      let (p, e, q) =
        recover_loop-IsProgress w x source universe first bound rows ks begin
          (Off w x source universe s.known) (λ j o. inl o) i.pivots
          (reverse-AllIn rows (sorted (keys rows)) (sorted-keys-AllIn rows))
          (record {
            agrees = i.agrees;
            extends = i.extends;
            recovered_known = i.recovered_known;
            count_le = omega arith;
            count_lt = λ f. cc;
          }) in
      elim (Bool-cases p.changed) [
        | inl f ↦
            let (rows', g, r) =
              build_pivots-IsPivotRows w x source universe equations p.known q.agrees truth in
            let again : Solved = record {
              known = p.known;
              recovered = p.recovered;
              pivot_rows = rows';
            } in
            let (s', k, done) =
              solve_loop-IsSolved fuel again (omega (arith, q.count_lt f)) (record {
                agrees = q.agrees;
                extends = q.extends;
                recovered_known = q.recovered_known;
                pivots = r;
              }) in
            (s', loop_again fuel s p rows' e f g ∙ k, done)
        | inr f ↦ (
          record { known = p.known; recovered = p.recovered; pivot_rows = rows },
          loop_done fuel s p e f,
          record { agrees = q.agrees; extends = q.extends; recovered_known = q.recovered_known },
        )
      ]

mem-append_false :
    (xs ys : List ℕ) (j : ℕ) → mem (xs ++ ys) j ≡ false → (mem xs j ≡ false) × (mem ys j ≡ false)
mem-append_false [] ys j h = (refl, h)
mem-append_false (x ∷ xs) ys j h = ground (arith, mem-append_false xs ys j)

mem-sources_zero :
    (ts : List (ℕ × ℕ)) (j : ℕ) → mem (map (λ t. t.0) ts) j ≡ false → get_zero ts j ≡ 0
unfolding get_zero
mem-sources_zero [] j h = refl
mem-sources_zero ((i, c) ∷ ts) j h = ground (arith, mem-sources_zero ts j)

all_sources-inside :
    (equations : Dict EquationRow) (i : ℕ) (row : EquationRow) (j : ℕ)
    → get equations i ≡ some row
    → mem (all_sources equations) j ≡ false
    → get_zero row.terms j ≡ 0
unfolding all_sources
all_sources-inside [] i row j e h = cc
all_sources-inside ((k, r) ∷ equations) i row j e h =
    let (here, there) = mem-append_false (map (λ t. t.0) r.terms) (all_sources equations) j h in
    elim (Bool-cases (k == i)) [
      | inl same ↦
          let r_eq : r ≡ row = ground arith in
          subst (λ a. get_zero a.terms j ≡ 0) r_eq (mem-sources_zero r.terms j here)
      | inr other ↦ all_sources-inside equations i row j (ground arith) there
    ]

module _ (w : ℕ) (x : ℕ → Payload) (source : (i : ℕ) → Symbol w (x i)) where
  -- An equation over different sources, with bytes as coefficients and a right side of `w` bytes,
  -- that holds of the source symbols `x`.
  pub record HoldsOf (row : EquationRow) : Type 0 where
    pub distinct : Distinct row.terms
    pub bytes : Bytes row.terms
    pub rhs_symbol : Symbol w row.rhs_payload
    pub holds : dot w x row.terms ≡ row.rhs_payload

  abbrev pub AllHold : Dict EquationRow → Type 0
  AllHold equations = (i : ℕ) (row : EquationRow) → get equations i ≡ some row → HoldsOf row

  -- For stored equations with different sources, coefficients below 256 and right sides of w
  -- bytes, which hold of the source symbols, and known symbols that are right, the loops of _solve
  -- end and raise nothing; every symbol known afterwards is the source symbol, no known symbol is
  -- lost or changed, and each symbol reported as recovered is known.
  pub solve_equations-IsSolved :
      (equations : Dict EquationRow) (known : Dict Payload)
      → AllHold equations
      → Agrees w x source known
      → (r : ℕ × Solved) × (solve_equations equations known ≡ ok r) × IsSolved w x source known r.1
  unfolding solve_equations
  solve_equations-IsSolved equations known h a =
      let universe = all_sources equations in
      let truth : AreTrue w x source universe equations = λ i row e.
        let q = h i row e in
        record {
          distinct = q.distinct;
          bytes = q.bytes;
          rhs_symbol = q.rhs_symbol;
          holds = q.holds;
          inside = λ j. all_sources-inside equations i row j e;
        } in
      let (rows, e, p) = build_pivots-IsPivotRows w x source universe equations known a truth in
      let begin : Solved = record { known = known; recovered = []; pivot_rows = rows } in
      let (s, f, done) =
        solve_loop-IsSolved w x source universe equations truth known (suc (length universe)) begin
          (omega (arith, unknown_count-le known universe))
          (record {
            agrees = a;
            extends = λ i q k. k;
            recovered_known = λ i q k. cc;
            pivots = p;
          }) in
      ((length rows, s), rw (e, f), done)
