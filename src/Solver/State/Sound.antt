-- ===== src/Solver/State/Sound.antt =====
-- The solver's operations on units that are true of the source symbols: they raise nothing, turn
-- nothing down, and every decoded symbol stays right.
use screen_airdrop.Prelude.{
  ℕ, zero, suc, ◌-◌, max, ltb, leb, ◌≤◌, ◌<◌, ◌≡◌, ◌⊎◌, refl, sym, subst, ap, ◌∙◌, Bool, true,
  false, not, ◌&&◌, some, List, [], ◌∷◌, ◌==◌, arith, inl, inr, Bool-cases, length,
}
use screen_airdrop.Prelude.Dict.{Dict, get, put, keys, sorted, get-put, get-put_self}
use screen_airdrop.Prelude.Result.{Result, ok}
use screen_airdrop.Coding.Payload.{Payload, xor_into}
use screen_airdrop.Coding.Payload.Symbols.{Symbol, zeros, length-Symbol, xor_self, zeros-xor}
use screen_airdrop.Coding.Payload.Sums.{weighted_sum, weighted_sum-Symbol}
use screen_airdrop.Coding.Equation.{Random, expand_equation_terms}
use screen_airdrop.Coding.Equation.Terms.{IsProper, expand_equation_terms_lem}
use screen_airdrop.Units.{SystematicUnit, CodedUnit}
use screen_airdrop.Solver.Rows.{EquationRow, is_zero_payload}
use screen_airdrop.Solver.Rows.Coefficients.{Bytes}
use screen_airdrop.Solver.Rows.Value.{dot}
use screen_airdrop.Solver.Reduce.{is_empty}
use screen_airdrop.Solver.Reduce.Normalize.{Agrees}
use screen_airdrop.Solver.Reduce.Truth.{add_known-eq}
use screen_airdrop.Solver.Solve.{unresolved_terms, known_terms}
use screen_airdrop.Solver.Solve.Recover.{known_terms-IsWeighted, dot-known}
use screen_airdrop.Solver.Solve.Sound.{HoldsOf, AllHold, solve_equations-IsSolved}
use screen_airdrop.Solver.State.{
  SolverState, SolverCodedResult, accepted, recovered, update_symbol_size, solve, record_source,
  ingest_systematic, equation_conflicts, record_equation, coded_result, accept_equation,
  ingest_terms, ingest_sized, ingest_coded,
}

proper-Bytes : (size : ℕ) (ts : List (ℕ × ℕ)) → IsProper size ts → Bytes ts
proper-Bytes size [] p = tt
proper-Bytes size ((i, c) ∷ ts) p = (p.3, proper-Bytes size ts p.4)

==-positive : (n : ℕ) → 0 < n → (n == 0) ≡ false
==-positive n h = ground arith

is_zero-zeros : (w : ℕ) → is_zero_payload (zeros w) ≡ true
unfolding is_zero_payload
is_zero-zeros zero = refl
is_zero-zeros (suc w) = is_zero-zeros w

module _ (w : ℕ) (x : ℕ → Payload) (source : (i : ℕ) → Symbol w (x i)) where
  -- Every equation holds of the source symbols `x`, and every decoded symbol is one of them.
  pub record IsSound (s : SolverState) : Type 0 where
    pub size : (s.symbol_size ≡ 0) ⊎ (s.symbol_size ≡ w)
    pub equations : AllHold w x source s.equations
    pub decoded : Agrees w x source s.decoded_source_symbols

  -- The decoded symbols of `s` are decoded in `t` too.
  abbrev pub Keeps : SolverState → SolverState → Type 0
  Keeps s t =
      (i : ℕ) (p : Payload)
      → get s.decoded_source_symbols i ≡ some p
      → get t.decoded_source_symbols i ≡ some p

  update_size :
      (n : ℕ) (payload : Payload) (strict : Bool)
      → (n ≡ 0) ⊎ (n ≡ w)
      → Symbol w payload
      → (m : ℕ) × (update_symbol_size n payload strict ≡ ok m) × ((m ≡ 0) ⊎ (m ≡ w))
  unfolding update_symbol_size
  update_size n [] strict h s = (n, refl, h)
  update_size n (b ∷ p) strict h s =
      let e = length-Symbol w (b ∷ p) s in
      elim (Bool-cases (n == 0)) [
        | inl fresh ↦ (length (b ∷ p), rw fresh, inr e)
        | inr set ↦ (n, ground (arith, e), h)
      ]

  solve_eq :
      (s : SolverState)
      → IsSound s
      → (r : SolverState × List ℕ) × (solve s ≡ ok r)
        × IsSound r.0
        × Keeps s r.0
        × ((r.0.symbol_size ≡ s.symbol_size) × (r.0.raw_coded_count ≡ s.raw_coded_count))
  unfolding solve
  solve_eq s h =
      let (r, e, done) =
        solve_equations-IsSolved w x source s.equations s.decoded_source_symbols h.equations
          h.decoded in
      let rank = max r.0 (length r.1.pivot_rows) in
      let s' : SolverState = record s {
        rank = rank;
        dependent_equation_count = s.raw_coded_count - rank;
        solvable = ltb 0 s.generation_size && leb s.generation_size (length r.1.known);
        decoded_source_symbols = r.1.known;
      } in
      (
        (s', sorted (keys r.1.recovered)),
        rw e refl,
        record { size = h.size; equations = h.equations; decoded = done.agrees },
        done.extends,
        (refl, refl),
      )

  pub put-Agrees :
      (d : Dict Payload) (i : ℕ) (p : Payload)
      → Agrees w x source d
      → p ≡ x i
      → Agrees w x source (put d i p)
  put-Agrees d i p a e j q f = ground (arith, get-put d i j p, a j q, e, f)

  put-AllHold :
      (equations : Dict EquationRow) (i : ℕ) (row : EquationRow)
      → AllHold w x source equations
      → HoldsOf w x source row
      → AllHold w x source (put equations i row)
  put-AllHold equations i row h q j r e = elim (Bool-cases (i == j)) [
    | inl same ↦
        let here : row ≡ r = ground (arith, get-put equations i j row) in
        subst (HoldsOf w x source) here q
    | inr other ↦ h j r (ground (arith, get-put equations i j row))
  ]

  -- In a sound state, ingest_systematic of a unit that carries the source symbol of its index
  -- returns; the state stays sound, the symbol is decoded under its index, and no decoded symbol
  -- is lost or changed.
  pub ingest_systematic-IsSound :
      (s : SolverState) (u : SystematicUnit)
      → IsSound s
      → u.payload ≡ x u.source_index
      → (r : SolverState × List ℕ) × (ingest_systematic s u ≡ ok r)
        × IsSound r.0
        × (get r.0.decoded_source_symbols u.source_index ≡ some u.payload)
        × Keeps s r.0
  unfolding ingest_systematic
  ingest_systematic-IsSound s u h e =
      let symbol : Symbol w u.payload = subst (Symbol w) (sym e) (source u.source_index) in
      let (m, f, size) =
        update_size s.symbol_size u.payload (not (is_empty s.equations)) h.size symbol in
      let d = s.decoded_source_symbols in
      let t = record_source s u m in
      let (r, g, sound, keeps, same) = solve_eq t (record {
        size = size;
        equations = h.equations;
        decoded = put-Agrees d u.source_index u.payload h.decoded e;
      }) in
      (
        r,
        rw f g,
        sound,
        keeps u.source_index u.payload (get-put_self d u.source_index u.payload),
        λ i p k.
            keeps i p (ground (arith, get-put d u.source_index i u.payload, h.decoded i p k, e, k)),
      )

  -- A coded unit is true of the source symbols: its payload is the combination that its seed names.
  pub record IsTruthful (random : Random) (u : CodedUnit) : Type 0 where
    pub symbol : Symbol w u.payload
    pub positive : 0 < u.degree
    pub bounded : u.degree ≤ u.generation_size
    pub combination :
        (ts : List (ℕ × ℕ))
        → expand_equation_terms random u.generation_size u.coding_seed u.degree u.coding_scheme
          ≡ ok ts
        → dot w x ts ≡ u.payload

  no_conflict :
      (known : Dict Payload) (ts : List (ℕ × ℕ)) (payload : Payload) (u : List (ℕ × ℕ))
      → Agrees w x source known
      → Bytes ts
      → Symbol w payload
      → dot w x ts ≡ payload
      → unresolved_terms known ts ≡ u
      → equation_conflicts known ts payload ≡ ok false
  unfolding equation_conflicts dot
  no_conflict known ts payload [] a b p e f =
      let k = weighted_sum w (known_terms known ts) in
      let weighted = known_terms-IsWeighted w x source known ts a b in
      let k_symbol = weighted_sum-Symbol w (known_terms known ts) weighted in
      let total : payload ≡ k =
        sym e
        ∙ dot-known w x source known ts a b
        ∙ ap (λ d. xor_into (dot w x d) k) f
        ∙ zeros-xor w k k_symbol in
      let zero_sum : xor_into payload k ≡ zeros w =
        ap (xor_into payload) (sym total) ∙ xor_self w payload p in
      rw
        (
          add_known-eq w x source payload (known_terms known ts) p weighted,
          zero_sum,
          is_zero-zeros w,
          f,
        )
        refl
  no_conflict known ts payload (t ∷ u) a b p e f =
      let weighted = known_terms-IsWeighted w x source known ts a b in
      rw (add_known-eq w x source payload (known_terms known ts) p weighted, f) refl

  coded_status :
      (n : ℕ) (s : SolverState) (is : List ℕ)
      → ((coded_result n s is).status ≡ accepted) ⊎ ((coded_result n s is).status ≡ recovered)
  unfolding coded_result
  coded_status n s [] = inl refl
  coded_status n s (i ∷ is) = inr refl

  abbrev Takes : SolverState → Result (SolverState × SolverCodedResult) → Type 0
  Takes s m =
      (r : SolverState × SolverCodedResult) × (m ≡ ok r)
      × IsSound r.0
      × Keeps s r.0
      × (r.0.raw_coded_count ≡ suc s.raw_coded_count)
      × ((r.1.status ≡ accepted) ⊎ (r.1.status ≡ recovered))

  accept_true :
      (s : SolverState) (u : CodedUnit) (ts : List (ℕ × ℕ))
      → IsSound s
      → HoldsOf w x source (record { terms = ts; rhs_payload = u.payload })
      → Takes s (accept_equation s u ts)
  unfolding accept_equation
  accept_true s u ts h q =
      let t : SolverState = record_equation s u ts in
      let row : EquationRow = record { terms = ts; rhs_payload = u.payload } in
      let (r, e, sound, keeps, same) = solve_eq t (record {
        size = unfold record_equation in h.size;
        equations =
            unfold record_equation in put-AllHold s.equations u.equation_id row h.equations q;
        decoded = unfold record_equation in h.decoded;
      }) in
      (
        (r.0, coded_result s.rank r.0 r.1),
        rw e refl,
        sound,
        unfold record_equation in keeps,
        same.1 ∙ (unfold record_equation in ground arith),
        coded_status s.rank r.0 r.1,
      )

  terms_true :
      (s : SolverState) (u : CodedUnit) (ts : List (ℕ × ℕ))
      → IsSound s
      → HoldsOf w x source (record { terms = ts; rhs_payload = u.payload })
      → 0 < length ts
      → Takes s (ingest_terms s u ts)
  unfolding ingest_terms
  terms_true s u [] h q l = absurd (omega arith)
  terms_true s u (t ∷ ts) h q l =
      let e =
        no_conflict s.decoded_source_symbols (t ∷ ts) u.payload
          (unresolved_terms s.decoded_source_symbols (t ∷ ts)) h.decoded q.bytes q.rhs_symbol
          q.holds refl in
      let (r, f, a, b, c, d) = accept_true s u (t ∷ ts) h q in (r, rw e f, a, b, c, d)

  module _ (random : Random) where
    sized_true :
        (s : SolverState) (u : CodedUnit)
        → IsSound s
        → IsTruthful random u
        → Takes s (ingest_sized random s u)
    unfolding ingest_sized
    sized_true s u h t =
        let (ts, e, q) =
          expand_equation_terms_lem random u.generation_size u.coding_seed u.degree u.coding_scheme
            t.positive t.bounded in
        let (r, f, a, b, c, d) =
          terms_true s u ts h
            (record {
              distinct = q.distinct;
              bytes = proper-Bytes u.generation_size ts q.proper;
              rhs_symbol = t.symbol;
              holds = t.combination ts e;
            })
            (rw q.count t.positive) in
        (r, rw (e, ==-positive u.degree t.positive) f, a, b, c, d)

    -- In a sound state (its equations hold of the source symbols, its decoded symbols are right,
    -- its symbol size is unset or w), ingest_coded of a coded unit whose payload is the
    -- combination that its seed names, of w bytes, with a degree from 1 to its generation's size,
    -- returns with the status accepted or recovered; the state stays sound, no decoded symbol is
    -- lost or changed, and the count of coded units grows by one.
    pub ingest_coded-IsSound :
        (s : SolverState) (u : CodedUnit)
        → IsSound s
        → IsTruthful random u
        → (r : SolverState × SolverCodedResult) × (ingest_coded random s u ≡ ok r)
          × IsSound r.0
          × Keeps s r.0
          × (r.0.raw_coded_count ≡ suc s.raw_coded_count)
          × ((r.1.status ≡ accepted) ⊎ (r.1.status ≡ recovered))
    unfolding ingest_coded
    ingest_coded-IsSound s u h t =
        let (m, e, size) = update_size s.symbol_size u.payload true h.size t.symbol in
        let s' : SolverState = record s { symbol_size = m } in
        let (r, f, a, b, c, d) =
          sized_true s' u (record { size = size; equations = h.equations; decoded = h.decoded })
            t in
        (r, rw (e, ingest_coded) f, a, b, c, d)
