-- ===== src/Solver/Reduce/Truth.antt =====
-- `normalize_row` on a row that is true of the source symbols: it returns, and what it returns is
-- true too.
use screen_airdrop.Prelude.{
  ℕ, ◌≡◌, ◌⊎◌, refl, sym, ap, ◌∙◌, true, Option, none, some, List, [], ◌∷◌, ◌&&◌, arith, inl, inr,
  Bool-cases,
}
use screen_airdrop.Prelude.Dict.{Dict, has, Distinct}
use screen_airdrop.Prelude.Result.{Result, ok, ◌>>=◌}
use screen_airdrop.Coding.Payload.{Payload, xor_into}
use screen_airdrop.Coding.Payload.Symbols.{
  Symbol, zeros, xor-Symbol, xor_comm, zeros-xor, xor-zeros, xor_cancel, scale_one,
}
use screen_airdrop.Coding.Payload.Sums.{
  weighted_sum, IsWeighted, weighted_sum-Symbol, linear_combine-weighted_sum,
}
use screen_airdrop.Solver.Rows.{EquationRow, get_zero, map_to_terms, is_zero_payload}
use screen_airdrop.Solver.Rows.Coefficients.{
  Bytes, IsTerms, map_to_terms-IsTerms, get_zero-map_to_terms,
}
use screen_airdrop.Solver.Rows.Value.{dot, dot-Symbol, dot_ext, dot-map_to_terms}
use screen_airdrop.Solver.Reduce.{
  Split, split_terms, add_known, drop_zeros, is_empty, finish_row, normalize_terms, normalize_row,
}
use screen_airdrop.Solver.Reduce.Normalize.{
  Fresh_nil, drop_zeros-IsTerms, get_zero-drop_zeros, split_zero, Agrees, IsSplit, split-IsSplit,
}

abbrev start : Split
start = record { unresolved = []; known_terms = [] }

module _ (w : ℕ) (x : ℕ → Payload) (source : (i : ℕ) → Symbol w (x i)) where
  -- A row of different sources, with bytes other than 0, that is true of the source symbols.
  pub record IsTrue (row : EquationRow) : Type 0 where
    pub terms : IsTerms row.terms
    pub rhs_symbol : Symbol w row.rhs_payload
    pub holds : dot w x row.terms ≡ row.rhs_payload

  -- What `normalize_row` returns for the terms `ts`: no new source has a coefficient, and no known
  -- one.
  abbrev pub IsNormal : Dict Payload → List (ℕ × ℕ) → Option EquationRow → Type 0
  IsNormal known ts none = Unit
  IsNormal known ts (some row) =
      IsTrue row × ((j : ℕ) → (get_zero ts j ≡ 0) ⊎ (has known j ≡ true) → get_zero row.terms j ≡ 0)

  pub add_known-eq :
      (rhs : Payload) (ts : List (ℕ × Payload))
      → Symbol w rhs
      → IsWeighted w ts
      → add_known rhs ts ≡ ok (xor_into rhs (weighted_sum w ts))
  unfolding add_known
  add_known-eq rhs [] s h = unfold weighted_sum in ap ok (sym (xor-zeros w rhs s))
  add_known-eq rhs ((c, p) ∷ ts) s h =
      linear_combine-weighted_sum w 1 rhs ((c, p) ∷ ts) (omega arith, s, h)
      ∙ unfold weighted_sum in
        ap (λ t. ok (xor_into t (weighted_sum w ((c, p) ∷ ts)))) (scale_one w rhs s)

  start-IsSplit :
      (ts : List (ℕ × ℕ)) → Distinct ts → Bytes ts → IsSplit w x source start ts (dot w x ts)
  start-IsSplit ts u b =
      let s = dot-Symbol w x source ts b in
      record {
        distinct = tt;
        bytes = tt;
        weighted = tt;
        rest_distinct = u;
        rest_bytes = b;
        fresh = Fresh_nil ts;
        sum =
            unfold dot weighted_sum in
            ap (xor_into (zeros w)) (zeros-xor w (dot w x ts) s) ∙ zeros-xor w (dot w x ts) s;
      }

  -- p + k = r gives r + k = p.
  move_over :
      (p k r : Payload)
      → Symbol w p
      → Symbol w k
      → xor_into p (xor_into k (zeros w)) ≡ r
      → xor_into r k ≡ p
  move_over p k r sp sk e = cc (
    e,
    xor-zeros w k sk,
    xor_comm w p k sp sk,
    xor_comm w (xor_into k p) k (xor-Symbol w k p sk sp) sk,
    xor_cancel w k p sk sp,
  )

  finish-IsNormal :
      (known : Dict Payload) (ts : List (ℕ × ℕ)) (d : Dict ℕ) (rhs : Payload)
      → IsTerms d
      → Symbol w rhs
      → dot w x d ≡ rhs
      → ((j : ℕ) → (get_zero ts j ≡ 0) ⊎ (has known j ≡ true) → get_zero d j ≡ 0)
      → IsNormal known ts (finish_row d rhs)
  unfolding finish_row
  finish-IsNormal known ts d rhs t s e z = elim (Bool-cases (is_empty d && is_zero_payload rhs)) [
    | inl stop ↦ rw stop tt
    | inr go ↦ rw go (
      record {
        terms = map_to_terms-IsTerms d t.distinct t.bytes;
        rhs_symbol = s;
        holds = dot-map_to_terms w x source d t.distinct t.bytes ∙ e;
      },
      λ j h. get_zero-map_to_terms d j ∙ z j h,
    )
  ]

  dot_nil : dot w x [] ≡ zeros w
  unfolding dot
  dot_nil = refl

  normalize_terms-IsNormal :
      (known : Dict Payload) (row : EquationRow)
      → Agrees w x source known
      → Distinct row.terms
      → Bytes row.terms
      → Symbol w row.rhs_payload
      → dot w x row.terms ≡ row.rhs_payload
      → (o : Option EquationRow) × (normalize_terms known row ≡ ok o) × IsNormal known row.terms o
  unfolding normalize_terms
  normalize_terms-IsNormal known row a u b s e =
      let r = split_terms known start row.terms in
      let f =
        split-IsSplit w x source known start row.terms (dot w x row.terms) a
          (start-IsSplit row.terms u b) in
      let k = weighted_sum w r.known_terms in
      let k_symbol = weighted_sum-Symbol w r.known_terms f.weighted in
      let p_symbol = dot-Symbol w x source r.unresolved f.bytes in
      let moved : xor_into row.rhs_payload k ≡ dot w x r.unresolved =
        move_over (dot w x r.unresolved) k row.rhs_payload p_symbol k_symbol
          (cc (dot_nil, f.sum, e)) in
      let d = drop_zeros r.unresolved in
      let d_terms = drop_zeros-IsTerms r.unresolved f.distinct f.bytes in
      (
        finish_row d (xor_into row.rhs_payload k),
        ap (λ (m : Result Payload). do rhs ← m; ok (finish_row d rhs))
            (add_known-eq row.rhs_payload r.known_terms s f.weighted),
        finish-IsNormal known row.terms d (xor_into row.rhs_payload k) d_terms
            (xor-Symbol w row.rhs_payload k s k_symbol)
            (dot_ext w x source d r.unresolved d_terms.distinct d_terms.bytes f.distinct f.bytes
                (λ j. get_zero-drop_zeros r.unresolved j f.distinct)
              ∙ sym moved)
            (λ j h.
              get_zero-drop_zeros r.unresolved j f.distinct
              ∙ split_zero known start row.terms j (unfold get_zero in refl) h u),
      )

  -- On a row without terms `normalize_row` returns at once what the rest would.
  normalize_row-eq :
      (known : Dict Payload) (row : EquationRow)
      → normalize_row row known ≡ normalize_terms known row
  unfolding normalize_row
  normalize_row-eq known row = go row.terms row.rhs_payload
    where
      go :
          (ts : List (ℕ × ℕ)) (p : Payload)
          → normalize_row (record { terms = ts; rhs_payload = p }) known
            ≡ normalize_terms known (record { terms = ts; rhs_payload = p })
      go [] p =
          unfold normalize_terms split_terms add_known drop_zeros finish_row map_to_terms in
          ground arith
      go ((i, c) ∷ ts) p = refl

  -- On a row with different sources, coefficients below 256 and a right side of w bytes, which
  -- holds of the source symbols, and known symbols that are right, _normalize_row raises nothing;
  -- a row that it returns is true again, has no zero coefficient, none on a known source, and none
  -- on a source on which the given row has none.
  pub normalize_row-IsNormal :
      (known : Dict Payload) (row : EquationRow)
      → Agrees w x source known
      → Distinct row.terms
      → Bytes row.terms
      → Symbol w row.rhs_payload
      → dot w x row.terms ≡ row.rhs_payload
      → (o : Option EquationRow) × (normalize_row row known ≡ ok o) × IsNormal known row.terms o
  normalize_row-IsNormal known row a u b s e =
      let (o, q, n) = normalize_terms-IsNormal known row a u b s e in
      (o, normalize_row-eq known row ∙ q, n)
