-- ===== src/Solver/Solve/Recover.antt =====
-- A pass over the pivot rows: what it recovers are the source symbols.
use screen_airdrop.Prelude.{
  ℕ, suc, ◌+◌, ◌≤◌, ◌<◌, ◌≡◌, ◌⊎◌, refl, sym, subst, ap, ◌∙◌, true, false, none, some, List, [],
  ◌∷◌, ◌==◌, if◌then◌else◌, arith, inl, inr, Option-cases, Bool-cases,
}
use screen_airdrop.Prelude.Dict.{Dict, get, has, put, mem, get-put}
use screen_airdrop.Prelude.Result.{Result, ok, ◌>>=◌}
use screen_airdrop.Coding.Gf256.{gf256_mul, gf256_div}
use screen_airdrop.Coding.Payload.{Payload, gf256_scale_payload, xor_into}
use screen_airdrop.Coding.Payload.Symbols.{
  Symbol, zeros, zeros-Symbol, xor-Symbol, xor_comm, xor_assoc, zeros-xor, xor-zeros, xor_left_comm,
  xor_cancel, scale-Symbol, scale_one, scale-scale,
}
use screen_airdrop.Coding.Payload.Sums.{weighted_sum, IsWeighted, weighted_sum-Symbol}
use screen_airdrop.Solver.Rows.{EquationRow}
use screen_airdrop.Solver.Rows.Coefficients.{Bytes, NonZero, get_zero_pos}
use screen_airdrop.Solver.Rows.Value.{dot, dot-Symbol}
use screen_airdrop.Solver.Reduce.{add_known}
use screen_airdrop.Solver.Reduce.Normalize.{Agrees, has-get, has-get-none}
use screen_airdrop.Solver.Reduce.Truth.{IsTrue, add_known-eq}
use screen_airdrop.Solver.Reduce.Pivot.{IsPivotRow, gf256_div_one}
use screen_airdrop.Solver.Reduce.Loop.{IsPivotRows}
use screen_airdrop.Solver.Solve.{
  Progress, unresolved_terms, known_terms, recover, recover_single, recover_loop, row_at,
}
use screen_airdrop.Solver.Solve.Pivots.{AllIn}

unresolved_none :
    (known : Dict Payload) (ts : List (ℕ × ℕ)) (j : ℕ)
    → (get ts j ≡ none) ⊎ (has known j ≡ true)
    → get (unresolved_terms known ts) j ≡ none
unfolding unresolved_terms
unresolved_none known [] j h = refl
unresolved_none known ((i, c) ∷ ts) j h = ground (arith, unresolved_none known ts j)

unresolved-Bytes :
    (known : Dict Payload) (ts : List (ℕ × ℕ)) → Bytes ts → Bytes (unresolved_terms known ts)
unfolding unresolved_terms
unresolved-Bytes known [] b = tt
unresolved-Bytes known ((i, c) ∷ ts) b = ground (arith, unresolved-Bytes known ts b.1)

unresolved-NonZero :
    (known : Dict Payload) (ts : List (ℕ × ℕ)) → NonZero ts → NonZero (unresolved_terms known ts)
unfolding unresolved_terms
unresolved-NonZero known [] b = tt
unresolved-NonZero known ((i, c) ∷ ts) b = ground (arith, unresolved-NonZero known ts b.1)

-- How many of the sources of `universe` are not known.
unfoldable pub unknown_count : Dict Payload → List ℕ → ℕ
unknown_count known [] = 0
unknown_count known (j ∷ js) = (if has known j then 0 else 1) + unknown_count known js

has-put :
    (d : Dict Payload) (k j : ℕ) (p : Payload)
    → has (put d k p) j ≡ (if k == j then true else has d j)
has-put [] k j p = refl
has-put ((i, q) ∷ d) k j p = ground (arith, has-put d k j p)

unknown_count-put_le :
    (d : Dict Payload) (k : ℕ) (p : Payload) (js : List ℕ)
    → unknown_count (put d k p) js ≤ unknown_count d js
unfolding unknown_count
unknown_count-put_le d k p [] = omega arith
unknown_count-put_le d k p (j ∷ js) = ground (arith, has-put d k j p, unknown_count-put_le d k p js)

unknown_count-put :
    (d : Dict Payload) (k : ℕ) (p : Payload) (js : List ℕ)
    → has d k ≡ false
    → mem js k ≡ true
    → suc (unknown_count (put d k p) js) ≤ unknown_count d js
unfolding unknown_count
unknown_count-put d k p [] h m = cc
unknown_count-put d k p (j ∷ js) h m =
    ground (arith, has-put d k j p, unknown_count-put d k p js h, unknown_count-put_le d k p js)

known_terms_none :
    (known : Dict Payload) (i c : ℕ) (ts : List (ℕ × ℕ))
    → get known i ≡ none
    → known_terms known ((i, c) ∷ ts) ≡ known_terms known ts
unfolding known_terms
known_terms_none known i c ts e = rw (e, known_terms)

known_terms_some :
    (known : Dict Payload) (i c : ℕ) (ts : List (ℕ × ℕ)) (p : Payload)
    → get known i ≡ some p
    → known_terms known ((i, c) ∷ ts) ≡ (c, p) ∷ known_terms known ts
unfolding known_terms
known_terms_some known i c ts p e = rw (e, known_terms)

unresolved_step :
    (known : Dict Payload) (i c : ℕ) (ts : List (ℕ × ℕ))
    → unresolved_terms known ((i, c) ∷ ts)
      ≡ (if has known i then unresolved_terms known ts else (i, c) ∷ unresolved_terms known ts)
unfolding unresolved_terms
unresolved_step known i c ts = refl

module _ (w : ℕ) (x : ℕ → Payload) (source : (i : ℕ) → Symbol w (x i)) where
  pub known_terms-IsWeighted :
      (known : Dict Payload) (ts : List (ℕ × ℕ))
      → Agrees w x source known
      → Bytes ts
      → IsWeighted w (known_terms known ts)
  known_terms-IsWeighted known [] a b = unfold known_terms in tt
  known_terms-IsWeighted known ((i, c) ∷ ts) a b = elim (Option-cases (get known i)) [
    | inl e ↦ rw (known_terms_none known i c ts e) (known_terms-IsWeighted known ts a b.1)
    | inr (p, e) ↦
        rw (known_terms_some known i c ts p e)
          (b.0, rw (a i p e) (source i), known_terms-IsWeighted known ts a b.1)
  ]

  -- The value of a row is that of its unresolved terms and of its known ones.
  pub dot-known :
      (known : Dict Payload) (ts : List (ℕ × ℕ))
      → Agrees w x source known
      → Bytes ts
      → dot w x ts
        ≡ xor_into (dot w x (unresolved_terms known ts)) (weighted_sum w (known_terms known ts))
  unfolding dot weighted_sum
  dot-known known [] a b =
      unfold unresolved_terms known_terms in sym (zeros-xor w (zeros w) (zeros-Symbol w))
  dot-known known ((i, c) ∷ ts) a b =
      let t = gf256_scale_payload (x i) c in
      let t_symbol = scale-Symbol w (x i) c (source i) b.0 in
      let u = unresolved_terms known ts in
      let u_symbol = dot-Symbol w x source u (unresolved-Bytes known ts b.1) in
      let k = weighted_sum w (known_terms known ts) in
      let k_symbol =
        weighted_sum-Symbol w (known_terms known ts) (known_terms-IsWeighted known ts a b.1) in
      let ih = dot-known known ts a b.1 in
      elim (Option-cases (get known i)) [
        | inl e ↦
            rw
              (
                known_terms_none known i c ts e,
                unresolved_step known i c ts,
                has-get-none known i e,
              )
              (ap (xor_into t) ih ∙ sym (xor_assoc w t (dot w x u) k t_symbol u_symbol k_symbol))
        | inr (p, e) ↦
            rw
              (
                known_terms_some known i c ts p e,
                unresolved_step known i c ts,
                has-get known i p e,
                a i p e,
              )
              (ap (xor_into t) ih ∙ xor_left_comm w t (dot w x u) k t_symbol u_symbol k_symbol)
      ]

  -- p = r + k gives r = p + k.
  solve_for : (p k r : Payload) → Symbol w k → Symbol w r → p ≡ xor_into r k → xor_into p k ≡ r
  solve_for p k r sk sr e = cc (
    e,
    xor_comm w r k sr sk,
    xor_comm w (xor_into k r) k (xor-Symbol w k r sk sr) sk,
    xor_cancel w k r sk sr,
  )

  -- The symbol that a row with one unresolved source gives is that source's.
  recovered_payload :
      (known : Dict Payload) (row : EquationRow) (t c s : ℕ)
      → Agrees w x source known
      → IsTrue w x source row
      → unresolved_terms known row.terms ≡ (t, c) ∷ []
      → c < 256
      → s < 256
      → gf256_mul c s ≡ 1
      → gf256_scale_payload
          (xor_into row.rhs_payload (weighted_sum w (known_terms known row.terms)))
          s
        ≡ x t
  recovered_payload known row t c s a q u c_lt s_lt product =
      let k = weighted_sum w (known_terms known row.terms) in
      let k_symbol =
        weighted_sum-Symbol w (known_terms known row.terms)
          (known_terms-IsWeighted known row.terms a q.terms.bytes) in
      let y = gf256_scale_payload (x t) c in
      let y_symbol = scale-Symbol w (x t) c (source t) c_lt in
      let single : dot w x ((t, c) ∷ []) ≡ y = unfold dot in xor-zeros w y y_symbol in
      let total : row.rhs_payload ≡ xor_into y k =
        sym q.holds
        ∙ dot-known known row.terms a q.terms.bytes
        ∙ ap (λ d. xor_into d k) (ap (dot w x) u ∙ single) in
      ap (λ p. gf256_scale_payload p s) (solve_for row.rhs_payload k y k_symbol y_symbol total)
      ∙ scale-scale w (x t) c s (source t) c_lt s_lt
      ∙ ap (gf256_scale_payload (x t)) product
      ∙ scale_one w (x t) (source t)

  module _ (universe : List ℕ) (first : Dict Payload) (bound : ℕ) where
    -- What holds during a pass that began with the known symbols `first`, `bound` sources of
    -- `universe` being unknown.
    pub record IsProgress (s : Progress) : Type 0 where
      pub agrees : Agrees w x source s.known
      pub extends : (i : ℕ) (p : Payload) → get first i ≡ some p → get s.known i ≡ some p
      pub recovered_known :
          (i : ℕ) (p : Payload) → get s.recovered i ≡ some p → get s.known i ≡ some p
      pub count_le : unknown_count s.known universe ≤ bound
      pub count_lt : s.changed ≡ true → suc (unknown_count s.known universe) ≤ bound

    put_progress :
        (s : Progress) (t : ℕ) (p : Payload)
        → IsProgress s
        → p ≡ x t
        → get s.known t ≡ none
        → mem universe t ≡ true
        → IsProgress
            (record { known = put s.known t p; recovered = put s.recovered t p; changed = true })
    put_progress s t p h e n m =
        let fewer = unknown_count-put s.known t p universe (has-get-none s.known t n) m in
        record {
          agrees = λ i q f. ground (arith, get-put s.known t i p, h.agrees i q, e, f);
          extends = λ i q f. ground (arith, get-put s.known t i p, h.extends i q f, n);
          recovered_known = λ i q f.
              ground
                (arith, get-put s.known t i p, get-put s.recovered t i p, h.recovered_known i q);
          count_le = omega (arith, fewer, h.count_le);
          count_lt = λ _. omega (arith, fewer, h.count_le);
        }

    -- The only unresolved source is one of `universe` and not known.
    target_facts :
        (k : ℕ) (row : EquationRow) (known : Dict Payload) (t c : ℕ) (Off' : ℕ → Type 0)
        → ((j : ℕ) → mem universe j ≡ false → Off' j)
        → IsPivotRow w x source Off' k row
        → unresolved_terms known row.terms ≡ (t, c) ∷ []
        → (mem universe t ≡ true) × (get known t ≡ none) × (0 < c) × (c < 256)
    target_facts k row known t c Off' out q u =
        let nz = subst NonZero u (unresolved-NonZero known row.terms q.true_row.terms.nonzero) in
        let by = subst Bytes u (unresolved-Bytes known row.terms q.true_row.terms.bytes) in
        let at_t : get (unresolved_terms known row.terms) t ≡ some c =
          ap (λ (l : List (ℕ × ℕ)). get l t) u ∙ ground arith in
        (
          elim (Bool-cases (mem universe t)) [
            | inl inside ↦ inside
            | inr outside ↦ cc (
              at_t,
              unresolved_none known row.terms t (
                  inl
                    (get_zero_pos row.terms t q.true_row.terms.nonzero (q.off t (out t outside)))),
            )
          ],
          elim (Option-cases (get known t)) [
            | inl e ↦ e
            | inr (p, e) ↦ cc (at_t, unresolved_none known row.terms t (inr (has-get known t p e)))
          ],
          nz.0,
          by.0,
        )

    recover_eq :
        (s : Progress) (row : EquationRow) (t c i : ℕ) (r : Payload)
        → add_known row.rhs_payload (known_terms s.known row.terms) ≡ ok r
        → gf256_div 1 c ≡ ok i
        → get s.known t ≡ none
        → recover s row t c
          ≡ ok (record {
            known = put s.known t (gf256_scale_payload r i);
            recovered = put s.recovered t (gf256_scale_payload r i);
            changed = true;
          })
    unfolding recover
    recover_eq s row t c i r e f g = rw (e, f, g)

    abbrev Advances : Result Progress → Type 0
    Advances m = (s : Progress) × (m ≡ ok s) × IsProgress s

    single-Advances :
        (k : ℕ) (row : EquationRow) (s : Progress) (u : List (ℕ × ℕ)) (Off' : ℕ → Type 0)
        → ((j : ℕ) → mem universe j ≡ false → Off' j)
        → IsProgress s
        → IsPivotRow w x source Off' k row
        → unresolved_terms s.known row.terms ≡ u
        → Advances (recover_single s row u)
    unfolding recover_single
    single-Advances k row s [] Off' out h q e = (s, refl, h)
    single-Advances k row s ((t, c) ∷ []) Off' out h q e =
        let (m, n, pos, lt) = target_facts k row s.known t c Off' out q e in
        let (i, f, i_lt, product) = gf256_div_one c pos lt in
        let ts = known_terms s.known row.terms in
        let weighted = known_terms-IsWeighted s.known row.terms h.agrees q.true_row.terms.bytes in
        let r = xor_into row.rhs_payload (weighted_sum w ts) in
        let p = gf256_scale_payload r i in
        (
          record { known = put s.known t p; recovered = put s.recovered t p; changed = true },
          recover_eq s row t c i r
              (add_known-eq w x source row.rhs_payload ts q.true_row.rhs_symbol weighted) f n,
          put_progress s t p h
              (recovered_payload s.known row t c i h.agrees q.true_row e lt i_lt product) n m,
        )
    single-Advances k row s (a ∷ b ∷ u) Off' out h q e = (s, refl, h)

    loop_step :
        (rows : Dict EquationRow) (k : ℕ) (ks : List ℕ) (s s' : Progress) (row : EquationRow)
        → get rows k ≡ some row
        → recover_single s row (unresolved_terms s.known row.terms) ≡ ok s'
        → recover_loop rows (k ∷ ks) s ≡ recover_loop rows ks s'
    unfolding recover_loop
    loop_step rows k ks s s' row e f = rw (e, f, recover_loop, row_at, ◌>>=◌)

    -- A pass over pivot rows returns, and keeps the known symbols right.
    pub recover_loop-IsProgress :
        (rows : Dict EquationRow) (ks : List ℕ) (s : Progress) (Off' : ℕ → Type 0)
        → ((j : ℕ) → mem universe j ≡ false → Off' j)
        → IsPivotRows w x source Off' rows
        → AllIn rows ks
        → IsProgress s
        → (s' : Progress) × (recover_loop rows ks s ≡ ok s') × IsProgress s'
    recover_loop-IsProgress rows [] s Off' out p a h = (s, unfold recover_loop in refl, h)
    recover_loop-IsProgress rows (k ∷ ks) s Off' out p ((row, e), a) h =
        let (s', f, h') =
          single-Advances k row s (unresolved_terms s.known row.terms) Off' out h (p k row e)
            refl in
        let (s'', g, h'') = recover_loop-IsProgress rows ks s' Off' out p a h' in
        (s'', loop_step rows k ks s s' row e f ∙ g, h'')
