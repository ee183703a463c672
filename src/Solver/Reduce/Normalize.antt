-- ===== src/Solver/Reduce/Normalize.antt =====
-- `normalize_row` keeps a row true of the source symbols and clears the known sources.
use screen_airdrop.Prelude.{
  ℕ, ◌<◌, ◌≡◌, ◌⊎◌, refl, sym, subst, ap, ◌∙◌, true, false, none, some, List, [], ◌∷◌, ◌++◌, ◌==◌,
  arith, inl, inr, Bool-cases, Option-cases,
}
use screen_airdrop.Prelude.Dict.{Dict, get, has, put, Distinct, get-put, put-Distinct}
use screen_airdrop.Coding.Payload.{Payload, gf256_scale_payload, xor_into}
use screen_airdrop.Coding.Payload.Symbols.{
  Symbol, xor-Symbol, xor_assoc, xor_left_comm, scale-Symbol,
}
use screen_airdrop.Coding.Payload.Sums.{weighted_sum, IsWeighted, weighted_sum-Symbol}
use screen_airdrop.Solver.Rows.{get_zero}
use screen_airdrop.Solver.Rows.Coefficients.{Bytes, IsTerms, get_zero-none, get_zero-put, put-Bytes}
use screen_airdrop.Solver.Rows.Value.{dot, dot-Symbol}
use screen_airdrop.Solver.Reduce.{Split, split_terms, drop_zeros}

-- No source of `ts` has an entry in `d` yet.
abbrev pub Fresh : Dict ℕ → List (ℕ × ℕ) → Type 0
Fresh d [] = Unit
Fresh d ((i, c) ∷ ts) = (get d i ≡ none) × Fresh d ts

put-Fresh :
    (d : Dict ℕ) (k c : ℕ) (ts : List (ℕ × ℕ)) → get ts k ≡ none → Fresh d ts → Fresh (put d k c) ts
put-Fresh d k c [] h f = tt
put-Fresh d k c ((i, v) ∷ ts) h f = ground (arith, get-put d k i c, put-Fresh d k c ts)

pub Fresh_nil : (ts : List (ℕ × ℕ)) → Fresh [] ts
Fresh_nil [] = tt
Fresh_nil ((i, c) ∷ ts) = (refl, Fresh_nil ts)

drop_zeros-none : (d : Dict ℕ) (j : ℕ) → get d j ≡ none → get (drop_zeros d) j ≡ none
unfolding drop_zeros
drop_zeros-none [] j h = refl
drop_zeros-none ((i, c) ∷ d) j h = ground (arith, drop_zeros-none d j)

pub drop_zeros-IsTerms : (d : Dict ℕ) → Distinct d → Bytes d → IsTerms (drop_zeros d)
unfolding drop_zeros
drop_zeros-IsTerms [] u b = record { distinct = tt; bytes = tt; nonzero = tt }
drop_zeros-IsTerms ((i, c) ∷ d) u b =
    let t = drop_zeros-IsTerms d u.1 b.1 in
    record {
      distinct = ground (arith, drop_zeros-none d i u.0, t);
      bytes = ground (arith, t);
      nonzero = ground (arith, t);
    }

pub get_zero-drop_zeros :
    (d : Dict ℕ) (j : ℕ) → Distinct d → get_zero (drop_zeros d) j ≡ get_zero d j
unfolding drop_zeros get_zero
get_zero-drop_zeros [] j u = refl
get_zero-drop_zeros ((i, c) ∷ d) j u =
    ground (arith, get_zero-drop_zeros d j u.1, get_zero-none d j)

pub has-get : (d : Dict Payload) (k : ℕ) (p : Payload) → get d k ≡ some p → has d k ≡ true
has-get [] k p h = cc
has-get ((j, q) ∷ d) k p h = ground (arith, has-get d k p)

pub has-get-none : (d : Dict Payload) (k : ℕ) → get d k ≡ none → has d k ≡ false
has-get-none [] k h = refl
has-get-none ((j, q) ∷ d) k h = ground (arith, has-get-none d k)

split_unknown :
    (known : Dict Payload) (s : Split) (i c : ℕ) (ts : List (ℕ × ℕ))
    → get known i ≡ none
    → split_terms known s ((i, c) ∷ ts)
      ≡ split_terms known (record s { unresolved = put s.unresolved i c }) ts
unfolding split_terms
split_unknown known s i c ts e = rw e

split_known :
    (known : Dict Payload) (s : Split) (i c : ℕ) (ts : List (ℕ × ℕ)) (p : Payload)
    → get known i ≡ some p
    → split_terms known s ((i, c) ∷ ts)
      ≡ split_terms known (record s { known_terms = s.known_terms ++ (c, p) ∷ [] }) ts
unfolding split_terms
split_known known s i c ts p e = rw e

-- A source without a coefficient gets none, and a known source gets none.
pub split_zero :
    (known : Dict Payload) (s : Split) (ts : List (ℕ × ℕ)) (j : ℕ)
    → get_zero s.unresolved j ≡ 0
    → (get_zero ts j ≡ 0) ⊎ (has known j ≡ true)
    → Distinct ts
    → get_zero (split_terms known s ts).unresolved j ≡ 0
unfolding get_zero
split_zero known s [] j z h u = unfold split_terms in z
split_zero known s ((i, c) ∷ ts) j z h u = elim (Option-cases (get known i)) [
  | inl unknown ↦
      subst (λ r. get_zero r.unresolved j ≡ 0) (sym (split_unknown known s i c ts unknown))
        (split_zero known (record s { unresolved = put s.unresolved i c }) ts j
          (ground (arith, get_zero-put s.unresolved i j c, has-get-none known i unknown))
          (ground (arith, get_zero-none ts j)) u.1)
  | inr (p, e) ↦
      subst (λ r. get_zero r.unresolved j ≡ 0) (sym (split_known known s i c ts p e))
        (split_zero known (record s { known_terms = s.known_terms ++ (c, p) ∷ [] }) ts j z
          (ground (arith, get_zero-none ts j, has-get known i p e)) u.1)
]

module _ (w : ℕ) (x : ℕ → Payload) (source : (i : ℕ) → Symbol w (x i)) where
  -- Every known payload is the source symbol.
  abbrev pub Agrees : Dict Payload → Type 0
  Agrees known = (i : ℕ) (p : Payload) → get known i ≡ some p → p ≡ x i

  append-IsWeighted :
      (ts : List (ℕ × Payload)) (c : ℕ) (p : Payload)
      → IsWeighted w ts
      → c < 256
      → Symbol w p
      → IsWeighted w (ts ++ (c, p) ∷ [])
  append-IsWeighted [] c p h b s = (b, s, tt)
  append-IsWeighted ((d, q) ∷ ts) c p h b s = (h.0, h.1, append-IsWeighted ts c p h.2 b s)

  weighted_sum-append :
      (ts : List (ℕ × Payload)) (c : ℕ) (p : Payload)
      → IsWeighted w ts
      → c < 256
      → Symbol w p
      → weighted_sum w (ts ++ (c, p) ∷ []) ≡ xor_into (gf256_scale_payload p c) (weighted_sum w ts)
  unfolding weighted_sum
  weighted_sum-append [] c p h b s = refl
  weighted_sum-append ((d, q) ∷ ts) c p h b s =
      ap (xor_into (gf256_scale_payload q d)) (weighted_sum-append ts c p h.2 b s)
      ∙ xor_left_comm w (gf256_scale_payload q d) (gf256_scale_payload p c) (weighted_sum w ts)
          (scale-Symbol w q d h.1 h.0) (scale-Symbol w p c s b) (weighted_sum-Symbol w ts h.2)

  dot-put_fresh :
      (d : Dict ℕ) (k c : ℕ)
      → get d k ≡ none
      → Bytes d
      → c < 256
      → dot w x (put d k c) ≡ xor_into (gf256_scale_payload (x k) c) (dot w x d)
  unfolding dot
  dot-put_fresh [] k c h b l = refl
  dot-put_fresh ((i, v) ∷ d) k c h b l = elim (Bool-cases (i == k)) [
    | inl same ↦ absurd (ground arith)
    | inr other ↦ rw other (
        ap (xor_into (gf256_scale_payload (x i) v)) (dot-put_fresh d k c (ground arith) b.1 l)
        ∙ xor_left_comm w (gf256_scale_payload (x i) v) (gf256_scale_payload (x k) c) (dot w x d)
            (scale-Symbol w (x i) v (source i) b.0) (scale-Symbol w (x k) c (source k) l)
            (dot-Symbol w x source d b.1))
  ]

  -- What holds at each round of the loop over the terms: the parts and the rest make the total.
  pub record IsSplit (s : Split) (ts : List (ℕ × ℕ)) (total : Payload) : Type 0 where
    pub distinct : Distinct s.unresolved
    pub bytes : Bytes s.unresolved
    pub weighted : IsWeighted w s.known_terms
    pub rest_distinct : Distinct ts
    pub rest_bytes : Bytes ts
    pub fresh : Fresh s.unresolved ts
    pub sum :
        xor_into (dot w x s.unresolved) (xor_into (weighted_sum w s.known_terms) (dot w x ts))
        ≡ total

  step_unknown :
      (s : Split) (i c : ℕ) (ts : List (ℕ × ℕ)) (total : Payload)
      → IsSplit s ((i, c) ∷ ts) total
      → IsSplit (record s { unresolved = put s.unresolved i c }) ts total
  unfolding dot
  step_unknown s i c ts total h =
      let a = dot w x s.unresolved in
      let a_symbol = dot-Symbol w x source s.unresolved h.bytes in
      let k = weighted_sum w s.known_terms in
      let k_symbol = weighted_sum-Symbol w s.known_terms h.weighted in
      let r = dot w x ts in
      let r_symbol = dot-Symbol w x source ts h.rest_bytes.1 in
      let t = gf256_scale_payload (x i) c in
      let t_symbol = scale-Symbol w (x i) c (source i) h.rest_bytes.0 in
      record {
        distinct = put-Distinct s.unresolved i c h.distinct;
        bytes = put-Bytes s.unresolved i c h.rest_bytes.0 h.bytes;
        weighted = h.weighted;
        rest_distinct = h.rest_distinct.1;
        rest_bytes = h.rest_bytes.1;
        fresh = put-Fresh s.unresolved i c ts h.rest_distinct.0 h.fresh.1;
        sum = cc (
          h.sum,
          dot-put_fresh s.unresolved i c h.fresh.0 h.bytes h.rest_bytes.0,
          xor_left_comm w k t r k_symbol t_symbol r_symbol,
          xor_left_comm w a t (xor_into k r) a_symbol t_symbol (xor-Symbol w k r k_symbol r_symbol),
          xor_assoc w t a (xor_into k r) t_symbol a_symbol (xor-Symbol w k r k_symbol r_symbol),
        );
      }

  step_known :
      (s : Split) (i c : ℕ) (ts : List (ℕ × ℕ)) (total : Payload)
      → IsSplit s ((i, c) ∷ ts) total
      → IsSplit (record s { known_terms = s.known_terms ++ (c, x i) ∷ [] }) ts total
  unfolding dot
  step_known s i c ts total h =
      let k = weighted_sum w s.known_terms in
      let k_symbol = weighted_sum-Symbol w s.known_terms h.weighted in
      let r = dot w x ts in
      let r_symbol = dot-Symbol w x source ts h.rest_bytes.1 in
      let t = gf256_scale_payload (x i) c in
      let t_symbol = scale-Symbol w (x i) c (source i) h.rest_bytes.0 in
      record {
        distinct = h.distinct;
        bytes = h.bytes;
        weighted = append-IsWeighted s.known_terms c (x i) h.weighted h.rest_bytes.0 (source i);
        rest_distinct = h.rest_distinct.1;
        rest_bytes = h.rest_bytes.1;
        fresh = h.fresh.1;
        sum = cc (
          h.sum,
          weighted_sum-append s.known_terms c (x i) h.weighted h.rest_bytes.0 (source i),
          xor_left_comm w k t r k_symbol t_symbol r_symbol,
          xor_assoc w t k r t_symbol k_symbol r_symbol,
        );
      }

  pub split-IsSplit :
      (known : Dict Payload) (s : Split) (ts : List (ℕ × ℕ)) (total : Payload)
      → Agrees known
      → IsSplit s ts total
      → IsSplit (split_terms known s ts) [] total
  split-IsSplit known s [] total a h = unfold split_terms in h
  split-IsSplit known s ((i, c) ∷ ts) total a h = elim (Option-cases (get known i)) [
    | inl e ↦
        subst (λ r. IsSplit r [] total) (sym (split_unknown known s i c ts e))
          (split-IsSplit known (record s { unresolved = put s.unresolved i c }) ts total a
            (step_unknown s i c ts total h))
    | inr (p, e) ↦
        subst (λ r. IsSplit r [] total)
          (sym (split_known known s i c ts (x i) (e ∙ ap some (a i p e))))
          (split-IsSplit known (record s { known_terms = s.known_terms ++ (c, x i) ∷ [] }) ts total
            a (step_known s i c ts total h))
  ]
