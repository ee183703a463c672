-- ===== src/Sender/Builder/Truthful.antt =====
-- What the sender builds is true of its source symbols.
use screen_airdrop.Prelude.{
  ℕ, suc, ◌+◌, ◌≤◌, ◌<◌, ◌≡◌, refl, sym, ap, ◌∙◌, true, false, some, List, [], ◌∷◌, ◌==◌, ltb,
  arith, inl, inr, Bool-cases, length,
}
use screen_airdrop.Prelude.Dict.{Dict, get, put, get-put}
use screen_airdrop.Prelude.Result.{ok}
use screen_airdrop.Coding.Payload.{Payload, gf256_scale_payload, xor_into, gf256_linear_combine}
use screen_airdrop.Coding.Payload.Symbols.{Symbol, length-Symbol}
use screen_airdrop.Coding.Payload.Sums.{
  weighted_sum, IsWeighted, weighted_sum-Symbol, linear_combine-weighted_sum,
}
use screen_airdrop.Coding.Equation.{CodingScheme, Random, expand_equation_terms}
use screen_airdrop.Coding.Equation.Terms.{IsProper, expand_equation_terms_lem}
use screen_airdrop.Units.{SystematicUnit, CodedUnit, make_coded_unit}
use screen_airdrop.Solver.Rows.Value.{dot}
use screen_airdrop.Solver.State.Sound.{IsTruthful}
use screen_airdrop.Sender.Builder.{
  payload_sizes, by_index, select_payloads, build_coded_payload, build_coded_unit,
}

module _ (w : ℕ) (x : ℕ → Payload) (source : (i : ℕ) → Symbol w (x i)) where
  -- The units carry the source symbols `x` under the indices from `start` on, in order.
  abbrev pub Run : ℕ → List SystematicUnit → Type 0
  Run start [] = Unit
  Run start (u ∷ us) = (u.source_index ≡ start) × (u.payload ≡ x start) × Run (start + 1) us

  payload_sizes-eq :
      (start : ℕ) (u : SystematicUnit) (us : List SystematicUnit)
      → Run start (u ∷ us)
      → payload_sizes (u ∷ us) ≡ w ∷ []
  unfolding payload_sizes
  payload_sizes-eq start u [] h =
      ap (λ n. n ∷ []) (ap length h.1 ∙ length-Symbol w (x start) (source start))
  payload_sizes-eq start u (v ∷ us) h =
      let e = payload_sizes-eq (start + 1) v us h.2 in
      let n : length u.payload ≡ w = ap length h.1 ∙ length-Symbol w (x start) (source start) in
      rw (e, n) (ground arith)

  -- What the dictionary of the units has under the index `i`.
  Holds : Dict SystematicUnit → ℕ → Type 0
  Holds d i = (u : SystematicUnit) × (get d i ≡ some u) × (u.payload ≡ x i)

  by_index_old :
      (start : ℕ) (us : List SystematicUnit) (d : Dict SystematicUnit) (i : ℕ)
      → Run start us
      → i < start
      → get (by_index us d) i ≡ get d i
  unfolding by_index
  by_index_old start [] d i h l = refl
  by_index_old start (u ∷ us) d i h l =
      by_index_old (start + 1) us (put d u.source_index u) i h.2 (omega (arith, l))
      ∙ ground (arith, get-put d u.source_index i u, h.0)

  by_index-Holds :
      (start : ℕ) (us : List SystematicUnit) (d : Dict SystematicUnit) (i : ℕ)
      → Run start us
      → start ≤ i
      → i < start + length us
      → Holds (by_index us d) i
  unfolding by_index Holds
  by_index-Holds start [] d i h l b = absurd (omega arith)
  by_index-Holds start (u ∷ us) d i h l b = elim (Bool-cases (start == i)) [
    | inl same ↦
        let e : start ≡ i = ground arith in
        (
          u,
          by_index_old (start + 1) us (put d u.source_index u) i h.2 (omega arith)
              ∙ ground (arith, get-put d u.source_index i u, h.0),
          h.1 ∙ ap x e,
        )
    | inr other ↦
        by_index-Holds (start + 1) us (put d u.source_index u) i h.2 (ground arith) (omega arith)
  ]

  select_step :
      (d : Dict SystematicUnit) (i c : ℕ) (ts : List (ℕ × ℕ)) (u : SystematicUnit)
      → get d i ≡ some u
      → select_payloads d ((i, c) ∷ ts) ≡ (c, u.payload) ∷ select_payloads d ts
  unfolding select_payloads
  select_step d i c ts u e = rw (e, select_payloads)

  -- The payloads that the terms select, and what they add up to.
  abbrev IsSelected : List (ℕ × ℕ) → List (ℕ × Payload) → Type 0
  IsSelected ts ps = (length ps ≡ length ts) × IsWeighted w ps × (weighted_sum w ps ≡ dot w x ts)

  select-IsSelected :
      (d : Dict SystematicUnit) (size : ℕ) (ts : List (ℕ × ℕ))
      → ((i : ℕ) → 1 ≤ i → i ≤ size → Holds d i)
      → IsProper size ts
      → IsSelected ts (select_payloads d ts)
  unfolding Holds weighted_sum dot
  select-IsSelected d size [] h p = unfold select_payloads in (refl, tt, refl)
  select-IsSelected d size ((i, c) ∷ ts) h p =
      let (u, e, q) = h i p.0 p.1 in
      let (n, weighted, total) = select-IsSelected d size ts h p.4 in
      rw (select_step d i c ts u e) (
        ap suc n,
        (p.3, rw q (source i), weighted),
        ap (λ t. xor_into (gf256_scale_payload t c) (weighted_sum w (select_payloads d ts))) q
            ∙ ap (xor_into (gf256_scale_payload (x i) c)) total,
      )

  combine-selected :
      (n : ℕ) (ps : List (ℕ × Payload))
      → 0 < n
      → length ps ≡ n
      → IsWeighted w ps
      → gf256_linear_combine ps ≡ ok (weighted_sum w ps)
  combine-selected n [] l e h = absurd (omega arith)
  combine-selected n ((c, p) ∷ ps) l e h = linear_combine-weighted_sum w c p ps h

  module _ (random : Random) where
    payload_eq :
        (units : List SystematicUnit) (size seed degree : ℕ) (scheme : CodingScheme)
        (ts : List (ℕ × ℕ)) (p : Payload)
        → expand_equation_terms random size seed degree scheme ≡ ok ts
        → length (select_payloads (by_index units []) ts) ≡ length ts
        → gf256_linear_combine (select_payloads (by_index units []) ts) ≡ ok p
        → build_coded_payload random units size seed degree scheme ≡ ok p
    unfolding build_coded_payload
    payload_eq units size seed degree scheme ts p e n c =
        let same : (length (select_payloads (by_index units []) ts) == length ts) ≡ true =
          ground (arith, n) in
        rw (e, same) c

    coded_payload_lem :
        (units : List SystematicUnit) (seed degree : ℕ) (scheme : CodingScheme)
        → Run 1 units
        → 0 < degree
        → degree ≤ length units
        → (p : Payload) × (build_coded_payload random units (length units) seed degree scheme
            ≡ ok p)
          × Symbol w p
          × ((ts : List (ℕ × ℕ))
              → expand_equation_terms random (length units) seed degree scheme ≡ ok ts
              → dot w x ts ≡ p)
    coded_payload_lem units seed degree scheme run pos le =
        let size = length units in
        let (ts, e, q) = expand_equation_terms_lem random size seed degree scheme pos le in
        let d = by_index units [] in
        let (n, weighted, total) =
          select-IsSelected d size ts
            (λ i a b. by_index-Holds 1 units [] i run a (omega (arith, b))) q.proper in
        let ps = select_payloads d ts in
        (
          weighted_sum w ps,
          payload_eq units size seed degree scheme ts (weighted_sum w ps) e n
              (combine-selected degree ps pos (n ∙ q.count) weighted),
          weighted_sum-Symbol w ps weighted,
          λ us f. let same : us ≡ ts = cc (e, f) in ap (dot w x) same ∙ sym total,
        )

    unit_eq :
        (session generation : ℕ) (units : List SystematicUnit) (equation seed degree : ℕ)
        (scheme : CodingScheme) (p : Payload)
        → 0 < length units
        → payload_sizes units ≡ w ∷ []
        → 0 < degree
        → degree ≤ length units
        → build_coded_payload random units (length units) seed degree scheme ≡ ok p
        → build_coded_unit random session generation
            (length units)
            units
            equation
            seed
            degree
            scheme
          ≡ ok (record {
            session_id = session;
            generation_id = generation;
            generation_size = length units;
            payload_size = length p;
            payload = p;
            equation_id = equation;
            coding_seed = seed;
            degree = degree;
            coding_scheme = scheme;
          })
    unfolding build_coded_unit make_coded_unit
    unit_eq session generation units equation seed degree scheme p n sizes pos le e =
        let a : ltb 0 (length units) ≡ true = ground arith in
        let b : (length units == length units) ≡ true = ground arith in
        let c : ltb 0 degree ≡ true = ground arith in
        let f : ltb (length units) degree ≡ false = ground arith in
        let g : (length p == length p) ≡ true = ground arith in
        let h : (degree == 0) ≡ false = ground arith in rw (a, b, sizes, c, f, e, g, h) refl

    -- From the systematic units of a generation, which carry the source symbols of w bytes in
    -- order from index 1 on, and a degree from 1 to their number, build_coded_unit returns a unit
    -- with the given equation id, seed and degree, whose payload has w bytes and is the
    -- combination of the source symbols that the seed expands to.
    pub build_coded_unit-IsTruthful :
        (session generation : ℕ) (units : List SystematicUnit) (equation seed degree : ℕ)
        (scheme : CodingScheme)
        → Run 1 units
        → 0 < degree
        → degree ≤ length units
        → (u : CodedUnit) × (build_coded_unit random session generation
              (length units)
              units
              equation
              seed
              degree
              scheme
            ≡ ok u)
          × IsTruthful w x source random u
          × (u.equation_id ≡ equation)
          × (u.coding_seed ≡ seed)
          × (u.degree ≡ degree)
    build_coded_unit-IsTruthful session generation [] equation seed degree scheme run pos le =
        absurd (omega arith)
    build_coded_unit-IsTruthful session generation (v ∷ units) equation seed degree scheme run pos
          le =
        let us = v ∷ units in
        let (p, e, symbol, combination) = coded_payload_lem us seed degree scheme run pos le in
        let u : CodedUnit = record {
          session_id = session;
          generation_id = generation;
          generation_size = length us;
          payload_size = length p;
          payload = p;
          equation_id = equation;
          coding_seed = seed;
          degree = degree;
          coding_scheme = scheme;
        } in
        (
          u,
          unit_eq session generation us equation seed degree scheme p (omega arith)
              (payload_sizes-eq 1 v units run) pos le e,
          record { symbol = symbol; positive = pos; bounded = le; combination = combination },
          refl,
          refl,
          refl,
        )
