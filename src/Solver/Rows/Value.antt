-- ===== src/Solver/Rows/Value.antt =====
-- The value of a dictionary of terms at given source symbols, through every operation on rows.
use screen_airdrop.Prelude.{
  ℕ, ◌<◌, ◌≡◌, refl, sym, ap, ap₂, ◌∙◌, List, [], ◌∷◌, ◌==◌, bit_xor, arith, inl, inr, Bool-cases,
}
use screen_airdrop.Prelude.Dict.{Dict, remove, Distinct, remove-Distinct}
use screen_airdrop.Coding.Gf256.{gf256_mul}
use screen_airdrop.Coding.Gf256.Field.{mul-lt}
use screen_airdrop.Coding.Payload.{Payload, gf256_scale_payload, xor_into}
use screen_airdrop.Coding.Payload.Symbols.{
  Symbol, zeros, zeros-Symbol, xor-Symbol, xor_comm, xor_assoc, zeros-xor, xor-zeros, xor_left_comm,
  scale-Symbol, scale_zero, scale-bit_xor, scale-scale, scale-xor, zeros-scale,
}
use screen_airdrop.Solver.Rows.{get_zero, xor_entry, terms_to_map, map_to_terms, subtract_rows}
use screen_airdrop.Solver.Rows.Coefficients.{
  Bytes, IsTerms, get_zero-lt, get_zero-none, get_zero-remove, remove-Bytes, get_zero-xor_entry,
  xor_entry-IsTerms, get_zero-terms_to_map, terms_to_map-IsTerms, get_zero-map_to_terms,
  map_to_terms-IsTerms,
}

module _ (w : ℕ) (x : ℕ → Payload) where
  -- The sum of the source symbols `x i`, each times its coefficient.
  unfoldable pub dot : List (ℕ × ℕ) → Payload
  dot [] = zeros w
  dot ((i, c) ∷ ts) = xor_into (gf256_scale_payload (x i) c) (dot ts)

module _ (w : ℕ) (x : ℕ → Payload) (source : (i : ℕ) → Symbol w (x i)) where
  pub dot-Symbol : (ts : List (ℕ × ℕ)) → Bytes ts → Symbol w (dot w x ts)
  unfolding dot
  dot-Symbol [] b = zeros-Symbol w
  dot-Symbol ((i, c) ∷ ts) b =
      xor-Symbol w (gf256_scale_payload (x i) c) (dot w x ts)
        (scale-Symbol w (x i) c (source i) b.0) (dot-Symbol ts b.1)

  term-Symbol : (d : Dict ℕ) (i : ℕ) → Bytes d → Symbol w (gf256_scale_payload (x i) (get_zero d i))
  term-Symbol d i b = scale-Symbol w (x i) (get_zero d i) (source i) (get_zero-lt d i b)

  term_zero : (i : ℕ) (p : Payload) → Symbol w p → xor_into (gf256_scale_payload (x i) 0) p ≡ p
  term_zero i p s = ap (λ t. xor_into t p) (scale_zero w (x i) (source i)) ∙ zeros-xor w p s

  -- One source's term taken out of the sum.
  pub dot-remove :
      (d : Dict ℕ) (k : ℕ)
      → Bytes d
      → dot w x d ≡ xor_into (gf256_scale_payload (x k) (get_zero d k)) (dot w x (remove d k))
  unfolding dot get_zero
  dot-remove [] k b = sym (term_zero k (zeros w) (zeros-Symbol w))
  dot-remove ((i, v) ∷ d) k b = elim (Bool-cases (i == k)) [
    | inl same ↦
        let e : i ≡ k = ground arith in
        rw same (ap (λ t. xor_into (gf256_scale_payload (x t) v) (dot w x d)) e)
    | inr other ↦ rw other (
        ap (xor_into (gf256_scale_payload (x i) v)) (dot-remove d k b.1)
        ∙ xor_left_comm w (gf256_scale_payload (x i) v) (gf256_scale_payload (x k) (get_zero d k))
            (dot w x (remove d k)) (scale-Symbol w (x i) v (source i) b.0) (term-Symbol d k b.1)
            (dot-Symbol (remove d k) (remove-Bytes d k b.1)))
  ]

  dot_absent :
      (d : Dict ℕ) → Distinct d → Bytes d → ((j : ℕ) → get_zero d j ≡ 0) → dot w x d ≡ zeros w
  unfolding dot get_zero
  dot_absent [] u b h = refl
  dot_absent ((i, v) ∷ d) u b h =
      let v_zero : v ≡ 0 = ground (arith, h i) in
      rw v_zero (
        term_zero i (dot w x d) (dot-Symbol d b.1)
        ∙ dot_absent d u.1 b.1 (λ j. ground (arith, h j, get_zero-none d j)))

  -- The value depends on the coefficients alone.
  pub dot_ext :
      (d e : Dict ℕ)
      → Distinct d
      → Bytes d
      → Distinct e
      → Bytes e
      → ((j : ℕ) → get_zero d j ≡ get_zero e j)
      → dot w x d ≡ dot w x e
  unfolding get_zero dot
  dot_ext [] e u b v c h = sym (dot_absent e v c (λ j. sym (h j)))
  dot_ext ((i, k) ∷ d) e u b v c h =
      let k_eq : k ≡ get_zero e i = ground (arith, h i) in
      let rest : (j : ℕ) → get_zero d j ≡ get_zero (remove e i) j =
        λ j. ground (arith, h j, get_zero-remove e i j v, get_zero-none d j) in
      let tail = dot_ext d (remove e i) u.1 b.1 (remove-Distinct e i v) (remove-Bytes e i c) rest in
      ap₂ (λ t q. xor_into (gf256_scale_payload (x i) t) q) k_eq tail ∙ sym (dot-remove e i c)

  dot-xor_entry :
      (d : Dict ℕ) (k c : ℕ)
      → c < 256
      → IsTerms d
      → dot w x (xor_entry d k c) ≡ xor_into (gf256_scale_payload (x k) c) (dot w x d)
  dot-xor_entry d k c h t =
      let e = xor_entry d k c in
      let te = xor_entry-IsTerms d k c h t in
      let v = get_zero d k in
      let rest : (j : ℕ) → get_zero (remove e k) j ≡ get_zero (remove d k) j = λ j. ground (
        arith,
        get_zero-remove e k j te.distinct,
        get_zero-remove d k j t.distinct,
        get_zero-xor_entry d k j c t.distinct,
      ) in
      let at_k : get_zero e k ≡ bit_xor v c =
        ground (arith, get_zero-xor_entry d k k c t.distinct) in
      let r = dot w x (remove d k) in
      let r_symbol = dot-Symbol (remove d k) (remove-Bytes d k t.bytes) in
      let sv = gf256_scale_payload (x k) v in
      let sc = gf256_scale_payload (x k) c in
      let sc_symbol = scale-Symbol w (x k) c (source k) h in
      cc (
        dot-remove e k te.bytes,
        dot-remove d k t.bytes,
        ap (gf256_scale_payload (x k)) at_k,
        scale-bit_xor w (x k) v c (source k) (get_zero-lt d k t.bytes) h,
        xor_comm w sv sc (term-Symbol d k t.bytes) sc_symbol,
        xor_assoc w sc sv r sc_symbol (term-Symbol d k t.bytes) r_symbol,
        dot_ext (remove e k) (remove d k) (remove-Distinct e k te.distinct)
            (remove-Bytes e k te.bytes) (remove-Distinct d k t.distinct) (remove-Bytes d k t.bytes)
            rest,
      )

  pub dot-terms_to_map :
      (ts : List (ℕ × ℕ)) → Distinct ts → Bytes ts → dot w x (terms_to_map ts) ≡ dot w x ts
  dot-terms_to_map ts u b =
      let t = terms_to_map-IsTerms ts b in
      dot_ext (terms_to_map ts) ts t.distinct t.bytes u b (λ j. get_zero-terms_to_map ts j u b)

  pub dot-map_to_terms : (d : Dict ℕ) → Distinct d → Bytes d → dot w x (map_to_terms d) ≡ dot w x d
  dot-map_to_terms d u b =
      let t = map_to_terms-IsTerms d u b in
      dot_ext (map_to_terms d) d t.distinct t.bytes u b (get_zero-map_to_terms d)

  -- For a dictionary of terms with each key once and coefficients from 1 to 255, and a second one
  -- with coefficients below 256, _subtract_rows of the multiple of the second by a factor below
  -- 256 gives terms whose value at any source symbols of w bytes is the sum of the first value and
  -- of the second one times the factor.
  pub dot-subtract_rows :
      (d e : Dict ℕ) (f : ℕ)
      → f < 256
      → Bytes e
      → IsTerms d
      → dot w x (subtract_rows d e f) ≡ xor_into (dot w x d) (gf256_scale_payload (dot w x e) f)
  unfolding subtract_rows dot
  dot-subtract_rows d [] f h b t =
      rw (zeros-scale w f h) (sym (xor-zeros w (dot w x d) (dot-Symbol d t.bytes)))
  dot-subtract_rows d ((k, c) ∷ e) f h b t =
      let c' = gf256_mul c f in
      let c'_lt = mul-lt c f b.0 h in
      let s = gf256_scale_payload (x k) c in
      let s_symbol = scale-Symbol w (x k) c (source k) b.0 in
      let s' = gf256_scale_payload s f in
      let s'_symbol = scale-Symbol w s f s_symbol h in
      let q = gf256_scale_payload (dot w x e) f in
      let q_symbol = scale-Symbol w (dot w x e) f (dot-Symbol e b.1) h in
      let p_symbol = dot-Symbol d t.bytes in
      cc (
        dot-subtract_rows (xor_entry d k c') e f h b.1 (xor_entry-IsTerms d k c' c'_lt t),
        dot-xor_entry d k c' c'_lt t,
        scale-scale w (x k) c f (source k) b.0 h,
        scale-xor w s (dot w x e) f s_symbol (dot-Symbol e b.1) h,
        xor_comm w s' (dot w x d) s'_symbol p_symbol,
        xor_assoc w (dot w x d) s' q p_symbol s'_symbol q_symbol,
      )
