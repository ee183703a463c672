-- ===== src/Coding/Payload/Sums.antt =====
-- Linear combinations as sums over GF(256): what `gf256_linear_combine` computes, and the value of
-- an equation's terms at given source symbols.
use screen_airdrop.Prelude.{
  ℕ, ◌<◌, ◌≡◌, refl, sym, subst, ap, ◌∙◌, true, List, [], ◌∷◌, if◌then◌else◌, arith,
}
use screen_airdrop.Prelude.Result.{ok, err, value_error}
use screen_airdrop.Coding.Payload.{
  Payload, gf256_scale_payload, xor_into, same_width, combine_loop, gf256_linear_combine,
}
use screen_airdrop.Coding.Payload.Symbols.{
  Symbol, zeros, length-Symbol, zeros-Symbol, xor-Symbol, xor_assoc, zeros-xor, xor-zeros,
  scale-Symbol,
}

-- The sum of the payloads, each times its coefficient.
unfoldable pub weighted_sum : ℕ → List (ℕ × Payload) → Payload
weighted_sum w [] = zeros w
weighted_sum w ((c, p) ∷ ts) = xor_into (gf256_scale_payload p c) (weighted_sum w ts)

abbrev pub IsWeighted : ℕ → List (ℕ × Payload) → Type 0
IsWeighted w [] = Unit
IsWeighted w ((c, p) ∷ ts) = (c < 256) × Symbol w p × IsWeighted w ts

pub weighted_sum-Symbol :
    (w : ℕ) (ts : List (ℕ × Payload)) → IsWeighted w ts → Symbol w (weighted_sum w ts)
unfolding weighted_sum
weighted_sum-Symbol w [] h = zeros-Symbol w
weighted_sum-Symbol w ((c, p) ∷ ts) (hc, hp, hts) =
    xor-Symbol w (gf256_scale_payload p c) (weighted_sum w ts) (scale-Symbol w p c hp hc)
      (weighted_sum-Symbol w ts hts)

same_width-IsWeighted : (w : ℕ) (ts : List (ℕ × Payload)) → IsWeighted w ts → same_width w ts ≡ true
unfolding same_width
same_width-IsWeighted w [] h = refl
same_width-IsWeighted w ((c, p) ∷ ts) (hc, hp, hts) =
    ground (arith, length-Symbol w p hp, same_width-IsWeighted w ts hts)

combine_loop-weighted_sum :
    (w : ℕ) (r : Payload) (ts : List (ℕ × Payload))
    → Symbol w r
    → IsWeighted w ts
    → combine_loop r ts ≡ xor_into r (weighted_sum w ts)
unfolding combine_loop weighted_sum
combine_loop-weighted_sum w r [] hr h = sym (xor-zeros w r hr)
combine_loop-weighted_sum w r ((c, p) ∷ ts) hr (hc, hp, hts) =
    let s = gf256_scale_payload p c in
    combine_loop-weighted_sum w (xor_into r s) ts (xor-Symbol w r s hr (scale-Symbol w p c hp hc))
      hts
    ∙ xor_assoc w r s (weighted_sum w ts) hr (scale-Symbol w p c hp hc)
        (weighted_sum-Symbol w ts hts)

combine-eq-ok :
    (w : ℕ) (ts : List (ℕ × Payload))
    → IsWeighted w ts
    → (if same_width w ts then ok (combine_loop (zeros w) ts) else err value_error)
      ≡ ok (weighted_sum w ts)
combine-eq-ok w ts h = rw (same_width-IsWeighted w ts h) (
    ap ok (
      combine_loop-weighted_sum w (zeros w) ts (zeros-Symbol w) h
      ∙ zeros-xor w (weighted_sum w ts) (weighted_sum-Symbol w ts h)))

-- For at least one term, coefficients below 256 and payloads of w bytes, gf256_linear_combine
-- returns the sum of the payloads, each times its coefficient.
pub linear_combine-weighted_sum :
    (w c : ℕ) (p : Payload) (ts : List (ℕ × Payload))
    → IsWeighted w ((c, p) ∷ ts)
    → gf256_linear_combine ((c, p) ∷ ts) ≡ ok (weighted_sum w ((c, p) ∷ ts))
unfolding gf256_linear_combine
linear_combine-weighted_sum w c p ts h =
    subst
      (λ n.
        (if same_width n ((c, p) ∷ ts)
          then ok (combine_loop (zeros n) ((c, p) ∷ ts))
          else err value_error)
        ≡ ok (weighted_sum w ((c, p) ∷ ts)))
      (sym (length-Symbol w p h.1)) (combine-eq-ok w ((c, p) ∷ ts) h)
