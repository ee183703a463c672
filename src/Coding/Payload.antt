-- ===== src/Coding/Payload.antt =====
-- coding.py: payloads scaled and combined. A payload is the list of its bytes.
pub mod Symbols
pub mod Sums
use screen_airdrop.Prelude.{
  ℕ, zero, suc, ◌+◌, ◌≤◌, ◌<◌, ◌≡◌, refl, Bool, true, false, not, List, [], ◌∷◌, map, bit_and,
  bit_xor, max, ◌==◌, ◌&&◌, ◌||◌, ltb, leb, if◌then◌else◌, length, replicate, get_or,
}
use screen_airdrop.Prelude.Result.{Result, ok, err, value_error, require, ◌>>=◌, ◌>>◌}
use screen_airdrop.Coding.Gf256.{gf256_mul}

abbrev pub Payload : Type 0
Payload = List ℕ

unfoldable pub gf256_scale_payload : Payload → ℕ → Payload
gf256_scale_payload payload coefficient =
    let factor = bit_and coefficient 0xff in
    if factor == 0
    then replicate (length payload) 0
    else if factor == 1
    then payload
    else map (λ byte. gf256_mul byte factor) payload

-- `for index, value in enumerate(scaled): result[index] ^= value`. The callers have checked that
-- `scaled` is not longer than `result`, so no index is out of range.
unfoldable pub xor_into : Payload → Payload → Payload
xor_into result [] = result
xor_into [] (value ∷ scaled) = []
xor_into (byte ∷ result) (value ∷ scaled) = bit_xor byte value ∷ xor_into result scaled

-- `any(len(payload) != width for _, payload in term_list)`, negated
unfoldable pub same_width : ℕ → List (ℕ × Payload) → Bool
same_width width [] = true
same_width width ((coefficient, payload) ∷ terms) =
    length payload == width && same_width width terms

unfoldable pub combine_loop : Payload → List (ℕ × Payload) → Payload
combine_loop result [] = result
combine_loop result ((coefficient, payload) ∷ terms) =
    combine_loop (xor_into result (gf256_scale_payload payload coefficient)) terms

unfoldable pub gf256_linear_combine : List (ℕ × Payload) → Result Payload
unfolding same_width combine_loop
gf256_linear_combine [] = ok []
gf256_linear_combine ((coefficient, payload) ∷ terms) =
    let term_list = (coefficient, payload) ∷ terms in
    let width = length payload in
    if same_width width term_list
    then ok (combine_loop (replicate width 0) term_list)
    else err value_error

-- `max(len(payload) for payload in payload_list)`
max_width : List Payload → ℕ
max_width [] = 0
max_width (payload ∷ payloads) = max (length payload) (max_width payloads)

-- `for idx in range(width): result[idx] ^= payload[idx] if idx < len(payload) else 0`
xor_padded : Payload → Payload → Payload
xor_padded [] payload = []
xor_padded (byte ∷ result) [] = bit_xor byte 0 ∷ xor_padded result []
xor_padded (byte ∷ result) (value ∷ payload) = bit_xor byte value ∷ xor_padded result payload

xor_loop : Payload → List Payload → Payload
xor_loop result [] = result
xor_loop result (payload ∷ payloads) = xor_loop (xor_padded result payload) payloads

unfoldable pub xor_payloads : List Payload → Payload
unfolding max_width xor_padded xor_loop
xor_payloads [] = []
xor_payloads (payload ∷ payloads) =
    let payload_list = payload ∷ payloads in
    xor_loop (replicate (max_width payload_list) 0) payload_list
