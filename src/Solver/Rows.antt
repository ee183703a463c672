-- ===== src/Solver/Rows.antt =====
-- solver_state.py: a row, and its terms as a dictionary.
pub mod Coefficients
pub mod Value
use screen_airdrop.Prelude.{
  ℕ, zero, suc, ◌+◌, ◌≤◌, ◌<◌, ◌≡◌, refl, Bool, true, false, not, Option, none, some, List, [], ◌∷◌,
  ◌==◌, ◌&&◌, if◌then◌else◌, bit_xor,
}
use screen_airdrop.Prelude.Dict.{Dict, get, has, put, remove, keys, sorted}
use screen_airdrop.Coding.Gf256.{gf256_mul}
use screen_airdrop.Coding.Payload.{Payload}

-- Gf256EquationRow
pub record EquationRow : Type 0 where
  pub terms : List (ℕ × ℕ)
  pub rhs_payload : Payload

-- `values.get(index, 0)`
unfoldable pub get_zero : Dict ℕ → ℕ → ℕ
get_zero [] k = 0
get_zero ((j, v) ∷ d) k = if j == k then v else get_zero d k

-- The body that the loops of `_terms_to_map` and `_subtract_rows` share: `coefficient` is added to
-- the entry at `source_index`, and an entry that becomes 0 is deleted.
unfoldable pub xor_entry : Dict ℕ → ℕ → ℕ → Dict ℕ
unfolding get_zero
xor_entry values source_index coefficient =
    let next_value = bit_xor (get_zero values source_index) coefficient in
    if next_value == 0
    then (if has values source_index then remove values source_index else values)
    else put values source_index next_value

unfoldable pub terms_to_map_loop : Dict ℕ → List (ℕ × ℕ) → Dict ℕ
terms_to_map_loop values [] = values
terms_to_map_loop values ((source_index, coefficient) ∷ terms) =
    terms_to_map_loop (xor_entry values source_index coefficient) terms

unfoldable pub terms_to_map : List (ℕ × ℕ) → Dict ℕ
unfolding terms_to_map_loop xor_entry
terms_to_map terms = terms_to_map_loop [] terms

unfoldable pub entries_at : Dict ℕ → List ℕ → List (ℕ × ℕ)
unfolding get_zero
entries_at values [] = []
entries_at values (source_index ∷ indices) =
    let value = get_zero values source_index in
    let rest = entries_at values indices in
    if value == 0 then rest else (source_index, value) ∷ rest

-- The indices are keys of `values`, so the default of `get_zero` is not used.
unfoldable pub map_to_terms : Dict ℕ → List (ℕ × ℕ)
unfolding entries_at
map_to_terms values = entries_at values (sorted (keys values))

unfoldable pub subtract_rows : Dict ℕ → Dict ℕ → ℕ → Dict ℕ
unfolding xor_entry
subtract_rows values [] factor = values
subtract_rows values ((source_index, coefficient) ∷ rhs) factor =
    subtract_rows (xor_entry values source_index (gf256_mul coefficient factor)) rhs factor

unfoldable pub is_zero_payload : Payload → Bool
is_zero_payload [] = true
is_zero_payload (byte ∷ payload) = byte == 0 && is_zero_payload payload
