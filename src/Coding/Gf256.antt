-- ===== src/Coding/Gf256.antt =====
-- coding.py: addition, product, inverse and quotient of GF(256).
pub mod Field
use screen_airdrop.Prelude.{
  ℕ, ◌+◌, ◌-◌, ◌*◌, ◌%◌, ◌<◌, ◌≡◌, refl, Bool, true, bit_and, bit_xor, ◌==◌, ◌||◌, if◌then◌else◌,
}
use screen_airdrop.Prelude.Result.{Result, ok, err, zero_division_error, ◌>>=◌}
use screen_airdrop.Coding.Tables.{exp_at, log_at}

unfoldable pub gf256_add : ℕ → ℕ → ℕ
gf256_add lhs rhs = bit_xor lhs rhs

unfoldable pub gf256_mul : ℕ → ℕ → ℕ
gf256_mul lhs rhs =
    let left = bit_and lhs 0xff in
    let right = bit_and rhs 0xff in
    if left == 0 || right == 0 then 0 else exp_at (log_at left + log_at right)

unfoldable pub gf256_inv : ℕ → Result ℕ
gf256_inv value =
    let int_value = bit_and value 0xff in
    if int_value == 0 then err zero_division_error else ok (exp_at (255 - log_at int_value))

unfoldable pub gf256_div : ℕ → ℕ → Result ℕ
gf256_div lhs rhs = do inverse ← gf256_inv rhs; ok (gf256_mul lhs inverse)
