-- ===== src/Prelude/Result.antt =====
-- Python's exceptions as values. A function that may raise returns a `Result`.
use mathlib.Core.Bool.{Bool}
use screen_airdrop.Prelude.{◌≡◌, refl, if◌then◌else◌}

-- The exception classes that the modelled code raises. `stuck` is no Python exception: a loop's
-- fuel ran out; the theorems about the loops show that this does not happen.
pub data Fault : Type 0 where
  value_error zero_division_error runtime_error key_error index_error struct_error e2003 e2004
        layout_info_error reed_solomon_error stuck :
      Fault

pub data Result {ℓ} (A : Type ℓ) : Type ℓ where
  ok : A → Result A
  err : Fault → Result A

-- `if not test: raise fault`
abbrev pub require : Bool → Fault → Result (Unit {0})
require test fault = if test then ok tt else err fault

-- The rest of a block runs on the value, and not at all after an exception.
infixl 5 ◌>>=◌
abbrev pub ◌>>=◌ {ℓ κ} : {V : Type ℓ} {W : Type κ} (m : Result V) (rest : V → Result W) → Result W
err fault >>= rest = err fault
ok value >>= rest = rest value

-- A test, and the rest of the block.
infixl 5 ◌>>◌
abbrev pub ◌>>◌ {ℓ} : {W : Type ℓ} (test : Result (Unit {0})) (rest : Result W) → Result W
err fault >> rest = err fault
ok done >> rest = rest

-- A block that gives a value has bound one.
pub bound_value {ℓ κ} :
    {V : Type ℓ} {W : Type κ} (m : Result V) (rest : V → Result W) (w : W)
    → (m >>= rest) ≡ ok w
    → (v : V) × (m ≡ ok v) × (rest v ≡ ok w)
bound_value (err fault) rest w e = cc
bound_value (ok v) rest w e = (v, refl, e)
