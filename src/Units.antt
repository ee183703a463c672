-- ===== src/Units.antt =====
-- common/information/units.py and identities.py: the transmission units, the checks of their
-- constructors, and the keys by which duplicates are found. Every integer of a unit comes from an
-- unsigned field of the wire or from a length, so the numbers are natural and the constructors'
-- tests for negative values pass.
use screen_airdrop.Prelude.{
  ℕ, Bool, true, false, List, [], ◌∷◌, ◌++◌, ◌==◌, ◌&&◌, if◌then◌else◌, length,
}
use screen_airdrop.Prelude.Result.{Result, ok, value_error, require, ◌>>◌}
use screen_airdrop.Coding.Payload.{Payload}
use screen_airdrop.Coding.Equation.{CodingScheme}

pub record SystematicUnit : Type 0 where
  pub session_id : ℕ
  pub generation_id : ℕ
  pub generation_size : ℕ
  pub payload_size : ℕ
  pub payload : Payload
  pub source_index : ℕ

pub record CodedUnit : Type 0 where
  pub session_id : ℕ
  pub generation_id : ℕ
  pub generation_size : ℕ
  pub payload_size : ℕ
  pub payload : Payload
  pub equation_id : ℕ
  pub coding_seed : ℕ
  pub degree : ℕ
  pub coding_scheme : CodingScheme

-- `unit_type` and the class go together, so the constructor stands for both.
pub data TransmissionUnit : Type 0 where
  systematic : SystematicUnit → TransmissionUnit
  coded : CodedUnit → TransmissionUnit

-- TransmissionUnit.__post_init__
unfoldable pub check_unit : ℕ → Payload → Result (Unit {0})
check_unit payload_size payload = require (payload_size == length payload) value_error

-- SystematicUnit(...)
unfoldable pub make_systematic_unit : SystematicUnit → Result SystematicUnit
unfolding check_unit
make_systematic_unit u = do check_unit u.payload_size u.payload; ok u

-- CodedUnit(...)
unfoldable pub make_coded_unit : CodedUnit → Result CodedUnit
unfolding check_unit
make_coded_unit u = do
  check_unit u.payload_size u.payload
  require (if u.degree == 0 then false else true) value_error
  ok u

pub record SystematicUnitIdentity : Type 0 where
  pub generation_id : ℕ
  pub source_index : ℕ

pub record CodedUnitIdentity : Type 0 where
  pub generation_id : ℕ
  pub equation_id : ℕ

unfoldable pub systematic_unit_identity : SystematicUnit → SystematicUnitIdentity
systematic_unit_identity u = record {
  generation_id = u.generation_id;
  source_index = u.source_index;
}

unfoldable pub coded_unit_identity : CodedUnit → CodedUnitIdentity
coded_unit_identity u = record { generation_id = u.generation_id; equation_id = u.equation_id }

-- Membership in the sets of identities, and `add`.
unfoldable pub has_source : List SystematicUnitIdentity → SystematicUnitIdentity → Bool
has_source [] k = false
has_source (j ∷ ids) k =
    if j.generation_id == k.generation_id && j.source_index == k.source_index
    then true
    else has_source ids k

unfoldable pub add_source :
    List SystematicUnitIdentity → SystematicUnitIdentity → List SystematicUnitIdentity
unfolding has_source
add_source ids k = if has_source ids k then ids else ids ++ k ∷ []

unfoldable pub has_equation : List CodedUnitIdentity → CodedUnitIdentity → Bool
has_equation [] k = false
has_equation (j ∷ ids) k =
    if j.generation_id == k.generation_id && j.equation_id == k.equation_id
    then true
    else has_equation ids k

unfoldable pub add_equation : List CodedUnitIdentity → CodedUnitIdentity → List CodedUnitIdentity
unfolding has_equation
add_equation ids k = if has_equation ids k then ids else ids ++ k ∷ []
