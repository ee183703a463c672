-- ===== src/Wire.antt =====
-- What the protocols use of Python's `struct` and `zlib`, and the checksum of their own: integers
-- packed without padding, least byte first, and two cyclic redundancy checks.
pub mod Crc
use screen_airdrop.Prelude.{
  ℕ, zero, suc, ◌+◌, ◌*◌, ◌/◌, ◌%◌, ◌<◌, ◌≤◌, ◌≡◌, refl, sym, subst, ap, ◌∙◌, true, List, [], ◌∷◌,
  ◌++◌, ltb, length, take, drop, if◌then◌else◌, arith, length-append, take-append, drop-append,
}
use screen_airdrop.Prelude.Result.{Result, ok, err, struct_error, require, ◌>>=◌, ◌>>◌}
use screen_airdrop.Coding.Payload.{Payload}
use mathlib.Core.List.{append_assoc, append-nil}

-- 256 to the number of bytes
abbrev pub limit : ℕ → ℕ
limit zero = 1
limit (suc width) = 256 * limit width

abbrev pub to_bytes : ℕ → ℕ → Payload
to_bytes zero n = []
to_bytes (suc width) n = n % 256 ∷ to_bytes width (n / 256)

abbrev pub from_bytes : Payload → ℕ
from_bytes [] = 0
from_bytes (b ∷ p) = b + 256 * from_bytes p

-- Struct(format).pack(…): the format is the list of the fields' widths.
unfoldable pub struct_pack : List ℕ → List ℕ → Result Payload
struct_pack [] [] = ok []
struct_pack [] (n ∷ values) = err struct_error
struct_pack (width ∷ format) [] = err struct_error
struct_pack (width ∷ format) (n ∷ values) =
    let rest = struct_pack format values in
    do require (ltb n (limit width)) struct_error; bytes ← rest; ok (to_bytes width n ++ bytes)

-- Struct(format).unpack(…) of as many bytes as the format has.
unfoldable pub struct_unpack : List ℕ → Payload → List ℕ
struct_unpack [] bytes = []
struct_unpack (width ∷ format) bytes =
    from_bytes (take width bytes) ∷ struct_unpack format (drop width bytes)

-- Struct(format).size
abbrev pub struct_size : List ℕ → ℕ
struct_size [] = 0
struct_size (width ∷ format) = width + struct_size format

-- Each value fits its field.
abbrev pub Fits : List ℕ → List ℕ → Type 0
Fits [] [] = Unit
Fits [] (n ∷ values) = ⊥
Fits (width ∷ format) [] = ⊥
Fits (width ∷ format) (n ∷ values) = (n < limit width) × Fits format values

pub from-to_bytes : (width n : ℕ) → n < limit width → from_bytes (to_bytes width n) ≡ n
from-to_bytes zero n h = omega arith
from-to_bytes (suc width) n h = omega (arith, from-to_bytes width (n / 256) (omega (arith, h)))

pub length-to_bytes : (width n : ℕ) → length (to_bytes width n) ≡ width
length-to_bytes zero n = refl
length-to_bytes (suc width) n = ap suc (length-to_bytes width (n / 256))

take_width :
    (width n : ℕ) (rest : Payload) → take width (to_bytes width n ++ rest) ≡ to_bytes width n
take_width zero n rest = refl
take_width (suc width) n rest = ap (◌∷◌ (n % 256)) (take_width width (n / 256) rest)

drop_width : (width n : ℕ) (rest : Payload) → drop width (to_bytes width n ++ rest) ≡ rest
drop_width zero n rest = refl
drop_width (suc width) n rest = drop_width width (n / 256) rest

-- The bytes that `struct_pack` makes of values that fit.
unfoldable pub packed : List ℕ → List ℕ → Payload
packed [] values = []
packed (width ∷ format) [] = []
packed (width ∷ format) (n ∷ values) = to_bytes width n ++ packed format values

pub struct_pack-packed :
    (format values : List ℕ)
    → Fits format values
    → struct_pack format values ≡ ok (packed format values)
unfolding struct_pack packed
struct_pack-packed [] [] h = refl
struct_pack-packed (width ∷ format) (n ∷ values) h =
    let fits : ltb n (limit width) ≡ true = ground (arith, h.0) in
    rw (fits, struct_pack-packed format values h.1) refl
struct_pack-packed [] (n ∷ values) h = absurd h
struct_pack-packed (width ∷ format) [] h = absurd h

pub length-packed :
    (format values : List ℕ)
    → Fits format values
    → length (packed format values) ≡ struct_size format
unfolding packed
length-packed [] [] h = refl
length-packed (width ∷ format) (n ∷ values) h = omega (
  arith,
  length-append {0} (to_bytes width n) (packed format values),
  length-to_bytes width n,
  length-packed format values h.1,
)
length-packed [] (n ∷ values) h = absurd h
length-packed (width ∷ format) [] h = absurd h

-- What was packed is unpacked, whatever bytes follow.
pub struct_unpack-packed :
    (format values : List ℕ) (rest : Payload)
    → Fits format values
    → struct_unpack format (packed format values ++ rest) ≡ values
unfolding struct_unpack packed
struct_unpack-packed [] [] rest h = refl
struct_unpack-packed (width ∷ format) (n ∷ values) rest h =
    rw
      (
        append_assoc (to_bytes width n) (packed format values) rest,
        take_width width n (packed format values ++ rest),
        drop_width width n (packed format values ++ rest),
        from-to_bytes width n h.0,
        struct_unpack-packed format values rest h.1,
      )
      refl
struct_unpack-packed [] (n ∷ values) rest h = absurd h
struct_unpack-packed (width ∷ format) [] rest h = absurd h

pub take-packed :
    (format values : List ℕ) (rest : Payload)
    → Fits format values
    → take (struct_size format) (packed format values ++ rest) ≡ packed format values
take-packed format values rest h =
    subst (λ n. take n (packed format values ++ rest) ≡ packed format values)
      (length-packed format values h) (take-append (packed format values) rest)

pub drop-packed :
    (format values : List ℕ) (rest : Payload)
    → Fits format values
    → drop (struct_size format) (packed format values ++ rest) ≡ rest
drop-packed format values rest h =
    subst (λ n. drop n (packed format values ++ rest) ≡ rest) (length-packed format values h)
      (drop-append (packed format values) rest)

pub struct_unpack_exact :
    (format values : List ℕ)
    → Fits format values
    → struct_unpack format (packed format values) ≡ values
struct_unpack_exact format values h =
    ap (struct_unpack format) (sym (append-nil (packed format values)))
    ∙ struct_unpack-packed format values [] h

pub long-packed :
    (format values : List ℕ) (rest : Payload)
    → Fits format values
    → struct_size format ≤ length (packed format values ++ rest)
long-packed format values rest h =
    omega (arith, length-append {0} (packed format values) rest, length-packed format values h)
