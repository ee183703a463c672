-- ===== src/Solver/Rows/Coefficients.antt =====
-- The coefficient of each source in a dictionary of terms, through every operation on rows.
use screen_airdrop.Prelude.{
  ℕ, ◌<◌, ◌≡◌, refl, sym, ◌∙◌, false, none, List, [], ◌∷◌, ◌==◌, if◌then◌else◌, bit_xor, arith,
}
use screen_airdrop.Prelude.Dict.{
  Dict, get, has, put, remove, keys, mem, sorted, Distinct, put-Distinct, remove-Distinct,
}
use screen_airdrop.Prelude.Xor.{bit_xor-zero, zero-bit_xor, byte-bit_xor}
use screen_airdrop.Coding.Gf256.{gf256_mul}
use screen_airdrop.Coding.Gf256.Field.{mul-lt, zero-mul}
use screen_airdrop.Coding.Equation.{Unique}
use screen_airdrop.Coding.Equation.Selection.{mem-sorted, sorted-Unique}
use screen_airdrop.Solver.Rows.{
  get_zero, xor_entry, terms_to_map, terms_to_map_loop, entries_at, map_to_terms, subtract_rows,
}

-- All coefficients are bytes.
abbrev pub Bytes : List (ℕ × ℕ) → Type 0
Bytes [] = Unit
Bytes ((i, c) ∷ ts) = (c < 256) × Bytes ts

-- No coefficient is 0.
abbrev pub NonZero : List (ℕ × ℕ) → Type 0
NonZero [] = Unit
NonZero ((i, c) ∷ ts) = (0 < c) × NonZero ts

-- A dictionary of terms: different sources, each with a byte other than 0.
pub record IsTerms (d : Dict ℕ) : Type 0 where
  pub distinct : Distinct d
  pub bytes : Bytes d
  pub nonzero : NonZero d

pub get_zero-lt : (d : Dict ℕ) (k : ℕ) → Bytes d → get_zero d k < 256
unfolding get_zero
get_zero-lt [] k h = omega arith
get_zero-lt ((j, v) ∷ d) k h = ground (arith, get_zero-lt d k)

pub get_zero-none : (d : Dict ℕ) (k : ℕ) → get d k ≡ none → get_zero d k ≡ 0
unfolding get_zero
get_zero-none [] k h = refl
get_zero-none ((j, v) ∷ d) k h = ground (arith, get_zero-none d k)

pub get_zero_pos : (d : Dict ℕ) (k : ℕ) → NonZero d → get_zero d k ≡ 0 → get d k ≡ none
unfolding get_zero
get_zero_pos [] k n h = refl
get_zero_pos ((j, v) ∷ d) k n h = ground (arith, get_zero_pos d k)

pub get_zero-put :
    (d : Dict ℕ) (k j v : ℕ) → get_zero (put d k v) j ≡ (if k == j then v else get_zero d j)
unfolding get_zero
get_zero-put [] k j v = refl
get_zero-put ((i, w) ∷ d) k j v = ground (arith, get_zero-put d k j v)

pub get_zero-remove :
    (d : Dict ℕ) (k j : ℕ)
    → Distinct d
    → get_zero (remove d k) j ≡ (if k == j then 0 else get_zero d j)
unfolding get_zero
get_zero-remove [] k j h = ground arith
get_zero-remove ((i, w) ∷ d) k j h =
    ground (arith, get_zero-remove d k j, get_zero-none d k, get_zero-none d j)

pub put-Bytes : (d : Dict ℕ) (k v : ℕ) → v < 256 → Bytes d → Bytes (put d k v)
put-Bytes [] k v h b = (h, tt)
put-Bytes ((i, w) ∷ d) k v h b = ground (arith, put-Bytes d k v h)

put-NonZero : (d : Dict ℕ) (k v : ℕ) → 0 < v → NonZero d → NonZero (put d k v)
put-NonZero [] k v h b = (h, tt)
put-NonZero ((i, w) ∷ d) k v h b = ground (arith, put-NonZero d k v h)

pub remove-Bytes : (d : Dict ℕ) (k : ℕ) → Bytes d → Bytes (remove d k)
remove-Bytes [] k b = tt
remove-Bytes ((i, w) ∷ d) k b = ground (arith, remove-Bytes d k)

remove-NonZero : (d : Dict ℕ) (k : ℕ) → NonZero d → NonZero (remove d k)
remove-NonZero [] k b = tt
remove-NonZero ((i, w) ∷ d) k b = ground (arith, remove-NonZero d k)

has-false : (d : Dict ℕ) (k : ℕ) → has d k ≡ false → get_zero d k ≡ 0
unfolding get_zero
has-false [] k h = refl
has-false ((j, v) ∷ d) k h = ground (arith, has-false d k)

-- `xor_entry` adds the coefficient at its index and changes no other.
pub get_zero-xor_entry :
    (d : Dict ℕ) (k j c : ℕ)
    → Distinct d
    → get_zero (xor_entry d k c) j ≡ (if k == j then bit_xor (get_zero d k) c else get_zero d j)
unfolding xor_entry
get_zero-xor_entry d k j c h =
    ground
      (arith, get_zero-put d k j (bit_xor (get_zero d k) c), get_zero-remove d k j h, has-false d k)

pub xor_entry-IsTerms : (d : Dict ℕ) (k c : ℕ) → c < 256 → IsTerms d → IsTerms (xor_entry d k c)
unfolding xor_entry
xor_entry-IsTerms d k c h t =
    let v = bit_xor (get_zero d k) c in
    let v_lt = byte-bit_xor (get_zero d k) c (get_zero-lt d k t.bytes) h in
    record {
      distinct = ground (arith, put-Distinct d k v t.distinct, remove-Distinct d k t.distinct);
      bytes = ground (arith, put-Bytes d k v v_lt t.bytes, remove-Bytes d k t.bytes);
      nonzero = ground (arith, put-NonZero d k v, remove-NonZero d k t.nonzero);
    }

IsTerms-nil : IsTerms []
IsTerms-nil = record { distinct = tt; bytes = tt; nonzero = tt }

terms_to_map_loop-IsTerms :
    (d : Dict ℕ) (ts : List (ℕ × ℕ)) → Bytes ts → IsTerms d → IsTerms (terms_to_map_loop d ts)
unfolding terms_to_map_loop
terms_to_map_loop-IsTerms d [] b t = t
terms_to_map_loop-IsTerms d ((k, c) ∷ ts) b t =
    terms_to_map_loop-IsTerms (xor_entry d k c) ts b.1 (xor_entry-IsTerms d k c b.0 t)

pub terms_to_map-IsTerms : (ts : List (ℕ × ℕ)) → Bytes ts → IsTerms (terms_to_map ts)
unfolding terms_to_map
terms_to_map-IsTerms ts b = terms_to_map_loop-IsTerms [] ts b IsTerms-nil

get_zero-terms_to_map_loop :
    (d : Dict ℕ) (ts : List (ℕ × ℕ)) (j : ℕ)
    → IsTerms d
    → Distinct ts
    → Bytes ts
    → get_zero (terms_to_map_loop d ts) j ≡ bit_xor (get_zero d j) (get_zero ts j)
unfolding terms_to_map_loop get_zero
get_zero-terms_to_map_loop d [] j t u b = sym (bit_xor-zero (get_zero d j))
get_zero-terms_to_map_loop d ((k, c) ∷ ts) j t u b = ground (
  arith,
  get_zero-terms_to_map_loop (xor_entry d k c) ts j (xor_entry-IsTerms d k c b.0 t) u.1 b.1,
  get_zero-xor_entry d k j c t.distinct,
  get_zero-none ts j,
  bit_xor-zero (bit_xor (get_zero d k) c),
)

-- On different sources the dictionary has each term's coefficient.
pub get_zero-terms_to_map :
    (ts : List (ℕ × ℕ)) (j : ℕ)
    → Distinct ts
    → Bytes ts
    → get_zero (terms_to_map ts) j ≡ get_zero ts j
unfolding terms_to_map
get_zero-terms_to_map ts j u b =
    get_zero-terms_to_map_loop [] ts j IsTerms-nil u b
    ∙ unfold get_zero in zero-bit_xor (get_zero ts j)

-- `_map_to_terms`: the terms in the order of their indices, with the same coefficients.
keys-Unique : (d : Dict ℕ) → Distinct d → Unique (keys d)
keys-Unique [] u = tt
keys-Unique ((i, v) ∷ d) u = (mem-keys d i u.0, keys-Unique d u.1)
  where
    mem-keys : (e : Dict ℕ) (k : ℕ) → get e k ≡ none → mem (keys e) k ≡ false
    mem-keys [] k h = refl
    mem-keys ((j, w) ∷ e) k h = ground (arith, mem-keys e k)

pub mem-keys_zero : (d : Dict ℕ) (k : ℕ) → mem (keys d) k ≡ false → get_zero d k ≡ 0
unfolding get_zero
mem-keys_zero [] k h = refl
mem-keys_zero ((j, w) ∷ d) k h = ground (arith, mem-keys_zero d k)

get_zero-entries_at :
    (d : Dict ℕ) (ks : List ℕ) (j : ℕ)
    → get_zero (entries_at d ks) j ≡ (if mem ks j then get_zero d j else 0)
unfolding entries_at get_zero
get_zero-entries_at d [] j = refl
get_zero-entries_at d (k ∷ ks) j = ground (arith, get_zero-entries_at d ks j)

get-entries_at-none :
    (d : Dict ℕ) (ks : List ℕ) (j : ℕ) → mem ks j ≡ false → get (entries_at d ks) j ≡ none
unfolding entries_at
get-entries_at-none d [] j h = refl
get-entries_at-none d (k ∷ ks) j h = ground (arith, get-entries_at-none d ks j)

entries_at-IsTerms : (d : Dict ℕ) (ks : List ℕ) → Bytes d → Unique ks → IsTerms (entries_at d ks)
unfolding entries_at
entries_at-IsTerms d [] b u = IsTerms-nil
entries_at-IsTerms d (k ∷ ks) b u =
    let t = entries_at-IsTerms d ks b u.1 in
    record {
      distinct = ground (arith, get-entries_at-none d ks k u.0, t);
      bytes = ground (arith, get_zero-lt d k b, t);
      nonzero = ground (arith, t);
    }

pub map_to_terms-IsTerms : (d : Dict ℕ) → Distinct d → Bytes d → IsTerms (map_to_terms d)
unfolding map_to_terms
map_to_terms-IsTerms d u b =
    entries_at-IsTerms d (sorted (keys d)) b (sorted-Unique (keys d) (keys-Unique d u))

pub get_zero-map_to_terms : (d : Dict ℕ) (j : ℕ) → get_zero (map_to_terms d) j ≡ get_zero d j
unfolding map_to_terms
get_zero-map_to_terms d j =
    ground
      (arith, get_zero-entries_at d (sorted (keys d)) j, mem-sorted j (keys d), mem-keys_zero d j)

pub subtract_rows-IsTerms :
    (d e : Dict ℕ) (f : ℕ) → f < 256 → Bytes e → IsTerms d → IsTerms (subtract_rows d e f)
unfolding subtract_rows
subtract_rows-IsTerms d [] f h b t = t
subtract_rows-IsTerms d ((k, c) ∷ e) f h b t =
    subtract_rows-IsTerms (xor_entry d k (gf256_mul c f)) e f h b.1
      (xor_entry-IsTerms d k (gf256_mul c f) (mul-lt c f b.0 h) t)

-- For coefficients and a factor below 256, and dictionaries with each key once, of which the first
-- has no zero entry, _subtract_rows has at each source the first coefficient plus the factor times
-- the second one, an absent entry counting as 0.
pub get_zero-subtract_rows :
    (d e : Dict ℕ) (f j : ℕ)
    → f < 256
    → IsTerms d
    → Distinct e
    → Bytes e
    → get_zero (subtract_rows d e f) j ≡ bit_xor (get_zero d j) (gf256_mul (get_zero e j) f)
unfolding subtract_rows get_zero
get_zero-subtract_rows d [] f j h t u b = rw (zero-mul, bit_xor-zero)
get_zero-subtract_rows d ((k, c) ∷ e) f j h t u b = ground (
  arith,
  get_zero-subtract_rows (xor_entry d k (gf256_mul c f)) e f j h
      (xor_entry-IsTerms d k (gf256_mul c f) (mul-lt c f b.0 h) t) u.1 b.1,
  get_zero-xor_entry d k j (gf256_mul c f) t.distinct,
  get_zero-none e j,
  zero-mul f,
  bit_xor-zero (bit_xor (get_zero d k) (gf256_mul c f)),
)
