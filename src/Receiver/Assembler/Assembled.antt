-- ===== src/Receiver/Assembler/Assembled.antt =====
-- The payload that a receiver puts together.
use mathlib.Core.List.{append_assoc, append-nil}
use screen_airdrop.Prelude.{
  ℕ, zero, suc, ◌+◌, ◌≤◌, ◌<◌, ◌≡◌, ◌≢◌, ◌↔◌, refl, sym, ap, ◌∙◌, Bool, true, false, Option, none,
  some, List, [], ◌∷◌, ◌++◌, ◌==◌, if◌then◌else◌, leb, length, arith, inl, inr, Bool-cases,
}
use screen_airdrop.Prelude.Dict.{Dict, get, has}
use screen_airdrop.Prelude.Result.{Result, ok, err, runtime_error}
use screen_airdrop.Coding.Payload.{Payload}
use screen_airdrop.Receiver.Assembler.{Manifest, ChunkAssembler}
use screen_airdrop.Receiver.Assembler.Control.{
  missing_from, missing_of, missing_chunk_ids, join_chunks, payload_of, payload,
}

-- The chunks from `cid` on, one after the other.
abbrev pub joined : Dict Payload → ℕ → ℕ → Payload
joined chunks cid zero = []
joined chunks cid (suc left) =
    elim (get chunks cid) [ none ↦ [] | some chunk ↦ chunk ] ++ joined chunks (cid + 1) left

pub has-get : (d : Dict Payload) (k : ℕ) → has d k ≡ true → (p : Payload) × (get d k ≡ some p)
has-get [] k h = cc
has-get ((j, p) ∷ d) k h = elim (Bool-cases (j == k)) [
  | inl same ↦ (p, rw same refl)
  | inr other ↦ let (q, e) = has-get d k (ground arith) in (q, rw other e)
]

pub join_chunks-joined :
    (d : Dict Payload) (cid left : ℕ) (parts : Payload)
    → ((k : ℕ) → cid ≤ k → k < cid + left → has d k ≡ true)
    → join_chunks d cid left parts ≡ ok (parts ++ joined d cid left)
unfolding join_chunks
join_chunks-joined d cid zero parts all = ap Result.ok (sym (append-nil parts))
join_chunks-joined d cid (suc left) parts all =
    let (chunk, e) = has-get d cid (all cid (omega arith) (omega arith)) in
    let rest =
      join_chunks-joined d (cid + 1) left (parts ++ chunk)
        (λ k lo hi. all k (omega (arith, lo)) (omega (arith, hi))) in
    rw (e, join_chunks) (rest ∙ ap Result.ok (append_assoc parts chunk (joined d (cid + 1) left)))

get-none : (d : Dict Payload) (k : ℕ) → has d k ≡ false → get d k ≡ none
get-none [] k h = refl
get-none ((j, p) ∷ d) k h = ground (arith, get-none d k)

module _ (d : Dict Payload) (cid left limit : ℕ) where
  missing_later :
      (xs : List ℕ)
      → has d cid ≡ true
      → missing_from d cid (suc left) xs limit ≡ missing_from d (cid + 1) left xs limit
  unfolding missing_from
  missing_later xs there = rw there refl

  missing_here :
      (xs : List ℕ)
      → has d cid ≡ false
      → missing_from d cid (suc left) xs limit ≡ (
          if leb limit (length (xs ++ cid ∷ []))
          then xs ++ cid ∷ []
          else missing_from d (cid + 1) left (xs ++ cid ∷ []) limit)
  unfolding missing_from
  missing_here xs gone = rw gone refl

  join_later :
      (parts chunk : Payload)
      → get d cid ≡ some chunk
      → join_chunks d cid (suc left) parts ≡ join_chunks d (cid + 1) left (parts ++ chunk)
  unfolding join_chunks
  join_later parts chunk e = rw (e, join_chunks) refl

  join_here :
      (parts : Payload) → has d cid ≡ false → join_chunks d cid (suc left) parts ≡ err runtime_error
  unfolding join_chunks
  join_here parts gone = rw (get-none d cid gone, join_chunks) refl

some-same : {xs ys : List ℕ} → Option.some xs ≡ some ys → xs ≡ ys
some-same e = cc

neither_nil : (b : Bool) (xs ys : List ℕ) → xs ≢ [] → ys ≢ [] → (if b then xs else ys) ≢ []
neither_nil true xs ys x y = x
neither_nil false xs ys x y = y

missing_grows :
    (d : Dict Payload) (cid left x : ℕ) (xs : List ℕ) (limit : ℕ)
    → missing_from d cid left (x ∷ xs) limit ≢ []
unfolding missing_from
missing_grows d cid zero x xs limit e = cc e
missing_grows d cid (suc left) x xs limit e = elim (Bool-cases (has d cid)) [
  | inl there ↦
      missing_grows d (cid + 1) left x xs limit
        (sym (missing_later d cid left limit (x ∷ xs) there) ∙ e)
  | inr gone ↦
      neither_nil (leb limit (length ((x ∷ xs) ++ cid ∷ []))) _ _ (λ q. cc q)
        (missing_grows d (cid + 1) left x (xs ++ cid ∷ []) limit)
        (sym (missing_here d cid left limit (x ∷ xs) gone) ∙ e)
]

missing-ok :
    (d : Dict Payload) (cid left limit : ℕ) (parts : Payload)
    → missing_from d cid left [] limit ≡ []
    → (bytes : Payload) × (join_chunks d cid left parts ≡ ok bytes)
unfolding join_chunks
missing-ok d cid zero limit parts e = (parts, refl)
missing-ok d cid (suc left) limit parts e = elim (Bool-cases (has d cid)) [
  | inl there ↦
      let (chunk, g) = has-get d cid there in
      let (bytes, q) =
        missing-ok d (cid + 1) left limit (parts ++ chunk)
          (sym (missing_later d cid left limit [] there) ∙ e) in
      (bytes, join_later d cid left limit parts chunk g ∙ q)
  | inr gone ↦ absurd (
      neither_nil (leb limit 1) _ _ (λ q. cc q) (missing_grows d (cid + 1) left cid [] limit)
        (sym (missing_here d cid left limit [] gone) ∙ e))
]

ok-missing :
    (d : Dict Payload) (cid left limit : ℕ) (parts bytes : Payload)
    → join_chunks d cid left parts ≡ ok bytes
    → missing_from d cid left [] limit ≡ []
unfolding missing_from
ok-missing d cid zero limit parts bytes e = refl
ok-missing d cid (suc left) limit parts bytes e = elim (Bool-cases (has d cid)) [
  | inl there ↦
      let (chunk, g) = has-get d cid there in
      missing_later d cid left limit [] there
      ∙ ok-missing d (cid + 1) left limit (parts ++ chunk) bytes
          (sym (join_later d cid left limit parts chunk g) ∙ e)
  | inr gone ↦ let bad = sym (join_here d cid left limit parts gone) ∙ e in absurd (cc bad)
]

missing_of-payload :
    (manifest : Option Manifest) (d : Dict Payload) (limit : ℕ)
    → (missing_of manifest d limit ≡ some [])
      ↔ ((bytes : Payload) × (payload_of manifest d ≡ ok bytes))
unfolding missing_of payload_of
missing_of-payload none d limit = (λ q. absurd (cc q), λ (bytes, q). absurd (cc q))
missing_of-payload (some m) d limit = (
  λ q. missing-ok d 1 m.total_chunks limit [] (some-same q),
  λ (bytes, q). ap some (ok-missing d 1 m.total_chunks limit [] bytes q),
)

-- For every limit, missing_chunk_ids returns an empty list exactly when payload returns a value;
-- without a manifest neither is the case.
pub missing_chunk_ids-payload :
    {J : Type 0} (a : ChunkAssembler J) (limit : ℕ)
    → (missing_chunk_ids a limit ≡ some []) ↔ ((bytes : Payload) × (payload a ≡ ok bytes))
unfolding missing_chunk_ids payload
missing_chunk_ids-payload a limit = missing_of-payload a.manifest a.chunks limit
