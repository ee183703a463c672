-- ===== src/Receiver/Assembler/Counted.antt =====
-- The count of received chunks, and that a complete assembler has every chunk of its payload.
use screen_airdrop.Prelude.{
  ℕ, zero, suc, ◌+◌, ◌≤◌, ◌<◌, ◌≡◌, refl, subst, true, false, [], ◌∷◌, ◌==◌, if◌then◌else◌, arith,
  inl, inr, Bool-cases,
}
use screen_airdrop.Prelude.Dict.{Dict, has, put}
use screen_airdrop.Coding.Payload.{Payload}
use screen_airdrop.Receiver.Assembler.Chunks.{has-put, store_one, stores}

-- How many of the chunks 1 to n there are.
abbrev pub present : ℕ → Dict Payload → ℕ
present zero d = 0
present (suc n) d = (if has d (suc n) then 1 else 0) + present n d

-- Every chunk of `after` that `before` has not is one of 1 to n.
abbrev pub NewWithin : ℕ → Dict Payload → Dict Payload → Type 0
NewWithin n before after = (k : ℕ) → has after k ≡ true → has before k ≡ false → (1 ≤ k) × (k ≤ n)

pub present-put_le :
    (n : ℕ) (d : Dict Payload) (k : ℕ) (v : Payload) → present n d ≤ present n (put d k v)
present-put_le zero d k v = omega arith
present-put_le (suc n) d k v = ground (arith, has-put d k (suc n) v, present-put_le n d k v)

present-put_out :
    (n : ℕ) (d : Dict Payload) (k : ℕ) (v : Payload) → n < k → present n (put d k v) ≡ present n d
present-put_out zero d k v h = refl
present-put_out (suc n) d k v h = ground (arith, has-put d k (suc n) v, present-put_out n d k v)

present-put_new :
    (n : ℕ) (d : Dict Payload) (k : ℕ) (v : Payload)
    → 1 ≤ k
    → k ≤ n
    → has d k ≡ false
    → present n (put d k v) ≡ present n d + 1
present-put_new zero d k v lo hi fresh = absurd (omega (arith, lo, hi))
present-put_new (suc n) d k v lo hi fresh = elim (Bool-cases (k == suc n)) [
  | inl last ↦
      let at : k ≡ suc n = ground arith in
      ground (
        arith,
        has-put d k (suc n) v,
        present-put_out n d k v,
        subst (λ i. has d i ≡ false) at fresh,
      )
  | inr other ↦ ground (arith, has-put d k (suc n) v, present-put_new n d k v)
]

present-le : (n : ℕ) (d : Dict Payload) → present n d ≤ n
present-le zero d = omega arith
present-le (suc n) d = ground (arith, present-le n d)

pub present-full :
    (n : ℕ) (d : Dict Payload) → n ≤ present n d → (k : ℕ) → 1 ≤ k → k ≤ n → has d k ≡ true
present-full zero d full k lo hi = absurd (omega (arith, lo, hi))
present-full (suc n) d full k lo hi = elim (Bool-cases (k == suc n)) [
  | inl last ↦
      let at : suc n ≡ k = ground arith in
      subst (λ i. has d i ≡ true) at (ground (arith, present-le n d))
  | inr other ↦ present-full n d (ground (arith, present-le n d)) k lo (ground arith)
]

module _ (c : Dict Payload × ℕ) (id : ℕ) (p : Payload) where
  one-has : (k : ℕ) → has (store_one c id p).0 k ≡ (if id == k then true else has c.0 k)
  one-has k = elim (Bool-cases (has c.0 id)) [
    | inl e ↦ elim (Bool-cases (id == k)) [
      | inl same ↦
          let at : id ≡ k = ground arith in rw (e, same) (subst (λ i. has c.0 i ≡ true) at e)
      | inr other ↦ rw (e, other) refl
    ]
    | inr e ↦ rw e (has-put c.0 id k p)
  ]

  one-kept : (k : ℕ) → has c.0 k ≡ true → has (store_one c id p).0 k ≡ true
  one-kept k h = ground (arith, one-has k)

  one-fresh : (k : ℕ) → has (store_one c id p).0 k ≡ false → has c.0 k ≡ false
  one-fresh k h = ground (arith, one-has k)

  one-present :
      (n : ℕ)
      → c.1 ≤ present n c.0
      → NewWithin n c.0 (store_one c id p).0
      → (store_one c id p).1 ≤ present n (store_one c id p).0
  one-present n h new = elim (Bool-cases (has c.0 id)) [
    | inl e ↦ rw e h
    | inr e ↦
        let (lo, hi) = new id (ground (arith, one-has id)) e in
        rw e (omega (arith, h, present-put_new n c.0 id p lo hi e))
  ]

pub stores-kept :
    (c : Dict Payload × ℕ) (added : Dict Payload) (k : ℕ)
    → has c.0 k ≡ true
    → has (stores c added).0 k ≡ true
stores-kept c [] k h = h
stores-kept c ((id, p) ∷ added) k h = stores-kept (store_one c id p) added k (one-kept c id p k h)

-- Each chunk that is stored is counted, and is one of 1 to n.
pub stores-present :
    (n : ℕ) (c : Dict Payload × ℕ) (added : Dict Payload)
    → NewWithin n c.0 (stores c added).0
    → c.1 ≤ present n c.0
    → (stores c added).1 ≤ present n (stores c added).0
stores-present n c [] new h = h
stores-present n c ((id, p) ∷ added) new h =
    stores-present n (store_one c id p) added
      (λ k there fresh. new k there (one-fresh c id p k fresh))
      (one-present c id p n h
        (λ k there fresh. new k (stores-kept (store_one c id p) added k there) fresh))
