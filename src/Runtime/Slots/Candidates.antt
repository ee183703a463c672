-- ===== src/Runtime/Slots/Candidates.antt =====
-- The filled slots, and the one of them that was captured first.
use screen_airdrop.Prelude.{
  All, ℕ, ◌≡◌, ◌≤◌, refl, sym, ap, subst, ◌∙◌, true, Option, none, some, List, [], ◌∷◌, ◌==◌,
  ==_refl, ltb, if◌then◌else◌, arith, inl, inr, Bool-cases, Option-cases,
}
use screen_airdrop.Prelude.Dict.{Dict, Distinct, get}
use screen_airdrop.Runtime.Slots.{Descriptor, SlotRecord, is_filled}
use screen_airdrop.Runtime.Slots.Reclaim.{candidates, oldest}

map-All :
    (P Q : ℕ × ℕ → Type 0) (xs : List (ℕ × ℕ)) → ((x : ℕ × ℕ) → P x → Q x) → All P xs → All Q xs
map-All P Q [] f h = tt
map-All P Q (x ∷ xs) f (p, h) = (f x p, map-All P Q xs f h)

pub oldest-All :
    (P : ℕ × ℕ → Type 0) (best : ℕ × ℕ) (rest : List (ℕ × ℕ))
    → P best
    → All P rest
    → P (oldest best rest)
unfolding oldest
oldest-All P best [] p h = p
oldest-All P (i, c) ((j, k) ∷ rest) p (q, h) = elim (Bool-cases (ltb k c)) [
  | inl less ↦ rw less (oldest-All P (j, k) rest q h)
  | inr more ↦ rw more (oldest-All P (i, c) rest p h)
]

abbrev first_least : ℕ × ℕ → ℕ × ℕ → ℕ × ℕ
first_least best other = if ltb other.1 best.1 then other else best

smaller :
    (best other : ℕ × ℕ)
    → ((first_least best other).1 ≤ best.1) × ((first_least best other).1 ≤ other.1)
smaller best other = elim (Bool-cases (ltb other.1 best.1)) [
  | inl less ↦ rw less (ground arith, omega arith)
  | inr more ↦ rw more (omega arith, ground arith)
]

pub least :
    (best : ℕ × ℕ) (rest : List (ℕ × ℕ))
    → ((oldest best rest).1 ≤ best.1) × All (λ x. (oldest best rest).1 ≤ x.1) rest
unfolding oldest
least best [] = (omega arith, tt)
least (i, c) ((j, k) ∷ rest) =
    let (first, others) = least (first_least (i, c) (j, k)) rest in
    let (to_c, to_k) = smaller (i, c) (j, k) in
    (omega (arith, first, to_c), (omega (arith, first, to_k), others))

-- A filled slot, under its id and with the capture index of its descriptor.
pub record FilledAt (d : Dict SlotRecord) (x : ℕ × ℕ) : Type 0 where
  pub slot : SlotRecord
  pub descriptor : Descriptor
  pub found : get d x.0 ≡ some slot
  pub state : is_filled slot.state ≡ true
  pub current : slot.current_descriptor ≡ some descriptor
  pub captured : descriptor.capture_index ≡ x.1

shift-FilledAt :
    (d : Dict SlotRecord) (j : ℕ) (s : SlotRecord)
    → get d j ≡ none
    → (x : ℕ × ℕ) → FilledAt d x
    → FilledAt ((j, s) ∷ d) x
shift-FilledAt d j s fresh x f = record {
  slot = f.slot;
  descriptor = f.descriptor;
  found = elim (Bool-cases (j == x.0)) [
    | inl same ↦
        let at : j ≡ x.0 = ground arith in let q = sym fresh ∙ ap (get d) at ∙ f.found in cc q
    | inr other ↦ rw other f.found
  ];
  state = f.state;
  current = f.current;
  captured = f.captured;
}

pub candidates-FilledAt : (d : Dict SlotRecord) → Distinct d → All (FilledAt d) (candidates d)
unfolding candidates
candidates-FilledAt [] h = tt
candidates-FilledAt ((j, s) ∷ d) (fresh, h) =
    let rest =
      map-All (FilledAt d) (FilledAt ((j, s) ∷ d)) (candidates d) (shift-FilledAt d j s fresh)
        (candidates-FilledAt d h) in
    elim (Bool-cases (is_filled s.state)) [
      | inl e ↦ elim (Option-cases s.current_descriptor) [
        | inl q ↦ simp (e, q) rest
        | inr (c, q) ↦
            simp (e, q)
              (
                record {
                  slot = s;
                  descriptor = c;
                  found = rw (==_refl j) refl;
                  state = e;
                  current = q;
                  captured = refl;
                },
                rest,
              )
      ]
      | inr e ↦ simp e rest
    ]

some-same : (a b : SlotRecord) → Option.some a ≡ some b → a ≡ b
some-same a b e = cc

module _ (d : Dict SlotRecord) (j : ℕ) (r : SlotRecord) where
  first_candidate :
      (c : Descriptor)
      → is_filled r.state ≡ true
      → r.current_descriptor ≡ some c
      → candidates ((j, r) ∷ d) ≡ (j, c.capture_index) ∷ candidates d
  unfolding candidates
  first_candidate c f e = rw (f, e) refl

  later_candidates : (Q : ℕ × ℕ → Type 0) → All Q (candidates ((j, r) ∷ d)) → All Q (candidates d)
  unfolding candidates
  later_candidates Q h = elim (Bool-cases (is_filled r.state)) [
    | inl f ↦ elim (Option-cases r.current_descriptor) [
      | inl e ↦ let q : candidates ((j, r) ∷ d) ≡ candidates d = rw (f, e) refl in subst (All Q) q h
      | inr (c, e) ↦ (subst (All Q) (first_candidate c f e) h).1
    ]
    | inr f ↦ let q : candidates ((j, r) ∷ d) ≡ candidates d = rw f refl in subst (All Q) q h
  ]

pub candidates_complete :
    (Q : ℕ × ℕ → Type 0) (d : Dict SlotRecord) (k : ℕ) (s : SlotRecord) (c : Descriptor)
    → get d k ≡ some s
    → is_filled s.state ≡ true
    → s.current_descriptor ≡ some c
    → All Q (candidates d)
    → Q (k, c.capture_index)
candidates_complete Q [] k s c g f e h = absurd (cc g)
candidates_complete Q ((j, r) ∷ d) k s c g f e h = elim (Bool-cases (j == k)) [
  | inl same ↦
      let at : j ≡ k = ground arith in
      let here : get ((j, r) ∷ d) k ≡ some r = rw same refl in
      let q : r ≡ s = some-same r s (sym here ∙ g) in
      let rf : is_filled r.state ≡ true = ap (λ x. is_filled x.state) q ∙ f in
      let re : r.current_descriptor ≡ some c = ap (λ x. x.current_descriptor) q ∙ e in
      subst (λ i. Q (i, c.capture_index)) at (subst (All Q) (first_candidate d j r c rf re) h).0
  | inr other ↦
      let there : get ((j, r) ∷ d) k ≡ get d k = rw other refl in
      candidates_complete Q d k s c (sym there ∙ g) f e (later_candidates d j r Q h)
]
