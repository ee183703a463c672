-- ===== src/Receiver/Locator/Streak.antt =====
-- How many failures in a row a lock lasts.
use screen_airdrop.Prelude.{
  ℕ, zero, suc, ◌+◌, ◌<◌, ◌≡◌, refl, subst, ap, ◌∙◌, true, false, Option, none, leb, arith,
}
use screen_airdrop.Receiver.Locator.{
  acquire, is_locked, Roi, Locator, Machine, Config, record_success, record_failure,
}

pred-cases : (n : ℕ) → 0 < n → (k : ℕ) × (suc k ≡ n)
pred-cases zero h = absurd (omega (arith, h))
pred-cases (suc k) h = (k, refl)

module _ {L F R G : Type 0} (locator : Locator L F R) (config : Config F R G) where
  -- `record_failure`, n times.
  abbrev pub fail_times : ℕ → Machine L G → Machine L G
  fail_times zero m = m
  fail_times (suc n) m = (record_failure locator config (fail_times n m)).0

  abbrev pub lost : Machine L G → Machine L G
  lost m = record m {
    lock_mode = acquire;
    geometry_state = none;
    geometry_generation = m.geometry_generation + 1;
    geometry_fail_streak = 0;
    locked_geometry_age = 0;
  }

  fail_early :
      (m : Machine L G) (n : ℕ)
      → is_locked m.lock_mode ≡ true
      → leb config.lock_fail_reacquire_threshold (n + 1) ≡ false
      → (record_failure locator config (record m { geometry_fail_streak = n })).0
        ≡ record m { geometry_fail_streak = n + 1 }
  unfolding record_failure
  fail_early m n e few = simp (e, few) refl

  fail_last :
      (m : Machine L G) (n : ℕ)
      → is_locked m.lock_mode ≡ true
      → leb config.lock_fail_reacquire_threshold (n + 1) ≡ true
      → (record_failure locator config (record m { geometry_fail_streak = n })).0 ≡ lost m
  unfolding record_failure
  fail_last m n e many = simp (e, many) refl

  locked_for :
      (n : ℕ) (m : Machine L G)
      → is_locked m.lock_mode ≡ true
      → m.geometry_fail_streak ≡ 0
      → n < config.lock_fail_reacquire_threshold
      → fail_times n m ≡ record m { geometry_fail_streak = n }
  locked_for zero m e z h = ap (λ n. record m { geometry_fail_streak = n }) z
  locked_for (suc n) m e z h =
      ap (λ r. (record_failure locator config r).0) (locked_for n m e z (omega arith))
      ∙ fail_early m n e (ground arith)
      ∙ ap (λ k. record m { geometry_fail_streak = k }) (omega arith)

  lost_after :
      (n : ℕ) (m : Machine L G)
      → is_locked m.lock_mode ≡ true
      → m.geometry_fail_streak ≡ 0
      → suc n ≡ config.lock_fail_reacquire_threshold
      → fail_times (suc n) m ≡ lost m
  lost_after n m e z h =
      ap (λ r. (record_failure locator config r).0) (locked_for n m e z (omega arith))
      ∙ fail_last m n e (ground arith)

  -- After record_success on a locked machine, n failures, fewer than the threshold, change only
  -- the streak of failures, which is n, and as many failures as the threshold make the machine
  -- acquire, with no geometry, the next generation, the streak 0 and the age 0.
  pub fail_times-lost :
      (m : Machine L G) (bbox : Option Roi) (n : ℕ)
      → is_locked m.lock_mode ≡ true
      → n < config.lock_fail_reacquire_threshold
      → (fail_times n (record_success locator config m bbox)
          ≡ record (record_success locator config m bbox) { geometry_fail_streak = n })
        × (fail_times config.lock_fail_reacquire_threshold (record_success locator config m bbox)
            ≡ lost (record_success locator config m bbox))
  unfolding record_success
  fail_times-lost m bbox n e few =
      let after = record_success locator config m bbox in
      let (k, at) = pred-cases config.lock_fail_reacquire_threshold (omega (arith, few)) in
      (
        locked_for n after e refl few,
        subst (λ i. fail_times i after ≡ lost after) at (lost_after k after e refl at),
      )
