-- ===== src/Examples/Geometry.antt =====
-- The geometry machine with a locator that finds nothing, and a lock that lasts two failures.
use screen_airdrop.Prelude.{ℕ, ◌+◌, ◌≡◌, refl, true, false, none, some, arith}
use screen_airdrop.Receiver.Locator.{
  acquire, is_locked, full, GeometryState, Locator, Machine, Config, new_machine, propose_update,
  record_success, record_failure,
}
use screen_airdrop.Receiver.Locator.Invariant.{
  IsConsistent, begun, then_step, proposed, failed, Run-IsConsistent, propose_update-stale,
}
use screen_airdrop.Receiver.Locator.Streak.{fail_times, lost, fail_times-lost}

abbrev locator : Locator ℕ ℕ ℕ
locator = record {
  locate = λ state frame. (state + 1, none);
  get_current_roi = λ state. none;
  reset_roi = λ state. 0;
  update_roi_from_bbox = λ state box. state;
}

abbrev config : Config ℕ ℕ ℕ
config = record {
  search_policy = full;
  fixed_roi = none;
  locate_to_geometry = none;
  locator_confidence_threshold = 55;
  lock_fail_reacquire_threshold = 2;
}

abbrev geometry : GeometryState ℕ
geometry = record { geometry_generation = 0; lock_mode = acquire; details = 6 }

abbrev start : Machine ℕ ℕ
start = new_machine 0

abbrev after_lock : Machine ℕ ℕ
after_lock = (propose_update locator config start (some geometry) 80 0).0

geometry_example : IsConsistent (record_failure locator config after_lock).0
geometry_example =
    Run-IsConsistent locator config 0 (record_failure locator config after_lock).0
      (then_step (then_step begun (proposed start (some geometry) 80 0)) (failed after_lock))

lock-accepted : (propose_update locator config start (some geometry) 80 0).1 ≡ true
unfolding propose_update
lock-accepted = refl

stale_example :
    propose_update locator config (record_failure locator config after_lock).0 (some geometry) 90 0
    ≡ ((record_failure locator config after_lock).0, false)
stale_example =
    propose_update-stale locator config start (record_failure locator config after_lock).0
      (some geometry) (some geometry) 80 90 0 lock-accepted (then_step begun (failed after_lock))

after-locked : is_locked after_lock.lock_mode ≡ true
unfolding propose_update is_locked
after-locked = refl

streak_example :
    (fail_times locator config 1 (record_success locator config after_lock none)
      ≡ record (record_success locator config after_lock none) { geometry_fail_streak = 1 })
    × (fail_times locator config 2 (record_success locator config after_lock none)
        ≡ lost locator config (record_success locator config after_lock none))
streak_example = fail_times-lost locator config after_lock none 1 after-locked (omega arith)
