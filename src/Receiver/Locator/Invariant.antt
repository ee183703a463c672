-- ===== src/Receiver/Locator/Invariant.antt =====
-- What holds of the geometry machine whatever calls are made.
use screen_airdrop.Prelude.{
  ℕ, ◌+◌, ◌≤◌, ◌<◌, ◌≡◌, refl, Bool, true, false, ◌&&◌, Option, none, some, ◌==◌, ltb, leb,
  if◌then◌else◌, arith, inl, inr, Bool-cases, Option-cases,
}
use screen_airdrop.Receiver.Locator.{
  LockMode, acquire, locked, is_locked, expands, GeometryState, Roi, Locator, Machine, Config,
  new_machine, force_reacquire, retry, locate_with_policy, trusted, search_candidate, submit_search,
  submit_frame, propose_update, record_success, record_failure,
}

-- A locked machine has a geometry of its generation, and one that acquires has none.
abbrev pub Consistent : {G : Type 0} → LockMode → Option (GeometryState G) → ℕ → ℕ → Type 0
Consistent acquire none generation age = age ≡ 0
Consistent acquire (some g) generation age = ⊥
Consistent locked none generation age = ⊥
Consistent locked (some g) generation age =
    (g.geometry_generation ≡ generation) × (g.lock_mode ≡ locked)

abbrev pub IsConsistent : {L G : Type 0} → Machine L G → Type 0
IsConsistent m = Consistent m.lock_mode m.geometry_state m.geometry_generation m.locked_geometry_age

-- A search moves the locator only.
record Searched {L G : Type 0} (m m' : Machine L G) : Type 0 where
  geometry_state : m'.geometry_state ≡ m.geometry_state
  geometry_generation : m'.geometry_generation ≡ m.geometry_generation
  lock_mode : m'.lock_mode ≡ m.lock_mode
  locked_geometry_age : m'.locked_geometry_age ≡ m.locked_geometry_age

stay : {L G : Type 0} (m : Machine L G) (l : L) → Searched m (record m { locator_state = l })
stay m l = record {
  geometry_state = refl;
  geometry_generation = refl;
  lock_mode = refl;
  locked_geometry_age = refl;
}

refused : {b : Bool} → b ≡ false → b ≡ true → ⊥
refused f t = cc

module _ {L F R G : Type 0} (locator : Locator L F R) (config : Config F R G) where
  -- One call, with any arguments.
  pub data Step : Machine L G → Machine L G → Type 0 where
    reacquired : (m : Machine L G) → Step m (force_reacquire locator config m)
    submitted :
        (m : Machine L G) (frame : F) (hint : Option Roi) (force : Bool)
        → Step m (submit_frame locator config m frame hint force).0
    proposed :
        (m : Machine L G) (geometry : Option (GeometryState G)) (quality used : ℕ)
        → Step m (propose_update locator config m geometry quality used).0
    succeeded :
        (m : Machine L G) (bbox : Option Roi) → Step m (record_success locator config m bbox)
    failed : (m : Machine L G) → Step m (record_failure locator config m).0

  pub data Run (start : Machine L G) : Machine L G → Type 0 where
    begun : Run start start
    then_step : {m m' : Machine L G} → Run start m → Step m m' → Run start m'

  retry-Searched :
      (m : Machine L G) (l : L) (frame : F)
      → Searched m (retry locator config (record m { locator_state = l }) frame).0
  unfolding retry
  retry-Searched m l frame = elim (Option-cases (locator.get_current_roi l)) [
    | inl e ↦ rw (retry, e) (stay m l)
    | inr (roi, e) ↦ elim (Bool-cases (expands config.search_policy)) [
      | inl on ↦ rw (retry, e, on) (stay m (locator.locate (locator.reset_roi l) frame).0)
      | inr off ↦ rw (retry, e, off) (stay m l)
    ]
  ]

  locate-Searched :
      (m : Machine L G) (frame : F) → Searched m (locate_with_policy locator config m frame).0
  unfolding locate_with_policy
  locate-Searched m frame =
      let found = locator.locate m.locator_state frame in
      elim (Option-cases found.1) [
        | inl e ↦ rw (locate_with_policy, e) (retry-Searched m found.0 frame)
        | inr (result, e) ↦ rw (locate_with_policy, e) (stay m found.0)
      ]

  candidate-Searched :
      (m : Machine L G) (frame : F) → Searched m (search_candidate locator config m frame).0
  unfolding search_candidate
  candidate-Searched m frame = elim (Option-cases config.locate_to_geometry) [
    | inl e ↦ rw (search_candidate, e) (stay m m.locator_state)
    | inr (convert, e) ↦ rw (search_candidate, e) (locate-Searched m frame)
  ]

  submit-Searched :
      (m : Machine L G) (frame : F) (hint : Option Roi) (force : Bool)
      → Searched m (submit_frame locator config m frame hint force).0
  unfolding submit_frame submit_search
  submit-Searched m frame hint force = elim (Option-cases (trusted locator config m)) [
    | inl e ↦ rw (submit_frame, e) (candidate-Searched m frame)
    | inr (g, e) ↦ elim (Bool-cases force) [
      | inl on ↦ rw (submit_frame, e, on) (candidate-Searched m frame)
      | inr off ↦ rw (submit_frame, e, off) (stay m m.locator_state)
    ]
  ]

  Searched-IsConsistent : (m m' : Machine L G) → Searched m m' → IsConsistent m → IsConsistent m'
  Searched-IsConsistent m m' s h =
      rw (s.geometry_state, s.geometry_generation, s.lock_mode, s.locked_geometry_age) h

  proposed-IsConsistent :
      (m : Machine L G) (geometry : Option (GeometryState G)) (quality used : ℕ)
      → IsConsistent m
      → IsConsistent (propose_update locator config m geometry quality used).0
  unfolding propose_update
  proposed-IsConsistent m none quality used h = h
  proposed-IsConsistent m (some g) quality used h =
      elim (Bool-cases (ltb quality config.locator_confidence_threshold)) [
        | inl low ↦ rw low h
        | inr high ↦ elim (Bool-cases (used == m.geometry_generation)) [
          | inl now ↦ rw (high, now) (refl, refl)
          | inr stale ↦ rw (high, stale) h
        ]
      ]

  aged :
      (mode : LockMode) (g : Option (GeometryState G)) (n age : ℕ)
      → Consistent mode g n age
      → Consistent mode g n (if is_locked mode then age + 1 else age)
  unfolding is_locked
  aged acquire none n age h = h
  aged acquire (some g) n age h = elim h [ ]
  aged locked none n age h = elim h [ ]
  aged locked (some g) n age h = h

  failed-IsConsistent :
      (m : Machine L G) → IsConsistent m → IsConsistent (record_failure locator config m).0
  unfolding record_failure
  failed-IsConsistent m h =
      elim (Bool-cases (
        is_locked m.lock_mode
        && leb config.lock_fail_reacquire_threshold (m.geometry_fail_streak + 1))) [
          | inl lost ↦ rw lost refl
          | inr kept ↦ rw kept h
        ]

  Step-IsConsistent : (m m' : Machine L G) → Step m m' → IsConsistent m → IsConsistent m'
  unfolding force_reacquire record_success
  Step-IsConsistent _ _ (reacquired m) h = refl
  Step-IsConsistent _ _ (submitted m frame hint force) h =
      Searched-IsConsistent m (submit_frame locator config m frame hint force).0
        (submit-Searched m frame hint force) h
  Step-IsConsistent _ _ (proposed m g quality used) h = proposed-IsConsistent m g quality used h
  Step-IsConsistent _ _ (succeeded m bbox) h =
      aged m.lock_mode m.geometry_state m.geometry_generation m.locked_geometry_age h
  Step-IsConsistent _ _ (failed m) h = failed-IsConsistent m h

  -- After any calls of force_reacquire, submit_frame, propose_update, record_success and
  -- record_failure on a new machine, with any locator and configuration, a locked machine has a
  -- geometry that is marked as locked and has the machine's generation, and a machine that
  -- acquires has no geometry and the age 0.
  pub Run-IsConsistent : (l : L) (m : Machine L G) → Run (new_machine l) m → IsConsistent m
  Run-IsConsistent l _ begun = refl
  Run-IsConsistent l m' (then_step {m} run step) =
      Step-IsConsistent m m' step (Run-IsConsistent l m run)

  failed_later :
      (m : Machine L G)
      → m.geometry_generation ≤ (record_failure locator config m).0.geometry_generation
  unfolding record_failure
  failed_later m =
      elim (Bool-cases (
        is_locked m.lock_mode
        && leb config.lock_fail_reacquire_threshold (m.geometry_fail_streak + 1))) [
          | inl lost ↦ rw lost (omega arith)
          | inr kept ↦ rw kept (omega arith)
        ]

  proposed_later :
      (m : Machine L G) (geometry : Option (GeometryState G)) (quality used : ℕ)
      → m.geometry_generation
        ≤ (propose_update locator config m geometry quality used).0.geometry_generation
  unfolding propose_update
  proposed_later m none quality used = omega arith
  proposed_later m (some g) quality used =
      elim (Bool-cases (ltb quality config.locator_confidence_threshold)) [
        | inl low ↦ rw low (omega arith)
        | inr high ↦ elim (Bool-cases (used == m.geometry_generation)) [
          | inl now ↦ rw (high, now) (omega arith)
          | inr stale ↦ rw (high, stale) (omega arith)
        ]
      ]

  Step-later : (m m' : Machine L G) → Step m m' → m.geometry_generation ≤ m'.geometry_generation
  unfolding force_reacquire record_success
  Step-later _ _ (reacquired m) = omega arith
  Step-later _ _ (submitted m frame hint force) =
      omega (arith, (submit-Searched m frame hint force).geometry_generation)
  Step-later _ _ (proposed m g quality used) = proposed_later m g quality used
  Step-later _ _ (succeeded m bbox) = omega arith
  Step-later _ _ (failed m) = failed_later m

  Run-later : (m m' : Machine L G) → Run m m' → m.geometry_generation ≤ m'.geometry_generation
  Run-later m _ begun = omega arith
  Run-later m last (then_step {m = before} run step) =
      omega (arith, Run-later m before run, Step-later before last step)

  accepted_now :
      (m : Machine L G) (geometry : Option (GeometryState G)) (quality used : ℕ)
      → (propose_update locator config m geometry quality used).1 ≡ true
      → used < (propose_update locator config m geometry quality used).0.geometry_generation
  unfolding propose_update
  accepted_now m none quality used e = cc
  accepted_now m (some g) quality used e =
      elim (Bool-cases (ltb quality config.locator_confidence_threshold)) [
        | inl low ↦ absurd (refused (rw low refl) e)
        | inr high ↦ elim (Bool-cases (used == m.geometry_generation)) [
          | inl now ↦ rw (high, now) (ground arith)
          | inr stale ↦ absurd (refused (rw (high, stale) refl) e)
        ]
      ]

  -- Once propose_update has accepted a geometry found under a generation, whatever calls follow, a
  -- second proposal under the same generation is refused and changes nothing.
  pub propose_update-stale :
      (m m' : Machine L G) (g g' : Option (GeometryState G)) (quality quality' used : ℕ)
      → (propose_update locator config m g quality used).1 ≡ true
      → Run (propose_update locator config m g quality used).0 m'
      → propose_update locator config m' g' quality' used ≡ (m', false)
  unfolding propose_update
  propose_update-stale m m' g none quality quality' used e run = refl
  propose_update-stale m m' g (some new) quality quality' used e run =
      let before = accepted_now m g quality used e in
      let later = Run-later (propose_update locator config m g quality used).0 m' run in
      let old : (used == m'.geometry_generation) ≡ false = ground (arith, before, later) in
      elim (Bool-cases (ltb quality' config.locator_confidence_threshold)) [
        | inl low ↦ rw low refl
        | inr high ↦ rw (high, old) refl
      ]
