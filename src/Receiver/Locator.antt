-- ===== src/Receiver/Locator.antt =====
-- receiver/locator/state_machine.py: the machine that acquires and keeps the geometry of the
-- sender's frame. The locator, its region of interest and the conversion of what it finds are
-- arguments; a threaded value of the type `L` is the locator's state. Confidences are compared
-- only, so they are numbers in one fixed unit.
pub mod Invariant
pub mod Streak
use screen_airdrop.Prelude.{
  ℕ, ◌+◌, Bool, true, false, ◌||◌, ◌&&◌, Option, none, some, ◌==◌, ltb, leb, not, if◌then◌else◌,
}

pub data LockMode : Type 0 where
  acquire locked : LockMode

pub data SearchPolicy : Type 0 where
  full roi_only roi_then_expand : SearchPolicy

unfoldable pub is_locked : LockMode → Bool
is_locked acquire = false
is_locked locked = true

unfoldable pub is_full : SearchPolicy → Bool
is_full full = true
is_full _ = false

unfoldable pub expands : SearchPolicy → Bool
expands roi_then_expand = true
expands _ = false

-- The fields of GeometryState that the machine reads or writes; `details` are the others.
pub record GeometryState (G : Type 0) : Type 0 where
  pub geometry_generation : ℕ
  pub lock_mode : LockMode
  pub details : G

pub record Roi : Type 0 where
  pub left : ℕ
  pub top : ℕ
  pub right : ℕ
  pub bottom : ℕ

-- What the machine calls: `locate` of a frame, which gives a result with a `quad_src` or none, and
-- the operations on the region of interest.
pub record Locator (L F R : Type 0) : Type 0 where
  pub locate : L → F → L × Option R
  pub get_current_roi : L → Option Roi
  pub reset_roi : L → L
  pub update_roi_from_bbox : L → Roi → L

pub record Machine (L G : Type 0) : Type 0 where
  pub locator_state : L
  pub geometry_state : Option (GeometryState G)
  pub geometry_generation : ℕ
  pub geometry_fail_streak : ℕ
  pub lock_mode : LockMode
  pub locked_geometry_age : ℕ

pub record Config (F R G : Type 0) : Type 0 where
  pub search_policy : SearchPolicy
  pub fixed_roi : Option Roi
  pub locate_to_geometry : Option (R → ℕ → Option (GeometryState G))
  pub locator_confidence_threshold : ℕ
  pub lock_fail_reacquire_threshold : ℕ

pub record GeometryDecision (G : Type 0) : Type 0 where
  pub state : LockMode
  pub accepted_geometry : Option (GeometryState G)
  pub reuse_first : Bool
  pub should_reacquire : Bool
  pub reacquire_attempted : Bool
  pub candidate_geometry : Option (GeometryState G)
  pub search_roi : Option Roi
  pub trusted_geometry_age_frames : ℕ

-- __init__
abbrev pub new_machine : {L G : Type 0} → L → Machine L G
new_machine l = record {
  locator_state = l;
  geometry_state = none;
  geometry_generation = 0;
  geometry_fail_streak = 0;
  lock_mode = acquire;
  locked_geometry_age = 0;
}

module _ {L F R G : Type 0} (locator : Locator L F R) (config : Config F R G) where
  unfoldable pub force_reacquire : Machine L G → Machine L G
  force_reacquire m = record {
    locator_state = locator.reset_roi m.locator_state;
    geometry_state = none;
    geometry_generation = m.geometry_generation + 1;
    geometry_fail_streak = 0;
    lock_mode = acquire;
    locked_geometry_age = 0;
  }

  -- `roi_hint or self._locator.get_current_roi()`: a hint that is given is a tuple, so it is true.
  unfoldable pub search_roi : Machine L G → Option Roi → Option Roi
  unfolding is_full
  search_roi m roi_hint = elim config.fixed_roi [
    | some roi ↦ some roi
    | none ↦
        if is_full config.search_policy
        then none
        else elim roi_hint [ some roi ↦ some roi | none ↦ locator.get_current_roi m.locator_state ]
  ]

  -- The second try of _locate_with_policy, after a first that found nothing.
  unfoldable pub retry : Machine L G → F → Machine L G × Option R
  unfolding expands
  retry m frame = elim (locator.get_current_roi m.locator_state) [
    | none ↦ (m, none)
    | some roi ↦
        if expands config.search_policy
        then (let found = locator.locate (locator.reset_roi m.locator_state) frame in
            (record m { locator_state = found.0 }, found.1))
        else (m, none)
  ]

  unfoldable pub locate_with_policy : Machine L G → F → Machine L G × Option R
  unfolding retry
  locate_with_policy m frame =
      let found = locator.locate m.locator_state frame in
      let after = record m { locator_state = found.0 } in
      elim found.1 [ some result ↦ (after, some result) | none ↦ retry after frame ]

  -- The trusted geometry: that of a locked machine.
  unfoldable pub trusted : Machine L G → Option (GeometryState G)
  unfolding is_locked
  trusted m = if is_locked m.lock_mode then m.geometry_state else none

  -- The search for a candidate: whether it was made, the machine after it, and what it found.
  unfoldable pub search_candidate : Machine L G → F → Machine L G × Bool × Option (GeometryState G)
  unfolding locate_with_policy
  search_candidate m frame = elim config.locate_to_geometry [
    | none ↦ (m, false, none)
    | some convert ↦
        let found = locate_with_policy m frame in
        (
          found.0,
          true,
          elim found.1 [ none ↦ none | some result ↦ convert result (m.geometry_generation + 1) ],
        )
  ]

  unfoldable pub reuse : Machine L G → GeometryState G → Option Roi → GeometryDecision G
  reuse m geometry roi = record {
    state = m.lock_mode;
    accepted_geometry = some geometry;
    reuse_first = true;
    should_reacquire = false;
    reacquire_attempted = false;
    candidate_geometry = none;
    search_roi = roi;
    trusted_geometry_age_frames = m.locked_geometry_age;
  }

  -- submit_frame, when no geometry is reused.
  unfoldable pub submit_search :
      Machine L G → F → Option Roi → Bool → Machine L G × GeometryDecision G
  unfolding search_candidate trusted is_locked
  submit_search m frame roi force =
      let (after, attempted, candidate) = search_candidate m frame in
      (
        after,
        record {
          state = after.lock_mode;
          accepted_geometry = trusted m;
          reuse_first = false;
          should_reacquire = not (is_locked after.lock_mode) || force;
          reacquire_attempted = attempted;
          candidate_geometry = candidate;
          search_roi = roi;
          trusted_geometry_age_frames = after.locked_geometry_age;
        },
      )

  unfoldable pub submit_frame :
      Machine L G → F → Option Roi → Bool → Machine L G × GeometryDecision G
  unfolding search_roi trusted reuse submit_search
  submit_frame m frame roi_hint force = elim (trusted m) [
    | none ↦ submit_search m frame (search_roi m roi_hint) force
    | some geometry ↦
        if force
        then submit_search m frame (search_roi m roi_hint) force
        else (m, reuse m geometry (search_roi m roi_hint))
  ]

  unfoldable pub propose_update :
      Machine L G → Option (GeometryState G) → ℕ → ℕ → Machine L G × Bool
  propose_update m none decode_quality used = (m, false)
  propose_update m (some proposed) decode_quality used =
      if ltb decode_quality config.locator_confidence_threshold
      then (m, false)
      else (if used == m.geometry_generation
          then (
            record m {
              geometry_generation = m.geometry_generation + 1;
              lock_mode = locked;
              geometry_state = some (record proposed {
                geometry_generation = m.geometry_generation + 1;
                lock_mode = locked;
              });
              locked_geometry_age = 0;
            },
            true,
          )
          else (m, false))

  unfoldable pub record_success : Machine L G → Option Roi → Machine L G
  unfolding is_locked
  record_success m bbox = record m {
    geometry_fail_streak = 0;
    locked_geometry_age =
        if is_locked m.lock_mode then m.locked_geometry_age + 1 else m.locked_geometry_age;
    locator_state = elim bbox [
      | none ↦ m.locator_state
      | some box ↦ locator.update_roi_from_bbox m.locator_state box
    ];
  }

  unfoldable pub record_failure : Machine L G → Machine L G × Bool
  unfolding is_locked
  record_failure m =
      if is_locked m.lock_mode
        && leb config.lock_fail_reacquire_threshold (m.geometry_fail_streak + 1)
      then (
        record m {
          lock_mode = acquire;
          geometry_state = none;
          geometry_generation = m.geometry_generation + 1;
          geometry_fail_streak = 0;
          locked_geometry_age = 0;
        },
        true,
      )
      else (record m { geometry_fail_streak = m.geometry_fail_streak + 1 }, false)
