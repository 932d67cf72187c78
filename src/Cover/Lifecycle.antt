-- ===== src/Cover/Lifecycle.antt =====
-- cover.py: a shutter's beginning, what it keeps over a restart, and `async_apply_calibration`.
use my_home_stability.Prelude.{
  ℕ, Bool, true, false, ◌||◌, String, Option, none, some, [], ltb, is_some, if◌then◌else◌,
}
use my_home_stability.Cover.Number.{Float, num}
use my_home_stability.Cover.State.{Cover}
use my_home_stability.Cover.Travel.{TravelValues, adopt_travel_model, estimate}
use my_home_stability.Cover.Movement.{finish_movement}

-- the parts of a `ResolvedCover` that the entity reads
pub record ResolvedModel (W : Type 0) : Type 0 where
  pub values : TravelValues W
  pub height : Option W
  pub profile : Option String
  pub source : String

unfoldable pub source_or_yaml : String → String
source_or_yaml String.[] = "yaml"
source_or_yaml source = source

-- what Home Assistant kept: the extra data, and the last state with its two attributes
pub record Kept : Type 0 where
  pub extra : Option (Option ℕ × Option ℕ)
  pub last : Option (Option ℕ × Option ℕ × Option Bool)

-- the position of an old state: its attribute, else "closed" or "open"
unfoldable pub old_position : Option ℕ → Option Bool → Option ℕ
old_position (some p) state = some p
old_position none (some true) = some 0
old_position none (some false) = some 100
old_position none none = none

unfoldable pub from_last : Option (Option ℕ × Option ℕ × Option Bool) → Option ℕ × Option ℕ
from_last none = (none, none)
from_last (some (position, slats, closed)) = (old_position position closed, slats)

unfoldable pub from_kept :
    Option (Option ℕ × Option ℕ) → Option (Option ℕ × Option ℕ × Option Bool) → Option ℕ × Option ℕ
unfolding from_last
from_kept (some (some position, slats)) last = (some position, slats)
from_kept _ last = from_last last

module _ {W : Type 0} ⦃f : Float W⦄ where
  -- `__init__`, as far as the movement goes
  unfoldable pub new_cover : Bool → Bool → Bool → ResolvedModel W → Cover W
  new_cover advanced inverted tilt_ r =
      let model = adopt_travel_model advanced tilt_ r.values in
      record {
        advanced = advanced;
        inverted = inverted;
        tilt = tilt_;
        height = r.height;
        profile = r.profile;
        calibration_source = source_or_yaml r.source;
        travel = model;
        run = model.movement;
        current_position = none;
        current_tilt = none;
        is_closed = none;
        moving = none;
        move_started_at = none;
        move_start_position = none;
        move_start_tilt = none;
        target_position = none;
        own_command_at = none;
        own_command = none;
        stopped_direction = none;
        own_free_run = false;
        echo_after_restart = false;
        move_duration = none;
        end_position = none;
        end_tilt = none;
        stop_timer = none;
        stop_timer_generation = 0;
        ticking = false;
        echo_recheck = none;
        advanced_timer = none;
        advanced_probe_pending = false;
        move_delivery = none;
        pending_stop = none;
        direction_delivery = none;
        stop_delivered_at = none;
        move_delivered_at = none;
        motor_started_at = none;
        stop_status_at = none;
        motor_start_event = false;
        movement_end_event = false;
        calib_end_hook = false;
        hooks_run = 0;
        calibrating = 0;
        frames = 0;
        sent = [];
      }

  -- `async_apply_calibration`
  unfoldable pub apply_calibration : ResolvedModel W → Cover W → Cover W
  apply_calibration r c =
      let model = adopt_travel_model c.advanced c.tilt r.values in
      record c {
        height = r.height;
        profile = r.profile;
        calibration_source = source_or_yaml r.source;
        travel = model;
        run = if is_some c.moving then c.run else model.movement;
      }

  -- `extra_restore_state_data`
  unfoldable pub extra_restore_state_data : W → Cover W → Option (Option ℕ × Option ℕ)
  extra_restore_state_data now c = if c.advanced then none else some (estimate now (num 0) c)

  unfoldable pub restored_at : Option ℕ × Option ℕ → Cover W → Cover W
  restored_at (none, slats) c = c
  restored_at (some position, some slats) c = finish_movement (some position) (some slats) c
  restored_at (some position, none) c =
      finish_movement (some position) (some (if ltb 0 position then 100 else 0)) c

  -- `_async_restore_position`
  unfoldable pub restore_position : Kept → Cover W → Cover W
  unfolding restored_at from_kept
  restore_position kept c = restored_at (from_kept kept.extra kept.last) c

  -- `async_added_to_hass`, up to the registration
  unfoldable pub added_to_hass : Kept → Cover W → Cover W
  unfolding restore_position
  added_to_hass kept c =
      if c.advanced || is_some c.current_position then c else restore_position kept c
