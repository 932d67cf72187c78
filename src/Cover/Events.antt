-- ===== src/Cover/Events.antt =====
-- cover.py: what the bus says, `handle_event`, and the safety timer of an advanced actuator.
use my_home_stability.Prelude.{
  ℕ, ◌-◌, Bool, true, false, not, ◌&&◌, Option, none, some, is_some, if◌then◌else◌,
}
use my_home_stability.Cover.Number.{Float, num, ◌⊞◌, ◌⊟◌, ◌⊠◌, ◌⊘◌, same}
use my_home_stability.Cover.State.{
  Movement, opening, closing, Handover, movement_timeout, probe_grace, Cover,
}
use my_home_stability.Cover.Travel.{estimate}
use my_home_stability.Cover.Movement.{
  runs, cancel_advanced_timer, finish_movement, start_movement, apply_motor_start,
}
use my_home_stability.Cover.Echo.{is_echo, update}

-- what OWNd reads of a frame of a shutter
pub record CoverEvent : Type 0 where
  pub is_opening : Option Bool
  pub is_closing : Option Bool
  pub current_position : Option ℕ

-- the four cases of `handle_event` by what the frame says, after `inverted`
pub data Says : Type 0 where
  says : Movement → Says
  stopped : Says
  unclear : Says

unfoldable pub reading : Option Bool → Option Bool → Says
reading (some true) _ = says opening
reading _ (some true) = says closing
reading (some false) (some false) = stopped
reading _ _ = unclear

unfoldable pub said : Bool → CoverEvent → Says
said inverted e =
    if inverted then reading e.is_closing e.is_opening else reading e.is_opening e.is_closing

module _ {W : Type 0} ⦃f : Float W⦄ where
  -- `_set_advanced_direction`
  unfoldable pub set_advanced_direction : W → Option Movement → Cover W → Cover W
  set_advanced_direction now direction c =
      let t = cancel_advanced_timer (record c { moving = direction }) in
      if is_some direction
      then record t {
        advanced_timer = some (movement_timeout (now ⊞ t.travel.advanced_move_timeout));
      }
      else t

  -- `_async_advanced_movement_timeout`; the grace is `command_budget` of the gateway and 2 s
  unfoldable pub advanced_movement_timeout : W → W → Handover W → Cover W → Cover W
  advanced_movement_timeout now command_budget answer c =
      let t : Cover W = record c { advanced_timer = none } in
      if is_some c.moving
      then update answer (record t {
        advanced_probe_pending = true;
        advanced_timer = some (probe_grace (now ⊞ (command_budget ⊞ num 2)));
      })
      else t

  -- `_async_advanced_probe_grace`
  unfoldable pub advanced_probe_grace : Cover W → Cover W
  advanced_probe_grace c =
      let t : Cover W = record c { advanced_timer = none } in
      if c.advanced_probe_pending && is_some c.moving
      then record t { advanced_probe_pending = false; moving = none }
      else t

  -- `_reached_end_stop` (`END_STOP_MIN_FRACTION`)
  unfoldable pub reached_end_stop : W → Option W → Option W → Bool
  reached_end_stop now (some started) (some duration) =
      not (same duration (num 0)) && f.le (num 3 ⊘ num 4 ⊠ duration) (now ⊟ started)
  reached_end_stop now _ _ = false

  -- "stopped", of a basic actuator
  unfoldable pub on_stopped : W → Cover W × Bool → Cover W
  on_stopped now (c, true) = c
  on_stopped now (c, false) =
      let t : Cover W = record c { stop_status_at = some now } in
      let known = estimate now (num 0) t in
      if t.own_free_run
        && (is_some t.moving && reached_end_stop now t.move_started_at t.move_duration)
      then finish_movement t.end_position t.end_tilt t
      else finish_movement known.0 known.1 t

  unfoldable pub unless_echo : W → Movement → Cover W × Bool → Cover W
  unless_echo now direction (c, true) = c
  unless_echo now direction (c, false) = start_movement now direction none none false none c

  -- a plain frame, of a basic actuator
  unfoldable pub on_plain : W → Says → Cover W → Cover W
  unfolding on_stopped unless_echo
  on_plain now (says direction) c =
      if runs c.moving direction
      then apply_motor_start now c
      else unless_echo now direction (is_echo now (some direction) c)
  on_plain now stopped c = on_stopped now (is_echo now none c)
  on_plain now unclear c = c

  -- a plain frame, of an advanced actuator
  unfoldable pub on_advanced : W → Says → Cover W → Cover W
  unfolding set_advanced_direction
  on_advanced now (says direction) c = set_advanced_direction now (some direction) c
  on_advanced now stopped c = set_advanced_direction now none c
  on_advanced now unclear c = c

  unfoldable pub on_reported : W → Says → Cover W → Cover W
  unfolding set_advanced_direction
  on_reported now (says direction) c = set_advanced_direction now (some direction) c
  on_reported now stopped c = c
  on_reported now unclear c = c

  unfoldable pub on_position : W → Says → Option ℕ → Cover W → Cover W
  unfolding on_reported
  on_position now what none c = if c.advanced then on_advanced now what c else on_plain now what c
  on_position now what (some p) c =
      if not c.advanced
      then c
      else on_reported now what (finish_movement (some (if c.inverted then 100 - p else p)) none c)

  -- `handle_event`
  unfoldable pub handle_event : W → CoverEvent → Cover W → Cover W
  unfolding on_position said
  handle_event now e c = on_position now (said c.inverted e) e.current_position c
