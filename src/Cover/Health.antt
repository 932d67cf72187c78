-- ===== src/Cover/Health.antt =====
-- cover.py: the states that a shutter can be in, and its operations as steps.
pub mod Moves
pub mod Stops
pub mod Timed
pub mod Commanded
pub mod Heard
pub mod Runs
use my_home_stability.Prelude.{
  ℕ, min, ◌≡◌, refl, Bool, true, false, not, ◌&&◌, ◌||◌, Option, none, some, arith, ltb, leb, ◌==◌,
  is_some, if◌then◌else◌,
}
use my_home_stability.Cover.Number.{Float}
use my_home_stability.Cover.State.{
  Movement, Outcome, Handover, AdvancedTimer, movement_timeout, probe_grace, StopTimer, Cover,
}
use my_home_stability.Cover.Movement.{apply_movement_delivery}
use my_home_stability.Cover.Stop.{apply_stop_delivery, movement_deadline, stop_cover}
use my_home_stability.Cover.Echo.{echo_recheck_fires}
use my_home_stability.Cover.Events.{
  CoverEvent, advanced_movement_timeout, advanced_probe_grace, handle_event,
}
use my_home_stability.Cover.Commands.{open_cover, close_cover, set_cover_position, move_tilt}
use my_home_stability.Cover.Lifecycle.{
  ResolvedModel, Kept, new_cover, apply_calibration, added_to_hass,
}

-- The curtain and the slats within their bounds, and the slats open while the curtain is up.
abbrev pub physical : ℕ → ℕ → Bool
physical position slats =
    leb position 100 && (leb slats 100 && (not (ltb 0 position) || slats == 100))

-- Nothing known of the shutter, or such a pair.
abbrev pub known : Option ℕ → Option ℕ → Bool
known none none = true
known (some position) (some slats) = physical position slats
known _ _ = false

-- A pair that a movement starts from, which is known.
abbrev pub placed : Option ℕ → Option ℕ → Bool
placed (some position) (some slats) = physical position slats
placed _ _ = false

module _ {W : Type 0} where
  -- The timer is the one armed last.
  abbrev pub armed : Option (StopTimer W) → ℕ → Bool
  armed none generation = false
  armed (some t) generation = t.generation == generation

  -- A basic shutter at rest: nothing of a movement is left, no timer and no frame of it awaited.
  abbrev pub resting : Cover W → Bool
  resting c = not (
      is_some c.move_started_at
      || is_some c.move_start_position
      || is_some c.move_start_tilt
      || is_some c.target_position
      || is_some c.move_duration
      || is_some c.stop_timer
      || is_some c.move_delivery
      || c.ticking
      || is_some c.advanced_timer)

  -- A basic shutter under way: its clock, its start, its end and its duration are
  -- there, and an advanced one's timer is not.
  abbrev pub under_way : Cover W → Bool
  under_way c =
      is_some c.move_started_at
      && placed c.move_start_position c.move_start_tilt
      && placed c.end_position c.end_tilt
      && is_some c.move_duration
      && not (is_some c.advanced_timer)

  -- It runs with what will end the run: the timer armed last, or a stop of ours that waits for the
  -- bus.
  abbrev pub running : Cover W → Bool
  running c =
      under_way c
      && c.ticking
      && (armed c.stop_timer c.stop_timer_generation || is_some c.pending_stop)

  -- An advanced shutter's safety timer: one as long as it moves, the grace while a probe is out.
  abbrev pub watched : Option Movement → Option (AdvancedTimer W) → Bool → Bool
  watched none none probe = not probe
  watched (some _) (some (movement_timeout _)) probe = not probe
  watched (some _) (some (probe_grace _)) probe = probe
  watched _ _ probe = false

  abbrev pub reporting : Cover W → Bool
  reporting c =
      watched c.moving c.advanced_timer c.advanced_probe_pending
      && not (
          is_some c.move_started_at
          || is_some c.stop_timer
          || is_some c.pending_stop
          || is_some c.move_delivery
          || is_some c.target_position)

  abbrev pub timed : Cover W → Bool
  timed c = if c.advanced then reporting c else (if is_some c.moving then running c else resting c)

  -- A state in which nothing of the bookkeeping contradicts the rest.
  abbrev pub healthy : Cover W → Bool
  healthy c = known c.current_position c.current_tilt && timed c

module _ {W : Type 0} ⦃f : Float W⦄ where
  -- One call of the entity, by a user, the bus, the gateway, a timer or the panel, at any instant
  -- and whatever the gateway answers. A deadline may be of an arming that was replaced.
  pub data CoverStep : Cover W → Cover W → Type 0 where
    by_open : (c : Cover W) (now : W) (answer : Handover W) → CoverStep c (open_cover now answer c)
    by_close :
        (c : Cover W) (now : W) (answer : Handover W) → CoverStep c (close_cover now answer c)
    by_stop : (c : Cover W) (now : W) (answer : Handover W) → CoverStep c (stop_cover now answer c)
    by_position :
        (c : Cover W) (now : W) (answer : Handover W) (position : ℕ)
        → CoverStep c (set_cover_position now answer position c).0
    by_tilt :
        (c : Cover W) (now : W) (answer : Handover W) (target_tilt : ℕ)
        → CoverStep c (move_tilt now answer target_tilt c)
    by_event : (c : Cover W) (now : W) (e : CoverEvent) → CoverStep c (handle_event now e c)
    by_deadline :
        (c : Cover W) (now : W) (generation : ℕ) (answer : Handover W)
        → CoverStep c (movement_deadline now generation answer c)
    by_movement_delivery :
        (c : Cover W) (now : W) (id : ℕ) (outcome : Outcome W)
        → CoverStep c (apply_movement_delivery now id outcome c)
    by_stop_delivery :
        (c : Cover W) (now : W) (id : ℕ) (outcome : Outcome W)
        → CoverStep c (apply_stop_delivery now id outcome c)
    by_recheck : (c : Cover W) (answer : Handover W) → CoverStep c (echo_recheck_fires answer c)
    by_timeout :
        (c : Cover W) (now due command_budget : W) (answer : Handover W)
        → c.advanced_timer ≡ some (movement_timeout due)
        → CoverStep c (advanced_movement_timeout now command_budget answer c)
    by_grace :
        (c : Cover W) (due : W)
        → c.advanced_timer ≡ some (probe_grace due)
        → CoverStep c (advanced_probe_grace c)
    by_calibration : (c : Cover W) (r : ResolvedModel W) → CoverStep c (apply_calibration r c)
    by_restore : (c : Cover W) (kept : Kept) → CoverStep c (added_to_hass kept c)

  -- The states that an entity can come to.
  pub data CoverReach : Cover W → Type 0 where
    created :
        (advanced inverted tilt_ : Bool) (r : ResolvedModel W)
        → CoverReach (new_cover advanced inverted tilt_ r)
    then_by : (c d : Cover W) → CoverReach c → CoverStep c d → CoverReach d
