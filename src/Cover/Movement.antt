-- ===== src/Cover/Movement.antt =====
-- cover.py: a movement from its start to its end, `_start_movement`, `_finish_movement`, the
-- timers, and the two corrections of its clock, `_apply_movement_delivery` and `_apply_motor_start`.
use my_home_stability.Prelude.{
  ℕ, ◌+◌, Bool, true, false, not, ◌&&◌, ◌||◌, Option, none, some, ltb, ◌==◌, is_some, if◌then◌else◌,
}
use my_home_stability.Cover.Number.{Float, num, ◌⊞◌, ◌⊟◌, ◌⊘◌, larger}
use my_home_stability.Cover.State.{Movement, opening, closing, Outcome, delivered, dropped, Cover}
use my_home_stability.Cover.Travel.{normalise_whole, travel_time, estimate}

-- a frame that was handed over, and its outcome where `send` has brought it
abbrev pub Delivery : Type 0 → Type 0
Delivery W = ℕ × Option (Outcome W)

unfoldable pub is_opening : Movement → Bool
is_opening opening = true
is_opening closing = false

unfoldable pub same_movement : Movement → Movement → Bool
same_movement opening opening = true
same_movement closing closing = true
same_movement _ _ = false

-- `self._moving == direction`
unfoldable pub runs : Option Movement → Movement → Bool
runs none direction = false
runs (some m) direction = same_movement m direction

-- `delivery is self._move_delivery`
unfoldable pub is_frame : Option ℕ → ℕ → Bool
is_frame none id = false
is_frame (some n) id = n == id

or_nat : Option ℕ → ℕ → ℕ
or_nat none d = d
or_nat (some n) d = n

-- where a movement starts from, while nothing is known or the slats are not
unfoldable pub start_from : Movement → Option ℕ × Option ℕ → ℕ × ℕ
unfolding or_nat
start_from opening (none, _) = (0, 0)
start_from closing (none, _) = (100, 100)
start_from direction (some position, slats) =
    (position, or_nat slats (if ltb 0 position then 100 else 0))

-- where it ends
unfoldable pub end_of : Movement → Option ℕ → Option ℕ → ℕ × ℕ
unfolding or_nat
end_of opening none target_tilt = (100, 100)
end_of closing none target_tilt = (0, 0)
end_of direction (some target) target_tilt = (target, or_nat target_tilt 100)

module _ {W : Type 0} ⦃f : Float W⦄ where
  -- `_cancel_echo_recheck`, `_cancel_advanced_timer`, `_cancel_timers`
  unfoldable pub cancel_echo_recheck : Cover W → Cover W
  cancel_echo_recheck c = record c { echo_recheck = none }

  unfoldable pub cancel_advanced_timer : Cover W → Cover W
  cancel_advanced_timer c = record c { advanced_timer = none; advanced_probe_pending = false }

  unfoldable pub cancel_timers : Cover W → Cover W
  unfolding cancel_echo_recheck cancel_advanced_timer
  cancel_timers c = cancel_advanced_timer (
      cancel_echo_recheck (record c {
        move_delivery = none;
        pending_stop = none;
        stop_timer = none;
        stop_timer_generation = c.stop_timer_generation + 1;
        ticking = false;
      }))

  -- the frozen position, where there is one
  unfoldable pub freeze : Option ℕ → Option ℕ → Cover W → Cover W
  unfolding or_nat
  freeze none slats c = c
  freeze (some position) slats c =
      let (frozen_position, frozen_tilt) = normalise_whole c.run position (or_nat slats 100) in
      record c {
        current_position = some frozen_position;
        current_tilt = some frozen_tilt;
        is_closed = some (frozen_position == 0 && (not c.travel.has_tilt || frozen_tilt == 0));
      }

  -- the hook of a calibration that waits for the end
  unfoldable pub run_hook : Cover W → Cover W
  run_hook c = record c {
    movement_end_event = true;
    calib_end_hook = false;
    hooks_run = if c.calib_end_hook then c.hooks_run + 1 else c.hooks_run;
  }

  -- `_finish_movement`
  unfoldable pub finish_movement : Option ℕ → Option ℕ → Cover W → Cover W
  unfolding cancel_timers freeze run_hook
  finish_movement position slats c =
      let t = cancel_timers c in
      run_hook (
        freeze position slats (record t {
          moving = none;
          move_started_at = none;
          move_start_position = none;
          move_start_tilt = none;
          target_position = none;
          end_position = none;
          end_tilt = none;
          own_free_run = false;
          echo_after_restart = false;
          move_duration = none;
          run = t.travel.movement;
        }))

  -- `_stop_offset`
  unfoldable pub stop_offset : Cover W → W
  stop_offset c = if is_some c.target_position then c.run.stop_latency else num 0

  -- `_arm_deadline_in`
  unfoldable pub arm_deadline_in : W → W → Cover W → Cover W
  arm_deadline_in now delay c =
      let generation = c.stop_timer_generation + 1 in
      record c {
        stop_timer_generation = generation;
        stop_timer = some (record { generation = generation; due = now ⊞ larger (num 0) delay });
      }

  -- `_arm_movement_deadline`
  unfoldable pub arm_movement_deadline : W → W → W → Cover W → Cover W
  unfolding arm_deadline_in stop_offset
  arm_movement_deadline now started duration c =
      arm_deadline_in now (started ⊞ (duration ⊟ stop_offset c) ⊟ now) c

  -- a frame that never reached the bus: nothing moves
  unfoldable pub movement_dropped : Cover W → Cover W
  movement_dropped c = record (finish_movement c.move_start_position c.move_start_tilt c) {
    own_command = none;
    own_command_at = none;
    stopped_direction = none;
  }

  -- the deadline of a run that has a duration
  unfoldable pub arm_where_timed : W → W → Option W → Cover W → Cover W
  arm_where_timed now started none c = c
  arm_where_timed now started (some duration) c = arm_movement_deadline now started duration c

  -- the deadline of a clock that has moved, unless a stop of ours ends the run
  unfoldable pub rearm : W → W → Option W → Cover W → Cover W
  unfolding arm_where_timed
  rearm now started duration c =
      if is_some c.pending_stop then c else arm_where_timed now started duration c

  -- the clock of a movement whose frame was written at `at`, and that then starts at `started`
  unfoldable pub clocked : W → W → W → W → Cover W → Cover W
  unfolding rearm
  clocked now at started clock c =
      let own_at =
        if is_some c.own_command && is_some c.own_command_at then some at else c.own_command_at in
      let t : Cover W = record c { move_delivered_at = some at; own_command_at = own_at } in
      if f.le started clock
      then t
      else rearm now started t.move_duration (record t { move_started_at = some started })

  unfoldable pub movement_written : W → W → W → Cover W → Cover W
  unfolding clocked
  movement_written now at clock c = clocked now at (at ⊞ c.run.start_delay) clock c

  unfoldable pub settle_movement : W → Outcome W → Option Movement → Option W → Cover W → Cover W
  unfolding movement_dropped movement_written
  settle_movement now outcome none clock c = c
  settle_movement now outcome (some _) none c = c
  settle_movement now dropped (some _) (some clock) c = movement_dropped c
  settle_movement now (delivered at) (some _) (some clock) c = movement_written now at clock c

  -- `_apply_movement_delivery`
  unfoldable pub apply_movement_delivery : W → ℕ → Outcome W → Cover W → Cover W
  unfolding settle_movement
  apply_movement_delivery now id outcome c =
      if is_frame c.move_delivery id
      then settle_movement now outcome c.moving c.move_started_at
          (record c { move_delivery = none })
      else c

  -- `attach`, for the frame of a movement
  unfoldable pub attach_movement : W → Option (Delivery W) → Cover W → Cover W
  attach_movement now none c = c
  attach_movement now (some (id, none)) c = record c { move_delivery = some id }
  attach_movement now (some (id, some outcome)) c =
      apply_movement_delivery now id outcome (record c { move_delivery = some id })

  -- the state of a movement that starts, before its timer
  unfoldable pub begun : W → Movement → Option ℕ → Option ℕ → Bool → Bool → Cover W → Cover W
  begun now direction target_position target_tilt own_command_ has_frame c =
      let known = estimate now (num 0) c in
      let t = cancel_timers c in
      let model = t.travel.movement in
      let (p, s) = start_from direction known in
      let (position, slats) = normalise_whole model p s in
      let (ep, es) = end_of direction target_position target_tilt in
      let (end_p, end_s) = normalise_whole model ep es in
      record t {
        run = model;
        move_start_position = some position;
        move_start_tilt = some slats;
        move_started_at = some (now ⊞ (if has_frame then t.travel.movement.start_delay else num 0));
        move_delivered_at = none;
        motor_started_at = none;
        motor_start_event = false;
        movement_end_event = false;
        moving = some direction;
        target_position = target_position;
        own_command_at = if own_command_ then some now else none;
        own_command = if own_command_ then some direction else none;
        stopped_direction = none;
        own_free_run = own_command_ && not (is_some target_position);
        echo_after_restart = false;
        end_position = some end_p;
        end_tilt = some end_s;
        move_duration = some (travel_time model direction position slats end_p end_s);
      }

  -- the timer of a movement that has begun, unless it is over already
  unfoldable pub set_off : W → Option (Delivery W) → Option W → Option W → Cover W → Cover W
  unfolding attach_movement
  set_off now delivery (some started) (some duration) c =
      if f.le duration (num 0)
      then finish_movement c.end_position c.end_tilt c
      else attach_movement now delivery
          (record (arm_movement_deadline now started duration c) { ticking = true })
  set_off now delivery _ _ c = c

  -- `_start_movement`
  unfoldable pub start_movement :
      W → Movement → Option ℕ → Option ℕ → Bool → Option (Delivery W) → Cover W → Cover W
  unfolding begun set_off
  start_movement now direction target_position target_tilt own_command_ delivery c =
      let t = begun now direction target_position target_tilt own_command_ (is_some delivery) c in
      set_off now delivery t.move_started_at t.move_duration t

  -- the motor starts now
  unfoldable pub motor_started : W → Option W → Cover W → Cover W
  unfolding arm_where_timed
  motor_started now duration c = arm_where_timed now now duration (record c {
    motor_started_at = some now;
    move_started_at = some now;
    motor_start_event = true;
  })

  unfoldable pub answer_of : W → Option W → Option W → Cover W → Cover W
  unfolding motor_started
  answer_of now (some _) at c = c
  answer_of now none none c = c
  answer_of now none (some at) c =
      let age = now ⊟ at in
      if is_some c.pending_stop
      then c
      else if f.lt (c.run.start_delay ⊞ num 3 ⊘ num 2) age
      then c
      else if f.lt age (num 15 ⊘ num 100)
      then c
      else motor_started now c.move_duration c

  -- `_apply_motor_start`
  unfoldable pub apply_motor_start : W → Cover W → Cover W
  unfolding answer_of
  apply_motor_start now c = answer_of now c.motor_started_at c.move_delivered_at c
