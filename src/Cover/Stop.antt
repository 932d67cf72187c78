-- ===== src/Cover/Stop.antt =====
-- cover.py: a stop of ours, `_async_send_stop`, `_apply_stop_delivery`, `_continue_to_end_stop`,
-- `async_stop_cover`, and the timer that ends a run, `_async_movement_deadline`. `send` runs to its
-- end without another task in between, as the gateway's does, so `_stop_in_flight` is never seen.
use my_home_stability.Prelude.{
  ℕ, ◌+◌, Bool, true, false, not, ◌||◌, Option, none, some, ◌∷◌, ◌==◌, is_some, if◌then◌else◌,
}
use my_home_stability.Cover.Number.{Float, num, ◌⊞◌, ◌⊟◌, ◌⊘◌, larger, same}
use my_home_stability.Cover.Roll.{or_float}
use my_home_stability.Cover.State.{
  Movement, Outcome, delivered, dropped, Handover, refused, taken, PendingStop, CoverFrame,
  stop_shutter, Cover,
}
use my_home_stability.Cover.Travel.{travel, estimate, both}
use my_home_stability.Cover.Movement.{
  finish_movement, stop_offset, arm_deadline_in, arm_movement_deadline, start_movement,
}

module _ {W : Type 0} ⦃f : Float W⦄ where
  -- a frame that the gateway took
  unfoldable pub hand_over : CoverFrame → Cover W → Cover W
  hand_over frame c = record c { frames = c.frames + 1; sent = frame ∷ c.sent }

  -- `_mark_own_stop`
  unfoldable pub mark_own_stop : Option Movement → W → Cover W → Cover W
  mark_own_stop interrupted at c = record c {
    own_command_at = some at;
    own_command = none;
    stopped_direction = interrupted;
  }

  unfoldable pub continue_from : W → Option Movement → Cover W → Cover W
  continue_from now none c = c
  continue_from now (some direction) c =
      record (start_movement now direction none none false none c) {
        own_command_at = c.own_command_at;
        own_command = c.own_command;
        echo_after_restart = is_some c.own_command_at;
        own_free_run = true;
      }

  -- `_continue_to_end_stop`
  unfoldable pub continue_to_end_stop : W → Cover W → Cover W
  unfolding continue_from
  continue_to_end_stop now c = continue_from now c.moving c

  -- `self._move_started_at is not None and self._move_started_at != pending.move_started_at`
  rebased : Option W → Option W → Bool
  rebased none before = false
  rebased (some now) none = true
  rebased (some now) (some before) = not (same now before)

  -- the motor time of the run that the stop ends
  stopped_after : PendingStop W → W → Bool → Option W → W → W
  stopped_after p at true (some started) latency = at ⊟ started ⊞ latency
  stopped_after p at _ _ latency = p.base_elapsed ⊞ (at ⊟ p.queued_at)

  aged :
      Cover W
      → Option ℕ × Option ℕ
      → Bool
      → W
      → Option Movement
      → Option ℕ
      → Option ℕ
      → Option ℕ × Option ℕ
  aged c frozen true elapsed (some direction) (some position) (some slats) =
      both (travel c.run direction position slats (larger (num 0) elapsed))
  aged c frozen _ elapsed _ _ _ = frozen

  -- where the shutter rests when its stop was written at `at`
  unfoldable pub rest : PendingStop W → W → Cover W → Option ℕ × Option ℕ
  unfolding aged stopped_after rebased
  rest p at c =
      let moved = rebased c.move_started_at p.move_started_at in
      aged c (p.frozen_position, p.frozen_tilt) (f.lt (num 0) (at ⊟ p.queued_at) || moved)
        (stopped_after p at moved c.move_started_at c.run.stop_latency) p.interrupted
        c.move_start_position c.move_start_tilt

  unfoldable pub stop_written : PendingStop W → W → Cover W → Cover W
  unfolding mark_own_stop
  stop_written p at c =
      let (position, slats) = rest p at c in
      mark_own_stop p.interrupted at
        (finish_movement position slats (record c { stop_delivered_at = some at }))

  unfoldable pub settle_stop : W → PendingStop W → Outcome W → Cover W → Cover W
  unfolding stop_written
  settle_stop now p dropped c = continue_to_end_stop now c
  settle_stop now p (delivered at) c = stop_written p at c

  unfoldable pub if_pending : W → ℕ → Outcome W → Option (PendingStop W) → Cover W → Cover W
  unfolding settle_stop
  if_pending now id outcome none c = c
  if_pending now id outcome (some p) c =
      if p.delivery == id then settle_stop now p outcome (record c { pending_stop = none }) else c

  -- `_apply_stop_delivery`
  unfoldable pub apply_stop_delivery : W → ℕ → Outcome W → Cover W → Cover W
  unfolding if_pending
  apply_stop_delivery now id outcome c = if_pending now id outcome c.pending_stop c

  -- `attach`, for the frame of a stop
  unfoldable pub attach_stop : W → ℕ → Option (Outcome W) → Cover W → Cover W
  attach_stop now id none c = c
  attach_stop now id (some outcome) c = apply_stop_delivery now id outcome c

  -- the stop that was taken and now waits
  unfoldable pub waiting : W → Option Movement → Option ℕ × Option ℕ → W → Cover W → Cover W
  unfolding hand_over
  waiting now interrupted (position, slats) base_elapsed c =
      let t = hand_over stop_shutter c in
      record t {
        stop_timer = none;
        stop_timer_generation = t.stop_timer_generation + 1;
        pending_stop = some (record {
          delivery = c.frames;
          interrupted = interrupted;
          frozen_position = position;
          frozen_tilt = slats;
          base_elapsed = base_elapsed;
          queued_at = now;
          move_started_at = c.move_started_at;
        });
      }

  unfoldable pub after_stop :
      W → Handover W → Option Movement → Option ℕ × Option ℕ → W → Cover W → Cover W × Bool
  unfolding waiting attach_stop
  after_stop now refused interrupted frozen base_elapsed c = (c, false)
  after_stop now (taken outcome) interrupted frozen base_elapsed c =
      (attach_stop now c.frames outcome (waiting now interrupted frozen base_elapsed c), true)

  -- `_async_send_stop`
  unfoldable pub send_stop :
      W → Handover W → Option Movement → Option ℕ × Option ℕ → W → Cover W → Cover W × Bool
  unfolding after_stop
  send_stop now answer interrupted frozen base_elapsed c =
      after_stop now answer interrupted frozen base_elapsed
        (record c { stop_delivered_at = none; stop_status_at = none })

  -- a stop that was refused leaves a free run
  unfoldable pub or_continue : W → Cover W × Bool → Cover W
  or_continue now (c, true) = c
  or_continue now (c, false) = continue_to_end_stop now c

  -- the end of a run whose clock has come to it
  unfoldable pub end_run : W → Handover W → Cover W → Cover W
  unfolding send_stop or_continue
  end_run now answer c =
      if is_some c.target_position
      then or_continue now (
          send_stop now answer c.moving (c.end_position, c.end_tilt)
            (or_float c.move_duration (num 0)) c)
      else finish_movement c.end_position c.end_tilt c

  -- the end, unless the clock was moved under the timer (`DEADLINE_SLACK_SEC`)
  unfoldable pub end_or_rearm : W → Handover W → Option W → Option W → Cover W → Cover W
  unfolding end_run
  end_or_rearm now answer (some started) (some duration) c =
      if f.lt (num 1 ⊘ num 100) (started ⊞ (duration ⊟ stop_offset c) ⊟ now)
      then arm_movement_deadline now started duration c
      else end_run now answer c
  end_or_rearm now answer _ _ c = end_run now answer c

  -- `_async_movement_deadline`
  unfoldable pub movement_deadline : W → ℕ → Handover W → Cover W → Cover W
  unfolding end_or_rearm
  movement_deadline now generation answer c =
      let t : Cover W = record c { stop_timer = none } in
      if not (generation == c.stop_timer_generation)
      then c
      else if is_some c.move_delivery
      then arm_deadline_in now (or_float c.move_duration (num 0)) t
      else end_or_rearm now answer t.move_started_at t.move_duration t

  unfoldable pub since : W → Option W → W
  since now none = num 0
  since now (some started) = now ⊟ started

  unfoldable pub stop_advanced : Handover W → Cover W → Cover W
  unfolding hand_over
  stop_advanced refused c = c
  stop_advanced (taken _) c = hand_over stop_shutter c

  -- `async_stop_cover`
  unfoldable pub stop_cover : W → Handover W → Cover W → Cover W
  unfolding stop_advanced send_stop since
  stop_cover now answer c =
      if c.advanced
      then stop_advanced answer c
      else (send_stop now answer c.moving (estimate now c.run.stop_latency c)
          (since now c.move_started_at ⊞ c.run.stop_latency) c).0
