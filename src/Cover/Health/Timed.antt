-- ===== src/Cover/Health/Timed.antt =====
-- cover.py: what the timer that ends a run leaves.
use my_home_stability.Prelude.{
  ℕ, ◌≡◌, refl, Bool, true, false, not, Option, none, some, arith, ◌==◌, is_some, if-split, if-both,
  if◌then◌else◌,
}
use my_home_stability.Cover.Number.{Float, num, ◌⊞◌, ◌⊟◌, ◌⊘◌}
use my_home_stability.Cover.Roll.{or_float}
use my_home_stability.Cover.State.{Movement, Handover, refused, taken, Cover}
use my_home_stability.Cover.Movement.{
  finish_movement, stop_offset, arm_deadline_in, arm_movement_deadline,
}
use my_home_stability.Cover.Stop.{
  continue_to_end_stop, after_stop, send_stop, or_continue, end_run, end_or_rearm,
  movement_deadline,
}
use my_home_stability.Cover.Health.{known, healthy}
use my_home_stability.Cover.Health.Moves.{finish_movement-healthy, healthy-known, arm-healthy}
use my_home_stability.Cover.Health.Stops.{
  Settles, continue_from-healthy, stoppable, healthy-stoppable, after_stop-healthy,
}

module _ {W : Type 0} ⦃f : Float W⦄ where
  stoppable-known :
      (c : Cover W) → stoppable c ≡ true → known c.current_position c.current_tilt ≡ true
  stoppable-known c s = ground (arith, s)

  stoppable-Settles :
      (m : Option Movement) (c : Cover W)
      → c.moving ≡ m
      → c.stop_timer ≡ none
      → stoppable c ≡ true
      → Settles c m
  stoppable-Settles none c e t s = ground (arith, s, e, t)
  stoppable-Settles (some direction) c e t s = ground (arith, s, e, t)

  stop_or_continue-healthy :
      (now : W) (answer : Handover W) (frozen : Option ℕ × Option ℕ) (base : W) (c : Cover W)
      → stoppable c ≡ true
      → c.stop_timer ≡ none
      → healthy (or_continue now (send_stop now answer c.moving frozen base c)) ≡ true
  unfolding send_stop or_continue after_stop continue_to_end_stop
  stop_or_continue-healthy now refused frozen base c s t =
      continue_from-healthy now c.moving
        (record c { stop_delivered_at = none; stop_status_at = none })
        (stoppable-Settles c.moving c refl t s)
  stop_or_continue-healthy now (taken outcome) frozen base c s t =
      after_stop-healthy now outcome c.moving frozen base
        (record c { stop_delivered_at = none; stop_status_at = none }) s

  end_run-healthy :
      (now : W) (answer : Handover W) (c : Cover W)
      → stoppable c ≡ true
      → c.stop_timer ≡ none
      → healthy (end_run now answer c) ≡ true
  unfolding end_run
  end_run-healthy now answer c s t =
      let frozen : Option ℕ × Option ℕ = (c.end_position, c.end_tilt) in
      let base = or_float c.move_duration (num 0) in
      if-both (λ d. healthy d ≡ true) (is_some c.target_position)
        (or_continue now (send_stop now answer c.moving frozen base c))
        (finish_movement c.end_position c.end_tilt c)
        (stop_or_continue-healthy now answer frozen base c s t)
        (finish_movement-healthy c c.end_position c.end_tilt (stoppable-known c s))

  -- The clock of a shutter that runs is armed anew.
  rearmed-healthy :
      (now started duration : W) (c : Cover W)
      → stoppable c ≡ true
      → c.move_started_at ≡ some started
      → healthy (arm_movement_deadline now started duration c) ≡ true
  rearmed-healthy now started duration c s e =
      arm-healthy now started duration c (ground (arith, s)) (stoppable-known c s)
        (ground (arith, s, e)) (ground (arith, s, e)) (ground (arith, s, e))

  end_or_rearm-healthy :
      (now : W) (answer : Handover W) (started duration : Option W) (c : Cover W)
      → stoppable c ≡ true
      → c.stop_timer ≡ none
      → c.move_started_at ≡ started
      → healthy (end_or_rearm now answer started duration c) ≡ true
  unfolding end_or_rearm
  end_or_rearm-healthy now answer none duration c s t e = end_run-healthy now answer c s t
  end_or_rearm-healthy now answer (some started) none c s t e = end_run-healthy now answer c s t
  end_or_rearm-healthy now answer (some started) (some duration) c s t e =
      if-both (λ d. healthy d ≡ true)
        (f.lt (num 1 ⊘ num 100) (started ⊞ (duration ⊟ stop_offset c) ⊟ now))
        (arm_movement_deadline now started duration c) (end_run now answer c)
        (rearmed-healthy now started duration c s e) (end_run-healthy now answer c s t)

  -- The timer that fired while the movement's own frame is still queued.
  late-healthy :
      (now delay : W) (c : Cover W)
      → healthy c ≡ true
      → is_some c.move_delivery ≡ true
      → healthy (arm_deadline_in now delay (record c { stop_timer = none })) ≡ true
  unfolding arm_deadline_in
  late-healthy now delay c h m = ground (arith, h, m)

  no_target :
      (c : Cover W) → healthy c ≡ true → c.advanced ≡ true → is_some c.target_position ≡ false
  no_target c h a = ground (arith, h, a)

  advanced_end_run-healthy :
      (now : W) (answer : Handover W) (c : Cover W)
      → healthy c ≡ true
      → c.advanced ≡ true
      → healthy (end_run now answer c) ≡ true
  unfolding end_run
  advanced_end_run-healthy now answer c h a =
      let frozen : Option ℕ × Option ℕ = (c.end_position, c.end_tilt) in
      let base = or_float c.move_duration (num 0) in
      let clash : is_some c.target_position ≡ true → ⊥ = λ e. ground (arith, e, no_target c h a) in
      if-split (λ d. healthy d ≡ true) (is_some c.target_position)
        (or_continue now (send_stop now answer c.moving frozen base c))
        (finish_movement c.end_position c.end_tilt c) (λ e. absurd (clash e))
        (λ _. finish_movement-healthy c c.end_position c.end_tilt (healthy-known c h))

  advanced_end-healthy :
      (now : W) (answer : Handover W) (started duration : Option W) (c : Cover W)
      → healthy c ≡ true
      → c.advanced ≡ true
      → c.move_started_at ≡ started
      → healthy (end_or_rearm now answer started duration c) ≡ true
  unfolding end_or_rearm
  advanced_end-healthy now answer none duration c h a e = advanced_end_run-healthy now answer c h a
  advanced_end-healthy now answer (some s) none c h a e = advanced_end_run-healthy now answer c h a
  advanced_end-healthy now answer (some s) (some d) c h a e = ground (arith, h, a, e)

  without_timer-healthy :
      (c : Cover W)
      → healthy c ≡ true
      → c.advanced ≡ true
      → healthy (record c { stop_timer = none }) ≡ true
  without_timer-healthy c h a = ground (arith, h, a)

  no_timer :
      (now : W) (answer : Handover W) (b : Bool) (c : Cover W)
      → healthy c ≡ true
      → c.advanced ≡ b
      → let t : Cover W = record c { stop_timer = none } in
        healthy (end_or_rearm now answer t.move_started_at t.move_duration t) ≡ true
  no_timer now answer true c h a =
      advanced_end-healthy now answer c.move_started_at c.move_duration
        (record c { stop_timer = none }) (without_timer-healthy c h a) a refl
  no_timer now answer false c h a =
      end_or_rearm-healthy now answer c.move_started_at c.move_duration
        (record c { stop_timer = none }) (healthy-stoppable c h a) refl refl

  -- The end-of-run timer fires, whichever arming of it.
  pub movement_deadline-healthy :
      (now : W) (generation : ℕ) (answer : Handover W) (c : Cover W)
      → healthy c ≡ true
      → healthy (movement_deadline now generation answer c) ≡ true
  unfolding movement_deadline
  movement_deadline-healthy now generation answer c h =
      let P : Cover W → Type 0 = λ d. healthy d ≡ true in
      let t : Cover W = record c { stop_timer = none } in
      let late = arm_deadline_in now (or_float c.move_duration (num 0)) t in
      let ended = end_or_rearm now answer t.move_started_at t.move_duration t in
      if-both P (not (generation == c.stop_timer_generation)) c
        (if is_some c.move_delivery then late else ended) h
        (if-split P (is_some c.move_delivery) late ended
          (λ m. late-healthy now (or_float c.move_duration (num 0)) c h m)
          (λ _. no_timer now answer c.advanced c h refl))
