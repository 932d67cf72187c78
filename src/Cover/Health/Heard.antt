-- ===== src/Cover/Health/Heard.antt =====
-- cover.py: what a plain frame of the bus leaves, an echo or not.
use my_home_stability.Prelude.{
  ◌≡◌, refl, Bool, true, false, ◌&&◌, not, Option, none, some, is_some, if-split, if-both, ◌∙◌,
}
use my_home_stability.Cover.Number.{Float, num, ◌⊟◌}
use my_home_stability.Cover.State.{Movement, Handover, refused, taken, Cover}
use my_home_stability.Cover.Travel.{estimate}
use my_home_stability.Cover.Movement.{runs, finish_movement, apply_motor_start, cancel_echo_recheck}
use my_home_stability.Cover.Stop.{hand_over}
use my_home_stability.Cover.Echo.{
  interrupts, stop_echo_window, schedule_echo_recheck, swallow, in_window, echo_by, is_echo, update,
  echo_recheck_fires,
}
use my_home_stability.Cover.Events.{
  Says, says, stopped, unclear, reached_end_stop, on_stopped, unless_echo, on_plain,
}
use my_home_stability.Cover.Health.{healthy}
use my_home_stability.Cover.Health.Moves.{
  finish_movement-healthy, start_movement-healthy, healthy-known, apply_motor_start-healthy,
}

pub runs-is_some : (m : Option Movement) (d : Movement) → runs m d ≡ true → is_some m ≡ true
unfolding runs
runs-is_some none d e = e
runs-is_some (some m) d e = refl

module _ {W : Type 0} ⦃f : Float W⦄ where
  -- What a frame that may be an echo leaves of the movement: everything.
  abbrev Untouched : Cover W → Cover W × Bool → Type 0
  Untouched c (d, _) = (healthy d ≡ healthy c) × (d.advanced ≡ c.advanced) × (d.moving ≡ c.moving)

  swallow-Untouched :
      (now : W) (recheck pending : Bool) (c : Cover W)
      → Untouched c (swallow now recheck pending c, true)
  unfolding swallow schedule_echo_recheck cancel_echo_recheck
  swallow-Untouched now true true c = (refl, refl, refl)
  swallow-Untouched now true false c = (refl, refl, refl)
  swallow-Untouched now false true c = (refl, refl, refl)
  swallow-Untouched now false false c = (refl, refl, refl)

  in_window-Untouched :
      (now at : W) (recheck pending : Bool) (c : Cover W)
      → Untouched c (in_window now at recheck pending c)
  unfolding in_window
  in_window-Untouched now at recheck pending c =
      if-both (Untouched c) (f.le stop_echo_window (now ⊟ at) && not pending) (c, false)
        (swallow now recheck pending c, true) (refl, refl, refl)
        (swallow-Untouched now recheck pending c)

  pub echo_by-Untouched :
      (now : W) (frame : Option Movement) (at : Option W) (commanded : Bool) (c : Cover W)
      → Untouched c (echo_by now frame at commanded c)
  unfolding echo_by
  echo_by-Untouched now frame none commanded c = (refl, refl, refl)
  echo_by-Untouched now frame (some at) true c =
      let window = in_window now at c.echo_after_restart (is_some c.move_delivery) c in
      if-both (Untouched c) (is_some frame) (c, false) window (refl, refl, refl)
        (in_window-Untouched now at c.echo_after_restart (is_some c.move_delivery) c)
  echo_by-Untouched now frame (some at) false c =
      if-both (Untouched c) (interrupts frame c.stopped_direction) (in_window now at true false c)
        (c, false) (in_window-Untouched now at true false c) (refl, refl, refl)

  pub update-healthy :
      (answer : Handover W) (c : Cover W) → healthy c ≡ true → healthy (update answer c) ≡ true
  unfolding update hand_over
  update-healthy refused c h = h
  update-healthy (taken _) c h = h

  pub echo_recheck_fires-healthy :
      (answer : Handover W) (c : Cover W)
      → healthy c ≡ true
      → healthy (echo_recheck_fires answer c) ≡ true
  unfolding echo_recheck_fires
  echo_recheck_fires-healthy answer c h =
      let t : Cover W = record c { echo_recheck = none } in
      if-both (λ d. healthy d ≡ true) (is_some c.moving && not c.echo_after_restart) t
        (update answer t) h (update-healthy answer t h)

  on_stopped-healthy :
      (now : W) (b : Bool) (c : Cover W) → healthy c ≡ true → healthy (on_stopped now (c, b)) ≡ true
  unfolding on_stopped
  on_stopped-healthy now true c h = h
  on_stopped-healthy now false c h =
      let t : Cover W = record c { stop_status_at = some now } in
      let at = estimate now (num 0) t in
      if-both (λ d. healthy d ≡ true)
        (t.own_free_run
          && (is_some t.moving && reached_end_stop now t.move_started_at t.move_duration))
        (finish_movement t.end_position t.end_tilt t) (finish_movement at.0 at.1 t)
        (finish_movement-healthy t t.end_position t.end_tilt (healthy-known c h))
        (finish_movement-healthy t at.0 at.1 (healthy-known c h))

  unless_echo-healthy :
      (now : W) (direction : Movement) (b : Bool) (c : Cover W)
      → healthy c ≡ true
      → c.advanced ≡ false
      → healthy (unless_echo now direction (c, b)) ≡ true
  unfolding unless_echo
  unless_echo-healthy now direction true c h a = h
  unless_echo-healthy now direction false c h a =
      start_movement-healthy now direction none none false none c a (healthy-known c h)

  -- A plain frame of a basic actuator.
  pub on_plain-healthy :
      (now : W) (what : Says) (c : Cover W)
      → healthy c ≡ true
      → c.advanced ≡ false
      → healthy (on_plain now what c) ≡ true
  unfolding on_plain is_echo
  on_plain-healthy now (says direction) c h a =
      let frame = some direction in
      let commanded = is_some c.own_command in
      let u = echo_by-Untouched now frame c.own_command_at commanded c in
      let e = echo_by now frame c.own_command_at commanded c in
      if-split (λ d. healthy d ≡ true) (runs c.moving direction) (apply_motor_start now c)
        (unless_echo now direction e)
        (λ r. apply_motor_start-healthy now c h a (runs-is_some c.moving direction r))
        (λ _. unless_echo-healthy now direction e.1 e.0 (u.0 ∙ h) (u.1 ∙ a))
  on_plain-healthy now stopped c h a =
      let commanded = is_some c.own_command in
      let e = echo_by now none c.own_command_at commanded c in
      let u = echo_by-Untouched now none c.own_command_at commanded c in
      on_stopped-healthy now e.1 e.0 (u.0 ∙ h)
  on_plain-healthy now unclear c h a = h
