-- ===== src/Cover/Window.antt =====
-- cover.py: the echo window of a command of ours, over two "stopped" frames.
use my_home_stability.Prelude.{
  ℕ, ◌≡◌, refl, Bool, true, false, ◌&&◌, not, Option, none, some, arith, is_some, if-both,
  if◌then◌else◌, ◌∙◌, ap, sym, subst,
}
use my_home_stability.Cover.Number.{Float, num, ◌⊟◌}
use my_home_stability.Cover.State.{Movement, Cover}
use my_home_stability.Cover.Travel.{estimate}
use my_home_stability.Cover.Movement.{
  finish_movement, freeze, run_hook, cancel_timers, cancel_echo_recheck, cancel_advanced_timer,
}
use my_home_stability.Cover.Echo.{
  stop_echo_window, schedule_echo_recheck, swallow, in_window, echo_by, is_echo,
}
use my_home_stability.Cover.Events.{
  CoverEvent, said, reading, reached_end_stop, on_stopped, on_plain, on_position, handle_event,
}

-- the frame that says that a shutter stands
abbrev pub stopped_frame : CoverEvent
stopped_frame = record { is_opening = some false; is_closing = some false; current_position = none }

module _ {W : Type 0} ⦃f : Float W⦄ where
  stopped_frame_lem :
      (now : W) (c : Cover W)
      → c.advanced ≡ false
      → handle_event now stopped_frame c
        ≡ on_stopped now (echo_by now none c.own_command_at (is_some c.own_command) c)
  unfolding handle_event on_position said reading on_plain is_echo
  stopped_frame_lem now c a = ground (arith, a)

  echo_by-command :
      (now at : W) (d : Movement) (c : Cover W)
      → c.own_command_at ≡ some at
      → c.own_command ≡ some d
      → echo_by now none c.own_command_at (is_some c.own_command) c
        ≡ in_window now at c.echo_after_restart (is_some c.move_delivery) c
  unfolding echo_by
  echo_by-command now at d c t o = simp (t, o)

  -- No window is open.
  echo_by-closed :
      (now : W) (c : Cover W)
      → c.own_command_at ≡ none
      → echo_by now none c.own_command_at (is_some c.own_command) c ≡ (c, false)
  unfolding echo_by
  echo_by-closed now c t = simp t

  finish_movement-moving : (p s : Option ℕ) (c : Cover W) → (finish_movement p s c).moving ≡ none
  unfolding finish_movement cancel_timers cancel_echo_recheck cancel_advanced_timer freeze run_hook
  finish_movement-moving none s c = refl
  finish_movement-moving (some p) s c = refl

  -- A "stopped" that is no echo ends the movement.
  on_stopped-moving : (now : W) (c : Cover W) → (on_stopped now (c, false)).moving ≡ none
  unfolding on_stopped
  on_stopped-moving now c =
      let t : Cover W = record c { stop_status_at = some now } in
      let e = estimate now (num 0) t in
      if-both (λ x. x.moving ≡ none)
        (t.own_free_run
          && (is_some t.moving && reached_end_stop now t.move_started_at t.move_duration))
        (finish_movement t.end_position t.end_tilt t) (finish_movement e.0 e.1 t)
        (finish_movement-moving t.end_position t.end_tilt t) (finish_movement-moving e.0 e.1 t)

  -- What an echo leaves of the movement and of its window.
  swallow-leaves :
      (now t ahead : W) (recheck pending : Bool) (c : Cover W)
      → let e = swallow now recheck pending c in
        (e.moving ≡ c.moving)
        × (estimate t ahead e ≡ estimate t ahead c)
        × (e.stop_timer ≡ c.stop_timer)
        × (e.advanced ≡ c.advanced)
        × (e.move_delivery ≡ c.move_delivery)
        × (e.own_command ≡ c.own_command)
        × (e.own_command_at ≡ (if pending then c.own_command_at else none))
  unfolding swallow schedule_echo_recheck cancel_echo_recheck estimate
  swallow-leaves now t ahead true true c = (refl, refl, refl, refl, refl, refl, refl)
  swallow-leaves now t ahead false true c = (refl, refl, refl, refl, refl, refl, refl)
  swallow-leaves now t ahead true false c = (refl, refl, refl, refl, refl, refl, refl)
  swallow-leaves now t ahead false false c = (refl, refl, refl, refl, refl, refl, refl)

  in_window-echo :
      (now at : W) (recheck pending : Bool) (c : Cover W)
      → (f.le stop_echo_window (now ⊟ at) && not pending) ≡ false
      → in_window now at recheck pending c ≡ (swallow now recheck pending c, true)
  unfolding in_window
  in_window-echo now at recheck pending c e = rw e

  -- An echo in the window of a command of ours.
  first_frame :
      (now at : W) (d : Movement) (c : Cover W)
      → c.advanced ≡ false
      → c.own_command_at ≡ some at
      → c.own_command ≡ some d
      → (f.le stop_echo_window (now ⊟ at) && not (is_some c.move_delivery)) ≡ false
      → handle_event now stopped_frame c
        ≡ swallow now c.echo_after_restart (is_some c.move_delivery) c
  unfolding on_stopped
  first_frame now at d c a t o w =
      stopped_frame_lem now c a
      ∙ ap (on_stopped now) (
          echo_by-command now at d c t o
          ∙ in_window-echo now at c.echo_after_restart (is_some c.move_delivery) c w)

  second_frame :
      (later at : W) (d : Movement) (b : Bool) (c : Cover W)
      → c.advanced ≡ false
      → is_some c.move_delivery ≡ b
      → c.own_command ≡ some d
      → c.own_command_at ≡ (if b then some at else none)
      → (handle_event later stopped_frame c).moving ≡ (if b then c.moving else none)
  second_frame later at d true c a q o t =
      let e = swallow-leaves later later later c.echo_after_restart (is_some c.move_delivery) c in
      let open_ : (f.le stop_echo_window (later ⊟ at) && not (is_some c.move_delivery)) ≡ false =
        ground (arith, q) in
      ap (λ x. x.moving) (first_frame later at d c a t o open_) ∙ e.0
  second_frame later at d false c a q o t =
      ap (λ x. x.moving)
        (stopped_frame_lem later c a ∙ ap (on_stopped later) (echo_by-closed later c t))
      ∙ on_stopped-moving later c

-- "stopped" after a movement that we commanded, inside the window of that command or while its frame
-- still waits in the queue, is the gateway's echo: the shutter goes on moving, with the estimate of
-- every instant and the end-of-run timer as they were. Of a second one, with nothing else in
-- between: where the frame waited at the first, and so waits still, it is an echo too; where the
-- frame had been written before the first, it ends the movement, whenever it comes.
pub handle_event-twice :
    {W : Type 0} ⦃f : Float W⦄ (now later at t ahead : W) (d : Movement) (c : Cover W)
    → c.advanced ≡ false
    → c.own_command_at ≡ some at
    → c.own_command ≡ some d
    → (f.le stop_echo_window (now ⊟ at) && not (is_some c.move_delivery)) ≡ false
    → let e = handle_event now stopped_frame c in
      (e.moving ≡ c.moving)
      × (estimate t ahead e ≡ estimate t ahead c)
      × (e.stop_timer ≡ c.stop_timer)
      × ((handle_event later stopped_frame e).moving
          ≡ (if is_some c.move_delivery then c.moving else none))
handle_event-twice now later at t ahead d c a s o w =
    let pending = is_some c.move_delivery in
    let e = swallow now c.echo_after_restart pending c in
    let (m, i, r, v, q, y, z) = swallow-leaves now t ahead c.echo_after_restart pending c in
    let window = z ∙ ap (λ x. if pending then x else none) s in
    let twice = second_frame later at d pending e (v ∙ a) (ap is_some q) (y ∙ o) window in
    subst
      (λ x.
        (x.moving ≡ c.moving)
        × (estimate t ahead x ≡ estimate t ahead c)
        × (x.stop_timer ≡ c.stop_timer)
        × ((handle_event later stopped_frame x).moving ≡ (if pending then c.moving else none)))
      (sym (first_frame now at d c a s o w))
      (m, i, r, twice ∙ ap (λ x. if pending then x else none) m)
