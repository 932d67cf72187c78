-- ===== src/Cover/Recalibrated.antt =====
-- cover.py: `async_apply_calibration` on a shutter that runs.
use my_home_stability.Prelude.{
  ℕ, ◌≡◌, refl, true, ◌&&◌, Option, none, some, is_some, if◌then◌else◌, if-commute, subst, sym,
}
use my_home_stability.Cover.Number.{Float, num, ◌⊞◌, ◌⊟◌, ◌⊘◌}
use my_home_stability.Cover.State.{Movement, MovementModel, delivered, Cover}
use my_home_stability.Cover.Travel.{estimate}
use my_home_stability.Cover.Movement.{
  stop_offset, arm_deadline_in, arm_movement_deadline, arm_where_timed, rearm, motor_started,
  answer_of, apply_motor_start, clocked, movement_written, settle_movement, is_frame,
  apply_movement_delivery,
}
use my_home_stability.Cover.Lifecycle.{ResolvedModel, apply_calibration}

module _ {W : Type 0} ⦃f : Float W⦄ (r : ResolvedModel W) where
  motor_started-apply :
      (now : W) (d : Option W) (c : Cover W)
      → is_some c.moving ≡ true
      → motor_started now d (apply_calibration r c) ≡ apply_calibration r (motor_started now d c)
  unfolding motor_started arm_where_timed arm_movement_deadline arm_deadline_in stop_offset
      apply_calibration
  motor_started-apply now none c m = rw m
  motor_started-apply now (some d) c m = rw m

  run-apply : (c : Cover W) → is_some c.moving ≡ true → (apply_calibration r c).run ≡ c.run
  unfolding apply_calibration
  run-apply c m = rw m

  answer_of-apply :
      (now : W) (s at : Option W) (c : Cover W)
      → is_some c.moving ≡ true
      → answer_of now s at (apply_calibration r c) ≡ apply_calibration r (answer_of now s at c)
  unfolding answer_of apply_calibration
  answer_of-apply now (some s) at c m = refl
  answer_of-apply now none none c m = refl
  answer_of-apply now none (some at) c m =
      let age = now ⊟ at in
      let d = apply_calibration r c in
      let begun_ = motor_started now c.move_duration c in
      let mirrored = f.lt age (num 15 ⊘ num 100) in
      let late = λ (x : MovementModel W). f.lt (x.start_delay ⊞ num 3 ⊘ num 2) age in
      let g = apply_calibration r in
      subst
        (λ x.
          (if is_some c.pending_stop
            then d
            else if late x
            then d
            else if mirrored
            then d
            else motor_started now c.move_duration d)
          ≡ g (answer_of now none (some at) c))
        (sym (run-apply c m))
        (if-commute g (is_some c.pending_stop) c
          (if late c.run then c else if mirrored then c else begun_) d
          (if late c.run then d else if mirrored then d else motor_started now c.move_duration d)
          refl
          (if-commute g (late c.run) c (if mirrored then c else begun_) d
            (if mirrored then d else motor_started now c.move_duration d) refl
            (if-commute g mirrored c begun_ d (motor_started now c.move_duration d) refl
              (motor_started-apply now c.move_duration c m))))

  arm-apply :
      (now started : W) (d : Option W) (c : Cover W)
      → is_some c.moving ≡ true
      → arm_where_timed now started d (apply_calibration r c)
        ≡ apply_calibration r (arm_where_timed now started d c)
  unfolding arm_where_timed arm_movement_deadline arm_deadline_in stop_offset apply_calibration
  arm-apply now started none c m = refl
  arm-apply now started (some d) c m = rw m

  rearm-apply :
      (now started : W) (d : Option W) (c : Cover W)
      → is_some c.moving ≡ true
      → rearm now started d (apply_calibration r c) ≡ apply_calibration r (rearm now started d c)
  unfolding rearm apply_calibration
  rearm-apply now started d c m =
      if-commute (apply_calibration r) (is_some c.pending_stop) c (arm_where_timed now started d c)
        (apply_calibration r c) (arm_where_timed now started d (apply_calibration r c)) refl
        (arm-apply now started d c m)

  clocked-apply :
      (now at started clock : W) (c : Cover W)
      → is_some c.moving ≡ true
      → clocked now at started clock (apply_calibration r c)
        ≡ apply_calibration r (clocked now at started clock c)
  unfolding clocked apply_calibration
  clocked-apply now at started clock c m =
      let own_at =
        if is_some c.own_command && is_some c.own_command_at then some at else c.own_command_at in
      let t : Cover W = record c { move_delivered_at = some at; own_command_at = own_at } in
      let u : Cover W = record t { move_started_at = some started } in
      let g = apply_calibration r in
      if-commute g (f.le started clock) t (rearm now started c.move_duration u) (g t)
        (rearm now started c.move_duration (g u)) refl (rearm-apply now started c.move_duration u m)

  settle_movement-apply :
      (now at : W) (d : Option Movement) (clock : Option W) (c : Cover W)
      → is_some c.moving ≡ true
      → settle_movement now (delivered at) d clock (apply_calibration r c)
        ≡ apply_calibration r (settle_movement now (delivered at) d clock c)
  unfolding settle_movement movement_written
  settle_movement-apply now at none clock c m = refl
  settle_movement-apply now at (some d) none c m = refl
  settle_movement-apply now at (some d) (some clock) c m =
      subst
        (λ x.
          clocked now at (at ⊞ x.start_delay) clock (apply_calibration r c)
          ≡ apply_calibration r (movement_written now at clock c))
        (sym (run-apply c m)) (clocked-apply now at (at ⊞ c.run.start_delay) clock c m)

  delivery-apply :
      (now at : W) (id : ℕ) (c : Cover W)
      → is_some c.moving ≡ true
      → apply_movement_delivery now id (delivered at) (apply_calibration r c)
        ≡ apply_calibration r (apply_movement_delivery now id (delivered at) c)
  unfolding apply_movement_delivery apply_calibration
  delivery-apply now at id c m =
      let t : Cover W = record c { move_delivery = none } in
      let g = apply_calibration r in
      if-commute g (is_frame c.move_delivery id)
        (settle_movement now (delivered at) c.moving c.move_started_at t) c
        (settle_movement now (delivered at) c.moving c.move_started_at (g t)) (g c)
        (settle_movement-apply now at c.moving c.move_started_at t m) refl

-- A calibration that arrives while a shutter runs leaves that run alone: the estimate is the same at
-- every instant, and the two corrections of the run's clock, by the frame that was written and by
-- the motor's own word, give the same with the calibration before them as after them, timers
-- included.
pub apply_calibration-commutes :
    {W : Type 0} ⦃f : Float W⦄ (r : ResolvedModel W) (c : Cover W) (now at ahead : W) (id : ℕ)
    → is_some c.moving ≡ true
    → (estimate now ahead (apply_calibration r c) ≡ estimate now ahead c)
      × (apply_motor_start now (apply_calibration r c)
          ≡ apply_calibration r (apply_motor_start now c))
      × (apply_movement_delivery now id (delivered at) (apply_calibration r c)
          ≡ apply_calibration r (apply_movement_delivery now id (delivered at) c))
unfolding estimate apply_motor_start apply_calibration
apply_calibration-commutes r c now at ahead id m = (
  rw m,
  answer_of-apply r now c.motor_started_at c.move_delivered_at c m,
  delivery-apply r now at id c m,
)
