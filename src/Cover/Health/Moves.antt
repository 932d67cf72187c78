-- ===== src/Cover/Health/Moves.antt =====
-- cover.py: what the beginning, the corrections and the end of a movement leave.
use my_home_stability.Prelude.{
  ℕ, min, ◌≡◌, refl, Bool, true, false, Option, none, some, arith, ◌+◌, ==_iff, ◌&&◌, Bool-cases,
  if-both, if◌then◌else◌, inl, inr, is_some,
}
use my_home_stability.Cover.Number.{Float, num, ◌⊞◌, ◌⊟◌, ◌⊘◌}
use my_home_stability.Cover.State.{Movement, Outcome, delivered, dropped, Cover}
use my_home_stability.Cover.Travel.{settled, normalise_whole, estimate}
use my_home_stability.Cover.Movement.{
  Delivery, finish_movement, freeze, run_hook, cancel_timers, cancel_echo_recheck,
  cancel_advanced_timer, movement_dropped, movement_written, clocked, settle_movement,
  apply_movement_delivery, attach_movement, begun, set_off, start_movement, start_from, end_of,
  arm_deadline_in, arm_movement_deadline, arm_where_timed, rearm, motor_started, answer_of,
  apply_motor_start,
}
use my_home_stability.Cover.Health.{physical, known, healthy, under_way, running, timed}

pub settled-physical :
    (b : Bool) (p s : ℕ)
    → physical (settled b (min 100 p) (min 100 s)).0 (settled b (min 100 p) (min 100 s)).1 ≡ true
unfolding settled
settled-physical b p s = ground arith

pub and_split : (a b : Bool) → (a && b) ≡ true → (a ≡ true) × (b ≡ true)
and_split a b h = ground (arith, h)

module _ {W : Type 0} ⦃f : Float W⦄ where
  pub finish_movement-healthy :
      (c : Cover W) (position slats : Option ℕ)
      → known c.current_position c.current_tilt ≡ true
      → healthy (finish_movement position slats c) ≡ true
  unfolding finish_movement freeze run_hook cancel_timers cancel_echo_recheck cancel_advanced_timer
      normalise_whole
  finish_movement-healthy c none slats h = ground (arith, h)
  finish_movement-healthy c (some p) none h =
      ground (arith, settled-physical c.travel.movement.two_phase p 100)
  finish_movement-healthy c (some p) (some s) h =
      ground (arith, settled-physical c.travel.movement.two_phase p s)

  -- The movement's frame settles: the run goes on by the clock that it has then, or is over.
  pub apply_movement_delivery-healthy :
      (now : W) (id : ℕ) (outcome : Outcome W) (c : Cover W)
      → healthy c ≡ true
      → healthy (apply_movement_delivery now id outcome c) ≡ true
  unfolding apply_movement_delivery settle_movement movement_dropped movement_written clocked rearm
      arm_where_timed arm_movement_deadline arm_deadline_in
  apply_movement_delivery-healthy now id (delivered at) c h = ground (arith, h)
  apply_movement_delivery-healthy now id dropped c h =
      let t : Cover W = record c { move_delivery = none } in
      ground (arith, h, finish_movement-healthy t c.move_start_position c.move_start_tilt)

  -- A basic shutter under way is healthy, as long as something will end its run.
  pub running-healthy :
      (c : Cover W)
      → c.advanced ≡ false
      → known c.current_position c.current_tilt ≡ true
      → is_some c.moving ≡ true
      → running c ≡ true
      → healthy c ≡ true
  running-healthy c a k m r = rw (a, k, m) r

  -- The timer is armed.
  pub arm-healthy :
      (now started duration : W) (c : Cover W)
      → c.advanced ≡ false
      → known c.current_position c.current_tilt ≡ true
      → is_some c.moving ≡ true
      → under_way c ≡ true
      → c.ticking ≡ true
      → healthy (arm_movement_deadline now started duration c) ≡ true
  unfolding arm_movement_deadline arm_deadline_in
  arm-healthy now started duration c a k m u t =
      running-healthy (arm_movement_deadline now started duration c) a k m (
        rw (u, t)
          (ground (arith, ==_iff (c.stop_timer_generation + 1) (c.stop_timer_generation + 1))))

  motor_started-healthy :
      (now : W) (d : Option W) (c : Cover W)
      → c.move_duration ≡ d
      → c.advanced ≡ false
      → known c.current_position c.current_tilt ≡ true
      → is_some c.moving ≡ true
      → running c ≡ true
      → healthy (motor_started now d c) ≡ true
  unfolding motor_started arm_where_timed
  motor_started-healthy now none c e a k m r = ground (arith, r, e)
  motor_started-healthy now (some d) c e a k m r =
      let t : Cover W = record c {
        motor_started_at = some now;
        move_started_at = some now;
        motor_start_event = true;
      } in
      arm-healthy now now d t a k m (ground (arith, r)) (ground (arith, r))

  healthy-running :
      (c : Cover W)
      → healthy c ≡ true
      → c.advanced ≡ false
      → is_some c.moving ≡ true
      → (known c.current_position c.current_tilt ≡ true) × (running c ≡ true)
  healthy-running c h a m =
      and_split (known c.current_position c.current_tilt) (running c) (rw (a, m) at h)

  pub healthy-known :
      (c : Cover W) → healthy c ≡ true → known c.current_position c.current_tilt ≡ true
  healthy-known c h = (and_split (known c.current_position c.current_tilt) (timed c) h).0

  answer_of-healthy :
      (now : W) (started at : Option W) (c : Cover W)
      → healthy c ≡ true
      → healthy (motor_started now c.move_duration c) ≡ true
      → healthy (answer_of now started at c) ≡ true
  unfolding answer_of
  answer_of-healthy now (some _) at c h m = h
  answer_of-healthy now none none c h m = h
  answer_of-healthy now none (some at) c h m =
      let age = now ⊟ at in
      let started = motor_started now c.move_duration c in
      let P : Cover W → Type 0 = λ d. healthy d ≡ true in
      let recent = if f.lt age (num 15 ⊘ num 100) then c else started in
      let early = if f.lt (c.run.start_delay ⊞ num 3 ⊘ num 2) age then c else recent in
      if-both P (is_some c.pending_stop) c early h (
        if-both P (f.lt (c.run.start_delay ⊞ num 3 ⊘ num 2) age) c recent h
          (if-both P (f.lt age (num 15 ⊘ num 100)) c started h m))

  -- The motor's own word.
  pub apply_motor_start-healthy :
      (now : W) (c : Cover W)
      → healthy c ≡ true
      → c.advanced ≡ false
      → is_some c.moving ≡ true
      → healthy (apply_motor_start now c) ≡ true
  unfolding apply_motor_start
  apply_motor_start-healthy now c h a m =
      let (k, r) = healthy-running c h a m in
      answer_of-healthy now c.motor_started_at c.move_delivered_at c h
        (motor_started-healthy now c.move_duration c refl a k m r)

  attach_movement-healthy :
      (now : W) (delivery : Option (Delivery W)) (c : Cover W)
      → healthy c ≡ true
      → c.advanced ≡ false
      → is_some c.moving ≡ true
      → healthy (attach_movement now delivery c) ≡ true
  unfolding attach_movement
  attach_movement-healthy now none c h a m = h
  attach_movement-healthy now (some (id, none)) c h a m =
      let (k, r) = healthy-running c h a m in
      running-healthy (record c { move_delivery = some id }) a k m r
  attach_movement-healthy now (some (id, some outcome)) c h a m =
      let (k, r) = healthy-running c h a m in
      let t : Cover W = record c { move_delivery = some id } in
      apply_movement_delivery-healthy now id outcome t (running-healthy t a k m r)

  -- A movement that starts is timed from then on, or is over at once.
  set_off-healthy :
      (now : W) (delivery : Option (Delivery W)) (s d : Option W) (c : Cover W)
      → c.move_started_at ≡ s
      → c.move_duration ≡ d
      → c.advanced ≡ false
      → known c.current_position c.current_tilt ≡ true
      → is_some c.moving ≡ true
      → under_way c ≡ true
      → healthy (set_off now delivery s d c) ≡ true
  unfolding set_off arm_movement_deadline
  set_off-healthy now delivery none d c e g a k m u = ground (arith, u, e)
  set_off-healthy now delivery (some s) none c e g a k m u = ground (arith, u, g)
  set_off-healthy now delivery (some s) (some d) c e g a k m u =
      elim (Bool-cases (f.le d (num 0))) [
        | inl y ↦ rw y (finish_movement-healthy c c.end_position c.end_tilt k)
        | inr n ↦ rw n (
            attach_movement-healthy now delivery
              (record (arm_movement_deadline now s d c) { ticking = true })
              (unfold arm_movement_deadline arm_deadline_in in
                arm-healthy now s d (record c { ticking = true }) a k m u refl)
              a m)
      ]

  begun-under_way :
      (now : W) (direction : Movement) (target slats : Option ℕ) (own has_frame : Bool)
      (c : Cover W)
      → under_way (begun now direction target slats own has_frame c) ≡ true
  unfolding begun cancel_timers cancel_echo_recheck cancel_advanced_timer normalise_whole
  begun-under_way now direction target slats own has_frame c =
      let model = c.travel.movement in
      let (p, s) = start_from direction (estimate now (num 0) c) in
      let (ep, es) = end_of direction target slats in
      rw (settled-physical model.two_phase p s, settled-physical model.two_phase ep es)

  pub start_movement-healthy :
      (now : W) (direction : Movement) (target slats : Option ℕ) (own : Bool)
      (delivery : Option (Delivery W)) (c : Cover W)
      → c.advanced ≡ false
      → known c.current_position c.current_tilt ≡ true
      → healthy (start_movement now direction target slats own delivery c) ≡ true
  unfolding start_movement begun cancel_timers cancel_echo_recheck cancel_advanced_timer
  start_movement-healthy now direction target slats own delivery c a k =
      let t = begun now direction target slats own (is_some delivery) c in
      set_off-healthy now delivery t.move_started_at t.move_duration t refl refl a k refl
        (begun-under_way now direction target slats own (is_some delivery) c)
