-- ===== src/Cover/Deadline.antt =====
-- cover.py: when `_async_movement_deadline` sends a stop.
use my_home_stability.Prelude.{
  ℕ, ◌≡◌, refl, Bool, true, false, ◌&&◌, not, Option, none, some, ◌∷◌, arith, ◌==◌, is_some,
  if-split, if-both, if◌then◌else◌, ◌∙◌,
}
use my_home_stability.Cover.Number.{Float, num, ◌⊞◌, ◌⊟◌, ◌⊘◌}
use my_home_stability.Cover.Roll.{or_float}
use my_home_stability.Cover.State.{
  Movement, Outcome, delivered, dropped, Handover, refused, taken, PendingStop, stop_shutter, Cover,
}
use my_home_stability.Cover.Movement.{
  finish_movement, freeze, run_hook, cancel_timers, cancel_echo_recheck, cancel_advanced_timer,
  stop_offset, arm_deadline_in, arm_movement_deadline, set_off, begun, start_movement,
  attach_movement,
}
use my_home_stability.Cover.Stop.{
  hand_over, mark_own_stop, continue_from, continue_to_end_stop, rest, stop_written, settle_stop,
  if_pending, apply_stop_delivery, attach_stop, waiting, after_stop, send_stop, or_continue,
  end_run, end_or_rearm, movement_deadline,
}

-- The gateway took the frame.
abbrev pub accepted : {W : Type 0} → Handover W → Bool
accepted refused = false
accepted (taken _) = true

unless :
    {A : Type 0} (g : Bool)
    → not g ≡ true
    → (q r : Bool) (x y : A) → y ≡ (if (g && q) && r then x else y)
unless true e q r x y = cc
unless false e q r x y = refl

unless_right :
    {A : Type 0} (g q : Bool)
    → q ≡ true
    → (r : Bool) (x y : A) → y ≡ (if (g && not q) && r then x else y)
unless_right true true e r x y = refl
unless_right false true e r x y = refl
unless_right g false e r x y = cc

both_hold :
    {A : Type 0} (g q : Bool)
    → not g ≡ false
    → q ≡ false
    → (r : Bool) (x y : A) → (if r then x else y) ≡ (if (g && not q) && r then x else y)
both_hold true false e d r x y = refl
both_hold true true e d r x y = cc
both_hold false q e d r x y = cc

module _ {W : Type 0} ⦃f : Float W⦄ where
  -- The run still has more than the slack before its stop is due.
  abbrev pub early : W → W → Option W → Option W → Bool
  early now offset (some started) (some duration) =
      f.lt (num 1 ⊘ num 100) (started ⊞ (duration ⊟ offset) ⊟ now)
  early now offset _ _ = false

  finish_movement-sent : (p s : Option ℕ) (c : Cover W) → (finish_movement p s c).sent ≡ c.sent
  unfolding finish_movement cancel_timers cancel_echo_recheck cancel_advanced_timer freeze run_hook
  finish_movement-sent none s c = refl
  finish_movement-sent (some p) s c = refl

  -- A run that begins without a frame of ours.
  set_off-sent : (now : W) (s d : Option W) (c : Cover W) → (set_off now none s d c).sent ≡ c.sent
  unfolding set_off attach_movement arm_movement_deadline arm_deadline_in
  set_off-sent now none d c = refl
  set_off-sent now (some s) none c = refl
  set_off-sent now (some s) (some d) c =
      if-both (λ x. x.sent ≡ c.sent) (f.le d (num 0)) (finish_movement c.end_position c.end_tilt c)
        (record (arm_movement_deadline now s d c) { ticking = true })
        (finish_movement-sent c.end_position c.end_tilt c) refl

  continue_from-sent :
      (now : W) (m : Option Movement) (c : Cover W) → (continue_from now m c).sent ≡ c.sent
  unfolding continue_from start_movement begun cancel_timers cancel_echo_recheck
      cancel_advanced_timer
  continue_from-sent now none c = refl
  continue_from-sent now (some d) c =
      let t = begun now d none none false false c in
      set_off-sent now t.move_started_at t.move_duration t

  settle_stop-sent :
      (now : W) (p : PendingStop W) (o : Outcome W) (c : Cover W)
      → (settle_stop now p o c).sent ≡ c.sent
  unfolding settle_stop stop_written mark_own_stop continue_to_end_stop
  settle_stop-sent now p dropped c = continue_from-sent now c.moving c
  settle_stop-sent now p (delivered at) c =
      finish_movement-sent (rest p at c).0 (rest p at c).1
        (record c { stop_delivered_at = some at })

  apply_stop_delivery-sent :
      (now : W) (id : ℕ) (o : Outcome W) (p : Option (PendingStop W)) (c : Cover W)
      → (if_pending now id o p c).sent ≡ c.sent
  unfolding if_pending
  apply_stop_delivery-sent now id o none c = refl
  apply_stop_delivery-sent now id o (some p) c =
      let t : Cover W = record c { pending_stop = none } in
      if-both (λ x. x.sent ≡ c.sent) (p.delivery == id) (settle_stop now p o t) c
        (settle_stop-sent now p o t) refl

  stop_or_continue-sent :
      (now : W) (answer : Handover W) (m : Option Movement) (frozen : Option ℕ × Option ℕ)
      (base : W) (c : Cover W)
      → (or_continue now (send_stop now answer m frozen base c)).sent
        ≡ (if accepted answer then stop_shutter ∷ c.sent else c.sent)
  unfolding or_continue send_stop after_stop attach_stop waiting hand_over continue_to_end_stop
      apply_stop_delivery
  stop_or_continue-sent now refused m frozen base c =
      continue_from-sent now c.moving (record c { stop_delivered_at = none; stop_status_at = none })
  stop_or_continue-sent now (taken none) m (p, s) base c = refl
  stop_or_continue-sent now (taken (some o)) m (p, s) base c =
      let t : Cover W = record c { stop_delivered_at = none; stop_status_at = none } in
      let u = waiting now m (p, s) base t in
      apply_stop_delivery-sent now c.frames o u.pending_stop u

  end_run-sent :
      (now : W) (answer : Handover W) (c : Cover W)
      → (end_run now answer c).sent
        ≡ (if is_some c.target_position && accepted answer then stop_shutter ∷ c.sent else c.sent)
  unfolding end_run
  end_run-sent now answer c =
      let frozen : Option ℕ × Option ℕ = (c.end_position, c.end_tilt) in
      let stopping =
        or_continue now
          (send_stop now answer c.moving frozen (or_float c.move_duration (num 0)) c) in
      ground (
        arith,
        stop_or_continue-sent now answer c.moving frozen (or_float c.move_duration (num 0)) c,
        finish_movement-sent c.end_position c.end_tilt c,
      )

  end_or_rearm-sent :
      (now : W) (answer : Handover W) (s d : Option W) (c : Cover W)
      → (end_or_rearm now answer s d c).sent ≡ (
          if not (early now (stop_offset c) s d) && (is_some c.target_position && accepted answer)
          then stop_shutter ∷ c.sent
          else c.sent)
  unfolding end_or_rearm arm_movement_deadline arm_deadline_in
  end_or_rearm-sent now answer none d c = end_run-sent now answer c
  end_or_rearm-sent now answer (some s) none c = end_run-sent now answer c
  end_or_rearm-sent now answer (some s) (some d) c =
      let early_ = f.lt (num 1 ⊘ num 100) (s ⊞ (d ⊟ stop_offset c) ⊟ now) in
      let stops = is_some c.target_position && accepted answer in
      if-split (λ x. x.sent ≡ (if not early_ && stops then stop_shutter ∷ c.sent else c.sent))
        early_ (arm_movement_deadline now s d c) (end_run now answer c) (λ e. rw e)
        (λ e. rw e (end_run-sent now answer c))

  -- The end-of-run timer hands a stop to the gateway exactly when it is the timer armed last, the
  -- frame that started the movement is not still waiting, the run is one that we have to stop, its
  -- own clock says that it is over but for the slack, and the gateway takes the frame. In every
  -- other case it sends nothing.
  pub movement_deadline-sent :
      (now : W) (generation : ℕ) (answer : Handover W) (c : Cover W)
      → (movement_deadline now generation answer c).sent ≡ (
          if (generation == c.stop_timer_generation && not (is_some c.move_delivery))
            && (not (early now (stop_offset c) c.move_started_at c.move_duration)
                && (is_some c.target_position && accepted answer))
          then stop_shutter ∷ c.sent
          else c.sent)
  unfolding movement_deadline arm_deadline_in stop_offset
  movement_deadline-sent now generation answer c =
      let t : Cover W = record c { stop_timer = none } in
      let late = arm_deadline_in now (or_float c.move_duration (num 0)) t in
      let ended = end_or_rearm now answer t.move_started_at t.move_duration t in
      let g = generation == c.stop_timer_generation in
      let q = is_some c.move_delivery in
      let r =
        not (early now (stop_offset c) c.move_started_at c.move_duration)
        && (is_some c.target_position && accepted answer) in
      let P : Cover W → Type 0 =
        λ x. x.sent ≡ (if (g && not q) && r then stop_shutter ∷ c.sent else c.sent) in
      if-split P (not g) c (if q then late else ended)
        (λ e. unless g e (not q) r (stop_shutter ∷ c.sent) c.sent)
        (λ e.
          if-split P q late ended (λ y. unless_right g q y r (stop_shutter ∷ c.sent) c.sent)
            (λ y.
              end_or_rearm-sent now answer t.move_started_at t.move_duration t
              ∙ both_hold g q e y r (stop_shutter ∷ c.sent) c.sent))
