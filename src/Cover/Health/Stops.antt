-- ===== src/Cover/Health/Stops.antt =====
-- cover.py: what a stop of ours leaves.
use my_home_stability.Prelude.{
  ℕ, ◌≡◌, refl, Bool, true, false, ◌&&◌, not, Option, none, some, arith, ◌==◌, is_some, if-split,
  if-both, if◌then◌else◌,
}
use my_home_stability.Cover.Number.{Float, ◌⊞◌}
use my_home_stability.Cover.State.{
  Movement, Outcome, delivered, dropped, Handover, refused, taken, PendingStop, Cover,
}
use my_home_stability.Cover.Travel.{estimate}
use my_home_stability.Cover.Stop.{
  hand_over, mark_own_stop, continue_from, continue_to_end_stop, rest, stop_written, settle_stop,
  if_pending, apply_stop_delivery, attach_stop, waiting, after_stop, send_stop, stop_advanced,
  since, stop_cover,
}
use my_home_stability.Cover.Health.{known, healthy, under_way, resting}
use my_home_stability.Cover.Health.Moves.{
  finish_movement-healthy, start_movement-healthy, healthy-known,
}

module _ {W : Type 0} ⦃f : Float W⦄ where
  -- What must hold of a shutter for it to go on to the end stop: at rest it must be healthy, and
  -- in a movement only its position counts, since the movement starts again.
  abbrev pub Settles : Cover W → Option Movement → Type 0
  Settles c none = healthy c ≡ true
  Settles c (some direction) =
      (c.advanced ≡ false) × (known c.current_position c.current_tilt ≡ true)

  pub continue_from-healthy :
      (now : W) (m : Option Movement) (c : Cover W)
      → Settles c m
      → healthy (continue_from now m c) ≡ true
  unfolding continue_from
  continue_from-healthy now none c s = s
  continue_from-healthy now (some direction) c s =
      start_movement-healthy now direction none none false none c s.0 s.1

  settle_stop-healthy :
      (now : W) (p : PendingStop W) (outcome : Outcome W) (c : Cover W)
      → known c.current_position c.current_tilt ≡ true
      → Settles c c.moving
      → healthy (settle_stop now p outcome c) ≡ true
  unfolding settle_stop continue_to_end_stop stop_written mark_own_stop
  settle_stop-healthy now p dropped c k s = continue_from-healthy now c.moving c s
  settle_stop-healthy now p (delivered at) c k s =
      let t : Cover W = record c { stop_delivered_at = some at } in
      finish_movement-healthy t (rest p at c).0 (rest p at c).1 k

  -- The shutter without its pending stop.
  healthy-Settles :
      (m : Option Movement) (c : Cover W)
      → c.moving ≡ m
      → healthy c ≡ true
      → c.advanced ≡ false
      → Settles (record c { pending_stop = none }) m
  healthy-Settles none c e h a = rw (a, e) (rw (a, e) at h)
  healthy-Settles (some direction) c e h a = (a, healthy-known c h)

  pending_is_basic :
      (p : PendingStop W) (c : Cover W)
      → healthy c ≡ true
      → c.pending_stop ≡ some p
      → c.advanced ≡ false
  pending_is_basic p c h e = ground (arith, h, e)

  if_pending-healthy :
      (now : W) (id : ℕ) (outcome : Outcome W) (p : Option (PendingStop W)) (c : Cover W)
      → healthy c ≡ true
      → c.pending_stop ≡ p
      → healthy (if_pending now id outcome p c) ≡ true
  unfolding if_pending
  if_pending-healthy now id outcome none c h e = h
  if_pending-healthy now id outcome (some p) c h e =
      let t : Cover W = record c { pending_stop = none } in
      if-both (λ d. healthy d ≡ true) (p.delivery == id) (settle_stop now p outcome t) c
        (settle_stop-healthy now p outcome t (healthy-known c h)
          (healthy-Settles c.moving c refl h (pending_is_basic p c h e)))
        h

  -- Our stop Settles: the movement is over, or goes on to the end stop.
  pub apply_stop_delivery-healthy :
      (now : W) (id : ℕ) (outcome : Outcome W) (c : Cover W)
      → healthy c ≡ true
      → healthy (apply_stop_delivery now id outcome c) ≡ true
  unfolding apply_stop_delivery
  apply_stop_delivery-healthy now id outcome c h =
      if_pending-healthy now id outcome c.pending_stop c h refl

  -- A basic shutter that a stop can be handed over for: healthy, but for its end-of-run timer.
  abbrev pub stoppable : Cover W → Bool
  stoppable c =
      known c.current_position c.current_tilt
      && (not c.advanced
          && (if is_some c.moving
              then under_way c && c.ticking
              else resting (record c { stop_timer = none })))

  pub healthy-stoppable : (c : Cover W) → healthy c ≡ true → c.advanced ≡ false → stoppable c ≡ true
  healthy-stoppable c h a = ground (arith, h, a)

  waiting-healthy :
      (now : W) (interrupted : Option Movement) (position slats : Option ℕ) (base : W) (c : Cover W)
      → stoppable c ≡ true
      → healthy (waiting now interrupted (position, slats) base c) ≡ true
  unfolding waiting hand_over
  waiting-healthy now interrupted position slats base c s = ground (arith, s)

  pub after_stop-healthy :
      (now : W) (outcome : Option (Outcome W)) (interrupted : Option Movement)
      (frozen : Option ℕ × Option ℕ) (base : W) (c : Cover W)
      → stoppable c ≡ true
      → healthy (after_stop now (taken outcome) interrupted frozen base c).0 ≡ true
  unfolding after_stop attach_stop
  after_stop-healthy now none interrupted (position, slats) base c s =
      waiting-healthy now interrupted position slats base c s
  after_stop-healthy now (some outcome) interrupted (position, slats) base c s =
      apply_stop_delivery-healthy now c.frames outcome
        (waiting now interrupted (position, slats) base c)
        (waiting-healthy now interrupted position slats base c s)

  stop_advanced-healthy :
      (answer : Handover W) (c : Cover W)
      → healthy c ≡ true
      → healthy (stop_advanced answer c) ≡ true
  unfolding stop_advanced hand_over
  stop_advanced-healthy refused c h = h
  stop_advanced-healthy (taken _) c h = h

  send_stop-healthy :
      (now : W) (answer : Handover W) (interrupted : Option Movement) (frozen : Option ℕ × Option ℕ)
      (base : W) (c : Cover W)
      → healthy c ≡ true
      → c.advanced ≡ false
      → healthy (send_stop now answer interrupted frozen base c).0 ≡ true
  unfolding send_stop after_stop
  send_stop-healthy now refused interrupted frozen base c h a = h
  send_stop-healthy now (taken outcome) interrupted frozen base c h a =
      after_stop-healthy now outcome interrupted frozen base
        (record c { stop_delivered_at = none; stop_status_at = none }) (healthy-stoppable c h a)

  pub stop_cover-healthy :
      (now : W) (answer : Handover W) (c : Cover W)
      → healthy c ≡ true
      → healthy (stop_cover now answer c) ≡ true
  unfolding stop_cover
  stop_cover-healthy now answer c h =
      let frozen = estimate now c.run.stop_latency c in
      let base = since now c.move_started_at ⊞ c.run.stop_latency in
      if-split (λ d. healthy d ≡ true) c.advanced (stop_advanced answer c)
        (send_stop now answer c.moving frozen base c).0 (λ a. stop_advanced-healthy answer c h)
        (λ b. send_stop-healthy now answer c.moving frozen base c h b)
