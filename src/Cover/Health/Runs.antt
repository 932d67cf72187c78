-- ===== src/Cover/Health/Runs.antt =====
-- cover.py: the entity's other operations, and every run of them.
use my_home_stability.Prelude.{
  ℕ, ◌-◌, ◌≡◌, refl, Bool, true, false, ◌||◌, not, Option, none, some, arith, ltb, is_some,
  if-split, if-both, if◌then◌else◌, ◌∙◌,
}
use my_home_stability.Cover.Number.{Float, num, ◌⊞◌}
use my_home_stability.Cover.State.{
  Movement, opening, closing, Handover, movement_timeout, probe_grace, Cover,
}
use my_home_stability.Cover.Movement.{
  cancel_timers, freeze, run_hook, finish_movement, cancel_advanced_timer, cancel_echo_recheck,
}
use my_home_stability.Cover.Echo.{update}
use my_home_stability.Cover.Events.{
  Says, says, stopped, unclear, said, set_advanced_direction, advanced_movement_timeout,
  advanced_probe_grace, on_plain, on_advanced, on_reported, on_position, handle_event,
}
use my_home_stability.Cover.Commands.{open_cover, close_cover}
use my_home_stability.Cover.Lifecycle.{
  ResolvedModel, Kept, new_cover, apply_calibration, restored_at, from_kept, restore_position,
  added_to_hass,
}
use my_home_stability.Cover.Health.{
  healthy, CoverStep, by_open, by_close, by_stop, by_position, by_tilt, by_event, by_deadline,
  by_movement_delivery, by_stop_delivery, by_recheck, by_timeout, by_grace, by_calibration,
  by_restore, CoverReach, created, then_by,
}
use my_home_stability.Cover.Health.Moves.{
  finish_movement-healthy, healthy-known, apply_movement_delivery-healthy,
}
use my_home_stability.Cover.Health.Stops.{apply_stop_delivery-healthy, stop_cover-healthy}
use my_home_stability.Cover.Health.Timed.{movement_deadline-healthy}
use my_home_stability.Cover.Health.Commanded.{
  move-healthy, set_cover_position-healthy, move_tilt-healthy,
}
use my_home_stability.Cover.Health.Heard.{
  on_plain-healthy, echo_recheck_fires-healthy, update-healthy,
}

module _ {W : Type 0} ⦃f : Float W⦄ where
  restored_at-healthy :
      (kept : Option ℕ × Option ℕ) (c : Cover W)
      → healthy c ≡ true
      → healthy (restored_at kept c) ≡ true
  unfolding restored_at
  restored_at-healthy (none, slats) c h = h
  restored_at-healthy (some p, some s) c h =
      finish_movement-healthy c (some p) (some s) (healthy-known c h)
  restored_at-healthy (some p, none) c h =
      finish_movement-healthy c (some p) (some (if ltb 0 p then 100 else 0)) (healthy-known c h)

  added_to_hass-healthy :
      (kept : Kept) (c : Cover W) → healthy c ≡ true → healthy (added_to_hass kept c) ≡ true
  unfolding added_to_hass restore_position
  added_to_hass-healthy kept c h =
      if-both (λ d. healthy d ≡ true) (c.advanced || is_some c.current_position) c
        (restored_at (from_kept kept.extra kept.last) c) h
        (restored_at-healthy (from_kept kept.extra kept.last) c h)

  set_advanced_direction-healthy :
      (now : W) (direction : Option Movement) (c : Cover W)
      → healthy c ≡ true
      → c.advanced ≡ true
      → healthy (set_advanced_direction now direction c) ≡ true
  unfolding set_advanced_direction cancel_advanced_timer
  set_advanced_direction-healthy now none c h a = ground (arith, h, a)
  set_advanced_direction-healthy now (some d) c h a = ground (arith, h, a)

  on_advanced-healthy :
      (now : W) (what : Says) (c : Cover W)
      → healthy c ≡ true
      → c.advanced ≡ true
      → healthy (on_advanced now what c) ≡ true
  unfolding on_advanced
  on_advanced-healthy now (says d) c h a = set_advanced_direction-healthy now (some d) c h a
  on_advanced-healthy now stopped c h a = set_advanced_direction-healthy now none c h a
  on_advanced-healthy now unclear c h a = h

  on_reported-healthy :
      (now : W) (what : Says) (c : Cover W)
      → healthy c ≡ true
      → c.advanced ≡ true
      → healthy (on_reported now what c) ≡ true
  unfolding on_reported
  on_reported-healthy now (says d) c h a = set_advanced_direction-healthy now (some d) c h a
  on_reported-healthy now stopped c h a = h
  on_reported-healthy now unclear c h a = h

  finish_movement-advanced :
      (p s : Option ℕ) (c : Cover W) → (finish_movement p s c).advanced ≡ c.advanced
  unfolding finish_movement cancel_timers cancel_echo_recheck cancel_advanced_timer freeze run_hook
  finish_movement-advanced none s c = refl
  finish_movement-advanced (some p) s c = refl

  on_position-healthy :
      (now : W) (what : Says) (p : Option ℕ) (c : Cover W)
      → healthy c ≡ true
      → healthy (on_position now what p c) ≡ true
  unfolding on_position
  on_position-healthy now what none c h =
      if-split (λ d. healthy d ≡ true) c.advanced (on_advanced now what c) (on_plain now what c)
        (on_advanced-healthy now what c h) (on_plain-healthy now what c h)
  on_position-healthy now what (some p) c h =
      let at = some (if c.inverted then 100 - p else p) in
      let t = finish_movement at none c in
      if-split (λ d. healthy d ≡ true) (not c.advanced) c (on_reported now what t) (λ _. h)
        (λ n.
          on_reported-healthy now what t (finish_movement-healthy c at none (healthy-known c h))
            (finish_movement-advanced at none c ∙ ground (arith, n)))

  spent-healthy :
      (due : W) (c : Cover W)
      → healthy c ≡ true
      → c.advanced_timer ≡ some (movement_timeout due)
      → is_some c.moving ≡ false
      → healthy (record c { advanced_timer = none }) ≡ true
  spent-healthy due c h e m = ground (arith, h, e, m)

  probing-healthy :
      (grace due : W) (c : Cover W)
      → healthy c ≡ true
      → c.advanced_timer ≡ some (movement_timeout due)
      → healthy
          (record c { advanced_timer = some (probe_grace grace); advanced_probe_pending = true })
        ≡ true
  probing-healthy grace due c h e = ground (arith, h, e)

  advanced_movement_timeout-healthy :
      (now due budget : W) (answer : Handover W) (c : Cover W)
      → healthy c ≡ true
      → c.advanced_timer ≡ some (movement_timeout due)
      → healthy (advanced_movement_timeout now budget answer c) ≡ true
  unfolding advanced_movement_timeout
  advanced_movement_timeout-healthy now due budget answer c h e =
      let t : Cover W = record c { advanced_timer = none } in
      let probing : Cover W = record c {
        advanced_timer = some (probe_grace (now ⊞ (budget ⊞ num 2)));
        advanced_probe_pending = true;
      } in
      if-split (λ d. healthy d ≡ true) (is_some c.moving) (update answer probing) t
        (λ _. update-healthy answer probing (probing-healthy (now ⊞ (budget ⊞ num 2)) due c h e))
        (spent-healthy due c h e)

  advanced_probe_grace-healthy :
      (due : W) (c : Cover W)
      → healthy c ≡ true
      → c.advanced_timer ≡ some (probe_grace due)
      → healthy (advanced_probe_grace c) ≡ true
  unfolding advanced_probe_grace
  advanced_probe_grace-healthy due c h e = ground (arith, h, e)

  CoverStep-healthy : (c d : Cover W) → CoverStep c d → healthy c ≡ true → healthy d ≡ true
  unfolding open_cover close_cover handle_event apply_calibration
  CoverStep-healthy _ _ (by_open c now answer) h = move-healthy now answer opening none none c h
  CoverStep-healthy _ _ (by_close c now answer) h = move-healthy now answer closing none none c h
  CoverStep-healthy _ _ (by_stop c now answer) h = stop_cover-healthy now answer c h
  CoverStep-healthy _ _ (by_position c now answer p) h = set_cover_position-healthy now answer p c h
  CoverStep-healthy _ _ (by_tilt c now answer t) h = move_tilt-healthy now answer t c h
  CoverStep-healthy _ _ (by_event c now e) h =
      on_position-healthy now (said c.inverted e) e.current_position c h
  CoverStep-healthy _ _ (by_deadline c now generation answer) h =
      movement_deadline-healthy now generation answer c h
  CoverStep-healthy _ _ (by_movement_delivery c now id outcome) h =
      apply_movement_delivery-healthy now id outcome c h
  CoverStep-healthy _ _ (by_stop_delivery c now id outcome) h =
      apply_stop_delivery-healthy now id outcome c h
  CoverStep-healthy _ _ (by_recheck c answer) h = echo_recheck_fires-healthy answer c h
  CoverStep-healthy _ _ (by_timeout c now due budget answer e) h =
      advanced_movement_timeout-healthy now due budget answer c h e
  CoverStep-healthy _ _ (by_grace c due e) h = advanced_probe_grace-healthy due c h e
  CoverStep-healthy _ _ (by_calibration c r) h = h
  CoverStep-healthy _ _ (by_restore c kept) h = added_to_hass-healthy kept c h

  new_cover-healthy :
      (advanced inverted tilt_ : Bool) (r : ResolvedModel W)
      → healthy (new_cover advanced inverted tilt_ r) ≡ true
  unfolding new_cover
  new_cover-healthy true inverted tilt_ r = refl
  new_cover-healthy false inverted tilt_ r = refl

  -- Whatever users, the bus, the gateway, the timers and the panel do and in whichever order, every
  -- state that a cover's entity comes to is healthy: a known position is one that a shutter can
  -- have; a basic shutter that runs has its whole clock, and the end-of-run timer armed last or a
  -- stop that waits for the bus, so that no run is left without an end; at rest it has no clock, no
  -- target, no end-of-run timer and no frame of a movement that it waits for, though a stop may
  -- still wait for the bus; and
  -- an advanced shutter has its safety timer exactly while it moves, and the probe is out exactly
  -- during the grace.
  pub CoverReach-healthy : (c : Cover W) → CoverReach c → healthy c ≡ true
  CoverReach-healthy _ (created advanced inverted tilt_ r) =
      new_cover-healthy advanced inverted tilt_ r
  CoverReach-healthy _ (then_by c d r s) = CoverStep-healthy c d s (CoverReach-healthy c r)
