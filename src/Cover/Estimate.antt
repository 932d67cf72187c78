-- ===== src/Cover/Estimate.antt =====
-- cover.py: the bounds of the travel model and of the estimate, and what a restart keeps of it.
use my_home_stability.Prelude.{
  ℕ, min, ◌≡◌, Bool, true, false, ◌&&◌, ◌||◌, Option, none, some, arith, ltb, leb, ◌==◌, if-both,
  if◌then◌else◌, ap, sym, subst,
}
use my_home_stability.Cover.Number.{
  Float, ℤ, pos, negsuc, num, ◌⊞◌, ◌⊟◌, ◌⊠◌, ◌⊘◌, larger, clamp_percent,
}
use my_home_stability.Cover.State.{Movement, opening, closing, MovementModel, Cover}
use my_home_stability.Cover.Travel.{
  settled, normalise, normalise_whole, curtain_tau, curtain_position, travel_up, slat_left,
  travel_opening, curtain_left, travel_closing, travel, estimate_of, estimate, both,
}
use my_home_stability.Cover.Movement.{
  finish_movement, freeze, run_hook, cancel_timers, cancel_echo_recheck, cancel_advanced_timer,
}
use my_home_stability.Cover.Lifecycle.{
  extra_restore_state_data, restored_at, restore_position, from_kept, added_to_hass, Kept,
}
use my_home_stability.Cover.Health.{physical, known, CoverReach}
use my_home_stability.Cover.Health.Moves.{healthy-known}
use my_home_stability.Cover.Health.Runs.{CoverReach-healthy}

clamped-physical :
    (b : Bool) (y z : ℤ)
    → physical
        (settled b (clamp_percent y) (clamp_percent z)).0
        (settled b (clamp_percent y) (clamp_percent z)).1
      ≡ true
unfolding settled clamp_percent
clamped-physical b (pos m) (pos n) = ground arith
clamped-physical b (pos m) (negsuc n) = ground arith
clamped-physical b (negsuc m) (pos n) = ground arith
clamped-physical b (negsuc m) (negsuc n) = ground arith

kept_pair :
    (b : Bool) (p s : ℕ)
    → physical p s ≡ true
    → ((b || ltb 0 p) || s == 0) ≡ true
    → settled b (min 100 p) (min 100 s) ≡ (p, s)
unfolding settled
kept_pair b p s h k = ground (arith, h, k)

abbrev IsPair : ℕ × ℕ → Type 0
IsPair (position, slats) = physical position slats ≡ true

module _ {W : Type 0} ⦃f : Float W⦄ where
  normalise-IsPair : (m : MovementModel W) (p s : W) → IsPair (normalise m p s)
  unfolding normalise
  normalise-IsPair m p s = clamped-physical m.two_phase (f.round p) (f.round s)

  travel_up-IsPair : (m : MovementModel W) (p : ℕ) (e : W) → IsPair (travel_up m p e)
  unfolding travel_up
  travel_up-IsPair m p e =
      let tau = curtain_tau p m.opening_roll ⊟ e ⊘ m.curtain_up in
      normalise-IsPair m (curtain_position tau m.opening_roll) (num 100)

  -- A movement of any length, in either direction and by whatever model, leads to a pair that a
  -- shutter can have.
  travel-IsPair : (m : MovementModel W) (d : Movement) (p s : ℕ) (e : W) → IsPair (travel m d p s e)
  unfolding travel travel_opening travel_closing
  travel-IsPair m opening p s e =
      let left = slat_left m s in
      let slats = normalise m (num 0) (num s ⊞ e ⊘ m.slat_time ⊠ num 100) in
      if-both IsPair (leb p 0 && (f.lt (num 0) m.slat_time && ltb s 100))
        (if f.le e left then slats else travel_up m p (e ⊟ left)) (travel_up m p e)
        (if-both IsPair (f.le e left) slats (travel_up m p (e ⊟ left))
          (normalise-IsPair m (num 0) (num s ⊞ e ⊘ m.slat_time ⊠ num 100))
          (travel_up-IsPair m p (e ⊟ left)))
        (travel_up-IsPair m p e)
  travel-IsPair m closing p s e =
      let left = curtain_left m p in
      let tau = curtain_tau p m.closing_roll ⊞ e ⊘ m.curtain_down in
      let start = if ltb 0 p then 100 else s in
      let slats = num start ⊟ (e ⊟ left) ⊘ m.slat_time ⊠ num 100 in
      let down = normalise m (curtain_position tau m.closing_roll) (num 100) in
      let floor = normalise m (num 0) (num 0) in
      let closed = normalise m (num 0) slats in
      if-both IsPair (f.lt e left) down (if f.le m.slat_time (num 0) then floor else closed)
        (normalise-IsPair m (curtain_position tau m.closing_roll) (num 100))
        (if-both IsPair (f.le m.slat_time (num 0)) floor closed (normalise-IsPair m (num 0) (num 0))
          (normalise-IsPair m (num 0) slats))

  estimate_of-known :
      (m : MovementModel W) (at : Option ℕ × Option ℕ) (d : Option Movement) (started : Option W)
      (p s : Option ℕ) (now ahead : W)
      → known at.0 at.1 ≡ true
      → let e = estimate_of m at d started p s now ahead in known e.0 e.1 ≡ true
  unfolding estimate_of both
  estimate_of-known m at none started p s now ahead h = h
  estimate_of-known m at (some d) none p s now ahead h = h
  estimate_of-known m at (some d) (some t) none s now ahead h = h
  estimate_of-known m at (some d) (some t) (some p) none now ahead h = h
  estimate_of-known m at (some d) (some t) (some p) (some s) now ahead h =
      travel-IsPair m d p s (larger (num 0) (now ⊟ t ⊞ ahead))

  -- Whatever the numbers of its model and whatever the arithmetic of floats gives, a shutter's
  -- estimate is at every instant of every run a pair that it can have: both between 0 and 100, and
  -- the slats open unless the curtain is on the floor; or nothing is known of it.
  pub estimate-known :
      (c : Cover W) (now ahead : W)
      → CoverReach c
      → known (estimate now ahead c).0 (estimate now ahead c).1 ≡ true
  unfolding estimate
  estimate-known c now ahead r =
      estimate_of-known c.run (c.current_position, c.current_tilt) c.moving c.move_started_at
        c.move_start_position c.move_start_tilt now ahead (healthy-known c (CoverReach-healthy c r))

  finish_movement-kept :
      (d : Cover W) (p s : ℕ)
      → physical p s ≡ true
      → ((d.travel.movement.two_phase || ltb 0 p) || s == 0) ≡ true
      → ((finish_movement (some p) (some s) d).current_position ≡ some p)
        × ((finish_movement (some p) (some s) d).current_tilt ≡ some s)
  unfolding finish_movement cancel_timers cancel_echo_recheck cancel_advanced_timer freeze run_hook
      normalise_whole
  finish_movement-kept d p s h k =
      let pair = kept_pair d.travel.movement.two_phase p s h k in
      (ap (λ x. some x.0) pair, ap (λ x. some x.1) pair)

  extra-estimate :
      (c : Cover W) (now : W) (p s : ℕ)
      → c.advanced ≡ false
      → estimate now (num 0) c ≡ (some p, some s)
      → extra_restore_state_data now c ≡ some (some p, some s)
  unfolding extra_restore_state_data
  extra-estimate c now p s a e = simp (a, e)

  added-extra :
      (kept : Kept) (d : Cover W) (p s : ℕ)
      → kept.extra ≡ some (some p, some s)
      → d.advanced ≡ false
      → d.current_position ≡ none
      → added_to_hass kept d ≡ finish_movement (some p) (some s) d
  unfolding added_to_hass restore_position from_kept restored_at
  added-extra kept d p s e b n = simp (e, b, n)

  -- A basic shutter that Home Assistant takes away at any instant of a run, moving or not, and that
  -- comes back as an entity without a position has the estimate of that instant as its own, if the
  -- new model has a slat phase, or the curtain was up, or the slats were closed.
  pub added-estimate :
      (c d : Cover W) (now : W) (p s : ℕ) (last : Option (Option ℕ × Option ℕ × Option Bool))
      → CoverReach c
      → c.advanced ≡ false
      → estimate now (num 0) c ≡ (some p, some s)
      → d.advanced ≡ false
      → d.current_position ≡ none
      → ((d.travel.movement.two_phase || ltb 0 p) || s == 0) ≡ true
      → let kept : Kept = record { extra = extra_restore_state_data now c; last = last } in
        let e = added_to_hass kept d in (e.current_position ≡ some p) × (e.current_tilt ≡ some s)
  added-estimate c d now p s last r a e b n k =
      let kept : Kept = record { extra = extra_restore_state_data now c; last = last } in
      let pair = subst (λ x. known x.0 x.1 ≡ true) e (estimate-known c now (num 0) r) in
      subst (λ x. (x.current_position ≡ some p) × (x.current_tilt ≡ some s))
        (sym (added-extra kept d p s (extra-estimate c now p s a e) b n))
        (finish_movement-kept d p s pair k)
