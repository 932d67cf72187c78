-- ===== src/Cover/Health/Commanded.antt =====
-- cover.py: what the commands of a user leave.
use my_home_stability.Prelude.{
  ℕ, ◌≡◌, Bool, true, false, Option, none, some, ltb, leb, ◌==◌, is_some, if-split, if-both,
  if◌then◌else◌,
}
use my_home_stability.Cover.Number.{Float, num}
use my_home_stability.Cover.State.{Movement, opening, closing, Handover, refused, taken, Cover}
use my_home_stability.Cover.Travel.{estimate, current_cover_position}
use my_home_stability.Cover.Movement.{start_movement}
use my_home_stability.Cover.Stop.{hand_over, stop_cover}
use my_home_stability.Cover.Commands.{
  direction_command, move, open_cover, close_cover, set_level, go_from, set_cover_position,
  turn_from, move_tilt,
}
use my_home_stability.Cover.Health.{healthy}
use my_home_stability.Cover.Health.Moves.{start_movement-healthy, healthy-known}
use my_home_stability.Cover.Health.Stops.{stop_cover-healthy}

module _ {W : Type 0} ⦃f : Float W⦄ where
  pub move-healthy :
      (now : W) (answer : Handover W) (direction : Movement) (target slats : Option ℕ) (c : Cover W)
      → healthy c ≡ true
      → healthy (move now answer direction target slats c) ≡ true
  unfolding move hand_over
  move-healthy now refused direction target slats c h = h
  move-healthy now (taken outcome) direction target slats c h =
      let t = hand_over (direction_command c.inverted direction) c in
      if-split (λ d. healthy d ≡ true) c.advanced (record t { direction_delivery = none })
        (start_movement now direction target slats true (some (c.frames, outcome))
          (record t { direction_delivery = some c.frames }))
        (λ _. h)
        (λ b.
          start_movement-healthy now direction target slats true (some (c.frames, outcome))
            (record t { direction_delivery = some c.frames }) b (healthy-known c h))

  set_level-healthy :
      (answer : Handover W) (p : ℕ) (c : Cover W)
      → healthy c ≡ true
      → healthy (set_level answer p c) ≡ true
  unfolding set_level hand_over
  set_level-healthy refused p c h = h
  set_level-healthy (taken _) p c h = h

  go_from-healthy :
      (now : W) (answer : Handover W) (p : ℕ) (current : Option ℕ) (c : Cover W)
      → healthy c ≡ true
      → healthy (go_from now answer p current c) ≡ true
  unfolding go_from open_cover close_cover
  go_from-healthy now answer p none c h =
      if-both (λ d. healthy d ≡ true) (leb 50 p) (open_cover now answer c)
        (close_cover now answer c) (move-healthy now answer opening none none c h)
        (move-healthy now answer closing none none c h)
  go_from-healthy now answer p (some current) c h =
      let P : Cover W → Type 0 = λ d. healthy d ≡ true in
      let way = if ltb current p then opening else closing in
      let moved = move now answer way (some p) (some 100) c in
      let here = if is_some c.moving then stop_cover now answer c else c in
      let inside = if p == current then here else moved in
      let below = if leb p 0 then close_cover now answer c else inside in
      if-both P (leb 100 p) (open_cover now answer c) below
        (move-healthy now answer opening none none c h)
        (if-both P (leb p 0) (close_cover now answer c) inside
          (move-healthy now answer closing none none c h)
          (if-both P (p == current) here moved
            (if-both P (is_some c.moving) (stop_cover now answer c) c
              (stop_cover-healthy now answer c h) h)
            (move-healthy now answer way (some p) (some 100) c h)))

  pub set_cover_position-healthy :
      (now : W) (answer : Handover W) (p : ℕ) (c : Cover W)
      → healthy c ≡ true
      → healthy (set_cover_position now answer p c).0 ≡ true
  unfolding set_cover_position
  set_cover_position-healthy now answer p c h =
      let P : Cover W × Bool → Type 0 = λ d. healthy d.0 ≡ true in
      let level = set_level answer p c in
      let gone = go_from now answer p (current_cover_position now c) c in
      if-both P (ltb 0 c.calibrating) (c, true)
        (if c.advanced then (level, false) else (gone, false)) h
        (if-both P c.advanced (level, false) (gone, false) (set_level-healthy answer p c h)
          (go_from-healthy now answer p (current_cover_position now c) c h))

  turn_from-healthy :
      (now : W) (answer : Handover W) (target : ℕ) (at : Option ℕ × Option ℕ) (c : Cover W)
      → healthy c ≡ true
      → healthy (turn_from now answer target at c) ≡ true
  unfolding turn_from close_cover
  turn_from-healthy now answer target (none, slats) c h = h
  turn_from-healthy now answer target (some p, none) c h =
      let P : Cover W → Type 0 = λ d. healthy d ≡ true in
      let shut = close_cover now answer c in
      if-both P (ltb 0 p) c (if leb target 0 then shut else c) h
        (if-both P (leb target 0) shut c (move-healthy now answer closing none none c h) h)
  turn_from-healthy now answer target (some p, some s) c h =
      let P : Cover W → Type 0 = λ d. healthy d ≡ true in
      let shut = close_cover now answer c in
      let way = if ltb s target then opening else closing in
      let turned = move now answer way (some 0) (some target) c in
      let other = if target == s then c else turned in
      if-both P (ltb 0 p) c (if leb target 0 then shut else other) h (
        if-both P (leb target 0) shut other (move-healthy now answer closing none none c h) (
          if-both P (target == s) c turned h
            (move-healthy now answer way (some 0) (some target) c h)))

  pub move_tilt-healthy :
      (now : W) (answer : Handover W) (target : ℕ) (c : Cover W)
      → healthy c ≡ true
      → healthy (move_tilt now answer target c) ≡ true
  unfolding move_tilt
  move_tilt-healthy now answer target c h =
      let turned = turn_from now answer target (estimate now (num 0) c) c in
      if-both (λ d. healthy d ≡ true) c.travel.has_tilt turned c
        (turn_from-healthy now answer target (estimate now (num 0) c) c h) h
