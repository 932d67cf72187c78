-- ===== src/Cover/Commands.antt =====
-- cover.py: the commands that a user gives to a shutter. What the gateway's `send` gives is an
-- argument; `calibrating` refuses a position.
use my_home_stability.Prelude.{
  ℕ, ◌-◌, Bool, true, false, Option, none, some, ltb, leb, ◌==◌, is_some, if◌then◌else◌,
}
use my_home_stability.Cover.Number.{Float, num}
use my_home_stability.Cover.State.{
  Movement, opening, closing, Handover, refused, taken, CoverFrame, raise_shutter, lower_shutter,
  set_shutter_level, Cover,
}
use my_home_stability.Cover.Travel.{estimate, current_cover_position}
use my_home_stability.Cover.Movement.{start_movement}
use my_home_stability.Cover.Stop.{hand_over, stop_cover}

-- `_direction_command`
unfoldable pub direction_command : Bool → Movement → CoverFrame
direction_command false opening = raise_shutter
direction_command false closing = lower_shutter
direction_command true opening = lower_shutter
direction_command true closing = raise_shutter

module _ {W : Type 0} ⦃f : Float W⦄ where
  -- `_async_send_direction` and the movement that it starts, if it was taken and is ours to time
  unfoldable pub move : W → Handover W → Movement → Option ℕ → Option ℕ → Cover W → Cover W
  unfolding hand_over
  move now refused direction target_position target_tilt c = record c { direction_delivery = none }
  move now (taken outcome) direction target_position target_tilt c =
      let t = hand_over (direction_command c.inverted direction) c in
      if c.advanced
      then record t { direction_delivery = none }
      else start_movement now direction target_position target_tilt true (some (c.frames, outcome))
          (record t { direction_delivery = some c.frames })

  -- `async_open_cover`, `async_close_cover`
  unfoldable pub open_cover : W → Handover W → Cover W → Cover W
  unfolding move
  open_cover now answer c = move now answer opening none none c

  unfoldable pub close_cover : W → Handover W → Cover W → Cover W
  unfolding move
  close_cover now answer c = move now answer closing none none c

  unfoldable pub set_level : Handover W → ℕ → Cover W → Cover W
  unfolding hand_over
  set_level refused position c = c
  set_level (taken _) position c =
      hand_over (set_shutter_level (if c.inverted then 100 - position else position)) c

  -- a basic cover: its position is unknown, or `current`
  unfoldable pub go_from : W → Handover W → ℕ → Option ℕ → Cover W → Cover W
  unfolding open_cover close_cover
  go_from now answer position none c =
      if leb 50 position then open_cover now answer c else close_cover now answer c
  go_from now answer position (some current) c =
      if leb 100 position
      then open_cover now answer c
      else if leb position 0
      then close_cover now answer c
      else if position == current
      then if is_some c.moving then stop_cover now answer c else c
      else move now answer (if ltb current position then opening else closing) (some position)
          (some 100) c

  -- `async_set_cover_position`; the Boolean is its `ServiceValidationError`
  unfoldable pub set_cover_position : W → Handover W → ℕ → Cover W → Cover W × Bool
  unfolding set_level go_from
  set_cover_position now answer position c =
      if ltb 0 c.calibrating
      then (c, true)
      else if c.advanced
      then (set_level answer position c, false)
      else (go_from now answer position (current_cover_position now c) c, false)

  unfoldable pub turn_from : W → Handover W → ℕ → Option ℕ × Option ℕ → Cover W → Cover W
  unfolding close_cover move
  turn_from now answer target_tilt (none, slats) c = c
  turn_from now answer target_tilt (some position, none) c =
      if ltb 0 position then c else if leb target_tilt 0 then close_cover now answer c else c
  turn_from now answer target_tilt (some position, some slats) c =
      if ltb 0 position
      then c
      else if leb target_tilt 0
      then close_cover now answer c
      else if target_tilt == slats
      then c
      else move now answer (if ltb slats target_tilt then opening else closing) (some 0)
          (some target_tilt) c

  -- `_async_move_tilt`
  unfoldable pub move_tilt : W → Handover W → ℕ → Cover W → Cover W
  unfolding turn_from
  move_tilt now answer target_tilt c =
      if c.travel.has_tilt then turn_from now answer target_tilt (estimate now (num 0) c) c else c
