-- ===== src/Cover/Travel.antt =====
-- cover.py: the travel model of a shutter, `_adopt_travel_model`, `_normalise`, `_travel`,
-- `_travel_time` and `_estimate`. What is given as an instant is `utcnow` at the start of the call.
use my_home_stability.Prelude.{
  ℕ, ◌-◌, min, Bool, true, false, not, ◌&&◌, Option, none, some, ltb, leb, if◌then◌else◌,
}
use my_home_stability.Cover.Number.{Float, num, ◌⊞◌, ◌⊟◌, ◌⊠◌, ◌⊘◌, larger, clamp_percent}
use my_home_stability.Cover.Roll.{roll_tau, roll_x, or_float, clamped_roll}
use my_home_stability.Cover.State.{Movement, opening, closing, MovementModel, TravelModel, Cover}

-- the nine numbers of a call of `_adopt_travel_model`
pub record TravelValues (W : Type 0) : Type 0 where
  pub shutter_run : Option W
  pub opening_time : Option W
  pub closing_time : Option W
  pub slat_time : Option W
  pub roll : Option W
  pub opening_roll : Option W
  pub closing_roll : Option W
  pub stop_latency : Option W
  pub start_delay : Option W

-- a (position, tilt) pair that the shutter can be in, of the two clamped numbers
unfoldable pub settled : Bool → ℕ → ℕ → ℕ × ℕ
settled two_phase position slats =
    if ltb 0 position then (position, 100) else if not two_phase then (0, 0) else (0, slats)

unfoldable pub both : ℕ × ℕ → Option ℕ × Option ℕ
both (position, slats) = (some position, some slats)

position_of : Bool → Option ℕ → Option ℕ → Option ℕ
position_of true reported estimated = reported
position_of false reported estimated = estimated

module _ {W : Type 0} ⦃f : Float W⦄ where
  -- `_adopt_travel_model` of a cover that is `advanced`, with its opt-in `tilt`
  unfoldable pub adopt_travel_model : Bool → Bool → TravelValues W → TravelModel W
  adopt_travel_model advanced tilt_ v =
      let shutter_run = or_float v.shutter_run (num 20) in
      let opening_time = or_float v.opening_time shutter_run in
      let closing_time = or_float v.closing_time shutter_run in
      let slat_time = larger (num 0) (or_float v.slat_time (num 0)) in
      let roll = clamped_roll v.roll (num 1) in
      let min_curtain_time = num 1 ⊘ num 1000 in
      let two_phase = not advanced && f.lt (num 0) slat_time in
      record {
        shutter_run = shutter_run;
        opening_time = opening_time;
        closing_time = closing_time;
        roll = roll;
        movement = record {
          slat_time = slat_time;
          opening_roll = clamped_roll v.opening_roll roll;
          closing_roll = clamped_roll v.closing_roll roll;
          curtain_up = larger min_curtain_time (opening_time ⊟ slat_time);
          curtain_down = larger min_curtain_time (closing_time ⊟ slat_time);
          stop_latency = larger (num 0) (or_float v.stop_latency (num 0));
          start_delay = larger (num 0) (or_float v.start_delay (num 0));
          two_phase = two_phase;
        };
        has_tilt = tilt_ && two_phase;
        advanced_move_timeout = larger opening_time closing_time ⊞ num 30;
      }

  -- `_normalise` of two floats, and of two whole percentages
  unfoldable pub normalise : MovementModel W → W → W → ℕ × ℕ
  normalise model position slats =
      settled model.two_phase (clamp_percent (f.round position)) (clamp_percent (f.round slats))

  unfoldable pub normalise_whole : MovementModel W → ℕ → ℕ → ℕ × ℕ
  normalise_whole model position slats = settled model.two_phase (min 100 position) (min 100 slats)

  -- `_curtain_tau`
  unfoldable pub curtain_tau : ℕ → W → W
  curtain_tau position roll = roll_tau roll (num 1 ⊟ num position ⊘ num 100)

  -- `_curtain_position`
  unfoldable pub curtain_position : W → W → W
  curtain_position tau roll = (num 1 ⊟ roll_x roll tau) ⊠ num 100

  -- the part of `_travel` that moves the curtain up
  unfoldable pub travel_up : MovementModel W → ℕ → W → ℕ × ℕ
  travel_up model position elapsed =
      let tau = curtain_tau position model.opening_roll ⊟ elapsed ⊘ model.curtain_up in
      normalise model (curtain_position tau model.opening_roll) (num 100)

  -- the seconds that an opening spends on the slats before the curtain
  unfoldable pub slat_left : MovementModel W → ℕ → W
  slat_left model slats = num (100 - slats) ⊘ num 100 ⊠ model.slat_time

  unfoldable pub travel_opening : MovementModel W → ℕ → ℕ → W → ℕ × ℕ
  travel_opening model position slats elapsed =
      if leb position 0 && (f.lt (num 0) model.slat_time && ltb slats 100)
      then if f.le elapsed (slat_left model slats)
        then normalise model (num 0) (num slats ⊞ elapsed ⊘ model.slat_time ⊠ num 100)
        else travel_up model position (elapsed ⊟ slat_left model slats)
      else travel_up model position elapsed

  -- the time still to run before the curtain touches the floor
  unfoldable pub curtain_left : MovementModel W → ℕ → W
  curtain_left model position =
      (num 1 ⊟ curtain_tau position model.closing_roll) ⊠ model.curtain_down

  unfoldable pub travel_closing : MovementModel W → ℕ → ℕ → W → ℕ × ℕ
  travel_closing model position slats elapsed =
      let left = curtain_left model position in
      let tau = curtain_tau position model.closing_roll ⊞ elapsed ⊘ model.curtain_down in
      let start_tilt = if ltb 0 position then 100 else slats in
      if f.lt elapsed left
      then normalise model (curtain_position tau model.closing_roll) (num 100)
      else if f.le model.slat_time (num 0)
      then normalise model (num 0) (num 0)
      else normalise model (num 0) (num start_tilt ⊟ (elapsed ⊟ left) ⊘ model.slat_time ⊠ num 100)

  -- `_travel`
  unfoldable pub travel : MovementModel W → Movement → ℕ → ℕ → W → ℕ × ℕ
  travel model opening position slats elapsed = travel_opening model position slats elapsed
  travel model closing position slats elapsed = travel_closing model position slats elapsed

  -- `_travel_time`
  unfoldable pub travel_time : MovementModel W → Movement → ℕ → ℕ → ℕ → ℕ → W
  travel_time model opening position slats target_position target_tilt =
      let slat_target = if ltb 0 target_position then 100 else target_tilt in
      let seconds =
        if leb position 0 && f.lt (num 0) model.slat_time
        then num 0 ⊞ num (slat_target - slats) ⊘ num 100 ⊠ model.slat_time
        else num 0 in
      let curtain = larger (num 0) (
        curtain_tau position model.opening_roll ⊟ curtain_tau target_position model.opening_roll) in
      seconds ⊞ curtain ⊠ model.curtain_up
  travel_time model closing position slats target_position target_tilt =
      let curtain = larger (num 0) (
        curtain_tau target_position model.closing_roll ⊟ curtain_tau position model.closing_roll) in
      let seconds = curtain ⊠ model.curtain_down in
      let start_tilt = if ltb 0 position then 100 else slats in
      if leb target_position 0 && f.lt (num 0) model.slat_time
      then seconds ⊞ num (start_tilt - target_tilt) ⊘ num 100 ⊠ model.slat_time
      else seconds

  unfoldable pub estimate_of :
      MovementModel W
      → Option ℕ × Option ℕ
      → Option Movement
      → Option W
      → Option ℕ
      → Option ℕ
      → W
      → W
      → Option ℕ × Option ℕ
  unfolding both
  estimate_of model known (some direction) (some started) (some position) (some slats) now ahead =
      both (travel model direction position slats (larger (num 0) (now ⊟ started ⊞ ahead)))
  estimate_of model known _ _ _ _ now ahead = known

  -- `_estimate`
  unfoldable pub estimate : W → W → Cover W → Option ℕ × Option ℕ
  unfolding estimate_of
  estimate now ahead c =
      estimate_of c.run (c.current_position, c.current_tilt) c.moving c.move_started_at
        c.move_start_position c.move_start_tilt now ahead

  -- `current_cover_position`
  unfoldable pub current_cover_position : W → Cover W → Option ℕ
  unfolding position_of
  current_cover_position now c =
      position_of c.advanced c.current_position (estimate now (num 0) c).0

  -- `current_cover_tilt_position`
  unfoldable pub current_cover_tilt_position : W → Cover W → Option ℕ
  current_cover_tilt_position now c = if c.travel.has_tilt then (estimate now (num 0) c).1 else none
