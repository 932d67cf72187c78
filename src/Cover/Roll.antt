-- ===== src/Cover/Roll.antt =====
-- calibration.py: the roll model of the curtain, `roll_tau`, `roll_x` and `clamped_roll`.
use my_home_stability.Prelude.{Option, none, some, if◌then◌else◌}
use my_home_stability.Cover.Number.{Float, num, ◌⊟◌, ◌⊠◌, ◌⊘◌, larger, smaller, same}

module _ {W : Type 0} ⦃f : Float W⦄ where
  -- `MIN_ROLL`, `MAX_ROLL`, `ROLL_LINEAR_TOLERANCE`
  abbrev pub min_roll : W
  min_roll = num 1

  abbrev pub max_roll : W
  max_roll = num 5

  abbrev pub roll_linear_tolerance : W
  roll_linear_tolerance = num 1 ⊘ num 1000000000

  abbrev unit_interval : W → W
  unit_interval x = smaller (num 1) (larger (num 0) x)

  -- `roll_tau`
  unfoldable pub roll_tau : W → W → W
  roll_tau roll x =
      let y = unit_interval x in
      let k = larger min_roll roll in
      if f.le (k ⊟ num 1) roll_linear_tolerance
      then y
      else (k ⊟ f.square_root (k ⊠ k ⊟ (k ⊠ k ⊟ num 1) ⊠ y)) ⊘ (k ⊟ num 1)

  -- `roll_x`
  unfoldable pub roll_x : W → W → W
  roll_x roll tau =
      let t = unit_interval tau in
      let k = larger min_roll roll in
      let left = k ⊟ t ⊠ (k ⊟ num 1) in
      if f.le (k ⊟ num 1) roll_linear_tolerance then t else (k ⊠ k ⊟ left ⊠ left) ⊘ (k ⊠ k ⊟ num 1)

  -- Python's `x or d` on an optional float
  unfoldable pub or_float : Option W → W → W
  or_float none d = d
  or_float (some x) d = if same x (num 0) then d else x

  clamp_roll : W → W
  clamp_roll roll = smaller max_roll (larger min_roll roll)

  -- `clamped_roll`
  unfoldable pub clamped_roll : Option W → W → W
  unfolding clamp_roll
  clamped_roll none fallback = fallback
  clamped_roll (some roll) fallback = if same roll (num 0) then fallback else clamp_roll roll
