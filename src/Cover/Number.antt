-- ===== src/Cover/Number.antt =====
-- All that cover.py and calibration.py do with a float: whole constants, the four operations, the
-- square root, two comparisons and `round`. Instants and durations are seconds on the same numbers.
use my_home_stability.Prelude.{ℕ, min, Bool, ◌&&◌, if◌then◌else◌}

-- the integers that `round` gives
pub data ℤ : Type 0 where
  pos negsuc : ℕ → ℤ

pub record Float (W : Type 0) : Type 0 where
  pub of : ℕ → W
  pub plus : W → W → W
  pub minus : W → W → W
  pub times : W → W → W
  pub over : W → W → W
  pub square_root : W → W
  pub le : W → W → Bool
  pub lt : W → W → Bool
  pub round : W → ℤ

module _ {W : Type 0} ⦃f : Float W⦄ where
  abbrev pub num : ℕ → W
  num = f.of

  infixl 6 ◌⊞◌ ◌⊟◌
  infixl 7 ◌⊠◌ ◌⊘◌
  abbrev pub ◌⊞◌ : W → W → W
  ◌⊞◌ = f.plus

  abbrev pub ◌⊟◌ : W → W → W
  ◌⊟◌ = f.minus

  abbrev pub ◌⊠◌ : W → W → W
  ◌⊠◌ = f.times

  abbrev pub ◌⊘◌ : W → W → W
  ◌⊘◌ = f.over

  -- `max(a, b)` and `min(a, b)`, which give the first argument where the other is no better
  unfoldable pub larger : W → W → W
  larger a b = if f.lt a b then b else a

  unfoldable pub smaller : W → W → W
  smaller a b = if f.lt b a then b else a

  -- `a == b`
  unfoldable pub same : W → W → Bool
  same a b = f.le a b && f.le b a

-- `max(0, min(100, n))`
unfoldable pub clamp_percent : ℤ → ℕ
clamp_percent (pos n) = min 100 n
clamp_percent (negsuc _) = 0
