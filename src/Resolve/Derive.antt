-- ===== src/Resolve/Derive.antt =====
-- validate.py, `derive_cover_from_profile`, and calibration_store.py, `profile_as_config`: a profile
-- and what it says of a window. `read` is the float of a code.
use my_home_stability.Prelude.{
  ℕ, String, Bool, false, not, Option, none, some, [], ◌∷◌, str_eq, ◌==◌, ◌||◌, if◌then◌else◌,
  is_some, ◌≡◌, refl, arith,
}
use my_home_stability.Dict.{Dict, lookup, insert}
use my_home_stability.Cover.Number.{Float, same, num, ◌⊞◌, ◌⊟◌, ◌⊠◌, ◌⊘◌}
use my_home_stability.Store.Record.{Record}
use my_home_stability.Store.Assign.{stored_number}

-- a profile in the shape of `cover_profiles:`
pub record ProfileConfig (W : Type 0) : Type 0 where
  pub reference_height : W
  pub opening_time : W
  pub closing_time : W
  pub slat_time : W
  pub roll : W
  pub opening_roll : W
  pub closing_roll : W
  pub stop_latency : W
  pub start_delay : W

unfoldable pub usable_with : String → Option ℕ → Option ℕ → Bool
usable_with name (some opening) (some reference) = not (str_eq name "" || reference == 0)
usable_with name _ _ = false

-- `profile_as_config` makes a profile of the record.
unfoldable pub usable : (String → Option ℕ) → String → Record → Bool
unfolding usable_with
usable float_of name r =
    usable_with name (stored_number float_of (lookup "opening_time" r))
      (stored_number float_of (lookup "reference_height" r))

module _ {W : Type 0} ⦃f : Float W⦄ where
  -- `_grown_roll`; `none` is the `ValueError` of a negative number's root
  unfoldable pub grown_roll : W → W → Option W
  grown_roll k_ref ratio =
      let grown = num 1 ⊞ (k_ref ⊠ k_ref ⊟ num 1) ⊠ ratio in
      if f.lt grown (num 0) then none else some (f.square_root grown)

  -- the profile at a ratio, with its closing roll, its roll and its opening roll grown
  unfoldable pub scaled_by : ProfileConfig W → W → Option W → Option W → Option W → Option (Dict W)
  scaled_by p ratio (some closing) (some roll) (some opening) =
      let curtain_scale = ratio ⊠ (p.closing_roll ⊞ num 1) ⊘ (closing ⊞ num 1) in
      let slat = p.slat_time ⊠ ratio in
      some (
        ("opening_time", slat ⊞ (p.opening_time ⊟ p.slat_time) ⊠ curtain_scale)
        ∷ ("closing_time", slat ⊞ (p.closing_time ⊟ p.slat_time) ⊠ curtain_scale)
        ∷ ("slat_time", slat)
        ∷ ("roll", roll)
        ∷ ("opening_roll", opening)
        ∷ ("closing_roll", closing)
        ∷ ("stop_latency", p.stop_latency)
        ∷ ("start_delay", p.start_delay)
        ∷ [])
  scaled_by p ratio _ _ _ = none

  -- `none` is a `ZeroDivisionError` too
  unfoldable pub scaled : ProfileConfig W → W → Option (Dict W)
  unfolding scaled_by
  scaled p height =
      let ratio = height ⊘ p.reference_height in
      if same p.reference_height (num 0)
      then none
      else scaled_by p ratio (grown_roll p.closing_roll ratio) (grown_roll p.roll ratio)
          (grown_roll p.opening_roll ratio)

  unfoldable pub as_it_stands : ProfileConfig W → Dict W
  as_it_stands p =
      ("opening_time", p.opening_time)
      ∷ ("closing_time", p.closing_time)
      ∷ ("slat_time", p.slat_time)
      ∷ ("roll", p.roll)
      ∷ ("opening_roll", p.opening_roll)
      ∷ ("closing_roll", p.closing_roll)
      ∷ ("stop_latency", p.stop_latency)
      ∷ ("start_delay", p.start_delay)
      ∷ []

  -- `derive_cover_from_profile`, `none` where it raises
  unfoldable pub derive_cover_from_profile : ProfileConfig W → Option W → Option (Dict W)
  derive_cover_from_profile p none = some (as_it_stands p)
  derive_cover_from_profile p (some height) = scaled p height

  module _ (float_of : String → Option ℕ) (read : ℕ → W) where
    unfoldable pub read_or : W → Option ℕ → W
    read_or fallback none = fallback
    read_or fallback (some code) = read code

    unfoldable pub number_at : Record → String → W → W
    number_at r key fallback = read_or fallback (stored_number float_of (lookup key r))

    unfoldable pub config_with : String → Record → Option ℕ → Option ℕ → Option (ProfileConfig W)
    config_with name r (some opening) (some reference) =
        let closing = number_at r "closing_roll" (number_at r "roll" (num 1)) in
        if str_eq name "" || reference == 0
        then none
        else some (record {
          reference_height = read reference;
          opening_time = read opening;
          closing_time = number_at r "closing_time" (read opening);
          slat_time = number_at r "slat_time" (num 0);
          roll = closing;
          opening_roll = number_at r "opening_roll" closing;
          closing_roll = closing;
          stop_latency = number_at r "stop_latency" (num 1 ⊘ num 10);
          start_delay = number_at r "start_delay" (num 1 ⊘ num 2);
        })
    config_with name r _ _ = none

    is_some-config_with :
        (name : String) (r : Record) (opening reference : Option ℕ)
        → is_some (config_with name r opening reference) ≡ usable_with name opening reference
    unfolding config_with usable_with
    is_some-config_with name r (some o) (some n) = ground arith
    is_some-config_with name r none n = refl
    is_some-config_with name r (some o) none = refl

    -- `profile_as_config`
    unfoldable pub profile_as_config : String → Record → Option (ProfileConfig W)
    unfolding config_with
    profile_as_config name r =
        config_with name r (stored_number float_of (lookup "opening_time" r))
          (stored_number float_of (lookup "reference_height" r))

    pub is_some-profile_as_config :
        (name : String) (r : Record) → is_some (profile_as_config name r) ≡ usable float_of name r
    unfolding profile_as_config config_with usable usable_with
    is_some-profile_as_config name r =
        is_some-config_with name r (stored_number float_of (lookup "opening_time" r))
          (stored_number float_of (lookup "reference_height" r))

    unfoldable pub add_shaped :
        String → Option (ProfileConfig W) → Dict (ProfileConfig W) → Dict (ProfileConfig W)
    add_shaped name none rest = rest
    add_shaped name (some p) rest = (name, p) ∷ rest

    -- `CalibrationStore.profiles`
    unfoldable pub shaped_profiles : Dict Record → Dict (ProfileConfig W)
    shaped_profiles [] = []
    shaped_profiles ((name, r) ∷ rest) =
        add_shaped name (profile_as_config name r) (shaped_profiles rest)

-- `merged_profiles`
unfoldable pub merged_profiles : {V : Type 0} → Dict V → Dict V → Dict V
merged_profiles from_yaml [] = from_yaml
merged_profiles from_yaml ((name, p) ∷ rest) = merged_profiles (insert name p from_yaml) rest
