-- ===== src/Resolve/Covers.antt =====
-- calibration_store.py: `resolve_cover`, and `resolve_cover_config` on a store that is loaded or not.
use my_home_stability.Prelude.{
  ℕ, String, Bool, true, false, ◌&&◌, ◌||◌, Option, none, some, List, [], ◌∷◌, str_eq, is_some,
  if◌then◌else◌,
}
use Prim.Native.String.{◌++◌}
use my_home_stability.Dict.{Dict, lookup, insert}
use my_home_stability.Cover.Number.{Float, num, same}
use my_home_stability.Store.Record.{Record}
use my_home_stability.Store.State.{Store, member}
use my_home_stability.Store.Assign.{
  StoredCalibration, stored_calibration, cover_calibration_keys, has_entries, with_id,
}
use my_home_stability.Resolve.Derive.{
  ProfileConfig, derive_cover_from_profile, shaped_profiles, merged_profiles,
}
use my_home_stability.Resolve.Keys.{
  KeyOrigin, origin_own, origin_profile, origin_file, origin_default, ResolvedKey, Device,
  keys_written_by_the_file, resolve_cover_keys,
}

-- `CALIBRATION_ORIGINS`
pub data Origin : Type 0 where
  measured adjusted inherited from_the_file defaults : Origin

-- a value of the merged configuration
pub data Setting (W : Type 0) : Type 0 where
  of_number : W → Setting W
  of_text : String → Setting W

pub record ResolvedCover (W : Type 0) : Type 0 where
  pub values : Dict (Setting W)
  pub source : String
  pub origin : Origin
  pub profile : Option String
  pub height : Option W
  pub keys : Dict (ResolvedKey W)
  pub inherits : Dict (ResolvedKey W)

unfoldable pub origin_eq : KeyOrigin → KeyOrigin → Bool
origin_eq origin_own origin_own = true
origin_eq origin_profile origin_profile = true
origin_eq origin_file origin_file = true
origin_eq origin_default origin_default = true
origin_eq _ _ = false

-- the keys of `_DERIVED_OVERRIDE_KEYS`
abbrev pub measurable : List String
measurable = "opening_time" ∷ "closing_time" ∷ "slat_time" ∷ "opening_roll" ∷ "closing_roll" ∷ []

-- `said[origin]`
unfoldable pub any_said : {W : Type 0} → KeyOrigin → Dict (ResolvedKey W) → Bool
any_said o [] = false
any_said o ((key, item) ∷ rest) =
    origin_eq item.origin o && member key measurable || any_said o rest

-- `a or b` on an optional text
unfoldable pub text_or : Option String → Option String → Option String
text_or none b = b
text_or (some s) b = if str_eq s "" then b else some s

-- `f"{name}"`
unfoldable pub shown : Option String → String
shown none = "None"
shown (some s) = s

unfoldable pub source_of : Origin → Option String → String
source_of measured name = "guided"
source_of adjusted name = "profile " ++ (shown name ++ ", adjusted")
source_of inherited name = "profile " ++ shown name
source_of _ name = "yaml"

-- `origin`, from what the record, the name and the keys say
unfoldable pub origin_of : Bool → Bool → Bool → Bool → Bool → Origin
origin_of is_a_measurement named of_its_own from_the_profile of_the_file =
    if is_a_measurement
    then (if named && from_the_profile && of_its_own then adjusted else measured)
    else if named
    then inherited
    else if of_the_file
    then from_the_file
    else defaults

unfoldable pub put_height : {W : Type 0} → Option W → Dict (Setting W) → Dict (Setting W)
put_height none values = values
put_height (some h) values = insert "height" (of_number h) values

unfoldable pub put_profile : {W : Type 0} → Option String → Dict (Setting W) → Dict (Setting W)
put_profile none values = values
put_profile (some name) values = insert "profile" (of_text name) values

-- `{key: item.value for key, item in resolved.items()}`
unfoldable pub values_of : {W : Type 0} → Dict (ResolvedKey W) → Dict (Setting W)
values_of [] = []
values_of ((key, item) ∷ rest) = (key, of_number item.value) ∷ values_of rest

module _ {W : Type 0} ⦃f : Float W⦄ where
  -- `a or b` on an optional float
  unfoldable pub number_or : Option W → Option W → Option W
  number_or none b = b
  number_or (some x) b = if same x (num 0) then b else some x

  unfoldable pub find_profile : Dict (ProfileConfig W) → Option String → Option (ProfileConfig W)
  find_profile profiles none = none
  find_profile profiles (some name) = lookup name profiles

  unfoldable pub derived_of : Option (ProfileConfig W) → Option W → Option (Dict W)
  derived_of none height = some []
  derived_of (some p) height = derive_cover_from_profile p height

  unfoldable pub resolved_cover :
      Bool
      → Bool
      → Option String
      → Option W
      → Option (Dict (ResolvedKey W))
      → Option (Dict (ResolvedKey W))
      → Option (ResolvedCover W)
  unfolding origin_of
  resolved_cover is_a_measurement named name height (some resolved) (some without) =
      let origin =
        origin_of is_a_measurement named (any_said origin_own resolved)
          (any_said origin_profile resolved) (any_said origin_file resolved) in
      some (record {
        values = put_profile name (put_height height (values_of resolved));
        source = source_of origin name;
        origin = origin;
        profile = name;
        height = height;
        keys = resolved;
        inherits = without;
      })
  resolved_cover is_a_measurement named name height _ _ = none

  module _ (read : ℕ → W) where
    unfoldable pub read_all : Dict ℕ → Dict W
    read_all [] = []
    read_all ((key, code) ∷ rest) = (key, read code) ∷ read_all rest

    unfoldable pub read_height : Option ℕ → Option W
    read_height none = none
    read_height (some code) = some (read code)

    -- what `resolve_cover` reads off the record, which may be none
    unfoldable pub own_overrides : Option StoredCalibration → Dict W
    own_overrides none = []
    own_overrides (some c) = read_all c.overrides

    unfoldable pub own_profile : Option StoredCalibration → Option String
    own_profile none = none
    own_profile (some c) = c.profile

    unfoldable pub own_height : Option StoredCalibration → Option W
    own_height none = none
    own_height (some c) = read_height c.height

    unfoldable pub follows_a_profile : Option StoredCalibration → Bool
    follows_a_profile none = false
    follows_a_profile (some c) = is_some c.profile && c.profile_wins

    unfoldable pub is_a_measurement : Option StoredCalibration → Bool
    is_a_measurement none = false
    is_a_measurement (some c) = has_entries c.overrides

    -- the rest of `resolve_cover`, from the profile scaled on, where that did not raise
    unfoldable pub resolve_derived :
        Device W
        → Option StoredCalibration
        → Bool
        → Option String
        → Option W
        → Option (Dict W)
        → Option (ResolvedCover W)
    resolve_derived device c named name height none = none
    resolve_derived device c named name height (some derived) =
        let written = keys_written_by_the_file device in
        let wins = follows_a_profile c in
        resolved_cover (is_a_measurement c) named name height
          (resolve_cover_keys device.timings (own_overrides c) derived written wins
            cover_calibration_keys)
          (resolve_cover_keys device.timings [] derived written wins cover_calibration_keys)

    -- `resolve_cover`, `none` where it raises
    unfoldable pub resolve_cover :
        Device W → Dict (ProfileConfig W) → Option StoredCalibration → Option (ResolvedCover W)
    unfolding resolve_derived
    resolve_cover device profiles c =
        let name = text_or (own_profile c) device.profile in
        let height = number_or (own_height c) device.height in
        let profile = find_profile profiles name in
        resolve_derived device c (is_some profile) name height (derived_of profile height)

    module _ (float_of : String → Option ℕ) where
      unfoldable pub read_record : String → Option Record → Option StoredCalibration
      read_record id none = none
      read_record id (some r) = some (stored_calibration float_of (with_id id r))

      unfoldable pub profiles_of : Option Store → Dict (ProfileConfig W)
      profiles_of none = []
      profiles_of (some store) = shaped_profiles float_of read store.profiles

      -- `CalibrationStore.calibration`
      unfoldable pub calibration_of : String → Option Store → Option StoredCalibration
      calibration_of id none = none
      calibration_of id (some store) = read_record id (lookup id store.covers)

      -- `resolve_cover_config`; the store is that of the entry, where it is loaded
      unfoldable pub resolve_cover_config :
          Option Store → Device W → String → Dict (ProfileConfig W) → Option (ResolvedCover W)
      resolve_cover_config store device id yaml_profiles =
          resolve_cover device (merged_profiles yaml_profiles (profiles_of store))
            (calibration_of id store)
