-- ===== src/Resolve/Keys.antt =====
-- calibration_store.py: `keys_written_by_the_file` and the precedence loop `resolve_cover_keys`.
use my_home_stability.Prelude.{String, Bool, Option, none, some, List, [], ◌∷◌, ◌++◌, if◌then◌else◌}
use my_home_stability.Dict.{Dict, lookup}
use my_home_stability.Store.State.{member}

-- `CALIBRATION_KEY_ORIGINS`
pub data KeyOrigin : Type 0 where
  origin_own origin_profile origin_file origin_default : KeyOrigin

pub record ResolvedKey (W : Type 0) : Type 0 where
  pub value : W
  pub origin : KeyOrigin

-- what the validator made of a cover: the travel keys, those that the file wrote, and its two lines
-- about a profile
pub record Device (W : Type 0) : Type 0 where
  pub keys_from_file : List String
  pub profile : Option String
  pub height : Option W
  pub timings : Dict W

-- `_IMPLIED_BY_THE_FILE`, one entry of it
unfoldable pub widened : String → List String → List String → List String
widened key implied written = if member key written then implied ++ written else written

-- `keys_written_by_the_file`
unfoldable pub keys_written_by_the_file : {W : Type 0} → Device W → List String
keys_written_by_the_file device =
    widened "opening_time" ("closing_time" ∷ [])
      (widened "roll" ("opening_roll" ∷ "closing_roll" ∷ []) device.keys_from_file)

-- One key: resolved, left out, or a `KeyError` of `device[key]`.
pub data KeyAnswer (W : Type 0) : Type 0 where
  says : ResolvedKey W → KeyAnswer W
  silent : KeyAnswer W
  key_error : KeyAnswer W

module _ {W : Type 0} where
  unfoldable pub said_or : KeyOrigin → Option W → KeyAnswer W → KeyAnswer W
  said_or o none next = next
  said_or o (some v) next = says (record { value = v; origin = o })

  unfoldable pub add_key :
      String → KeyAnswer W → Option (Dict (ResolvedKey W)) → Option (Dict (ResolvedKey W))
  add_key key (says r) (some rest) = some ((key, r) ∷ rest)
  add_key key silent (some rest) = some rest
  add_key key key_error (some rest) = none
  add_key key _ none = none

  -- the loop, whatever decides one key
  unfoldable pub gather : (String → KeyAnswer W) → List String → Option (Dict (ResolvedKey W))
  gather answer [] = some []
  gather answer (key ∷ rest) = add_key key (answer key) (gather answer rest)

  -- one round of the loop; `timings` is the device
  unfoldable pub resolve_key : Dict W → Dict W → Dict W → List String → Bool → String → KeyAnswer W
  unfolding said_or
  resolve_key timings overrides derived written wins key =
      said_or origin_own (lookup key overrides) (
        said_or origin_profile (if wins then lookup key derived else none) (
          if member key written
          then said_or origin_file (lookup key timings) key_error
          else said_or origin_profile (lookup key derived)
              (said_or origin_default (lookup key timings) silent)))

  -- `resolve_cover_keys`
  unfoldable pub resolve_cover_keys :
      Dict W → Dict W → Dict W → List String → Bool → List String → Option (Dict (ResolvedKey W))
  resolve_cover_keys timings overrides derived written wins keys =
      gather (resolve_key timings overrides derived written wins) keys
