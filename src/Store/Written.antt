-- ===== src/Store/Written.antt =====
-- calibration_store.py: the records that are written, `cover_calibration_data` and
-- `cover_profile_data`.
pub mod Read
mod Tests
use my_home_stability.Prelude.{
  ℕ, String, Bool, true, false, ◌&&◌, ◌||◌, Option, none, some, List, [], ◌∷◌, str_eq,
  if◌then◌else◌, is_some,
}
use my_home_stability.Dict.{Dict, lookup, insert, keys}
use my_home_stability.Store.Record.{
  Scalar, float, Value, flag, number, text, mapping, block, Record,
}
use my_home_stability.Store.State.{member}
use my_home_stability.Store.Assign.{has_entries, cover_calibration_keys, truthy}

-- `measured_at or utcnow().isoformat()`
unfoldable pub instant_or : String → Option String → String
instant_or utcnow none = utcnow
instant_or utcnow (some at) = if str_eq at "" then utcnow else at

-- `kept`, of the overrides
unfoldable pub kept_overrides : Dict ℕ → Dict Scalar
kept_overrides [] = []
kept_overrides ((key, n) ∷ rest) =
    let others = kept_overrides rest in
    if member key cover_calibration_keys then (key, float n) ∷ others else others

-- `data[CONF_RAW] = dict(raw)`, where there is any
unfoldable pub with_raw : Option Value → Record → Record
with_raw none r = r
with_raw (some v) r = if truthy (some v) then insert "raw" v r else r

unfoldable pub with_profile : Option String → Bool → Record → Record
with_profile none wins r = r
with_profile (some p) wins r =
    let named = insert "profile" (text p) r in
    if wins then insert "profile_wins" (flag true) named else named

unfoldable pub with_height : Option ℕ → Record → Record
with_height none r = r
with_height (some h) r = insert "height" (number h) r

unfoldable pub with_overrides : Dict Scalar → Record → Record
with_overrides [] r = r
with_overrides (o ∷ os) r = insert "overrides" (mapping (o ∷ os)) r

-- `cover_calibration_data`; `utcnow` is the instant of the call
unfoldable pub cover_calibration_data :
    String
    → String
    → Option String
    → Bool
    → Option ℕ
    → Dict ℕ
    → String
    → Option String
    → Option Value
    → Record
cover_calibration_data utcnow id profile wins height overrides source measured_at raw =
    with_raw raw (
      with_overrides (kept_overrides overrides) (
        with_height height (
          with_profile profile wins (
            ("cover_unique_id", text id)
            ∷ ("source", text source)
            ∷ ("measured_at", text (instant_or utcnow measured_at))
            ∷ []))))

-- the numbers of a profile
pub record ProfileNumbers : Type 0 where
  pub reference_height : ℕ
  pub opening_time : ℕ
  pub closing_time : ℕ
  pub slat_time : ℕ
  pub opening_roll : ℕ
  pub closing_roll : ℕ

-- an optional value that is written where it is true
unfoldable pub with_true : String → Option Value → Record → Record
with_true key none r = r
with_true key (some v) r = if truthy (some v) then insert key v r else r

-- `cover_profile_data`
unfoldable pub cover_profile_data :
    String
    → String
    → ProfileNumbers
    → Option Value
    → Option Value
    → Value
    → Option String
    → Option Value
    → Record
unfolding with_true
cover_profile_data utcnow name n reference_cover measured_on source measured_at raw = with_raw raw (
    with_true "measured_on" measured_on (
      with_true "reference_cover" reference_cover (
        ("name", text name)
        ∷ ("reference_height", number n.reference_height)
        ∷ ("opening_time", number n.opening_time)
        ∷ ("closing_time", number n.closing_time)
        ∷ ("slat_time", number n.slat_time)
        ∷ ("opening_roll", number n.opening_roll)
        ∷ ("closing_roll", number n.closing_roll)
        ∷ ("source", source)
        ∷ ("measured_at", text (instant_or utcnow measured_at))
        ∷ [])))
