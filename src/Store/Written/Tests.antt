-- ===== src/Store/Written/Tests.antt =====
-- A record that is written and read again, at concrete data.
use my_home_stability.Prelude.{ℕ, ◌≡◌, String, true, Option, none, some, [], ◌∷◌}
use my_home_stability.Store.Record.{text}
use my_home_stability.Store.Assign.{stored_calibration}
use my_home_stability.Store.Written.{cover_calibration_data}
use my_home_stability.Store.Written.Read.{known_keys, stored_calibration-cover_calibration_data}

abbrev never : String → Option ℕ
never s = none

stored_calibration-cover_calibration_data_example :
    let c = stored_calibration never (
      cover_calibration_data "now" "c1"
        (some "tall")
        true
        (some 90)
        (("slat_time", 3) ∷ ("colour", 7) ∷ [])
        "guided"
        (some "then")
        none) in
    (c.cover_unique_id ≡ some (text "c1"))
    × (c.profile ≡ some "tall")
    × (c.profile_wins ≡ true)
    × (c.height ≡ some 90)
    × (c.overrides ≡ known_keys (("slat_time", 3) ∷ ("colour", 7) ∷ []))
    × (c.source ≡ text "guided")
    × (c.measured_at ≡ some (text "then"))
stored_calibration-cover_calibration_data_example =
    stored_calibration-cover_calibration_data never "now" "c1" (some "tall") true (some 90)
      (("slat_time", 3) ∷ ("colour", 7) ∷ []) "guided" (some "then") none
