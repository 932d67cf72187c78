-- ===== src/Resolve/Tests.antt =====
-- A window of two metres and the profile of one of a metre, whose floats are whole thousandths.
use my_home_stability.Prelude.{
  ℕ, ◌+◌, ◌-◌, ◌*◌, ◌/◌, ◌≡◌, refl, String, true, Option, none, some, [], ◌∷◌, ltb, leb,
}
use my_home_stability.Dict.{Dict, lookup, insert, keys}
use my_home_stability.Cover.Number.{Float, pos, same}
use my_home_stability.Store.Record.{text, record_eq, within, matches}
use my_home_stability.Store.State.{save, member, Store}
use my_home_stability.Store.Assign.{
  known_overrides, as_mapping, as_text, truthy, assign_all, assign_one, assigned, assign_profile,
  assign_height, stamped, record_or_empty, says_anything, stored_calibration, with_id,
  stored_number, set_assignments, StoredCalibration,
}
use my_home_stability.Resolve.Derive.{
  merged_profiles, shaped_profiles, ProfileConfig, derive_cover_from_profile, scaled, scaled_by,
  grown_roll,
}
use my_home_stability.Resolve.Keys.{
  Device, ResolvedKey, origin_own, origin_profile, resolve_cover_keys, gather, add_key, resolve_key,
  said_or, keys_written_by_the_file, widened,
}
use my_home_stability.Resolve.Covers.{
  resolve_derived, read_record, resolve_cover_config, calibration_of, ResolvedCover, of_number,
  of_text, adjusted, resolve_cover, resolved_cover, own_overrides, own_profile, own_height,
  follows_a_profile, is_a_measurement, text_or, number_or, find_profile, derived_of, read_all,
  read_height, origin_of, any_said, origin_eq, source_of, shown, put_height, put_profile, values_of,
}
use my_home_stability.Resolve.Inherited.{
  mapped, unmeasured, own_or, resolve_cover-inherits, keys-inherits,
}
use my_home_stability.Resolve.Answers.{profile_key}
use my_home_stability.Store.Obeys.{each}
use my_home_stability.Resolve.Assigned.{set_assignments-resolve}
use my_home_stability.Resolve.Precedence.{height_now, resolve_cover-wins}

-- whole numbers only: the profile is of the window's own height
instance abbrev plain : Float ℕ
plain = record {
  of = λ n. n;
  plus = λ a b. a + b;
  minus = λ a b. a - b;
  times = λ a b. a * b;
  over = λ a b. a / b;
  square_root = λ a. a;
  le = leb;
  lt = ltb;
  round = pos;
}

abbrev tall : ProfileConfig ℕ
tall = record {
  reference_height = 200;
  opening_time = 20;
  closing_time = 18;
  slat_time = 2;
  roll = 1;
  opening_roll = 1;
  closing_roll = 1;
  stop_latency = 0;
  start_delay = 1;
}

-- The file writes an opening time.
abbrev window : Device ℕ
window = record {
  keys_from_file = "opening_time" ∷ [];
  profile = none;
  height = some 200;
  timings =
      ("opening_time", 30)
      ∷ ("closing_time", 30)
      ∷ ("slat_time", 0)
      ∷ ("roll", 1)
      ∷ ("opening_roll", 1)
      ∷ ("closing_roll", 1)
      ∷ ("stop_latency", 0)
      ∷ ("start_delay", 1)
      ∷ [];
}

-- The record follows the profile, and a closing time was measured.
abbrev told : StoredCalibration
told = record {
  cover_unique_id = none;
  profile = some "tall";
  profile_wins = true;
  height = none;
  overrides = ("closing_time", 17) ∷ [];
  source = text "guided";
  measured_at = none;
}

abbrev as_read : ℕ → ℕ
as_read n = n

abbrev profiles : Dict (ProfileConfig ℕ)
profiles = ("tall", tall) ∷ []

abbrev inherited_keys : Dict (ResolvedKey ℕ)
inherited_keys =
    ("opening_time", record { value = 20; origin = origin_profile })
    ∷ ("closing_time", record { value = 18; origin = origin_profile })
    ∷ ("slat_time", record { value = 2; origin = origin_profile })
    ∷ ("roll", record { value = 1; origin = origin_profile })
    ∷ ("opening_roll", record { value = 1; origin = origin_profile })
    ∷ ("closing_roll", record { value = 1; origin = origin_profile })
    ∷ ("stop_latency", record { value = 0; origin = origin_profile })
    ∷ ("start_delay", record { value = 1; origin = origin_profile })
    ∷ []

abbrev resolved : ResolvedCover ℕ
resolved = record {
  values =
      ("opening_time", of_number 20)
      ∷ ("closing_time", of_number 17)
      ∷ ("slat_time", of_number 2)
      ∷ ("roll", of_number 1)
      ∷ ("opening_roll", of_number 1)
      ∷ ("closing_roll", of_number 1)
      ∷ ("stop_latency", of_number 0)
      ∷ ("start_delay", of_number 1)
      ∷ ("height", of_number 200)
      ∷ ("profile", of_text "tall")
      ∷ [];
  source = "profile tall, adjusted";
  origin = adjusted;
  profile = some "tall";
  height = some 200;
  keys = insert "closing_time" (record { value = 17; origin = origin_own }) inherited_keys;
  inherits = inherited_keys;
}

-- The profile answers for all keys but the measured one, over the file's opening time.
window-resolved : resolve_cover as_read window profiles (some told) ≡ some resolved
unfolding resolve_cover resolve_derived scaled_by resolved_cover own_overrides own_profile
    own_height follows_a_profile is_a_measurement text_or number_or find_profile derived_of read_all
    read_height resolve_cover_keys gather add_key resolve_key said_or keys_written_by_the_file
    widened member lookup insert derive_cover_from_profile scaled grown_roll origin_of any_said
    origin_eq source_of shown put_height put_profile values_of same
window-resolved = refl

resolve_cover-inherits_example :
    mapped (λ r. r.keys) (resolve_cover as_read window profiles (some (unmeasured told)))
    ≡ mapped (λ r. r.inherits) (resolve_cover as_read window profiles (some told))
resolve_cover-inherits_example = resolve_cover-inherits as_read window profiles told

keys-inherits_example :
    lookup "closing_time" resolved.keys
    ≡ own_or
        (lookup "closing_time" (read_all as_read told.overrides))
        (lookup "closing_time" resolved.inherits)
unfolding member
keys-inherits_example =
    keys-inherits as_read window profiles told resolved "closing_time" window-resolved refl

resolve_cover-wins_example :
    (derived : Dict ℕ) × (r : ResolvedCover ℕ) × (derive_cover_from_profile tall
        (height_now as_read window profiles told)
      ≡ some derived)
    × (resolve_cover as_read window profiles (some told) ≡ some r)
    × (r.profile ≡ some "tall")
    × (lookup "opening_time" r.keys
        ≡ own_or
            (lookup "opening_time" (read_all as_read told.overrides))
            (profile_key (lookup "opening_time" derived)))
unfolding lookup member own_height read_height number_or same
resolve_cover-wins_example =
    resolve_cover-wins as_read window profiles told "tall" tall "opening_time" refl refl refl refl
      refl refl

abbrev no_text_is_a_float : String → Option ℕ
no_text_is_a_float s = none

abbrev untouched : Store
untouched = record { profiles = []; covers = []; order = []; undo = none; saves = 0 }

set_assignments-resolve_example :
    let t = (set_assignments no_text_is_a_float "now" (each "tall" ("w1" ∷ [])) untouched).0 in
    let c = calibration_of as_read no_text_is_a_float "w1" (some t) in
    (derived : Dict ℕ) × (r : ResolvedCover ℕ) × (derive_cover_from_profile tall
        (number_or (own_height as_read c) window.height)
      ≡ some derived)
    × (resolve_cover_config as_read no_text_is_a_float (some t) window "w1" profiles ≡ some r)
    × (r.profile ≡ some "tall")
    × (lookup "opening_time" r.keys
        ≡ own_or
            (lookup "opening_time" (own_overrides as_read c))
            (profile_key (lookup "opening_time" derived)))
unfolding member lookup merged_profiles shaped_profiles calibration_of read_record own_height
    number_or same set_assignments assign_all assign_one each assigned assign_profile assign_height
    stamped record_or_empty says_anything stored_calibration with_id record_eq stored_number save
    insert within matches known_overrides as_mapping as_text read_height truthy
set_assignments-resolve_example =
    set_assignments-resolve as_read no_text_is_a_float "tall" "now" window profiles ("w1" ∷ [])
      untouched "w1" tall "opening_time" refl refl refl refl refl
