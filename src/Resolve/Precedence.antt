-- ===== src/Resolve/Precedence.antt =====
-- calibration_store.py, `resolve_cover`: a profile that a shutter was told to follow, and that the
-- resolution does not fail.
use my_home_stability.Prelude.{ℕ, ◌≡◌, ap, ◌∙◌, String, true, false, Option, some, is_some, str_eq}
use my_home_stability.Dict.{Dict, lookup}
use my_home_stability.Cover.Number.{Float}
use my_home_stability.Store.State.{member}
use my_home_stability.Store.Assign.{StoredCalibration, cover_calibration_keys}
use my_home_stability.Resolve.Derive.{ProfileConfig, derive_cover_from_profile}
use my_home_stability.Resolve.Keys.{KeyAnswer, Device, keys_written_by_the_file}
use my_home_stability.Resolve.Covers.{
  ResolvedCover, resolve_derived, resolve_cover, own_overrides, own_profile, own_height,
  follows_a_profile, is_a_measurement, text_or, number_or, find_profile, derived_of, read_all,
}
use my_home_stability.Resolve.Gathered.{item_of, kept, lookup-kept}
use my_home_stability.Resolve.Inherited.{own_or, with_own, without_own, item-with_own}
use my_home_stability.Resolve.Answers.{profile_key, profile_key-some, won, derives, all_said}
use my_home_stability.Resolve.Scales.{scales, derive-scales, some_of}

module _ {W : Type 0} ⦃f : Float W⦄ where
  module _ (read : ℕ → W) (device : Device W) (profiles : Dict (ProfileConfig W))
      (c : StoredCalibration) where
    abbrev pub name_now : Option String
    name_now = text_or (own_profile read (some c)) device.profile

    abbrev pub height_now : Option W
    height_now = number_or (own_height read (some c)) device.height

    derived_now : Option (Dict W)
    derived_now = derived_of (find_profile profiles name_now) height_now

    module _ (derived : Dict W) where
      own_answer : String → KeyAnswer W
      own_answer =
          with_own device.timings (own_overrides read (some c)) derived
            (keys_written_by_the_file device) (follows_a_profile read (some c))

      answer : String → KeyAnswer W
      answer =
          without_own device.timings (own_overrides read (some c)) derived
            (keys_written_by_the_file device) (follows_a_profile read (some c))

      resolved_all :
          derived_now ≡ some derived
          → ((k : String)
              → member k cover_calibration_keys ≡ true
              → is_some (item_of (answer k)) ≡ true)
          → (r : ResolvedCover W) × (resolve_cover read device profiles (some c) ≡ some r)
            × (r.keys ≡ kept own_answer cover_calibration_keys)
            × (r.profile ≡ name_now)
      unfolding resolve_cover resolve_derived derived_now own_answer answer
      resolved_all e h = rw e (
          all_said device.timings (own_overrides read (some c)) derived
            (keys_written_by_the_file device) (follows_a_profile read (some c))
            (is_a_measurement read (some c)) (is_some (find_profile profiles name_now)) name_now
            height_now h)

      own_item :
          (k : String)
          → item_of (own_answer k)
            ≡ own_or (lookup k (read_all read c.overrides)) (item_of (answer k))
      unfolding own_answer answer own_overrides
      own_item k =
          item-with_own device.timings (own_overrides read (some c)) derived
            (keys_written_by_the_file device) (follows_a_profile read (some c)) k

      won_answer :
          (k : String)
          → follows_a_profile read (some c) ≡ true
          → is_some (lookup k derived) ≡ true
          → item_of (answer k) ≡ profile_key (lookup k derived)
      unfolding answer
      won_answer k w e = rw w (
          won device.timings (own_overrides read (some c)) derived (keys_written_by_the_file device)
            k e)

    -- A shutter whose record says a profile, by a name that is not empty, and that the profile
    -- wins, runs on that profile where the profile exists and can be scaled to the height of the
    -- window: the resolution does not fail, and every one of the travel keys is the record's own
    -- number, or else the profile's, scaled. No key is taken from the file, whatever it writes.
    pub resolve_cover-wins :
        (name : String) (p : ProfileConfig W) (k : String)
        → c.profile ≡ some name
        → c.profile_wins ≡ true
        → str_eq name "" ≡ false
        → lookup name profiles ≡ some p
        → scales p height_now ≡ true
        → member k cover_calibration_keys ≡ true
        → (derived : Dict W) × (r : ResolvedCover W) × (derive_cover_from_profile p height_now
            ≡ some derived)
          × (resolve_cover read device profiles (some c) ≡ some r)
          × (r.profile ≡ some name)
          × (lookup k r.keys
              ≡ own_or (lookup k (read_all read c.overrides)) (profile_key (lookup k derived)))
    resolve_cover-wins name p k e w n l s m =
        let (derived, d) =
          some_of (derive_cover_from_profile p height_now) (derive-scales p height_now ∙ s) in
        let name_is : name_now ≡ some name = unfold text_or in unfold own_profile in rw (e, n) in
        let found : derived_now ≡ some derived =
          unfold derived_now in unfold find_profile in unfold derived_of in rw (name_is, l) d in
        let wins : follows_a_profile read (some c) ≡ true = unfold follows_a_profile in rw (e, w) in
        let (r, q, ks, nm) = resolved_all derived found (λ j mj.
          rw (won_answer derived j wins (derives p height_now derived j d mj))
            (profile_key-some (lookup j derived) (derives p height_now derived j d mj))) in
        (
          derived,
          r,
          d,
          q,
          nm ∙ name_is,
          ap (lookup k) ks
              ∙ lookup-kept (own_answer derived) k cover_calibration_keys m
              ∙ own_item derived k
              ∙ ap (own_or (lookup k (read_all read c.overrides)))
                  (won_answer derived k wins (derives p height_now derived k d m)),
        )
