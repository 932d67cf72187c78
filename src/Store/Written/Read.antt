-- ===== src/Store/Written/Read.antt =====
-- calibration_store.py: `stored_calibration` of what `cover_calibration_data` writes.
use my_home_stability.Prelude.{
  ℕ, ◌≡◌, refl, String, Bool, true, false, ◌&&◌, Option, none, some, [], ◌∷◌, str_eq, arith,
  if◌then◌else◌, is_some, ◌∙◌, ap,
}
use my_home_stability.Dict.{Dict, lookup, insert, lookup-insert}
use my_home_stability.Store.Record.{Scalar, Value, text, Record}
use my_home_stability.Store.State.{member}
use my_home_stability.Store.Assign.{
  cover_calibration_keys, truthy, as_text, as_mapping, scalar_number, stored_number,
  known_overrides, stored_calibration, or_else,
}
use my_home_stability.Store.Written.{
  instant_or, kept_overrides, with_raw, with_profile, with_height, with_overrides,
  cover_calibration_data,
}

-- The overrides that the travel model knows, in their order.
abbrev pub known_keys : Dict ℕ → Dict ℕ
known_keys [] = []
known_keys ((key, n) ∷ rest) =
    if member key cover_calibration_keys then (key, n) ∷ known_keys rest else known_keys rest

with_raw-lookup :
    (key : String) (raw : Option Value) (r : Record)
    → str_eq "raw" key ≡ false
    → lookup key (with_raw raw r) ≡ lookup key r
unfolding with_raw
with_raw-lookup key none r e = refl
with_raw-lookup key (some v) r e = ground (arith, lookup-insert "raw" key v r, e)

-- the instant that was given, or the present one where none was, or an empty one
abbrev pub dated : String → Option String → String
dated utcnow none = utcnow
dated utcnow (some at) = if str_eq at "" then utcnow else at

instant_or-dated : (utcnow : String) (at : Option String) → instant_or utcnow at ≡ dated utcnow at
unfolding instant_or
instant_or-dated utcnow none = refl
instant_or-dated utcnow (some at) = refl

module _ (float_of : String → Option ℕ) where
  kept-known : (os : Dict ℕ) → known_overrides float_of (kept_overrides os) ≡ known_keys os
  unfolding kept_overrides known_overrides scalar_number
  kept-known [] = refl
  kept-known ((key, n) ∷ rest) = ground (arith, kept-known rest)

  -- The six entries of a record, before `raw`.
  written :
      (id : String) (profile : Option String) (wins : Bool) (height : Option ℕ) (os : Dict Scalar)
      (source at : String)
      → let r = with_overrides os (
          with_height height (
            with_profile profile wins (
              ("cover_unique_id", text id)
              ∷ ("source", text source)
              ∷ ("measured_at", text at)
              ∷ []))) in
        (lookup "cover_unique_id" r ≡ some (text id))
        × (as_text (lookup "profile" r) ≡ profile)
        × (truthy (lookup "profile_wins" r) ≡ (is_some profile && wins))
        × (stored_number float_of (lookup "height" r) ≡ height)
        × (as_mapping (lookup "overrides" r) ≡ os)
        × (lookup "source" r ≡ some (text source))
        × (lookup "measured_at" r ≡ some (text at))
  unfolding with_overrides with_height with_profile lookup insert as_text truthy stored_number
      as_mapping
  written id none wins none [] source at = (refl, refl, refl, refl, refl, refl, refl)
  written id none wins none (o ∷ os) source at = (refl, refl, refl, refl, refl, refl, refl)
  written id none wins (some h) [] source at = (refl, refl, refl, refl, refl, refl, refl)
  written id none wins (some h) (o ∷ os) source at = (refl, refl, refl, refl, refl, refl, refl)
  written id (some p) true none [] source at = (refl, refl, refl, refl, refl, refl, refl)
  written id (some p) true none (o ∷ os) source at = (refl, refl, refl, refl, refl, refl, refl)
  written id (some p) true (some h) [] source at = (refl, refl, refl, refl, refl, refl, refl)
  written id (some p) true (some h) (o ∷ os) source at = (refl, refl, refl, refl, refl, refl, refl)
  written id (some p) false none [] source at = (refl, refl, refl, refl, refl, refl, refl)
  written id (some p) false none (o ∷ os) source at = (refl, refl, refl, refl, refl, refl, refl)
  written id (some p) false (some h) [] source at = (refl, refl, refl, refl, refl, refl, refl)
  written id (some p) false (some h) (o ∷ os) source at = (refl, refl, refl, refl, refl, refl, refl)

  -- A cover's record that is written and read again says what was written: the cover, the profile,
  -- its precedence where there is a profile, the height, the source, the instant (the present one
  -- where none was given, or an empty one), and of the overrides those whose keys the travel model knows.
  pub stored_calibration-cover_calibration_data :
      (utcnow id : String) (profile : Option String) (wins : Bool) (height : Option ℕ) (os : Dict ℕ)
      (source : String) (measured_at : Option String) (raw : Option Value)
      → let c =
          stored_calibration float_of
            (cover_calibration_data utcnow id profile wins height os source measured_at raw) in
        (c.cover_unique_id ≡ some (text id))
        × (c.profile ≡ profile)
        × (c.profile_wins ≡ (is_some profile && wins))
        × (c.height ≡ height)
        × (c.overrides ≡ known_keys os)
        × (c.source ≡ text source)
        × (c.measured_at ≡ some (text (dated utcnow measured_at)))
  unfolding stored_calibration cover_calibration_data or_else
  stored_calibration-cover_calibration_data utcnow id profile wins height os source measured_at
        raw =
      let at = instant_or utcnow measured_at in
      let r = with_overrides (kept_overrides os) (
        with_height height (
          with_profile profile wins (
            ("cover_unique_id", text id)
            ∷ ("source", text source)
            ∷ ("measured_at", text at)
            ∷ []))) in
      let (a, b, c, d, e, g, h) = written id profile wins height (kept_overrides os) source at in
      let skip : (key : String)
          → str_eq "raw" key ≡ false
          → lookup key (with_raw raw r) ≡ lookup key r =
        λ key. with_raw-lookup key raw r in
      (
        skip "cover_unique_id" refl ∙ a,
        ap as_text (skip "profile" refl) ∙ b,
        ap truthy (skip "profile_wins" refl) ∙ c,
        ap (stored_number float_of) (skip "height" refl) ∙ d,
        ap (λ x. known_overrides float_of (as_mapping x)) (skip "overrides" refl)
            ∙ (ap (known_overrides float_of) e ∙ kept-known os),
        ap (λ x. or_else x (text "guided")) (skip "source" refl ∙ g),
        skip "measured_at" refl
            ∙ (h ∙ ap (λ x. some (text x)) (instant_or-dated utcnow measured_at)),
      )
