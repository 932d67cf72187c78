-- ===== src/Resolve/Inherited.antt =====
-- calibration_store.py, `resolve_cover`: what a shutter falls back to without its own measurements.
use my_home_stability.Prelude.{
  ℕ, ◌≡◌, refl, ap, String, Bool, true, false, Option, none, some, List, [], arith, is_some,
}
use mathlib.Core.Option.{some-injective}
use my_home_stability.Dict.{Dict, lookup}
use my_home_stability.Cover.Number.{Float}
use my_home_stability.Store.State.{member}
use my_home_stability.Store.Assign.{StoredCalibration, cover_calibration_keys}
use my_home_stability.Resolve.Derive.{ProfileConfig}
use my_home_stability.Resolve.Keys.{
  ResolvedKey, Device, KeyAnswer, origin_own, said_or, resolve_key, resolve_cover_keys,
  keys_written_by_the_file,
}
use my_home_stability.Resolve.Covers.{
  ResolvedCover, resolve_derived, resolve_cover, resolved_cover, own_overrides, own_profile,
  own_height, follows_a_profile, is_a_measurement, text_or, number_or, find_profile, derived_of,
  read_all,
}
use my_home_stability.Resolve.Gathered.{
  raises, item_of, kept, any_raises, unless_raised, gather-kept, lookup-kept, any_raises_mono,
  gather-some,
}

abbrev pub mapped : {A B : Type 0} → (A → B) → Option A → Option B
mapped g none = none
mapped g (some a) = some (g a)

-- the record of a cover with its measurements taken away
abbrev pub unmeasured : StoredCalibration → StoredCalibration
unmeasured c = record {
  cover_unique_id = c.cover_unique_id;
  profile = c.profile;
  profile_wins = c.profile_wins;
  height = c.height;
  overrides = [];
  source = c.source;
  measured_at = c.measured_at;
}

-- a number of the window's own, or else the other answer
abbrev pub own_or : {W : Type 0} → Option W → Option (ResolvedKey W) → Option (ResolvedKey W)
own_or none other = other
own_or (some v) other = some (record { value = v; origin = origin_own })

module _ {W : Type 0} where
  item-said_or :
      (o : Option W) (next : KeyAnswer W)
      → item_of (said_or origin_own o next) ≡ own_or o (item_of next)
  unfolding item_of said_or
  item-said_or none next = refl
  item-said_or (some v) next = refl

  raises-said_or :
      (o : Option W) (next : KeyAnswer W)
      → raises next ≡ false
      → raises (said_or origin_own o next) ≡ false
  unfolding raises said_or
  raises-said_or none next e = e
  raises-said_or (some v) next e = refl

  module _ (timings overrides derived : Dict W) (written : List String) (wins : Bool) where
    unfoldable pub with_own : String → KeyAnswer W
    with_own = resolve_key timings overrides derived written wins

    unfoldable pub without_own : String → KeyAnswer W
    without_own = resolve_key timings [] derived written wins

    pub item-with_own :
        (k : String) → item_of (with_own k) ≡ own_or (lookup k overrides) (item_of (without_own k))
    unfolding with_own without_own resolve_key lookup said_or
    item-with_own k = item-said_or (lookup k overrides) (without_own k)

    raises-with_own : (k : String) → raises (without_own k) ≡ false → raises (with_own k) ≡ false
    unfolding with_own without_own resolve_key lookup said_or
    raises-with_own k e = raises-said_or (lookup k overrides) (without_own k) e

    -- the loop without a window's own numbers, and with them
    without_loop : Option (Dict (ResolvedKey W))
    without_loop = resolve_cover_keys timings [] derived written wins cover_calibration_keys

    with_loop : Option (Dict (ResolvedKey W))
    with_loop = resolve_cover_keys timings overrides derived written wins cover_calibration_keys

    lookup-with_loop :
        (d d' : Dict (ResolvedKey W)) (k : String)
        → with_loop ≡ some d
        → without_loop ≡ some d'
        → member k cover_calibration_keys ≡ true
        → lookup k d ≡ own_or (lookup k overrides) (lookup k d')
    unfolding with_own without_own with_loop without_loop resolve_cover_keys
    lookup-with_loop d d' k e e' m =
        rw
          (
            gather-some with_own cover_calibration_keys d e,
            gather-some without_own cover_calibration_keys d' e',
            lookup-kept with_own k cover_calibration_keys m,
            lookup-kept without_own k cover_calibration_keys m,
          )
          (item-with_own k)

  module _ ⦃f : Float W⦄ where
    both :
        (a a' b b' : Bool) (d d' : Dict (ResolvedKey W)) (named : Bool) (name : Option String)
        (height : Option W)
        → (b' ≡ false → b ≡ false)
        → mapped
            (λ r. r.keys)
            (resolved_cover a' named name height (unless_raised b' d') (unless_raised b' d'))
          ≡ mapped
              (λ r. r.inherits)
              (resolved_cover a named name height (unless_raised b d) (unless_raised b' d'))
    unfolding resolved_cover unless_raised
    both a a' true true d d' named name height h = refl
    both a a' false true d d' named name height h = refl
    both a a' false false d d' named name height h = refl
    both a a' true false d d' named name height h = ground (arith, h)

    parts :
        (a named : Bool) (name : Option String) (height : Option W)
        (k k' : Option (Dict (ResolvedKey W))) (r : ResolvedCover W)
        → resolved_cover a named name height k k' ≡ some r
        → (k ≡ some r.keys) × (k' ≡ some r.inherits)
    unfolding resolved_cover
    parts a named name height (some d) (some d') r e =
        let same = some-injective _ r e in
        (ap (λ x. some x.keys) same, ap (λ x. some x.inherits) same)
    parts a named name height (some d) none r e = ground (arith, e)
    parts a named name height none (some d') r e = ground (arith, e)
    parts a named name height none none r e = ground (arith, e)

    loops :
        (timings overrides derived : Dict W) (written : List String) (wins a a' named : Bool)
        (name : Option String) (height : Option W)
        → mapped
            (λ r. r.keys)
            (resolved_cover a' named name height
              (without_loop timings overrides derived written wins)
              (without_loop timings overrides derived written wins))
          ≡ mapped
              (λ r. r.inherits)
              (resolved_cover a named name height
                (with_loop timings overrides derived written wins)
                (without_loop timings overrides derived written wins))
    unfolding with_loop without_loop resolve_cover_keys with_own without_own
    loops timings overrides derived written wins a a' named name height =
        let own = with_own timings overrides derived written wins in
        let none_own = without_own timings overrides derived written wins in
        rw (gather-kept own cover_calibration_keys, gather-kept none_own cover_calibration_keys)
          (both a a' (any_raises own cover_calibration_keys)
            (any_raises none_own cover_calibration_keys) (kept own cover_calibration_keys)
            (kept none_own cover_calibration_keys) named name height
            (any_raises_mono own none_own (raises-with_own timings overrides derived written wins)
              cover_calibration_keys))

    module _ (read : ℕ → W) (device : Device W) (profiles : Dict (ProfileConfig W))
        (c : StoredCalibration) where
      abbrev name : Option String
      name = text_or (own_profile read (some c)) device.profile

      abbrev height : Option W
      height = number_or (own_height read (some c)) device.height

      abbrev profile : Option (ProfileConfig W)
      profile = find_profile profiles name

      -- both runs of the resolution from the scaled profile on
      derived_inherits :
          (o : Option (Dict W))
          → mapped
              (λ r. r.keys)
              (resolve_derived read device (some (unmeasured c)) (is_some profile) name height o)
            ≡ mapped
                (λ r. r.inherits)
                (resolve_derived read device (some c) (is_some profile) name height o)
      unfolding resolve_derived own_overrides read_all follows_a_profile is_a_measurement with_loop
          without_loop
      derived_inherits none = refl
      derived_inherits (some derived) =
          loops device.timings (read_all read c.overrides) derived (keys_written_by_the_file device)
            (follows_a_profile read (some c)) (is_a_measurement read (some c)) false
            (is_some profile) name height

      -- What a shutter inherits, key by key, is what it would run on with the measurements of its
      -- record taken away, and the resolution fails for the one where it fails for the other.
      pub resolve_cover-inherits :
          mapped (λ r. r.keys) (resolve_cover read device profiles (some (unmeasured c)))
          ≡ mapped (λ r. r.inherits) (resolve_cover read device profiles (some c))
      unfolding resolve_cover own_profile own_height
      resolve_cover-inherits = derived_inherits (derived_of profile height)

      derived_keys :
          (o : Option (Dict W)) (r : ResolvedCover W) (k : String)
          → resolve_derived read device (some c) (is_some profile) name height o ≡ some r
          → member k cover_calibration_keys ≡ true
          → lookup k r.keys ≡ own_or (lookup k (read_all read c.overrides)) (lookup k r.inherits)
      unfolding resolve_derived own_overrides with_loop without_loop
      derived_keys none r k e m = ground (arith, e)
      derived_keys (some derived) r k e m =
          let (e1, e2) =
            parts (is_a_measurement read (some c)) (is_some profile) name height
              (with_loop device.timings (read_all read c.overrides) derived
                (keys_written_by_the_file device) (follows_a_profile read (some c)))
              (without_loop device.timings (read_all read c.overrides) derived
                (keys_written_by_the_file device) (follows_a_profile read (some c)))
              r e in
          lookup-with_loop device.timings (read_all read c.overrides) derived
            (keys_written_by_the_file device) (follows_a_profile read (some c)) r.keys r.inherits k
            e1 e2 m

      -- And what it runs on is its own number where the record has one, said to be its own, and
      -- otherwise what it inherits, for each of the travel keys.
      pub keys-inherits :
          (r : ResolvedCover W) (k : String)
          → resolve_cover read device profiles (some c) ≡ some r
          → member k cover_calibration_keys ≡ true
          → lookup k r.keys ≡ own_or (lookup k (read_all read c.overrides)) (lookup k r.inherits)
      unfolding resolve_cover
      keys-inherits r k e m = derived_keys (derived_of profile height) r k e m
