-- ===== src/Resolve/Answers.antt =====
-- calibration_store.py, `resolve_cover_keys`: which keys have a number, and that the loop then ends.
use my_home_stability.Prelude.{
  subst, sym, ◌≡◌, refl, ◌∙◌, String, Bool, true, Option, none, some, List, [], ◌∷◌, arith,
  if◌then◌else◌, is_some, Bool-cases, inl, inr,
}
use mathlib.Core.Option.{some-injective}
use my_home_stability.Dict.{Dict, lookup, keys}
use my_home_stability.Cover.Number.{Float, num, same, ◌⊘◌}
use my_home_stability.Store.State.{member}
use my_home_stability.Store.Assign.{cover_calibration_keys}
use my_home_stability.Resolve.Derive.{
  ProfileConfig, derive_cover_from_profile, scaled, scaled_by, grown_roll, as_it_stands,
}
use my_home_stability.Resolve.Keys.{
  ResolvedKey, KeyAnswer, KeyOrigin, origin_profile, origin_file, origin_default, silent, key_error,
  said_or, resolve_key, resolve_cover_keys,
}
use my_home_stability.Resolve.Covers.{ResolvedCover, resolved_cover}
use my_home_stability.Resolve.Gathered.{item_of, kept, gather-says}
use my_home_stability.Resolve.Inherited.{own_or, with_own, without_own, item-with_own}

abbrev pub profile_key : {W : Type 0} → Option W → Option (ResolvedKey W)
profile_key none = none
profile_key (some v) = some (record { value = v; origin = origin_profile })

pub keys-some : {W : Type 0} → (k : String) (d : Dict W) → is_some (lookup k d) ≡ member k (keys d)
unfolding lookup keys member
keys-some k [] = refl
keys-some k ((j, v) ∷ d) = ground (arith, keys-some k d)

module _ {W : Type 0} where
  said_first :
      (o : KeyOrigin) (v : Option W) (next : KeyAnswer W)
      → is_some v ≡ true
      → is_some (item_of (said_or o v next)) ≡ true
  unfolding item_of said_or
  said_first o none next e = ground arith
  said_first o (some v) next e = refl

  said_next :
      (o : KeyOrigin) (v : Option W) (next : KeyAnswer W)
      → is_some (item_of next) ≡ true
      → is_some (item_of (said_or o v next)) ≡ true
  unfolding item_of said_or
  said_next o none next e = e
  said_next o (some v) next e = refl

  profile_first :
      (v : Option W) (next : KeyAnswer W)
      → is_some v ≡ true
      → item_of (said_or origin_profile v next) ≡ profile_key v
  unfolding item_of said_or
  profile_first none next e = ground arith
  profile_first (some v) next e = refl

  pub own_or-some :
      (v : Option W) (other : Option (ResolvedKey W))
      → is_some other ≡ true
      → is_some (own_or v other) ≡ true
  own_or-some none other e = e
  own_or-some (some v) other e = refl

  -- The device has a number for a key: the loop finds one.
  pub timed :
      (timings overrides derived : Dict W) (written : List String) (wins : Bool) (k : String)
      → is_some (lookup k timings) ≡ true
      → is_some (item_of (without_own timings overrides derived written wins k)) ≡ true
  unfolding without_own resolve_key lookup said_or
  timed timings overrides derived written wins k e =
      said_next origin_profile (if wins then lookup k derived else none)
        (if member k written
          then said_or origin_file (lookup k timings) key_error
          else said_or origin_profile (lookup k derived)
              (said_or origin_default (lookup k timings) silent))
        (elim (Bool-cases (member k written)) [
          | inl b ↦ rw b (said_first origin_file (lookup k timings) key_error e)
          | inr b ↦ rw b (
              said_next origin_profile (lookup k derived)
                (said_or origin_default (lookup k timings) silent)
                (said_first origin_default (lookup k timings) silent e))
        ])

  -- A profile that wins answers before the file.
  pub won :
      (timings overrides derived : Dict W) (written : List String) (k : String)
      → is_some (lookup k derived) ≡ true
      → item_of (without_own timings overrides derived written true k)
        ≡ profile_key (lookup k derived)
  unfolding without_own resolve_key lookup said_or
  won timings overrides derived written k e =
      profile_first (lookup k derived)
        (if member k written
          then said_or origin_file (lookup k timings) key_error
          else said_or origin_profile (lookup k derived)
              (said_or origin_default (lookup k timings) silent))
        e

  pub profile_key-some : (v : Option W) → is_some v ≡ true → is_some (profile_key v) ≡ true
  profile_key-some none e = e
  profile_key-some (some v) e = refl

  module _ ⦃f : Float W⦄ where
    scaled_by-derives :
        (p : ProfileConfig W) (ratio : W) (a b c : Option W) (d : Dict W) (k : String)
        → scaled_by p ratio a b c ≡ some d
        → member k cover_calibration_keys ≡ true
        → is_some (lookup k d) ≡ true
    unfolding scaled_by keys
    scaled_by-derives p ratio (some a) (some b) (some c) d k e m =
        subst (λ x. is_some (lookup k x) ≡ true) (some-injective _ d e) (keys-some k _ ∙ m)
    scaled_by-derives p ratio none b c d k e m = ground (arith, e)
    scaled_by-derives p ratio (some a) none c d k e m = ground (arith, e)
    scaled_by-derives p ratio (some a) (some b) none d k e m = ground (arith, e)

    scaled-derives :
        (p : ProfileConfig W) (h : W) (d : Dict W) (k : String)
        → scaled p h ≡ some d
        → member k cover_calibration_keys ≡ true
        → is_some (lookup k d) ≡ true
    unfolding scaled
    scaled-derives p h d k e m =
        let ratio = h ⊘ p.reference_height in
        elim (Bool-cases (same p.reference_height (num 0))) [
          | inl z ↦ ground (arith, e, z)
          | inr z ↦
              scaled_by-derives p ratio (grown_roll p.closing_roll ratio) (grown_roll p.roll ratio)
                (grown_roll p.opening_roll ratio) d k (sym (rw z) ∙ e) m
        ]

    -- A profile that can be scaled to a window says every travel key.
    pub derives :
        (p : ProfileConfig W) (h : Option W) (d : Dict W) (k : String)
        → derive_cover_from_profile p h ≡ some d
        → member k cover_calibration_keys ≡ true
        → is_some (lookup k d) ≡ true
    unfolding derive_cover_from_profile keys as_it_stands
    derives p none d k e m =
        subst (λ x. is_some (lookup k x) ≡ true) (some-injective (as_it_stands p) d e)
          (keys-some k (as_it_stands p) ∙ m)
    derives p (some h) d k e m = scaled-derives p h d k e m

    finished :
        (a named : Bool) (name : Option String) (height : Option W) (k k' : Dict (ResolvedKey W))
        (o o' : Option (Dict (ResolvedKey W)))
        → o ≡ some k
        → o' ≡ some k'
        → (r : ResolvedCover W) × (resolved_cover a named name height o o' ≡ some r)
          × (r.keys ≡ k)
          × (r.profile ≡ name)
    unfolding resolved_cover
    finished a named name height k k' (some d) (some d') e e' =
        (_, refl, some-injective d k e, refl)
    finished a named name height k k' none o' e e' = ground (arith, e)
    finished a named name height k k' (some d) none e e' = ground (arith, e')

    pub with_own_some :
        (timings overrides derived : Dict W) (written : List String) (wins : Bool) (k : String)
        → is_some (item_of (without_own timings overrides derived written wins k)) ≡ true
        → is_some (item_of (with_own timings overrides derived written wins k)) ≡ true
    with_own_some timings overrides derived written wins k e =
        rw (item-with_own timings overrides derived written wins k) (
          own_or-some (lookup k overrides)
            (item_of (without_own timings overrides derived written wins k)) e)

    pub all_said :
        (timings overrides derived : Dict W) (written : List String) (wins a named : Bool)
        (name : Option String) (height : Option W)
        → ((k : String)
            → member k cover_calibration_keys ≡ true
            → is_some (item_of (without_own timings overrides derived written wins k)) ≡ true)
        → (r : ResolvedCover W) × (resolved_cover a named name height
              (resolve_cover_keys timings overrides derived written wins cover_calibration_keys)
              (resolve_cover_keys timings [] derived written wins cover_calibration_keys)
            ≡ some r)
          × (r.keys ≡ kept (with_own timings overrides derived written wins) cover_calibration_keys)
          × (r.profile ≡ name)
    unfolding resolve_cover_keys with_own without_own resolved_cover
    all_said timings overrides derived written wins a named name height h =
        finished a named name height
          (kept (with_own timings overrides derived written wins) cover_calibration_keys)
          (kept (without_own timings overrides derived written wins) cover_calibration_keys)
          (resolve_cover_keys timings overrides derived written wins cover_calibration_keys)
          (resolve_cover_keys timings [] derived written wins cover_calibration_keys)
          (gather-says (with_own timings overrides derived written wins) cover_calibration_keys
            (λ k m. with_own_some timings overrides derived written wins k (h k m)))
          (gather-says (without_own timings overrides derived written wins) cover_calibration_keys
            h)
