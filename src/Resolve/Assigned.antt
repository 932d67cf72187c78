-- ===== src/Resolve/Assigned.antt =====
-- calibration_store.py: what a shutter runs on after `async_set_assignments`, by `resolve_cover_config`.
use my_home_stability.Prelude.{
  ℕ, ◌≡◌, refl, ap, String, true, false, Option, none, some, List, arith, str_eq, eq_iff, inl, inr,
  Bool-cases, is_some,
}
use my_home_stability.Dict.{Dict, lookup}
use my_home_stability.Cover.Number.{Float}
use my_home_stability.Store.Record.{Value, text, Record}
use my_home_stability.Store.State.{Store, member}
use my_home_stability.Store.Assign.{
  StoredCalibration, stored_calibration, with_id, as_text, is_text, names_profile,
  cover_calibration_keys, set_assignments,
}
use my_home_stability.Store.Orphans.{follows}
use my_home_stability.Store.Obeys.{each, obeys, outranks, with_id-profile}
use my_home_stability.Store.Assigned.{set_assignments-obeys}
use my_home_stability.Resolve.Derive.{
  ProfileConfig, derive_cover_from_profile, merged_profiles, shaped_profiles,
}
use my_home_stability.Resolve.Keys.{Device}
use my_home_stability.Resolve.Covers.{
  ResolvedCover, resolve_cover_config, read_record, profiles_of, calibration_of, own_overrides,
  own_height, number_or,
}
use my_home_stability.Resolve.Inherited.{own_or}
use my_home_stability.Resolve.Answers.{profile_key}
use my_home_stability.Resolve.Scales.{scales}
use my_home_stability.Resolve.Precedence.{resolve_cover-wins}

is_text-as_text : (p : String) (o : Option Value) → is_text p o ≡ true → as_text o ≡ some p
unfolding is_text as_text
is_text-as_text p none e = ground (arith, e)
is_text-as_text p (some (text s)) e = ap some ((eq_iff s p).0 e)
is_text-as_text p (some _) e = ground (arith, e)

with_id-wins :
    (id : String) (r : Record) → lookup "profile_wins" (with_id id r) ≡ lookup "profile_wins" r
unfolding with_id
with_id-wins id r = elim (Bool-cases (is_some (lookup "cover_unique_id" r))) [
  | inl k ↦ rw k
  | inr k ↦ rw k (unfold lookup in refl)
]

module _ {W : Type 0} ⦃f : Float W⦄ (read : ℕ → W) (float_of : String → Option ℕ) (p : String) where
  -- the record of a cover that obeys a profile, as the resolution reads it
  record_told :
      (id : String) (o : Option Record)
      → obeys p o ≡ true
      → (c : StoredCalibration) × (read_record read float_of id o ≡ some c)
        × (c.profile ≡ some p)
        × (c.profile_wins ≡ true)
  unfolding obeys follows outranks names_profile read_record stored_calibration
  record_told id none e = ground (arith, e)
  record_told id (some r) e = (
    _,
    refl,
    rw (with_id-profile id r) (is_text-as_text p (lookup "profile" r) (ground (arith, e))),
    rw (with_id-wins id r) (ground (arith, e)),
  )

  module _ (utcnow : String) (device : Device W) (yaml : Dict (ProfileConfig W)) where
    -- After a batch of assignments that points covers at an existing profile, whose name is not
    -- empty, the configuration of every cover that the batch names, where the profile can be scaled
    -- to its height, is resolved without failure to that profile: each of the travel keys is the
    -- cover's own number, where its record has one, or else what the profile says of a window of
    -- its height, and never what the file says.
    pub set_assignments-resolve :
        (ids : List String) (s : Store) (id : String) (profile : ProfileConfig W) (k : String)
        → member id ids ≡ true
        → str_eq p "" ≡ false
        → lookup p (merged_profiles yaml (shaped_profiles float_of read s.profiles)) ≡ some profile
        → (let t = (set_assignments float_of utcnow (each p ids) s).0 in
            scales profile
              (number_or (own_height read (calibration_of read float_of id (some t))) device.height)
            ≡ true)
        → member k cover_calibration_keys ≡ true
        → let t = (set_assignments float_of utcnow (each p ids) s).0 in
          let c = calibration_of read float_of id (some t) in
          (derived : Dict W) × (r : ResolvedCover W) × (derive_cover_from_profile profile
              (number_or (own_height read c) device.height)
            ≡ some derived)
          × (resolve_cover_config read float_of (some t) device id yaml ≡ some r)
          × (r.profile ≡ some p)
          × (lookup k r.keys
              ≡ own_or (lookup k (own_overrides read c)) (profile_key (lookup k derived)))
    unfolding resolve_cover_config profiles_of calibration_of own_overrides
    set_assignments-resolve ids s id profile k m n l g mk =
        let t = (set_assignments float_of utcnow (each p ids) s).0 in
        let (sets, _, same) = set_assignments-obeys float_of utcnow p ids s in
        let (c, ce, pe, we) = record_told id (lookup id t.covers) (sets id m) in
        rw (ce, same)
          (resolve_cover-wins read device
            (merged_profiles yaml (shaped_profiles float_of read s.profiles)) c p profile k pe we n
            l (rw ce at g) mk)
