-- ===== src/Resolve/Scales.antt =====
-- validate.py, `derive_cover_from_profile`: when a profile can be scaled to a window.
use my_home_stability.Prelude.{
  ◌≡◌, refl, Bool, true, false, not, ◌&&◌, Option, none, some, is_some, arith, Bool-cases, inl, inr,
}
use my_home_stability.Cover.Number.{Float, num, same, ◌⊞◌, ◌⊟◌, ◌⊠◌, ◌⊘◌}
use my_home_stability.Resolve.Derive.{
  ProfileConfig, derive_cover_from_profile, scaled, scaled_by, grown_roll,
}
use my_home_stability.Resolve.Covers.{derived_of}

pub some_of : {A : Type 0} (o : Option A) → is_some o ≡ true → (a : A) × (o ≡ some a)
some_of none e = ground (arith, e)
some_of (some a) e = (a, refl)

pub none_of : {A : Type 0} (o : Option A) → is_some o ≡ false → o ≡ none
none_of none e = refl
none_of (some a) e = ground (arith, e)

module _ {W : Type 0} ⦃f : Float W⦄ where
  -- The growth of a roll is no negative number, so that it has a root.
  abbrev pub grows : W → W → Bool
  grows k ratio = not (f.lt (num 1 ⊞ (k ⊠ k ⊟ num 1) ⊠ ratio) (num 0))

  -- A profile can be scaled to a window: there is no height to scale it to, or its reference height
  -- is not zero and its three rolls grow.
  abbrev pub scales : ProfileConfig W → Option W → Bool
  scales p none = true
  scales p (some h) =
      not (same p.reference_height (num 0))
      && (grows p.closing_roll (h ⊘ p.reference_height)
          && (grows p.roll (h ⊘ p.reference_height)
              && grows p.opening_roll (h ⊘ p.reference_height)))

  -- The profile, if there is one, can be scaled.
  abbrev pub scales_if : Option (ProfileConfig W) → Option W → Bool
  scales_if none h = true
  scales_if (some p) h = scales p h

  grown_roll-grows : (k ratio : W) → is_some (grown_roll k ratio) ≡ grows k ratio
  unfolding grown_roll
  grown_roll-grows k ratio = ground arith

  scaled_by-some :
      (p : ProfileConfig W) (ratio : W) (a b c : Option W)
      → is_some (scaled_by p ratio a b c) ≡ (is_some a && (is_some b && is_some c))
  unfolding scaled_by
  scaled_by-some p ratio (some a) (some b) (some c) = refl
  scaled_by-some p ratio none b c = refl
  scaled_by-some p ratio (some a) none c = refl
  scaled_by-some p ratio (some a) (some b) none = refl

  pub derive-scales :
      (p : ProfileConfig W) (h : Option W) → is_some (derive_cover_from_profile p h) ≡ scales p h
  unfolding derive_cover_from_profile scaled
  derive-scales p none = refl
  derive-scales p (some h) =
      let ratio = h ⊘ p.reference_height in
      elim (Bool-cases (same p.reference_height (num 0))) [
        | inl z ↦ rw z refl
        | inr z ↦ rw z (
            rw
              (
                scaled_by-some p ratio (grown_roll p.closing_roll ratio) (grown_roll p.roll ratio)
                    (grown_roll p.opening_roll ratio),
                grown_roll-grows p.closing_roll ratio,
                grown_roll-grows p.roll ratio,
                grown_roll-grows p.opening_roll ratio,
              )
              refl)
      ]

  pub derived_of-scales :
      (o : Option (ProfileConfig W)) (h : Option W) → is_some (derived_of o h) ≡ scales_if o h
  unfolding derived_of
  derived_of-scales none h = refl
  derived_of-scales (some p) h = derive-scales p h
