-- ===== src/Panel/Assign/Items.antt =====
-- panel_write.py, `async_assign`: which items of a batch are refused.
use my_home_stability.Prelude.{
  ℕ, ◌≡◌, refl, sym, String, Bool, true, false, not, ◌&&◌, ◌||◌, Option, none, some, str_eq,
  is_some, Bool-cases, inl, inr, if◌then◌else◌,
}
use my_home_stability.Dict.{lookup}
use my_home_stability.Store.Record.{Value, Record}
use my_home_stability.Store.State.{Store, member}
use my_home_stability.Resolve.Derive.{usable}
use my_home_stability.Panel.Write.{Result, ok, err}
use my_home_stability.Panel.Profiles.{File}
use my_home_stability.Panel.Edit.{
  Floats, cover_config, optional_height, height_in, map_ok, number_in, within_bounds, parse_number,
}
use my_home_stability.Panel.Assign.{
  AssignItem, is_missing_travel, known_travel, no_such_profile, in_store, check_travel,
  check_height, check_cover, check_item,
}

abbrev pub is_err : {A : Type 0} → Result A → Bool
is_err (ok _) = false
is_err (err _) = true

abbrev pub lacks_travel : {A : Type 0} → Result A → Bool
lacks_travel (ok _) = false
lacks_travel (err e) = is_missing_travel e

module _ (p : Floats) (utcnow : String) (file : File) (advanced : String → Bool) where
  -- A text that was typed for a height, and the float of it.
  abbrev pub reads : String → Option ℕ → Bool
  reads typed none = false
  reads typed (some n) = not (str_eq typed "") && (p.le (p.whole 20) n && p.le n (p.whole 500))

  -- A height is given, and is no number or not one within the bounds.
  abbrev pub bad_height : Option Value → Bool
  bad_height none = false
  bad_height (some v) = not (
      reads (p.replace "," "." (p.strip (p.str v)))
        (p.float_of (p.replace "," "." (p.strip (p.str v)))))

  abbrev pub is_stored : String → Option Record → Bool
  is_stored name none = false
  is_stored name (some r) = usable p.float_of name r

  -- A profile is given that neither the file has nor the store, as a record that makes a profile.
  abbrev pub unknown_name : Store → Option String → Bool
  unknown_name s none = false
  unknown_name s (some name) =
      not (is_stored name (lookup name s.profiles) || member name file.profiles)

  -- A profile is given and no height, and none is known of the cover.
  abbrev pub no_travel : Store → Record → AssignItem → Bool
  no_travel s cfg item =
      is_some item.profile
      && (not (is_some item.height)
          && not (is_some (known_travel p utcnow file advanced s cfg item.cover_unique_id)))

  -- An item is refused, by its cover of the file: there is none, or the profile is unknown, or the
  -- height is bad, or there is no travel.
  abbrev pub refuses : Store → AssignItem → Option Record → Bool
  refuses s item none = true
  refuses s item (some cfg) =
      unknown_name s item.profile || (bad_height item.height || no_travel s cfg item)

  -- It is refused for want of a travel, and for nothing before it.
  abbrev pub wants_travel : Store → AssignItem → Option Record → Bool
  wants_travel s item none = false
  wants_travel s item (some cfg) =
      not (unknown_name s item.profile) && (not (bad_height item.height) && no_travel s cfg item)

  within-reads :
      (typed : String) (o : Option ℕ)
      → let r = within_bounds p (if str_eq typed "" then none else o) (p.whole 20, p.whole 500) in
        (is_err r ≡ not (reads typed o)) × (lacks_travel r ≡ false)
  unfolding within_bounds is_missing_travel
  within-reads typed none = elim (Bool-cases (str_eq typed "")) [
    | inl b ↦ rw b (refl, refl)
    | inr b ↦ rw b (refl, refl)
  ]
  within-reads typed (some n) = elim (Bool-cases (str_eq typed "")) [
    | inl b ↦ rw b (refl, refl)
    | inr b ↦ rw b (elim (Bool-cases (p.le (p.whole 20) n && p.le n (p.whole 500))) [
      | inl c ↦ rw c (refl, refl)
      | inr c ↦ rw c (refl, refl)
    ])
  ]

  -- What is made of a height: refused where it is bad, never for want of a travel, and there where
  -- it was given.
  abbrev Heights : Option Value → Result (Option ℕ) → Type 0
  Heights o (ok h) = (bad_height o ≡ false) × (is_some h ≡ is_some o)
  Heights o (err e) = (bad_height o ≡ true) × (is_missing_travel e ≡ false)

  some-Heights :
      (v : Value) (r : Result ℕ)
      → is_err r ≡ bad_height (some v)
      → lacks_travel r ≡ false
      → Heights (some v) (map_ok some r)
  unfolding map_ok
  some-Heights v (ok n) a b = (sym a, refl)
  some-Heights v (err e) a b = (sym a, b)

  optional_height-Heights : (o : Option Value) → Heights o (optional_height p o)
  unfolding optional_height height_in number_in parse_number
  optional_height-Heights none = (refl, refl)
  optional_height-Heights (some v) =
      let t = p.replace "," "." (p.strip (p.str v)) in
      let (a, b) = within-reads t (p.float_of t) in some-Heights v (height_in p v) a b

  check_height-refuses :
      (s : Store) (cfg : Record) (item : AssignItem) (r : Result (Option ℕ))
      → Heights item.height r
      → let t = check_height p utcnow file advanced s cfg item r in
        (is_err t ≡ (bad_height item.height || no_travel s cfg item))
        × (lacks_travel t ≡ (not (bad_height item.height) && no_travel s cfg item))
  unfolding check_height check_travel is_missing_travel
  check_height-refuses s cfg item (err e) (a, b) = rw (a, b) (refl, refl)
  check_height-refuses s cfg item (ok h) (a, b) =
      rw (a, b)
        (elim (Bool-cases (no_travel s cfg item)) [
          | inl c ↦ rw c (refl, refl)
          | inr c ↦ rw c (refl, refl)
        ])

  in_store-is_stored :
      (name : String) (o : Option Record)
      → in_store p utcnow file advanced name o ≡ is_stored name o
  unfolding in_store
  in_store-is_stored name none = refl
  in_store-is_stored name (some r) = refl

  no_such_profile-unknown :
      (s : Store) (o : Option String)
      → no_such_profile p utcnow file advanced s o ≡ unknown_name s o
  unfolding no_such_profile
  no_such_profile-unknown s none = refl
  no_such_profile-unknown s (some name) = rw (in_store-is_stored name (lookup name s.profiles)) refl

  check_cover-refuses :
      (s : Store) (item : AssignItem) (o : Option Record) (b : Bool)
      → let t = check_cover p utcnow file advanced s item (cover_config o b) in
        (is_err t ≡ refuses s item o) × (lacks_travel t ≡ wants_travel s item o)
  unfolding check_cover cover_config is_missing_travel
  check_cover-refuses s item none true = (refl, refl)
  check_cover-refuses s item none false = (refl, refl)
  check_cover-refuses s item (some cfg) b =
      rw (no_such_profile-unknown s item.profile) (elim (Bool-cases (unknown_name s item.profile)) [
        | inl u ↦ rw u (refl, refl)
        | inr u ↦ rw u (
            check_height-refuses s cfg item (optional_height p item.height)
              (optional_height-Heights item.height))
      ])

  -- The check of an item refuses just these.
  pub check_item-refuses :
      (s : Store) (item : AssignItem)
      → let t = check_item p utcnow file advanced s item in
        (is_err t ≡ refuses s item (lookup item.cover_unique_id file.covers))
        × (lacks_travel t ≡ wants_travel s item (lookup item.cover_unique_id file.covers))
  unfolding check_item
  check_item-refuses s item =
      check_cover-refuses s item (lookup item.cover_unique_id file.covers)
        (advanced item.cover_unique_id)
