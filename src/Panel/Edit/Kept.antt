-- ===== src/Panel/Edit/Kept.antt =====
-- panel_write.py: what a number that was typed for one cover leaves of its record.
use my_home_stability.Prelude.{
  ℕ, ◌≡◌, refl, sym, ap, subst, ◌∙◌, String, Bool, true, false, ◌&&◌, Option, none, some, str_eq,
  eq_iff, eq_refl, arith, if◌then◌else◌, is_some, if-split,
}
use my_home_stability.Dict.{Dict, lookup, erase, lookup-insert, lookup-erase}
use my_home_stability.Store.Record.{Record}
use my_home_stability.Store.State.{Store, save, set_calibration, remove_calibration}
use my_home_stability.Store.Assign.{
  StoredCalibration, stored_calibration, says_anything, with_id, as_text, as_mapping, truthy,
  stored_number, known_overrides, record_or_empty,
}
use my_home_stability.Store.Written.Read.{known_keys, stored_calibration-cover_calibration_data}
use my_home_stability.Panel.Profiles.{calibration}
use my_home_stability.Panel.Edit.{
  Floats, overrides_of, profile_of, wins_of, height_of, rewritten_record, store_the_record, edit_to,
}

and_again : (a b : Bool) → (a && (a && b)) ≡ (a && b)
and_again a b = ground arith

-- A record that has been through the store is the same but for the cover's id.
stored-lookup :
    (id key : String) (r : Record)
    → str_eq "cover_unique_id" key ≡ false
    → lookup key (with_id id (erase "cover_unique_id" r)) ≡ lookup key r
unfolding with_id lookup
stored-lookup id key r e = ground (arith, lookup-erase "cover_unique_id" key r, e)

module _ (float_of : String → Option ℕ) where
  -- What a record says of a cover: its profile, whether that wins, its height, its overrides.
  abbrev pub Says : Option StoredCalibration → Option String → Bool → Option ℕ → Dict ℕ → Type 0
  Says k profile wins height os =
      (profile_of k ≡ profile) × (wins_of k ≡ wins) × (height_of k ≡ height) × (overrides_of k ≡ os)

  stored-Says :
      (id : String) (r : Record)
      → let c = stored_calibration float_of r in
        Says
          (some (stored_calibration float_of (with_id id (erase "cover_unique_id" r))))
          c.profile
          c.profile_wins
          c.height
          c.overrides
  unfolding stored_calibration profile_of wins_of height_of overrides_of
  stored-Says id r = (
    ap as_text (stored-lookup id "profile" r refl),
    ap truthy (stored-lookup id "profile_wins" r refl),
    ap (stored_number float_of) (stored-lookup id "height" r refl),
    ap (λ x. known_overrides float_of (as_mapping x)) (stored-lookup id "overrides" r refl),
  )

  says_nothing :
      (c : StoredCalibration)
      → says_anything c ≡ false
      → Says none c.profile (is_some c.profile && c.profile_wins) c.height c.overrides
  unfolding says_anything profile_of wins_of height_of overrides_of
  says_nothing c e = ground (arith, e)

  set_calibration-lookup :
      (id n : String) (r : Record) (s : Store)
      → lookup n (set_calibration id r s).covers
        ≡ (if str_eq id n then some (erase "cover_unique_id" r) else lookup n s.covers)
  unfolding set_calibration save
  set_calibration-lookup id n r s = lookup-insert id n (erase "cover_unique_id" r) s.covers

  remove_calibration-lookup :
      (id n : String) (s : Store)
      → lookup n (remove_calibration id s).0.covers
        ≡ (if str_eq id n then none else lookup n s.covers)
  unfolding remove_calibration save
  remove_calibration-lookup id n s =
      let same : str_eq id n ≡ true → lookup id s.covers ≡ lookup n s.covers =
        λ e. ap (λ x. lookup x s.covers) ((eq_iff id n).0 e) in
      ground (arith, lookup-erase id n s.covers, same)

  set_calibration_self :
      (id : String) (r : Record) (s : Store)
      → lookup id (set_calibration id r s).covers ≡ some (erase "cover_unique_id" r)
  set_calibration_self id r s = rw (set_calibration-lookup id id r s, eq_refl) refl

  remove_calibration_self :
      (id : String) (s : Store) → lookup id (remove_calibration id s).0.covers ≡ none
  remove_calibration_self id s = rw (remove_calibration-lookup id id s, eq_refl) refl

module _ (p : Floats) (utcnow : String) where
  -- What is stored of a record is read again, and the other covers have what they had.
  store_the_record-Says :
      (id : String) (r : Record) (s : Store)
      → let c = stored_calibration p.float_of r in
        let t = (store_the_record p utcnow id r s).1 in
        c.profile_wins ≡ (is_some c.profile && c.profile_wins)
        → Says p.float_of
            (calibration p.float_of (lookup id t.covers) id)
            c.profile
            c.profile_wins
            c.height
            c.overrides
  unfolding store_the_record calibration
  store_the_record-Says id r s w =
      let c = stored_calibration p.float_of r in
      if-split
        (λ t.
          Says p.float_of (calibration p.float_of (lookup id t.covers) id) c.profile c.profile_wins
            c.height c.overrides)
        (says_anything c) (set_calibration id r s) (remove_calibration id s).0
        (λ _.
          subst
            (λ x.
              Says p.float_of (calibration p.float_of x id) c.profile c.profile_wins c.height
                c.overrides)
            (sym (set_calibration_self p.float_of id r s)) (stored-Says p.float_of id r))
        (λ e.
          let (a, b, h, o) = says_nothing p.float_of c e in
          subst
            (λ x.
              Says p.float_of (calibration p.float_of x id) c.profile c.profile_wins c.height
                c.overrides)
            (sym (remove_calibration_self p.float_of id s)) (a, b ∙ sym w, h, o))

  store_the_record-others :
      (id n : String) (r : Record) (s : Store)
      → str_eq id n ≡ false
      → lookup n (store_the_record p utcnow id r s).1.covers ≡ lookup n s.covers
  unfolding store_the_record
  store_the_record-others id n r s d =
      if-split (λ t. lookup n t.covers ≡ lookup n s.covers)
        (says_anything (stored_calibration p.float_of r)) (set_calibration id r s)
        (remove_calibration id s).0 (λ _. set_calibration-lookup p.float_of id n r s ∙ rw d)
        (λ _. remove_calibration-lookup p.float_of id n s ∙ rw d)

  store_the_record-rest :
      (id : String) (r : Record) (s : Store)
      → ((store_the_record p utcnow id r s).1.profiles ≡ s.profiles)
        × ((store_the_record p utcnow id r s).1.order ≡ s.order)
  unfolding store_the_record set_calibration remove_calibration save
  store_the_record-rest id r s = ground arith

  -- What an edit of one cover must leave.
  abbrev pub Edited : Store → String → Option ℕ → Dict ℕ → Store → Type 0
  Edited s id height os t =
      (let known = calibration p.float_of (lookup id s.covers) id in
        Says p.float_of (calibration p.float_of (lookup id t.covers) id) (profile_of known)
          (is_some (profile_of known) && wins_of known) height os)
      × ((n : String) → str_eq id n ≡ false → lookup n t.covers ≡ lookup n s.covers)
      × (t.profiles ≡ s.profiles)
      × (t.order ≡ s.order)

  pub edit_to-Edited :
      (id : String) (height : Option ℕ) (os : Dict ℕ) (s : Store)
      → Edited s id height (known_keys os) (edit_to p utcnow id height os s).1
  unfolding edit_to rewritten_record
  edit_to-Edited id height os s =
      let known = calibration p.float_of (lookup id s.covers) id in
      let r = rewritten_record p utcnow s id height os in
      let (_, b, c, d, e, _, _) =
        stored_calibration-cover_calibration_data p.float_of utcnow id (profile_of known)
          (wins_of known) height os "manual" none
          (lookup "raw" (record_or_empty (lookup id s.covers))) in
      let c' = stored_calibration p.float_of r in
      let w : c'.profile_wins ≡ (is_some c'.profile && c'.profile_wins) =
        rw (c, b) (sym (and_again (is_some (profile_of known)) (wins_of known))) in
      let (x, y, z, o) = store_the_record-Says id r s w in
      (
        (x ∙ b, y ∙ c, z ∙ d, o ∙ e),
        (λ n f. store_the_record-others id n r s f),
        (store_the_record-rest id r s).0,
        (store_the_record-rest id r s).1,
      )
