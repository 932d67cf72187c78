-- ===== src/Store/Assigned.antt =====
-- `async_set_assignments` against what it is asked: who follows which profile afterwards.
use my_home_stability.Prelude.{
  ℕ, ◌≡◌, refl, subst, ◌∙◌, String, Bool, true, false, ◌||◌, Option, some, List, [], ◌∷◌, arith,
  str_eq, eq_iff, eq_refl, inl, inr, Bool-cases,
}
use my_home_stability.Dict.{Dict, lookup, lookup-insert, IsDict, insert-IsDict, erase-IsDict}
use my_home_stability.Store.Record.{Record, record_eq, SameEntry}
use my_home_stability.Store.Same.{record_eq_sound}
use my_home_stability.Store.State.{Store, member, save}
use my_home_stability.Store.Assign.{
  Assignment, assigned, record_or_empty, stamped, assign_one, assign_all, set_assignments,
}
use my_home_stability.Store.Orphans.{clash}
use my_home_stability.Store.Obeys.{
  to_profile, assigned-profile, stamped-other, says_anything-assigned, assigned-wins, same_flag,
  outranks-or_empty, outranks-flag, obeys, obeys-both, same_profile, follows-or_empty, follows-text,
  each,
}

module _ (float_of : String → Option ℕ) (utcnow : String) where
  assign_one-IsDict :
      (a : Assignment) (covers : Dict Record) (changed : Bool)
      → IsDict covers
      → IsDict (assign_one float_of utcnow a (covers, changed)).0
  unfolding assign_one
  assign_one-IsDict a covers changed h =
      let before = record_or_empty (lookup a.unique_id covers) in
      let r = assigned a before in
      ground (
        arith,
        insert-IsDict a.unique_id (stamped utcnow r) covers h,
        erase-IsDict a.unique_id covers h,
      )

  assign_all-IsDict :
      (batch : List Assignment) (covers : Dict Record) (changed : Bool)
      → IsDict covers
      → IsDict (assign_all float_of utcnow batch (covers, changed)).0
  unfolding assign_all
  assign_all-IsDict [] covers changed h = h
  assign_all-IsDict (a ∷ batch) covers changed h =
      let (c, ch) = assign_one float_of utcnow a (covers, changed) in
      assign_all-IsDict batch c ch (assign_one-IsDict a covers changed h)

  -- The covers that a batch leaves, whether or not it was saved.
  pub set_assignments-covers :
      (batch : List Assignment) (s : Store)
      → ((set_assignments float_of utcnow batch s).0.covers
          ≡ (assign_all float_of utcnow batch (s.covers, false)).0)
        × ((set_assignments float_of utcnow batch s).0.profiles ≡ s.profiles)
        × ((set_assignments float_of utcnow batch s).0.order ≡ s.order)
  unfolding set_assignments save
  set_assignments-covers batch s = ground arith

  pub set_assignments-IsDict :
      (batch : List Assignment) (s : Store)
      → IsDict s.covers
      → IsDict (set_assignments float_of utcnow batch s).0.covers
  set_assignments-IsDict batch s h =
      rw ((set_assignments-covers batch s).0) (assign_all-IsDict batch s.covers false h)

module _ (float_of : String → Option ℕ) (utcnow : String) (p : String) where
  -- A record that the assignment leaves alone has the assignment already.
  unchanged-obeys :
      (id : String) (o : Option Record)
      → record_eq (assigned (to_profile p id) (record_or_empty o)) (record_or_empty o) ≡ true
      → obeys p o ≡ true
  unchanged-obeys id o e =
      let before = record_or_empty o in
      let same = record_eq_sound (assigned (to_profile p id) before) before e in
      obeys-both p o
        (follows-or_empty p o (
          same_profile p (lookup "profile" before) (
            subst (λ v. SameEntry v (lookup "profile" before)) (assigned-profile p id before)
              (same "profile"))))
        (outranks-or_empty o (
          same_flag (lookup "profile_wins" before) (
            subst (λ v. SameEntry v (lookup "profile_wins" before)) (assigned-wins p id before)
              (same "profile_wins"))))

  stamped-obeys :
      (id : String) (before : Record)
      → obeys p (some (stamped utcnow (assigned (to_profile p id) before))) ≡ true
  stamped-obeys id before =
      let r = assigned (to_profile p id) before in
      obeys-both p (some (stamped utcnow r))
        (follows-text p (stamped utcnow r)
          (stamped-other utcnow "profile" r refl refl ∙ assigned-profile p id before))
        (outranks-flag (stamped utcnow r)
          (stamped-other utcnow "profile_wins" r refl refl ∙ assigned-wins p id before))

  assign_one_self :
      (id : String) (covers : Dict Record) (changed : Bool)
      → obeys p (lookup id (assign_one float_of utcnow (to_profile p id) (covers, changed)).0)
        ≡ true
  unfolding assign_one
  assign_one_self id covers changed =
      let before = record_or_empty (lookup id covers) in
      let r = assigned (to_profile p id) before in
      elim (Bool-cases (record_eq r before)) [
        | inl e ↦ rw e (unchanged-obeys id (lookup id covers) e)
        | inr e ↦
            rw (e, says_anything-assigned float_of id p r (assigned-profile p id before))
              (rw lookup-insert (rw eq_refl (stamped-obeys id before)))
      ]

  assign_one-ne :
      (id n : String) (covers : Dict Record) (changed : Bool)
      → str_eq id n ≡ false
      → lookup n (assign_one float_of utcnow (to_profile p id) (covers, changed)).0
        ≡ lookup n covers
  unfolding assign_one
  assign_one-ne id n covers changed d =
      let before = record_or_empty (lookup id covers) in
      let r = assigned (to_profile p id) before in
      elim (Bool-cases (record_eq r before)) [
        | inl e ↦ rw e
        | inr e ↦
            rw (e, says_anything-assigned float_of id p r (assigned-profile p id before))
              (rw lookup-insert (rw d))
      ]

  assign_all-keeps :
      (ids : List String) (n : String) (covers : Dict Record) (changed : Bool)
      → obeys p (lookup n covers) ≡ true
      → obeys p (lookup n (assign_all float_of utcnow (each p ids) (covers, changed)).0) ≡ true
  unfolding assign_all each
  assign_all-keeps [] n covers changed h = h
  assign_all-keeps (id ∷ ids) n covers changed h =
      let (c, ch) = assign_one float_of utcnow (to_profile p id) (covers, changed) in
      assign_all-keeps ids n c ch (elim (Bool-cases (str_eq id n)) [
        | inl e ↦
            subst (λ x. obeys p (lookup x c) ≡ true) ((eq_iff id n).0 e)
              (assign_one_self id covers changed)
        | inr d ↦ rw (assign_one-ne id n covers changed d) h
      ])

  assign_all-sets :
      (ids : List String) (n : String) (covers : Dict Record) (changed : Bool)
      → member n ids ≡ true
      → obeys p (lookup n (assign_all float_of utcnow (each p ids) (covers, changed)).0) ≡ true
  unfolding assign_all each member
  assign_all-sets [] n covers changed m = cc
  assign_all-sets (id ∷ ids) n covers changed m =
      let (c, ch) = assign_one float_of utcnow (to_profile p id) (covers, changed) in
      elim (Bool-cases (str_eq id n)) [
        | inl e ↦ assign_all-keeps ids n c ch (
            subst (λ x. obeys p (lookup x c) ≡ true) ((eq_iff id n).0 e)
              (assign_one_self id covers changed))
        | inr d ↦ assign_all-sets ids n c ch (rw d at m)
      ]

  assign_all-others :
      (ids : List String) (n : String) (covers : Dict Record) (changed : Bool)
      → member n ids ≡ false
      → lookup n (assign_all float_of utcnow (each p ids) (covers, changed)).0 ≡ lookup n covers
  unfolding assign_all each member
  assign_all-others [] n covers changed m = refl
  assign_all-others (id ∷ ids) n covers changed m =
      let (c, ch) = assign_one float_of utcnow (to_profile p id) (covers, changed) in
      elim (Bool-cases (str_eq id n)) [
        | inl e ↦ absurd (clash (str_eq id n || member n ids) m (rw e))
        | inr d ↦ assign_all-others ids n c ch (rw d at m) ∙ assign_one-ne id n covers changed d
      ]

  -- A batch that points covers at one profile: those that it names, the others, the profiles.
  pub set_assignments-obeys :
      (ids : List String) (s : Store)
      → let t = (set_assignments float_of utcnow (each p ids) s).0 in
        ((n : String) → member n ids ≡ true → obeys p (lookup n t.covers) ≡ true)
        × ((n : String) → member n ids ≡ false → lookup n t.covers ≡ lookup n s.covers)
        × (t.profiles ≡ s.profiles)
  set_assignments-obeys ids s =
      let (c, q, _) = set_assignments-covers float_of utcnow (each p ids) s in
      (
        (λ n m. rw c (assign_all-sets ids n s.covers false m)),
        (λ n m. rw c (assign_all-others ids n s.covers false m)),
        q,
      )
