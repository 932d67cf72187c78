-- ===== src/Panel/Profiles/Renamed.antt =====
-- panel_write.py, `async_profile_rename`: what a rename leaves in the store.
use my_home_stability.Prelude.{
  ℕ, ◌⊎◌, ◌≡◌, refl, sym, subst, ◌∙◌, String, Bool, true, false, Option, none, some, List, [], ◌∷◌,
  arith, str_eq, eq_iff, if◌then◌else◌, length, is_some, inl, inr, Bool-cases,
}
use my_home_stability.Dict.{Dict, lookup, insert, erase, IsDict, lookup-insert, lookup-erase}
use my_home_stability.Store.Record.{Value, text, Record}
use my_home_stability.Store.State.{Store, member, save, set_profile}
use my_home_stability.Store.Assign.{
  covers_following, following, sorted, names_profile, is_text, remove_profile,
}
use my_home_stability.Store.Obeys.{obeys, obeys-follows, each}
use my_home_stability.Store.Assigned.{set_assignments-obeys, set_assignments-IsDict}
use my_home_stability.Store.Orphans.{
  follows, clash, member-sorted, member-following, remove_profile-known, strip_all-others,
}
use my_home_stability.Panel.Write.{PanelError, ok}
use my_home_stability.Panel.Profiles.{
  File, Renaming, refuse_a_file_profile, refuse_the_new_name, repoint, move_profile, rename_allowed,
  rename_found, rename_unless, rename,
}

-- The list of the followers names only followers, and all of them.
following-follows :
    (name n : String) (covers : Dict Record)
    → IsDict covers
    → member n (following name covers) ≡ true
    → follows name (lookup n covers) ≡ true
unfolding following member follows lookup
following-follows name n [] h m = cc
following-follows name n ((id, r) ∷ covers) h m =
    ground (arith, eq_iff id n, following-follows name n covers h.1)

module _ (float_of : String → Option ℕ) (utcnow : String) where
  -- The second write of a rename, whether or not it is needed.
  repoint-obeys :
      (file : File) (p : String) (ids : List String) (s : Store)
      → let t = repoint float_of utcnow file p ids s in
        ((n : String) → member n ids ≡ true → obeys p (lookup n t.covers) ≡ true)
        × ((n : String) → member n ids ≡ false → lookup n t.covers ≡ lookup n s.covers)
        × (t.profiles ≡ s.profiles)
        × (IsDict s.covers → IsDict t.covers)
  unfolding repoint
  repoint-obeys file p [] s =
      ((λ n m. unfold member in absurd (clash _ refl m)), (λ n m. refl), refl, λ h. h)
  repoint-obeys file p (id ∷ ids) s =
      let (a, b, c) = set_assignments-obeys float_of utcnow p (id ∷ ids) s in
      (a, b, c, λ h. set_assignments-IsDict float_of utcnow (each p (id ∷ ids)) s h)

is_text-one :
    (p q : String) (o : Option Value)
    → str_eq p q ≡ false
    → is_text p o ≡ true
    → is_text q o ≡ false
unfolding is_text
is_text-one p q (some (text s)) d h = ground (arith, eq_iff s p, eq_iff s q, eq_iff p q)
is_text-one p q none d h = refl
is_text-one p q (some _) d h = refl

-- A record names one profile.
follows-one :
    (p q : String) (o : Option Record)
    → str_eq p q ≡ false
    → follows p o ≡ true
    → follows q o ≡ false
unfolding follows names_profile
follows-one p q none d h = refl
follows-one p q (some r) d h = is_text-one p q (lookup "profile" r) d h

not_true : (b : Bool) → (b ≡ true → false ≡ true) → b ≡ false
not_true b h = ground arith

not_following :
    (name n : String) (s : Store)
    → member n (covers_following name s) ≡ false
    → follows name (lookup n s.covers) ≡ false
unfolding covers_following
not_following name n s m =
    not_true _ (λ f.
      sym m ∙ (member-sorted n (following name s.covers) ∙ member-following name n s.covers f))

module _ (float_of : String → Option ℕ) where
  -- Removing a profile that no cover follows touches no cover.
  remove_profile-idle :
      (name : String) (t : Store)
      → is_some (lookup name t.profiles) ≡ true
      → IsDict t.covers
      → ((n : String) → follows name (lookup n t.covers) ≡ false)
      → let u = (remove_profile float_of name t).1 in
        ((n : String) → lookup n u.covers ≡ lookup n t.covers)
        × (u.profiles ≡ erase name t.profiles)
  unfolding save
  remove_profile-idle name t known d idle = rw (remove_profile-known float_of name t known) (
    (λ n. strip_all-others float_of (sorted (following name t.covers)) n t.covers (
        not_true _ (λ m.
          sym (idle n)
          ∙ following-follows name n t.covers d
              (sym (member-sorted n (following name t.covers)) ∙ m)))),
    refl,
  )

module _ (float_of : String → Option ℕ) (utcnow : String) (file : File)
    (name new_name : String) where
  -- What a rename leaves, from the store `s` in which the profile is `stored`.
  abbrev Moved : Record → Store → Store → Type 0
  Moved stored s u =
      ((n : String)
        → (follows name (lookup n s.covers) ≡ true) × (obeys new_name (lookup n u.covers) ≡ true)
          ⊎ (follows name (lookup n s.covers) ≡ false) × (lookup n u.covers ≡ lookup n s.covers))
      × ((m : String)
          → lookup m u.profiles ≡ (
              if str_eq name m
              then none
              else if str_eq new_name m
              then some (insert "name" (text new_name) stored)
              else lookup m s.profiles))

  -- the store after the first two writes
  repointed : Record → Store → Store
  repointed stored s =
      repoint float_of utcnow file new_name (covers_following name s)
        (set_profile new_name (insert "name" (text new_name) stored) s)

  followers_before :
      (n : String) (s : Store)
      → follows name (lookup n s.covers) ≡ true
      → member n (covers_following name s) ≡ true
  unfolding covers_following
  followers_before n s f =
      member-sorted n (following name s.covers) ∙ member-following name n s.covers f

  others_before :
      (n : String) (s : Store)
      → IsDict s.covers
      → follows name (lookup n s.covers) ≡ false
      → member n (covers_following name s) ≡ false
  unfolding covers_following
  others_before n s d f = not_true _ (λ m.
      sym f
      ∙ following-follows name n s.covers d (sym (member-sorted n (following name s.covers)) ∙ m))

  repointed-idle :
      (stored : Record) (s : Store)
      → str_eq new_name name ≡ false
      → (n : String) → follows name (lookup n (repointed stored s).covers) ≡ false
  unfolding repointed set_profile save
  repointed-idle stored s ne n =
      let ids = covers_following name s in
      let (a, b, _, _) =
        repoint-obeys float_of utcnow file new_name ids
          (set_profile new_name (insert "name" (text new_name) stored) s) in
      elim (Bool-cases (member n ids)) [
        | inl m ↦ follows-one new_name name _ ne (obeys-follows new_name _ (a n m))
        | inr m ↦ rw (b n m) (not_following name n s m)
      ]

  move_profile-Moved :
      (stored : Record) (s : Store)
      → IsDict s.covers
      → str_eq new_name name ≡ false
      → lookup name s.profiles ≡ some stored
      → Moved stored s (move_profile float_of utcnow file name new_name stored s)
  unfolding move_profile set_profile save repointed
  move_profile-Moved stored s d ne known =
      let ids = covers_following name s in
      let t = repointed stored s in
      let (a, b, c, keeps) =
        repoint-obeys float_of utcnow file new_name ids
          (set_profile new_name (insert "name" (text new_name) stored) s) in
      let known' : is_some (lookup name t.profiles) ≡ true =
        rw c (rw lookup-insert (rw (ne, known) refl)) in
      let (covers, profiles) =
        remove_profile-idle float_of name t known' (keeps d) (repointed-idle stored s ne) in
      (
        (λ n. elim (Bool-cases (follows name (lookup n s.covers))) [
          | inl f ↦ inl (f, rw (covers n) (a n (followers_before n s f)))
          | inr f ↦ inr (f, covers n ∙ b n (others_before n s d f))
        ]),
        (λ m. rw profiles (rw lookup-erase (rw c (rw lookup-insert)))),
      )

  -- A rename to another name that is accepted has found the profile, and made the three writes.
  rename_allowed-ok :
      (stored : Record) (o : Option PanelError) (s u : Store) (answer : Renaming)
      → str_eq new_name name ≡ false
      → rename_allowed float_of utcnow file name new_name stored o s ≡ (ok answer, u)
      → (u ≡ move_profile float_of utcnow file name new_name stored s)
        × (answer.moved ≡ length (covers_following name s))
  unfolding rename_allowed
  rename_allowed-ok stored (some e) s u answer ne h = cc
  rename_allowed-ok stored none s u answer ne h = ground arith

  rename_found-ok :
      (o : Option Record) (s u : Store) (answer : Renaming)
      → str_eq new_name name ≡ false
      → rename_found float_of utcnow file name new_name o s ≡ (ok answer, u)
      → (stored : Record) × (o ≡ some stored)
        × (u ≡ move_profile float_of utcnow file name new_name stored s)
        × (answer.moved ≡ length (covers_following name s))
  unfolding rename_found
  rename_found-ok none s u answer ne h = cc
  rename_found-ok (some stored) s u answer ne h =
      let (e, moved) =
        rename_allowed-ok stored (refuse_the_new_name file s name new_name) s u answer ne h in
      (stored, refl, e, moved)

  rename_unless-ok :
      (o : Option PanelError) (s u : Store) (answer : Renaming)
      → str_eq new_name name ≡ false
      → rename_unless float_of utcnow file name new_name o s ≡ (ok answer, u)
      → (stored : Record) × (lookup name s.profiles ≡ some stored)
        × (u ≡ move_profile float_of utcnow file name new_name stored s)
        × (answer.moved ≡ length (covers_following name s))
  unfolding rename_unless
  rename_unless-ok (some e) s u answer ne h = cc
  rename_unless-ok none s u answer ne h = rename_found-ok (lookup name s.profiles) s u answer ne h

  -- A rename to another name that is accepted takes the profile and every cover that follows it to
  -- the new name. Each cover either followed the old name and follows the new one, now above the keys
  -- that the file has for it whether or not it was so before, or did not follow it and has
  -- the record that it had. The old name is gone, the new one has the old one's record under its new
  -- name, every other profile is as it was, and the answer counts the covers that went along.
  pub rename-follows :
      (s u : Store) (answer : Renaming)
      → IsDict s.covers
      → str_eq new_name name ≡ false
      → rename float_of utcnow file name new_name s ≡ (ok answer, u)
      → (stored : Record) × (lookup name s.profiles ≡ some stored)
        × ((n : String)
            → (follows name (lookup n s.covers) ≡ true)
                × (obeys new_name (lookup n u.covers) ≡ true)
              ⊎ (follows name (lookup n s.covers) ≡ false)
                × (lookup n u.covers ≡ lookup n s.covers))
        × ((m : String)
            → lookup m u.profiles ≡ (
                if str_eq name m
                then none
                else if str_eq new_name m
                then some (insert "name" (text new_name) stored)
                else lookup m s.profiles))
        × (answer.moved ≡ length (covers_following name s))
  unfolding rename
  rename-follows s u answer d ne h =
      let (stored, known, e, moved) =
        rename_unless-ok (refuse_a_file_profile file s name) s u answer ne h in
      let (covers, profiles) =
        subst (Moved stored s) (sym e) (move_profile-Moved stored s d ne known) in
      (stored, known, covers, profiles, moved)
