-- ===== src/Store/Orphans.antt =====
-- What a removed profile and a batch of assignments leave in the covers' records.
use my_home_stability.Prelude.{
  ◌⊎◌, ℕ, ◌≡◌, refl, subst, ◌∙◌, String, Bool, true, false, ◌||◌, Option, none, some, List, [], ◌∷◌,
  arith, str_eq, eq_iff, eq_refl, if◌then◌else◌, inl, inr, Bool-cases, Option-cases, is_some,
}
use my_home_stability.Dict.{IsDict, Dict, lookup, erase, lookup-insert, lookup-erase}
use my_home_stability.Store.Record.{Record}
use my_home_stability.Store.State.{Store, member, save}
use my_home_stability.Store.Assign.{
  says_anything, stored_calibration, with_id, is_text, names_profile, following, sort_insert,
  sorted, covers_following, without_profile, keep_record, strip_found, strip_one, strip_all,
  remove_profile,
}

-- the cover follows the profile `name` by its stored record
unfoldable pub follows : String → Option Record → Bool
follows name none = false
follows name (some r) = names_profile name r

member-sort_insert :
    (x y : String) (ys : List String) → member x (sort_insert y ys) ≡ (str_eq y x || member x ys)
unfolding member sort_insert
member-sort_insert x y [] = refl
member-sort_insert x y (z ∷ zs) = ground (arith, member-sort_insert x y zs)

pub member-sorted : (x : String) (ys : List String) → member x (sorted ys) ≡ member x ys
unfolding member sorted
member-sorted x [] = refl
member-sorted x (y ∷ ys) = ground (arith, member-sort_insert x y (sorted ys), member-sorted x ys)

pub member-following :
    (name id : String) (covers : Dict Record)
    → follows name (lookup id covers) ≡ true
    → member id (following name covers) ≡ true
unfolding follows following member lookup
member-following name id [] h = cc
member-following name id ((j, r) ∷ rest) h = ground (arith, member-following name id rest)

names_profile-without :
    (name : String) (r : Record) → names_profile name (without_profile r) ≡ false
unfolding names_profile without_profile is_text
names_profile-without name r = rw lookup-erase (rw lookup-erase refl)

pub clash : (b : Bool) → b ≡ false → b ≡ true → ⊥
clash b e f = cc

module _ (float_of : String → Option ℕ) where
  -- the record kept, where it says something
  kept_if : Record → Record → Option Record
  kept_if asked r = if says_anything (stored_calibration float_of asked) then some r else none

  lookup-keep_record :
      (id n : String) (r : Record) (covers : Dict Record)
      → lookup n (keep_record float_of id r covers)
        ≡ (if str_eq id n then kept_if (with_id id r) r else lookup n covers)
  unfolding keep_record kept_if
  lookup-keep_record id n r covers =
      elim (Bool-cases (says_anything (stored_calibration float_of (with_id id r)))) [
        | inl e ↦ rw e (rw lookup-insert refl)
        | inr e ↦ rw e (rw lookup-erase refl)
      ]

  strip_one-none :
      (id : String) (covers : Dict Record)
      → lookup id covers ≡ none
      → strip_one float_of id covers ≡ covers
  unfolding strip_one strip_found
  strip_one-none id covers e = rw e

  strip_one-some :
      (id : String) (covers : Dict Record) (r : Record)
      → lookup id covers ≡ some r
      → strip_one float_of id covers ≡ keep_record float_of id (without_profile r) covers
  unfolding strip_one strip_found
  strip_one-some id covers r e = rw e

  strip_one-ne :
      (id n : String) (covers : Dict Record)
      → str_eq id n ≡ false
      → lookup n (strip_one float_of id covers) ≡ lookup n covers
  strip_one-ne id n covers h = elim (Option-cases (lookup id covers)) [
    | inl e ↦ rw (strip_one-none id covers e)
    | inr (r, e) ↦ rw (strip_one-some id covers r e) (rw lookup-keep_record (rw h))
  ]

module _ (float_of : String → Option ℕ) (name : String) where
  follows-kept :
      (asked r : Record) → follows name (kept_if float_of asked (without_profile r)) ≡ false
  unfolding follows kept_if
  follows-kept asked r = elim (Bool-cases (says_anything (stored_calibration float_of asked))) [
    | inl e ↦ rw e (names_profile-without name r)
    | inr e ↦ rw e
  ]

  strip_one_self :
      (id : String) (covers : Dict Record)
      → follows name (lookup id (strip_one float_of id covers)) ≡ false
  strip_one_self id covers = elim (Option-cases (lookup id covers)) [
    | inl e ↦ rw (strip_one-none float_of id covers e) (rw e (unfold follows in refl))
    | inr (r, e) ↦
        rw (strip_one-some float_of id covers r e)
          (rw lookup-keep_record (rw eq_refl (follows-kept (with_id id (without_profile r)) r)))
  ]

  strip_all-keeps :
      (ids : List String) (n : String) (covers : Dict Record)
      → follows name (lookup n covers) ≡ false
      → follows name (lookup n (strip_all float_of ids covers)) ≡ false
  unfolding strip_all
  strip_all-keeps [] n covers h = h
  strip_all-keeps (id ∷ ids) n covers h =
      strip_all-keeps ids n (strip_one float_of id covers) (elim (Bool-cases (str_eq id n)) [
        | inl s ↦
            subst (λ x. follows name (lookup x (strip_one float_of id covers)) ≡ false)
              ((eq_iff id n).0 s) (strip_one_self id covers)
        | inr s ↦ rw (strip_one-ne float_of id n covers s) h
      ])

  strip_all-sets :
      (ids : List String) (n : String) (covers : Dict Record)
      → member n ids ≡ true
      → follows name (lookup n (strip_all float_of ids covers)) ≡ false
  unfolding strip_all member
  strip_all-sets [] n covers m = cc
  strip_all-sets (id ∷ ids) n covers m = elim (Bool-cases (str_eq id n)) [
    | inl s ↦ strip_all-keeps ids n (strip_one float_of id covers) (
        subst (λ x. follows name (lookup x (strip_one float_of id covers)) ≡ false)
          ((eq_iff id n).0 s) (strip_one_self id covers))
    | inr s ↦ strip_all-sets ids n (strip_one float_of id covers) (rw s at m)
  ]

-- A cover that is no orphan keeps its record as it was.
pub strip_all-others :
    (float_of : String → Option ℕ) (ids : List String) (n : String) (covers : Dict Record)
    → member n ids ≡ false
    → lookup n (strip_all float_of ids covers) ≡ lookup n covers
unfolding strip_all member
strip_all-others float_of [] n covers m = refl
strip_all-others float_of (id ∷ ids) n covers m = elim (Bool-cases (str_eq id n)) [
  | inl s ↦ absurd (clash (str_eq id n || member n ids) m (rw s))
  | inr s ↦
      strip_all-others float_of ids n (strip_one float_of id covers) (rw s at m)
      ∙ strip_one-ne float_of id n covers s
]

-- the covers that follow `name` are stripped, whichever covers those are
strip_following :
    (float_of : String → Option ℕ) (name n : String) (covers : Dict Record)
    → follows name (lookup n (strip_all float_of (sorted (following name covers)) covers)) ≡ false
strip_following float_of name n covers = elim (Bool-cases (follows name (lookup n covers))) [
  | inl e ↦
      strip_all-sets float_of name (sorted (following name covers)) n covers
        (member-sorted n (following name covers) ∙ member-following name n covers e)
  | inr e ↦ strip_all-keeps float_of name (sorted (following name covers)) n covers e
]

-- the record of orphans and store that `remove_profile` answers for a known profile
pub remove_profile-known :
    (float_of : String → Option ℕ) (name : String) (s : Store)
    → is_some (lookup name s.profiles) ≡ true
    → let t : Store = record s { profiles = erase name s.profiles } in
      let orphans = sorted (following name s.covers) in
      remove_profile float_of name s
      ≡ (orphans, save (record t { covers = strip_all float_of orphans s.covers }))
unfolding remove_profile covers_following
remove_profile-known float_of name s known = simp known

absent-following :
    (name n : String) (covers : Dict Record)
    → lookup n covers ≡ none
    → member n (following name covers) ≡ false
unfolding following member lookup
absent-following name n [] h = refl
absent-following name n ((j, r) ∷ rest) h = ground (arith, absent-following name n rest)

-- The followers of a profile are the covers that follow it.
following-follows :
    (name n : String) (covers : Dict Record)
    → IsDict covers
    → member n (following name covers) ≡ follows name (lookup n covers)
unfolding following member lookup follows
following-follows name n [] d = refl
following-follows name n ((j, r) ∷ rest) d = elim (Bool-cases (str_eq j n)) [
  | inl e ↦
      let gone =
        absent-following name n rest (subst (λ x. lookup x rest ≡ none) ((eq_iff j n).0 e) d.0) in
      ground (arith, e, gone)
  | inr e ↦ ground (arith, e, following-follows name n rest d.1)
]

-- After a stored profile is removed, where no cover has two records: no cover's record names it any
-- more; the answered orphans are the covers that followed it, and no others; every cover that is
-- not among them has exactly the record that it had; and the profile is gone.
pub remove_profile-follows :
    (float_of : String → Option ℕ) (name : String) (s : Store)
    → IsDict s.covers
    → is_some (lookup name s.profiles) ≡ true
    → let (orphans, t) = remove_profile float_of name s in
      ((n : String) → follows name (lookup n t.covers) ≡ false)
      × ((n : String) → member n orphans ≡ follows name (lookup n s.covers))
      × ((n : String) → (member n orphans ≡ true) ⊎ (lookup n t.covers ≡ lookup n s.covers))
      × (lookup name t.profiles ≡ none)
unfolding save
remove_profile-follows float_of name s unique known =
    rw (remove_profile-known float_of name s known) (
      (λ n. strip_following float_of name n s.covers),
      (λ n. member-sorted n (following name s.covers) ∙ following-follows name n s.covers unique),
      (λ n. elim (Bool-cases (member n (sorted (following name s.covers)))) [
        | inl m ↦ inl m
        | inr m ↦ inr (strip_all-others float_of (sorted (following name s.covers)) n s.covers m)
      ]),
      rw lookup-erase (rw eq_refl),
    )
