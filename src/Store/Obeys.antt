-- ===== src/Store/Obeys.antt =====
-- One cover's record under an assignment to a profile: whom it follows, and with which precedence.
use my_home_stability.Prelude.{
  ◌&&◌, ℕ, ◌≡◌, refl, ◌∙◌, String, Bool, true, false, Option, none, some, List, [], ◌∷◌, arith,
  str_eq, eq_iff, eq_refl, if◌then◌else◌, inl, inr, Bool-cases, is_some,
}
use my_home_stability.Dict.{lookup, insert, lookup-insert}
use my_home_stability.Store.Record.{flag, Value, text, Record, SameEntry}
use my_home_stability.Store.Assign.{
  truthy, says_anything, stored_calibration, with_id, is_text, names_profile, as_text, Assignment,
  assigned, assign_profile, assign_height, record_or_empty, stamped,
}
use my_home_stability.Store.Orphans.{follows}

-- a cover that is given a profile, and no height
abbrev pub to_profile : String → String → Assignment
to_profile p id = record { unique_id = id; profile = some p; height = none }

pub assigned-profile :
    (p id : String) (before : Record)
    → lookup "profile" (assigned (to_profile p id) before) ≡ some (text p)
unfolding assigned assign_height assign_profile
assigned-profile p id before = rw lookup-insert (rw lookup-insert refl)

insert-other :
    (k j : String) (v : Value) (r : Record)
    → str_eq k j ≡ false
    → lookup j (insert k v r) ≡ lookup j r
insert-other k j v r d = rw lookup-insert (rw d)

-- Stamping a record changes its source and its instant only.
pub stamped-other :
    (utcnow j : String) (r : Record)
    → str_eq "source" j ≡ false
    → str_eq "measured_at" j ≡ false
    → lookup j (stamped utcnow r) ≡ lookup j r
unfolding stamped
stamped-other utcnow j r d e =
    let sourced = if is_some (lookup "source" r) then r else insert "source" (text "guided") r in
    let same : lookup j sourced ≡ lookup j r =
      ground (arith, insert-other "source" j (text "guided") r d) in
    ground (arith, same, insert-other "measured_at" j (text utcnow) sourced e)

pub with_id-profile :
    (id : String) (r : Record) → lookup "profile" (with_id id r) ≡ lookup "profile" r
unfolding with_id
with_id-profile id r = elim (Bool-cases (is_some (lookup "cover_unique_id" r))) [
  | inl k ↦ rw k
  | inr k ↦ rw k (unfold lookup in refl)
]

says_anything-profile :
    (float_of : String → Option ℕ) (p : String) (r : Record)
    → lookup "profile" r ≡ some (text p)
    → says_anything (stored_calibration float_of r) ≡ true
unfolding says_anything stored_calibration
says_anything-profile float_of p r e = rw e (unfold as_text in ground arith)

pub says_anything-assigned :
    (float_of : String → Option ℕ) (id p : String) (r : Record)
    → lookup "profile" r ≡ some (text p)
    → says_anything (stored_calibration float_of (with_id id r)) ≡ true
says_anything-assigned float_of id p r e =
    says_anything-profile float_of p (with_id id r) (with_id-profile id r ∙ e)

pub assigned-wins :
    (p id : String) (before : Record)
    → lookup "profile_wins" (assigned (to_profile p id) before) ≡ some (flag true)
unfolding assigned assign_height assign_profile
assigned-wins p id before = rw lookup-insert refl

-- the cover's record puts its profile above the keys of the file
unfoldable pub outranks : Option Record → Bool
outranks none = false
outranks (some r) = truthy (lookup "profile_wins" r)

pub same_flag : (o : Option Value) → SameEntry (some (flag true)) o → truthy o ≡ true
unfolding truthy
same_flag none h = absurd h
same_flag (some (flag b)) h = ground arith
same_flag (some _) h = cc

pub outranks-or_empty :
    (o : Option Record)
    → truthy (lookup "profile_wins" (record_or_empty o)) ≡ true
    → outranks o ≡ true
unfolding outranks record_or_empty truthy lookup
outranks-or_empty none h = cc
outranks-or_empty (some r) h = h

pub outranks-flag :
    (r : Record) → lookup "profile_wins" r ≡ some (flag true) → outranks (some r) ≡ true
unfolding outranks truthy
outranks-flag r e = rw e

-- the cover follows the profile, above the keys of the file
unfoldable pub obeys : String → Option Record → Bool
obeys p o = follows p o && outranks o

pub obeys-both :
    (p : String) (o : Option Record) → follows p o ≡ true → outranks o ≡ true → obeys p o ≡ true
unfolding obeys
obeys-both p o f w = rw (f, w)

pub obeys-follows : (p : String) (o : Option Record) → obeys p o ≡ true → follows p o ≡ true
unfolding obeys
obeys-follows p o h = ground arith

-- a record that the profile `p` may stand in already
pub same_profile :
    (p : String) (o : Option Value) → SameEntry (some (text p)) o → is_text p o ≡ true
unfolding is_text
same_profile p none h = absurd h
same_profile p (some (text s)) h = ground (arith, eq_iff s p)
same_profile p (some _) h = cc

pub follows-or_empty :
    (p : String) (o : Option Record)
    → is_text p (lookup "profile" (record_or_empty o)) ≡ true
    → follows p o ≡ true
unfolding follows names_profile record_or_empty is_text lookup
follows-or_empty p none h = cc
follows-or_empty p (some r) h = h

pub follows-text :
    (p : String) (r : Record) → lookup "profile" r ≡ some (text p) → follows p (some r) ≡ true
unfolding follows names_profile is_text
follows-text p r e = rw e (eq_refl p)

-- the batch that gives every one of these covers the profile
unfoldable pub each : String → List String → List Assignment
each p [] = []
each p (id ∷ ids) = to_profile p id ∷ each p ids
