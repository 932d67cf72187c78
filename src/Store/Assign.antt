-- ===== src/Store/Assign.antt =====
-- calibration_store.py: a cover's record as the resolution reads it, and the operations that follow
-- a profile by its name: `covers_following`, `async_remove_profile`, `async_set_assignments`.
-- `float_of` is Python's `float` on a text, `none` where it raises; `utcnow` is the instant that a
-- record is stamped with, as a text.
use my_home_stability.Prelude.{
  ℕ, String, Bool, true, false, not, ◌||◌, Option, none, some, List, [], ◌∷◌, str_eq, ◌==◌,
  if◌then◌else◌, is_some,
}
use Prim.Native.Nat.{Ordering}
use Prim.Native.String.{compare}
use my_home_stability.Dict.{Dict, lookup, insert, erase}
use my_home_stability.Store.Record.{
  Scalar, float, string, Value, null, flag, number, text, mapping, block, Record, record_eq,
}
use my_home_stability.Store.State.{Store, member, save}

pub record StoredCalibration : Type 0 where
  pub cover_unique_id : Option Value
  pub profile : Option String
  pub profile_wins : Bool
  pub height : Option ℕ
  pub overrides : Dict ℕ
  pub source : Value
  pub measured_at : Option Value

abbrev pub has_entries {ℓ} : {A : Type ℓ} → List A → Bool
has_entries [] = false
has_entries (_ ∷ _) = true

-- `says_anything`
unfoldable pub says_anything : StoredCalibration → Bool
says_anything c = has_entries c.overrides || is_some c.profile || is_some c.height

-- `COVER_CALIBRATION_KEYS`
abbrev pub cover_calibration_keys : List String
cover_calibration_keys =
    "opening_time" ∷ "closing_time" ∷ "slat_time" ∷ "roll" ∷ "opening_roll" ∷ "closing_roll"
    ∷ "stop_latency" ∷ "start_delay" ∷ []

-- Python's truth of a value, `bool(x)`
unfoldable pub truthy : Option Value → Bool
truthy none = false
truthy (some null) = false
truthy (some (flag b)) = b
truthy (some (number n)) = not (n == 0)
truthy (some (text s)) = not (str_eq s "")
truthy (some (mapping d)) = has_entries d
truthy (some (block _)) = true

-- `value if isinstance(value, str) else None`
unfoldable pub as_text : Option Value → Option String
as_text (some (text s)) = some s
as_text _ = none

-- `stored if isinstance(stored, Mapping) else {}`
unfoldable pub as_mapping : Option Value → Dict Scalar
as_mapping (some (mapping d)) = d
as_mapping _ = []

unfoldable pub or_else : Option Value → Value → Value
or_else (some v) d = v
or_else none d = d

-- `{CONF_COVER_UNIQUE_ID: unique_id, **data}`
unfoldable pub with_id : String → Record → Record
with_id id r = if is_some (lookup "cover_unique_id" r) then r else ("cover_unique_id", text id) ∷ r

module _ (float_of : String → Option ℕ) where
  -- `_a_stored_number`, of an entry of the overrides and of a value of the record
  unfoldable pub scalar_number : Scalar → Option ℕ
  scalar_number (float n) = some n
  scalar_number (string s) = float_of s
  scalar_number _ = none

  unfoldable pub stored_number : Option Value → Option ℕ
  stored_number (some (number n)) = some n
  stored_number (some (text s)) = float_of s
  stored_number _ = none

  -- the comprehension over the overrides
  unfoldable pub known_overrides : Dict Scalar → Dict ℕ
  known_overrides [] = []
  known_overrides ((key, value) ∷ rest) =
      let others = known_overrides rest in
      elim (scalar_number value) [
        | none ↦ others
        | some n ↦ if member key cover_calibration_keys then (key, n) ∷ others else others
      ]

  -- `stored_calibration`
  unfoldable pub stored_calibration : Record → StoredCalibration
  unfolding or_else
  stored_calibration data_ = record {
    cover_unique_id = lookup "cover_unique_id" data_;
    profile = as_text (lookup "profile" data_);
    profile_wins = truthy (lookup "profile_wins" data_);
    height = stored_number (lookup "height" data_);
    overrides = known_overrides (as_mapping (lookup "overrides" data_));
    source = or_else (lookup "source" data_) (text "guided");
    measured_at = lookup "measured_at" data_;
  }

-- `data.get(CONF_PROFILE) == name`
unfoldable pub is_text : String → Option Value → Bool
is_text name (some (text s)) = str_eq s name
is_text name _ = false

unfoldable pub names_profile : String → Record → Bool
names_profile name r = is_text name (lookup "profile" r)

unfoldable pub following : String → Dict Record → List String
following name [] = []
following name ((id, r) ∷ rest) =
    if names_profile name r then id ∷ following name rest else following name rest

-- `sorted` on texts
unfoldable pub sort_insert : String → List String → List String
sort_insert x [] = x ∷ []
sort_insert x (y ∷ ys) =
    let later = y ∷ sort_insert x ys in
    elim (compare x y) [ Ordering.gt ↦ later | _ ↦ x ∷ (y ∷ ys) ]

unfoldable pub sorted : List String → List String
sorted [] = []
sorted (x ∷ xs) = sort_insert x (sorted xs)

-- `covers_following`
unfoldable pub covers_following : String → Store → List String
covers_following name s = sorted (following name s.covers)

-- the record without its assignment: the profile goes, and the precedence that it carried
unfoldable pub without_profile : Record → Record
without_profile r = erase "profile_wins" (erase "profile" r)

module _ (float_of : String → Option ℕ) where
  -- keep a record that says something, and delete one that does not
  unfoldable pub keep_record : String → Record → Dict Record → Dict Record
  keep_record id r covers =
      if says_anything (stored_calibration float_of (with_id id r))
      then insert id r covers
      else erase id covers

  unfoldable pub strip_found : String → Dict Record → Option Record → Dict Record
  strip_found id covers none = covers
  strip_found id covers (some r) = keep_record id (without_profile r) covers

  -- One orphan of `async_remove_profile`.
  unfoldable pub strip_one : String → Dict Record → Dict Record
  strip_one id covers = strip_found id covers (lookup id covers)

  unfoldable pub strip_all : List String → Dict Record → Dict Record
  strip_all [] covers = covers
  strip_all (id ∷ ids) covers = strip_all ids (strip_one id covers)

  -- `async_remove_profile`
  unfoldable pub remove_profile : String → Store → List String × Store
  remove_profile name s =
      if is_some (lookup name s.profiles)
      then (let t : Store = record s { profiles = erase name s.profiles } in
          let orphans = covers_following name t in
          (orphans, save (record t { covers = strip_all orphans t.covers })))
      else ([], s)

-- one cover of a batch: the profile that it is given, and its height where the batch carries one
pub record Assignment : Type 0 where
  pub unique_id : String
  pub profile : Option String
  pub height : Option ℕ

unfoldable pub assign_profile : Option String → Record → Record
assign_profile none r = without_profile r
assign_profile (some p) r = insert "profile_wins" (flag true) (insert "profile" (text p) r)

unfoldable pub assign_height : Option ℕ → Record → Record
assign_height none r = r
assign_height (some h) r = insert "height" (number h) r

-- `dict(self._covers.get(unique_id) or {})`
unfoldable pub record_or_empty : Option Record → Record
record_or_empty none = []
record_or_empty (some r) = r

-- `record.setdefault(CONF_SOURCE, …)` and the stamp of the measurement where it has none
unfoldable pub stamped : String → Record → Record
stamped utcnow r =
    let sourced = if is_some (lookup "source" r) then r else insert "source" (text "guided") r in
    if truthy (lookup "measured_at" sourced)
    then sourced
    else insert "measured_at" (text utcnow) sourced

-- the record that an assignment writes over the one that is there
unfoldable pub assigned : Assignment → Record → Record
unfolding assign_profile assign_height
assigned a before = assign_height a.height (assign_profile a.profile before)

module _ (float_of : String → Option ℕ) (utcnow : String) where
  unfoldable pub assign_one : Assignment → Dict Record × Bool → Dict Record × Bool
  unfolding record_or_empty stamped
  assign_one a (covers, changed) =
      let before = record_or_empty (lookup a.unique_id covers) in
      let r = assigned a before in
      if record_eq r before
      then (covers, changed)
      else if says_anything (stored_calibration float_of (with_id a.unique_id r))
      then (insert a.unique_id (stamped utcnow r) covers, true)
      else (erase a.unique_id covers, true)

  unfoldable pub assign_all : List Assignment → Dict Record × Bool → Dict Record × Bool
  assign_all [] state = state
  assign_all (a ∷ rest) state = assign_all rest (assign_one a state)

  -- `async_set_assignments`
  unfoldable pub set_assignments : List Assignment → Store → Store × Bool
  set_assignments assignments s =
      let (covers, changed) = assign_all assignments (s.covers, false) in
      let t : Store = record s { covers = covers } in if changed then (save t, true) else (t, false)
