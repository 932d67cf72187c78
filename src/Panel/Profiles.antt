-- ===== src/Panel/Profiles.antt =====
-- panel_write.py: renaming and deleting a stored profile. `File` is what myhome.yaml says of this
-- gateway: the names of its `cover_profiles:` block, and its basic covers as they are written.
pub mod Renamed
pub mod Refused
mod Tests
use Prim.Native.Char.{code}
use my_home_stability.Prelude.{
  ℕ, suc, ◌≡◌, refl, String, Bool, true, false, not, ◌&&◌, ◌||◌, Option, none, some, List, [], ◌∷◌,
  str_eq, leb, length, if◌then◌else◌, is_some,
}
use my_home_stability.Dict.{Dict, lookup, insert}
use my_home_stability.Store.Record.{text, Record}
use my_home_stability.Store.State.{Store, member, set_profile}
use my_home_stability.Store.Assign.{
  as_text, is_text, sorted, covers_following, remove_profile, set_assignments, StoredCalibration,
  stored_calibration, with_id,
}
use my_home_stability.Store.Obeys.{each}
use my_home_stability.Panel.Write.{
  PanelError, unknown_profile, profile_not_editable, name_in_use, invalid_name, Result, ok, err,
  Work, is_empty,
}

pub record File : Type 0 where
  pub profiles : List String
  pub covers : Dict Record

-- one character of `[A-Za-z0-9_]`, by its code
in_range : ℕ → ℕ → ℕ → Bool
in_range low high c = leb low c && leb c high

name_char : ℕ → Bool
name_char c = in_range 65 90 c || in_range 97 122 c || in_range 48 57 c || in_range 95 95 c

name_chars : String → Bool
unfolding name_char in_range
name_chars String.[] = true
name_chars (String.◌∷◌ c s) = name_char (code c) && name_chars s

chars : String → ℕ
chars String.[] = 0
chars (String.◌∷◌ c s) = suc (chars s)

-- `PROFILE_NAME_PATTERN`
unfoldable pub is_profile_name : String → Bool
unfolding name_chars chars
is_profile_name name = leb 1 (chars name) && (leb (chars name) 64 && name_chars name)

-- `_refuse_a_bad_name`
unfoldable pub refuse_a_bad_name : String → Option PanelError
refuse_a_bad_name name =
    if not (is_profile_name name) || str_eq name "no_profile" then some invalid_name else none

-- `_refuse_a_file_profile`
unfoldable pub refuse_a_file_profile : File → Store → String → Option PanelError
refuse_a_file_profile file s name =
    if not (is_some (lookup name s.profiles)) && member name file.profiles
    then some profile_not_editable
    else none

module _ (float_of : String → Option ℕ) where
  -- `CalibrationStore.calibration`
  unfoldable pub calibration : Option Record → String → Option StoredCalibration
  calibration none id = none
  calibration (some r) id = some (stored_calibration float_of (with_id id r))

  -- `record is not None and record.profile`
  unfoldable pub is_assigned : Option StoredCalibration → Bool
  is_assigned none = false
  is_assigned (some c) = elim c.profile [ none ↦ false | some p ↦ not (str_eq p "") ]

  -- `_followers_from_file`
  unfoldable pub followers_from : String → Dict Record → Store → List String
  followers_from name [] s = []
  followers_from name ((id, cfg) ∷ covers) s =
      let rest = followers_from name covers s in
      if is_text name (lookup "profile" cfg)
        && not (is_assigned (calibration (lookup id s.covers) id))
      then id ∷ rest
      else rest

pub record Renaming : Type 0 where
  pub moved : ℕ
  pub from_file : List String

pub record Deletion : Type 0 where
  pub covers_affected : List String
  pub from_file : List String

-- a new name that cannot be taken
unfoldable pub refuse_the_new_name : File → Store → String → String → Option PanelError
refuse_the_new_name file s name new_name = elim (refuse_a_bad_name new_name) [
  | some e ↦ some e
  | none ↦
      if not (str_eq new_name name)
        && (is_some (lookup new_name s.profiles) || member new_name file.profiles)
      then some name_in_use
      else none
]

module _ (float_of : String → Option ℕ) (utcnow : String) (file : File) where
  -- the second write: every cover assigned to the old name is pointed at the new one
  unfoldable pub repoint : String → List String → Store → Store
  repoint new_name assigned s =
      if is_empty assigned
      then s
      else (set_assignments float_of utcnow (each new_name assigned) s).0

  -- the three writes
  unfoldable pub move_profile : String → String → Record → Store → Store
  unfolding repoint
  move_profile name new_name stored s =
      let named = set_profile new_name (insert "name" (text new_name) stored) s in
      let repointed = repoint new_name (covers_following name s) named in
      (remove_profile float_of name repointed).1

  unfoldable pub rename_allowed : String → String → Record → Option PanelError → Work Renaming
  unfolding move_profile
  rename_allowed name new_name stored (some e) s = (err e, s)
  rename_allowed name new_name stored none s =
      if str_eq new_name name then (ok (record { moved = 0; from_file = [] }), s) else (
        ok (record {
          moved = length (covers_following name s);
          from_file = sorted (followers_from float_of name file.covers s);
        }),
        move_profile name new_name stored s,
      )

  -- `_stored_profile`, and what follows it
  unfoldable pub rename_found : String → String → Option Record → Work Renaming
  unfolding rename_allowed
  rename_found name new_name none s = (err unknown_profile, s)
  rename_found name new_name (some stored) s =
      rename_allowed name new_name stored (refuse_the_new_name file s name new_name) s

  unfoldable pub rename_unless : String → String → Option PanelError → Work Renaming
  unfolding rename_found
  rename_unless name new_name (some e) s = (err e, s)
  rename_unless name new_name none s = rename_found name new_name (lookup name s.profiles) s

  -- `async_profile_rename`
  unfoldable pub rename : String → String → Work Renaming
  unfolding rename_unless
  rename name new_name s = rename_unless name new_name (refuse_a_file_profile file s name) s

  unfoldable pub delete_found : String → Option Record → Work Deletion
  delete_found name none s = (err unknown_profile, s)
  delete_found name (some stored) s =
      let (orphans, t) = remove_profile float_of name s in
      (
        ok (record {
          covers_affected = orphans;
          from_file = sorted (followers_from float_of name file.covers s);
        }),
        t,
      )

  unfoldable pub delete_unless : String → Option PanelError → Work Deletion
  unfolding delete_found
  delete_unless name (some e) s = (err e, s)
  delete_unless name none s = delete_found name (lookup name s.profiles) s

  -- `async_profile_delete`
  unfoldable pub delete : String → Work Deletion
  unfolding delete_unless
  delete name s = delete_unless name (refuse_a_file_profile file s name) s
