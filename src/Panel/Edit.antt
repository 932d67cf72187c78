-- ===== src/Panel/Edit.antt =====
-- panel_write.py: the numbers that a person types, `async_set_travel`, `async_cover_edit`,
-- `async_cover_forget` without the words of its answer, and `async_profile_edit`. `Floats` is what
-- Python does with a number that was typed: a float is its code.
pub mod Kept
pub mod Asked
pub mod Typed
mod Tests
use my_home_stability.Prelude.{
  ℕ, String, Bool, true, false, not, ◌&&◌, ◌||◌, Option, none, some, List, [], ◌∷◌, ◌++◌, str_eq,
  if◌then◌else◌, is_some,
}
use my_home_stability.Dict.{Dict, lookup, insert, erase, keys}
use my_home_stability.Store.Record.{Value, text, Record}
use my_home_stability.Store.State.{Store, member, set_profile, set_calibration, remove_calibration}
use my_home_stability.Store.Assign.{
  StoredCalibration, stored_calibration, says_anything, sorted, covers_following, truthy,
  record_or_empty,
}
use my_home_stability.Store.Written.{ProfileNumbers, cover_calibration_data, cover_profile_data}
use my_home_stability.Panel.Write.{
  PanelError, unknown_cover, advanced_cover, unknown_profile, not_a_number, out_of_range, Result,
  ok, err, Work,
}
use my_home_stability.Panel.Profiles.{
  File, calibration, refuse_a_file_profile, followers_from, Deletion,
}

-- `float` of a text, `str` of a value, `str.strip`, `str.replace`, `<=` on floats, and the float of
-- a whole number
pub record Floats : Type 0 where
  pub float_of : String → Option ℕ
  pub str : Value → String
  pub strip : String → String
  pub replace : String → String → String → String
  pub le : ℕ → ℕ → Bool
  pub whole : ℕ → ℕ

-- what follows a step that may be refused
unfoldable pub with_ok : {A B : Type 0} → Result A → (A → Work B) → Work B
with_ok (ok a) next s = next a s
with_ok (err e) next s = (err e, s)

unfoldable pub map_ok : {A B : Type 0} → (A → B) → Result A → Result B
map_ok g (ok a) = ok (g a)
map_ok g (err e) = err e

-- the fields of `CALIBRATION_FIELDS`
pub data CalibrationField : Type 0 where
  opening_time closing_time slat_time opening_roll closing_roll : CalibrationField

unfoldable pub field_key : CalibrationField → String
field_key opening_time = "opening_time"
field_key closing_time = "closing_time"
field_key slat_time = "slat_time"
field_key opening_roll = "opening_roll"
field_key closing_roll = "closing_roll"

module _ (p : Floats) where
  -- their bounds: `MIN_RUN_SEC` to `MAX_RUN_SEC`, 0 to `MAX_SLAT_SEC`, `MIN_ROLL` to `MAX_ROLL`
  unfoldable pub field_bounds : CalibrationField → ℕ × ℕ
  field_bounds opening_time = (p.whole 1, p.whole 600)
  field_bounds closing_time = (p.whole 1, p.whole 600)
  field_bounds slat_time = (p.whole 0, p.whole 60)
  field_bounds opening_roll = (p.whole 1, p.whole 5)
  field_bounds closing_roll = (p.whole 1, p.whole 5)

  -- `parse_number`
  unfoldable pub parse_number : Value → Option ℕ
  parse_number value =
      let typed = p.replace "," "." (p.strip (p.str value)) in
      if str_eq typed "" then none else p.float_of typed

  unfoldable pub within_bounds : Option ℕ → ℕ × ℕ → Result ℕ
  within_bounds none (low, high) = err not_a_number
  within_bounds (some n) (low, high) = if p.le low n && p.le n high then ok n else err out_of_range

  -- `_number`, `_height`
  unfoldable pub number_in : Value → ℕ × ℕ → Result ℕ
  unfolding within_bounds
  number_in value bounds = within_bounds (parse_number value) bounds

  unfoldable pub height_in : Value → Result ℕ
  unfolding number_in
  height_in value = number_in value (p.whole 20, p.whole 500)

  -- `None if height is None else _height(height)`
  unfoldable pub optional_height : Option Value → Result (Option ℕ)
  unfolding map_ok
  optional_height none = ok none
  optional_height (some v) = map_ok some (height_in v)

-- `_cover_config`; the second argument is whether the file has an advanced cover of that id
unfoldable pub cover_config : Option Record → Bool → Result Record
cover_config (some cfg) advanced = ok cfg
cover_config none advanced = if advanced then err advanced_cover else err unknown_cover

-- `dict(record.overrides) if record else {}` and the rest of a record that is not there
unfoldable pub overrides_of : Option StoredCalibration → Dict ℕ
overrides_of none = []
overrides_of (some c) = c.overrides

unfoldable pub profile_of : Option StoredCalibration → Option String
profile_of none = none
profile_of (some c) = c.profile

unfoldable pub wins_of : Option StoredCalibration → Bool
wins_of none = false
wins_of (some c) = c.profile_wins

unfoldable pub height_of : Option StoredCalibration → Option ℕ
height_of none = none
height_of (some c) = c.height

module _ (p : Floats) (utcnow : String) where
  -- `_rewritten_record`
  unfoldable pub rewritten_record : Store → String → Option ℕ → Dict ℕ → Record
  rewritten_record s id height overrides =
      let before = lookup id s.covers in
      let known = calibration p.float_of before id in
      cover_calibration_data utcnow id (profile_of known) (wins_of known) height overrides "manual"
        none (lookup "raw" (record_or_empty before))

  -- `_store_the_record`
  unfoldable pub store_the_record : String → Record → Work Unit
  store_the_record id data_ s = (
    ok tt,
    (if says_anything (stored_calibration p.float_of data_)
        then set_calibration id data_ s
        else (remove_calibration id s).0),
  )

  unfoldable pub edit_to : String → Option ℕ → Dict ℕ → Work Unit
  unfolding store_the_record
  edit_to id height overrides s = store_the_record id (rewritten_record s id height overrides) s

  module _ (covers : Dict Record) (advanced : String → Bool) where
    -- `async_set_travel`
    unfoldable pub set_travel : String → Option Value → Work Unit
    unfolding with_ok edit_to
    set_travel id height s =
        let known = calibration p.float_of (lookup id s.covers) id in
        with_ok (cover_config (lookup id covers) (advanced id))
          (λ _. with_ok (optional_height p height) (λ h. edit_to id h (overrides_of known))) s

    -- one typed number after the other
    unfoldable pub edit_overrides :
        List (CalibrationField × Option Value) → Dict ℕ → Result (Dict ℕ)
    edit_overrides [] wanted = ok wanted
    edit_overrides ((key, none) ∷ rest) wanted = edit_overrides rest (erase (field_key key) wanted)
    edit_overrides ((key, some value) ∷ rest) wanted =
        elim (number_in p value (field_bounds p key)) [
          | err e ↦ err e
          | ok n ↦ edit_overrides rest (insert (field_key key) n wanted)
        ]

    -- `async_cover_edit`; the height is `none` where it was not given
    unfoldable pub edited_height : Option (Option Value) → Option ℕ → Result (Option ℕ)
    edited_height none before = ok before
    edited_height (some height) before = optional_height p height

    unfoldable pub cover_edit :
        String → List (CalibrationField × Option Value) → Option (Option Value) → Work Unit
    unfolding with_ok edit_to edited_height
    cover_edit id overrides height s =
        let known = calibration p.float_of (lookup id s.covers) id in
        with_ok (cover_config (lookup id covers) (advanced id))
          (λ _.
            with_ok (edit_overrides overrides (overrides_of known)) (λ wanted.
              with_ok (edited_height height (height_of known)) (λ h. edit_to id h wanted)))
          s

    -- `async_cover_forget`, whose answer resolves the cover again
    unfoldable pub cover_forget : String → Work Unit
    unfolding with_ok
    cover_forget id s =
        with_ok (cover_config (lookup id covers) (advanced id))
          (λ _ t. (ok tt, (remove_calibration id t).0)) s

-- the six values of a message
pub record ProfileValues : Type 0 where
  pub opening_time : Value
  pub closing_time : Value
  pub slat_time : Value
  pub opening_roll : Value
  pub closing_roll : Value
  pub reference_height : Value

-- `stored.get(CONF_SOURCE) or CALIBRATION_SOURCE_MANUAL`
unfoldable pub source_or_manual : Option Value → Value
source_or_manual none = text "manual"
source_or_manual (some v) = if truthy (some v) then v else text "manual"

-- `list(set(a) | set(b))`, sorted
unfoldable pub union : List String → List String → List String
union [] ys = ys
union (x ∷ xs) ys = if member x ys then union xs ys else x ∷ union xs ys

module _ (p : Floats) (utcnow : String) (file : File) where
  unfoldable pub edit_profile_to : String → Record → ProfileNumbers → Work (List String)
  edit_profile_to name stored n s = (
    ok (sorted (union (covers_following name s) (followers_from p.float_of name file.covers s))),
    set_profile name
        (cover_profile_data utcnow name n (lookup "reference_cover" stored)
          (lookup "measured_on" stored) (source_or_manual (lookup "source" stored)) none
          (lookup "raw" stored))
        s,
  )

  -- the numbers, in the order of `PROFILE_VALUE_FIELDS` and the reference height last
  unfoldable pub profile_numbers :
      ProfileValues → (ProfileNumbers → Work (List String)) → Work (List String)
  unfolding with_ok
  profile_numbers v next = with_ok (number_in p v.opening_time (field_bounds p opening_time)) λ a.
      with_ok (number_in p v.closing_time (field_bounds p closing_time)) λ b.
        with_ok (number_in p v.slat_time (field_bounds p slat_time)) λ c.
          with_ok (number_in p v.opening_roll (field_bounds p opening_roll)) λ d.
            with_ok (number_in p v.closing_roll (field_bounds p closing_roll)) λ e.
              with_ok (height_in p v.reference_height) λ h. next (record {
                reference_height = h;
                opening_time = a;
                closing_time = b;
                slat_time = c;
                opening_roll = d;
                closing_roll = e;
              })

  unfoldable pub edit_stored : String → ProfileValues → Option Record → Work (List String)
  unfolding profile_numbers edit_profile_to
  edit_stored name v none s = (err unknown_profile, s)
  edit_stored name v (some stored) s = profile_numbers v (edit_profile_to name stored) s

  unfoldable pub edit_unless : String → ProfileValues → Option PanelError → Work (List String)
  unfolding edit_stored
  edit_unless name v (some e) s = (err e, s)
  edit_unless name v none s = edit_stored name v (lookup name s.profiles) s

  -- `async_profile_edit`
  unfoldable pub profile_edit : String → ProfileValues → Work (List String)
  unfolding edit_unless
  profile_edit name v s = edit_unless name v (refuse_a_file_profile file s name) s
