-- ===== src/Panel/Assign.antt =====
-- panel_write.py: `async_assign`, which points shutters at profiles in one batch. Of a problem the
-- model keeps the cover and the kind; the words that a refusal shows are not modelled.
pub mod Items
pub mod Refused
pub mod Groups
mod Tests
use my_home_stability.Prelude.{
  ℕ, suc, ◌+◌, String, Bool, true, false, not, ◌&&◌, ◌||◌, Option, none, some, List, [], ◌∷◌, ◌++◌,
  map, str_eq, ◌==◌, length, insert_at, if◌then◌else◌, is_some,
}
use my_home_stability.Dict.{Dict, lookup, insert, keys}
use my_home_stability.Store.Record.{Value, Record, stored_eq, value_eq}
use my_home_stability.Store.State.{Store, member, as_values, ordered, set_order}
use my_home_stability.Store.Assign.{
  StoredCalibration, Assignment, set_assignments, truthy, stored_number, record_or_empty,
}
use my_home_stability.Resolve.Derive.{usable}
use my_home_stability.Panel.Write.{
  PanelError, unknown_profile, missing_travel, Result, ok, err, Work, is_empty,
}
use my_home_stability.Panel.Profiles.{File, calibration}
use my_home_stability.Panel.Reorder.{profile_now}
use my_home_stability.Panel.Edit.{Floats, height_of, cover_config, optional_height, with_ok}

pub record AssignItem : Type 0 where
  pub cover_unique_id : String
  pub profile : Option String
  pub height : Option Value

-- `_Problem`
pub record Problem : Type 0 where
  pub unique_id : String
  pub key : PanelError

-- what a cover is to get
abbrev pub Wanted : Type 0
Wanted = Option String × Option ℕ

unfoldable pub is_missing_travel : PanelError → Bool
is_missing_travel missing_travel = true
is_missing_travel _ = false

unfoldable pub any_missing : List Problem → Bool
any_missing [] = false
any_missing (q ∷ qs) = is_missing_travel q.key || any_missing qs

-- `_refuse_the_batch`, the kind of its refusal
unfoldable pub refuse_the_batch : Problem → List Problem → PanelError
refuse_the_batch first rest = if any_missing (first ∷ rest) then missing_travel else first.key

-- `x` where it is a float and not zero
unfoldable pub nonzero : Option ℕ → Option ℕ
nonzero none = none
nonzero (some n) = if n == 0 then none else some n

unfoldable pub first_of : Option ℕ → Option ℕ → Option ℕ
first_of none b = b
first_of (some a) b = some a

-- `order.remove`
unfoldable pub remove_one : String → List String → List String
remove_one x [] = []
remove_one x (y ∷ ys) = if str_eq y x then ys else y ∷ remove_one x ys

-- one past the last member of a group, from `k` on, or `at` where there is none
unfoldable pub group_end : (String → Bool) → ℕ → ℕ → List String → ℕ
group_end p k at [] = at
group_end p k at (x ∷ xs) = group_end p (suc k) (if p x then suc k else at) xs

module _ (p : Floats) (utcnow : String) (file : File) (advanced : String → Bool) where
  -- `_known_travel`
  unfoldable pub known_travel : Store → Record → String → Option ℕ
  known_travel s cfg id =
      first_of (nonzero (height_of (calibration p.float_of (lookup id s.covers) id))) (
        if truthy (lookup "height" cfg)
        then stored_number p.float_of (lookup "height" cfg)
        else none)

  -- a stored profile that `store.profiles` has: its record makes a profile
  unfoldable pub in_store : String → Option Record → Bool
  in_store name none = false
  in_store name (some r) = usable p.float_of name r

  -- `profile is not None and profile not in profiles`
  unfoldable pub no_such_profile : Store → Option String → Bool
  no_such_profile s none = false
  no_such_profile s (some name) =
      not (in_store name (lookup name s.profiles) || member name file.profiles)

  check_travel : Store → Record → AssignItem → Option ℕ → Result Wanted
  check_travel s cfg item height =
      if is_some item.profile
        && (not (is_some height) && not (is_some (known_travel s cfg item.cover_unique_id)))
      then err missing_travel
      else ok (item.profile, height)

  check_height : Store → Record → AssignItem → Result (Option ℕ) → Result Wanted
  unfolding check_travel
  check_height s cfg item (err e) = err e
  check_height s cfg item (ok height) = check_travel s cfg item height

  check_cover : Store → AssignItem → Result Record → Result Wanted
  unfolding check_height
  check_cover s item (err e) = err e
  check_cover s item (ok cfg) =
      if no_such_profile s item.profile
      then err unknown_profile
      else check_height s cfg item (optional_height p item.height)

  -- one item of the batch
  unfoldable pub check_item : Store → AssignItem → Result Wanted
  unfolding check_cover
  check_item s item =
      check_cover s item
        (cover_config (lookup item.cover_unique_id file.covers) (advanced item.cover_unique_id))

  collected : AssignItem → Result Wanted → Dict Wanted × List Problem → Dict Wanted × List Problem
  collected item (err e) (wanted, problems) =
      (wanted, problems ++ (record { unique_id = item.cover_unique_id; key = e } ∷ []))
  collected item (ok w) (wanted, problems) = (insert item.cover_unique_id w wanted, problems)

  -- the loop over the items
  unfoldable pub collect :
      Store → List AssignItem → Dict Wanted × List Problem → Dict Wanted × List Problem
  unfolding collected
  collect s [] state = state
  collect s (item ∷ items) state = collect s items (collected item (check_item s item) state)

  -- the group that a cover is in
  unfoldable pub group_now : Store → String → String
  group_now s id = profile_now p.float_of s (record_or_empty (lookup id file.covers)) id

  -- one moved cover goes to the end of its group
  unfoldable pub append_one : Store → String → List String → List String
  append_one s id order =
      let others = remove_one id order in
      let at =
        group_end (λ other. str_eq (group_now s other) (group_now s id)) 0 (length others) others in
      if member id order then insert_at at id others else order

  unfoldable pub append_all : Store → List String → List String → List String
  append_all s [] order = order
  append_all s (id ∷ moved) order = append_all s moved (append_one s id order)

  -- `_appended_to_their_groups`
  unfoldable pub appended_to_their_groups : Store → List String → List String
  appended_to_their_groups s moved = append_all s moved (ordered s (keys file.covers))

  -- the batch as the store takes it
  unfoldable pub as_assignments : Dict Wanted → List Assignment
  as_assignments [] = []
  as_assignments ((id, (profile, height)) ∷ rest) =
      record { unique_id = id; profile = profile; height = height } ∷ as_assignments rest

  unfoldable pub count_applied : List String → Store → Store → ℕ
  count_applied [] s t = 0
  count_applied (id ∷ ids) s t =
      let rest = count_applied ids s t in
      if stored_eq (lookup id s.covers) (lookup id t.covers) then rest else rest + 1

  same_value : Option Value → Option Value → Bool
  same_value none none = true
  same_value (some a) (some b) = value_eq a b
  same_value _ _ = false

  -- the covers whose profile changed
  unfoldable pub moved_covers : List String → Store → Store → List String
  unfolding same_value
  moved_covers [] s t = []
  moved_covers (id ∷ ids) s t =
      let rest = moved_covers ids s t in
      let before = lookup "profile" (record_or_empty (lookup id s.covers)) in
      let after = lookup "profile" (record_or_empty (lookup id t.covers)) in
      if same_value before after then rest else id ∷ rest

  unfoldable pub place_covers : Option (List String) → List String → Store → Store
  place_covers (some order) moved t = (set_order (as_values order) (some (keys file.covers)) t).0
  place_covers none moved t =
      if is_empty moved
      then t
      else (set_order (as_values (appended_to_their_groups t moved)) (some (keys file.covers)) t).0

  unfoldable pub apply_batch : Dict Wanted → Option (List String) → Work ℕ
  unfolding place_covers
  apply_batch wanted order s =
      let t = (set_assignments p.float_of utcnow (as_assignments wanted) s).0 in
      (ok (count_applied (keys wanted) s t), place_covers order (moved_covers (keys wanted) s t) t)

  unfoldable pub assign_collected : Dict Wanted × List Problem → Option (List String) → Work ℕ
  unfolding apply_batch
  assign_collected (wanted, first ∷ rest) order s = (err (refuse_the_batch first rest), s)
  assign_collected (wanted, []) order s = apply_batch wanted order s

  -- `async_assign`
  unfoldable pub assign : List AssignItem → Option (List String) → Work ℕ
  unfolding assign_collected
  assign items order s = assign_collected (collect s items ([], [])) order s
