-- ===== src/Store/State.antt =====
-- calibration_store.py, `CalibrationStore`: its state and every operation that writes it.
-- The file written by a save is the state itself, so a save is counted; a save also withdraws the
-- panel's undo, which is why that slot is part of the state here.
use my_home_stability.Prelude.{
  ℕ, ◌+◌, String, Bool, true, false, not, ◌&&◌, ◌||◌, Option, none, some, List, [], ◌∷◌, ◌++◌,
  str_eq, if◌then◌else◌, is_some, keep,
}
use my_home_stability.Dict.{Dict, lookup, insert, erase}
use my_home_stability.Store.Record.{Value, text, Record, stored_eq}

-- One write of the panel, as the records were before it (`panel_write._Undo`).
pub record Undo : Type 0 where
  pub token : ℕ
  pub expires_at : ℕ
  pub profiles : Dict (Option Record)
  pub covers : Dict (Option Record)
  pub order : Option (List String)
  pub what : String

pub record Store : Type 0 where
  pub profiles : Dict Record
  pub covers : Dict Record
  pub order : List String
  pub undo : Option Undo
  pub saves : ℕ

-- `item in seen`
unfoldable pub member : String → List String → Bool
member x [] = false
member x (y ∷ ys) = str_eq y x || member x ys

-- `normalised_order`, with the ids already seen. An item that is no text, an empty one and a
-- repeated one are skipped.
unfoldable pub normalised_from : List String → List Value → List String
normalised_from seen [] = []
normalised_from seen (text item ∷ rest) =
    let skipped = normalised_from seen rest in
    let taken = item ∷ normalised_from (item ∷ seen) rest in
    if str_eq item "" || member item seen then skipped else taken
normalised_from seen (_ ∷ rest) = normalised_from seen rest

unfoldable pub normalised_order : List Value → List String
normalised_order order = normalised_from [] order

-- a list of ids as the JSON list that it is
unfoldable pub as_values : List String → List Value
as_values [] = []
as_values (x ∷ xs) = text x ∷ as_values xs

unfoldable pub strings_eq : List String → List String → Bool
strings_eq [] [] = true
strings_eq (x ∷ xs) (y ∷ ys) = str_eq x y && strings_eq xs ys
strings_eq _ _ = false

-- `CalibrationStore.ordered`
unfoldable pub ordered : Store → List String → List String
ordered s known =
    let first = keep (λ id. member id known) s.order in
    first ++ keep (λ id. not (member id first)) known

-- `_async_save`
unfoldable pub save : Store → Store
save s = record s { undo = none; saves = s.saves + 1 }

-- `async_set_order`; `known` is the covers that exist, where the caller gives them
unfoldable pub allowed : Option (List String) → List String → List String
allowed none wanted = wanted
allowed (some known) wanted = keep (λ id. member id known) wanted

unfoldable pub set_order : List Value → Option (List String) → Store → Store × Bool
unfolding allowed
set_order order known s =
    let wanted = allowed known (normalised_order order) in
    if strings_eq wanted s.order then (s, false) else (save (record s { order = wanted }), true)

-- One section of `async_restore`: a missing record is popped, one that differs is written, and
-- the Boolean is `changed`.
unfoldable pub restore_one : String → Option Record → Dict Record × Bool → Dict Record × Bool
restore_one name none (d, changed) = (erase name d, is_some (lookup name d) || changed)
restore_one name (some r) (d, changed) =
    if stored_eq (lookup name d) (some r) then (d, changed) else (insert name r d, true)

unfoldable pub restore_section : Dict (Option Record) → Dict Record × Bool → Dict Record × Bool
restore_section [] state = state
restore_section ((name, old) ∷ rest) state = restore_section rest (restore_one name old state)

unfoldable pub restore_order : Option (List String) → List String × Bool → List String × Bool
restore_order none state = state
restore_order (some order) (now, changed) =
    let wanted = normalised_order (as_values order) in
    if strings_eq wanted now then (now, changed) else (wanted, true)

-- `async_restore`
unfoldable pub restore :
    Dict (Option Record) → Dict (Option Record) → Option (List String) → Store → Store × Bool
restore profiles covers order s =
    let (p, c1) = restore_section profiles (s.profiles, false) in
    let (c, c2) = restore_section covers (s.covers, c1) in
    let (o, changed) = restore_order order (s.order, c2) in
    let t : Store = record s { profiles = p; covers = c; order = o } in
    if changed then (save t, true) else (t, false)

-- `async_set_profile`
unfoldable pub set_profile : String → Record → Store → Store
set_profile name r s = save (record s { profiles = insert name r s.profiles })

-- `async_set_calibration`
unfoldable pub set_calibration : String → Record → Store → Store
set_calibration id r s = save (record s { covers = insert id (erase "cover_unique_id" r) s.covers })

-- `async_remove_calibration`
unfoldable pub remove_calibration : String → Store → Store × Bool
remove_calibration id s =
    if is_some (lookup id s.covers)
    then (save (record s { covers = erase id s.covers }), true)
    else (s, false)
