-- ===== src/Panel/Reorder/Tests.antt =====
-- Reordering a group at concrete data.
use my_home_stability.Prelude.{
  ℕ, ◌⊎◌, ◌≡◌, refl, String, true, false, Option, none, some, List, [], ◌∷◌, get_elem?, keep,
}
use my_home_stability.Dict.{Dict, lookup, keys}
use my_home_stability.Store.Record.{Record, text}
use my_home_stability.Store.State.{Store, member, ordered, as_values, set_order}
use my_home_stability.Store.Assign.{as_text}
use my_home_stability.Panel.Write.{Result}
use my_home_stability.Panel.Profiles.{calibration}
use my_home_stability.Panel.Reorder.{
  reorder, reorder_group, in_group, in_group_of, profile_now, text_or_empty, completed,
  stored_profile_or, profile_or,
}
use my_home_stability.Panel.Reorder.Seats.{holds}
use my_home_stability.Panel.Reorder.Merged.{reorder-places}

abbrev never : String → Option ℕ
never s = none

-- three covers: the outer two follow one profile, the middle one follows none
abbrev house : Dict Record
house =
    ("c1", ("profile", text "tall") ∷ []) ∷ ("c2", []) ∷ ("c3", ("profile", text "tall") ∷ []) ∷ []

abbrev before : Store
before = record {
  profiles = [];
  covers = [];
  order = "c1" ∷ "c2" ∷ "c3" ∷ [];
  undo = none;
  saves = 0;
}

swapped : Result Unit × Store
swapped = reorder never house ("c3" ∷ "c1" ∷ []) (some "tall") false before

reorder-places_example :
    (m : List String) × (swapped.1 ≡ (set_order (as_values m) (some (keys house)) before).0)
    × ((i : ℕ)
        → (holds (in_group never house before "tall") (get_elem? (ordered before (keys house)) i)
            ≡ true)
          ⊎ (get_elem? m i ≡ get_elem? (ordered before (keys house)) i))
    × (keep (in_group never house before "tall") m
        ≡ completed
            (in_group never house before "tall")
            ("c3" ∷ "c1" ∷ [])
            (ordered before (keys house)))
unfolding swapped reorder reorder_group in_group in_group_of profile_now lookup calibration
    text_or_empty stored_profile_or profile_or member as_text
reorder-places_example =
    reorder-places never house ("c3" ∷ "c1" ∷ []) before (some "tall") swapped.1
      (refl, (refl, (refl, tt))) (refl, (refl, (refl, tt))) refl
