-- ===== src/Panel/Assign/Tests.antt =====
-- A batch of assignments at concrete data.
use my_home_stability.Prelude.{
  ◌≡◌, ◌⊎◌, refl, String, Bool, false, none, some, List, [], ◌∷◌, ◌++◌, str_eq, leb, if◌then◌else◌,
}
use my_home_stability.Dict.{keys}
use my_home_stability.Store.Record.{number, text}
use my_home_stability.Store.State.{Store, member}
use my_home_stability.Store.Unique.{Unique}
use my_home_stability.Panel.Profiles.{File}
use my_home_stability.Panel.Edit.{Floats}
use my_home_stability.Panel.Assign.{
  AssignItem, assign, remove_one, append_one, appended_to_their_groups, group_now,
}
use my_home_stability.Panel.Assign.Items.{is_err, lacks_travel}
use my_home_stability.Panel.Assign.Refused.{any_refused, any_lacking, assign-is_err}
use my_home_stability.Panel.Assign.Groups.{
  EndsIn, any, append_one-places, appended_to_their_groups-Unique,
}

abbrev floats : Floats
floats = record {
  float_of = λ s. if str_eq s "90" then some 90 else none;
  str = λ v. "";
  strip = λ s. s;
  replace = λ a b s. s;
  le = leb;
  whole = λ n. n;
}

abbrev never : String → Bool
never id = false

-- Three covers, of which the outer two follow one profile.
abbrev file : File
file = record {
  profiles = "tall" ∷ [];
  covers =
      ("c1", ("profile", text "tall") ∷ [])
      ∷ ("c2", ("height", number 90) ∷ [])
      ∷ ("c3", ("profile", text "tall") ∷ [])
      ∷ [];
}

abbrev before : Store
before = record { profiles = []; covers = []; order = "c2" ∷ "c1" ∷ []; undo = none; saves = 0 }

-- The second item has no travel.
abbrev batch : List AssignItem
batch =
    record { cover_unique_id = "c2"; profile = some "tall"; height = none }
    ∷ record { cover_unique_id = "c1"; profile = some "tall"; height = none }
    ∷ []

assign-is_err_example :
    let (r, t) = assign floats "now" file never batch none before in
    (is_err r ≡ any_refused floats "now" file never before batch)
    × (lacks_travel r ≡ any_lacking floats "now" file never before batch)
    × ((any_refused floats "now" file never before batch ≡ false) ⊎ (t ≡ before))
assign-is_err_example = assign-is_err floats "now" file never batch none before

append_one-places_example :
    (front : List String) × (back : List String) × (append_one floats "now" file never before "c1"
        ("c2" ∷ "c1" ∷ "c3" ∷ [])
      ≡ front ++ ("c1" ∷ back))
    × (front ++ back ≡ remove_one "c1" ("c2" ∷ "c1" ∷ "c3" ∷ []))
    × (any
          (λ other.
            str_eq
              (group_now floats "now" file never before other)
              (group_now floats "now" file never before "c1"))
          back
        ≡ false)
    × ((any
              (λ other.
                str_eq
                  (group_now floats "now" file never before other)
                  (group_now floats "now" file never before "c1"))
              (remove_one "c1" ("c2" ∷ "c1" ∷ "c3" ∷ []))
            ≡ false)
          × (back ≡ [])
        ⊎ EndsIn
            (λ other.
              str_eq
                (group_now floats "now" file never before other)
                (group_now floats "now" file never before "c1"))
            front)
unfolding member
append_one-places_example =
    append_one-places floats "now" file never before "c1" ("c2" ∷ "c1" ∷ "c3" ∷ []) refl

appended_to_their_groups-Unique_example :
    Unique (appended_to_their_groups floats "now" file never before ("c2" ∷ []))
    × ((z : String)
        → member z (appended_to_their_groups floats "now" file never before ("c2" ∷ []))
          ≡ member z (keys file.covers))
unfolding member keys
appended_to_their_groups-Unique_example =
    appended_to_their_groups-Unique floats "now" file never before ("c2" ∷ []) (refl, (refl, tt))
      (refl, (refl, (refl, tt)))
