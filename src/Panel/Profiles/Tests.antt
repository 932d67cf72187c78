-- ===== src/Panel/Profiles/Tests.antt =====
-- Renaming profiles at concrete data.
use my_home_stability.Prelude.{
  ℕ, ◌⊎◌, ◌≡◌, refl, String, true, false, Option, none, some, [], ◌∷◌, str_eq, length,
  if◌then◌else◌,
}
use my_home_stability.Dict.{lookup, insert}
use my_home_stability.Store.Record.{Record, number, text}
use my_home_stability.Store.State.{Store, member}
use my_home_stability.Store.Assign.{
  covers_following, sorted, following, names_profile, is_text, sort_insert,
}
use my_home_stability.Store.Orphans.{follows}
use my_home_stability.Store.Obeys.{obeys}
use my_home_stability.Panel.Write.{Result, name_in_use}
use my_home_stability.Panel.Profiles.{
  File, Renaming, rename, rename_unless, rename_found, rename_allowed, refuse_a_file_profile,
  refuse_the_new_name, refuse_a_bad_name, is_profile_name, followers_from,
}
use my_home_stability.Panel.Profiles.Renamed.{rename-follows}
use my_home_stability.Panel.Profiles.Refused.{rename-err}

abbrev never : String → Option ℕ
never s = none

abbrev file : File
file = record { profiles = "short" ∷ []; covers = [] }

abbrev tall : Record
tall = ("name", text "tall") ∷ ("opening_time", number 20) ∷ []

abbrev two_covers : Store
two_covers = record {
  profiles = ("tall", tall) ∷ [];
  covers = ("c1", ("profile", text "tall") ∷ []) ∷ ("c2", ("height", number 90) ∷ []) ∷ [];
  order = [];
  undo = none;
  saves = 0;
}

renamed : Result Renaming × Store
renamed = rename never "2026-11-26" file "tall" "high" two_covers

-- A name that the file defines is taken.
rename-err_example : (rename never "2026-11-26" file "tall" "short" two_covers).1 ≡ two_covers
unfolding rename rename_unless rename_found rename_allowed refuse_a_file_profile refuse_the_new_name
    refuse_a_bad_name is_profile_name lookup member
rename-err_example =
    rename-err never "2026-11-26" file "tall" "short" two_covers
      ((rename never "2026-11-26" file "tall" "short" two_covers).1) name_in_use refl

rename-follows_example :
    (stored : Record) × (lookup "tall" two_covers.profiles ≡ some stored)
    × ((n : String)
        → (follows "tall" (lookup n two_covers.covers) ≡ true)
            × (obeys "high" (lookup n renamed.1.covers) ≡ true)
          ⊎ (follows "tall" (lookup n two_covers.covers) ≡ false)
            × (lookup n renamed.1.covers ≡ lookup n two_covers.covers))
    × ((m : String)
        → lookup m renamed.1.profiles ≡ (
            if str_eq "tall" m
            then none
            else if str_eq "high" m
            then some (insert "name" (text "high") stored)
            else lookup m two_covers.profiles))
    × (1 ≡ length (covers_following "tall" two_covers))
unfolding renamed rename rename_unless rename_found rename_allowed refuse_a_file_profile
    refuse_the_new_name refuse_a_bad_name is_profile_name lookup member covers_following sorted
    following followers_from names_profile is_text sort_insert
rename-follows_example =
    rename-follows never "2026-11-26" file "tall" "high" two_covers renamed.1
      (record { moved = 1; from_file = [] }) (refl, (refl, tt)) refl refl
