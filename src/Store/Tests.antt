-- ===== src/Store/Tests.antt =====
-- The theorems about the calibration store at concrete data.
use my_home_stability.Prelude.{◌⊎◌, true, ℕ, ◌≡◌, refl, String, false, Option, none, [], ◌∷◌}
use my_home_stability.Dict.{lookup}
use my_home_stability.Store.Record.{number, text}
use my_home_stability.Store.State.{Store, member}
use my_home_stability.Store.Assign.{remove_profile}
use my_home_stability.Store.Orphans.{follows, remove_profile-follows}

-- no text is a number
abbrev never : String → Option ℕ
never s = none

abbrev two_covers : Store
two_covers = record {
  profiles = ("tall", []) ∷ [];
  covers =
      ("c1", ("profile", text "tall") ∷ ("height", number 200) ∷ [])
      ∷ ("c2", ("height", number 90) ∷ [])
      ∷ [];
  order = [];
  undo = none;
  saves = 0;
}

remove_profile-follows_example :
    let (orphans, t) = remove_profile never "tall" two_covers in
    ((n : String) → follows "tall" (lookup n t.covers) ≡ false)
    × ((n : String) → member n orphans ≡ follows "tall" (lookup n two_covers.covers))
    × ((n : String) → (member n orphans ≡ true) ⊎ (lookup n t.covers ≡ lookup n two_covers.covers))
    × (lookup "tall" t.profiles ≡ none)
unfolding lookup
remove_profile-follows_example =
    remove_profile-follows never "tall" two_covers (refl, (refl, tt)) refl
