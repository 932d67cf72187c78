-- ===== src/Panel/Edit/Tests.antt =====
-- Numbers typed for one cover, at concrete data.
use my_home_stability.Prelude.{
  String, Bool, false, Option, none, some, List, [], ◌∷◌, str_eq, leb, if◌then◌else◌,
}
use my_home_stability.Dict.{Dict}
use my_home_stability.Store.Record.{Record, Value, text, mapping, float}
use my_home_stability.Store.State.{Store}
use my_home_stability.Store.Assign.{as_text}
use my_home_stability.Panel.Edit.{Floats, CalibrationField, opening_time, slat_time}

-- Two numerals, typed as texts, and the identity for the rest.
abbrev floats : Floats
floats = record {
  float_of = λ s. if str_eq s "90" then some 90 else if str_eq s "25" then some 25 else none;
  str = λ v. elim (as_text (some v)) [ none ↦ "" | some s ↦ s ];
  strip = λ s. s;
  replace = λ a b s. s;
  le = leb;
  whole = λ n. n;
}

abbrev house : Dict Record
house = ("c1", []) ∷ []

abbrev never : String → Bool
never id = false

abbrev before : Store
before = record {
  profiles = [];
  covers =
      ("c1", ("profile", text "tall") ∷ ("overrides", mapping (("slat_time", float 3) ∷ [])) ∷ [])
      ∷ [];
  order = [];
  undo = none;
  saves = 0;
}

abbrev edits : List (CalibrationField × Option Value)
edits = (opening_time, some (text "25")) ∷ (slat_time, none) ∷ []
