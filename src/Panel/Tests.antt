-- ===== src/Panel/Tests.antt =====
-- The theorems about the panel's writes at concrete data.
use my_home_stability.Prelude.{◌≡◌, refl, false, none, [], ◌∷◌, arith}
use my_home_stability.Dict.{lookup, insert, keys}
use my_home_stability.Store.Record.{number, text, stored_eq, within, matches}
use my_home_stability.Store.State.{
  Store, set_profile, save, normalised_order, normalised_from, as_values, member,
}
use my_home_stability.Panel.Write.{
  ok, Work, Panel, write, undo_work, write_unless, refuse_if_busy, after_work, remember, anything,
  diff, diff_section, diff_keys, state_of,
}
use my_home_stability.Panel.Restored.{SameStore}
use my_home_stability.Panel.Undone.{undo-write}

abbrev before : Store
before = record {
  profiles = ("tall", ("opening_time", number 20) ∷ []) ∷ [];
  covers = ("c1", ("profile", text "tall") ∷ ("height", number 200) ∷ []) ∷ [];
  order = "c1" ∷ "c2" ∷ [];
  undo = none;
  saves = 3;
}

abbrev gateway : Panel
gateway = record {
  store = before;
  writing = false;
  calibrating = [];
  signals = 0;
  publications = 0;
}

-- the profile's numbers typed by hand
abbrev edit : Work Unit
edit s = (ok tt, set_profile "tall" (("opening_time", number 25) ∷ []) s)

abbrev edited : Panel
edited = (write 5 100 "profile_edit" none edit gateway).1

undo-write_example :
    let (r, p'') = write 6 200 "undo" none (undo_work 5 200) edited in
    (r ≡ ok (record { undo_token = none; extra = "profile_edit" })) × SameStore before p''.store
unfolding normalised_order write write_unless after_work refuse_if_busy remember anything diff
    diff_section set_profile save diff_keys stored_eq lookup state_of normalised_from as_values
    member keys insert within matches
undo-write_example =
    undo-write 5 100 5 200 6 "profile_edit" edit gateway edited tt (refl, refl)
      ((refl, (refl, tt)), refl) refl refl (omega arith)
