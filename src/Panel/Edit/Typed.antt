-- ===== src/Panel/Edit/Typed.antt =====
-- panel_write.py: `async_set_travel` and `async_cover_edit` where they are accepted.
use my_home_stability.Prelude.{ℕ, Bool, true, ◌&&◌, [], ◌∷◌}
use my_home_stability.Dict.{Dict}
use my_home_stability.Store.Record.{Record}
use my_home_stability.Store.State.{Store, member}
use my_home_stability.Store.Assign.{cover_calibration_keys}

-- Every key is one of the travel model.
abbrev pub all_known : Dict ℕ → Bool
all_known [] = true
all_known ((key, _) ∷ rest) = member key cover_calibration_keys && all_known rest
