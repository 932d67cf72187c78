-- ===== src/Panel/Profiles/Refused.antt =====
-- panel_write.py, `async_profile_rename`: its refusals.
use my_home_stability.Prelude.{ℕ, ◌≡◌, String, Option, none, some, arith}
use my_home_stability.Dict.{lookup}
use my_home_stability.Store.Record.{Record}
use my_home_stability.Store.State.{Store}
use my_home_stability.Panel.Write.{PanelError, err}
use my_home_stability.Panel.Profiles.{
  File, refuse_a_file_profile, refuse_the_new_name, rename_allowed, rename_found, rename_unless,
  rename,
}

module _ (float_of : String → Option ℕ) (utcnow : String) (file : File) (name new_name : String)
    (s u : Store) (e : PanelError) where
  rename_allowed-err :
      (stored : Record) (o : Option PanelError)
      → rename_allowed float_of utcnow file name new_name stored o s ≡ (err e, u)
      → u ≡ s
  unfolding rename_allowed
  rename_allowed-err stored (some _) h = cc
  rename_allowed-err stored none h = ground arith

  rename_found-err :
      (o : Option Record) → rename_found float_of utcnow file name new_name o s ≡ (err e, u) → u ≡ s
  unfolding rename_found
  rename_found-err none h = cc
  rename_found-err (some stored) h =
      rename_allowed-err stored (refuse_the_new_name file s name new_name) h

  rename_unless-err :
      (o : Option PanelError)
      → rename_unless float_of utcnow file name new_name o s ≡ (err e, u)
      → u ≡ s
  unfolding rename_unless
  rename_unless-err (some _) h = cc
  rename_unless-err none h = rename_found-err (lookup name s.profiles) h

  -- A rename that is refused, for whichever reason, leaves the store as it was.
  pub rename-err : rename float_of utcnow file name new_name s ≡ (err e, u) → u ≡ s
  unfolding rename
  rename-err h = rename_unless-err (refuse_a_file_profile file s name) h
