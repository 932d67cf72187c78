-- ===== src/Store/Restore.antt =====
-- calibration_store.py, `async_restore`, against the records that it is given.
use my_home_stability.Prelude.{
  ◌≡◌, subst, String, Bool, true, false, Option, none, some, [], ◌∷◌, str_eq, eq_iff, eq_refl, inl,
  inr, Bool-cases, is_some,
}
use my_home_stability.Dict.{Dict, lookup, lookup-insert, lookup-erase}
use my_home_stability.Store.Record.{Record, stored_eq, SameStored}
use my_home_stability.Store.Same.{stored_eq_sound, SameStored-refl, SameStored-sym}
use my_home_stability.Store.State.{restore_one, restore_section}

-- Every entry is what `before` says of its name.
abbrev pub AllFrom : Dict Record → Dict (Option Record) → Type 0
AllFrom before [] = Unit
AllFrom before ((name, old) ∷ rest) = (old ≡ lookup name before) × AllFrom before rest

restore_one-same :
    (name : String) (old : Option Record) (d : Dict Record) (changed : Bool)
    → SameStored old (lookup name (restore_one name old (d, changed)).0)
unfolding restore_one
restore_one-same name none d changed = rw lookup-erase (rw eq_refl tt)
restore_one-same name (some r) d changed = elim (Bool-cases (stored_eq (lookup name d) (some r))) [
  | inl e ↦ rw e (SameStored-sym (lookup name d) (some r) (stored_eq_sound _ _ e))
  | inr e ↦ rw e (rw lookup-insert (rw eq_refl (SameStored-refl (some r))))
]

restore_one-ne :
    (name n : String) (old : Option Record) (d : Dict Record) (changed : Bool)
    → str_eq name n ≡ false
    → lookup n (restore_one name old (d, changed)).0 ≡ lookup n d
unfolding restore_one
restore_one-ne name n none d changed h = rw lookup-erase (rw h)
restore_one-ne name n (some r) d changed h =
    elim (Bool-cases (stored_eq (lookup name d) (some r))) [
      | inl e ↦ rw e
      | inr e ↦ rw e (rw lookup-insert (rw h))
    ]

module _ (before : Dict Record) (n : String) where
  one_step :
      (name : String) (old : Option Record) (d : Dict Record) (changed : Bool)
      → old ≡ lookup name before
      → str_eq name n ≡ true
      → SameStored (lookup n before) (lookup n (restore_one name old (d, changed)).0)
  one_step name old d changed e h =
      let same : name ≡ n = (eq_iff name n).0 h in
      subst (λ x. SameStored (lookup x before) (lookup x (restore_one name old (d, changed)).0))
        same
        (subst (λ o. SameStored o (lookup name (restore_one name old (d, changed)).0)) e
          (restore_one-same name old d changed))

  restore_section-keeps :
      (items : Dict (Option Record)) (d : Dict Record) (changed : Bool)
      → AllFrom before items
      → SameStored (lookup n before) (lookup n d)
      → SameStored (lookup n before) (lookup n (restore_section items (d, changed)).0)
  unfolding restore_section
  restore_section-keeps [] d changed a h = h
  restore_section-keeps ((name, old) ∷ rest) d changed (e, a) h =
      let (d', c') = restore_one name old (d, changed) in
      restore_section-keeps rest d' c' a (elim (Bool-cases (str_eq name n)) [
        | inl s ↦ one_step name old d changed e s
        | inr s ↦ rw (restore_one-ne name n old d changed s) h
      ])

  restore_section-sets :
      (items : Dict (Option Record)) (d : Dict Record) (changed : Bool)
      → AllFrom before items
      → is_some (lookup n items) ≡ true
      → SameStored (lookup n before) (lookup n (restore_section items (d, changed)).0)
  unfolding restore_section lookup
  restore_section-sets [] d changed a h = cc
  restore_section-sets ((name, old) ∷ rest) d changed (e, a) h =
      let (d', c') = restore_one name old (d, changed) in
      elim (Bool-cases (str_eq name n)) [
        | inl s ↦ restore_section-keeps rest d' c' a (one_step name old d changed e s)
        | inr s ↦ restore_section-sets rest d' c' a (rw s at h)
      ]

-- A section is put back where it differs, and left where it does not: the result is `before`.
pub restore_section_same :
    (before : Dict Record) (n : String) (items : Dict (Option Record)) (d : Dict Record)
    (changed : Bool)
    → AllFrom before items
    → (stored_eq (lookup n before) (lookup n d) ≡ false → is_some (lookup n items) ≡ true)
    → SameStored (lookup n before) (lookup n (restore_section items (d, changed)).0)
restore_section_same before n items d changed a named =
    elim (Bool-cases (stored_eq (lookup n before) (lookup n d))) [
      | inl e ↦ restore_section-keeps before n items d changed a (stored_eq_sound _ _ e)
      | inr e ↦ restore_section-sets before n items d changed a (named e)
    ]
