-- ===== src/Panel/Restored.antt =====
-- panel_write.py, `_diff`, against `async_restore` of calibration_store.py.
use my_home_stability.Prelude.{
  ◌≡◌, refl, sym, subst, ◌∙◌, String, Bool, true, false, Option, none, some, List, [], ◌∷◌, ◌++◌,
  arith, str_eq, eq_iff, if◌then◌else◌, inl, inr, Bool-cases, Option-cases, is_some,
}
use my_home_stability.Dict.{Dict, lookup, insert, keys, lookup-insert}
use my_home_stability.Store.Record.{Record, stored_eq, SameStored}
use my_home_stability.Store.State.{
  Store, member, strings_eq, normalised_order, as_values, restore_section, restore_order, restore,
  save,
}
use my_home_stability.Store.Invariant.{IsNormal, IsNormal-normalised_order}
use my_home_stability.Store.Restore.{AllFrom, restore_section_same}
use my_home_stability.Panel.Write.{state_of, diff_keys, diff_section, diff}

-- Two stores with the same records under the same names, in the same order of the covers.
pub record SameStore (a b : Store) : Type 0 where
  pub profiles : (n : String) → SameStored (lookup n a.profiles) (lookup n b.profiles)
  pub covers : (n : String) → SameStored (lookup n a.covers) (lookup n b.covers)
  pub order : a.order ≡ b.order

AllFrom-insert :
    (before : Dict Record) (name : String) (items : Dict (Option Record))
    → AllFrom before items
    → AllFrom before (insert name (lookup name before) items)
unfolding insert
AllFrom-insert before name [] a = (refl, tt)
AllFrom-insert before name ((j, old) ∷ rest) a = elim (Bool-cases (str_eq j name)) [
  | inl e ↦ rw e (refl, a.1)
  | inr e ↦ rw e (a.0, AllFrom-insert before name rest a.1)
]

module _ (before after : Dict Record) where
  diff_keys-from : (names : List String) → AllFrom before (diff_keys names before after)
  unfolding diff_keys
  diff_keys-from [] = tt
  diff_keys-from (name ∷ names) =
      elim (Bool-cases (stored_eq (lookup name before) (lookup name after))) [
        | inl e ↦ rw e (diff_keys-from names)
        | inr e ↦ rw e (AllFrom-insert before name _ (diff_keys-from names))
      ]

  differs_at :
      (name n : String)
      → str_eq name n ≡ true
      → stored_eq (lookup n before) (lookup n after) ≡ false
      → stored_eq (lookup name before) (lookup name after) ≡ false
  differs_at name n s d =
      subst (λ x. stored_eq (lookup x before) (lookup x after) ≡ false) (sym ((eq_iff name n).0 s))
        d

  diff_keys-names :
      (n : String) (names : List String)
      → member n names ≡ true
      → stored_eq (lookup n before) (lookup n after) ≡ false
      → is_some (lookup n (diff_keys names before after)) ≡ true
  unfolding diff_keys member
  diff_keys-names n [] m d = cc
  diff_keys-names n (name ∷ names) m d = elim (Bool-cases (str_eq name n)) [
    | inl s ↦ rw (differs_at name n s d) (rw lookup-insert (rw s))
    | inr s ↦
        let ih = diff_keys-names n names (rw s at m) d in
        elim (Bool-cases (stored_eq (lookup name before) (lookup name after))) [
          | inl e ↦ rw e ih
          | inr e ↦ rw e (rw lookup-insert (rw s ih))
        ]
  ]

member-append-left :
    (x : String) (xs ys : List String) → member x xs ≡ true → member x (xs ++ ys) ≡ true
unfolding member
member-append-left x [] ys h = cc
member-append-left x (y ∷ xs) ys h = ground (arith, member-append-left x xs ys)

member-append-right :
    (x : String) (xs ys : List String) → member x ys ≡ true → member x (xs ++ ys) ≡ true
unfolding member
member-append-right x [] ys h = h
member-append-right x (y ∷ xs) ys h = ground (arith, member-append-right x xs ys)

member-keys :
    (n : String) (d : Dict Record) (r : Record) → lookup n d ≡ some r → member n (keys d) ≡ true
unfolding member keys lookup
member-keys n [] r h = cc
member-keys n ((j, s) ∷ d) r h = ground (arith, member-keys n d r)

-- A name on which the sections differ is in one of them.
differing_key :
    (before after : Dict Record) (n : String)
    → stored_eq (lookup n before) (lookup n after) ≡ false
    → member n (keys before ++ keys after) ≡ true
unfolding stored_eq
differing_key before after n d = elim (Option-cases (lookup n before)) [
  | inr (r, e) ↦ member-append-left n (keys before) (keys after) (member-keys n before r e)
  | inl e ↦ elim (Option-cases (lookup n after)) [
    | inr (r, f) ↦ member-append-right n (keys before) (keys after) (member-keys n after r f)
    | inl f ↦ ground (arith, e, f)
  ]
]

section_same :
    (before after : Dict Record) (n : String) (changed : Bool)
    → SameStored
        (lookup n before)
        (lookup n (restore_section (diff_section before after) (after, changed)).0)
unfolding diff_section
section_same before after n changed =
    let names = keys before ++ keys after in
    restore_section_same before n (diff_keys names before after) after changed
      (diff_keys-from before after names)
      (λ d. diff_keys-names before after n names (differing_key before after n d) d)

strings_eq_sound : (xs ys : List String) → strings_eq xs ys ≡ true → xs ≡ ys
unfolding strings_eq
strings_eq_sound [] [] e = refl
strings_eq_sound (x ∷ xs) (y ∷ ys) e = ground (arith, eq_iff x y, strings_eq_sound xs ys)
strings_eq_sound [] (y ∷ ys) e = cc
strings_eq_sound (x ∷ xs) [] e = cc

order_same :
    (before after : List String) (changed : Bool)
    → IsNormal before
    → before
      ≡ (restore_order (if strings_eq before after then none else some before) (after, changed)).0
unfolding restore_order
order_same before after changed h = elim (Bool-cases (strings_eq before after)) [
  | inl e ↦ rw e (strings_eq_sound before after e)
  | inr e ↦ rw e (elim (Bool-cases (strings_eq (normalised_order (as_values before)) after)) [
    | inl f ↦ rw f (sym (IsNormal-normalised_order before h) ∙ strings_eq_sound _ _ f)
    | inr f ↦ rw f (sym (IsNormal-normalised_order before h))
  ])
]

-- What `restore` leaves, section by section.
restore-parts :
    (p c : Dict (Option Record)) (o : Option (List String)) (s : Store)
    → let sp = restore_section p (s.profiles, false) in
      let sc = restore_section c (s.covers, sp.1) in
      let so = restore_order o (s.order, sc.1) in
      let r = (restore p c o s).0 in (r.profiles ≡ sp.0) × (r.covers ≡ sc.0) × (r.order ≡ so.0)
unfolding restore save
restore-parts p c o s =
    let sp = restore_section p (s.profiles, false) in
    let sc = restore_section c (s.covers, sp.1) in
    let so = restore_order o (s.order, sc.1) in
    elim (Bool-cases so.1) [ inl e ↦ rw e (refl, refl, refl) | inr e ↦ rw e (refl, refl, refl) ]

-- Restoring what the difference kept gives back the store of before.
restore-diff :
    (b t : Store)
    → IsNormal b.order
    → let d = diff (state_of b) (state_of t) in
      SameStore b (restore d.profiles d.covers d.order t).0
unfolding diff state_of
restore-diff b t h =
    let dp = diff_section b.profiles t.profiles in
    let dc = diff_section b.covers t.covers in
    let o : Option (List String) = if strings_eq b.order t.order then none else some b.order in
    let (ep, ec, eo) = restore-parts dp dc o t in
    record {
      profiles = λ n. rw ep (section_same b.profiles t.profiles n false);
      covers = λ n. rw ec (section_same b.covers t.covers n _);
      order = rw eo (order_same b.order t.order _ h);
    }

pub restore-diff-slot :
    (b t : Store)
    → IsNormal b.order
    → let d = diff (state_of b) (state_of t) in
      SameStore b (restore d.profiles d.covers d.order (record t { undo = none })).0
unfolding state_of
restore-diff-slot b t h = restore-diff b (record t { undo = none }) h
