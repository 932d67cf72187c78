-- ===== src/Panel/Reorder/Merged.antt =====
-- panel_write.py, `async_reorder`: the order that is written.
use my_home_stability.Prelude.{
  ℕ, ◌⊎◌, ◌+◌, ◌≤◌, ◌≡◌, refl, sym, ap, ◌∙◌, String, Bool, true, false, not, ◌&&◌, Option, none,
  some, List, [], ◌∷◌, ◌++◌, arith, str_eq, eq_iff, eq_refl, length, keep, length-append,
  Bool-cases, inl, inr, get_elem?, is_some,
}
use my_home_stability.Dict.{Dict, lookup, keys, IsDict}
use my_home_stability.Store.Record.{Record}
use my_home_stability.Store.State.{Store, member, as_values, ordered, set_order}
use my_home_stability.Store.Unique.{
  Unique, member-append, member-keep, ordered-Unique, member-ordered, pigeons,
}
use my_home_stability.Panel.Write.{ok, is_empty}
use my_home_stability.Panel.Reorder.{
  dedup_from, completed, merged, in_group_of, text_or_empty, in_group, reorder_group, reorder,
}
use my_home_stability.Panel.Reorder.Seats.{insert_all-eq, AllOf, keep-fill, holds, get_elem?-fill}

-- `list(dict.fromkeys(…))` repeats nothing, and has the ids that the list has.
member-dedup_from :
    (seen xs : List String) (z : String)
    → member z (dedup_from seen xs) ≡ (member z xs && not (member z seen))
unfolding dedup_from member
member-dedup_from seen [] z = ground arith
member-dedup_from seen (x ∷ xs) z =
    let same : str_eq x z ≡ true → member x seen ≡ member z seen =
      λ e. ap (λ t. member t seen) ((eq_iff x z).0 e) in
    ground (arith, same, member-dedup_from (x ∷ seen) xs z, member-dedup_from seen xs z)

dedup_from-Unique : (seen xs : List String) → Unique (dedup_from seen xs)
unfolding dedup_from
dedup_from-Unique seen [] = tt
dedup_from-Unique seen (x ∷ xs) = elim (Bool-cases (member x seen)) [
  | inl e ↦ rw e (dedup_from-Unique seen xs)
  | inr e ↦ rw e (
    (member-dedup_from (x ∷ seen) xs x ∙ unfold member in ground (arith, eq_refl x)),
    dedup_from-Unique (x ∷ seen) xs,
  )
]

-- every member of `xs` is one that `p` accepts
AllOf-members :
    (p : String → Bool) (xs : List String)
    → ((z : String) → member z xs ≡ true → p z ≡ true)
    → AllOf p xs
unfolding member
AllOf-members p [] h = tt
AllOf-members p (x ∷ xs) h =
    (h x (ground (arith, eq_refl x)), AllOf-members p xs (λ z m. h z (ground (arith, m))))

keep-AllOf : (p : String → Bool) (xs : List String) → AllOf p xs → keep p xs ≡ xs
keep-AllOf p [] a = refl
keep-AllOf p (x ∷ xs) a = ground (arith, keep-AllOf p xs a.1)

-- The members of the group are those that are asked for, and those that are left out.
keep_split :
    (p q : String → Bool) (xs : List String)
    → length (keep p xs)
      ≡ length (keep (λ x. p x && q x) xs) + length (keep (λ x. p x && not (q x)) xs)
keep_split p q [] = omega arith
keep_split p q (x ∷ xs) = ground (arith, keep_split p q xs)

keep_fewer :
    (p q : String → Bool) (xs : List String)
    → length (keep (λ x. p x && q x) xs) ≤ length (keep q xs)
keep_fewer p q [] = omega arith
keep_fewer p q (x ∷ xs) = ground (arith, keep_fewer p q xs)

module _ (p : String → Bool) (order listed : List String) where
  wanted : List String
  wanted = dedup_from [] order

  member-wanted : (z : String) → member z wanted ≡ member z order
  unfolding wanted member
  member-wanted z = ground (arith, member-dedup_from [] order z)

  -- As many are put back as there are places.
  completed-length :
      Unique listed
      → ((z : String) → member z order ≡ true → (p z && member z listed) ≡ true)
      → length (completed p order listed) ≡ length (keep p listed)
  unfolding completed wanted
  completed-length u a =
      let asked : List String = keep (λ x. p x && member x wanted) listed in
      let all : keep (λ x. member x asked) wanted ≡ wanted =
        keep-AllOf (λ x. member x asked) wanted
          (AllOf-members (λ x. member x asked) wanted
            (λ z m. ground (
              arith,
              m,
              member-wanted z,
              a z (sym (member-wanted z) ∙ m),
              member-keep (λ x. p x && member x wanted) z listed,
            ))) in
      omega (
        arith,
        length-append wanted (keep (λ x. p x && not (member x wanted)) listed),
        keep_split p (λ x. member x wanted) listed,
        keep_fewer p (λ x. member x wanted) listed,
        pigeons wanted listed u,
        pigeons asked wanted (dedup_from-Unique [] order),
        ap length all,
      )

  completed-AllOf :
      ((z : String) → member z order ≡ true → (p z && member z listed) ≡ true)
      → AllOf p (completed p order listed)
  unfolding completed wanted
  completed-AllOf a =
      let left : List String = keep (λ x. p x && not (member x wanted)) listed in
      AllOf-members p (wanted ++ left) (λ z m. ground (
        arith,
        m,
        member-append z wanted left,
        member-keep (λ x. p x && not (member x wanted)) z listed,
        member-wanted z,
        a z,
      ))

  -- The places of the group, and nothing else, are filled again, in the order asked for.
  merged-places :
      Unique listed
      → ((z : String) → member z order ≡ true → (p z && member z listed) ≡ true)
      → ((i : ℕ)
          → (holds p (get_elem? listed i) ≡ true)
            ⊎ (get_elem? (merged p order listed) i ≡ get_elem? listed i))
        × (keep p (merged p order listed) ≡ completed p order listed)
  unfolding merged
  merged-places u a =
      let ws = completed p order listed in
      rw (insert_all-eq p listed ws) (
        (λ i. get_elem?-fill p listed ws i (completed-length u a)),
        keep-fill p listed ws (completed-AllOf a) (completed-length u a),
      )

member-eq-lookup : (z : String) (d : Dict Record) → member z (keys d) ≡ is_some (lookup z d)
unfolding member keys lookup
member-eq-lookup z [] = refl
member-eq-lookup z ((k, r) ∷ d) = ground (arith, member-eq-lookup z d)

keys-Unique : (d : Dict Record) → IsDict d → Unique (keys d)
unfolding keys
keys-Unique [] h = tt
keys-Unique ((k, r) ∷ d) h = (member-eq-lookup k d ∙ ap is_some (h.0), keys-Unique d h.1)

accepted :
    (f : String → Bool) (xs : List String) (z : String)
    → is_empty (keep (λ id. not (f id)) xs) ≡ true
    → member z xs ≡ true
    → f z ≡ true
unfolding member
accepted f [] z e m = cc
accepted f (x ∷ xs) z e m =
    let same : str_eq x z ≡ true → f x ≡ f z = λ q. ap f ((eq_iff x z).0 q) in
    ground (arith, e, m, same, accepted f xs z)

module _ (float_of : String → Option ℕ) (covers : Dict Record) (order : List String)
    (s : Store) where
  in_group_of-is_some :
      (group z : String) (o : Option Record)
      → in_group_of float_of s group z o ≡ true
      → is_some o ≡ true
  unfolding in_group_of
  in_group_of-is_some group z none h = h
  in_group_of-is_some group z (some cfg) h = refl

  in_group-is_some :
      (group z : String)
      → in_group float_of covers s group z ≡ true
      → is_some (lookup z covers) ≡ true
  unfolding in_group
  in_group-is_some group z h = in_group_of-is_some group z (lookup z covers) h

  -- A member of the group is in the order of all the covers.
  in_group-ordered :
      (group z : String)
      → in_group float_of covers s group z ≡ true
      → member z (ordered s (keys covers)) ≡ true
  in_group-ordered group z h =
      member-ordered s (keys covers) z (member-eq-lookup z covers ∙ in_group-is_some group z h)

  -- A group's order that is accepted names its members only, and is the one that is written.
  reorder_group-ok :
      (group : String) (u : Store)
      → reorder_group float_of covers order group s ≡ (ok tt, u)
      → let p = in_group float_of covers s group in
        (is_empty (keep (λ id. not (p id)) order) ≡ true)
        × (u
            ≡ (set_order
                (as_values (
                  merged p
                    (keep (λ id. is_some (lookup id covers)) order)
                    (ordered s (keys covers))))
                (some (keys covers))
                s).0)
  unfolding reorder_group
  reorder_group-ok group u h = ground arith

  all_known :
      (group : String)
      → is_empty (keep (λ id. not (in_group float_of covers s group id)) order) ≡ true
      → keep (λ id. is_some (lookup id covers)) order ≡ order
  all_known group e =
      keep-AllOf (λ id. is_some (lookup id covers)) order
        (AllOf-members (λ id. is_some (lookup id covers)) order
          (λ z m.
            in_group-is_some group z (accepted (in_group float_of covers s group) order z e m)))

  -- A reordering of one group that is accepted writes an order in which every place holds what it
  -- held, but for the places of the group's own members; and these take, from the first on, the
  -- members in the order asked for, each once, followed by the members that the request leaves out.
  pub reorder-places :
      (group : Option String) (u : Store)
      → IsDict covers
      → Unique s.order
      → reorder float_of covers order group false s ≡ (ok tt, u)
      → let p = in_group float_of covers s (text_or_empty group) in
        let listed = ordered s (keys covers) in
        (m : List String) × (u ≡ (set_order (as_values m) (some (keys covers)) s).0)
        × ((i : ℕ) → (holds p (get_elem? listed i) ≡ true) ⊎ (get_elem? m i ≡ get_elem? listed i))
        × (keep p m ≡ completed p order listed)
  unfolding reorder
  reorder-places group u d n h =
      let p = in_group float_of covers s (text_or_empty group) in
      let listed = ordered s (keys covers) in
      let (e, w) = reorder_group-ok (text_or_empty group) u h in
      let known = all_known (text_or_empty group) e in
      let (places, asked) =
        merged-places p order listed (ordered-Unique s (keys covers) n (keys-Unique covers d))
          (λ z m. ground (
            arith,
            accepted p order z e m,
            in_group-ordered (text_or_empty group) z (accepted p order z e m),
          )) in
      (
        merged p order listed,
        w ∙ ap (λ o. (set_order (as_values (merged p o listed)) (some (keys covers)) s).0) known,
        places,
        asked,
      )
