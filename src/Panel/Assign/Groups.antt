-- ===== src/Panel/Assign/Groups.antt =====
-- panel_write.py: `_appended_to_their_groups` keeps every cover, once.
use my_home_stability.Prelude.{
  ℕ, zero, suc, ◌≡◌, refl, sym, ap, subst, ◌∙◌, String, Bool, true, false, not, ◌&&◌, ◌||◌, List,
  [], ◌∷◌, ◌++◌, str_eq, eq_iff, eq_refl, arith, length, insert_at, take, drop, ◌+◌, Bool-cases,
  inl, inr, ◌⊎◌, if◌then◌else◌, if-split,
}
use my_home_stability.Dict.{keys}
use my_home_stability.Store.State.{Store, member, ordered}
use my_home_stability.Store.Unique.{Unique, ordered-Unique, ordered-member}
use my_home_stability.Panel.Profiles.{File}
use my_home_stability.Panel.Edit.{Floats}
use my_home_stability.Panel.Assign.{
  remove_one, group_end, group_now, append_one, append_all, appended_to_their_groups,
}

member-insert_at :
    (n : ℕ) (x : String) (ys : List String) (z : String)
    → member z (insert_at n x ys) ≡ (str_eq x z || member z ys)
unfolding member
member-insert_at zero x ys z = refl
member-insert_at (suc n) x [] z = refl
member-insert_at (suc n) x (y ∷ ys) z = ground (arith, member-insert_at n x ys z)

member-remove_one :
    (x : String) (ys : List String) (z : String)
    → Unique ys
    → member z (remove_one x ys) ≡ (not (str_eq x z) && member z ys)
unfolding member remove_one
member-remove_one x [] z u = ground arith
member-remove_one x (y ∷ ys) z u =
    ground (arith, u, eq_iff y x, eq_iff x z, eq_iff y z, member-remove_one x ys z u.1)

remove_one-Unique : (x : String) (ys : List String) → Unique ys → Unique (remove_one x ys)
unfolding remove_one
remove_one-Unique x [] u = tt
remove_one-Unique x (y ∷ ys) u =
    ground (arith, u, member-remove_one x ys y u.1, remove_one-Unique x ys u.1)

insert_at-Unique :
    (n : ℕ) (x : String) (ys : List String)
    → member x ys ≡ false
    → Unique ys
    → Unique (insert_at n x ys)
unfolding member
insert_at-Unique zero x ys m u = (m, u)
insert_at-Unique (suc n) x [] m u = (refl, tt)
insert_at-Unique (suc n) x (y ∷ ys) m u = ground (
  arith,
  m,
  u,
  eq_iff x y,
  eq_iff y x,
  member-insert_at n x ys y,
  insert_at-Unique n x ys (ground (arith, m)) u.1,
)

-- Some member of a list has the property.
abbrev pub any : (String → Bool) → List String → Bool
any p [] = false
any p (x ∷ xs) = p x || any p xs

insert_at-take-drop :
    (n : ℕ) (x : String) (xs : List String) → insert_at n x xs ≡ take n xs ++ (x ∷ drop n xs)
insert_at-take-drop zero x xs = refl
insert_at-take-drop (suc n) x [] = refl
insert_at-take-drop (suc n) x (y ∷ xs) = ap (λ t. y ∷ t) (insert_at-take-drop n x xs)

take-drop : (n : ℕ) (xs : List String) → take n xs ++ drop n xs ≡ xs
take-drop zero xs = refl
take-drop (suc n) [] = refl
take-drop (suc n) (x ∷ xs) = ap (λ t. x ∷ t) (take-drop n xs)

drop-length : (xs : List String) → drop (length xs) xs ≡ []
drop-length [] = refl
drop-length (x ∷ xs) = drop-length xs

group_end-none :
    (p : String → Bool) (k at : ℕ) (xs : List String) → any p xs ≡ false → group_end p k at xs ≡ at
unfolding group_end
group_end-none p k at [] a = refl
group_end-none p k at (x ∷ xs) a =
    ground (arith, a, group_end-none p (suc k) at xs, group_end-none p (suc k) (suc k) xs)

-- The list ends in such a one.
abbrev pub EndsIn : (String → Bool) → List String → Type 0
EndsIn p xs = (init : List String) × (last : String) × (xs ≡ init ++ (last ∷ [])) × (p last ≡ true)

group_end-some :
    (p : String → Bool) (k at : ℕ) (xs : List String)
    → any p xs ≡ true
    → (j : ℕ) × (group_end p k at xs ≡ k + j) × (any p (drop j xs) ≡ false) × EndsIn p (take j xs)
unfolding group_end
group_end-some p k at [] a = cc
group_end-some p k at (x ∷ xs) a =
    let next = if p x then suc k else at in
    elim (Bool-cases (any p xs)) [
      | inl m ↦
          let (j, e, d, ends) = group_end-some p (suc k) next xs m in
          let (init, last, t, l) = ends in
          (suc j, omega (arith, e), d, (x ∷ init, last, ap (λ ys. x ∷ ys) t, l))
      | inr m ↦ (
        1,
        group_end-none p (suc k) next xs m ∙ ground (arith, a, m),
        m,
        ([], x, refl, ground (arith, a, m)),
      )
    ]

-- Behind the end of a group there is none of it.
group_end-tail :
    (p : String → Bool) (xs : List String) → any p (drop (group_end p 0 (length xs) xs) xs) ≡ false
group_end-tail p xs = elim (Bool-cases (any p xs)) [
  | inl m ↦
      let (j, e, d, _) = group_end-some p 0 (length xs) xs m in
      subst (λ n. any p (drop n xs) ≡ false) (sym (e ∙ omega arith)) d
  | inr m ↦
      subst (λ n. any p (drop n xs) ≡ false) (sym (group_end-none p 0 (length xs) xs m))
        (ap (any p) (drop-length xs))
]

-- The end of a group is that of the list where it has no member, and else right behind a member.
group_end-front :
    (p : String → Bool) (xs : List String)
    → (any p xs ≡ false) × (drop (group_end p 0 (length xs) xs) xs ≡ [])
      ⊎ EndsIn p (take (group_end p 0 (length xs) xs) xs)
group_end-front p xs = elim (Bool-cases (any p xs)) [
  | inl m ↦
      let (j, e, d, ends) = group_end-some p 0 (length xs) xs m in
      inr (subst (λ n. EndsIn p (take n xs)) (sym (e ∙ omega arith)) ends)
  | inr m ↦
      inl (
        m,
        subst (λ n. drop n xs ≡ []) (sym (group_end-none p 0 (length xs) xs m)) (drop-length xs),
      )
]

module _ (p : Floats) (utcnow : String) (file : File) (advanced : String → Bool) where
  -- One moved cover: the list holds the same covers, each once.
  append_one-keeps :
      (s : Store) (id : String) (order : List String)
      → Unique order
      → Unique (append_one p utcnow file advanced s id order)
        × ((z : String) → member z (append_one p utcnow file advanced s id order) ≡ member z order)
  unfolding append_one
  append_one-keeps s id order u =
      let q = λ (other : String).
        str_eq (group_now p utcnow file advanced s other) (group_now p utcnow file advanced s id) in
      let others = remove_one id order in
      let at = group_end q 0 (length others) others in
      if-split (λ x. Unique x × ((z : String) → member z x ≡ member z order)) (member id order)
        (insert_at at id others) order
        (λ m. (
          insert_at-Unique at id others
              (ground (arith, member-remove_one id order id u, eq_refl id))
              (remove_one-Unique id order u),
          λ z.
              let same : str_eq id z ≡ true → member id order ≡ member z order =
                λ e. ap (λ t. member t order) ((eq_iff id z).0 e) in
              ground
                (arith, m, same, member-insert_at at id others z, member-remove_one id order z u),
        ))
        (λ _. (u, λ z. refl))

  append_all-keeps :
      (s : Store) (moved order : List String)
      → Unique order
      → Unique (append_all p utcnow file advanced s moved order)
        × ((z : String)
            → member z (append_all p utcnow file advanced s moved order) ≡ member z order)
  unfolding append_all
  append_all-keeps s [] order u = (u, λ z. refl)
  append_all-keeps s (id ∷ moved) order u =
      let (v, m) = append_one-keeps s id order u in
      let (w, n) = append_all-keeps s moved (append_one p utcnow file advanced s id order) v in
      (w, λ z. n z ∙ m z)

  -- A cover that is moved to the end of its group stands right behind the last other cover of that
  -- group, or at the end of the order where the group has no other, and all the others keep the
  -- order that they had.
  pub append_one-places :
      (s : Store) (id : String) (order : List String)
      → member id order ≡ true
      → (front : List String) × (back : List String) × (append_one p utcnow file advanced s id order
          ≡ front ++ (id ∷ back))
        × (front ++ back ≡ remove_one id order)
        × (any
              (λ other.
                str_eq
                  (group_now p utcnow file advanced s other)
                  (group_now p utcnow file advanced s id))
              back
            ≡ false)
        × ((any
                  (λ other.
                    str_eq
                      (group_now p utcnow file advanced s other)
                      (group_now p utcnow file advanced s id))
                  (remove_one id order)
                ≡ false)
              × (back ≡ [])
            ⊎ EndsIn
                (λ other.
                  str_eq
                    (group_now p utcnow file advanced s other)
                    (group_now p utcnow file advanced s id))
                front)
  unfolding append_one
  append_one-places s id order m =
      let q = λ (other : String).
        str_eq (group_now p utcnow file advanced s other) (group_now p utcnow file advanced s id) in
      let others = remove_one id order in
      let at = group_end q 0 (length others) others in
      (
        take at others,
        drop at others,
        rw m (insert_at-take-drop at id others),
        take-drop at others,
        group_end-tail q others,
        group_end-front q others,
      )

  -- However many covers are moved to the ends of their groups, the order that results names exactly
  -- the basic covers of the file, and each of them once, where the stored order and the file name
  -- none twice.
  pub appended_to_their_groups-Unique :
      (s : Store) (moved : List String)
      → Unique s.order
      → Unique (keys file.covers)
      → Unique (appended_to_their_groups p utcnow file advanced s moved)
        × ((z : String)
            → member z (appended_to_their_groups p utcnow file advanced s moved)
              ≡ member z (keys file.covers))
  unfolding appended_to_their_groups
  appended_to_their_groups-Unique s moved u v =
      let (w, n) =
        append_all-keeps s moved (ordered s (keys file.covers))
          (ordered-Unique s (keys file.covers) u v) in
      (w, λ z. n z ∙ ordered-member s (keys file.covers) z)
