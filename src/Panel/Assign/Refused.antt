-- ===== src/Panel/Assign/Refused.antt =====
-- panel_write.py: when `async_assign` refuses a batch, and what it then leaves.
use my_home_stability.Prelude.{
  ◌≡◌, refl, subst, ◌∙◌, String, Bool, true, false, ◌||◌, Option, List, [], ◌∷◌, ◌++◌, arith, ◌⊎◌,
  inl, inr,
}
use my_home_stability.Dict.{Dict, lookup}
use my_home_stability.Store.State.{Store}
use my_home_stability.Panel.Write.{Result, ok, err}
use my_home_stability.Panel.Profiles.{File}
use my_home_stability.Panel.Edit.{Floats}
use my_home_stability.Panel.Assign.Items.{
  is_err, lacks_travel, refuses, wants_travel, check_item-refuses,
}
use my_home_stability.Panel.Assign.{
  AssignItem, Problem, Wanted, is_missing_travel, any_missing, refuse_the_batch, check_item,
  collected, collect, assign_collected, assign, apply_batch,
}

has_problem : List Problem → Bool
has_problem [] = false
has_problem (_ ∷ _) = true

has_problem-append : (qs : List Problem) (q : Problem) → has_problem (qs ++ (q ∷ [])) ≡ true
unfolding has_problem
has_problem-append [] q = refl
has_problem-append (x ∷ qs) q = refl

any_missing-append :
    (qs : List Problem) (q : Problem)
    → any_missing (qs ++ (q ∷ [])) ≡ (any_missing qs || is_missing_travel q.key)
unfolding any_missing
any_missing-append [] q = ground arith
any_missing-append (x ∷ qs) q = ground (arith, any_missing-append qs q)

module _ (p : Floats) (utcnow : String) (file : File) (advanced : String → Bool) where
  -- Some item of the batch is refused, and some for want of a travel.
  abbrev pub any_refused : Store → List AssignItem → Bool
  any_refused s [] = false
  any_refused s (item ∷ items) =
      refuses p utcnow file advanced s item (lookup item.cover_unique_id file.covers)
      || any_refused s items

  abbrev pub any_lacking : Store → List AssignItem → Bool
  any_lacking s [] = false
  any_lacking s (item ∷ items) =
      wants_travel p utcnow file advanced s item (lookup item.cover_unique_id file.covers)
      || any_lacking s items

  collected-problems :
      (item : AssignItem) (r : Result Wanted) (state : Dict Wanted × List Problem)
      → (has_problem (collected p utcnow file advanced item r state).1
          ≡ (has_problem state.1 || is_err r))
        × (any_missing (collected p utcnow file advanced item r state).1
            ≡ (any_missing state.1 || lacks_travel r))
  unfolding collected
  collected-problems item (ok w) (wanted, qs) = (ground arith, ground arith)
  collected-problems item (err e) (wanted, qs) =
      let q : Problem = record { unique_id = item.cover_unique_id; key = e } in
      (ground (arith, has_problem-append qs q), any_missing-append qs q)

  collect-problems :
      (s : Store) (items : List AssignItem) (state : Dict Wanted × List Problem)
      → (has_problem (collect p utcnow file advanced s items state).1
          ≡ (has_problem state.1 || any_refused s items))
        × (any_missing (collect p utcnow file advanced s items state).1
            ≡ (any_missing state.1 || any_lacking s items))
  unfolding collect
  collect-problems s [] state = (ground arith, ground arith)
  collect-problems s (item ∷ items) state =
      let r = check_item p utcnow file advanced s item in
      let (a, b) = collected-problems item r state in
      let (c, d) = collect-problems s items (collected p utcnow file advanced item r state) in
      let (x, y) = check_item-refuses p utcnow file advanced s item in
      (ground (arith, a, c, x), ground (arith, b, d, y))

  assign_collected-refused :
      (state : Dict Wanted × List Problem) (order : Option (List String)) (s : Store)
      → let (r, t) = assign_collected p utcnow file advanced state order s in
        (is_err r ≡ has_problem state.1)
        × (lacks_travel r ≡ any_missing state.1)
        × ((has_problem state.1 ≡ false) ⊎ (t ≡ s))
  unfolding assign_collected refuse_the_batch has_problem any_missing is_missing_travel apply_batch
  assign_collected-refused (wanted, []) order s = (refl, refl, inl refl)
  assign_collected-refused (wanted, q ∷ qs) order s = (refl, ground arith, inr refl)

  -- A batch is refused exactly when some item of it is, and then nothing of it is written, whatever
  -- the other items are: an item whose cover the file does not have, whose profile is neither of
  -- the file nor a usable one of the store, whose height is no number from 20 to 500, or that has a
  -- profile and no travel, neither its own nor a known one. It is refused for want of a travel
  -- exactly when some item is for that, and for none of the others.
  pub assign-is_err :
      (items : List AssignItem) (order : Option (List String)) (s : Store)
      → let (r, t) = assign p utcnow file advanced items order s in
        (is_err r ≡ any_refused s items)
        × (lacks_travel r ≡ any_lacking s items)
        × ((any_refused s items ≡ false) ⊎ (t ≡ s))
  unfolding assign has_problem any_missing
  assign-is_err items order s =
      let (a, b) = collect-problems s items ([], []) in
      let (x, y, z) =
        assign_collected-refused (collect p utcnow file advanced s items ([], [])) order s in
      (
        x ∙ a,
        y ∙ b,
        subst (λ v. (v ≡ false) ⊎ ((assign p utcnow file advanced items order s).1 ≡ s)) a z,
      )
