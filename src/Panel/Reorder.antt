-- ===== src/Panel/Reorder.antt =====
-- panel_write.py: putting the shutters of a gateway, or of one group of it, in another order.
-- `covers` are the basic covers as the file writes them, whose `profile:` is a text where it is there.
pub mod Seats
pub mod Merged
mod Tests
use my_home_stability.Prelude.{
  ℕ, suc, ◌+◌, min, String, Bool, true, false, not, ◌&&◌, Option, none, some, List, [], ◌∷◌, ◌++◌,
  str_eq, length, insert_at, keep, if◌then◌else◌, is_some,
}
use my_home_stability.Dict.{Dict, lookup, keys}
use my_home_stability.Store.Record.{Record}
use my_home_stability.Store.State.{Store, member, as_values, ordered, set_order}
use my_home_stability.Store.Assign.{as_text, StoredCalibration}
use my_home_stability.Panel.Write.{PanelError, unknown_cover, Result, ok, err, Work, is_empty}
use my_home_stability.Panel.Profiles.{calibration}

unfoldable pub text_or_empty : Option String → String
text_or_empty none = ""
text_or_empty (some s) = s

-- `record is not None and record.profile`, else what the file says
profile_or : String → Option String → String
profile_or fallback none = fallback
profile_or fallback (some p) = if str_eq p "" then fallback else p

stored_profile_or : String → Option StoredCalibration → String
unfolding profile_or
stored_profile_or fallback none = fallback
stored_profile_or fallback (some c) = profile_or fallback c.profile

-- `list(dict.fromkeys(…))`
unfoldable pub dedup_from : List String → List String → List String
dedup_from seen [] = []
dedup_from seen (x ∷ xs) =
    let fresh = x ∷ dedup_from (x ∷ seen) xs in
    let known = dedup_from seen xs in if member x seen then known else fresh

-- the indices, from `k` on, of those that `p` accepts
unfoldable pub seats_from : ℕ → (String → Bool) → List String → List ℕ
seats_from k p [] = []
seats_from k p (x ∷ xs) = let rest = seats_from (suc k) p xs in if p x then k ∷ rest else rest

-- the loop over `zip(seats, wanted)`
unfoldable pub insert_all : List ℕ → List String → List String → List String
insert_all [] ws merged = merged
insert_all (seat ∷ seats) [] merged = merged
insert_all (seat ∷ seats) (w ∷ ws) merged =
    insert_all seats ws (insert_at (min seat (length merged)) w merged)

-- the order that is asked for, and the members that it leaves out, in the order they have
unfoldable pub completed : (String → Bool) → List String → List String → List String
completed p order listed =
    let wanted = dedup_from [] order in wanted ++ keep (λ id. p id && not (member id wanted)) listed

-- the group put back into the places that it holds in the whole order
unfoldable pub merged : (String → Bool) → List String → List String → List String
merged p order listed =
    insert_all (seats_from 0 p listed) (completed p order listed) (keep (λ id. not (p id)) listed)

module _ (float_of : String → Option ℕ) where
  -- `_profile_now`
  unfoldable pub profile_now : Store → Record → String → String
  unfolding text_or_empty stored_profile_or
  profile_now s cfg id =
      stored_profile_or (text_or_empty (as_text (lookup "profile" cfg)))
        (calibration float_of (lookup id s.covers) id)

  unfoldable pub in_group_of : Store → String → String → Option Record → Bool
  in_group_of s group id none = false
  in_group_of s group id (some cfg) = str_eq (profile_now s cfg id) group

  -- `unique_id in members`
  unfoldable pub in_group : Dict Record → Store → String → String → Bool
  unfolding in_group_of
  in_group covers s group id = in_group_of s group id (lookup id covers)

  unfoldable pub reorder_group : Dict Record → List String → String → Work Unit
  reorder_group covers order group s =
      let p = in_group covers s group in
      let known = keys covers in
      if not (is_empty (keep (λ id. not (p id)) order)) then (err unknown_cover, s) else (
        ok tt,
        (set_order
            (as_values (merged p (keep (λ id. is_some (lookup id covers)) order) (ordered s known)))
            (some known) s).0,
      )

  -- `async_reorder`
  unfoldable pub reorder : Dict Record → List String → Option String → Bool → Work Unit
  unfolding reorder_group text_or_empty
  reorder covers order group whole s =
      if whole
      then (ok tt, (set_order (as_values order) (some (keys covers)) s).0)
      else reorder_group covers order (text_or_empty group) s
