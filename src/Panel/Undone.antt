-- ===== src/Panel/Undone.antt =====
-- panel_write.py: `async_write`, and `async_undo` after it.
use my_home_stability.Prelude.{
  ℕ, ◌+◌, ◌<◌, ◌≡◌, refl, sym, ◌∙◌, String, false, none, some, [], arith, str_eq,
}
use my_home_stability.Store.State.{Undo, Store}
use my_home_stability.Store.Invariant.{IsNormal}
use my_home_stability.Panel.Restored.{SameStore, restore-diff-slot}
use my_home_stability.Panel.Write.{
  state_of, diff, undo_ttl, remember, Result, ok, err, take_undo, Panel, refuse_if_busy, Work,
  undo_work, apply_undo, taken, after_work, write_unless, write,
}

abbrev IsFree : Panel → Type 0
IsFree p = (p.calibrating ≡ []) × (p.writing ≡ false)

refuse_if_busy-free : (p : Panel) → IsFree p → refuse_if_busy none p ≡ none
unfolding refuse_if_busy
refuse_if_busy-free p (c, w) = ground arith

write-free :
    {A : Type 0} (token now : ℕ) (what : String) (work : Work A) (p : Panel)
    → IsFree p
    → write token now what none work p
      ≡ after_work token now what none p (work p.store).0 (work p.store).1
unfolding write write_unless
write-free token now what work p free = rw (refuse_if_busy-free p free)

take_undo-offered :
    (token now : ℕ) (s : Store) (u : Undo)
    → s.undo ≡ some u
    → u.token ≡ token
    → now < u.expires_at
    → take_undo token now s ≡ (ok u, record s { undo = none })
unfolding take_undo taken
take_undo-offered token now s u e t soon = rw e (ground arith)

after_work-undo :
    (fresh now : ℕ) (p : Panel) (what : String) (t : Store)
    → let (r, p') = after_work fresh now "undo" none p (ok what) t in
      (r ≡ ok (record { undo_token = none; extra = what })) × (p'.store ≡ t)
unfolding after_work
after_work-undo fresh now p what t = (refl, refl)

-- the slot that a write to `t` leaves, from the store `b`
kept : ℕ → ℕ → String → Store → Store → Undo
kept token expires what b t =
    let d = diff (state_of b) (state_of t) in
    record {
      token = token;
      expires_at = expires;
      profiles = d.profiles;
      covers = d.covers;
      order = d.order;
      what = what;
    }

undo_work-kept :
    (token expires later : ℕ) (what : String) (b t s : Store)
    → later < expires
    → IsNormal b.order
    → s ≡ record t { undo = some (kept token expires what b t) }
    → ((undo_work token later s).0 ≡ ok what) × SameStore b (undo_work token later s).1
unfolding undo_work apply_undo kept
undo_work-kept token expires later what b t s soon normal e =
    let u = kept token expires what b t in
    let took = take_undo-offered token later (record t { undo = some u }) u refl refl soon in
    rw (e, took) (refl, restore-diff-slot b t normal)

-- After a write that left a token, the gateway holds what to take back, and is free.
abbrev LeavesSlot : ℕ → ℕ → String → Panel → Store → Panel → Type 0
LeavesSlot token now what p t p' =
    (p'.store ≡ record t { undo = some (kept token (now + undo_ttl) what p.store t) })
    × (p'.calibrating ≡ p.calibrating)
    × (p'.writing ≡ p.writing)

after_work-slot :
    {A : Type 0} (token now tk : ℕ) (what : String) (p p' : Panel) (r : Result A) (t : Store)
    (a : A)
    → str_eq what "undo" ≡ false
    → after_work token now what none p r t ≡ (ok (record { undo_token = some tk; extra = a }), p')
    → LeavesSlot tk now what p t p'
unfolding after_work remember kept
after_work-slot token now tk what p p' (err e) t a n h = cc
after_work-slot token now tk what p p' (ok b) t a n h = ground arith

-- A write on a free gateway that answers with an undo token is taken back by the undo with that
-- token, at any time before the offer expires: the undo is accepted, names the write that it takes
-- back and leaves no token of its own, and the records and the order are those of before.
pub undo-write :
    {A : Type 0} (token now tk later fresh : ℕ) (what : String) (work : Work A) (p p' : Panel)
    (a : A)
    → IsFree p
    → IsNormal p.store.order
    → str_eq what "undo" ≡ false
    → write token now what none work p ≡ (ok (record { undo_token = some tk; extra = a }), p')
    → later < now + undo_ttl
    → let (r, p'') = write fresh later "undo" none (undo_work tk later) p' in
      (r ≡ ok (record { undo_token = none; extra = what })) × SameStore p.store p''.store
undo-write token now tk later fresh what work p p' a free normal n h soon =
    let t = (work p.store).1 in
    let (slot, cal, wr) =
      after_work-slot token now tk what p p' (work p.store).0 t a n
        (sym (write-free token now what work p free) ∙ h) in
    let (answer, same) =
      undo_work-kept tk (now + undo_ttl) later what p.store t p'.store soon normal slot in
    rw (write-free fresh later "undo" (undo_work tk later) p' (cal ∙ free.0, wr ∙ free.1)) (
      rw answer (
        let (r, st) = after_work-undo fresh later p' what (undo_work tk later p'.store).1 in
        (r, rw st same)))
