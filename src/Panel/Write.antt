-- ===== src/Panel/Write.antt =====
-- panel_write.py: the snapshot, the difference, the undo slot, the lock, and `async_write`, the door
-- that every write goes through.
use my_home_stability.Prelude.{
  ℕ, ◌+◌, String, Bool, true, false, not, ◌&&◌, ◌||◌, Option, none, some, List, [], ◌∷◌, ◌++◌,
  str_eq, ◌==◌, leb, if◌then◌else◌, is_some, keep,
}
use my_home_stability.Dict.{Dict, lookup, insert, keys}
use my_home_stability.Store.Record.{Record, stored_eq}
use my_home_stability.Store.State.{Undo, Store, strings_eq, restore}

-- the `translation_key` of a `PanelError`
pub data PanelError : Type 0 where
  undo_expired busy_calibrating write_in_progress unknown_cover advanced_cover unknown_profile :
      PanelError
  profile_not_editable name_in_use invalid_name not_a_number out_of_range missing_travel :
      PanelError

-- `_StoreState`
pub record StoreState : Type 0 where
  pub profiles : Dict Record
  pub covers : Dict Record
  pub order : List String

unfoldable pub state_of : Store → StoreState
state_of s = record { profiles = s.profiles; covers = s.covers; order = s.order }

-- `_Diff`
pub record Diff : Type 0 where
  pub profiles : Dict (Option Record)
  pub covers : Dict (Option Record)
  pub order : Option (List String)

abbrev pub is_empty {ℓ} : {A : Type ℓ} → List A → Bool
is_empty [] = true
is_empty (_ ∷ _) = false

unfoldable pub anything : Diff → Bool
anything d = not (is_empty d.profiles) || not (is_empty d.covers) || is_some d.order

-- The loop of `_diff` over the keys of one section. A key that both sections have comes twice,
-- which sets it to the same value twice.
unfoldable pub diff_keys : List String → Dict Record → Dict Record → Dict (Option Record)
diff_keys [] before after = []
diff_keys (name ∷ names) before after =
    let rest = diff_keys names before after in
    if stored_eq (lookup name before) (lookup name after)
    then rest
    else insert name (lookup name before) rest

unfoldable pub diff_section : Dict Record → Dict Record → Dict (Option Record)
diff_section before after = diff_keys (keys before ++ keys after) before after

unfoldable pub diff : StoreState → StoreState → Diff
diff before after = record {
  profiles = diff_section before.profiles after.profiles;
  covers = diff_section before.covers after.covers;
  order = if strings_eq before.order after.order then none else some before.order;
}

-- `UNDO_TTL`, five minutes in milliseconds
abbrev pub undo_ttl : ℕ
undo_ttl = 300000

-- `_remember`; `token` is what `secrets.token_hex` gives
unfoldable pub remember : ℕ → ℕ → Diff → String → Store → Store × Option ℕ
remember token now d what s =
    if anything d
    then (
      record s {
        undo = some (record {
          token = token;
          expires_at = now + undo_ttl;
          profiles = d.profiles;
          covers = d.covers;
          order = d.order;
          what = what;
        });
      },
      some token,
    )
    else (record s { undo = none }, none)

-- what a command answers, or its refusal
pub data Result (A : Type 0) : Type 0 where
  ok : A → Result A
  err : PanelError → Result A

offered : ℕ → ℕ → Undo → Bool
offered token now u = (u.token == token) && not (leb u.expires_at now)

unfoldable pub taken : Option Undo → ℕ → ℕ → Store → Result Undo × Store
unfolding offered
taken none token now s = (err undo_expired, s)
taken (some u) token now s =
    if offered token now u then (ok u, record s { undo = none }) else (err undo_expired, s)

-- `_take`; the slot is emptied
unfoldable pub take_undo : ℕ → ℕ → Store → Result Undo × Store
take_undo token now s = taken s.undo token now s

-- One gateway as the panel sees it: its store, whether a write is being applied, the covers being
-- calibrated (`calibrating_now`), and how often the covers and the open panels were told.
pub record Panel : Type 0 where
  pub store : Store
  pub writing : Bool
  pub calibrating : List String
  pub signals : ℕ
  pub publications : ℕ

-- `calibrating_now(hass, entry) - ({holder} if holder else set())`
others_measuring : Option String → List String → List String
others_measuring none measuring = measuring
others_measuring (some holder) measuring = keep (λ id. not (str_eq id holder)) measuring

-- `_refuse_if_busy`
unfoldable pub refuse_if_busy : Option String → Panel → Option PanelError
unfolding others_measuring
refuse_if_busy holder p =
    if not (is_empty (others_measuring holder p.calibrating))
    then some busy_calibrating
    else if p.writing
    then some write_in_progress
    else none

-- A command: what it answers and the store it leaves, which is left by a refusal too.
abbrev pub Work : Type 0 → Type 0
Work A = Store → Result A × Store

pub record Answer (A : Type 0) : Type 0 where
  pub undo_token : Option ℕ
  pub extra : A

-- `async_undo`
unfoldable pub apply_undo : Result Undo → Store → Result String × Store
apply_undo (ok u) s = (ok u.what, (restore u.profiles u.covers u.order s).0)
apply_undo (err e) s = (err e, s)

unfoldable pub undo_work : ℕ → ℕ → Work String
undo_work token now s = let (u, t) = take_undo token now s in apply_undo u t

-- What follows the work, by how it went: nothing but giving the lock back after a refusal.
unfoldable pub after_work :
    {A : Type 0}
    → ℕ
    → ℕ
    → String
    → Option String
    → Panel
    → Result A
    → Store
    → Result (Answer A) × Panel
after_work token now what holder p (err e) t = (err e, record p { store = t })
after_work token now what holder p (ok a) t =
    let d = diff (state_of p.store) (state_of t) in
    let (u, given) =
      if str_eq what "undo" || is_some holder then (t, none) else remember token now d what t in
    let told = if anything d then p.signals + 1 else p.signals in
    (
      ok (record { undo_token = given; extra = a }),
      record p { store = u; signals = told; publications = p.publications + 1 },
    )

-- the body of `async_write` behind the lock
unfoldable pub write_unless :
    {A : Type 0}
    → Option PanelError
    → ℕ
    → ℕ
    → String
    → Option String
    → Work A
    → Panel
    → Result (Answer A) × Panel
write_unless (some e) token now what holder work p = (err e, p)
write_unless none token now what holder work p =
    let (r, t) = work p.store in after_work token now what holder p r t

-- `async_write`. The lock is held from the refusal on and given back whatever the work does, so
-- it is free again at the end.
unfoldable pub write :
    {A : Type 0} → ℕ → ℕ → String → Option String → Work A → Panel → Result (Answer A) × Panel
write token now what holder work p =
    write_unless (refuse_if_busy holder p) token now what holder work p
