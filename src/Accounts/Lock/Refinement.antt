-- ===== src/Accounts/Lock/Refinement.antt =====
-- The calls on a user's data as steps of a lock.
use mathlib.Core.Path.{subst}
use recreation_test.Base.{
  ℕ, ◌≡◌, ◌≢◌, refl, sym, ap, ◌∙◌, Bool, true, if◌then◌else◌, List, get_elem?, Option, some, Str,
}
use recreation_test.Accounts.Requests.{put_at, get_elem?-put_at, get_elem?-put_at_other}
use recreation_test.Accounts.Lock.{
  Users, IsCollection, written, is_unlocked, Request, looking, adding, locking, holding, refused,
  advance, World, Step, arrived, moved, broken, lost, unlocked, Reaches, onward, un_lock_user_data,
}
use recreation_test.Accounts.Lock.Exclusion.{
  Lock, open_lock, held, orphaned, LockStep, stay, recover, OnlyHolder-append, owner, Shows,
  IsThere-append,
}
use recreation_test.Accounts.Lock.Following.{
  Follows, moved-Follows, broken-Follows, dropped-Follows,
}

-- Whoever calls `UnLockUserData` without the lock does it while no request has it.
abbrev pub IsRespected {ℓ} :
    {S : Type ℓ} (users : Users S) (uid : Str) (l : Lock) (w w' : World S)
    → Step users uid w w'
    → Type 0
IsRespected users uid l w w' arrived = Unit {0}
IsRespected users uid l w w' (moved i r e) = Unit {0}
IsRespected users uid l w w' (broken i r e) = Unit {0}
IsRespected users uid l w w' (lost i r e) = Unit {0}
IsRespected users uid l w w' unlocked = (i : ℕ) → l ≢ held i

unlocked-Follows {ℓ} :
    {S : Type ℓ} (users : Users S) (sync_lock : Str → S → Option (Option ℕ)) (uid : Str)
    (w : World S) (l : Lock)
    → IsCollection users sync_lock
    → Shows sync_lock uid l w
    → ((i : ℕ) → l ≢ held i)
    → (l' : Lock) × LockStep l l'
      × Shows sync_lock uid l' (record w { store = un_lock_user_data users uid w.store })
unfolding un_lock_user_data
unlocked-Follows users sync_lock uid w open_lock laws t free = (
  open_lock,
  stay open_lock,
  record { field = laws.set_lem uid 0 w.store ∙ ap (written 0) t.field; only = t.only; there = tt },
)
unlocked-Follows users sync_lock uid w (held i) laws t free = absurd (free i refl)
unlocked-Follows users sync_lock uid w orphaned laws t free = (
  open_lock,
  recover,
  record { field = laws.set_lem uid 0 w.store ∙ ap (written 0) t.field; only = t.only; there = tt },
)

-- The calls implement a lock, as long as `UnLockUserData` is not called by another caller while a request
-- has the lock: whatever request moves, arrives or fails, with or without its effect, and whoever unlocks,
-- the lock that the collection and the requests show makes a step of a lock, or stays. So it is never taken
-- while it is held, only its holder gives it back, and a lock that was lost with a failed call is freed by
-- the next caller that unlocks. The document of the user has the field.
pub Step-LockStep {ℓ} :
    {S : Type ℓ} (users : Users S) (sync_lock : Str → S → Option (Option ℕ)) (uid : Str)
    (w w' : World S) (l : Lock) (step : Step users uid w w')
    → IsCollection users sync_lock
    → Shows sync_lock uid l w
    → IsRespected users uid l w w' step
    → (l' : Lock) × LockStep l l' × Shows sync_lock uid l' w'
unfolding Follows
Step-LockStep users sync_lock uid w w' l arrived laws t free = (
  l,
  stay l,
  record {
    field = t.field;
    only = OnlyHolder-append (owner l) w.requests t.only;
    there = IsThere-append l looking w.requests t.there;
  },
)
Step-LockStep users sync_lock uid w w' l (moved i r e) laws t free =
    moved-Follows users sync_lock laws uid w l t i r e
Step-LockStep users sync_lock uid w w' l (broken i r e) laws t free =
    broken-Follows users sync_lock laws uid w l t i r e
Step-LockStep users sync_lock uid w w' l (lost i r e) laws t free =
    dropped-Follows users sync_lock laws uid w l t i r e
Step-LockStep users sync_lock uid w w' l unlocked laws t free =
    unlocked-Follows users sync_lock uid w l laws t free

abbrev record_with {ℓ} : {S : Type ℓ} → S → List Request → World S
record_with store requests = record { store = store; requests = requests }

adding_holding : some adding ≢ some holding
adding_holding e = cc

-- A request that has found no field unlocks the user, whoever has the lock: it can then take the lock while
-- another request holds it.
pub field_unlocks {ℓ} :
    {S : Type ℓ} (users : Users S) (sync_lock : Str → S → Option (Option ℕ)) (uid : Str) (s : S)
    (w : World S) (i j : ℕ) (old : Option ℕ)
    → IsCollection users sync_lock
    → Reaches users uid s w
    → sync_lock uid w.store ≡ some old
    → get_elem? w.requests i ≡ some adding
    → get_elem? w.requests j ≡ some holding
    → (w' : World S) × Reaches users uid s w'
      × (get_elem? w'.requests i ≡ some holding)
      × (get_elem? w'.requests j ≡ some holding)
unfolding advance
field_unlocks users sync_lock uid s w i j old laws r known hi hj =
    let s1 = users.set_sync_lock uid 0 w.store in
    let w1 : World _ = record { store = s1; requests = put_at i locking w.requests } in
    let answer : (users.find_unlocked_and_lock uid s1).0 ≡ true =
      laws.lock_answer uid s1
      ∙ ap is_unlocked (laws.set_lem uid 0 w.store ∙ ap (written 0) known) in
    let state = λ (b : Bool).
      record_with (users.find_unlocked_and_lock uid s1).1
        (put_at i (if b then holding else refused) w1.requests) in
    let there = get_elem?-put_at i adding locking w.requests hi in
    let second : Reaches users uid s (state (users.find_unlocked_and_lock uid s1).0) =
      onward (onward r (moved i adding hi)) (moved i locking there) in
    let apart : i ≢ j = λ same. adding_holding (sym hi ∙ ap (get_elem? w.requests) same ∙ hj) in
    (
      state true,
      subst (λ (b : Bool). Reaches users uid s (state b)) answer second,
      get_elem?-put_at i locking holding w1.requests there,
      get_elem?-put_at_other i j holding w1.requests apart
          ∙ get_elem?-put_at_other i j locking w.requests apart
          ∙ hj,
    )
