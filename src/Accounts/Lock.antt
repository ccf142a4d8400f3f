-- ===== src/Accounts/Lock.antt =====
-- core/dao/user.go: `GetUnlockUserDataAndLock` and `UnLockUserData`, of requests that overlap, for one user.
-- The collection is a parameter: the three calls, each one atomic step, and `sync_lock`, the field of that
-- name of a user's document, if there is such a document and such a field. A call may fail before or after
-- it has taken effect. `UnLockUserData` asks nobody: a request with the lock may call it, and so may any
-- other caller at any time, which is a step of its own.
pub mod Exclusion
pub mod Following
pub mod Refinement
use recreation_test.Base.{
  ℕ, zero, suc, ◌≡◌, Bool, true, false, ◌&&◌, if◌then◌else◌, List, [], ◌∷◌, ◌++◌, get_elem?, Option,
  none, some, Str, str_eq,
}
use recreation_test.Accounts.Requests.{put_at}

pub record Users {ℓ} (S : Type ℓ) : Type ℓ where
  pub find_sync_lock : Str → S → Option (Option ℕ)
  pub set_sync_lock : Str → ℕ → S → S
  pub find_unlocked_and_lock : Str → S → Bool × S

-- A document's field behind `$set`.
abbrev pub written : ℕ → Option (Option ℕ) → Option (Option ℕ)
written n none = none
written n (some old) = some (some n)

abbrev pub is_unlocked : Option (Option ℕ) → Bool
is_unlocked none = false
is_unlocked (some none) = false
is_unlocked (some (some zero)) = true
is_unlocked (some (some (suc n))) = false

pub record IsCollection {ℓ} {S : Type ℓ} (users : Users S) (sync_lock : Str → S → Option (Option ℕ))
    : Type ℓ where
  pub find_lem : (uid : Str) (s : S) → users.find_sync_lock uid s ≡ sync_lock uid s
  pub set_lem :
      (uid : Str) (n : ℕ) (s : S)
      → sync_lock uid (users.set_sync_lock uid n s) ≡ written n (sync_lock uid s)
  pub lock_answer :
      (uid : Str) (s : S) → (users.find_unlocked_and_lock uid s).0 ≡ is_unlocked (sync_lock uid s)
  pub lock_lem :
      (uid : Str) (s : S)
      → sync_lock uid (users.find_unlocked_and_lock uid s).1
        ≡ (if is_unlocked (sync_lock uid s) then some (some 1) else sync_lock uid s)

-- Where a request that locks a user stands: before one of the calls, with the lock, or at an end.
pub data Request : Type 0 where
  looking adding locking holding refused missing released failed : Request

module _ {ℓ} {S : Type ℓ} (users : Users S) (uid : Str) where
  unfoldable pub un_lock_user_data : S → S
  un_lock_user_data s = users.set_sync_lock uid 0 s

  -- What the first call has found.
  abbrev pub found : Option (Option ℕ) → Request
  found none = missing
  found (some none) = adding
  found (some (some n)) = locking

  -- The next call of a request; the one of `holding` is `UnLockUserData`.
  unfoldable pub advance : Request → S → Request × S
  unfolding un_lock_user_data
  advance looking s = (found (users.find_sync_lock uid s), s)
  advance adding s = (locking, users.set_sync_lock uid 0 s)
  advance locking s =
      let (locked, s') = users.find_unlocked_and_lock uid s in
      (if locked then holding else refused, s')
  advance holding s = (released, un_lock_user_data s)
  advance refused s = (refused, s)
  advance missing s = (missing, s)
  advance released s = (released, s)
  advance failed s = (failed, s)

pub record World {ℓ} (S : Type ℓ) : Type ℓ where
  pub store : S
  pub requests : List Request

pub data Step {ℓ} {S : Type ℓ} (users : Users S) (uid : Str) (w : World S) : World S → Type ℓ where
  arrived : Step users uid w (record w { requests = w.requests ++ (looking ∷ []) })
  moved :
      (i : ℕ) (r : Request)
      → get_elem? w.requests i ≡ some r
      → Step users uid w (record {
        store = (advance users uid r w.store).1;
        requests = put_at i (advance users uid r w.store).0 w.requests;
      })
  broken :
      (i : ℕ) (r : Request)
      → get_elem? w.requests i ≡ some r
      → Step users uid w (record w { requests = put_at i failed w.requests })
  lost :
      (i : ℕ) (r : Request)
      → get_elem? w.requests i ≡ some r
      → Step users uid w (record {
        store = (advance users uid r w.store).1;
        requests = put_at i failed w.requests;
      })
  unlocked : Step users uid w (record w { store = un_lock_user_data users uid w.store })

pub data Reaches {ℓ} {S : Type ℓ} (users : Users S) (uid : Str) (s : S) : World S → Type ℓ where
  start : Reaches users uid s (record { store = s; requests = [] })
  onward : {w w' : World S} → Reaches users uid s w → Step users uid w w' → Reaches users uid s w'
