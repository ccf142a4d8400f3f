-- ===== src/Accounts/Lock/Exclusion.antt =====
-- Who holds the lock.
use mathlib.Core.Option.{some_inj}
use recreation_test.Base.{
  ℕ, ◌≡◌, ◌≢◌, inl, inr, sym, ap, ◌∙◌, if◌then◌else◌, List, [], ◌∷◌, ◌++◌, get_elem?, Option, none,
  some, Str,
}
use recreation_test.Accounts.Requests.{
  put_at, get_elem?-put_at_other, put_at_cases, append_cases, get_elem?-append,
}
use recreation_test.Accounts.Lock.{
  Users, IsCollection, written, is_unlocked, Request, looking, adding, holding, World,
}

-- The lock as it is meant: open, held by a request, or left locked by one that is gone.
pub data Lock : Type 0 where
  open_lock : Lock
  held : ℕ → Lock
  orphaned : Lock

-- What may become of the lock: it is taken when it is open, given back by its holder, lost with a call
-- that failed, the one that takes it or the one that gives it back, or freed after it was lost.
pub data LockStep : Lock → Lock → Type 0 where
  stay : (l : Lock) → LockStep l l
  acquire : (i : ℕ) → LockStep open_lock (held i)
  release : (i : ℕ) → LockStep (held i) open_lock
  abandon : (i : ℕ) → LockStep (held i) orphaned
  orphan : LockStep open_lock orphaned
  recover : LockStep orphaned open_lock

-- Only the given request has the lock, and none is about to write the field without looking at it.
pub record OnlyHolder (owner : Option ℕ) (rs : List Request) : Type 0 where
  pub only : (j : ℕ) → get_elem? rs j ≡ some holding → some j ≡ owner
  pub looked : (j : ℕ) → get_elem? rs j ≢ some adding

pub OnlyHolder-append :
    (owner : Option ℕ) (rs : List Request)
    → OnlyHolder owner rs
    → OnlyHolder owner (rs ++ (looking ∷ []))
OnlyHolder-append owner rs o = record {
  only = λ j e. elim (append_cases j looking holding rs e) [
    | inl bad ↦ absurd (cc)
    | inr old ↦ o.only j old
  ];
  looked =
      λ j e. elim (append_cases j looking adding rs e) [ inl bad ↦ cc | inr old ↦ o.looked j old ];
}

-- A request that neither takes the lock nor is about to write the field.
unfoldable pub IsQuiet : Request → Type 0
IsQuiet r = (r ≢ holding) × (r ≢ adding)

pub OnlyHolder-put_at :
    (owner : Option ℕ) (i : ℕ) (r : Request) (rs : List Request)
    → IsQuiet r
    → OnlyHolder owner rs
    → OnlyHolder owner (put_at i r rs)
unfolding IsQuiet
OnlyHolder-put_at owner i r rs (not_holding, not_adding) o = record {
  only = λ j e. elim (put_at_cases i j r holding rs e) [
    | inl (here, bad) ↦ absurd (not_holding (sym bad))
    | inr (other, old) ↦ o.only j old
  ];
  looked = λ j e. elim (put_at_cases i j r adding rs e) [
    | inl (here, bad) ↦ not_adding (sym bad)
    | inr (other, old) ↦ o.looked j old
  ];
}

-- The holder moves on.
OnlyHolder-leave :
    (i : ℕ) (r : Request) (rs : List Request)
    → IsQuiet r
    → OnlyHolder (some i) rs
    → OnlyHolder none (put_at i r rs)
unfolding IsQuiet
OnlyHolder-leave i r rs (not_holding, not_adding) o = record {
  only = λ j e. elim (put_at_cases i j r holding rs e) [
    | inl (here, bad) ↦ absurd (not_holding (sym bad))
    | inr (other, old) ↦ absurd (other (sym (some_inj.0 (o.only j old))))
  ];
  looked = λ j e. elim (put_at_cases i j r adding rs e) [
    | inl (here, bad) ↦ not_adding (sym bad)
    | inr (other, old) ↦ o.looked j old
  ];
}

pub OnlyHolder-enter :
    (i : ℕ) (rs : List Request) → OnlyHolder none rs → OnlyHolder (some i) (put_at i holding rs)
OnlyHolder-enter i rs o = record {
  only = λ j e. elim (put_at_cases i j holding holding rs e) [
    | inl (here, same) ↦ ap some (sym here)
    | inr (other, old) ↦ absurd (none_some (o.only j old))
  ];
  looked = λ j e. elim (put_at_cases i j holding adding rs e) [
    | inl (here, bad) ↦ absurd (cc)
    | inr (other, old) ↦ o.looked j old
  ];
}
  where
    none_some : {j : ℕ} → some j ≡ none → ⊥
    none_some e = cc

-- The value of the field, the owner, and that the owner has the lock.
abbrev pub bit : Lock → ℕ
bit open_lock = 0
bit (held i) = 1
bit orphaned = 1

abbrev pub owner : Lock → Option ℕ
owner open_lock = none
owner (held i) = some i
owner orphaned = none

abbrev pub IsThere : Lock → List Request → Type 0
IsThere open_lock rs = Unit {0}
IsThere (held i) rs = get_elem? rs i ≡ some holding
IsThere orphaned rs = Unit {0}

-- The stored field and the requests show the lock.
pub record Shows {ℓ} {S : Type ℓ} (sync_lock : Str → S → Option (Option ℕ)) (uid : Str) (l : Lock)
    (w : World S) : Type ℓ where
  pub field : sync_lock uid w.store ≡ some (some (bit l))
  pub only : OnlyHolder (owner l) w.requests
  pub there : IsThere l w.requests

pub IsThere-append :
    (l : Lock) (r : Request) (rs : List Request) → IsThere l rs → IsThere l (rs ++ (r ∷ []))
IsThere-append open_lock r rs h = tt
IsThere-append (held i) r rs h = get_elem?-append i r holding rs h
IsThere-append orphaned r rs h = tt

IsThere-put_at :
    (l : Lock) (i : ℕ) (r r' : Request) (rs : List Request)
    → get_elem? rs i ≡ some r
    → r ≢ holding
    → IsThere l rs
    → IsThere l (put_at i r' rs)
IsThere-put_at open_lock i r r' rs e h t = tt
IsThere-put_at (held k) i r r' rs e h t =
    get_elem?-put_at_other i k r' rs (λ same. h (some_inj.0 (sym e ∙ ap (get_elem? rs) same ∙ t)))
    ∙ t
IsThere-put_at orphaned i r r' rs e h t = tt

pub owner_held : (l : Lock) (i : ℕ) → some i ≡ owner l → l ≡ held i
owner_held open_lock i e = absurd (cc)
owner_held (held k) i e = ap held (sym (some_inj.0 e))
owner_held orphaned i e = absurd (cc)

module _ {ℓ} {S : Type ℓ} (users : Users S) (sync_lock : Str → S → Option (Option ℕ))
    (laws : IsCollection users sync_lock) (uid : Str) (w : World S) where
  -- Another request moves, and the field stays.
  pub quiet_step :
      (l : Lock) (i : ℕ) (r r' : Request) (s' : S)
      → get_elem? w.requests i ≡ some r
      → r ≢ holding
      → IsQuiet r'
      → sync_lock uid s' ≡ sync_lock uid w.store
      → Shows sync_lock uid l w
      → Shows sync_lock uid l (record { store = s'; requests = put_at i r' w.requests })
  quiet_step l i r r' s' e h quiet same t = record {
    field = same ∙ t.field;
    only = OnlyHolder-put_at (owner l) i r' w.requests quiet t.only;
    there = IsThere-put_at l i r r' w.requests e h t.there;
  }

  -- The holder moves: it gives the lock back, or leaves it locked.
  pub leave_open :
      (i : ℕ) (r' : Request)
      → IsQuiet r'
      → Shows sync_lock uid (held i) w
      → Shows sync_lock uid open_lock
          (record { store = users.set_sync_lock uid 0 w.store; requests = put_at i r' w.requests })
  leave_open i r' quiet t = record {
    field = laws.set_lem uid 0 w.store ∙ ap (written 0) t.field;
    only = OnlyHolder-leave i r' w.requests quiet t.only;
    there = tt;
  }

  pub leave_locked :
      (i : ℕ) (r' : Request)
      → IsQuiet r'
      → Shows sync_lock uid (held i) w
      → Shows sync_lock uid orphaned (record w { requests = put_at i r' w.requests })
  leave_locked i r' quiet t = record {
    field = t.field;
    only = OnlyHolder-leave i r' w.requests quiet t.only;
    there = tt;
  }

  -- Whether the call that takes the lock has found it open.
  abbrev pub after_lock : S
  after_lock = (users.find_unlocked_and_lock uid w.store).1

  pub lock_found :
      (l : Lock)
      → Shows sync_lock uid l w
      → ((users.find_unlocked_and_lock uid w.store).0 ≡ is_unlocked (some (some (bit l))))
        × (sync_lock uid after_lock
            ≡ (if is_unlocked (some (some (bit l))) then some (some 1) else some (some (bit l))))
  lock_found l t = (
    laws.lock_answer uid w.store ∙ ap is_unlocked t.field,
    laws.lock_lem uid w.store
        ∙ ap (λ (o : Option (Option ℕ)). if is_unlocked o then some (some 1) else o) t.field,
  )
