-- ===== src/Net/Session.antt =====
-- framework/net/session.go: the session of a connection, and `sync.RWMutex`. The values that a session
-- stores are a parameter; a method that waits for the lock is the error `blocked`, and unlocking a lock
-- that is not held for writing stops the program.
pub mod Locking
use recreation_test.Base.{
  ℕ, zero, suc, Bool, true, false, if◌then◌else◌, List, [], ◌∷◌, Option, none, some, Str, str_eq,
  lookup, insert, string_eq, Outcome, ok, err, panic, ◌>>=◌,
}

-- Free, held by that many readers and one more, or held by a writer.
pub data RwMutex : Type 0 where
  free : RwMutex
  readers : ℕ → RwMutex
  writer : RwMutex

pub data Wait : Type 0 where
  blocked : Wait

unfoldable pub lock : RwMutex → Outcome Wait RwMutex
lock free = ok writer
lock (readers n) = err blocked
lock writer = err blocked

unfoldable pub unlock : RwMutex → Outcome Wait RwMutex
unlock free = panic
unlock (readers n) = panic
unlock writer = ok free

unfoldable pub r_lock : RwMutex → Outcome Wait RwMutex
r_lock free = ok (readers 0)
r_lock (readers n) = ok (readers (suc n))
r_lock writer = err blocked

unfoldable pub r_unlock : RwMutex → Outcome Wait RwMutex
r_unlock free = panic
r_unlock (readers zero) = ok free
r_unlock (readers (suc n)) = ok (readers n)
r_unlock writer = panic

pub record Session {ℓ} (V : Type ℓ) : Type ℓ where
  pub mutex : RwMutex
  pub cid : Str
  pub uid : Str
  pub data_map : List (Str × V)
  pub all : List (Str × V)

module _ {ℓ} {V : Type ℓ} where
  unfoldable pub new_session : Str → Session V
  new_session cid = record { mutex = free; cid = cid; uid = []; data_map = []; all = [] }

  -- `for k, v := range data { m[k] = v }`.
  unfoldable pub write_all : List (Str × V) → List (Str × V) → List (Str × V)
  write_all [] m = m
  write_all ((k, v) ∷ new) m = write_all new (insert k v m)

  -- What a method does between `Lock` and the deferred `Unlock`.
  unfoldable pub locked : (Session V → Session V) → Session V → Outcome Wait (Session V)
  locked body s = do
    held ← lock s.mutex
    let s' = body (record s { mutex = held })
    released ← unlock s'.mutex
    ok (record s' { mutex = released })

  unfoldable pub put_body : Str → V → Session V → Session V
  put_body key value s = record s { data_map = insert key value s.data_map }

  unfoldable pub put : Session V → Str → V → Outcome Wait (Session V)
  put s key value = locked (put_body key value) s

  -- `Get` takes the lock for reading and gives it back with `Unlock`.
  unfoldable pub get : Session V → Str → Outcome Wait (Option V × Session V)
  get s key = do
    held ← r_lock s.mutex
    let v = lookup key s.data_map
    released ← unlock held
    ok (v, record s { mutex = released })

  unfoldable pub set_data_body : Str → List (Str × V) → Session V → Session V
  set_data_body uid new s =
      if str_eq s.uid uid then record s { data_map = write_all new s.data_map } else s

  unfoldable pub set_data : Session V → Str → List (Str × V) → Outcome Wait (Session V)
  set_data s uid new = locked (set_data_body uid new) s

  unfoldable pub set_all_body : List (Str × V) → Session V → Session V
  set_all_body new s = record s { all = write_all new s.all }

  unfoldable pub set_all : Session V → List (Str × V) → Outcome Wait (Session V)
  set_all s new = locked (set_all_body new) s

  unfoldable pub close_body : Session V → Session V
  close_body s = record s { data_map = []; all = [] }

  unfoldable pub close : Session V → Outcome Wait (Session V)
  close s = locked close_body s
