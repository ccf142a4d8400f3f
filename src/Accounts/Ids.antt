-- ===== src/Accounts/Ids.antt =====
-- core/dao/redis.go: `NextAccountId` and `incr`, of requests that overlap. Redis is a parameter: the calls,
-- and `value`, what is stored under a key, with the laws of `EXISTS`, `SET` and `INCR`; each call is one
-- atomic step, and the two clients of the code, of a single server and of a cluster, make the same calls.
-- A call may fail before or after it has taken effect. Ids are whole numbers, below 2^63 in the code.
pub mod Distinct
use recreation_test.Base.{
  ℕ, suc, ◌+◌, ◌≡◌, Bool, true, false, if◌then◌else◌, List, [], ◌∷◌, ◌++◌, get_elem?, Option, none,
  some, Str, bytes, str_eq,
}
use recreation_test.Base.Decimal.{decimal}
use recreation_test.Net.Clients.{update_at}

abbrev pub account_id_begin : ℕ
account_id_begin = 10_000

-- `Prefix + ":" + AccountIdRedisKey`.
abbrev pub account_id_key : Str
account_id_key = bytes "recreation_test:AccountId"

pub record Redis {ℓ} (S : Type ℓ) : Type ℓ where
  pub exists : Str → S → Bool
  pub set : Str → ℕ → S → S
  pub incr : Str → S → ℕ × S

abbrev pub is_some : Option ℕ → Bool
is_some none = false
is_some (some n) = true

abbrev pub or_zero : Option ℕ → ℕ
or_zero none = 0
or_zero (some n) = n

pub record IsRedis {ℓ} {S : Type ℓ} (redis : Redis S) (value : Str → S → Option ℕ) : Type ℓ where
  pub exists_lem : (key : Str) (s : S) → redis.exists key s ≡ is_some (value key s)
  pub set_lem :
      (key other : Str) (n : ℕ) (s : S)
      → value other (redis.set key n s) ≡ (if str_eq key other then some n else value other s)
  pub incr_answer : (key : Str) (s : S) → (redis.incr key s).0 ≡ or_zero (value key s) + 1
  pub incr_lem :
      (key other : Str) (s : S)
      → value other (redis.incr key s).1
        ≡ (if str_eq key other then some (or_zero (value key s) + 1) else value other s)

-- Where a call of `NextAccountId` stands: before `Exists`, `Set` or `Incr`, or at its end.
pub data Request : Type 0 where
  checking setting incrementing finished failed : Request

module _ {ℓ} {S : Type ℓ} (redis : Redis S) where
  -- The next call of a request, and its answer if it was the last one.
  unfoldable pub advance : Request → S → Request × S × Option Str
  advance checking s = (if redis.exists account_id_key s then incrementing else setting, s, none)
  advance setting s = (incrementing, redis.set account_id_key account_id_begin s, none)
  advance incrementing s =
      let (id, s') = redis.incr account_id_key s in (finished, s', some (decimal id))
  advance finished s = (finished, s, none)
  advance failed s = (failed, s, none)

-- The store, the requests, and the ids that were given, the last one first.
pub record World {ℓ} (S : Type ℓ) : Type ℓ where
  pub store : S
  pub requests : List Request
  pub ids : List Str

abbrev pub give : Option Str → List Str → List Str
give none ids = ids
give (some id) ids = id ∷ ids

-- Where a request is next.
abbrev pub at {ℓ} : {S : Type ℓ} → World S → ℕ → Request → List Request
at w i r = update_at i (λ old. r) w.requests

pub data Step {ℓ} {S : Type ℓ} (redis : Redis S) (w : World S) : World S → Type ℓ where
  arrived : Step redis w (record w { requests = w.requests ++ (checking ∷ []) })
  moved :
      (i : ℕ) (r : Request)
      → get_elem? w.requests i ≡ some r
      → Step redis w (record {
        store = (advance redis r w.store).1;
        requests = at w i (advance redis r w.store).0;
        ids = give (advance redis r w.store).2 w.ids;
      })
  refused : (i : ℕ) → Step redis w (record w { requests = at w i failed })
  lost :
      (i : ℕ) (r : Request)
      → get_elem? w.requests i ≡ some r
      → Step redis w (record w { store = (advance redis r w.store).1; requests = at w i failed })

pub data Reaches {ℓ} {S : Type ℓ} (redis : Redis S) (s : S) : World S → Type ℓ where
  start : Reaches redis s (record { store = s; requests = []; ids = [] })
  onward : {w w' : World S} → Reaches redis s w → Step redis w w' → Reaches redis s w'
