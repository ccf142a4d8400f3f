-- ===== src/Net/Pool.antt =====
-- framework/net/ws_connection_pool.go: the pool of the connection objects. `sync.Pool` may answer with any
-- idle object or call `New`, whatever is idle, and may drop idle objects; which of these happens is an
-- argument. A nil pointer or channel is `none`. Of a manager its `ServerId` is kept, and the channel
-- `ClientReadChan` is known by it; the text of a UUID is an argument. The counters are bit patterns, of an
-- `int32` for `count` and `maxSize` and of an `int64` for the others.
pub mod Counts
pub mod Ids
use recreation_test.Base.{
  ℕ, zero, suc, ◌+◌, ◌-◌, ◌%◌, ◌^◌, ◌<◌, ◌≡◌, Bool, true, false, ltb, if◌then◌else◌, List, [], ◌∷◌,
  ◌++◌, Option, none, some, Str, bytes,
}
use recreation_test.Base.Int.{int32_suc, int32_pred, ltb_int32, int64_suc}
use recreation_test.Base.Decimal.{decimal}
use recreation_test.Net.Session.{Session, new_session}

module _ {ℓ} where
  pub record PooledConnection (C V : Type ℓ) : Type ℓ where
    pub cid : Str
    pub conn : Option C
    pub manager : Option Str
    pub read_chan : Option Str
    pub write_chan : Option (List (List ℕ))
    pub session : Option (Session V)
    pub ping_ticker : Bool
    pub close_chan : Option Bool
    pub close_once : Bool
    pub read_chan_once : Bool
    pub write_chan_once : Bool

  pub record WsConnectionPool (C V : Type ℓ) : Type ℓ where
    pub idle : List (PooledConnection C V)
    pub count : ℕ
    pub max_size : ℕ
    pub created : ℕ
    pub reused : ℕ
    pub discarded : ℕ

-- `fmt.Sprintf("%s-%s-%d", …)`.
unfoldable pub make_cid : Str → Str → ℕ → Str
make_cid uuid server_id base = uuid ++ (b'-' ∷ (server_id ++ (b'-' ∷ decimal base)))

abbrev pub first_base : ℕ
first_base = 10_000

-- `atomic.AddUint64(&cidBase, 1)`.
unfoldable pub next_base : ℕ → ℕ
next_base base = (base + 1) % 2 ^ 64

module _ {ℓ} {C V : Type ℓ} where
  -- `&WsConnection{}`.
  abbrev pub blank : PooledConnection C V
  blank = record {
    cid = [];
    conn = none;
    manager = none;
    read_chan = none;
    write_chan = none;
    session = none;
    ping_ticker = false;
    close_chan = none;
    close_once = false;
    read_chan_once = false;
    write_chan_once = false;
  }

  unfoldable pub new_ws_connection_pool : ℕ → WsConnectionPool C V
  new_ws_connection_pool max_size = record {
    idle = [];
    count = 0;
    max_size = max_size;
    created = 0;
    reused = 0;
    discarded = 0;
  }

  -- The function under `New`.
  unfoldable pub create : WsConnectionPool C V → PooledConnection C V × WsConnectionPool C V
  create p = (blank, record p { created = int64_suc p.created; count = int32_suc p.count })

  unfoldable pub keep :
      PooledConnection C V
      → Option (PooledConnection C V × List (PooledConnection C V))
      → Option (PooledConnection C V × List (PooledConnection C V))
  keep c none = none
  keep c (some (d, others)) = some (d, c ∷ others)

  -- The idle object at an index, and the others.
  unfoldable pub pick :
      ℕ → List (PooledConnection C V) → Option (PooledConnection C V × List (PooledConnection C V))
  pick i [] = none
  pick zero (c ∷ rest) = some (c, rest)
  pick (suc i) (c ∷ rest) = keep c (pick i rest)

  unfoldable pub take_idle :
      WsConnectionPool C V
      → Option (PooledConnection C V × List (PooledConnection C V))
      → PooledConnection C V × WsConnectionPool C V
  take_idle p none = create p
  take_idle p (some (c, others)) = (c, record p { idle = others })

  -- `sync.Pool.Get`: the object at the index, or a new one.
  unfoldable pub pool_get :
      Option ℕ → WsConnectionPool C V → PooledConnection C V × WsConnectionPool C V
  pool_get none p = create p
  pool_get (some i) p = take_idle p (pick i p.idle)

  -- What `Get` writes into an object.
  unfoldable pub initialize : Str → C → Str → PooledConnection C V → PooledConnection C V
  initialize cid conn server_id c = record c {
    conn = some conn;
    manager = some server_id;
    cid = cid;
    write_chan = some [];
    read_chan = some server_id;
    session = some (new_session cid);
    close_chan = some false;
    close_once = false;
    read_chan_once = false;
    write_chan_once = false;
  }

  -- `Get`, at a value of `cidBase`.
  unfoldable pub get :
      Option ℕ
      → Str
      → C
      → Str
      → ℕ
      → WsConnectionPool C V
      → PooledConnection C V × WsConnectionPool C V
  get choice uuid conn server_id base p =
      let (c, p') = pool_get choice p in
      (
        initialize (make_cid uuid server_id (next_base base)) conn server_id c,
        record p' { reused = int64_suc p'.reused },
      )

  unfoldable pub reset : PooledConnection C V → PooledConnection C V
  reset c = record c {
    cid = [];
    conn = none;
    manager = none;
    read_chan = none;
    write_chan = none;
    session = none;
    ping_ticker = false;
    close_chan = none;
  }

  unfoldable pub put : Option (PooledConnection C V) → WsConnectionPool C V → WsConnectionPool C V
  put none p = p
  put (some c) p =
      if ltb_int32 p.max_size p.count
      then record p { discarded = int64_suc p.discarded; count = int32_pred p.count }
      else record p { idle = p.idle ++ (reset c ∷ []) }

module _ {ℓ} where
  -- The pool with the connections that were handed out and not put back, `cidBase`, and the ids that were
  -- given, the last one first.
  pub record Process (C V : Type ℓ) : Type ℓ where
    pub pool : WsConnectionPool C V
    pub in_use : ℕ
    pub cid_base : ℕ
    pub cids : List Str

  -- A connection is opened; one that is in use is put back, whatever has become of it; or the runtime drops
  -- an idle object.
  pub data Step {C V : Type ℓ} (s : Process C V) : Process C V → Type ℓ where
    opened :
        (choice : Option ℕ) (uuid : Str) (conn : C) (server_id : Str)
        → Step s (record {
          pool = (get choice uuid conn server_id s.cid_base s.pool).1;
          in_use = s.in_use + 1;
          cid_base = next_base s.cid_base;
          cids = (get choice uuid conn server_id s.cid_base s.pool).0.cid ∷ s.cids;
        })
    put_back :
        (c : PooledConnection C V)
        → 0 < s.in_use
        → Step s (record s { pool = put (some c) s.pool; in_use = s.in_use - 1 })
    dropped :
        (i : ℕ) (c : PooledConnection C V) (others : List (PooledConnection C V))
        → pick i s.pool.idle ≡ some (c, others)
        → Step s (record s { pool = record s.pool { idle = others } })

  pub data Reaches {C V : Type ℓ} (max_size : ℕ) : Process C V → Type ℓ where
    start : Reaches max_size (record {
      pool = new_ws_connection_pool max_size;
      in_use = 0;
      cid_base = first_base;
      cids = [];
    })
    onward : {s s' : Process C V} → Reaches max_size s → Step s s' → Reaches max_size s'
