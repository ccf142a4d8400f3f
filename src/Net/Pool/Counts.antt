-- ===== src/Net/Pool/Counts.antt =====
-- What the counters of the pool say, and what an object carries from one connection to the next.
use mathlib.Core.Path.{subst}
use recreation_test.Base.{
  ℕ, zero, suc, ◌+◌, ◌-◌, ◌<◌, ◌≤◌, ◌≡◌, refl, ap, false, List, [], ◌∷◌, ◌++◌, length, Option, none,
  some, Str, arith, All, All-append, length-append, Bool-cases, inl, inr,
}
use recreation_test.Base.Int.{ltb_int32, int64_suc}
use recreation_test.Net.Pool.{
  PooledConnection, WsConnectionPool, new_ws_connection_pool, create, keep, pick, take_idle,
  pool_get, initialize, get, reset, put, Process, Step, opened, put_back, dropped, Reaches, start,
  onward,
}

module _ {ℓ} {C V : Type ℓ} where
  -- An object without the id, the socket, the manager, the channels, the session and the ticker of an
  -- earlier connection. Its three `sync.Once` may have been used.
  abbrev pub IsClean : PooledConnection C V → Type ℓ
  IsClean c =
      (c.cid ≡ [])
      × (c.conn ≡ none)
      × (c.manager ≡ none)
      × (c.read_chan ≡ none)
      × (c.write_chan ≡ none)
      × (c.session ≡ none)
      × (c.ping_ticker ≡ false)
      × (c.close_chan ≡ none)

  reset-IsClean : (c : PooledConnection C V) → IsClean (reset c)
  unfolding reset
  reset-IsClean c = (refl, refl, refl, refl, refl, refl, refl, refl)

  -- What `pick` takes from the idle objects.
  abbrev Taken :
      List (PooledConnection C V)
      → Option (PooledConnection C V × List (PooledConnection C V))
      → Type ℓ
  Taken idle none = Unit {ℓ}
  Taken idle (some (c, others)) =
      (length idle ≡ suc (length others)) × IsClean c × All IsClean others

  keep-Taken :
      (d : PooledConnection C V) (idle : List (PooledConnection C V))
      (o : Option (PooledConnection C V × List (PooledConnection C V)))
      → IsClean d
      → Taken idle o
      → Taken (d ∷ idle) (keep d o)
  unfolding keep
  keep-Taken d idle none one t = tt
  keep-Taken d idle (some (c, others)) one (len, clean, rest) = (ap suc len, clean, (one, rest))

  pick-Taken :
      (i : ℕ) (idle : List (PooledConnection C V)) → All IsClean idle → Taken idle (pick i idle)
  unfolding pick
  pick-Taken i [] clean = tt
  pick-Taken zero (d ∷ idle) (one, clean) = (refl, one, clean)
  pick-Taken (suc i) (d ∷ idle) (one, clean) =
      keep-Taken d idle (pick i idle) one (pick-Taken i idle clean)

  pub record IsCounted (max_size : ℕ) (s : Process C V) : Type ℓ where
    pub sum : s.pool.created ≡ s.pool.count + s.pool.discarded
    pub held : length s.pool.idle + s.in_use ≤ s.pool.count
    pub bounded : length s.pool.idle ≤ max_size
    pub size : s.pool.max_size ≡ max_size
    pub handed : s.pool.created ≤ s.pool.reused
    pub opens : s.pool.reused ≡ length s.cids
    pub clean : All IsClean s.pool.idle

  module _ (max_size : ℕ) (small : max_size < 2_147_483_648) (s : Process C V)
      (few : length s.cids + 1 < 2_147_483_648) (cid : Str) (w : IsCounted max_size s) where
    -- The process behind an object that the pool gave.
    abbrev after_get : WsConnectionPool C V → Process C V
    after_get p = record s {
      pool = record p { reused = int64_suc p.reused };
      in_use = s.in_use + 1;
      cids = cid ∷ s.cids;
    }

    take_idle-IsCounted :
        (o : Option (PooledConnection C V × List (PooledConnection C V)))
        → Taken s.pool.idle o
        → IsCounted max_size (after_get (take_idle s.pool o).1) × IsClean (take_idle s.pool o).0
    unfolding take_idle create
    take_idle-IsCounted none t = (
      record {
        sum = omega (arith, w.sum, w.handed, w.opens);
        held = omega (arith, w.held, w.sum, w.handed, w.opens);
        bounded = w.bounded;
        size = w.size;
        handed = omega (arith, w.handed, w.opens);
        opens = omega (arith, w.opens);
        clean = w.clean;
      },
      (refl, refl, refl, refl, refl, refl, refl, refl),
    )
    take_idle-IsCounted (some (c, others)) (len, clean, rest) = (
      record {
        sum = w.sum;
        held = omega (arith, w.held, len);
        bounded = omega (arith, w.bounded, len);
        size = w.size;
        handed = omega (arith, w.handed, w.opens);
        opens = omega (arith, w.opens);
        clean = rest;
      },
      clean,
    )

    pool_get-IsCounted :
        (choice : Option ℕ)
        → IsCounted max_size (after_get (pool_get choice s.pool).1)
          × IsClean (pool_get choice s.pool).0
    unfolding pool_get
    pool_get-IsCounted none = unfold take_idle in take_idle-IsCounted none tt
    pool_get-IsCounted (some i) =
        take_idle-IsCounted (pick i s.pool.idle) (pick-Taken i s.pool.idle w.clean)

  module _ (max_size : ℕ) (small : max_size < 2_147_483_648) (s : Process C V)
      (few : length s.cids < 2_147_483_648) (w : IsCounted max_size s) where
    put-IsCounted :
        (c : PooledConnection C V)
        → 0 < s.in_use
        → IsCounted max_size (record s { pool = put (some c) s.pool; in_use = s.in_use - 1 })
    unfolding put
    put-IsCounted c busy = elim (Bool-cases (ltb_int32 s.pool.max_size s.pool.count)) [
      | inl full ↦
          rw (full, put)
            (record {
              sum = omega (arith, w.sum, w.held, w.handed, w.opens);
              held = omega (arith, w.held, w.sum, w.handed, w.opens);
              bounded = w.bounded;
              size = w.size;
              handed = w.handed;
              opens = w.opens;
              clean = w.clean;
            })
      | inr room ↦
          let grown : length (s.pool.idle ++ (reset c ∷ [])) ≡ length s.pool.idle + 1 =
            length-append s.pool.idle (reset c ∷ []) in
          let fits : s.pool.count ≤ s.pool.max_size =
            ground (arith, room, w.sum, w.size, w.handed, w.opens) in
          rw (room, put)
            (record {
              sum = w.sum;
              held = omega (arith, w.held, grown);
              bounded = omega (arith, w.held, w.size, grown, fits);
              size = w.size;
              handed = w.handed;
              opens = w.opens;
              clean = All-append IsClean s.pool.idle (reset c ∷ []) w.clean (reset-IsClean c, tt);
            })
    ]

    dropped-IsCounted :
        (i : ℕ) (c : PooledConnection C V) (others : List (PooledConnection C V))
        → pick i s.pool.idle ≡ some (c, others)
        → IsCounted max_size (record s { pool = record s.pool { idle = others } })
    dropped-IsCounted i c others e =
        let (len, clean, rest) = subst (Taken s.pool.idle) e (pick-Taken i s.pool.idle w.clean) in
        record {
          sum = w.sum;
          held = omega (arith, w.held, len);
          bounded = omega (arith, w.bounded, len);
          size = w.size;
          handed = w.handed;
          opens = w.opens;
          clean = rest;
        }

  Step-IsCounted :
      (max_size : ℕ) (s s' : Process C V)
      → max_size < 2_147_483_648
      → length s'.cids < 2_147_483_648
      → (length s.cids < 2_147_483_648 → IsCounted max_size s)
      → Step s s'
      → IsCounted max_size s'
  unfolding get
  Step-IsCounted max_size s s' small few w (opened choice uuid conn server_id) =
      let cid = (get choice uuid conn server_id s.cid_base s.pool).0.cid in
      let t = (pool_get-IsCounted max_size small s (omega arith) cid (w (omega arith)) choice).0 in
      record {
        sum = t.sum;
        held = t.held;
        bounded = t.bounded;
        size = t.size;
        handed = t.handed;
        opens = t.opens;
        clean = t.clean;
      }
  Step-IsCounted max_size s s' small few w (put_back c busy) =
      put-IsCounted max_size small s few (w few) c busy
  Step-IsCounted max_size s s' small few w (dropped i c others e) =
      dropped-IsCounted max_size small s few (w few) i c others e

  Reaches-IsCounted_lem :
      (max_size : ℕ) (s : Process C V)
      → max_size < 2_147_483_648
      → Reaches max_size s
      → length s.cids < 2_147_483_648
      → IsCounted max_size s
  unfolding new_ws_connection_pool
  Reaches-IsCounted_lem max_size s small start few = record {
    sum = refl;
    held = omega arith;
    bounded = omega arith;
    size = refl;
    handed = omega arith;
    opens = refl;
    clean = tt;
  }
  Reaches-IsCounted_lem max_size s small (onward {s = before} r step) few =
      Step-IsCounted max_size before s small few
        (λ h. Reaches-IsCounted_lem max_size before small r h) step

-- However connections come and go, and whatever the runtime drops: each object that was created is counted
-- or was discarded; the idle objects and those in use are at most the count; never more objects are idle
-- than the size of the pool allows; an idle object holds no id, socket, manager, channel, session or ticker
-- of its last connection; and `reused` counts all connections that were opened, those on new objects too.
-- The size of the pool is not negative, and fewer than 2 ^ 31 connections were opened.
pub Reaches-IsCounted {ℓ} :
    {C V : Type ℓ} (max_size : ℕ) (s : Process C V)
    → max_size < 2_147_483_648
    → Reaches max_size s
    → length s.cids < 2_147_483_648
    → IsCounted max_size s
Reaches-IsCounted = Reaches-IsCounted_lem

-- Whichever object the pool answers with, an idle one or a new one, a connection starts out the same. The
-- size of the pool is not negative, and fewer than 2 ^ 31 connections were opened.
pub get-create {ℓ} :
    {C V : Type ℓ} (max_size : ℕ) (s : Process C V) (choice : Option ℕ) (uuid : Str) (conn : C)
    (server_id : Str)
    → max_size < 2_147_483_648
    → Reaches max_size s
    → length s.cids + 1 < 2_147_483_648
    → (get choice uuid conn server_id s.cid_base s.pool).0
      ≡ (get none uuid conn server_id s.cid_base s.pool).0
unfolding get initialize pool_get create
get-create max_size s choice uuid conn server_id small r few =
    let w = Reaches-IsCounted max_size s small r (omega arith) in
    let clean = (pool_get-IsCounted max_size small s few [] w choice).1 in
    let (cid, conn', manager, read_chan, write_chan, session, ping_ticker, close_chan) = clean in
    rw ping_ticker refl
