-- ===== src/Net/Queues.antt =====
-- Workers and the pool of connections at concrete inputs.
use recreation_test.Base.{ℕ, ◌≡◌, refl, [], ◌∷◌, ◌++◌, none, some, bytes, arith}
use recreation_test.Net.Hash.{fnv32}
use recreation_test.Net.Clients.{update_at, copies}
use recreation_test.Net.Workers
use recreation_test.Net.Workers.{MsgPack, Workers, new_workers, queue, worker_id, dispatch}
use recreation_test.Net.Workers.Order.{of, handled_in_order}
use recreation_test.Net.Pool
use recreation_test.Net.Pool.{
  Process, WsConnectionPool, new_ws_connection_pool, get, put, next_base, pool_get, create,
  initialize, first_base,
}
use recreation_test.Net.Pool.Counts.{IsCounted, Reaches-IsCounted}
use recreation_test.Net.Pool.Ids.{AreDistinct, Reaches-AreDistinct}

abbrev pack_7 : MsgPack
pack_7 = record { cid = bytes "7"; body = 1 ∷ [] }

abbrev workers_2 : Workers
workers_2 = dispatch (dispatch (new_workers 2) pack_7) pack_7

workers_2-Reaches : Workers.Reaches 2 workers_2
workers_2-Reaches =
    Workers.onward (Workers.onward Workers.start (Workers.dispatched pack_7))
      (Workers.dispatched pack_7)

workers_2-errors : workers_2.message_errors ≡ 0
unfolding dispatch new_workers worker_id queue update_at copies fnv32
workers_2-errors = refl

handled_in_order_example :
    of (bytes "7") workers_2.handled
      ++ of (bytes "7") (queue workers_2.client_workers (worker_id workers_2 (bytes "7")))
    ≡ of (bytes "7") workers_2.received
handled_in_order_example =
    handled_in_order 2 workers_2 (bytes "7") (omega arith) workers_2-Reaches workers_2-errors

abbrev empty_process : Process ℕ ℕ
empty_process = record {
  pool = new_ws_connection_pool 10_000;
  in_use = 0;
  cid_base = first_base;
  cids = [];
}

-- A connection is opened and put back.
abbrev opened_7 : Process ℕ ℕ
opened_7 = record {
  pool = (get none (bytes "u") 3 (bytes "gate") first_base empty_process.pool).1;
  in_use = 1;
  cid_base = next_base first_base;
  cids = (get none (bytes "u") 3 (bytes "gate") first_base empty_process.pool).0.cid ∷ [];
}

abbrev idle_7 : Process ℕ ℕ
idle_7 = record opened_7 {
  pool =
      put (some (get none (bytes "u") 3 (bytes "gate") first_base empty_process.pool).0)
        opened_7.pool;
  in_use = 0;
}

opened_7-Reaches : Pool.Reaches 10_000 opened_7
opened_7-Reaches = Pool.onward Pool.start (Pool.opened none (bytes "u") 3 (bytes "gate"))

idle_7-Reaches : Pool.Reaches 10_000 idle_7
idle_7-Reaches = Pool.onward opened_7-Reaches (
    Pool.put_back (get none (bytes "u") 3 (bytes "gate") first_base empty_process.pool).0
      (omega arith))

Reaches-IsCounted_example : IsCounted 10_000 idle_7
Reaches-IsCounted_example =
    Reaches-IsCounted 10_000 idle_7 (omega arith) idle_7-Reaches (omega arith)

Reaches-AreDistinct_example : AreDistinct idle_7.cids
Reaches-AreDistinct_example = Reaches-AreDistinct 10_000 idle_7 (omega arith) idle_7-Reaches
