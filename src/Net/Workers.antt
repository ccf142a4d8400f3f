-- ===== src/Net/Workers.antt =====
-- framework/net/ws_manager.go: `clientReadChanHandler` and the workers' queues; a message is taken from its
-- queue and decoded at once, and `handled` lists the messages in the order in which they were decoded, the
-- ones of goroutines of their own included. `received` lists what was read from `ClientReadChan`. The
-- number of workers is the length of `client_workers`, twice the number of processors. Of `messageErrors`
-- only the messages that a queue had no room for are counted.
pub mod Order
use recreation_test.Base.{
  ℕ, zero, suc, ◌+◌, ◌%◌, ◌≡◌, ltb, if◌then◌else◌, List, [], ◌∷◌, ◌++◌, length, get_elem?, Option,
  none, some, Str,
}
use recreation_test.Net.Hash.{fnv32}
use recreation_test.Net.Clients.{update_at, copies}

abbrev pub queue_capacity : ℕ
queue_capacity = 256

pub record MsgPack : Type 0 where
  pub cid : Str
  pub body : List ℕ

pub record Workers : Type 0 where
  pub received : List MsgPack
  pub client_workers : List (List MsgPack)
  pub spawned : List MsgPack
  pub handled : List MsgPack
  pub message_errors : ℕ

unfoldable pub new_workers : ℕ → Workers
new_workers n = record {
  received = [];
  client_workers = copies n [];
  spawned = [];
  handled = [];
  message_errors = 0;
}

-- `hash % uint32(m.workerCount)`.
unfoldable pub worker_id : Workers → Str → ℕ
worker_id w cid = fnv32 cid % length w.client_workers

-- A queue by its index, which is in range.
unfoldable pub queue : List (List MsgPack) → ℕ → List MsgPack
queue [] i = []
queue (q ∷ rest) zero = q
queue (q ∷ rest) (suc i) = queue rest i

-- The body of the loop of `clientReadChanHandler`.
unfoldable pub dispatch : Workers → MsgPack → Workers
dispatch w body =
    let i = worker_id w body.cid in
    let w' = record w { received = w.received ++ (body ∷ []) } in
    if ltb (length (queue w.client_workers i)) queue_capacity
    then record w' { client_workers = update_at i (λ q. q ++ (body ∷ [])) w.client_workers }
    else record w' { message_errors = w.message_errors + 1; spawned = w.spawned ++ (body ∷ []) }

-- What happens: a message is dispatched, a worker decodes the head of its queue, or a goroutine of its own
-- decodes a message.
pub data Step (w : Workers) : Workers → Type 0 where
  dispatched : (body : MsgPack) → Step w (dispatch w body)
  worked :
      (i : ℕ) (body : MsgPack) (rest : List MsgPack)
      → queue w.client_workers i ≡ body ∷ rest
      → Step w (record w {
        client_workers = update_at i (λ q. rest) w.client_workers;
        handled = w.handled ++ (body ∷ []);
      })
  aside :
      (before after : List MsgPack) (body : MsgPack)
      → w.spawned ≡ before ++ (body ∷ after)
      → Step w (record w { spawned = before ++ after; handled = w.handled ++ (body ∷ []) })

pub data Reaches (n : ℕ) : Workers → Type 0 where
  start : Reaches n (new_workers n)
  onward : {w w' : Workers} → Reaches n w → Step w w' → Reaches n w'
