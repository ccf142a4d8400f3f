-- ===== src/Net/Batches.antt =====
-- framework/net/ws_manager.go: the loops of `remoteReadChanHandler` and `remotePushChanHandler`, which
-- gather what a channel delivers into batches. An event is what `select` took: an element, a tick of the
-- ticker, or the end of a channel that was closed. What a batch leads to is in Remote.
pub mod Delivery
use recreation_test.Base.{
  ℕ, zero, suc, ◌==◌, leb, if◌then◌else◌, List, [], ◌∷◌, ◌++◌, length, Bool, true, false,
}

abbrev pub batch_size : ℕ
batch_size = 32

module _ {ℓ} where
  pub data Event (A : Type ℓ) : Type ℓ where
    received : A → Event A
    tick closed : Event A

module _ {ℓ} {A : Type ℓ} where
  -- `processBatch`: the batches that are processed by a call.
  unfoldable pub process_batch : List A → List (List A)
  process_batch batch = if length batch == 0 then [] else batch ∷ []

  -- The batch behind an event, after the batches that the event has processed.
  unfoldable pub on_event : Event A → List A → List (List A) × List A
  on_event (received body) batch =
      let batch' = batch ++ (body ∷ []) in
      if leb batch_size (length batch') then (process_batch batch', []) else ([], batch')
  on_event tick batch = (process_batch batch, [])
  on_event closed batch = (process_batch batch, [])

  -- The loop, which returns at the end of the channel: the batches in the order in which they are
  -- processed, and what is left in the batch.
  unfoldable pub batch_loop : List (Event A) → List A → List (List A) × List A
  batch_loop [] batch = ([], batch)
  batch_loop (closed ∷ events) batch = on_event closed batch
  batch_loop (tick ∷ events) batch =
      let (now, batch') = on_event tick batch in
      let (later, left) = batch_loop events batch' in (now ++ later, left)
  batch_loop (received body ∷ events) batch =
      let (now, batch') = on_event (received body) batch in
      let (later, left) = batch_loop events batch' in (now ++ later, left)
