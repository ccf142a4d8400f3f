-- ===== src/Net/Batches/Delivery.antt =====
-- What the batches of a channel hold.
use recreation_test.Base.{
  ◌+◌, ◌<◌, ◌≤◌, ◌≡◌, refl, sym, ap, ◌∙◌, leb, List, [], ◌∷◌, ◌++◌, length, arith, All, All-append,
  length-append, Bool-cases, if_both, inl, inr,
}
use mathlib.Core.List.{append_assoc, append-nil}
use recreation_test.Net.Batches.{
  Event, received, tick, closed, batch_size, process_batch, on_event, batch_loop,
}

module _ {ℓ} {A : Type ℓ} where
  unfoldable pub join : List (List A) → List A
  join [] = []
  join (x ∷ rest) = x ++ join rest

  -- What the channel delivers before it is closed.
  unfoldable pub deliveries : List (Event A) → List A
  deliveries [] = []
  deliveries (received body ∷ events) = body ∷ deliveries events
  deliveries (tick ∷ events) = deliveries events
  deliveries (closed ∷ events) = []

  abbrev pub IsBatch : List A → Type 0
  IsBatch batch = (0 < length batch) × (length batch ≤ batch_size)

  join-append : (xs ys : List (List A)) → join (xs ++ ys) ≡ join xs ++ join ys
  unfolding join
  join-append [] ys = refl
  join-append (x ∷ xs) ys =
      ap (◌++◌ x) (join-append xs ys) ∙ sym (append_assoc x (join xs) (join ys))

  process_batch_full : (x : A) (batch : List A) → process_batch (x ∷ batch) ≡ (x ∷ batch) ∷ []
  unfolding process_batch
  process_batch_full x batch = ground arith

  join-process_batch : (batch : List A) → join (process_batch batch) ≡ batch
  unfolding join process_batch
  join-process_batch [] = refl
  join-process_batch (x ∷ batch) = ap join (process_batch_full x batch) ∙ append-nil (x ∷ batch)

  process_batch-IsBatch :
      (batch : List A) → length batch ≤ batch_size → All IsBatch (process_batch batch)
  unfolding process_batch
  process_batch-IsBatch [] h = tt
  process_batch-IsBatch (x ∷ batch) h = rw (process_batch_full x batch) ((omega arith, h), tt)

  -- What one event keeps, adds and leaves.
  step_kept :
      (body : A) (batch : List A)
      → let (now, left) = on_event (received body) batch in join now ++ left ≡ batch ++ (body ∷ [])
  unfolding on_event
  step_kept body batch =
      let batch' = batch ++ (body ∷ []) in
      if_both (λ (r : List (List A) × List A). join r.0 ++ r.1 ≡ batch')
        (leb batch_size (length batch')) (process_batch batch', []) ([], batch')
        (append-nil (join (process_batch batch')) ∙ join-process_batch batch') (unfold join in refl)

  step_sized :
      (body : A) (batch : List A)
      → length batch < batch_size
      → let (now, left) = on_event (received body) batch in
        All IsBatch now × (length left < batch_size)
  unfolding on_event
  step_sized body batch h =
      let batch' = batch ++ (body ∷ []) in
      let grown : length batch' ≡ length batch + 1 = length-append batch (body ∷ []) in
      let all = process_batch-IsBatch batch' (omega (arith, grown)) in
      elim (Bool-cases (leb batch_size (length batch'))) [
        | inl full ↦ rw full (all, omega arith)
        | inr room ↦ rw room (tt, ground (arith, room))
      ]

  -- One event, and then the loop.
  kept_through :
      (now : List (List A)) (batch batch' : List A) (events : List (Event A))
      → join now ++ batch' ≡ batch
      → let (later, left) = batch_loop events batch' in
        join later ++ left ≡ batch' ++ deliveries events
        → join (now ++ (batch_loop events batch').0) ++ (batch_loop events batch').1
          ≡ batch ++ deliveries events
  kept_through now batch batch' events step rest =
      let (later, left) = batch_loop events batch' in
      ap (λ (xs : List A). xs ++ left) (join-append now later)
      ∙ append_assoc (join now) (join later) left
      ∙ ap (◌++◌ (join now)) rest
      ∙ sym (append_assoc (join now) batch' (deliveries events))
      ∙ ap (λ (xs : List A). xs ++ deliveries events) step

  batch_loop_kept :
      (events : List (Event A)) (batch : List A)
      → let (processed, left) = batch_loop events batch in
        join processed ++ left ≡ batch ++ deliveries events
  unfolding batch_loop deliveries on_event
  batch_loop_kept [] batch = unfold join in sym (append-nil batch)
  batch_loop_kept (closed ∷ events) batch =
      ap (λ (xs : List A). xs ++ []) (join-process_batch batch)
  batch_loop_kept (tick ∷ events) batch =
      kept_through (process_batch batch) batch [] events
        (append-nil (join (process_batch batch)) ∙ join-process_batch batch)
        (batch_loop_kept events [])
  batch_loop_kept (received body ∷ events) batch =
      let (now, batch') = on_event (received body) batch in
      kept_through now (batch ++ (body ∷ [])) batch' events (step_kept body batch)
        (batch_loop_kept events batch')
      ∙ append_assoc batch (body ∷ []) (deliveries events)

  batch_loop_sized :
      (events : List (Event A)) (batch : List A)
      → length batch < batch_size
      → let (processed, left) = batch_loop events batch in
        All IsBatch processed × (length left < batch_size)
  unfolding batch_loop on_event
  batch_loop_sized [] batch h = (tt, h)
  batch_loop_sized (closed ∷ events) batch h =
      (process_batch-IsBatch batch (omega arith), omega arith)
  batch_loop_sized (tick ∷ events) batch h =
      let (sizes, room) = batch_loop_sized events [] (omega arith) in
      (
        All-append IsBatch (process_batch batch) (batch_loop events []).0
            (process_batch-IsBatch batch (omega arith)) sizes,
        room,
      )
  batch_loop_sized (received body ∷ events) batch h =
      let (now, batch') = on_event (received body) batch in
      let (first, small) = step_sized body batch h in
      let (sizes, room) = batch_loop_sized events batch' small in
      (All-append IsBatch now (batch_loop events batch').0 first sizes, room)

  -- An event that leaves nothing in the batch.
  abbrev pub IsFlush : Event A → Type 0
  IsFlush (received body) = ⊥
  IsFlush tick = Unit {0}
  IsFlush closed = Unit {0}

  batch_loop_empties :
      (events : List (Event A)) (flush : Event A) (batch : List A)
      → IsFlush flush
      → (batch_loop (events ++ (flush ∷ [])) batch).1 ≡ []
  unfolding batch_loop on_event
  batch_loop_empties [] (received body) batch h = absurd h
  batch_loop_empties [] tick batch h = refl
  batch_loop_empties [] closed batch h = refl
  batch_loop_empties (closed ∷ events) flush batch h = refl
  batch_loop_empties (tick ∷ events) flush batch h =
      batch_loop_empties events flush (on_event tick batch).1 h
  batch_loop_empties (received body ∷ events) flush batch h =
      batch_loop_empties events flush (on_event (received body) batch).1 h

  deliveries-append_flush :
      (events : List (Event A)) (flush : Event A)
      → IsFlush flush
      → deliveries (events ++ (flush ∷ [])) ≡ deliveries events
  unfolding deliveries
  deliveries-append_flush [] (received body) h = absurd h
  deliveries-append_flush [] tick h = refl
  deliveries-append_flush [] closed h = refl
  deliveries-append_flush (closed ∷ events) flush h = refl
  deliveries-append_flush (tick ∷ events) flush h = deliveries-append_flush events flush h
  deliveries-append_flush (received body ∷ events) flush h =
      ap (◌∷◌ body) (deliveries-append_flush events flush h)

-- Whatever the channel delivers, the batches in the order of their processing, and what is left, are
-- exactly what was delivered before the channel was closed, in order: nothing is lost, doubled or
-- reordered between batches. Each batch that is processed has 1 to 32 elements, and fewer than 32 are left.
pub batch_loop_lem {ℓ} :
    {A : Type ℓ} (events : List (Event A))
    → let (processed, left) = batch_loop events [] in
      (join processed ++ left ≡ deliveries events)
      × All IsBatch processed
      × (length left < batch_size)
batch_loop_lem events =
    let (sizes, room) = batch_loop_sized events [] (omega arith) in
    (batch_loop_kept events [], sizes, room)

-- Every element that a channel delivers is processed by the next tick or the end of the channel: behind
-- it the batches are exactly what was delivered, and nothing is left.
pub batch_loop_flush {ℓ} :
    {A : Type ℓ} (events : List (Event A)) (flush : Event A)
    → IsFlush flush
    → let (processed, left) = batch_loop (events ++ (flush ∷ [])) [] in
      (join processed ≡ deliveries events) × (left ≡ [])
batch_loop_flush events flush h =
    let (processed, left) = batch_loop (events ++ (flush ∷ [])) [] in
    let empty : left ≡ [] = batch_loop_empties events flush [] h in
    let kept : join processed ++ left ≡ deliveries (events ++ (flush ∷ [])) =
      batch_loop_kept (events ++ (flush ∷ [])) [] in
    (
      sym (append-nil (join processed))
          ∙ sym (ap (◌++◌ (join processed)) empty)
          ∙ kept
          ∙ deliveries-append_flush events flush h,
      empty,
    )
