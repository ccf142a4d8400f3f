-- ===== src/Net/Workers/Order.antt =====
-- The order in which the messages of a connection are decoded.
use mathlib.Core.List.{append_assoc, append-nil}
use recreation_test.Base.{
  ℕ, zero, suc, ◌+◌, ◌%◌, ◌<◌, ◌≡◌, ◌≢◌, ◌⊎◌, inl, inr, refl, sym, ap, ◌∙◌, ltb, if◌then◌else◌,
  List, [], ◌∷◌, ◌++◌, length, Str, str_eq, str_eq_iff, arith, Bool-cases, if_both,
}
use native.Mathlib.Decide.{ℕ_discrete}
use native.Mathlib.Nat.{mod-lt}
use recreation_test.Net.Hash.{fnv32}
use recreation_test.Net.Clients.{update_at, copies}
use recreation_test.Net.Clients.Maps.{length-update_at}
use recreation_test.Net.Workers.{
  MsgPack, Workers, new_workers, worker_id, queue, queue_capacity, dispatch, Step, dispatched,
  worked, aside, Reaches, start, onward,
}

-- The messages of one connection.
unfoldable pub of : Str → List MsgPack → List MsgPack
of cid [] = []
of cid (body ∷ rest) =
    let others = of cid rest in if str_eq body.cid cid then body ∷ others else others

of-append : (cid : Str) (xs ys : List MsgPack) → of cid (xs ++ ys) ≡ of cid xs ++ of cid ys
unfolding of
of-append cid [] ys = refl
of-append cid (x ∷ xs) ys = elim (Bool-cases (str_eq x.cid cid)) [
  | inl e ↦ rw e (ap (◌∷◌ x) (of-append cid xs ys))
  | inr e ↦ rw e (of-append cid xs ys)
]

of-other : (cid : Str) (body : MsgPack) → body.cid ≢ cid → of cid (body ∷ []) ≡ []
unfolding of
of-other cid body h = elim (Bool-cases (str_eq body.cid cid)) [
  | inl e ↦ absurd (h ((str_eq_iff body.cid cid).0 e))
  | inr e ↦ rw e refl
]

of-nil :
    (cid : Str) (body : MsgPack) (rest : List MsgPack)
    → of cid (body ∷ rest) ≡ []
    → (of cid (body ∷ []) ≡ []) × (of cid rest ≡ [])
unfolding of
of-nil cid body rest h = elim (Bool-cases (str_eq body.cid cid)) [
  | inl e ↦ absurd (ground (arith, h, e))
  | inr e ↦ (rw e refl, ground (arith, h, e))
]

queue-update_at :
    (i : ℕ) (f : List MsgPack → List MsgPack) (qs : List (List MsgPack))
    → i < length qs
    → queue (update_at i f qs) i ≡ f (queue qs i)
unfolding queue update_at
queue-update_at i f [] h = absurd (omega arith)
queue-update_at zero f (q ∷ qs) h = refl
queue-update_at (suc i) f (q ∷ qs) h = queue-update_at i f qs (omega arith)

queue-update_at_other :
    (i j : ℕ) (f : List MsgPack → List MsgPack) (qs : List (List MsgPack))
    → i ≢ j
    → queue (update_at i f qs) j ≡ queue qs j
unfolding queue update_at
queue-update_at_other i j f [] h = refl
queue-update_at_other zero zero f (q ∷ qs) h = absurd (h refl)
queue-update_at_other zero (suc j) f (q ∷ qs) h = refl
queue-update_at_other (suc i) zero f (q ∷ qs) h = refl
queue-update_at_other (suc i) (suc j) f (q ∷ qs) h =
    queue-update_at_other i j f qs (λ e. h (ap suc e))

queue_in_range :
    (qs : List (List MsgPack)) (i : ℕ) (body : MsgPack) (rest : List MsgPack)
    → queue qs i ≡ body ∷ rest
    → i < length qs
unfolding queue
queue_in_range [] i body rest e = absurd (ground (arith, e))
queue_in_range (q ∷ qs) zero body rest e = omega arith
queue_in_range (q ∷ qs) (suc i) body rest e = omega (arith, queue_in_range qs i body rest e)

-- While no message was refused by a queue, the messages of a connection are those that were decoded and
-- then those in its worker's queue, and none is in the queue of another worker.
record IsOrdered (n : ℕ) (w : Workers) : Type 0 where
  width : length w.client_workers ≡ n
  none_aside : w.message_errors ≡ 0 → w.spawned ≡ []
  in_order :
      w.message_errors ≡ 0
      → (cid : Str)
      → of cid w.handled ++ of cid (queue w.client_workers (fnv32 cid % n)) ≡ of cid w.received
  own_queue : (i : ℕ) (cid : Str) → i ≢ fnv32 cid % n → of cid (queue w.client_workers i) ≡ []

queue-copies : (n i : ℕ) → queue (copies n []) i ≡ []
unfolding queue copies
queue-copies zero i = refl
queue-copies (suc n) zero = refl
queue-copies (suc n) (suc i) = queue-copies n i

length-copies : (n : ℕ) → length (copies {A = List MsgPack} n []) ≡ n
unfolding copies
length-copies zero = refl
length-copies (suc n) = ap suc (length-copies n)

new_workers-IsOrdered : (n : ℕ) → IsOrdered n (new_workers n)
unfolding new_workers of
new_workers-IsOrdered n = record {
  width = length-copies n;
  none_aside = λ e. refl;
  in_order = λ e cid. ap (of cid) (queue-copies n (fnv32 cid % n));
  own_queue = λ i cid h. ap (of cid) (queue-copies n i);
}

append_not_nil :
    (before : List MsgPack) (body : MsgPack) (after : List MsgPack)
    → ¬ (before ++ (body ∷ after) ≡ [])
append_not_nil [] body after e = cc
append_not_nil (x ∷ before) body after e = cc

-- The queue that is updated, and another one.
queue-update_at_cases :
    (i j : ℕ) (f : List MsgPack → List MsgPack) (qs : List (List MsgPack))
    → i < length qs
    → ((i ≡ j) × (queue (update_at i f qs) j ≡ f (queue qs j)))
      ⊎ ((i ≢ j) × (queue (update_at i f qs) j ≡ queue qs j))
queue-update_at_cases i j f qs h = elim (ℕ_discrete i j) [
  | yes e ↦ inl (e, rw (sym e) (queue-update_at i f qs h))
  | no e ↦ inr (e, queue-update_at_other i j f qs e)
]

module _ (n : ℕ) (w : Workers) (body : MsgPack) (o : IsOrdered n w) where
  -- A message that its queue takes.
  abbrev enqueued : Workers
  enqueued = record w {
    received = w.received ++ (body ∷ []);
    client_workers = update_at (fnv32 body.cid % n) (λ q. q ++ (body ∷ [])) w.client_workers;
  }

  enqueued_own :
      (cid : Str)
      → fnv32 body.cid % n < length w.client_workers
      → of cid (queue enqueued.client_workers (fnv32 cid % n))
        ≡ of cid (queue w.client_workers (fnv32 cid % n)) ++ of cid (body ∷ [])
  enqueued_own cid h =
      let k = fnv32 body.cid % n in
      let j = fnv32 cid % n in
      let q = queue w.client_workers j in
      elim (queue-update_at_cases k j (λ q. q ++ (body ∷ [])) w.client_workers h) [
        | inl (e, there) ↦ ap (of cid) there ∙ of-append cid q (body ∷ [])
        | inr (e, same) ↦
            ap (of cid) same
            ∙ sym (append-nil (of cid q))
            ∙ ap (◌++◌ (of cid q))
                (sym (of-other cid body (λ c. e (ap (λ (x : Str). fnv32 x % n) c))))
      ]

  enqueued_other :
      (i : ℕ) (cid : Str)
      → fnv32 body.cid % n < length w.client_workers
      → i ≢ fnv32 cid % n
      → of cid (queue enqueued.client_workers i) ≡ []
  enqueued_other i cid h other =
      let k = fnv32 body.cid % n in
      let q = queue w.client_workers i in
      elim (queue-update_at_cases k i (λ q. q ++ (body ∷ [])) w.client_workers h) [
        | inl (e, there) ↦
            ap (of cid) there
            ∙ of-append cid q (body ∷ [])
            ∙ ap (λ (x : List MsgPack). x ++ of cid (body ∷ [])) (o.own_queue i cid other)
            ∙ of-other cid body (λ c. other (sym e ∙ ap (λ (x : Str). fnv32 x % n) c))
        | inr (e, same) ↦ ap (of cid) same ∙ o.own_queue i cid other
      ]

  enqueued-IsOrdered : fnv32 body.cid % n < length w.client_workers → IsOrdered n enqueued
  enqueued-IsOrdered h = record {
    width =
        length-update_at (fnv32 body.cid % n) (λ q. q ++ (body ∷ [])) w.client_workers ∙ o.width;
    none_aside = o.none_aside;
    in_order = λ fine cid.
        ap (◌++◌ (of cid w.handled)) (enqueued_own cid h)
        ∙ sym (append_assoc (of cid w.handled) _ (of cid (body ∷ [])))
        ∙ ap (λ (x : List MsgPack). x ++ of cid (body ∷ [])) (o.in_order fine cid)
        ∙ sym (of-append cid w.received (body ∷ []));
    own_queue = λ i cid other. enqueued_other i cid h other;
  }

  dispatch-IsOrdered : 0 < n → IsOrdered n (dispatch w body)
  unfolding dispatch worker_id
  dispatch-IsOrdered positive =
      let k = fnv32 body.cid % n in
      let refused = record w {
        received = w.received ++ (body ∷ []);
        message_errors = w.message_errors + 1;
        spawned = w.spawned ++ (body ∷ []);
      } in
      rw o.width (
        if_both (IsOrdered n) (ltb (length (queue w.client_workers k)) queue_capacity) enqueued
          refused (enqueued-IsOrdered (rw o.width (mod-lt (fnv32 body.cid) positive)))
          (record {
            width = o.width;
            none_aside = λ bad. absurd (omega arith);
            in_order = λ bad cid. absurd (omega arith);
            own_queue = o.own_queue;
          }))

  -- A message that its worker decodes.
  module _ (i : ℕ) (rest : List MsgPack) (e : queue w.client_workers i ≡ body ∷ rest) where
    abbrev decoded : Workers
    decoded = record w {
      client_workers = update_at i (λ q. rest) w.client_workers;
      handled = w.handled ++ (body ∷ []);
    }

    decoded_cases :
        (j : ℕ)
        → ((i ≡ j) × (queue decoded.client_workers j ≡ rest))
          ⊎ ((i ≢ j) × (queue decoded.client_workers j ≡ queue w.client_workers j))
    decoded_cases j =
        queue-update_at_cases i j (λ q. rest) w.client_workers
          (queue_in_range w.client_workers i body rest e)

    decoded_order :
        (cid : Str)
        → of cid decoded.handled ++ of cid (queue decoded.client_workers (fnv32 cid % n))
          ≡ of cid w.handled ++ of cid (queue w.client_workers (fnv32 cid % n))
    decoded_order cid =
        let j = fnv32 cid % n in
        let one = of cid (body ∷ []) in
        let start : of cid decoded.handled ≡ of cid w.handled ++ one =
          of-append cid w.handled (body ∷ []) in
        elim (decoded_cases j) [
          | inl (here, now) ↦
              ap (λ (x : List MsgPack). x ++ of cid (queue decoded.client_workers j)) start
              ∙ append_assoc (of cid w.handled) one (of cid (queue decoded.client_workers j))
              ∙ ap (◌++◌ (of cid w.handled)) (
                  ap (λ (q : List MsgPack). one ++ of cid q) now
                  ∙ sym (of-append cid (body ∷ []) rest)
                  ∙ ap (of cid) (sym e ∙ ap (queue w.client_workers) here))
          | inr (other, same) ↦
              let none = (of-nil cid body rest (ap (of cid) (sym e) ∙ o.own_queue i cid other)).0 in
              ap (λ (q : List MsgPack). of cid decoded.handled ++ of cid q) same
              ∙ ap (λ (x : List MsgPack). x ++ of cid (queue w.client_workers j))
                  (start ∙ ap (◌++◌ (of cid w.handled)) none ∙ append-nil (of cid w.handled))
        ]

    decoded_other :
        (j : ℕ) (cid : Str) → j ≢ fnv32 cid % n → of cid (queue decoded.client_workers j) ≡ []
    decoded_other j cid other = elim (decoded_cases j) [
      | inl (here, now) ↦
          ap (of cid) now
          ∙ (of-nil cid body rest
              (ap (of cid) (sym e) ∙ o.own_queue i cid (λ c. other (sym here ∙ c)))).1
      | inr (elsewhere, same) ↦ ap (of cid) same ∙ o.own_queue j cid other
    ]

    worked-IsOrdered : IsOrdered n decoded
    worked-IsOrdered = record {
      width = length-update_at i (λ q. rest) w.client_workers ∙ o.width;
      none_aside = o.none_aside;
      in_order = λ fine cid. decoded_order cid ∙ o.in_order fine cid;
      own_queue = decoded_other;
    }

  aside-IsOrdered :
      (before after : List MsgPack)
      → w.spawned ≡ before ++ (body ∷ after)
      → IsOrdered n (record w { spawned = before ++ after; handled = w.handled ++ (body ∷ []) })
  aside-IsOrdered before after e =
      let some_aside : ¬ (w.message_errors ≡ 0) =
        λ fine. append_not_nil before body after (sym e ∙ o.none_aside fine) in
      record {
        width = o.width;
        none_aside = λ fine. absurd (some_aside fine);
        in_order = λ fine cid. absurd (some_aside fine);
        own_queue = o.own_queue;
      }

Step-IsOrdered : (n : ℕ) (w w' : Workers) → 0 < n → IsOrdered n w → Step w w' → IsOrdered n w'
Step-IsOrdered n w w' h o (dispatched body) = dispatch-IsOrdered n w body o h
Step-IsOrdered n w w' h o (worked i body rest e) = worked-IsOrdered n w body o i rest e
Step-IsOrdered n w w' h o (aside before after body e) = aside-IsOrdered n w body o before after e

all-IsOrdered : (n : ℕ) (w : Workers) → 0 < n → Reaches n w → IsOrdered n w
all-IsOrdered n w h start = new_workers-IsOrdered n
all-IsOrdered n w h (onward {w = before} r step) =
    Step-IsOrdered n before w h (all-IsOrdered n before h r) step

-- The messages of a connection are decoded in the order in which they were read, whatever the workers
-- and the other connections do, as long as no queue was full: those that were decoded, and then those in
-- the queue of the connection's worker, are those that were read from it.
pub handled_in_order :
    (n : ℕ) (w : Workers) (cid : Str)
    → 0 < n
    → Reaches n w
    → w.message_errors ≡ 0
    → of cid w.handled ++ of cid (queue w.client_workers (worker_id w cid)) ≡ of cid w.received
unfolding worker_id
handled_in_order n w cid h r fine =
    let o = all-IsOrdered n w h r in rw o.width (o.in_order fine cid)
