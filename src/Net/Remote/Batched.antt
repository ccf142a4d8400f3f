-- ===== src/Net/Remote/Batched.antt =====
-- framework/net/ws_manager.go: the runs of batches whose messages each write to clients, whatever order the
-- goroutines of a batch run in.
use mathlib.Core.Path.{subst}
use mathlib.Core.List.{Perm, append_assoc, append-nil, perm_append_comm}
use mathlib.Core.List.Perm
use recreation_test.Base.{
  ℕ, ◌≡◌, refl, sym, ap, ◌∙◌, List, [], ◌∷◌, ◌++◌, Str, Outcome, ok, panic, All,
}
use recreation_test.Net.Session.{Wait}
use recreation_test.Net.Clients.{Manager}
use recreation_test.Net.Batches.Delivery.{join}
use recreation_test.Net.Remote.{
  Remote, Takes, here, there, RunsBatch, all_done, next, stops, RunsBatches, no_more, one_more,
  broken,
}

module _ {κ} {A : Type κ} (out : A → List (Str × List ℕ)) where
  -- What all the messages write, in their order.
  abbrev pub outputs : List A → List (Str × List ℕ)
  outputs [] = []
  outputs (x ∷ xs) = out x ++ outputs xs

  outputs-append : (xs ys : List A) → outputs (xs ++ ys) ≡ outputs xs ++ outputs ys
  outputs-append [] ys = refl
  outputs-append (x ∷ xs) ys =
      ap (◌++◌ (out x)) (outputs-append xs ys)
      ∙ sym (append_assoc (out x) (outputs xs) (outputs ys))

  outputs-Takes :
      (batch rest : List A) (x : A)
      → Takes batch x rest
      → Perm (out x ++ outputs rest) (outputs batch)
  outputs-Takes batch rest x (here y xs) = Perm.refl _
  outputs-Takes batch rest x (there y z xs others t) =
      let one = out x in
      let two = out y in
      let swapped : Perm (one ++ (two ++ outputs others)) (two ++ (one ++ outputs others)) =
        subst (λ l. Perm l (two ++ (one ++ outputs others))) (append_assoc one two (outputs others))
          (subst (λ l. Perm ((one ++ two) ++ outputs others) l)
            (append_assoc two one (outputs others))
            (Perm.append_right (outputs others) (perm_append_comm one two))) in
      Perm.trans swapped (Perm.append_left two (outputs-Takes xs others x t))

module _ {κ μ} {A : Type κ} (P : A → Type μ) where
  All-Takes : (batch rest : List A) (x : A) → Takes batch x rest → All P batch → P x × All P rest
  All-Takes batch rest x (here y xs) (p, all) = (p, all)
  All-Takes batch rest x (there y z xs others t) (p, all) =
      let (px, left) = All-Takes xs others x t all in (px, (p, left))

  All-split : (xs ys : List A) → All P (xs ++ ys) → All P xs × All P ys
  All-split [] ys all = (tt, all)
  All-split (x ∷ xs) ys (p, all) = let (first, later) = All-split xs ys all in ((p, first), later)

module _ {ℓ} {V : Type ℓ} where
  -- The state with more that was written.
  abbrev pub give : Remote V → List (Str × List ℕ) → Remote V
  give s more = record s { written = s.written ++ more }

  give-give : (s : Remote V) (a b : List (Str × List ℕ)) → give (give s a) b ≡ give s (a ++ b)
  give-give s a b =
      ap (λ (w : List (Str × List ℕ)). record s { written = w }) (append_assoc s.written a b)

  give-nil : (s : Remote V) → s ≡ give s []
  give-nil s =
      ap (λ (w : List (Str × List ℕ)). record s { written = w }) (sym (append-nil s.written))

  -- A run that ends with these packets written, in some order.
  unfoldable pub Gives : Remote V → List (Str × List ℕ) → Outcome Wait (Remote V) → Type ℓ
  Gives s target r = (more : List (Str × List ℕ)) × (r ≡ ok (give s more)) × Perm more target

  Gives-more :
      (s s' : Remote V) (first target all : List (Str × List ℕ)) (r : Outcome Wait (Remote V))
      → s' ≡ give s first
      → Gives s' target r
      → Perm (first ++ target) all
      → Gives s all r
  unfolding Gives
  Gives-more s s' first target all r e (more, ended, p) q = (
    first ++ more,
    ended ∙ ap (λ (t : Remote V). ok (give t more)) e ∙ ap ok (give-give s first more),
    Perm.trans (Perm.append_left first p) q,
  )

  ok_inj : (s t : Remote V) → ◌≡◌ {A = Outcome Wait (Remote V)} (ok s) (ok t) → s ≡ t
  ok_inj s t e = cc

module _ {ℓ κ μ} {V : Type ℓ} {A : Type κ} (h : Remote V → A → Outcome Wait (Remote V))
    (out : A → List (Str × List ℕ)) (P : A → Type μ) (m : Manager V)
    (step : (s : Remote V) (x : A) → s.manager ≡ m → P x → h s x ≡ ok (give s (out x))) where
  RunsBatch-Gives :
      (batch : List A) (s : Remote V) (r : Outcome Wait (Remote V))
      → s.manager ≡ m
      → All P batch
      → RunsBatch h batch s r
      → Gives s (outputs out batch) r
  unfolding Gives
  RunsBatch-Gives batch s r same all (all_done s0) = ([], ap ok (give-nil s), Perm.nil)
  RunsBatch-Gives batch s r same all (next b rest x s0 s' r0 t e run) =
      let (px, left) = All-Takes P batch rest x t all in
      let moved : s' ≡ give s (out x) = ok_inj s' _ (sym e ∙ step s x same px) in
      Gives-more s s' (out x) (outputs out rest) (outputs out batch) r moved
        (RunsBatch-Gives rest s' r (ap Remote.manager moved ∙ same) left run)
        (outputs-Takes out batch rest x t)
  RunsBatch-Gives batch s r same all (stops b rest x s0 t e) =
      let (px, left) = All-Takes P batch rest x t all in absurd (cc (e, step s x same px))

  Runs_in_order :
      (batch : List A) (s : Remote V)
      → s.manager ≡ m
      → All P batch
      → (s' : Remote V) × RunsBatch h batch s (ok s') × (s'.manager ≡ m)
  Runs_in_order [] s same all = (s, all_done s, same)
  Runs_in_order (x ∷ xs) s same (p, all) =
      let (s', run, kept) = Runs_in_order xs (give s (out x)) same all in
      (s', next (x ∷ xs) xs x s _ (ok s') (here x xs) (step s x same p) run, kept)

  pub RunsBatches-Gives :
      (batches : List (List A)) (s : Remote V) (r : Outcome Wait (Remote V))
      → s.manager ≡ m
      → All P (join batches)
      → RunsBatches h batches s r
      → Gives s (outputs out (join batches)) r
  unfolding Gives join
  RunsBatches-Gives batches s r same all (no_more s0) = ([], ap ok (give-nil s), Perm.nil)
  RunsBatches-Gives batches s r same all (one_more batch rest s0 s' r0 run runs) =
      let (first, later) = All-split P batch (join rest) all in
      let (more, ended, p) = RunsBatch-Gives batch s (ok s') same first run in
      let moved : s' ≡ give s more = ok_inj s' _ ended in
      Gives-more s s' more (outputs out (join rest)) _ r moved
        (RunsBatches-Gives rest s' r (ap Remote.manager moved ∙ same) later runs)
        (subst (λ l. Perm (more ++ outputs out (join rest)) l)
          (sym (outputs-append out batch (join rest)))
          (Perm.append_right (outputs out (join rest)) p))
  RunsBatches-Gives batches s r same all (broken batch rest s0 run) =
      let (first, later) = All-split P batch (join rest) all in
      let (more, ended, p) = RunsBatch-Gives batch s panic same first run in absurd (cc ended)

  pub Batches_in_order :
      (batches : List (List A)) (s : Remote V)
      → s.manager ≡ m
      → All P (join batches)
      → (s' : Remote V) × RunsBatches h batches s (ok s')
  unfolding join
  Batches_in_order [] s same all = (s, no_more s)
  Batches_in_order (batch ∷ rest) s same all =
      let (first, later) = All-split P batch (join rest) all in
      let (s1, run, kept) = Runs_in_order batch s same first in
      let (s2, runs) = Batches_in_order rest s1 kept later in
      (s2, one_more batch rest s s1 (ok s2) run runs)
