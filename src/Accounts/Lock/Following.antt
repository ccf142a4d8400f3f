-- ===== src/Accounts/Lock/Following.antt =====
-- core/dao/user.go: what a step of one request does to the lock.
use mathlib.Core.Path.{subst}
use recreation_test.Base.{ℕ, ◌≡◌, ◌≢◌, refl, sym, ap, ◌∙◌, get_elem?, Option, none, some, Str}
use recreation_test.Accounts.Requests.{put_at, get_elem?-put_at}
use recreation_test.Accounts.Lock.{
  Users, IsCollection, Request, looking, adding, locking, holding, refused, missing, released,
  failed, found, advance, World, un_lock_user_data,
}
use recreation_test.Accounts.Lock.Exclusion.{
  Lock, open_lock, held, orphaned, LockStep, stay, acquire, release, abandon, orphan,
  OnlyHolder-enter, OnlyHolder-put_at, IsQuiet, Shows, owner_held, quiet_step, leave_open,
  leave_locked, lock_found, after_lock,
}

module _ {ℓ} {S : Type ℓ} (users : Users S) (sync_lock : Str → S → Option (Option ℕ))
    (laws : IsCollection users sync_lock) (uid : Str) where
  -- A step of the lock that leads to what the world shows.
  unfoldable pub Follows : Lock → World S → Type ℓ
  Follows l w = (l' : Lock) × LockStep l l' × Shows sync_lock uid l' w

  module _ (w : World S) (l : Lock) (t : Shows sync_lock uid l w) (i : ℕ) where
    quiet-Follows :
        (r r' : Request) (s' : S)
        → get_elem? w.requests i ≡ some r
        → r ≢ holding
        → IsQuiet r'
        → sync_lock uid s' ≡ sync_lock uid w.store
        → Follows l (record { store = s'; requests = put_at i r' w.requests })
    unfolding Follows
    quiet-Follows r r' s' e h quiet same =
        (l, stay l, quiet_step users sync_lock laws uid w l i r r' s' e h quiet same t)

    -- The request that has the lock is the owner.
    holder : get_elem? w.requests i ≡ some holding → l ≡ held i
    holder e = owner_held l i (t.only.only i e)

    released-Follows :
        (r' : Request)
        → get_elem? w.requests i ≡ some holding
        → IsQuiet r'
        → Follows l (record {
          store = users.set_sync_lock uid 0 w.store;
          requests = put_at i r' w.requests;
        })
    unfolding Follows
    released-Follows r' e quiet =
        let mine = holder e in
        (
          open_lock,
          subst (λ (k : Lock). LockStep k open_lock) (sym mine) (release i),
          leave_open users sync_lock laws uid w i r' quiet
              (subst (λ (k : Lock). Shows sync_lock uid k w) mine t),
        )

    abandoned-Follows :
        get_elem? w.requests i ≡ some holding
        → Follows l (record w { requests = put_at i failed w.requests })
    unfolding Follows IsQuiet
    abandoned-Follows e =
        let mine = holder e in
        (
          orphaned,
          subst (λ (k : Lock). LockStep k orphaned) (sym mine) (abandon i),
          leave_locked users sync_lock laws uid w i failed (λ e. cc, λ e. cc)
              (subst (λ (k : Lock). Shows sync_lock uid k w) mine t),
        )

    -- The first call finds the field.
    looked-Follows :
        get_elem? w.requests i ≡ some looking
        → Follows l (record {
          store = (advance users uid looking w.store).1;
          requests = put_at i (advance users uid looking w.store).0 w.requests;
        })
    unfolding advance IsQuiet
    looked-Follows e =
        let there : found users uid (users.find_sync_lock uid w.store) ≡ locking =
          ap (found users uid) (laws.find_lem uid w.store ∙ t.field) in
        rw there (quiet-Follows looking locking w.store e (λ e. cc) (λ e. cc, λ e. cc) refl)

  -- The call that takes the lock.
  locked-Follows :
      (w : World S) (l : Lock) (t : Shows sync_lock uid l w) (i : ℕ)
      → get_elem? w.requests i ≡ some locking
      → Follows l (record {
        store = (advance users uid locking w.store).1;
        requests = put_at i (advance users uid locking w.store).0 w.requests;
      })
  unfolding advance IsQuiet Follows
  locked-Follows w open_lock t i e =
      let (answer, field) = lock_found users sync_lock laws uid w open_lock t in
      rw answer (
        held i,
        acquire i,
        record {
          field = field;
          only = OnlyHolder-enter i w.requests t.only;
          there = get_elem?-put_at i locking holding w.requests e;
        },
      )
  locked-Follows w (held k) t i e =
      let (answer, field) = lock_found users sync_lock laws uid w (held k) t in
      rw answer (
        quiet-Follows w (held k) t i locking refused (after_lock users sync_lock laws uid w) e
          (λ e. cc) (λ e. cc, λ e. cc) (field ∙ sym t.field))
  locked-Follows w orphaned t i e =
      let (answer, field) = lock_found users sync_lock laws uid w orphaned t in
      rw answer (
        quiet-Follows w orphaned t i locking refused (after_lock users sync_lock laws uid w) e
          (λ e. cc) (λ e. cc, λ e. cc) (field ∙ sym t.field))

  -- The reply of that call is lost.
  lost-Follows :
      (w : World S) (l : Lock) (t : Shows sync_lock uid l w) (i : ℕ)
      → get_elem? w.requests i ≡ some locking
      → Follows l (record {
        store = (advance users uid locking w.store).1;
        requests = put_at i failed w.requests;
      })
  unfolding advance IsQuiet Follows
  lost-Follows w open_lock t i e =
      let (answer, field) = lock_found users sync_lock laws uid w open_lock t in
      (
        orphaned,
        orphan,
        record {
          field = field;
          only = OnlyHolder-put_at none i failed w.requests (λ e. cc, λ e. cc) t.only;
          there = tt;
        },
      )
  lost-Follows w (held k) t i e =
      let (answer, field) = lock_found users sync_lock laws uid w (held k) t in
      quiet-Follows w (held k) t i locking failed (after_lock users sync_lock laws uid w) e
        (λ e. cc) (λ e. cc, λ e. cc) (field ∙ sym t.field)
  lost-Follows w orphaned t i e =
      let (answer, field) = lock_found users sync_lock laws uid w orphaned t in
      quiet-Follows w orphaned t i locking failed (after_lock users sync_lock laws uid w) e
        (λ e. cc) (λ e. cc, λ e. cc) (field ∙ sym t.field)

  module _ (w : World S) (l : Lock) (t : Shows sync_lock uid l w) (i : ℕ) where
    pub moved-Follows :
        (r : Request)
        → get_elem? w.requests i ≡ some r
        → Follows l (record {
          store = (advance users uid r w.store).1;
          requests = put_at i (advance users uid r w.store).0 w.requests;
        })
    moved-Follows looking e = looked-Follows w l t i e
    moved-Follows adding e = absurd (t.only.looked i e)
    moved-Follows locking e = locked-Follows w l t i e
    moved-Follows holding e =
        unfold advance un_lock_user_data IsQuiet in
        released-Follows w l t i released e (λ e. cc, λ e. cc)
    moved-Follows refused e =
        unfold advance IsQuiet in
        quiet-Follows w l t i refused refused w.store e (λ e. cc) (λ e. cc, λ e. cc) refl
    moved-Follows missing e =
        unfold advance IsQuiet in
        quiet-Follows w l t i missing missing w.store e (λ e. cc) (λ e. cc, λ e. cc) refl
    moved-Follows released e =
        unfold advance IsQuiet in
        quiet-Follows w l t i released released w.store e (λ e. cc) (λ e. cc, λ e. cc) refl
    moved-Follows failed e =
        unfold advance IsQuiet in
        quiet-Follows w l t i failed failed w.store e (λ e. cc) (λ e. cc, λ e. cc) refl

    -- A request that is not the holder fails, and the field stays.
    failed-Follows :
        (r : Request)
        → get_elem? w.requests i ≡ some r
        → r ≢ holding
        → Follows l (record w { requests = put_at i failed w.requests })
    unfolding IsQuiet
    failed-Follows r e h = quiet-Follows w l t i r failed w.store e h (λ e. cc, λ e. cc) refl

    pub broken-Follows :
        (r : Request)
        → get_elem? w.requests i ≡ some r
        → Follows l (record w { requests = put_at i failed w.requests })
    broken-Follows looking e = failed-Follows looking e (λ e. cc)
    broken-Follows adding e = failed-Follows adding e (λ e. cc)
    broken-Follows locking e = failed-Follows locking e (λ e. cc)
    broken-Follows holding e = abandoned-Follows w l t i e
    broken-Follows refused e = failed-Follows refused e (λ e. cc)
    broken-Follows missing e = failed-Follows missing e (λ e. cc)
    broken-Follows released e = failed-Follows released e (λ e. cc)
    broken-Follows failed e = failed-Follows failed e (λ e. cc)

    pub dropped-Follows :
        (r : Request)
        → get_elem? w.requests i ≡ some r
        → Follows l (record {
          store = (advance users uid r w.store).1;
          requests = put_at i failed w.requests;
        })
    dropped-Follows looking e = unfold advance in failed-Follows looking e (λ e. cc)
    dropped-Follows adding e = absurd (t.only.looked i e)
    dropped-Follows locking e = lost-Follows w l t i e
    dropped-Follows holding e =
        unfold advance un_lock_user_data IsQuiet in
        released-Follows w l t i failed e (λ e. cc, λ e. cc)
    dropped-Follows refused e = unfold advance in failed-Follows refused e (λ e. cc)
    dropped-Follows missing e = unfold advance in failed-Follows missing e (λ e. cc)
    dropped-Follows released e = unfold advance in failed-Follows released e (λ e. cc)
    dropped-Follows failed e = unfold advance in failed-Follows failed e (λ e. cc)
