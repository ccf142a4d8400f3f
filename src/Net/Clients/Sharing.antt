-- ===== src/Net/Clients/Sharing.antt =====
-- The managers that can be reached, and the data that all sessions share.
use mathlib.Core.Option
use mathlib.Core.Option.{some_inj}
use mathlib.Core.Path.{subst}
use recreation_test.Base.{
  ℕ, zero, suc, ◌≡◌, refl, ap, sym, ◌∙◌, true, false, ◌==◌, if◌then◌else◌, List, [], ◌∷◌, length,
  get_elem?, Option, none, some, Str, str_eq, str_eq_iff, lookup, insert, lookup-insert, string_eq,
  arith, Bool-cases, Option-cases, inl, inr, All, if_both,
}
use recreation_test.Base.Int.{to_int32}
use recreation_test.Net.Session.{Session, write_all, set_all_body, set_data_body}
use recreation_test.Net.Clients.{
  WsConnection, Manager, SessionData, bucket_index, update_at, copies, find_client, new_manager,
  add_client, remove_client, close_client, close_write_chan, close_connection, set_single_data,
  set_all_data, store_all, spread_all, set_own_data, set_session_data, with_all, get_bucket,
  or_empty,
}
use recreation_test.Net.Clients.Maps.{
  AreDistinct, AreDistinct-insert, All-map_clients, total, lookup-update, find_client-mapped,
}
use recreation_test.Net.Clients.Invariant.{
  IsWellFormed, welcomed, add_client-IsWellFormed, close_client-IsWellFormed,
  close_write_chan-IsWellFormed, set_single_data-IsWellFormed, remove_client-returns,
  add_client_cases,
}

copies-empty {ℓ} :
    (V : Type ℓ) (n : ℕ)
    → let none_known : List (List (Str × WsConnection V)) = copies n [] in
      All AreDistinct none_known × (total none_known ≡ 0) × (length none_known ≡ n)
unfolding copies
copies-empty V zero = (tt, refl, refl)
copies-empty V (suc n) = let (a, t, l) = copies-empty V n in ((tt, a), omega (arith, t), ap suc l)

module _ {ℓ} {V : Type ℓ} where
  AreDistinct-write_all : (new m : List (Str × V)) → AreDistinct m → AreDistinct (write_all new m)
  unfolding write_all
  AreDistinct-write_all [] m d = d
  AreDistinct-write_all ((k, v) ∷ new) m d =
      AreDistinct-write_all new (insert k v m) (AreDistinct-insert k v m d)

  -- The later of two maps wins.
  abbrev pub either : Option V → Option V → Option V
  either none o = o
  either (some v) o = some v

  pub either-none : (o : Option V) → either o none ≡ o
  either-none none = refl
  either-none (some v) = refl

  pub lookup-write_all :
      (new m : List (Str × V)) (k : Str)
      → AreDistinct new
      → lookup k (write_all new m) ≡ either (lookup k new) (lookup k m)
  unfolding write_all lookup
  lookup-write_all [] m k d = refl
  lookup-write_all ((j, v) ∷ new) m k (fresh, d) = elim (Bool-cases (str_eq j k)) [
    | inl same ↦
        let e : j ≡ k = (str_eq_iff j k).0 same in
        let gone : lookup k new ≡ none = ap (λ (t : Str). lookup t new) (sym e) ∙ fresh in
        ground (arith, lookup-write_all new (insert j v m) k d, lookup-insert j k v m, gone)
    | inr other ↦ ground (arith, lookup-write_all new (insert j v m) k d, lookup-insert j k v m)
  ]

  -- Two maps with the same entries have the same entries after the same writes.
  write_all-same :
      (new a b : List (Str × V))
      → ((k : Str) → lookup k a ≡ lookup k b)
      → (k : Str) → lookup k (write_all new a) ≡ lookup k (write_all new b)
  unfolding write_all
  write_all-same [] a b h k = h k
  write_all-same ((j, v) ∷ new) a b h k =
      write_all-same new (insert j v a) (insert j v b)
        (λ i.
          lookup-insert j i v a
          ∙ ap (λ (o : Option V). if str_eq j i then some v else o) (h i)
          ∙ sym (lookup-insert j i v b))
        k

  -- Every connection that is known and open has the shared data in its session.
  pub record IsShared (m : Manager V) : Type ℓ where
    pub distinct : AreDistinct m.shared
    pub same :
        (cid : Str) (c : WsConnection V)
        → find_client m cid ≡ some c
        → c.closed ≡ false
        → (k : Str) → lookup k c.session.all ≡ lookup k m.shared

  pub data Reaches : Manager V → Type ℓ where
    started : (max_conn : ℕ) → Reaches (new_manager {V = V} max_conn)
    joined :
        (m : Manager V) (client : WsConnection V)
        → Reaches m
        → find_client m client.session.cid ≡ none
        → client.session.all ≡ []
        → Reaches (add_client m client).1
    left : (m m' : Manager V) (cid : Str) → Reaches m → remove_client m cid ≡ some m' → Reaches m'
    dropped : (m : Manager V) (cid : Str) → Reaches m → Reaches (close_client m cid)
    unwritten : (m : Manager V) (cid : Str) → Reaches m → Reaches (close_write_chan m cid)
    told :
        (m : Manager V) (cid uid : Str) (d : Option (SessionData V))
        → Reaches m
        → Reaches (set_session_data m cid uid d)

  set_all_data-IsWellFormed :
      (m : Manager V) (new : List (Str × V)) → IsWellFormed m → IsWellFormed (set_all_data m new)
  unfolding set_all_data store_all spread_all
  set_all_data-IsWellFormed m new w =
      let (distinct, sizes, width) = All-map_clients (with_all new) m.client_buckets w.distinct in
      record {
        width = width ∙ w.width;
        distinct = distinct;
        slots = w.slots ∙ sym sizes;
        counter = w.counter ∙ ap to_int32 (sym sizes);
        bounded = w.bounded;
      }

  set_own_data-IsWellFormed :
      (m : Manager V) (cid uid : Str) (o : Option (List (Str × V)))
      → IsWellFormed m
      → IsWellFormed (set_own_data m cid uid o)
  unfolding set_own_data
  set_own_data-IsWellFormed m cid uid none w = w
  set_own_data-IsWellFormed m cid uid (some new) w =
      if_both IsWellFormed (length cid == 0) m (set_single_data m cid uid new) w
        (set_single_data-IsWellFormed m w cid uid new)

  set_session_data-IsWellFormed :
      (m : Manager V) (cid uid : Str) (d : Option (SessionData V))
      → IsWellFormed m
      → IsWellFormed (set_session_data m cid uid d)
  unfolding set_session_data
  set_session_data-IsWellFormed m cid uid none w = w
  set_session_data-IsWellFormed m cid uid (some d) w =
      let m' = set_own_data m cid uid d.single_data in
      let w' = set_own_data-IsWellFormed m cid uid d.single_data w in
      if_both IsWellFormed (length d.all_data == 0) m' (set_all_data m' d.all_data) w'
        (set_all_data-IsWellFormed m' d.all_data w')

  new_manager-IsWellFormed : (max_conn : ℕ) → IsWellFormed (new_manager {V = V} max_conn)
  unfolding new_manager
  new_manager-IsWellFormed max_conn =
      let (a, t, l) = copies-empty V 32 in
      record {
        width = l;
        distinct = a;
        slots = sym t;
        counter = omega (arith, t);
        bounded = omega arith;
      }

  -- In every manager that is reached from a new one by connections that come with ids not in use, that
  -- go, that are closed or whose writer ends, and by session data from other servers, the slots that are
  -- taken and the counter, as an `int32`, are the number of known connections, and it is at most the maximum.
  pub Reaches-IsWellFormed : (m : Manager V) → Reaches m → IsWellFormed m
  Reaches-IsWellFormed m (started max_conn) = new_manager-IsWellFormed max_conn
  Reaches-IsWellFormed m (joined m0 client r fresh new) =
      add_client-IsWellFormed m0 (Reaches-IsWellFormed m0 r) client fresh
  Reaches-IsWellFormed m (left m0 m' cid r e) =
      let (next, found, w, kept, others) =
        remove_client-returns m0 cid (Reaches-IsWellFormed m0 r) in
      let same : next ≡ m' = ground (arith, found, e) in subst IsWellFormed same w
  Reaches-IsWellFormed m (dropped m0 cid r) =
      close_client-IsWellFormed m0 (Reaches-IsWellFormed m0 r) cid
  Reaches-IsWellFormed m (unwritten m0 cid r) =
      close_write_chan-IsWellFormed m0 (Reaches-IsWellFormed m0 r) cid
  Reaches-IsWellFormed m (told m0 cid uid d r) =
      set_session_data-IsWellFormed m0 cid uid d (Reaches-IsWellFormed m0 r)

  -- A manager that differs from a shared one in the entry of one id.
  replaced-IsShared :
      (m m' : Manager V) (cid : Str) (new : Option (WsConnection V))
      → IsShared m
      → m'.shared ≡ m.shared
      → ((j : Str) → find_client m' j ≡ (if str_eq cid j then new else find_client m j))
      → ((c : WsConnection V)
          → new ≡ some c
          → c.closed ≡ false
          → (k : Str) → lookup k c.session.all ≡ lookup k m.shared)
      → IsShared m'
  replaced-IsShared m m' cid new s kept found fine = record {
    distinct = subst AreDistinct (sym kept) s.distinct;
    same = λ j c e h k. elim (Bool-cases (str_eq cid j)) [
      | inl same ↦ fine c (ground (arith, found j, e)) h k ∙ ap (lookup k) (sym kept)
      | inr other ↦ s.same j c (ground (arith, found j, e)) h k ∙ ap (lookup k) (sym kept)
    ];
  }

  module _ (m : Manager V) (w : IsWellFormed m) (s : IsShared m) where
    add_client-shared : (client : WsConnection V) → (add_client m client).1.shared ≡ m.shared
    unfolding add_client
    add_client-shared client = ground arith

    welcomed-all :
        (client : WsConnection V)
        → client.session.all ≡ []
        → (k : Str) → lookup k (welcomed m client).session.all ≡ lookup k m.shared
    unfolding set_all_body lookup
    welcomed-all client new k =
        lookup-write_all m.shared client.session.all k s.distinct
        ∙ ap (λ (a : List (Str × V)). either (lookup k m.shared) (lookup k a)) new
        ∙ either-none (lookup k m.shared)

    joined-IsShared :
        (client : WsConnection V) → client.session.all ≡ [] → IsShared (add_client m client).1
    joined-IsShared client new = elim (Bool-cases (total m.client_buckets == m.max_connections)) [
      | inl full ↦
          let refused = (add_client_cases m client w).0 (ground arith) in
          subst IsShared (sym (ap (λ (r : WsConnection V × Manager V). r.1) refused)) s
      | inr room ↦
          let (stored, found) = (add_client_cases m client w).1 (ground arith) in
          replaced-IsShared m (add_client m client).1 client.session.cid (some (welcomed m client))
            s (add_client-shared client) found
            (λ c e h k.
              subst (λ (d : WsConnection V). lookup k d.session.all ≡ lookup k m.shared)
                (some_inj.0 e) (welcomed-all client new k))
    ]

    inserted-IsShared :
        (cid : Str) (c : WsConnection V)
        → (c.closed ≡ false → (k : Str) → lookup k c.session.all ≡ lookup k m.shared)
        → IsShared (record m {
          client_buckets = update_at (bucket_index cid) (insert cid c) m.client_buckets;
        })
    inserted-IsShared cid c fine =
        replaced-IsShared m _ cid (some c) s refl
          (λ j.
            lookup-update m w.width cid j (insert cid c) (some c) (λ b. lookup-insert cid j c b))
          (λ d e.
            subst
              (λ (x : WsConnection V).
                x.closed ≡ false → (k : Str) → lookup k x.session.all ≡ lookup k m.shared)
              (some_inj.0 e) fine)

    dropped-IsShared : (cid : Str) → IsShared (close_client m cid)
    unfolding close_client close_connection
    dropped-IsShared cid = elim (Option-cases (find_client m cid)) [
      | inl unknown ↦ rw (unknown, close_client) s
      | inr (c, old) ↦
          rw (old, close_client)
            (inserted-IsShared cid (close_connection c) (λ h. absurd (ground arith)))
    ]

    unwritten-IsShared : (cid : Str) → IsShared (close_write_chan m cid)
    unfolding close_write_chan
    unwritten-IsShared cid = elim (Option-cases (find_client m cid)) [
      | inl unknown ↦ rw (unknown, close_write_chan) s
      | inr (c, old) ↦
          rw (old, close_write_chan)
            (inserted-IsShared cid (record c { write_chan_closed = true }) (s.same cid c old))
    ]

    single-IsShared :
        (cid uid : Str) (new : List (Str × V)) → IsShared (set_single_data m cid uid new)
    unfolding set_single_data set_data_body
    single-IsShared cid uid new = elim (Option-cases (find_client m cid)) [
      | inl unknown ↦ rw (unknown, set_single_data) s
      | inr (c, old) ↦
          rw (old, set_single_data)
            (inserted-IsShared cid (record c { session = set_data_body uid new c.session })
              (λ h k.
                if_both (λ (t : Session V). lookup k t.all ≡ lookup k m.shared)
                  (str_eq c.session.uid uid) _ _ (s.same cid c old h k) (s.same cid c old h k)))
    ]

    told_client :
        (new : List (Str × V)) (cid : Str) (o : Option (WsConnection V))
        → find_client m cid ≡ o
        → (c : WsConnection V) → Option.map (with_all new) o ≡ some c
        → c.closed ≡ false
        → (k : Str) → lookup k c.session.all ≡ lookup k (write_all new m.shared)
    unfolding with_all set_all_body
    told_client new cid none known c e h k = absurd (cc)
    told_client new cid (some d) known c e h k =
        let same : with_all new d ≡ c = some_inj.0 e in
        subst
          (λ (x : WsConnection V).
            x.closed ≡ false → lookup k x.session.all ≡ lookup k (write_all new m.shared))
          same (λ open'. write_all-same new d.session.all m.shared (s.same cid d known open') k) h

    told_all-IsShared : (new : List (Str × V)) → IsShared (set_all_data m new)
    unfolding set_all_data store_all spread_all with_all set_all_body
    told_all-IsShared new = record {
      distinct = AreDistinct-write_all new m.shared s.distinct;
      same = λ cid c e h k.
          told_client new cid (find_client m cid) refl c
            (sym (find_client-mapped (with_all new) m (write_all new m.shared) cid) ∙ e) h k;
    }

  set_own_data-IsShared :
      (m : Manager V) (cid uid : Str) (o : Option (List (Str × V)))
      → IsWellFormed m
      → IsShared m
      → IsShared (set_own_data m cid uid o)
  unfolding set_own_data
  set_own_data-IsShared m cid uid none w s = s
  set_own_data-IsShared m cid uid (some new) w s =
      if_both IsShared (length cid == 0) m (set_single_data m cid uid new) s
        (single-IsShared m w s cid uid new)

  lookup-copies :
      (n i : ℕ) (cid : Str)
      → let none_known : List (List (Str × WsConnection V)) = copies n [] in
        lookup cid (or_empty (get_elem? none_known i)) ≡ none
  unfolding copies lookup
  lookup-copies zero i cid = refl
  lookup-copies (suc n) zero cid = refl
  lookup-copies (suc n) (suc i) cid = lookup-copies n i cid

  set_session_data-IsShared :
      (m : Manager V) (cid uid : Str) (d : Option (SessionData V))
      → IsWellFormed m
      → IsShared m
      → IsShared (set_session_data m cid uid d)
  unfolding set_session_data
  set_session_data-IsShared m cid uid none w s = s
  set_session_data-IsShared m cid uid (some d) w s =
      let m' = set_own_data m cid uid d.single_data in
      let w' = set_own_data-IsWellFormed m cid uid d.single_data w in
      let s' = set_own_data-IsShared m cid uid d.single_data w s in
      if_both IsShared (length d.all_data == 0) m' (set_all_data m' d.all_data) s'
        (told_all-IsShared m' w' s' d.all_data)

  pub find_client-new :
      (max_conn : ℕ) (cid : Str) → find_client (new_manager {V = V} max_conn) cid ≡ none
  unfolding find_client get_bucket new_manager lookup
  find_client-new max_conn cid = lookup-copies 32 (bucket_index cid) cid

  -- In every manager that is reached from a new one by calls that run one after another, by connections
  -- that come with ids not in use and with no shared data yet, that go, that are closed or whose writer
  -- ends, and by session data from other servers, each connection that is known and open has in its session
  -- the shared entries of the manager, key for key, however late it came.
  pub Reaches-IsShared : (m : Manager V) → Reaches m → IsShared m
  Reaches-IsShared m (started max_conn) = record {
    distinct = unfold new_manager in tt;
    same = λ cid c e. absurd (cc (find_client-new max_conn cid));
  }
  Reaches-IsShared m (joined m0 client r fresh new) =
      joined-IsShared m0 (Reaches-IsWellFormed m0 r) (Reaches-IsShared m0 r) client new
  Reaches-IsShared m (left m0 m' cid r e) =
      let (next, found, w, kept, others) =
        remove_client-returns m0 cid (Reaches-IsWellFormed m0 r) in
      let same : next ≡ m' = ground (arith, found, e) in
      subst IsShared same (
        replaced-IsShared m0 next cid none (Reaches-IsShared m0 r) kept others
          (λ c e'. absurd (cc)))
  Reaches-IsShared m (dropped m0 cid r) =
      dropped-IsShared m0 (Reaches-IsWellFormed m0 r) (Reaches-IsShared m0 r) cid
  Reaches-IsShared m (unwritten m0 cid r) =
      unwritten-IsShared m0 (Reaches-IsWellFormed m0 r) (Reaches-IsShared m0 r) cid
  Reaches-IsShared m (told m0 cid uid d r) =
      set_session_data-IsShared m0 cid uid d (Reaches-IsWellFormed m0 r) (Reaches-IsShared m0 r)
