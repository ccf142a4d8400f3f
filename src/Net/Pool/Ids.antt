-- ===== src/Net/Pool/Ids.antt =====
-- The ids that `Get` gives.
use mathlib.Core.List.{append_assoc, append-nil}
use recreation_test.Base.{
  ℕ, ◌+◌, ◌^◌, ◌<◌, ◌≤◌, ◌≡◌, ◌≢◌, refl, sym, ap, ◌∙◌, ◌==◌, if◌then◌else◌, List, [], ◌∷◌, ◌++◌,
  length, Str, arith, All, false,
}
use recreation_test.Base.Decimal.{decimal, IsDigit, decimal-All, decimal_inj}
use recreation_test.Base.Text.{IsFree}
use recreation_test.Net.Pool.{
  get, initialize, make_cid, next_base, Process, Step, opened, put_back, dropped, Reaches, start,
  onward, first_base,
}

-- What stands behind the last dash; `seen` is what was read since the one before.
after_last : Str → Str → Str
after_last seen [] = seen
after_last seen (c ∷ rest) = after_last (if c == b'-' then [] else seen ++ (c ∷ [])) rest

after_last-free : (seen s : Str) → IsFree b'-' s → after_last seen s ≡ seen ++ s
unfolding after_last
after_last-free seen [] h = sym (append-nil seen)
after_last-free seen (c ∷ s) (hc, h) =
    let t : (c == b'-') ≡ false = ground (arith, hc) in
    rw t (after_last-free (seen ++ (c ∷ [])) s h ∙ append_assoc seen (c ∷ []) s)

after_last-append : (seen front s : Str) → IsFree b'-' s → after_last seen (front ++ (b'-' ∷ s)) ≡ s
unfolding after_last
after_last-append seen [] s h = after_last-free [] s h
after_last-append seen (c ∷ front) s h =
    after_last-append (if c == b'-' then [] else seen ++ (c ∷ [])) front s h

IsDigit-IsFree : (s : Str) → All IsDigit s → IsFree b'-' s
IsDigit-IsFree [] h = tt
IsDigit-IsFree (c ∷ s) (hc, h) = ((λ e. absurd (omega (arith, hc, e))), IsDigit-IsFree s h)

last-make_cid :
    (uuid server_id : Str) (base : ℕ) → after_last [] (make_cid uuid server_id base) ≡ decimal base
unfolding make_cid
last-make_cid uuid server_id base =
    ap (after_last []) (sym (append_assoc uuid (b'-' ∷ server_id) (b'-' ∷ decimal base)))
    ∙ after_last-append [] (uuid ++ (b'-' ∷ server_id)) (decimal base)
        (IsDigit-IsFree (decimal base) (decimal-All base))

-- Two ids with different counters differ, whatever the UUIDs and the servers are.
pub make_cid_distinct :
    (u v server server' : Str) (n k : ℕ) → n ≢ k → make_cid u server n ≢ make_cid v server' k
make_cid_distinct u v server server' n k h e = h (
    decimal_inj n k
      (sym (last-make_cid u server n) ∙ ap (after_last []) e ∙ last-make_cid v server' k))

-- An id that was given by a counter up to `base`.
GivenBy : ℕ → Str → Type 0
GivenBy base cid =
    (uuid : Str) × (server_id : Str) × (n : ℕ) × (n ≤ base) × (cid ≡ make_cid uuid server_id n)

-- No id stands twice.
abbrev pub AreDistinct : List Str → Type 0
AreDistinct [] = Unit {0}
AreDistinct (cid ∷ rest) = All (λ other. other ≢ cid) rest × AreDistinct rest

record IsNumbered {ℓ} {C V : Type ℓ} (s : Process C V) : Type 0 where
  base : s.cid_base ≡ first_base + length s.cids
  given : All (GivenBy s.cid_base) s.cids
  distinct : AreDistinct s.cids

All-GivenBy : (b : ℕ) (cids : List Str) → All (GivenBy b) cids → All (GivenBy (b + 1)) cids
unfolding GivenBy
All-GivenBy b [] h = tt
All-GivenBy b (cid ∷ cids) ((u, server, n, le, e), h) =
    ((u, server, n, omega (arith, le), e), All-GivenBy b cids h)

All-fresh :
    (b : ℕ) (uuid server_id : Str) (cids : List Str)
    → All (GivenBy b) cids
    → All (λ other. other ≢ make_cid uuid server_id (b + 1)) cids
unfolding GivenBy
All-fresh b uuid server_id [] h = tt
All-fresh b uuid server_id (cid ∷ cids) ((u, server, n, le, e), h) = (
  λ same.
      make_cid_distinct u uuid server server_id n (b + 1) (λ x. absurd (omega (arith, le, x)))
        (sym e ∙ same),
  All-fresh b uuid server_id cids h,
)

next_base_lem : (b : ℕ) → b + 1 < 2 ^ 64 → next_base b ≡ b + 1
unfolding next_base
next_base_lem b h = omega arith

Step-IsNumbered {ℓ} :
    {C V : Type ℓ} (s s' : Process C V)
    → first_base + length s'.cids < 2 ^ 64
    → Step s s'
    → IsNumbered s
    → IsNumbered s'
unfolding get initialize GivenBy
Step-IsNumbered s s' room (opened choice uuid conn server_id) w =
    let b = s.cid_base in
    let next : next_base b ≡ b + 1 = next_base_lem b (omega (arith, room, w.base)) in
    rw next (record {
      base = omega (arith, w.base);
      given = ((uuid, server_id, b + 1, omega arith, refl), All-GivenBy b s.cids w.given);
      distinct = (All-fresh b uuid server_id s.cids w.given, w.distinct);
    })
Step-IsNumbered s s' room (put_back c busy) w = record {
  base = w.base;
  given = w.given;
  distinct = w.distinct;
}
Step-IsNumbered s s' room (dropped i c others e) w = record {
  base = w.base;
  given = w.given;
  distinct = w.distinct;
}

length_grows {ℓ} : {C V : Type ℓ} (s s' : Process C V) → Step s s' → length s.cids ≤ length s'.cids
length_grows s s' (opened choice uuid conn server_id) = omega arith
length_grows s s' (put_back c busy) = omega arith
length_grows s s' (dropped i c others e) = omega arith

Reaches-IsNumbered {ℓ} :
    {C V : Type ℓ} (max_size : ℕ) (s : Process C V)
    → first_base + length s.cids < 2 ^ 64
    → Reaches max_size s
    → IsNumbered s
Reaches-IsNumbered max_size s room start = record { base = refl; given = tt; distinct = tt }
Reaches-IsNumbered max_size s room (onward {s = before} r step) =
    Step-IsNumbered before s room step
      (Reaches-IsNumbered max_size before (omega (arith, room, length_grows before s step)) r)

-- No two connections that a process ever opens have the same id, also if a UUID is repeated, as long as
-- their counter of 64 bits does not wrap around.
pub Reaches-AreDistinct {ℓ} :
    {C V : Type ℓ} (max_size : ℕ) (s : Process C V)
    → first_base + length s.cids < 2 ^ 64
    → Reaches max_size s
    → AreDistinct s.cids
Reaches-AreDistinct max_size s room r = (Reaches-IsNumbered max_size s room r).distinct
