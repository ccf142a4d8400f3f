-- ===== src/Accounts/Ids/Distinct.antt =====
-- Which ids differ, and which do not.
use recreation_test.Base.{
  ℕ, zero, suc, ◌+◌, ◌≤◌, ◌≡◌, ◌≢◌, refl, sym, ap, ◌∙◌, true, List, [], ◌∷◌, get_elem?, Option,
  none, some, Str, arith, All, All-append,
}
use recreation_test.Base.Decimal.{decimal, decimal_inj}
use recreation_test.Net.Clients.{update_at}
use recreation_test.Net.Clients.Maps.{All-update_at, All-member}
use recreation_test.Net.Pool.Ids.{AreDistinct}
use recreation_test.Accounts.Ids.{
  account_id_key, account_id_begin, Redis, is_some, or_zero, IsRedis, Request, checking, setting,
  incrementing, finished, failed, advance, World, give, at, Step, arrived, moved, refused, lost,
  Reaches, start, onward,
}

-- An id up to `n`.
abbrev Given : ℕ → Str → Type 0
Given n id = (k : ℕ) × (k ≤ n) × (id ≡ decimal k)

Given-suc : (n : ℕ) (ids : List Str) → All (Given n) ids → All (Given (n + 1)) ids
Given-suc n [] h = tt
Given-suc n (id ∷ ids) ((k, le, e), h) = ((k, omega (arith, le), e), Given-suc n ids h)

fresh_lem : (n : ℕ) (ids : List Str) → All (Given n) ids → All (λ id. id ≢ decimal (n + 1)) ids
fresh_lem n [] h = tt
fresh_lem n (id ∷ ids) ((k, le, e), h) =
    (λ same. absurd (omega (arith, le, decimal_inj k (n + 1) (sym e ∙ same))), fresh_lem n ids h)

get_elem?-update_at :
    (i : ℕ) (old new : Request) (rs : List Request)
    → get_elem? rs i ≡ some old
    → get_elem? (update_at i (λ r. new) rs) i ≡ some new
unfolding update_at
get_elem?-update_at i old new [] e = absurd (cc)
get_elem?-update_at zero old new (r ∷ rs) e = refl
get_elem?-update_at (suc i) old new (r ∷ rs) e = get_elem?-update_at i old new rs e

All-give : (P : Str → Type 0) (o : Option Str) (ids : List Str) → All P (give o ids) → All P ids
All-give P none ids h = h
All-give P (some id) ids (one, h) = h

AreDistinct-give : (o : Option Str) (ids : List Str) → AreDistinct (give o ids) → AreDistinct ids
AreDistinct-give none ids h = h
AreDistinct-give (some id) ids (one, h) = h

module _ {ℓ} {S : Type ℓ} (redis : Redis S) (value : Str → S → Option ℕ)
    (laws : IsRedis redis value) where
  -- The key stands, no request is about to write it, and each id that was given is another number up to
  -- its value.
  record IsCounting (w : World S) : Type ℓ where
    last : ℕ
    stored : value account_id_key w.store ≡ some last
    passed : All (λ r. r ≢ setting) w.requests
    given : All (Given last) w.ids
    distinct : AreDistinct w.ids

  -- A call of a request that does not write the key.
  advance-IsCounting :
      (w : World S) (r : Request) (c : IsCounting w)
      → r ≢ setting
      → IsCounting (record w {
        store = (advance redis r w.store).1;
        ids = give (advance redis r w.store).2 w.ids;
      })
        × ((advance redis r w.store).0 ≢ setting)
  unfolding advance
  advance-IsCounting w checking c h =
      let there : redis.exists account_id_key w.store ≡ true =
        laws.exists_lem account_id_key w.store ∙ ap is_some c.stored in
      (
        record {
          last = c.last;
          stored = c.stored;
          passed = c.passed;
          given = c.given;
          distinct = c.distinct;
        },
        rw there (λ e. cc),
      )
  advance-IsCounting w setting c h = absurd (h refl)
  advance-IsCounting w incrementing c h =
      let answer : (redis.incr account_id_key w.store).0 ≡ c.last + 1 =
        laws.incr_answer account_id_key w.store ∙ ap (λ (o : Option ℕ). or_zero o + 1) c.stored in
      (
        record {
          last = c.last + 1;
          stored =
              laws.incr_lem account_id_key account_id_key w.store
              ∙ ap (λ (o : Option ℕ). some (or_zero o + 1)) c.stored;
          passed = c.passed;
          given = rw answer ((c.last + 1, omega arith, refl), Given-suc c.last w.ids c.given);
          distinct = rw answer (fresh_lem c.last w.ids c.given, c.distinct);
        },
        λ e. cc,
      )
  advance-IsCounting w finished c h = (c, h)
  advance-IsCounting w failed c h = (c, h)

  Step-IsCounting : (w w' : World S) → IsCounting w → Step redis w w' → IsCounting w'
  Step-IsCounting w w' c arrived = record {
    last = c.last;
    stored = c.stored;
    passed = All-append (λ r. r ≢ setting) w.requests (checking ∷ []) c.passed (λ e. cc, tt);
    given = c.given;
    distinct = c.distinct;
  }
  Step-IsCounting w w' c (moved i r e) =
      let (n, next) =
        advance-IsCounting w r c (All-member (λ r. r ≢ setting) i w.requests r e c.passed) in
      record {
        last = n.last;
        stored = n.stored;
        passed = All-update_at (λ r. r ≢ setting) i _ w.requests (λ old h. next) c.passed;
        given = n.given;
        distinct = n.distinct;
      }
  Step-IsCounting w w' c (refused i) = record {
    last = c.last;
    stored = c.stored;
    passed = All-update_at (λ r. r ≢ setting) i _ w.requests (λ old h e. cc) c.passed;
    given = c.given;
    distinct = c.distinct;
  }
  Step-IsCounting w w' c (lost i r e) =
      let (n, next) =
        advance-IsCounting w r c (All-member (λ r. r ≢ setting) i w.requests r e c.passed) in
      record {
        last = n.last;
        stored = n.stored;
        passed = All-update_at (λ r. r ≢ setting) i _ w.requests (λ old h e. cc) c.passed;
        given = All-give (Given n.last) (advance redis r w.store).2 w.ids n.given;
        distinct = AreDistinct-give (advance redis r w.store).2 w.ids n.distinct;
      }

  Reaches-IsCounting :
      (n : ℕ) (s : S) (w : World S)
      → value account_id_key s ≡ some n
      → Reaches redis s w
      → IsCounting w
  Reaches-IsCounting n s w e start = record {
    last = n;
    stored = e;
    passed = tt;
    given = tt;
    distinct = tt;
  }
  Reaches-IsCounting n s w e (onward {w = before} r step) =
      Step-IsCounting before w (Reaches-IsCounting n s before e r) step

  -- The two last calls of a request that writes the key.
  restarted :
      (s : S) (w : World S) (i : ℕ)
      → Reaches redis s w
      → get_elem? w.requests i ≡ some setting
      → (w' : World S) × Reaches redis s w' × (w'.ids ≡ decimal 10_001 ∷ w.ids)
  unfolding advance
  restarted s w i r e =
      let s1 = redis.set account_id_key account_id_begin w.store in
      let w1 : World S = record w { store = s1; requests = at w i incrementing } in
      let w2 : World S = record {
        store = (redis.incr account_id_key s1).1;
        requests = at w1 i finished;
        ids = decimal (redis.incr account_id_key s1).0 ∷ w.ids;
      } in
      let first : Reaches redis s w1 = onward r (moved i setting e) in
      let second : Reaches redis s w2 =
        onward first
          (moved i incrementing (get_elem?-update_at i setting incrementing w.requests e)) in
      let answer : (redis.incr account_id_key s1).0 ≡ 10_001 =
        laws.incr_answer account_id_key s1
        ∙ ap (λ (o : Option ℕ). or_zero o + 1)
            (laws.set_lem account_id_key account_id_key account_id_begin w.store) in
      (w2, second, ap (λ (n : ℕ). decimal n ∷ w.ids) answer)

-- If the key stands in Redis before the first request arrives, no two requests are given the same id, however
-- their calls interleave and whichever of them fail, before or after they have taken effect.
pub ids-AreDistinct {ℓ} :
    {S : Type ℓ} (redis : Redis S) (value : Str → S → Option ℕ) (n : ℕ) (s : S) (w : World S)
    → IsRedis redis value
    → value account_id_key s ≡ some n
    → Reaches redis s w
    → AreDistinct w.ids
ids-AreDistinct redis value n s w laws e r =
    (Reaches-IsCounting redis value laws n s w e r).distinct

-- A request that found no key restarts the ids, whatever ids other requests were given in between: the
-- id 10001 is given next, again if it was given before.
pub ids_restart {ℓ} :
    {S : Type ℓ} (redis : Redis S) (value : Str → S → Option ℕ) (s : S) (w : World S) (i : ℕ)
    → IsRedis redis value
    → Reaches redis s w
    → get_elem? w.requests i ≡ some setting
    → (w' : World S) × Reaches redis s w' × (w'.ids ≡ decimal 10_001 ∷ w.ids)
ids_restart redis value s w i laws r e = restarted redis value laws s w i r e
