-- ===== src/Net/Strategy/Names.antt =====
-- Names and strategies correspond.
use recreation_test.Base.{ℕ, ◌≡◌, refl, ap, ◌∙◌, [], ◌∷◌, map, Str, arith, Outcome, ok, err, panic}
use recreation_test.Net.Strategy.{
  Strategy, random, round_robin, weighted_round_robin, least_connection, consistent_hash, ip_hash,
  other, string, lower_byte, to_lower, parse_lower, parse_load_balance_strategy,
  get_available_load_balance_strategies,
}

-- The strategies that have a name of their own.
abbrev pub IsNamed : Strategy → Type 0
IsNamed (other n) = ⊥
IsNamed s = Unit {0}

-- The name of a strategy is parsed as that strategy.
pub parse-string : (s : Strategy) → IsNamed s → parse_load_balance_strategy (string s) ≡ ok s
unfolding parse_load_balance_strategy to_lower string
parse-string random h = refl
parse-string round_robin h = refl
parse-string weighted_round_robin h = refl
parse-string least_connection h = refl
parse-string consistent_hash h = refl
parse-string ip_hash h = refl
parse-string (other n) h = absurd h

lower_byte_idem : (c : ℕ) → lower_byte (lower_byte c) ≡ lower_byte c
unfolding lower_byte
lower_byte_idem c = ground arith

to_lower_idem : (s : Str) → to_lower (to_lower s) ≡ to_lower s
unfolding to_lower
to_lower_idem [] = refl
to_lower_idem (c ∷ s) = cc (lower_byte_idem c, to_lower_idem s)

-- The result, with what the error message quotes left out.
abbrev pub strategy_of : Outcome Str Strategy → Outcome (Unit {0}) Strategy
strategy_of (ok s) = ok s
strategy_of (err e) = err tt
strategy_of panic = panic

parse_lower-quoted : (s t l : Str) → strategy_of (parse_lower s l) ≡ strategy_of (parse_lower t l)
unfolding parse_lower
parse_lower-quoted s t l = ground arith

-- Letter case does not matter: names that agree in lower case are the same strategy, or are both
-- refused.
pub parse-to_lower :
    (s t : Str)
    → to_lower s ≡ to_lower t
    → strategy_of (parse_load_balance_strategy s) ≡ strategy_of (parse_load_balance_strategy t)
parse-to_lower s t e =
    unfold parse_load_balance_strategy in
    parse_lower-quoted s t (to_lower s) ∙ ap (λ (l : Str). strategy_of (parse_lower t l)) e

parse_lower-IsNamed : (s l : Str) (v : Strategy) → parse_lower s l ≡ ok v → IsNamed v
unfolding parse_lower
parse_lower-IsNamed s l random e = tt
parse_lower-IsNamed s l round_robin e = tt
parse_lower-IsNamed s l weighted_round_robin e = tt
parse_lower-IsNamed s l least_connection e = tt
parse_lower-IsNamed s l consistent_hash e = tt
parse_lower-IsNamed s l ip_hash e = tt
parse_lower-IsNamed s l (other n) e = ground arith

-- The parser only ever yields a strategy that has a name, and parsing that name yields it again.
pub parse-IsNamed :
    (s : Str) (v : Strategy)
    → parse_load_balance_strategy s ≡ ok v
    → IsNamed v × (parse_load_balance_strategy (string v) ≡ ok v)
parse-IsNamed s v e =
    let named : IsNamed v =
      unfold parse_load_balance_strategy in parse_lower-IsNamed s (to_lower s) v e in
    (named, parse-string v named)

-- The list of available strategies names the strategies that have a name, each once and in order, and
-- the parser gives no other.
pub available-parse :
    (map (λ n. parse_load_balance_strategy n) get_available_load_balance_strategies
      ≡ ok random
        ∷ ok round_robin
        ∷ ok weighted_round_robin
        ∷ ok least_connection
        ∷ ok consistent_hash
        ∷ ok ip_hash
        ∷ [])
unfolding parse_load_balance_strategy to_lower get_available_load_balance_strategies
available-parse = refl
