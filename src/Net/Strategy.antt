-- ===== src/Net/Strategy.antt =====
-- framework/net/load_balance_strategy.go: the strategies and their names. Names are ASCII.
pub mod Names
use recreation_test.Base.{
  ℕ, ◌+◌, ◌<◌, Bool, true, false, ◌||◌, ◌&&◌, leb, if◌then◌else◌, List, [], ◌∷◌, map, Str, str_eq,
  bytes, Outcome, ok, err, panic,
}

-- An `int`; `other` stands for the values without a name.
pub data Strategy : Type 0 where
  random round_robin weighted_round_robin least_connection consistent_hash ip_hash : Strategy
  other : ℕ → Strategy

-- `String`.
unfoldable pub string : Strategy → Str
string random = bytes "random"
string round_robin = bytes "round_robin"
string weighted_round_robin = bytes "weighted_round_robin"
string least_connection = bytes "least_connection"
string consistent_hash = bytes "consistent_hash"
string ip_hash = bytes "ip_hash"
string (other n) = bytes "unknown"

-- `strings.ToLower`.
unfoldable pub lower_byte : ℕ → ℕ
lower_byte c = if leb b'A' c && leb c b'Z' then c + 32 else c

unfoldable pub to_lower : Str → Str
unfolding lower_byte
to_lower s = map lower_byte s

parse_lower : Str → Str → Outcome Str Strategy
parse_lower s l =
    if str_eq l (bytes "random")
    then ok random
    else if str_eq l (bytes "round_robin") || str_eq l (bytes "roundrobin")
    then ok round_robin
    else if str_eq l (bytes "weighted_round_robin") || str_eq l (bytes "weightedroundrobin")
    then ok weighted_round_robin
    else if str_eq l (bytes "least_connection") || str_eq l (bytes "leastconnection")
    then ok least_connection
    else if str_eq l (bytes "consistent_hash") || str_eq l (bytes "consistenthash")
    then ok consistent_hash
    else if str_eq l (bytes "ip_hash") || str_eq l (bytes "iphash")
    then ok ip_hash
    else err s

-- `ParseLoadBalanceStrategy`; the error carries the name that the message quotes.
unfoldable pub parse_load_balance_strategy : Str → Outcome Str Strategy
unfolding parse_lower
parse_load_balance_strategy s = parse_lower s (to_lower s)

unfoldable pub get_available_load_balance_strategies : List Str
get_available_load_balance_strategies =
    bytes "random"
    ∷ bytes "round_robin"
    ∷ bytes "weighted_round_robin"
    ∷ bytes "least_connection"
    ∷ bytes "consistent_hash"
    ∷ bytes "ip_hash"
    ∷ []
