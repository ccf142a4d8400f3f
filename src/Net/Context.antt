-- ===== src/Net/Context.antt =====
-- framework/net/load_balance_strategy.go: the request context, of which the code uses `Value` and
-- `WithValue`. Go compares keys by their dynamic type and value.
use recreation_test.Base.{
  Bool, true, false, if◌then◌else◌, [], Option, none, some, Str, str_eq, ◌≡◌, refl,
}

-- A key: a value of type `struct{}`, or a string.
pub data Key : Type 0 where
  empty_struct : Key
  string_key : Str → Key

abbrev key_eq : Key → Key → Bool
key_eq empty_struct empty_struct = true
key_eq empty_struct (string_key s) = false
key_eq (string_key s) empty_struct = false
key_eq (string_key s) (string_key t) = str_eq s t

-- A value: a string, or one of another type.
pub data Value : Type 0 where
  str : Str → Value
  other : Value

pub data Context : Type 0 where
  background : Context
  with_value : Context → Key → Value → Context

unfoldable pub value : Context → Key → Option Value
value background k = none
value (with_value ctx j v) k = if key_eq j k then some v else value ctx k

-- Both package variables hold `struct{}{}`.
abbrev pub user_id_context_key : Key
user_id_context_key = empty_struct

abbrev pub client_ip_context_key : Key
client_ip_context_key = empty_struct

unfoldable pub with_user_id : Context → Str → Context
with_user_id ctx user_id = with_value ctx user_id_context_key (str user_id)

unfoldable pub with_client_ip : Context → Str → Context
with_client_ip ctx client_ip = with_value ctx client_ip_context_key (str client_ip)

-- What both getters return: the string under the key, and the empty string for none. A `none`
-- context is nil.
string_under : Key → Option Context → Str
string_under k none = []
string_under k (some ctx) = elim (value ctx k) [ some (str s) ↦ s | _ ↦ [] ]

unfoldable pub get_current_user_id : Option Context → Str
unfolding string_under
get_current_user_id current = string_under user_id_context_key current

unfoldable pub get_current_client_ip : Option Context → Str
unfolding string_under
get_current_client_ip current = string_under client_ip_context_key current

-- The two keys are one: in every context the user id that is read is the client address that is
-- read, and whichever of the two was stored last is taken for both.
pub user_id-client_ip :
    (current : Option Context) (ctx : Context) (uid ip : Str)
    → (get_current_user_id current ≡ get_current_client_ip current)
      × (get_current_user_id (some (with_client_ip (with_user_id ctx uid) ip)) ≡ ip)
      × (get_current_client_ip (some (with_user_id (with_client_ip ctx ip) uid)) ≡ uid)
unfolding get_current_user_id get_current_client_ip with_client_ip with_user_id value
user_id-client_ip none ctx uid ip = (refl, refl, refl)
user_id-client_ip (some c) ctx uid ip = (refl, refl, refl)
