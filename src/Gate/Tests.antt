-- ===== src/Gate/Tests.antt =====
-- The handlers of the gateway at concrete inputs.
use recreation_test.Base.{
  ℕ, ◌≡◌, ◌⊎◌, refl, ap, List, [], ◌∷◌, ◌++◌, length, Option, none, some, Str, bytes, lookup,
  insert, string_eq, arith,
}
use recreation_test.Base.Int.{pos}
use recreation_test.Base.Decimal.{decimal}
use recreation_test.Jwt.{Claim, generate_claims}
use recreation_test.Accounts.Tests.{key_value, list_redis, list_redis-IsRedis}
use recreation_test.Accounts.Documents.{occurrences}
use recreation_test.Accounts.Users.{Account, sql_error}
use recreation_test.Accounts.Runs.{listed, all_of, listed-IsCollection}
use recreation_test.Accounts.Registration.{
  fine, refused, Fates, RegisterParams, RegisterResponse, call_incr, call_exists, next_account_id,
  new_account, save_account, with_id, wx_register, respond, register,
}
use recreation_test.Accounts.Registration.Tests.{
  all_fine, by_we_chat, at_number, member, none_yet, answer, registered_7,
}
use recreation_test.Gate.{
  biz_error, Status, IsStatus, failure, success, JwtConf, roles_of, over_grpc, call_register,
  with_token, on_response, on_answer, register_handler,
}
use recreation_test.Gate.Registering.{register_handler_told}
use recreation_test.Gate.Tokens.{register_handler_token, register_handler_grants}
use recreation_test.Gate.Cors.{
  CorsConf, Request, Gin, IsGin, allow_listed, check_cors, cors_by_rules_handler,
}
use recreation_test.Gate.Cors.Whitelist.{IsStranger, cors_cases}

-- An error as its code and its message.
abbrev pairs : Status (ℕ × Str)
pairs = record { error = λ code text. (code, text); from_error = λ e. e }

pairs-IsStatus : IsStatus pairs
pairs-IsStatus = record { from_error_lem = λ code text positive small. refl }

abbrev signed : List (Str × Claim) → Str → Option Str
signed claims secret = some secret

abbrev conf : JwtConf
conf = record { secret = bytes "s"; exp = 7 }

abbrev any_body : List ℕ → Option RegisterParams
any_body body = some by_we_chat

abbrev no_incr : Fates
no_incr = record all_fine { of_incr = refused }

register_handler_told_example :
    register_handler pairs signed list_redis listed conf any_body fine
      (14, [])
      no_incr
      (pos 0)
      []
      (at_number 6)
      []
    ≡ (some (failure (biz_error sql_error)), at_number 6, [])
unfolding register wx_register next_account_id call_exists call_incr with_id respond lookup
register_handler_told_example =
    register_handler_told pairs signed list_redis listed conf any_body (14, []) no_incr (pos 0) []
      by_we_chat (at_number 6) [] sql_error (at_number 6) [] pairs-IsStatus refl refl

token_7 :
    register_handler pairs signed list_redis listed conf any_body fine
      (14, [])
      all_fine
      (pos 0)
      []
      (at_number 6)
      []
    ≡ (some (success (bytes "s")), at_number 7, member 7 ∷ [])
unfolding register wx_register next_account_id call_exists call_incr with_id respond lookup insert
    save_account new_account register_handler call_register over_grpc on_answer on_response
    with_token decimal
token_7 = refl

register_handler_token_example :
    (resp : RegisterResponse) × (signed
        (generate_claims resp.uid 7 (roles_of resp.role_list))
        (bytes "s")
      ≡ some (bytes "s"))
    × (occurrences Account.uid resp.uid (all_of []) ≡ 0)
    × (all_of (member 7 ∷ []) ≡ all_of [] ++ (new_account (bytes "w") (pos 0) resp.uid ∷ []))
register_handler_token_example =
    register_handler_token pairs signed list_redis listed conf any_body key_value all_of (14, [])
      all_fine (pos 0) [] by_we_chat (at_number 6) (at_number 7) [] (member 7 ∷ []) (bytes "s")
      pairs-IsStatus list_redis-IsRedis listed-IsCollection none_yet refl token_7

register_handler_grants_example :
    register_handler pairs signed list_redis listed conf any_body fine
      (14, [])
      all_fine
      (pos 0)
      []
      (at_number 6)
      []
    ≡ (some (success (bytes "s")), at_number 7, member 7 ∷ [])
register_handler_grants_example =
    register_handler_grants pairs signed list_redis listed conf any_body key_value all_of (14, [])
      all_fine (pos 0) [] by_we_chat (at_number 6) (at_number 7) [] (member 7 ∷ []) (answer 7)
      (bytes "s") list_redis-IsRedis listed-IsCollection none_yet refl refl registered_7 refl

-- A context that counts the handlers that ran, and keeps the status of an abort.
abbrev Ran : Type 0
Ran = Option ℕ × ℕ

abbrev counting : Gin Ran
counting = record {
  header = λ k v c. c;
  abort_with_status = λ status (s, n). (some status, n);
  next = run_next;
}
  where
    run_next : Ran → Ran
    run_next (none, n) = (none, 1)
    run_next (some status, n) = (some status, n)

counting-IsGin : IsGin counting
counting-IsGin = record { next_lem = λ status c. refl }

abbrev strict : CorsConf
strict = record { mode = bytes "strict-whitelist"; whitelist = [] }

abbrev asked : Request
asked = record {
  method = bytes "POST";
  path = bytes "/register";
  origin = bytes "o";
  request_method = [];
  request_headers = [];
}

cors_cases_example :
    (IsStranger strict asked
      × (cors_by_rules_handler counting strict strict asked (none, 0) ≡ (some 403, 0)))
    ⊎ ((¬ IsStranger strict asked)
        × (cors_by_rules_handler counting strict strict asked (none, 0)
            ≡ counting.next (allow_listed counting (check_cors (bytes "o") []) (none, 0))))
cors_cases_example =
    cors_cases counting strict strict asked (none, 0) counting-IsGin
      (λ e. absurd (omega (arith, ap length e))) (λ e. absurd (omega (arith, ap length e)))
