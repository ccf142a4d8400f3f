-- ===== src/Gate/Cors.antt =====
-- common/middleware/cors.go: which requests of other origins the gateway handles. The context of the web
-- framework is a parameter with the calls that are made of it. The configuration is read once when the
-- handler is made, and again for each request.
pub mod Whitelist
use recreation_test.Base.{
  ◌≡◌, Bool, true, false, not, ◌&&◌, ◌||◌, if◌then◌else◌, List, [], ◌∷◌, Option, none, some, Str,
  bytes, str_eq, ℕ,
}

pub record CorsWhitelist : Type 0 where
  pub allow_origin : Str
  pub allow_methods : Str
  pub allow_headers : Str
  pub expose_headers : Str
  pub allow_credentials : Bool

pub record CorsConf : Type 0 where
  pub mode : Str
  pub whitelist : List CorsWhitelist

-- What the handlers read of a request; the last two are the headers of a preflight.
pub record Request : Type 0 where
  pub method : Str
  pub path : Str
  pub origin : Str
  pub request_method : Str
  pub request_headers : Str

-- `gin.Context`: `header` sets a header of the response, also under the name `Writer.Header().Set`, and
-- `next` runs the handlers behind this one.
pub record Gin {ℓ} (C : Type ℓ) : Type ℓ where
  pub header : Str → Str → C → C
  pub abort_with_status : ℕ → C → C
  pub next : C → C

-- The handlers behind a request that was aborted do not run.
pub record IsGin {ℓ} {C : Type ℓ} (gin : Gin C) : Type ℓ where
  pub next_lem :
      (status : ℕ) (c : C)
      → gin.next (gin.abort_with_status status c) ≡ gin.abort_with_status status c

-- `checkCors`.
unfoldable pub check_cors : Str → List CorsWhitelist → Option CorsWhitelist
check_cors current_origin [] = none
check_cors current_origin (w ∷ ws) =
    if str_eq current_origin w.allow_origin then some w else check_cors current_origin ws

abbrev pub is_none : Option CorsWhitelist → Bool
is_none none = true
is_none (some w) = false

-- The condition of the refusal.
unfoldable pub is_refused : CorsConf → Request → Bool
is_refused conf req =
    is_none (check_cors req.origin conf.whitelist)
    && str_eq conf.mode (bytes "strict-whitelist")
    && (not (str_eq req.method (bytes "GET")) || not (str_eq req.path (bytes "/health")))

module _ {ℓ} {C : Type ℓ} (gin : Gin C) where
  -- The headers that every request gets.
  unfoldable pub allow_all : Str → C → C
  allow_all origin c = gin.header (bytes "Access-Control-Allow-Credentials") (bytes "true") (
      gin.header (bytes "Access-Control-Expose-Headers")
        (bytes
          "Content-Length, Access-Control-Allow-Origin, Access-Control-Allow-Headers, Content-Type, New-Token, New-Expires-At")
        (gin.header (bytes "Access-Control-Allow-Methods") (bytes "POST, GET, OPTIONS,DELETE,PUT") (
          gin.header (bytes "Access-Control-Allow-Headers")
            (bytes "Content-Type,AccessToken,X-CSRF-Token, Authorization, Token,X-Token,X-User-Id")
            (gin.header (bytes "Access-Control-Allow-Origin") origin
              (gin.header (bytes "Access-Control-Allow-Origin") origin c)))))

  unfoldable pub preflight : Request → C → C
  preflight req c = gin.abort_with_status 204 (
      gin.header (bytes "Access-Control-Max-Age") (bytes "7200") (
        gin.header (bytes "Access-Control-Allow-Headers") req.request_headers
          (gin.header (bytes "Access-Control-Allow-Methods") req.request_method c)))

  unfoldable pub cors_handler : Request → C → C
  cors_handler req c =
      let allowed = allow_all req.origin c in
      if str_eq req.method (bytes "OPTIONS") then preflight req allowed else gin.next allowed

  -- The headers for an origin on the whitelist.
  unfoldable pub allow_listed : Option CorsWhitelist → C → C
  allow_listed none c = c
  allow_listed (some w) c =
      let c' = gin.header (bytes "Access-Control-Expose-Headers") w.expose_headers (
        gin.header (bytes "Access-Control-Allow-Methods") w.allow_methods (
          gin.header (bytes "Access-Control-Allow-Headers") w.allow_headers
            (gin.header (bytes "Access-Control-Allow-Origin") w.allow_origin c))) in
      if w.allow_credentials
      then gin.header (bytes "Access-Control-Allow-Credentials") (bytes "true") c'
      else c'

  unfoldable pub check_rules : CorsConf → Request → C → C
  check_rules conf req c =
      let c' = allow_listed (check_cors req.origin conf.whitelist) c in
      gin.next (
        if is_refused conf req
        then gin.abort_with_status 403 c'
        else if str_eq req.method (bytes "OPTIONS")
        then gin.abort_with_status 204 c'
        else c')

  -- `CorsByRulesHandler` under the configuration `made`, and then a request under `conf`.
  unfoldable pub cors_by_rules_handler : CorsConf → CorsConf → Request → C → C
  cors_by_rules_handler made conf req c =
      if str_eq made.mode (bytes "allow-all") then cors_handler req c else check_rules conf req c
