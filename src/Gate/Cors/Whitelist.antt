-- ===== src/Gate/Cors/Whitelist.antt =====
-- Which requests the whitelist stops.
use mathlib.Core.Path.{subst}
use recreation_test.Base.{
  ◌≡◌, ◌≢◌, ◌⊎◌, inl, inr, refl, ap, ◌∙◌, Bool, true, false, not, ◌&&◌, ◌||◌, if◌then◌else◌, List,
  [], ◌∷◌, Option, none, some, Str, bytes, str_eq, str_eq_iff, All, Bool-cases, Option-cases, arith,
  if_each,
}
use recreation_test.Gate.Cors.{
  CorsWhitelist, CorsConf, Request, Gin, IsGin, check_cors, is_none, cors_handler, allow_listed,
  is_refused, check_rules, cors_by_rules_handler,
}

-- No entry of the whitelist is for the origin.
abbrev pub IsUnlisted : Str → List CorsWhitelist → Type 0
IsUnlisted origin = All (λ w. origin ≢ w.allow_origin)

-- Only an origin on the whitelist may ask, the request's is not on it, and it is no check of the health.
abbrev pub IsStranger : CorsConf → Request → Type 0
IsStranger conf req =
    (conf.mode ≡ bytes "strict-whitelist")
    × IsUnlisted req.origin conf.whitelist
    × ¬ ((req.method ≡ bytes "GET") × (req.path ≡ bytes "/health"))

-- What the code finds of an origin.
abbrev Finds : Str → List CorsWhitelist → Option CorsWhitelist → Type 0
Finds origin ws none = IsUnlisted origin ws
Finds origin ws (some w) = ¬ IsUnlisted origin ws

differs : (s t : Str) → str_eq s t ≡ false → s ≢ t
differs s t h e = ground (arith, h, (str_eq_iff s t).1 e)

check_cors-Finds : (origin : Str) (ws : List CorsWhitelist) → Finds origin ws (check_cors origin ws)
unfolding check_cors
check_cors-Finds origin [] = tt
check_cors-Finds origin (w ∷ ws) =
    if_each (Finds origin (w ∷ ws)) (str_eq origin w.allow_origin) (some w) (check_cors origin ws)
      (λ same (other, rest). other ((str_eq_iff origin w.allow_origin).0 same))
      (λ other. later other (check_cors origin ws) (check_cors-Finds origin ws))
  where
    later :
        str_eq origin w.allow_origin ≡ false
        → (o : Option CorsWhitelist) → Finds origin ws o
        → Finds origin (w ∷ ws) o
    later other none h = (differs origin w.allow_origin other, h)
    later other (some x) h = λ (one, rest). h rest

apart : (s t : Str) → s ≢ t → str_eq s t ≡ false
apart s t h = elim (Bool-cases (str_eq s t)) [
  | inl same ↦ absurd (h ((str_eq_iff s t).0 same))
  | inr other ↦ other
]

unlisted_none :
    (origin : Str) (ws : List CorsWhitelist) → IsUnlisted origin ws → check_cors origin ws ≡ none
unlisted_none origin ws h = elim (Option-cases (check_cors origin ws)) [
  | inl nobody ↦ nobody
  | inr (w, e) ↦ absurd (subst (Finds origin ws) e (check_cors-Finds origin ws) h)
]

module _ (conf : CorsConf) (req : Request) where
  abbrev refusal : Option CorsWhitelist → Bool
  refusal o =
      is_none o
      && str_eq conf.mode (bytes "strict-whitelist")
      && (not (str_eq req.method (bytes "GET")) || not (str_eq req.path (bytes "/health")))

  refusal-cases :
      (o : Option CorsWhitelist)
      → Finds req.origin conf.whitelist o
      → ((refusal o ≡ true) × IsStranger conf req) ⊎ ((refusal o ≡ false) × (¬ IsStranger conf req))
  refusal-cases (some w) h = inr (refl, λ (strict, unlisted, other). h unlisted)
  refusal-cases none h = elim (Bool-cases (str_eq conf.mode (bytes "strict-whitelist"))) [
    | inr lax ↦ inr (
      rw lax refl,
      λ (strict, unlisted, other). differs conf.mode (bytes "strict-whitelist") lax strict,
    )
    | inl strict ↦
        let is_strict = (str_eq_iff conf.mode (bytes "strict-whitelist")).0 strict in
        elim (Bool-cases (str_eq req.method (bytes "GET"))) [
          | inr other ↦ inl (
            rw (strict, other) refl,
            (is_strict, h, λ (get, path). differs req.method (bytes "GET") other get),
          )
          | inl get ↦ elim (Bool-cases (str_eq req.path (bytes "/health"))) [
            | inr other ↦ inl (
              rw (strict, get, other) refl,
              (is_strict, h, λ (same, path). differs req.path (bytes "/health") other path),
            )
            | inl health ↦ inr (
              rw (strict, get, health) refl,
              λ (same, unlisted, other). other (
                (str_eq_iff req.method (bytes "GET")).0 get,
                (str_eq_iff req.path (bytes "/health")).0 health,
              ),
            )
          ]
        ]
  ]

  is_refused-cases :
      ((is_refused conf req ≡ true) × IsStranger conf req)
      ⊎ ((is_refused conf req ≡ false) × (¬ IsStranger conf req))
  unfolding is_refused
  is_refused-cases =
      refusal-cases (check_cors req.origin conf.whitelist)
        (check_cors-Finds req.origin conf.whitelist)

-- A request other than a preflight, unless all origins were let through when the handler was made: if only
-- the whitelist may ask, its origin is not on it, and it is no check of the health, it is answered with the
-- status 403 and no other handler runs. If not, the other handlers run, with the headers of the whitelist
-- for an origin on it.
pub cors_cases {ℓ} :
    {C : Type ℓ} (gin : Gin C) (made conf : CorsConf) (req : Request) (c : C)
    → IsGin gin
    → made.mode ≢ bytes "allow-all"
    → req.method ≢ bytes "OPTIONS"
    → (IsStranger conf req
        × (cors_by_rules_handler gin made conf req c ≡ gin.abort_with_status 403 c))
      ⊎ ((¬ IsStranger conf req)
          × (cors_by_rules_handler gin made conf req c
              ≡ gin.next (allow_listed gin (check_cors req.origin conf.whitelist) c)))
unfolding cors_by_rules_handler check_rules allow_listed
cors_cases {C = C} gin made conf req c laws mode other =
    let listed = check_cors req.origin conf.whitelist in
    let c' = allow_listed gin listed c in
    let late : C =
      if str_eq req.method (bytes "OPTIONS") then gin.abort_with_status 204 c' else c' in
    let rules : cors_by_rules_handler gin made conf req c ≡ check_rules gin conf req c =
      ap (λ (b : Bool). if b then cors_handler gin req c else check_rules gin conf req c)
        (apart made.mode (bytes "allow-all") mode) in
    let refusing : Bool → C = λ b. gin.next (if b then gin.abort_with_status 403 c' else late) in
    elim (is_refused-cases conf req) [
      | inl (refused, stranger) ↦ inl (
        stranger,
        rules
            ∙ ap refusing refused
            ∙ laws.next_lem 403 c'
            ∙ ap (λ (o : Option CorsWhitelist). gin.abort_with_status 403 (allow_listed gin o c))
                (unlisted_none req.origin conf.whitelist stranger.1),
      )
      | inr (allowed, known) ↦ inr (
        known,
        rules
            ∙ ap refusing allowed
            ∙ ap (λ (b : Bool). gin.next (if b then gin.abort_with_status 204 c' else c'))
                (apart req.method (bytes "OPTIONS") other),
      )
    ]
