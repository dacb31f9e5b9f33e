-- ===== src/Config/Safety.antt =====
-- What `Settings.validate` of backend/app/config.py accepts.
use ap2web.Config.Env.{full}
use ap2web.Config.Settings.{Settings, is_production}
use ap2web.Config.Validation.{
  check_origins, check_production, check_secret, check_services, database_ok, is_memory,
  is_placeholder, is_redis, is_wildcard, star, validate,
}
use ap2web.Prelude.{
  Bool, Bool-cases, List, Option-cases, Text, false, first, inl, inr, is_empty, is_some, length,
  ltb, member, none, not, refl, some, true, ◌&&◌, ◌||◌, ◌↔◌, ◌≡◌,
}

-- A secret that is long enough and no known placeholder.
abbrev pub HasSecret : Settings → Type 0
HasSecret s =
    (k : Text) × (s.secret ≡ some k) × (ltb (length k) 32 ≡ false) × (is_placeholder k ≡ false)

-- The demands on a production deployment.
pub record Safe (s : Settings) : Type 0 where
  pub secret : HasSecret s
  pub roles : s.enforce_roles ≡ true
  pub cookies : s.cookie_secure ≡ true
  pub some_origin : is_empty s.origins ≡ false
  pub no_star : member star s.origins ≡ false
  pub no_wildcard : first is_wildcard s.origins ≡ none
  pub shared_limits : is_memory s.rate_limit_storage ≡ false
  pub redis : (is_redis s.rate_limit_storage && is_empty s.redis_url) ≡ false
  pub worker : s.require_worker ≡ true
  pub database : database_ok s.database_url ≡ true

-- The bootstrap name and password are given together.
abbrev pub is_half_given : Settings → Bool
is_half_given s =
    is_some s.bootstrap_admin_username && not (is_some s.bootstrap_admin_password)
    || (not (is_some s.bootstrap_admin_username) && is_some s.bootstrap_admin_password)

check_secret-none : (s : Settings) → check_secret s.secret ≡ none → HasSecret s
unfolding check_secret
check_secret-none s h = elim (Option-cases s.secret) [
  | inl e ↦ cc (rw e at h)
  | inr (k, e) ↦ elim (Bool-cases (ltb (length k) 32)) [
    | inl short ↦ cc (rw short at rw (e, check_secret) at h)
    | inr long ↦ elim (Bool-cases (is_placeholder k)) [
      | inl known ↦ cc (rw (long, known) at rw (e, check_secret) at h)
      | inr fresh ↦ (k, e, long, fresh)
    ]
  ]
]

HasSecret-check_secret : (s : Settings) → HasSecret s → check_secret s.secret ≡ none
unfolding check_secret
HasSecret-check_secret s (k, e, long, fresh) = rw (e, check_secret) (rw (long, fresh) refl)

check_origins-none :
    (origins : List Text)
    → check_origins origins ≡ none
    → (is_empty origins ≡ false)
      × (member star origins ≡ false)
      × (first is_wildcard origins ≡ none)
unfolding check_origins
check_origins-none origins h = elim (Bool-cases (is_empty origins)) [
  | inl e ↦ cc (rw e at h)
  | inr e ↦ elim (Bool-cases (member star origins)) [
    | inl f ↦ cc (rw (e, f) at h)
    | inr f ↦ elim (Option-cases (first is_wildcard origins)) [
      | inl g ↦ (e, f, g)
      | inr (o, g) ↦ cc (rw (e, f, g) at h)
    ]
  ]
]

check_services-none :
    (s : Settings)
    → check_services s ≡ none
    → (is_memory s.rate_limit_storage ≡ false)
      × ((is_redis s.rate_limit_storage && is_empty s.redis_url) ≡ false)
      × (s.require_worker ≡ true)
      × (database_ok s.database_url ≡ true)
unfolding check_services
check_services-none s h = elim (Bool-cases (is_memory s.rate_limit_storage)) [
  | inl e ↦ cc (rw e at h)
  | inr e ↦ elim (Bool-cases (is_redis s.rate_limit_storage && is_empty s.redis_url)) [
    | inl f ↦ cc (rw (e, f) at h)
    | inr f ↦ elim (Bool-cases s.require_worker) [
      | inr g ↦ cc (rw (e, f, g) at h)
      | inl g ↦ elim (Bool-cases (database_ok s.database_url)) [
        | inr i ↦ cc (rw (e, f, g, i) at h)
        | inl i ↦ (e, f, g, i)
      ]
    ]
  ]
]

check_production-Safe : (s : Settings) → check_production s ≡ none → Safe s
unfolding check_production
check_production-Safe s h = elim (Option-cases (check_secret s.secret)) [
  | inr (e, f) ↦ cc (rw (f, check_production) at h)
  | inl secret_ok ↦ elim (Bool-cases s.enforce_roles) [
    | inr r ↦ cc (rw r at rw (secret_ok, check_production) at h)
    | inl r ↦ elim (Bool-cases s.cookie_secure) [
      | inr c ↦ cc (rw (r, c) at rw (secret_ok, check_production) at h)
      | inl c ↦ elim (Option-cases (check_origins s.origins)) [
        | inr (e, f) ↦ cc (rw (r, c, f) at rw (secret_ok, check_production) at h)
        | inl origins_ok ↦
            let (full, star_free, wild_free) = check_origins-none s.origins origins_ok in
            let (m, d, w, p) =
              check_services-none s
                (rw (r, c, origins_ok) at rw (secret_ok, check_production) at h) in
            record {
              secret = check_secret-none s secret_ok;
              roles = r;
              cookies = c;
              some_origin = full;
              no_star = star_free;
              no_wildcard = wild_free;
              shared_limits = m;
              redis = d;
              worker = w;
              database = p;
            }
      ]
    ]
  ]
]

Safe-check_origins : (s : Settings) → Safe s → check_origins s.origins ≡ none
unfolding check_origins
Safe-check_origins s h = rw (h.some_origin, h.no_star, h.no_wildcard) refl

Safe-check_services : (s : Settings) → Safe s → check_services s ≡ none
unfolding check_services
Safe-check_services s h = rw (h.shared_limits, h.redis, h.worker, h.database) refl

Safe-check_production : (s : Settings) → Safe s → check_production s ≡ none
unfolding check_production
Safe-check_production s h =
    rw (HasSecret-check_secret s h.secret, check_production)
      (rw (h.roles, h.cookies, Safe-check_origins s h) (Safe-check_services s h))

-- In production the validation accepts exactly the settings that are safe and that give the bootstrap
-- credentials together or not at all: a secret of at least 32 characters that is no placeholder,
-- enforced roles, secure cookies, explicit origins without a wildcard, rate limits that are not kept
-- in memory and have a URL if they are kept in Redis, a required worker and a PostgreSQL database.
pub validate-Safe :
    (s : Settings)
    → is_production s.env ≡ true
    → (validate s ≡ none) ↔ ((is_half_given s ≡ false) × Safe s)
unfolding validate
validate-Safe s production = (
  λ h. elim (Bool-cases (is_half_given s)) [
    | inl e ↦ cc (rw e at h)
    | inr e ↦ (e, check_production-Safe s (rw (e, production) at h))
  ],
  λ (e, safe). rw (e, production) (Safe-check_production s safe),
)
