-- ===== src/Config/Settings.antt =====
-- The attributes that `Settings.__init__` of backend/app/config.py sets from the environment.
use ap2web.Config.Env.{Environ, as_bool, as_int, or_text, parse_origins, split_list, ℤ}
use ap2web.Prelude.{
  Bool, List, Option, Text, [], codes, false, if◌then◌else◌, is_empty, lower, member, none, some,
  strip, text_eq, true, ℕ, ◌∷◌,
}

pub record Settings : Type 0 where
  pub env : Text
  pub secret : Option Text
  pub database_url : Option Text
  pub bootstrap_admin_username : Option Text
  pub bootstrap_admin_password : Option Text
  pub origins : List Text
  pub enforce_roles : Bool
  pub enable_worker : Bool
  pub require_worker : Bool
  pub worker_heartbeat_seconds : ℕ
  pub worker_lease_seconds : ℕ
  pub source_sync_max_age_seconds : ℕ
  pub cookie_secure : Bool
  pub cookie_samesite : Text
  pub access_token_ttl_minutes : ℕ
  pub refresh_token_ttl_days : ℕ
  pub csrf_enabled : Bool
  pub jwt_issuer : Text
  pub jwt_audience : Text
  pub jwt_clock_skew_seconds : ℕ
  pub pbkdf2_iterations : ℕ
  pub username_min : ℕ
  pub username_max : ℕ
  pub password_min : ℕ
  pub password_max : ℕ
  pub max_body_bytes : ℕ
  pub rate_limit_enabled : Bool
  pub rate_limits : List (Text × Text)
  pub audit_retention_days : ℕ
  pub rate_limit_storage : Text
  pub redis_url : Text
  pub the_odds_api_key : Text
  pub trusted_proxy_cidrs : List Text

-- `text or None`
abbrev pub or_none : Text → Option Text
or_none t = if is_empty t then none else some t

abbrev pub one_of : Text → List Text → Text → Text
one_of t known default = if member t known then t else default

abbrev pub known_envs : List Text
known_envs = codes "development" ∷ codes "production" ∷ codes "test" ∷ []

-- `VALID_SAMESITE`
abbrev pub valid_samesite : List Text
valid_samesite = codes "lax" ∷ codes "strict" ∷ codes "none" ∷ []

abbrev pub storages : List Text
storages = codes "memory" ∷ codes "redis" ∷ []

abbrev pub is_production : Text → Bool
is_production env = text_eq env (codes "production")

-- `self.env`
unfoldable pub env_of : Environ → Text
unfolding lower strip member
env_of env =
    one_of (lower (strip (or_text (env (codes "AP2WEB_ENV")) (codes "production")))) known_envs
      (codes "production")

abbrev pub default_origins : Bool → Text
default_origins production =
    if production
    then []
    else codes "http://localhost:5173,http://127.0.0.1:5173,https://app.theprostatereview.com"

-- `self.rate_limits`
abbrev pub rate_limits_of : Environ → List (Text × Text)
rate_limits_of env =
    (codes "register", or_text (env (codes "AP2WEB_RATE_REGISTER")) (codes "10/minute"))
    ∷ (codes "login", or_text (env (codes "AP2WEB_RATE_LOGIN")) (codes "20/minute"))
    ∷ (codes "refresh", or_text (env (codes "AP2WEB_RATE_REFRESH")) (codes "30/minute"))
    ∷ (codes "prediction", or_text (env (codes "AP2WEB_RATE_PREDICTION")) (codes "60/minute"))
    ∷ (codes "fixture", or_text (env (codes "AP2WEB_RATE_FIXTURE")) (codes "60/minute"))
    ∷ (codes "sync", or_text (env (codes "AP2WEB_RATE_SYNC")) (codes "5/minute"))
    ∷ (codes "calibrate", or_text (env (codes "AP2WEB_RATE_CALIBRATE")) (codes "5/minute"))
    ∷ (codes "backtest", or_text (env (codes "AP2WEB_RATE_BACKTEST")) (codes "3/minute"))
    ∷ (codes "job_cancel", or_text (env (codes "AP2WEB_RATE_JOB_CANCEL")) (codes "30/minute"))
    ∷ (codes "admin", or_text (env (codes "AP2WEB_RATE_ADMIN")) (codes "20/minute"))
    ∷ []

module _ (to_int : Text → Option ℤ) where
  abbrev int_at : Environ → Text → ℕ → ℕ → ℕ → ℕ
  int_at env name default lo hi = as_int to_int (env name) default lo hi

  -- The attributes, for a secret and a database URL that have been read.
  unfoldable pub settings_of : Environ → Text → Text → Settings
  unfolding env_of lower strip member as_bool parse_origins split_list
  settings_of env secret url =
      let name = env_of env in
      let production = is_production name in
      record {
        env = name;
        secret = or_none secret;
        database_url = or_none url;
        bootstrap_admin_username =
            or_none (strip (or_text (env (codes "AP2WEB_BOOTSTRAP_ADMIN_USERNAME")) []));
        bootstrap_admin_password =
            or_none (strip (or_text (env (codes "AP2WEB_BOOTSTRAP_ADMIN_PASSWORD")) []));
        origins = parse_origins (env (codes "AP2WEB_ORIGINS")) (default_origins production);
        enforce_roles = as_bool (env (codes "AP2WEB_ENFORCE_ROLES")) production;
        enable_worker = as_bool (env (codes "AP2WEB_ENABLE_WORKER")) false;
        require_worker = as_bool (env (codes "AP2WEB_REQUIRE_WORKER")) production;
        worker_heartbeat_seconds = int_at env (codes "AP2WEB_WORKER_HEARTBEAT_SECONDS") 10 2 60;
        worker_lease_seconds = int_at env (codes "AP2WEB_WORKER_LEASE_SECONDS") 60 10 600;
        source_sync_max_age_seconds =
            int_at env (codes "AP2WEB_SOURCE_SYNC_MAX_AGE_SECONDS") 86400 60 2592000;
        cookie_secure = as_bool (env (codes "AP2WEB_COOKIE_SECURE")) production;
        cookie_samesite =
            one_of (lower (strip (or_text (env (codes "AP2WEB_COOKIE_SAMESITE")) (codes "lax"))))
              valid_samesite (codes "lax");
        access_token_ttl_minutes = int_at env (codes "AP2WEB_ACCESS_TOKEN_TTL_MINUTES") 30 1 1440;
        refresh_token_ttl_days = int_at env (codes "AP2WEB_REFRESH_TOKEN_TTL_DAYS") 7 1 90;
        csrf_enabled = as_bool (env (codes "AP2WEB_CSRF_ENABLED")) true;
        jwt_issuer = or_text (env (codes "AP2WEB_JWT_ISSUER")) (codes "ap2web");
        jwt_audience = or_text (env (codes "AP2WEB_JWT_AUDIENCE")) (codes "ap2web-api");
        jwt_clock_skew_seconds = int_at env (codes "AP2WEB_JWT_CLOCK_SKEW_SECONDS") 0 0 300;
        pbkdf2_iterations = int_at env (codes "AP2WEB_PBKDF2_ITERATIONS") 100000 10000 10000000;
        username_min = int_at env (codes "AP2WEB_USERNAME_MIN") 3 1 20;
        username_max = int_at env (codes "AP2WEB_USERNAME_MAX") 32 3 64;
        password_min = int_at env (codes "AP2WEB_PASSWORD_MIN") 8 6 64;
        password_max = int_at env (codes "AP2WEB_PASSWORD_MAX") 128 16 512;
        max_body_bytes = int_at env (codes "AP2WEB_MAX_BODY_BYTES") 1048576 4096 67108864;
        rate_limit_enabled = as_bool (env (codes "AP2WEB_RATE_LIMIT_ENABLED")) true;
        rate_limits = rate_limits_of env;
        audit_retention_days = int_at env (codes "AP2WEB_AUDIT_RETENTION_DAYS") 90 1 3650;
        rate_limit_storage =
            one_of
              (lower (
                strip (
                  or_text (env (codes "AP2WEB_RATE_LIMIT_STORAGE"))
                    (if production then codes "redis" else codes "memory"))))
              storages (codes "memory");
        redis_url = strip (or_text (env (codes "AP2WEB_REDIS_URL")) []);
        the_odds_api_key = strip (or_text (env (codes "THE_ODDS_API_KEY")) []);
        trusted_proxy_cidrs = split_list (or_text (env (codes "AP2WEB_TRUSTED_PROXY_CIDRS")) []);
      }
