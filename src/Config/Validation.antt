-- ===== src/Config/Validation.antt =====
-- `Settings.validate` of backend/app/config.py, and the construction of the settings that ends with
-- it.
use ap2web.Config.Env.{Environ, read_env_value, ℤ}
use ap2web.Config.Settings.{Settings, is_production, settings_of}
use ap2web.Prelude.{
  Bool, List, Option, Result, Text, [], codes, contains, err, false, first, if◌then◌else◌, is_empty,
  is_some, length, ltb, member, none, not, ok, some, starts_with, strip, text_eq, true, ◌&&◌, ◌||◌,
  ◌∷◌,
}

-- The reasons for which a RuntimeError is raised.
pub data ConfigError : Type 0 where
  cannot_read : Text → ConfigError
  bootstrap_incomplete : ConfigError
  secret_missing : ConfigError
  secret_short : ConfigError
  secret_placeholder : ConfigError
  roles_optional : ConfigError
  cookie_insecure : ConfigError
  origins_missing : ConfigError
  origins_wildcard : ConfigError
  origin_wildcard : Text → ConfigError
  storage_memory : ConfigError
  redis_url_missing : ConfigError
  worker_optional : ConfigError
  database_not_postgres : ConfigError

-- `_DEV_PLACEHOLDER_SECRETS`
abbrev pub placeholder_secrets : List Text
placeholder_secrets =
    codes "dev-secret-change-me-please-use-env-var-0123456789abcdef"
    ∷ codes "change-me-in-render"
    ∷ codes "troque-esta-chave-por-um-valor-aleatorio-de-64-caracteres"
    ∷ codes "replace-with-a-random-secret-at-least-32-characters"
    ∷ codes "change-me"
    ∷ codes "secret"
    ∷ codes "password"
    ∷ codes "changeme"
    ∷ codes "qwerty"
    ∷ codes "12345678"
    ∷ []

-- `is_placeholder`, of a secret that is set.
unfoldable pub is_placeholder : Text → Bool
unfolding member strip
is_placeholder secret = member (strip secret) placeholder_secrets

-- `is_secret_weak`
unfoldable pub is_secret_weak : Option Text → Bool
unfolding strip is_placeholder
is_secret_weak none = true
is_secret_weak (some t) = is_empty t || (let s = strip t in ltb (length s) 32 || is_placeholder s)

abbrev pub star : Text
star = codes "*"

unfoldable pub is_wildcard : Text → Bool
unfolding starts_with contains
is_wildcard o = starts_with o star || contains o (codes "://*") || contains o (codes "*.")

unfoldable pub uses_postgres : Text → Bool
unfolding starts_with
uses_postgres u = starts_with u (codes "postgresql://") || starts_with u (codes "postgres://")

-- The checks of one secret.
unfoldable pub check_secret : Option Text → Option ConfigError
unfolding is_placeholder
check_secret none = some secret_missing
check_secret (some t) =
    if ltb (length t) 32
    then some secret_short
    else if is_placeholder t
    then some secret_placeholder
    else none

unfoldable pub check_origins : List Text → Option ConfigError
unfolding member is_wildcard
check_origins origins =
    if is_empty origins
    then some origins_missing
    else if member star origins
    then some origins_wildcard
    else elim (first is_wildcard origins) [ none ↦ none | some o ↦ some (origin_wildcard o) ]

abbrev pub is_memory : Text → Bool
is_memory t = text_eq t (codes "memory")

abbrev pub is_redis : Text → Bool
is_redis t = text_eq t (codes "redis")

abbrev pub database_ok : Option Text → Bool
database_ok none = false
database_ok (some u) = not (is_empty u) && uses_postgres u

-- The checks behind the origins.
unfoldable pub check_services : Settings → Option ConfigError
unfolding uses_postgres
check_services s =
    if is_memory s.rate_limit_storage
    then some storage_memory
    else if is_redis s.rate_limit_storage && is_empty s.redis_url
    then some redis_url_missing
    else if not s.require_worker
    then some worker_optional
    else if not (database_ok s.database_url)
    then some database_not_postgres
    else none

unfoldable pub check_production : Settings → Option ConfigError
unfolding check_secret check_origins check_services
check_production s = elim (check_secret s.secret) [
  | some e ↦ some e
  | none ↦
      if not s.enforce_roles
      then some roles_optional
      else if not s.cookie_secure
      then some cookie_insecure
      else elim (check_origins s.origins) [ some e ↦ some e | none ↦ check_services s ]
]

unfoldable pub check_development : Settings → Option ConfigError
unfolding member
check_development s =
    if member star s.origins
    then some origins_wildcard
    else if is_redis s.rate_limit_storage && is_empty s.redis_url
    then some redis_url_missing
    else none

-- `validate`: the error, if there is one.
unfoldable pub validate : Settings → Option ConfigError
unfolding check_production check_development
validate s =
    if is_some s.bootstrap_admin_username && not (is_some s.bootstrap_admin_password)
      || (not (is_some s.bootstrap_admin_username) && is_some s.bootstrap_admin_password)
    then some bootstrap_incomplete
    else if is_production s.env
    then check_production s
    else check_development s

-- `Settings(environ)`
unfoldable pub load :
    (Text → Option ℤ) → (Text → Option Text) → Environ → Result ConfigError Settings
unfolding read_env_value settings_of validate
load to_int read_file env = elim (read_env_value read_file env (codes "AP2WEB_SECRET")) [
  | none ↦ err (cannot_read (codes "AP2WEB_SECRET"))
  | some secret ↦ elim (read_env_value read_file env (codes "DATABASE_URL")) [
    | none ↦ err (cannot_read (codes "DATABASE_URL"))
    | some url ↦
        let s = settings_of to_int env secret url in
        elim (validate s) [ some e ↦ err e | none ↦ ok s ]
  ]
]
