-- ===== src/Config/Ranges.antt =====
-- What every loaded configuration of backend/app/config.py satisfies.
use ap2web.Config.Env.{Environ, as_int, clamp, negsuc, or_text, parsed, pos, read_env_value, ℤ}
use ap2web.Config.Settings.{
  Settings, env_of, is_production, known_envs, one_of, settings_of, storages, valid_samesite,
}
use ap2web.Config.Validation.{ConfigError, load, validate}
use ap2web.Config.Safety.{Safe, validate-Safe}
use ap2web.Prelude.{
  Bool-cases, List, Option, Option-cases, Result, Text, arith, codes, if◌then◌else◌, inl, inr,
  lower, member, none, ok, refl, strip, subst, sym, text_eq, true, ℕ, ◌≡◌, ◌≤◌,
}

abbrev pub Within : ℕ → ℕ → ℕ → Type 0
Within lo hi n = (lo ≤ n) × (n ≤ hi)

pub record InRange (s : Settings) : Type 0 where
  pub env : member s.env known_envs ≡ true
  pub cookie_samesite : member s.cookie_samesite valid_samesite ≡ true
  pub rate_limit_storage : member s.rate_limit_storage storages ≡ true
  pub worker_heartbeat_seconds : Within 2 60 s.worker_heartbeat_seconds
  pub worker_lease_seconds : Within 10 600 s.worker_lease_seconds
  pub source_sync_max_age_seconds : Within 60 2592000 s.source_sync_max_age_seconds
  pub access_token_ttl_minutes : Within 1 1440 s.access_token_ttl_minutes
  pub refresh_token_ttl_days : Within 1 90 s.refresh_token_ttl_days
  pub jwt_clock_skew_seconds : Within 0 300 s.jwt_clock_skew_seconds
  pub pbkdf2_iterations : Within 10000 10000000 s.pbkdf2_iterations
  pub username_min : Within 1 20 s.username_min
  pub username_max : Within 3 64 s.username_max
  pub password_min : Within 6 64 s.password_min
  pub password_max : Within 16 512 s.password_max
  pub max_body_bytes : Within 4096 67108864 s.max_body_bytes
  pub audit_retention_days : Within 1 3650 s.audit_retention_days

clamp-Within : (lo hi : ℕ) (z : ℤ) → lo ≤ hi → Within lo hi (clamp lo hi z)
unfolding clamp
clamp-Within lo hi (negsuc n) h = ground arith
clamp-Within lo hi (pos n) h = ground arith

as_int-Within :
    (to_int : Text → Option ℤ) (value : Option Text) (default lo hi : ℕ)
    → lo ≤ hi
    → Within lo hi (as_int to_int value default lo hi)
unfolding as_int
as_int-Within to_int value default lo hi h = clamp-Within lo hi (parsed to_int value default) h

member-one_of :
    (t : Text) (known : List Text) (default : Text)
    → member default known ≡ true
    → member (one_of t known default) known ≡ true
member-one_of t known default h = elim (Bool-cases (member t known)) [
  | inl e ↦ rw (e, one_of) e
  | inr e ↦ rw (e, one_of) h
]

module _ (to_int : Text → Option ℤ) (read_file : Text → Option Text) (env : Environ) where
  settings_of-InRange : (secret url : Text) → InRange (settings_of to_int env secret url)
  unfolding settings_of env_of member text_eq
  settings_of-InRange secret url = record {
    env =
        member-one_of (lower (strip (or_text (env (codes "AP2WEB_ENV")) (codes "production"))))
          known_envs (codes "production") refl;
    cookie_samesite =
        member-one_of (lower (strip (or_text (env (codes "AP2WEB_COOKIE_SAMESITE")) (codes "lax"))))
          valid_samesite (codes "lax") refl;
    rate_limit_storage =
        member-one_of
          (lower (
            strip (
              or_text (env (codes "AP2WEB_RATE_LIMIT_STORAGE"))
                (if is_production (env_of env) then codes "redis" else codes "memory"))))
          storages (codes "memory") refl;
    worker_heartbeat_seconds = as_int-Within to_int _ 10 2 60 (omega arith);
    worker_lease_seconds = as_int-Within to_int _ 60 10 600 (omega arith);
    source_sync_max_age_seconds = as_int-Within to_int _ 86400 60 2592000 (omega arith);
    access_token_ttl_minutes = as_int-Within to_int _ 30 1 1440 (omega arith);
    refresh_token_ttl_days = as_int-Within to_int _ 7 1 90 (omega arith);
    jwt_clock_skew_seconds = as_int-Within to_int _ 0 0 300 (omega arith);
    pbkdf2_iterations = as_int-Within to_int _ 100000 10000 10000000 (omega arith);
    username_min = as_int-Within to_int _ 3 1 20 (omega arith);
    username_max = as_int-Within to_int _ 32 3 64 (omega arith);
    password_min = as_int-Within to_int _ 8 6 64 (omega arith);
    password_max = as_int-Within to_int _ 128 16 512 (omega arith);
    max_body_bytes = as_int-Within to_int _ 1048576 4096 67108864 (omega arith);
    audit_retention_days = as_int-Within to_int _ 90 1 3650 (omega arith);
  }

  -- Settings that are loaded passed the validation.
  loaded :
      {s : Settings}
      → load to_int read_file env ≡ ok s
      → (secret : Text) × (url : Text) × (s ≡ settings_of to_int env secret url)
        × (validate s ≡ none)
  unfolding load
  loaded {s} h = elim (Option-cases (read_env_value read_file env (codes "AP2WEB_SECRET"))) [
    | inl e ↦ cc (rw (e, load) at h)
    | inr (secret, e) ↦ elim (Option-cases (read_env_value read_file env (codes "DATABASE_URL"))) [
      | inl f ↦ cc (rw f at rw (e, load) at h)
      | inr (url, f) ↦
          let t = settings_of to_int env secret url in
          elim (Option-cases (validate t)) [
            | inr (x, g) ↦ cc (rw (f, g) at rw (e, load) at h)
            | inl g ↦
                let same = ok_same t s (rw (f, g) at rw (e, load) at h) in
                (secret, url, sym same, subst (λ u. validate u ≡ none) same g)
          ]
    ]
  ]
    where
      ok_same : (a b : Settings) → ◌≡◌ {A = Result ConfigError Settings} (ok a) (ok b) → a ≡ b
      ok_same a b p = cc

  -- A configuration that loads, whatever the environment holds: each number lies in its range, the
  -- environment's name, the SameSite mode and the storage are known ones, and in production the
  -- settings are safe.
  pub load-InRange :
      {s : Settings}
      → load to_int read_file env ≡ ok s
      → InRange s × (is_production s.env ≡ true → Safe s)
  load-InRange {s} h =
      let (secret, url, same, valid) = loaded h in
      (
        subst InRange (sym same) (settings_of-InRange secret url),
        λ production. ((validate-Safe s production).0 valid).1,
      )
