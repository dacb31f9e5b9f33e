-- ===== src/RateLimit/Refusals.antt =====
-- When backend/app/ratelimit.py refuses a request.
use mathlib.Core.Option.{some-injective}
use ap2web.RateLimit.Limiter.{Strategy, check, consume, limits_of, parse_limits}
use ap2web.Prelude.{
  Bool, Bool-cases, List, Option, Text, [], arith, codes, false, inl, inr, max, none, refl, some,
  text_eq, true, ℕ, ◌∷◌, ◌≡◌, ◌≤◌,
}
use ap2web.Config.Env.{Environ}
use ap2web.Config.Settings.{rate_limits_of}

module _ {ℓ} {L S : Type ℓ} (o : Strategy L S) where
  consume_retry :
      (ls : List L) (item : Text) (s : S) {n : ℕ} → (consume o ls item s).0 ≡ some n → 1 ≤ n
  unfolding consume
  consume_retry [] item s h = cc
  consume_retry (l ∷ ls) item s {n} h = elim (Bool-cases (o.is_spent l item s)) [
    | inl e ↦ retry (o.wait l item s) (rw e at h)
    | inr e ↦ elim (Bool-cases (o.hit l item s).0) [
      | inr f ↦ retry (o.wait l item (o.hit l item s).1) (rw (e, f) at h)
      | inl f ↦ consume_retry ls item (o.hit l item s).1 (rw (e, f) at h)
    ]
  ]
    where
      retry : (w : ℕ) → ◌≡◌ {A = Option ℕ} (some (max 1 w)) (some n) → 1 ≤ n
      retry w p = omega (arith, some-injective (max 1 w) n p)

  -- A refused request may be retried after at least one second, and only an enabled limiter refuses.
  pub check-retry :
      (enabled : Bool) (limits : List (Text × List L)) (name item : Text) (s : S) {n : ℕ}
      → (check o enabled limits name item s).0 ≡ some n
      → (1 ≤ n) × (enabled ≡ true)
  unfolding check
  check-retry true limits name item s h = (consume_retry (limits_of o name limits) item s h, refl)
  check-retry false limits name item s h = cc

  -- With the limits of the configuration, the names mobile-login, mobile-refresh and mobile-logout,
  -- which the mobile endpoints ask for, are never limited: whatever the environment and the requests
  -- so far, the check passes and counts nothing.
  pub check-rate_limits_of :
      (env : Environ) (enabled : Bool) (item : Text) (s : S)
      → let limits = parse_limits o (rate_limits_of env) in
        (check o enabled limits (codes "mobile-login") item s ≡ (none, s))
        × (check o enabled limits (codes "mobile-refresh") item s ≡ (none, s))
        × (check o enabled limits (codes "mobile-logout") item s ≡ (none, s))
  unfolding check parse_limits limits_of consume text_eq
  check-rate_limits_of env true item s = (refl, refl, refl)
  check-rate_limits_of env false item s = (refl, refl, refl)
