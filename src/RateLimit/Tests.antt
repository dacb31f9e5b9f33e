-- ===== src/RateLimit/Tests.antt =====
-- A concrete limiter for the model of backend/app/ratelimit.py: a limit is a number of hits, and the
-- storage counts the hits.
use ap2web.RateLimit.Limiter.{Strategy, check, parse_limits}
use ap2web.RateLimit.Refusals.{check-rate_limits_of}
use ap2web.Prelude.{
  List, Text, [], codes, leb, ltb, none, refl, some, suc, text_eq, true, ℕ, ◌∷◌, ◌≡◌,
}
use ap2web.Config.Env.{Environ}
use ap2web.Config.Settings.{rate_limits_of}

abbrev counting : Strategy ℕ ℕ
counting = record {
  is_spent = λ l item s. leb l s;
  wait = λ l item s. 30;
  hit = λ l item s. (ltb s l, suc s);
  parse_many = λ spec. some (2 ∷ []);
}

abbrev limits : List (Text × List ℕ)
limits = (codes "login", 2 ∷ []) ∷ []

spent : (check counting true limits (codes "login") (codes "ip:a") 2).0 ≡ some 30
unfolding check text_eq
spent = refl

abbrev empty_env : Environ
empty_env name = none

check-rate_limits_of_example :
    let ls = parse_limits counting (rate_limits_of empty_env) in
    (check counting true ls (codes "mobile-login") (codes "ip:a") 7 ≡ (none, 7))
    × (check counting true ls (codes "mobile-refresh") (codes "ip:a") 7 ≡ (none, 7))
    × (check counting true ls (codes "mobile-logout") (codes "ip:a") 7 ≡ (none, 7))
check-rate_limits_of_example = check-rate_limits_of counting empty_env true (codes "ip:a") 7
