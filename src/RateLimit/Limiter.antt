-- ===== src/RateLimit/Limiter.antt =====
-- `AP2RateLimiter` and `_request_identity` of backend/app/ratelimit.py. The limits library is an
-- argument: parsed limits of a type `L` and a storage of a type `S`. The audit event of a refusal is
-- left out.
use ap2web.Prelude.{
  Bool, List, Option, Text, [], codes, drop, if◌then◌else◌, is_empty, lower, max, none, not, some,
  starts_with, strip, text_eq, ℕ, ◌++◌, ◌∷◌,
}

-- What is used of the limits library, at one time.
pub record Strategy {ℓ} (L S : Type ℓ) : Type ℓ where
  -- `stats.remaining <= 0`
  pub is_spent : L → Text → S → Bool
  -- `math.ceil(stats.reset_time - time.time())`, 0 if that is negative.
  pub wait : L → Text → S → ℕ
  pub hit : L → Text → S → Bool × S
  pub parse_many : Text → Option (List L)

module _ {ℓ} {L S : Type ℓ} (o : Strategy L S) where
  -- `AP2RateLimiter.__init__`: a specification that does not parse has no limits.
  unfoldable pub parse_limits : List (Text × Text) → List (Text × List L)
  parse_limits [] = []
  parse_limits ((name, spec) ∷ specs) =
      (name, elim (o.parse_many spec) [ none ↦ [] | some ls ↦ ls ]) ∷ parse_limits specs

  -- `self._limits.get(name)`; a name that is missing has no limits.
  unfoldable pub limits_of : Text → List (Text × List L) → List L
  unfolding text_eq
  limits_of name [] = []
  limits_of name ((n, ls) ∷ rest) =
      let later = limits_of name rest in if text_eq n name then ls else later

  -- The loop over the limits: the seconds to retry after, and the storage.
  unfoldable pub consume : List L → Text → S → Option ℕ × S
  consume [] item s = (none, s)
  consume (l ∷ ls) item s =
      let (granted, s') = o.hit l item s in
      let rest = consume ls item s' in
      if o.is_spent l item s
      then (some (max 1 (o.wait l item s)), s)
      else if not granted
      then (some (max 1 (o.wait l item s')), s')
      else rest

  -- `check`
  unfoldable pub check : Bool → List (Text × List L) → Text → Text → S → Option ℕ × S
  unfolding limits_of consume
  check enabled limits name item s =
      if not enabled then (none, s) else consume (limits_of name limits) item s

-- The text behind "Bearer ", or nothing.
abbrev pub bearer_token : Text → Text
bearer_token auth = if starts_with (lower auth) (codes "bearer ") then strip (drop 7 auth) else []

-- `_request_identity`; the decoding of a token without its signature is an argument, and has no
-- subject when it fails.
unfoldable pub request_identity : (Text → Option Text) → Text → Text → Text → Text
unfolding lower starts_with strip
request_identity subject auth cookie ip =
    let bearer = bearer_token auth in
    let token = if is_empty bearer then cookie else bearer in
    let sub = if is_empty token then none else subject token in
    elim sub [
      | none ↦ codes "ip:" ++ ip
      | some t ↦ if is_empty t then codes "ip:" ++ ip else codes "user:" ++ t
    ]
