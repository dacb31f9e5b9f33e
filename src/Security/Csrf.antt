-- ===== src/Security/Csrf.antt =====
-- `csrf_protect` of backend/app/security/csrf.py, and `error_code_for` of
-- backend/app/security/errors.py for what it raises.
use ap2web.Prelude.{
  Bool, Bool-cases, List, Option, Text, [], and-eq-true, codes, drop, false, if◌then◌else◌, inl,
  inr, is_empty, leb, lower, ltb, member, none, not, refl, some, starts_with, strip, sym, text_eq,
  text_eq_iff, true, ℕ, ◌&&◌, ◌-◌, ◌==◌, ◌||◌, ◌∙◌, ◌∷◌, ◌≡◌, ◌≢◌, ◌⊎◌,
}
use ap2web.Config.Env.{full}

-- What the check reads of a request; a header or a cookie that is missing is empty.
pub record CsrfRequest : Type 0 where
  pub method : Text
  pub authorization : Text
  pub access_cookie : Text
  pub refresh_cookie : Text
  pub csrf_header : Text
  pub csrf_cookie : Text

-- What the check raises: the status and the detail.
pub record Rejection : Type 0 where
  pub status_code : ℕ
  pub detail : Text

abbrev pub safe_methods : List Text
safe_methods = codes "GET" ∷ codes "HEAD" ∷ codes "OPTIONS" ∷ []

abbrev pub bearer_prefix : Text
bearer_prefix = codes "bearer "

-- A bearer credential that is not blank.
unfoldable pub has_bearer : Text → Bool
unfolding lower starts_with strip
has_bearer auth = starts_with (lower auth) bearer_prefix && not (is_empty (strip (drop 7 auth)))

abbrev pub has_session : CsrfRequest → Bool
has_session r = not (is_empty r.access_cookie) || not (is_empty r.refresh_cookie)

abbrev pub invalid_csrf : Rejection
invalid_csrf = record { status_code = 403; detail = codes "INVALID_CSRF" }

-- What becomes of the check: it returns, raises the HTTPException, which an audit event comes before,
-- or passes on the TypeError of `hmac.compare_digest`.
pub data Outcome : Type 0 where
  passed : Outcome
  rejected : Rejection → Outcome
  type_error : Outcome

-- `str.isascii`
abbrev pub is_ascii : Text → Bool
is_ascii [] = true
is_ascii (c ∷ s) = ltb c 128 && is_ascii s

-- `hmac.compare_digest` of two texts: `none` is the TypeError, for texts that are not both ASCII.
unfoldable pub compare_digest : Text → Text → Option Bool
unfolding text_eq
compare_digest a b = if is_ascii a && is_ascii b then some (text_eq a b) else none

-- The last guard: the token is missing on one side, or the two differ.
unfoldable pub check_token : Text → Text → Outcome
unfolding compare_digest
check_token supplied cookie_val =
    if is_empty supplied || is_empty cookie_val
    then rejected invalid_csrf
    else elim (compare_digest supplied cookie_val) [
      | none ↦ type_error
      | some equal ↦ if equal then passed else rejected invalid_csrf
    ]

-- `csrf_protect`
unfoldable pub csrf_protect : Bool → CsrfRequest → Outcome
unfolding check_token
csrf_protect enabled r =
    if not enabled
    then passed
    else if member r.method safe_methods
    then passed
    else if has_bearer r.authorization
    then passed
    else if not (has_session r)
    then passed
    else check_token r.csrf_header r.csrf_cookie

-- `_ERROR_CODES`
abbrev pub error_codes : List (ℕ × Text)
error_codes =
    (400, codes "VALIDATION_ERROR")
    ∷ (401, codes "AUTHENTICATION_REQUIRED")
    ∷ (403, codes "FORBIDDEN")
    ∷ (404, codes "NOT_FOUND")
    ∷ (409, codes "CONFLICT")
    ∷ (413, codes "PAYLOAD_TOO_LARGE")
    ∷ (429, codes "RATE_LIMITED")
    ∷ (500, codes "INTERNAL_ERROR")
    ∷ (503, codes "SERVICE_UNAVAILABLE")
    ∷ []

abbrev pub lookup_code : List (ℕ × Text) → ℕ → Text
lookup_code [] n = codes "INTERNAL_ERROR"
lookup_code ((k, t) ∷ ks) n = if k == n then t else lookup_code ks n

-- `str.upper` on ASCII letters.
abbrev pub upper : Text → Text
upper [] = []
upper (c ∷ s) = (if leb b'a' c && leb c b'z' then c - 32 else c) ∷ upper s

-- `error_code_for`
unfoldable pub error_code_for : ℕ → Text → Text
unfolding starts_with
error_code_for status detail =
    if starts_with (upper detail) (codes "INVALID_CSRF")
    then codes "CSRF_FAILED"
    else lookup_code error_codes status

invalid_csrf_code : error_code_for 403 (codes "INVALID_CSRF") ≡ codes "CSRF_FAILED"
unfolding error_code_for
invalid_csrf_code = refl

-- Why `check_token` lets the tokens pass, rejects them or breaks off.
abbrev Passes : Text → Text → Type 0
Passes a b = (check_token a b ≡ passed) × (is_empty b ≡ false) × (a ≡ b) × (is_ascii b ≡ true)

abbrev Rejects : Text → Text → Type 0
Rejects a b =
    (check_token a b ≡ rejected invalid_csrf)
    × ((is_empty a ≡ true)
        ⊎ ((is_empty b ≡ true) ⊎ ((is_ascii a ≡ true) × (is_ascii b ≡ true) × (a ≢ b))))

abbrev Breaks : Text → Text → Type 0
Breaks a b =
    (check_token a b ≡ type_error)
    × (is_empty a ≡ false)
    × (is_empty b ≡ false)
    × ((is_ascii a && is_ascii b) ≡ false)

differ : (a b : Text) → text_eq a b ≡ false → a ≢ b
differ a b h e = cc (sym ((text_eq_iff a b).1 e) ∙ h)

check_token-cases : (a b : Text) → Passes a b ⊎ (Rejects a b ⊎ Breaks a b)
unfolding check_token compare_digest
check_token-cases [] b = inr (inl (refl, inl refl))
check_token-cases (c ∷ a) [] = inr (inl (refl, inr (inl refl)))
check_token-cases (c ∷ a) (e ∷ b) = elim (Bool-cases (is_ascii (c ∷ a) && is_ascii (e ∷ b))) [
  | inr other ↦ inr (inr (rw other refl, refl, refl, other))
  | inl both ↦ elim (Bool-cases (text_eq (c ∷ a) (e ∷ b))) [
    | inl h ↦ inl (
      rw (both, h) refl,
      refl,
      (text_eq_iff (c ∷ a) (e ∷ b)).0 h,
      (and-eq-true (is_ascii (c ∷ a)) (is_ascii (e ∷ b)) both).1,
    )
    | inr h ↦
        let plain = and-eq-true (is_ascii (c ∷ a)) (is_ascii (e ∷ b)) both in
        inr (inl (rw (both, h) refl, inr (inr (plain.0, plain.1, differ (c ∷ a) (e ∷ b) h))))
  ]
]

-- Where the CSRF check is enabled, the method changes state and a session cookie came along, a
-- request passes in exactly two cases: it has a bearer credential, or it repeats the cookie's token,
-- not empty and in ASCII, in the header. Without the credential, it is refused with the code
-- CSRF_FAILED where a token is missing or two ASCII tokens differ, and the check breaks off with a
-- TypeError where both tokens are there and one of them is not ASCII.
pub csrf_protect-cases :
    (r : CsrfRequest)
    → member r.method safe_methods ≡ false
    → has_session r ≡ true
    → ((csrf_protect true r ≡ passed)
        × ((has_bearer r.authorization ≡ true)
            ⊎ ((has_bearer r.authorization ≡ false)
                × (is_empty r.csrf_cookie ≡ false)
                × (r.csrf_header ≡ r.csrf_cookie)
                × (is_ascii r.csrf_cookie ≡ true))))
      ⊎ (((has_bearer r.authorization ≡ false)
            × ((x : Rejection) × (csrf_protect true r ≡ rejected x)
                × (error_code_for x.status_code x.detail ≡ codes "CSRF_FAILED"))
            × ((is_empty r.csrf_header ≡ true)
                ⊎ ((is_empty r.csrf_cookie ≡ true)
                    ⊎ ((is_ascii r.csrf_header ≡ true)
                        × (is_ascii r.csrf_cookie ≡ true)
                        × (r.csrf_header ≢ r.csrf_cookie)))))
          ⊎ ((has_bearer r.authorization ≡ false)
              × (csrf_protect true r ≡ type_error)
              × (is_empty r.csrf_header ≡ false)
              × (is_empty r.csrf_cookie ≡ false)
              × ((is_ascii r.csrf_header && is_ascii r.csrf_cookie) ≡ false)))
unfolding csrf_protect
csrf_protect-cases r changes session = elim (Bool-cases (has_bearer r.authorization)) [
  | inl e ↦ inl (rw (changes, e) refl, inl e)
  | inr e ↦
      let same : csrf_protect true r ≡ check_token r.csrf_header r.csrf_cookie =
        rw (changes, e, session) refl in
      elim (check_token-cases r.csrf_header r.csrf_cookie) [
        | inl (result, full, equal, plain) ↦ inl (same ∙ result, inr (e, full, equal, plain))
        | inr (inl (result, why)) ↦
            inr (inl (e, (invalid_csrf, same ∙ result, invalid_csrf_code), why))
        | inr (inr (result, a, b, other)) ↦ inr (inr (e, same ∙ result, a, b, other))
      ]
]
