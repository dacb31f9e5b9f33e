-- ===== src/Security/Tests.antt =====
-- Concrete requests and values for the model of backend/app/security.
use ap2web.Security.Csrf.{
  CsrfRequest, Rejection, csrf_protect, csrf_protect-cases, error_code_for, has_bearer, is_ascii,
  passed, rejected, safe_methods, type_error,
}
use ap2web.Security.Redaction.{
  Fields, FieldsAreRedactionsOf, dict, field, no_fields, redact, redact-IsRedacted, text,
}
use ap2web.Security.Audit.{
  Attempt, AuditLog, AuditRow, audit_all, audit_all-audit_persistence_healthy, audit_event,
  audit_persistence_healthy,
}
use ap2web.Prelude.{
  All, Bool, List, Option, Text, [], codes, false, is_empty, lower, member, none, refl, some,
  starts_with, text_eq, true, ℕ, ◌&&◌, ◌∷◌, ◌≡◌, ◌≢◌, ◌⊎◌,
}

abbrev post : CsrfRequest
post = record {
  method = codes "POST";
  authorization = [];
  access_cookie = codes "jwt";
  refresh_cookie = [];
  csrf_header = codes "t1";
  csrf_cookie = codes "t2";
}

post_changes : member post.method safe_methods ≡ false
unfolding member text_eq
post_changes = refl

csrf_protect-cases_example :
    ((csrf_protect true post ≡ passed)
      × ((has_bearer post.authorization ≡ true)
          ⊎ ((has_bearer post.authorization ≡ false)
              × (is_empty post.csrf_cookie ≡ false)
              × (post.csrf_header ≡ post.csrf_cookie)
              × (is_ascii post.csrf_cookie ≡ true))))
    ⊎ (((has_bearer post.authorization ≡ false)
          × ((x : Rejection) × (csrf_protect true post ≡ rejected x)
              × (error_code_for x.status_code x.detail ≡ codes "CSRF_FAILED"))
          × ((is_empty post.csrf_header ≡ true)
              ⊎ ((is_empty post.csrf_cookie ≡ true)
                  ⊎ ((is_ascii post.csrf_header ≡ true)
                      × (is_ascii post.csrf_cookie ≡ true)
                      × (post.csrf_header ≢ post.csrf_cookie)))))
        ⊎ ((has_bearer post.authorization ≡ false)
            × (csrf_protect true post ≡ type_error)
            × (is_empty post.csrf_header ≡ false)
            × (is_empty post.csrf_cookie ≡ false)
            × ((is_ascii post.csrf_header && is_ascii post.csrf_cookie) ≡ false)))
csrf_protect-cases_example = csrf_protect-cases post post_changes refl

-- Equal tokens that are not ASCII do not pass: the comparison raises.
non_ascii_token :
    csrf_protect true (record post { csrf_header = codes "é"; csrf_cookie = codes "é" })
    ≡ type_error
unfolding csrf_protect member text_eq has_bearer lower starts_with
non_ascii_token = refl

-- Ranges by equality.
abbrev same_address : Text → Text → Option Bool
same_address peer range = some (text_eq peer range)

abbrev proxies : List Text
proxies = codes "10.0.0.1" ∷ []

outside_proxies : All (λ c. same_address (codes "203.0.113.9") c ≡ some false) proxies
unfolding text_eq
outside_proxies = (refl, tt)

-- A text is its own digest.
abbrev own_hash : Text → Text
own_hash t = t

abbrev login_metadata : Fields
login_metadata =
    field (codes "request") (dict (field (codes "Password") (text (codes "pw")) no_fields))
      no_fields

redact-IsRedacted_example :
    ((login_metadata ≡ no_fields) × (redact own_hash login_metadata ≡ none))
    ⊎ ((gs : Fields) × (redact own_hash login_metadata ≡ some (dict gs))
        × FieldsAreRedactionsOf own_hash 7 login_metadata gs)
redact-IsRedacted_example = redact-IsRedacted own_hash login_metadata

abbrev row : ℕ → AuditRow
row n = record { event_id = n; ts = n; action = codes "login" }

abbrev lossy : AuditLog
lossy =
    audit_event (record { row = row 1; first_try = false; second_try = false })
      (record { rows = []; failures = 0 })

abbrev stored : Attempt
stored = record { row = row 2; first_try = true; second_try = true }

lossy_sick : audit_persistence_healthy lossy ≡ false
unfolding audit_event
lossy_sick = refl

audit_all-audit_persistence_healthy_example :
    audit_persistence_healthy (audit_all (stored ∷ stored ∷ []) lossy) ≡ false
audit_all-audit_persistence_healthy_example =
    audit_all-audit_persistence_healthy (stored ∷ stored ∷ []) lossy (refl, (refl, tt)) lossy_sick
