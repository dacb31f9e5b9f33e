-- ===== src/Security/Audit.antt =====
-- The durable audit log of backend/app/security/audit.py: persistence with one retry, the counter of
-- failures, the listing and the retention. Whether an INSERT succeeds is an argument.
use mathlib.Core.List.{reverse}
use ap2web.Prelude.{
  All, Bool, Bool-cases, List, Option, Text, [], arith, false, if◌then◌else◌, inl, inr, is_empty,
  leb, length, max, min, none, refl, select, some, suc, take, text_eq, true, ℕ, ◌*◌, ◌++◌, ◌-◌,
  ◌==◌, ◌||◌, ◌∷◌, ◌≡◌,
}

-- A row of `audit_events`; the other columns play no part here.

pub record AuditRow : Type 0 where
  pub event_id : ℕ
  pub ts : ℕ
  pub action : Text

pub record AuditLog : Type 0 where
  pub rows : List AuditRow
  pub failures : ℕ

-- One call of `audit_event`: its row, and whether the first and the second INSERT succeed.
pub record Attempt : Type 0 where
  pub row : AuditRow
  pub first_try : Bool
  pub second_try : Bool

-- `audit_event`
unfoldable pub audit_event : Attempt → AuditLog → AuditLog
audit_event a log =
    if a.first_try
    then record log { rows = log.rows ++ (a.row ∷ []) }
    else if a.second_try
    then record { rows = log.rows ++ (a.row ∷ []); failures = 0 }
    else record log { failures = suc log.failures }

-- `audit_persistence_healthy`
abbrev pub audit_persistence_healthy : AuditLog → Bool
audit_persistence_healthy log = log.failures == 0

-- A sequence of events.
unfoldable pub audit_all : List Attempt → AuditLog → AuditLog
unfolding audit_event
audit_all [] log = log
audit_all (a ∷ attempts) log = audit_all attempts (audit_event a log)

abbrev pub has_action : Option Text → AuditRow → Bool
has_action none e = true
has_action (some t) e = if is_empty t then true else text_eq e.action t

-- `admin_audit_records`
unfoldable pub admin_audit_records : ℕ → Option Text → AuditLog → List AuditRow
unfolding text_eq
admin_audit_records limit action log =
    take (max 1 (min limit 500)) (reverse (select (has_action action) log.rows))

-- `older_than_days or audit_retention_days`
abbrev pub days_kept : ℕ → Option ℕ → ℕ
days_kept retention none = retention
days_kept retention (some n) = if n == 0 then retention else n

abbrev pub is_kept : ℕ → AuditRow → Bool
is_kept cutoff e = leb cutoff e.ts

-- `prune_audit_log`: the number of deleted rows, and the log.
unfoldable pub prune_audit_log : ℕ → ℕ → Option ℕ → AuditLog → ℕ × AuditLog
prune_audit_log now retention older_than log =
    let cutoff = now - days_kept retention older_than * 86400 in
    let kept = select (is_kept cutoff) log.rows in
    (length log.rows - length kept, record log { rows = kept })

-- An event is stored exactly if one of its two attempts succeeds, and then once; an event that is lost
-- leaves the log unhealthy.
pub audit_event-rows :
    (a : Attempt) (log : AuditLog)
    → ((a.first_try || a.second_try) ≡ true → (audit_event a log).rows ≡ log.rows ++ (a.row ∷ []))
      × ((a.first_try || a.second_try) ≡ false
          → ((audit_event a log).rows ≡ log.rows)
            × (audit_persistence_healthy (audit_event a log) ≡ false))
unfolding audit_event
audit_event-rows a log = elim (Bool-cases a.first_try) [
  | inl e ↦ rw e (λ h. refl, λ h. cc h)
  | inr e ↦ elim (Bool-cases a.second_try) [
    | inl f ↦ rw (e, f) (λ h. refl, λ h. cc h)
    | inr f ↦ rw (e, f) (λ h. cc h, λ h. (refl, sick log.failures))
  ]
]
  where
    sick : (n : ℕ) → (suc n == 0) ≡ false
    sick n = ground arith

-- The log does not become healthy again by events that are stored at the first attempt: from an
-- unhealthy log every sequence of such events, however long, ends in an unhealthy log.
pub audit_all-audit_persistence_healthy :
    (attempts : List Attempt) (log : AuditLog)
    → All (λ a. a.first_try ≡ true) attempts
    → audit_persistence_healthy log ≡ false
    → audit_persistence_healthy (audit_all attempts log) ≡ false
unfolding audit_all audit_event
audit_all-audit_persistence_healthy [] log stored sick = sick
audit_all-audit_persistence_healthy (a ∷ attempts) log stored sick =
    audit_all-audit_persistence_healthy attempts (audit_event a log) (stored.1)
      (rw (stored.0, audit_event) sick)
