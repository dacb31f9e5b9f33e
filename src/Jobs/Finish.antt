-- ===== src/Jobs/Finish.antt =====
-- How a job ends, and its progress before (backend/app/jobs/registry.py): completion, failure,
-- progress, cancellation and the recovery of expired leases.
use ap2web.Jobs.Table.{
  Job, JobError, Status, Table, active_id, exec, get_job, is_active, is_running, job_not_found,
  permission_error, running_id,
}
use ap2web.Jobs.Claim.{renew_job_lease}
use ap2web.Prelude.{
  Bool, List, Option, Result, Text, [], codes, err, false, get_or_else, if◌then◌else◌, is_empty,
  length, ltb, member, none, not, ok, select, some, take, true, ℕ, ◌&&◌, ◌==◌, ◌||◌, ◌∷◌,
}
use ap2web.Users.{Caller, User, role_of, user_id_by_name}

-- `==` on what may be None; None equals None.
abbrev pub same_number : Option ℕ → Option ℕ → Bool
same_number none none = true
same_number none (some b) = false
same_number (some a) none = false
same_number (some a) (some b) = a == b

module _ {F : Type 0} where
  unfoldable pub set_completed : ℕ → Text → F → Job F → Job F
  set_completed now res progress j = record j {
    status = Status.completed;
    idempotency_key = none;
    progress = progress;
    result = some res;
    finished_at = some now;
    updated_at = now;
  }

  unfoldable pub complete_job : ℕ → ℕ → Text → F → Table F → Table F
  complete_job now jid res progress t = (exec (running_id jid) (set_completed now res progress) t).1

  unfoldable pub set_failed : ℕ → Text → Text → Job F → Job F
  set_failed now error res j = record j {
    status = Status.failed;
    idempotency_key = none;
    error_message = some (take 2000 error);
    result = some res;
    finished_at = some now;
    updated_at = now;
  }

  unfoldable pub fail_job : ℕ → ℕ → Text → Text → Table F → Table F
  fail_job now jid error res t = (exec (running_id jid) (set_failed now error res) t).1

  -- `max(0.0, min(float(progress), 1.0))`, over the comparison `<` of floats: `min` and `max` return
  -- their first argument unless the second is smaller, or larger.
  unfoldable pub bounded : (F → F → Bool) → F → F → F → F
  bounded lt lo hi p = let q = if lt hi p then hi else p in if lt lo q then q else lo

  unfoldable pub set_progress : ℕ → F → Job F → Job F
  set_progress now p j = record j { progress = p; updated_at = now }

  -- A worker id that is missing or empty renews nothing.
  abbrev pub renew_if : ℕ → ℕ → Option Text → ℕ → Table F → Table F
  renew_if now jid none lease t = t
  renew_if now jid (some w) lease t =
      if is_empty w then t else (renew_job_lease now jid w lease t).1

  unfoldable pub update_progress :
      (F → F → Bool) → F → F → ℕ → ℕ → F → Option Text → ℕ → Table F → Table F
  unfolding bounded
  update_progress lt lo hi now jid p worker lease t =
      (exec (running_id jid) (set_progress now (bounded lt lo hi p))
        (renew_if now jid worker lease t)).1

  unfoldable pub set_cancelled : ℕ → Job F → Job F
  set_cancelled now j = record j {
    status = Status.cancelled;
    idempotency_key = none;
    cancelled_at = some now;
    updated_at = now;
  }

  abbrev pub is_owner : List User → Caller → Job F → Bool
  is_owner users c j = same_number j.requested_by c.user_id || elim c.username [
    | none ↦ false
    | some name ↦ same_number j.requested_by (user_id_by_name name users)
  ]

  -- The job is found, the caller may cancel it, and it is active.
  unfoldable pub cancel_job :
      ℕ → List User → Caller → ℕ → Table F → Result JobError (Job F) × Table F
  unfolding get_job
  cancel_job now users c jid t = elim (get_job jid t) [
    | none ↦ (err job_not_found, t)
    | some j ↦
        if not (member (role_of c.role) (codes "admin" ∷ codes "operator" ∷ []))
          && not (is_owner users c j)
        then (err permission_error, t)
        else if not (is_active j.status)
        then (ok j, t)
        else (let t' = (exec (active_id jid) (set_cancelled now) t).1 in
            (ok (get_or_else j (get_job jid t')), t'))
  ]

  -- `lease_expires_at < ?`
  abbrev pub expired : ℕ → Job F → Bool
  expired now j = elim j.lease_expires_at [ none ↦ false | some l ↦ ltb l now ]

  abbrev pub is_stale : ℕ → Job F → Bool
  is_stale now j = is_running j.status && expired now j

  unfoldable pub set_recovered : ℕ → Job F → Job F
  set_recovered now j = record j {
    status = Status.failed;
    idempotency_key = none;
    error_message = some (codes "recovered: worker lease expired");
    finished_at = some now;
    updated_at = now;
  }

  -- The loop of `recover_expired_jobs` over the rows that its SELECT returned.
  unfoldable pub recover_each : ℕ → List (Job F) → Table F → Table F
  recover_each now [] t = t
  recover_each now (r ∷ rs) t =
      recover_each now rs (exec (λ j. j.id == r.id && is_stale now j) (set_recovered now) t).1

  unfoldable pub recover_expired_jobs : ℕ → Table F → ℕ × Table F
  unfolding recover_each
  recover_expired_jobs now t =
      let stale = select (is_stale now) t.rows in (length stale, recover_each now stale t)
