-- ===== src/Jobs/Claim.antt =====
-- `claim_job` and `renew_job_lease` of backend/app/jobs/registry.py. Each is one atomic step on the
-- table: a sync is claimed under a lock, any other job by one UPDATE.
use ap2web.Prelude.{
  Bool, Text, [], any, false, if◌then◌else◌, member, none, not, some, text_eq, ℕ, ◌&&◌, ◌*◌, ◌+◌,
  ◌==◌, ◌∷◌,
}
use ap2web.Jobs.Table.{
  Job, Status, Table, exec, get_job, holds_text, is_pending, is_running, pending_id,
  running_of_type, sync_all, sync_league,
}

-- `_lease_until`
unfoldable pub lease_until : ℕ → ℕ → ℕ
lease_until now seconds = now + seconds * 1000000

-- The type that a sync must not overlap.
unfoldable pub other_type : Text → Text
other_type ty = if text_eq ty sync_all then sync_league else sync_all

module _ {F : Type 0} where
  unfoldable pub set_claimed : ℕ → Text → ℕ → Job F → Job F
  unfolding lease_until
  set_claimed now worker lease j = record j {
    status = Status.running;
    started_at = some now;
    worker_id = some worker;
    lease_expires_at = some (lease_until now lease);
    attempt_count = j.attempt_count + 1;
    updated_at = now;
  }

  abbrev pub claim_update : ℕ → ℕ → Text → ℕ → Table F → Bool × Table F
  claim_update now jid worker lease t =
      let (n, t') = exec (pending_id jid) (set_claimed now worker lease) t in (n == 1, t')

  -- The transaction of `claim_job` for the two types of sync.
  unfoldable pub claim_sync : ℕ → ℕ → Text → ℕ → Table F → Bool × Table F
  unfolding get_job other_type
  claim_sync now jid worker lease t = elim (get_job jid t) [
    | none ↦ (false, t)
    | some j ↦
        if not (is_pending j.status)
        then (false, t)
        else if any (running_of_type (other_type j.job_type)) t.rows
        then (false, t)
        else claim_update now jid worker lease t
  ]

  unfoldable pub claim_job : ℕ → ℕ → Text → ℕ → Table F → Bool × Table F
  unfolding get_job claim_sync
  claim_job now jid worker lease t = elim (get_job jid t) [
    | none ↦ (false, t)
    | some j ↦
        if member j.job_type (sync_all ∷ sync_league ∷ [])
        then claim_sync now jid worker lease t
        else claim_update now jid worker lease t
  ]

  abbrev pub owned_by : ℕ → Text → Job F → Bool
  owned_by jid worker j = j.id == jid && (is_running j.status && holds_text j.worker_id worker)

  unfoldable pub set_lease : ℕ → ℕ → Job F → Job F
  unfolding lease_until
  set_lease now lease j = record j {
    lease_expires_at = some (lease_until now lease);
    updated_at = now;
  }

  unfoldable pub renew_job_lease : ℕ → ℕ → Text → ℕ → Table F → Bool × Table F
  renew_job_lease now jid worker lease t =
      let (n, t') = exec (owned_by jid worker) (set_lease now lease) t in (n == 1, t')
