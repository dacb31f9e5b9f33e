-- ===== src/Jobs/Runs.antt =====
-- The safety of the job system over every run: what backend/app/jobs promises however the calls of
-- the API and of the workers interleave.
use ap2web.Jobs.Table.{Job, Table, active_id, exec, get_job, has_id, is_active, running_id}
use ap2web.Jobs.Claim.{owned_by, renew_job_lease, set_lease}
use ap2web.Jobs.Finish.{
  cancel_job, complete_job, fail_job, is_owner, is_stale, set_cancelled, set_completed, set_failed,
  set_progress, set_recovered,
}
use ap2web.Jobs.Lifecycle.{
  RowIsValid, one_attempt, running_calm, set_cancelled-Legal, set_cancelled_calm,
  set_completed-Legal, set_failed-Legal, set_lease-Legal, set_lease_calm, set_progress-Legal,
  set_recovered-Legal, set_recovered_calm,
}
use ap2web.Jobs.Invariant.{IsValid}
use ap2web.Jobs.Evolution.{Evolves, Evolves-reaches, Evolves-trans, Follows, first-Evolves, reaches}
use ap2web.Jobs.Insertion.{insert_job-IsValid}
use ap2web.Jobs.Steps.{Run, Sound, Sound-self, Step, claim-Sound, exec-Sound}
use ap2web.Prelude.{
  All-first, Bool-cases, List, Option-cases, [], codes, first, inl, inr, member, not, some, ℕ, ◌&&◌,
  ◌==◌, ◌∷◌, ◌≡◌, ◌≤◌,
}
use ap2web.Users.{Caller, User, role_of}

module _ {F : Type 0} where
  cancel-Sound :
      (now : ℕ) (users : List User) (c : Caller) (jid : ℕ) (t : Table F)
      → IsValid t
      → Sound t (cancel_job now users c jid t).1
  unfolding cancel_job
  cancel-Sound now users c jid t v = elim (Option-cases (first (has_id jid) t.rows)) [
    | inl e ↦ rw (e, cancel_job, get_job) (Sound-self t v)
    | inr (j, e) ↦
        elim (Bool-cases (
          not (member (role_of c.role) (codes "admin" ∷ codes "operator" ∷ []))
          && not (is_owner users c j))) [
            | inl refused ↦ rw (e, cancel_job, get_job) (rw refused (Sound-self t v))
            | inr permitted ↦ elim (Bool-cases (is_active j.status)) [
              | inr ended ↦ rw (e, cancel_job, get_job) (rw permitted (rw ended (Sound-self t v)))
              | inl live ↦ rw (e, cancel_job, get_job) (rw permitted (rw live cancelled))
            ]
          ]
  ]
    where
      cancelled : Sound t (exec (active_id jid) (set_cancelled now) t).1
      cancelled =
          exec-Sound (active_id jid) (set_cancelled now) t (set_cancelled-Legal now jid)
            (set_cancelled_calm now jid) v

  step-Sound : {t u : Table F} → Step F t u → IsValid t → Sound t u
  unfolding renew_job_lease complete_job fail_job
  step-Sound (Step.insert z now ty by league params key t) v =
      insert_job-IsValid z now by ty params key league t v
  step-Sound (Step.claim now jid worker lease t) v = claim-Sound now jid worker lease t v
  step-Sound (Step.renew now jid worker lease t) v =
      exec-Sound (owned_by jid worker) (set_lease now lease) t
        (set_lease-Legal now lease jid worker) (set_lease_calm now lease jid worker) v
  step-Sound (Step.complete now jid res p t) v =
      exec-Sound (running_id jid) (set_completed now res p) t (set_completed-Legal now res p jid)
        (running_calm jid (set_completed now res p)) v
  step-Sound (Step.fail now jid error res t) v =
      exec-Sound (running_id jid) (set_failed now error res) t (set_failed-Legal now error res jid)
        (running_calm jid (set_failed now error res)) v
  step-Sound (Step.report now jid p t) v =
      exec-Sound (running_id jid) (set_progress now p) t (set_progress-Legal now p jid)
        (running_calm jid (set_progress now p)) v
  step-Sound (Step.cancel now users c jid t) v = cancel-Sound now users c jid t v
  step-Sound (Step.recover now jid t) v =
      exec-Sound (λ j. j.id == jid && is_stale now j) (set_recovered now) t
        (set_recovered-Legal now jid) (set_recovered_calm now jid) v

  Run-sound : {s t : Table F} → Run F s t → IsValid s → IsValid t × Evolves reaches s.rows t.rows
  Run-sound {s} Run.here v = (v, Evolves-reaches s.rows)
  Run-sound {s} (Run.next {t} {u} r st) v =
      let (vt, before) = Run-sound r v in
      let (vu, after) = step-Sound st vt in (vu, Evolves-trans s.rows t.rows u.rows before after)

  -- The invariant of the job table is preserved by every run: the columns of each row fit its
  -- status, ids and idempotency keys are unique, and a full sync never runs beside a targeted one.
  -- The calls interleave, and what `create_job` inserts may rest on a table that has changed since.
  pub Run-IsValid : {s t : Table F} → IsValid s → Run F s t → IsValid t
  Run-IsValid v r = (Run-sound r v).0

  -- Over any run from a valid table a job that exists goes on existing under its id and type, its
  -- status is one that its life cycle reaches, and once it has ended its row never changes.
  pub Run-get_job :
      {s t : Table F} (jid : ℕ) {x : Job F}
      → IsValid s
      → Run F s t
      → get_job jid s ≡ some x
      → (y : Job F) × (get_job jid t ≡ some y) × Follows reaches x y
  unfolding get_job
  Run-get_job {s} {t} jid {x} v r found =
      first-Evolves reaches jid s.rows t.rows {x = x} ((Run-sound r v).1) found

  -- No job is claimed twice: after any run from a valid table, each job's count of attempts is at
  -- most one.
  pub Run-attempt_count :
      {s t : Table F} (jid : ℕ) {y : Job F}
      → IsValid s
      → Run F s t
      → get_job jid t ≡ some y
      → y.attempt_count ≤ 1
  unfolding get_job
  Run-attempt_count {s} {t} jid {y} v r found =
      one_attempt y
        (All-first RowIsValid (has_id jid) t.rows {a = y} ((Run-IsValid v r).rows_valid) found)
