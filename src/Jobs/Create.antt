-- ===== src/Jobs/Create.antt =====
-- `create_job` of backend/app/jobs/registry.py, as it runs where no other call comes between its
-- statements. The clock is the argument `now`, in microseconds; JSON texts are given as they are
-- stored. (`Races` has it with other calls in between.)
use ap2web.Jobs.Table.{
  Job, JobError, Status, Table, active_of_type, active_sync_of, active_with_key, allowed_types,
  already_active, calibrate_all, holds_text, promotion, running_of_type, sync_all, sync_league,
  value_error,
}
use ap2web.Prelude.{
  Bool, List, Option, Result, Text, [], codes, err, first, if◌then◌else◌, is_empty, member, none,
  not, ok, some, suc, take, text_eq, ℕ, ◌++◌, ◌∷◌,
}

-- `_idempotency_key`, over the serialiser of the key's dict and the hash.
unfoldable pub idempotency_key :
    (Text → Option ℕ → Text → Text) → (Text → Text) → Text → Option ℕ → Text → Text → Text
idempotency_key dumps sha256 job_type league_id params date =
    take 32 (sha256 (dumps job_type league_id params ++ (codes "|" ++ date)))

abbrev pub or_else : Option JobError → Option JobError → Option JobError
or_else none e = e
or_else (some d) e = some d

abbrev pub when_error : Bool → Option JobError → Option JobError
when_error b e = if b then e else none

-- `idempotency_key` if it is given and not empty, else the computed one.
abbrev pub key_or : Option Text → Text → Text
key_or none computed = computed
key_or (some k) computed = if is_empty k then computed else k

module _ {F : Type 0} where
  -- `if rows: raise RuntimeError(…)`
  abbrev pub refuse : Option (Job F) → Option JobError
  refuse none = none
  refuse (some j) = some (already_active j.id)

  abbrev pub league_conflict : Option ℕ → List (Job F) → Option JobError
  league_conflict none rows = none
  league_conflict (some league) rows = refuse (first (active_sync_of league) rows)

  -- The four guards of `create_job`, in order.
  unfoldable pub conflict : Text → Option ℕ → List (Job F) → Option JobError
  conflict job_type league_id rows =
      or_else
        (when_error (member job_type (calibrate_all ∷ promotion ∷ []))
          (refuse (first (active_of_type job_type) rows)))
        (or_else (when_error (text_eq job_type sync_league) (league_conflict league_id rows)) (
          or_else
            (when_error (text_eq job_type sync_all)
              (refuse (first (running_of_type sync_league) rows)))
            (when_error (text_eq job_type sync_league)
              (refuse (first (running_of_type sync_all) rows)))))

  -- The row that the INSERT writes; `zero_progress` is the column's default.
  unfoldable pub new_job : F → ℕ → Text → ℕ → Option ℕ → Text → Text → ℕ → Job F
  new_job zero_progress now job_type requested_by league_id params key jid = record {
    id = jid;
    job_type = job_type;
    status = Status.pending;
    requested_by = some requested_by;
    league_id = league_id;
    parameters = params;
    idempotency_key = some key;
    created_at = now;
    started_at = none;
    finished_at = none;
    cancelled_at = none;
    progress = zero_progress;
    result = none;
    error_message = none;
    attempt_count = 0;
    worker_id = none;
    updated_at = now;
    lease_expires_at = none;
  }

  -- The INSERT and its handler: the column `idempotency_key` is UNIQUE, and on a duplicate the
  -- row that has the key is returned.
  unfoldable pub insert_job :
      F → ℕ → Text → ℕ → Option ℕ → Text → Text → Table F → Result JobError (Job F) × Table F
  unfolding new_job
  insert_job zero_progress now job_type requested_by league_id params key t =
      elim (first (λ j. holds_text j.idempotency_key key) t.rows) [
        | some old ↦ (ok old, t)
        | none ↦
            let j =
              new_job zero_progress now job_type requested_by league_id params key t.next_id in
            (ok j, record { rows = t.rows ++ (j ∷ []); next_id = suc t.next_id })
      ]

  unfoldable pub create_job :
      F
      → ℕ
      → (Text → Option ℕ → Text → Text)
      → Text
      → ℕ
      → Option ℕ
      → Text
      → Option Text
      → Table F
      → Result JobError (Job F) × Table F
  unfolding conflict insert_job
  create_job zero_progress now computed_key job_type requested_by league_id params given t =
      if not (member job_type allowed_types)
      then (err value_error, t)
      else (let key = key_or given (computed_key job_type league_id params) in
          elim (first (active_with_key key) t.rows) [
            | some existing ↦ (ok existing, t)
            | none ↦ elim (conflict job_type league_id t.rows) [
              | some e ↦ (err e, t)
              | none ↦ insert_job zero_progress now job_type requested_by league_id params key t
            ]
          ])
