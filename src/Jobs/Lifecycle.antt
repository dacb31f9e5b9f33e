-- ===== src/Jobs/Lifecycle.antt =====
-- The life cycle of a job as an abstract state machine, and the row-level facts of every UPDATE that
-- backend/app/jobs/registry.py executes on the `jobs` table.
use ap2web.Prelude.{
  Bool, Text, and-eq-true, arith, false, is_some, none, true, ℕ, ◌&&◌, ◌==◌, ◌≡◌, ◌≤◌, ◌⊎◌,
}
use ap2web.Jobs.Table.{
  Job, Status, active_id, active_of_type, active_sync_of, is_active, is_running, pending_id,
  running_id, running_of_type,
}
use ap2web.Jobs.Claim.{owned_by, set_claimed, set_lease}
use ap2web.Jobs.Finish.{
  is_stale, set_cancelled, set_completed, set_failed, set_progress, set_recovered,
}

-- pending → running → completed or failed, and cancelled from either active state.
abbrev pub allowed : Status → Status → Bool
allowed Status.pending Status.pending = true
allowed Status.pending Status.running = true
allowed Status.pending Status.cancelled = true
allowed Status.pending _ = false
allowed Status.running Status.pending = false
allowed Status.running _ = true
allowed Status.completed Status.completed = true
allowed Status.completed _ = false
allowed Status.failed Status.failed = true
allowed Status.failed _ = false
allowed Status.cancelled Status.cancelled = true
allowed Status.cancelled _ = false

module _ {F : Type 0} where
  -- What the columns hold in each state.
  abbrev pub ColumnsOf : Status → Job F → Type 0
  ColumnsOf Status.pending j = (j.attempt_count ≡ 0) × (is_some j.idempotency_key ≡ true)
  ColumnsOf Status.running j =
      (j.attempt_count ≡ 1)
      × (is_some j.idempotency_key ≡ true)
      × (is_some j.worker_id ≡ true)
      × (is_some j.lease_expires_at ≡ true)
  ColumnsOf Status.completed j = (j.attempt_count ≤ 1) × (is_some j.idempotency_key ≡ false)
  ColumnsOf Status.failed j = (j.attempt_count ≤ 1) × (is_some j.idempotency_key ≡ false)
  ColumnsOf Status.cancelled j = (j.attempt_count ≤ 1) × (is_some j.idempotency_key ≡ false)

  abbrev pub RowIsValid : Job F → Type 0
  RowIsValid j = ColumnsOf j.status j

  -- An UPDATE of one active row.
  pub record Legal (x y : Job F) : Type 0 where
    pub same_id : y.id ≡ x.id
    pub same_type : y.job_type ≡ x.job_type
    pub same_league : y.league_id ≡ x.league_id
    pub was_active : is_active x.status ≡ true
    pub edge : allowed x.status y.status ≡ true
    pub key_kept : (y.idempotency_key ≡ x.idempotency_key) ⊎ (y.idempotency_key ≡ none)
    pub keeps_valid : RowIsValid x → RowIsValid y

  pub set_claimed-Legal :
      (now : ℕ) (w : Text) (lease jid : ℕ) (x : Job F)
      → pending_id jid x ≡ true
      → Legal x (set_claimed now w lease x)
  unfolding set_claimed
  set_claimed-Legal now w lease jid x h = ground arith

  pub set_lease-Legal :
      (now lease jid : ℕ) (w : Text) (x : Job F)
      → owned_by jid w x ≡ true
      → Legal x (set_lease now lease x)
  unfolding set_lease
  set_lease-Legal now lease jid w x h = ground arith

  pub set_completed-Legal :
      (now : ℕ) (res : Text) (p : F) (jid : ℕ) (x : Job F)
      → running_id jid x ≡ true
      → Legal x (set_completed now res p x)
  unfolding set_completed
  set_completed-Legal now res p jid x h = ground arith

  pub set_failed-Legal :
      (now : ℕ) (error res : Text) (jid : ℕ) (x : Job F)
      → running_id jid x ≡ true
      → Legal x (set_failed now error res x)
  unfolding set_failed
  set_failed-Legal now error res jid x h = ground arith

  pub set_progress-Legal :
      (now : ℕ) (p : F) (jid : ℕ) (x : Job F)
      → running_id jid x ≡ true
      → Legal x (set_progress now p x)
  unfolding set_progress
  set_progress-Legal now p jid x h = ground arith

  pub set_cancelled-Legal :
      (now jid : ℕ) (x : Job F) → active_id jid x ≡ true → Legal x (set_cancelled now x)
  unfolding set_cancelled
  set_cancelled-Legal now jid x h = ground arith

  pub set_recovered-Legal :
      (now jid : ℕ) (x : Job F)
      → (x.id == jid && is_stale now x) ≡ true
      → Legal x (set_recovered now x)
  unfolding set_recovered
  set_recovered-Legal now jid x h = ground arith

  -- A legal change makes no row active, and none of another type or league.
  pub Legal-active_of_type :
      (ty : Text) (x y : Job F)
      → Legal x y
      → active_of_type ty y ≡ true
      → active_of_type ty x ≡ true
  Legal-active_of_type ty x y l h = grind arith

  pub Legal-active_sync_of :
      (league : ℕ) (x y : Job F)
      → Legal x y
      → active_sync_of league y ≡ true
      → active_sync_of league x ≡ true
  Legal-active_sync_of league x y l h = grind arith

  pub Legal-running_of_type :
      (ty : Text) (x y : Job F)
      → Legal x y
      → (is_running y.status ≡ true → is_running x.status ≡ true)
      → running_of_type ty y ≡ true
      → running_of_type ty x ≡ true
  Legal-running_of_type ty x y l calm h = grind arith

  -- None of these updates makes a row `running` that was not.
  pub running_calm :
      (jid : ℕ) (f : Job F → Job F) (x : Job F)
      → running_id jid x ≡ true
      → is_running (f x).status ≡ true
      → is_running x.status ≡ true
  running_calm jid f x h r = (and-eq-true (x.id == jid) (is_running x.status) h).1

  pub set_lease_calm :
      (now lease jid : ℕ) (w : Text) (x : Job F)
      → owned_by jid w x ≡ true
      → is_running (set_lease now lease x).status ≡ true
      → is_running x.status ≡ true
  unfolding set_lease
  set_lease_calm now lease jid w x h r = r

  pub set_cancelled_calm :
      (now jid : ℕ) (x : Job F)
      → active_id jid x ≡ true
      → is_running (set_cancelled now x).status ≡ true
      → is_running x.status ≡ true
  unfolding set_cancelled
  set_cancelled_calm now jid x h r = cc

  pub set_recovered_calm :
      (now jid : ℕ) (x : Job F)
      → (x.id == jid && is_stale now x) ≡ true
      → is_running (set_recovered now x).status ≡ true
      → is_running x.status ≡ true
  unfolding set_recovered
  set_recovered_calm now jid x h r = cc

  pub one_attempt : (x : Job F) → RowIsValid x → x.attempt_count ≤ 1
  one_attempt x v = at_status x.status x v
    where
      at_status : (s : Status) (y : Job F) → ColumnsOf s y → y.attempt_count ≤ 1
      at_status Status.pending y c = omega arith
      at_status Status.running y c = omega arith
      at_status Status.completed y c = c.0
      at_status Status.failed y c = c.0
      at_status Status.cancelled y c = c.0
