-- ===== src/Jobs/Table.antt =====
-- The `jobs` table (backend/app/db/schema.py): its rows and the values of its text columns.
-- A row carries its progress as a value of a type `F` of floating-point numbers. Times are
-- microseconds since the epoch; the program's ISO texts sort like them.
use ap2web.Prelude.{
  Bool, List, Option, Text, [], codes, count_where, false, first, none, some, text_eq, true,
  update_where, ℕ, ◌&&◌, ◌==◌, ◌∷◌,
}

pub data Status : Type 0 where
  pending running completed failed cancelled : Status

-- `status IN ('pending','running')`
abbrev pub is_active : Status → Bool
is_active Status.pending = true
is_active Status.running = true
is_active Status.completed = false
is_active Status.failed = false
is_active Status.cancelled = false

abbrev pub is_pending : Status → Bool
is_pending Status.pending = true
is_pending Status.running = false
is_pending Status.completed = false
is_pending Status.failed = false
is_pending Status.cancelled = false

abbrev pub is_running : Status → Bool
is_running Status.pending = false
is_running Status.running = true
is_running Status.completed = false
is_running Status.failed = false
is_running Status.cancelled = false

pub record Job (F : Type 0) : Type 0 where
  pub id : ℕ
  pub job_type : Text
  pub status : Status
  pub requested_by : Option ℕ
  pub league_id : Option ℕ
  pub parameters : Text
  pub idempotency_key : Option Text
  pub created_at : ℕ
  pub started_at : Option ℕ
  pub finished_at : Option ℕ
  pub cancelled_at : Option ℕ
  pub progress : F
  pub result : Option Text
  pub error_message : Option Text
  pub attempt_count : ℕ
  pub worker_id : Option Text
  pub updated_at : ℕ
  pub lease_expires_at : Option ℕ

-- The table: its rows in the order of their ids, and the next AUTOINCREMENT id.
pub record Table (F : Type 0) : Type 0 where
  pub rows : List (Job F)
  pub next_id : ℕ

abbrev pub sync_all : Text
sync_all = codes "sync_all"

abbrev pub sync_league : Text
sync_league = codes "sync_league"

abbrev pub calibrate_all : Text
calibrate_all = codes "calibrate_all"

abbrev pub promotion : Text
promotion = codes "promotion"

-- `ALLOWED_TYPES`
abbrev pub allowed_types : List Text
allowed_types =
    sync_all
    ∷ sync_league
    ∷ codes "sync_odds"
    ∷ calibrate_all
    ∷ codes "calibrate_league"
    ∷ codes "backtest"
    ∷ codes "health"
    ∷ []

-- `column = ?`, which no NULL satisfies.
abbrev pub holds_text : Option Text → Text → Bool
holds_text none t = false
holds_text (some s) t = text_eq s t

abbrev pub holds_number : Option ℕ → ℕ → Bool
holds_number none n = false
holds_number (some m) n = m == n

-- The exceptions that the registry raises.
pub data JobError : Type 0 where
  value_error : JobError
  already_active : ℕ → JobError
  job_not_found : JobError
  permission_error : JobError

module _ {F : Type 0} where
  abbrev pub has_id : ℕ → Job F → Bool
  has_id jid j = j.id == jid

  -- `WHERE idempotency_key=? AND status IN ('pending','running')`
  abbrev pub active_with_key : Text → Job F → Bool
  active_with_key key j = holds_text j.idempotency_key key && is_active j.status

  abbrev pub active_of_type : Text → Job F → Bool
  active_of_type ty j = text_eq j.job_type ty && is_active j.status

  abbrev pub running_of_type : Text → Job F → Bool
  running_of_type ty j = text_eq j.job_type ty && is_running j.status

  abbrev pub active_sync_of : ℕ → Job F → Bool
  active_sync_of league j =
      text_eq j.job_type sync_league && (holds_number j.league_id league && is_active j.status)

  -- `WHERE id=? AND status='pending'`, and so on.
  abbrev pub pending_id : ℕ → Job F → Bool
  pending_id jid j = j.id == jid && is_pending j.status

  abbrev pub running_id : ℕ → Job F → Bool
  running_id jid j = j.id == jid && is_running j.status

  abbrev pub active_id : ℕ → Job F → Bool
  active_id jid j = j.id == jid && is_active j.status

  -- Executes one UPDATE: the new table and the row count.
  abbrev pub exec : (Job F → Bool) → (Job F → Job F) → Table F → ℕ × Table F
  exec p f t = (count_where p t.rows, record t { rows = update_where p f t.rows })

  unfoldable pub get_job : ℕ → Table F → Option (Job F)
  get_job jid t = first (has_id jid) t.rows
