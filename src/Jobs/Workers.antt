-- ===== src/Jobs/Workers.antt =====
-- backend/app/jobs/workers.py: the presence of the workers, a table keyed by the worker's id. Times
-- are microseconds since the epoch.
use ap2web.Prelude.{
  Bool, Bool-cases, List, Text, [], any, arith, false, if◌then◌else◌, inl, inr, leb, refl, text_eq,
  true, update_where, ℕ, ◌&&◌, ◌*◌, ◌++◌, ◌+◌, ◌-◌, ◌∷◌, ◌≡◌, ◌≤◌,
}

pub record WorkerRow : Type 0 where
  pub worker_id : Text
  pub started_at : ℕ
  pub last_heartbeat_at : ℕ
  pub online : Bool

abbrev pub is_worker : Text → WorkerRow → Bool
is_worker w r = text_eq r.worker_id w

-- `ON CONFLICT(worker_id) DO UPDATE`: an old row keeps its start.
unfoldable pub register_worker : ℕ → Text → List WorkerRow → List WorkerRow
register_worker now w rows =
    if any (is_worker w) rows
    then update_where (is_worker w) (λ r. record r { last_heartbeat_at = now; online = true }) rows
    else rows
      ++ (record { worker_id = w; started_at = now; last_heartbeat_at = now; online = true } ∷ [])

unfoldable pub heartbeat_worker : ℕ → Text → List WorkerRow → List WorkerRow
heartbeat_worker now w =
    update_where (is_worker w) (λ r. record r { last_heartbeat_at = now; online = true })

unfoldable pub stop_worker_record : Text → List WorkerRow → List WorkerRow
stop_worker_record w = update_where (is_worker w) (λ r. record r { online = false })

-- `status='online' AND last_heartbeat_at >= ?`
abbrev pub fresh : ℕ → WorkerRow → Bool
fresh cutoff r = r.online && leb cutoff r.last_heartbeat_at

unfoldable pub worker_healthy : ℕ → ℕ → List WorkerRow → Bool
worker_healthy now max_age_seconds rows = any (fresh (now - max_age_seconds * 1000000)) rows

any_self :
    (q p : WorkerRow → Bool) (f : WorkerRow → WorkerRow) (rows : List WorkerRow)
    → ((r : WorkerRow) → p r ≡ true → q (f r) ≡ true)
    → any p rows ≡ true
    → any q (update_where p f rows) ≡ true
any_self q p f [] h a = cc
any_self q p f (r ∷ rows) h a = elim (Bool-cases (p r)) [
  | inl e ↦ rw e (rw (h r e) refl)
  | inr e ↦ ground (arith, any_self q p f rows h)
]

-- A worker that registers is seen as healthy for as long as its heartbeat is not too old.
pub worker_healthy-register_worker :
    (now later max_age : ℕ) (w : Text) (rows : List WorkerRow)
    → later ≤ now + max_age * 1000000
    → worker_healthy later max_age (register_worker now w rows) ≡ true
unfolding worker_healthy register_worker
worker_healthy-register_worker now later max_age w rows h =
    elim (Bool-cases (any (is_worker w) rows)) [
      | inl known ↦ rw known (
          any_self (fresh cutoff) (is_worker w)
            (λ r. record r { last_heartbeat_at = now; online = true }) rows (λ r e. in_time) known)
      | inr new ↦ rw new (last_row rows)
    ]
  where
    cutoff : ℕ
    cutoff = later - max_age * 1000000

    in_time : leb cutoff now ≡ true
    in_time = ground arith

    added : WorkerRow
    added = record { worker_id = w; started_at = now; last_heartbeat_at = now; online = true }

    last_row : (xs : List WorkerRow) → any (fresh cutoff) (xs ++ (added ∷ [])) ≡ true
    last_row [] = rw in_time refl
    last_row (x ∷ xs) = rw (last_row xs) (ground arith)
