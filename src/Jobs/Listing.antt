-- ===== src/Jobs/Listing.antt =====
-- `list_jobs` and `job_metrics` of backend/app/jobs/registry.py. The rows stand in the order of their
-- ids.
use mathlib.Core.List.{reverse}
use ap2web.Jobs.Table.{Job, Status, Table, holds_number}
use ap2web.Prelude.{
  All, Bool, Bool-cases, List, Option, Text, [], arith, count_where, if◌then◌else◌, inl, inr,
  is_empty, length, length-take, max, min, none, refl, select, some, suc, take, text_eq, true, zero,
  ℕ, ◌&&◌, ◌+◌, ◌==◌, ◌∙◌, ◌∷◌, ◌≡◌, ◌≤◌,
}

abbrev pub statuses : List Status
statuses =
    Status.pending ∷ Status.running ∷ Status.completed ∷ Status.failed ∷ Status.cancelled ∷ []

abbrev pub status_number : Status → ℕ
status_number Status.pending = 0
status_number Status.running = 1
status_number Status.completed = 2
status_number Status.failed = 3
status_number Status.cancelled = 4

abbrev pub total : List (Status × ℕ) → ℕ
total [] = 0
total ((s, n) ∷ ms) = n + total ms

module _ {F : Type 0} where
  abbrev pub of_user : Option ℕ → Job F → Bool
  of_user none j = true
  of_user (some uid) j = holds_number j.requested_by uid

  abbrev pub of_type : Option Text → Job F → Bool
  of_type none j = true
  of_type (some t) j = if is_empty t then true else text_eq j.job_type t

  abbrev pub listed : Option ℕ → Option Text → Job F → Bool
  listed uid type j = of_user uid j && of_type type j

  -- `list_jobs`
  unfoldable pub list_jobs : Option ℕ → ℕ → Option Text → Table F → List (Job F)
  list_jobs uid limit type t =
      take (max 1 (min limit 100)) (select (listed uid type) (reverse t.rows))

  abbrev pub has_status : Status → Job F → Bool
  has_status s j = status_number j.status == status_number s

  abbrev pub metrics_of : List Status → List (Job F) → List (Status × ℕ)
  metrics_of [] rows = []
  metrics_of (s ∷ ss) rows =
      let n = count_where (has_status s) rows in
      if n == 0 then metrics_of ss rows else (s, n) ∷ metrics_of ss rows

  -- `job_metrics`: the statuses that occur, each with its number of jobs.
  unfoldable pub job_metrics : Table F → List (Status × ℕ)
  job_metrics t = metrics_of statuses t.rows

  All-select : (p : Job F → Bool) (rows : List (Job F)) → All (λ j. p j ≡ true) (select p rows)
  All-select p [] = tt
  All-select p (j ∷ rows) = elim (Bool-cases (p j)) [
    | inl e ↦ rw e (e, All-select p rows)
    | inr e ↦ rw e (All-select p rows)
  ]

  All-take :
      (p : Job F → Bool) (n : ℕ) (rows : List (Job F))
      → All (λ j. p j ≡ true) rows
      → All (λ j. p j ≡ true) (take n rows)
  All-take p zero rows h = tt
  All-take p (suc n) [] h = tt
  All-take p (suc n) (j ∷ rows) h = (h.0, All-take p n rows h.1)

  -- A listing shows at most 100 jobs whatever limit is asked for, at most the limit if that is at
  -- least 1, and only jobs of the user and of the type that are asked for.
  pub list_jobs-listed :
      (uid : Option ℕ) (limit : ℕ) (type : Option Text) (t : Table F)
      → (length (list_jobs uid limit type t) ≤ 100)
        × (1 ≤ limit → length (list_jobs uid limit type t) ≤ limit)
        × All (λ j. listed uid type j ≡ true) (list_jobs uid limit type t)
  unfolding list_jobs
  list_jobs-listed uid limit type t = (
    omega (arith, short),
    λ h. omega (arith, short, h),
    All-take (listed uid type) (max 1 (min limit 100)) (select (listed uid type) (reverse t.rows))
        (All-select (listed uid type) (reverse t.rows)),
  )
    where
      short :
          length (take (max 1 (min limit 100)) (select (listed uid type) (reverse t.rows)))
          ≡ min (max 1 (min limit 100)) (length (select (listed uid type) (reverse t.rows)))
      short = length-take (max 1 (min limit 100)) (select (listed uid type) (reverse t.rows))

  abbrev sum_of : List Status → List (Job F) → ℕ
  sum_of [] rows = 0
  sum_of (s ∷ ss) rows = count_where (has_status s) rows + sum_of ss rows

  total-metrics_of :
      (ss : List Status) (rows : List (Job F)) → total (metrics_of ss rows) ≡ sum_of ss rows
  total-metrics_of [] rows = refl
  total-metrics_of (s ∷ ss) rows = elim (Bool-cases (count_where (has_status s) rows == 0)) [
    | inl e ↦ rw e (ground (arith, total-metrics_of ss rows))
    | inr e ↦ rw e (omega (arith, total-metrics_of ss rows))
  ]

  sum_of_all : (rows : List (Job F)) → sum_of statuses rows ≡ length rows
  sum_of_all [] = refl
  sum_of_all (j ∷ rows) = by_status (sum_of_all rows) j.status refl
    where
      by_status :
          sum_of statuses rows ≡ length rows
          → (s : Status) → j.status ≡ s
          → sum_of statuses (j ∷ rows) ≡ suc (length rows)
      by_status known Status.pending e = rw e (omega (arith, known))
      by_status known Status.running e = rw e (omega (arith, known))
      by_status known Status.completed e = rw e (omega (arith, known))
      by_status known Status.failed e = rw e (omega (arith, known))
      by_status known Status.cancelled e = rw e (omega (arith, known))

  -- The metrics count every job once: the numbers add up to the number of rows.
  pub total-job_metrics : (t : Table F) → total (job_metrics t) ≡ length t.rows
  unfolding job_metrics
  total-job_metrics t = total-metrics_of statuses t.rows ∙ sum_of_all t.rows
