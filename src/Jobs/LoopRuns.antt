-- ===== src/Jobs/LoopRuns.antt =====
-- What the worker loop of backend/app/jobs/loop.py does to the jobs and to its own record.
-- The other processes change the jobs by registry calls only.
use ap2web.Jobs.Table.{Job, Table}
use ap2web.Jobs.Workers.{WorkerRow, is_worker, register_worker, stop_worker_record}
use ap2web.Jobs.Runner.{Environment, run_one}
use ap2web.Jobs.Invariant.{IsValid}
use ap2web.Jobs.Steps.{Run}
use ap2web.Jobs.Runs.{Run-IsValid}
use ap2web.Jobs.RunnerRuns.{Run-append, WorkIsRun, run_one-Run}
use ap2web.Jobs.Loop.{
  LoopState, Tick, iterate, iterations, run_pending, run_selected, run_worker_loop,
  waits_for_worker,
}
use ap2web.Prelude.{
  All, Bool-cases, List, Text, [], arith, false, inl, inr, leb, refl, select, take, ℕ, ◌&&◌, ◌∷◌,
  ◌≡◌,
}

abbrev pub AreRuns : {F : Type 0} → List (Tick F) → Type 0
AreRuns [] = Unit
AreRuns {F} (k ∷ ks) = ((t : Table F) → Run F t (k.others t)) × AreRuns ks

module _ {F : Type 0} (env : Environment F) (worker_id : Text) (heartbeat_seconds lease_seconds : ℕ)
    (work : WorkIsRun env) where
  pub run_pending-Run :
      (k : Tick F) (js : List (Job F)) (t : Table F)
      → Run F t (run_pending env worker_id lease_seconds k js t)
  unfolding run_pending
  run_pending-Run k [] t = Run.here
  run_pending-Run k (j ∷ js) t = elim (Bool-cases (k.run_one_raises j)) [
    | inl raised ↦ rw raised Run.here
    | inr ran ↦ elim (Bool-cases (k.stopped_after j)) [
      | inl stop ↦ rw (ran, stop) (run_one-Run env j.id worker_id lease_seconds work j t)
      | inr on ↦
          rw (ran, on)
            (Run-append (run_one-Run env j.id worker_id lease_seconds work j t)
              (run_pending-Run k js (run_one env j.id worker_id lease_seconds j t)))
    ]
  ]

  run_selected-Run :
      (k : Tick F) (t : Table F)
      → Run F t (run_selected env worker_id heartbeat_seconds lease_seconds k t)
  unfolding run_selected
  run_selected-Run k t = elim (Bool-cases (k.select_raises)) [
    | inl raised ↦ rw raised Run.here
    | inr read ↦ rw read (run_pending-Run k (take 5 (select waits_for_worker t.rows)) t)
  ]

  pub iterate-Run :
      (k : Tick F) (s : LoopState F)
      → Run F (k.others s.jobs) (iterate env worker_id heartbeat_seconds lease_seconds k s).jobs
  unfolding iterate
  iterate-Run k s = elim (Bool-cases (leb s.next_heartbeat k.monotonic && k.heartbeat_raises)) [
    | inl raised ↦ rw raised Run.here
    | inr beats ↦ rw beats (run_selected-Run k (k.others s.jobs))
  ]

  pub iterations-Run :
      (ks : List (Tick F)) (s : LoopState F)
      → AreRuns ks
      → Run F s.jobs (iterations env worker_id heartbeat_seconds lease_seconds ks s).jobs
  unfolding iterations
  iterations-Run [] s a = Run.here
  iterations-Run (k ∷ ks) s a = elim (Bool-cases (k.stopped)) [
    | inl e ↦ rw e Run.here
    | inr e ↦ rw e (
        Run-append (Run-append (a.0 s.jobs) (iterate-Run k s))
          (iterations-Run ks (iterate env worker_id heartbeat_seconds lease_seconds k s) a.1))
  ]

  -- A stopped worker is offline.
  stop_worker_record_offline :
      (rows : List WorkerRow)
      → All (λ r. (is_worker worker_id r && r.online) ≡ false) (stop_worker_record worker_id rows)
  unfolding stop_worker_record
  stop_worker_record_offline [] = tt
  stop_worker_record_offline (r ∷ rows) = (
    elim (Bool-cases (is_worker worker_id r)) [
      | inl e ↦ rw e (ground arith)
      | inr e ↦ rw e (rw e refl)
    ],
    stop_worker_record_offline rows,
  )

  -- The loop keeps the invariant, and its worker is offline behind it.
  pub run_worker_loop-IsValid :
      (now : ℕ) (ks : List (Tick F)) (t : Table F) (workers : List WorkerRow)
      → AreRuns ks
      → IsValid t
      → let s = run_worker_loop env worker_id heartbeat_seconds lease_seconds now ks t workers in
        IsValid s.jobs × All (λ r. (is_worker worker_id r && r.online) ≡ false) s.workers
  unfolding run_worker_loop
  run_worker_loop-IsValid now ks t workers a v = (
    Run-IsValid v (
        iterations-Run ks
          (record { jobs = t; workers = register_worker now worker_id workers; next_heartbeat = 0 })
          a),
    stop_worker_record_offline _,
  )
