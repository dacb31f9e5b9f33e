-- ===== src/Jobs/LoopServes.antt =====
-- What the worker loop of backend/app/jobs/loop.py does for the jobs that wait: in every iteration the
-- oldest pending job is run to its end, unless a call raises or the claim is refused.
use mathlib.Core.Option.{some-injective}
use ap2web.Jobs.Table.{Job, Table}
use ap2web.Jobs.Claim.{claim_job}
use ap2web.Jobs.Workers.{WorkerRow, is_worker, register_worker}
use ap2web.Jobs.Runner.{Environment, run_one}
use ap2web.Jobs.Invariant.{IsValid}
use ap2web.Jobs.Steps.{Run}
use ap2web.Jobs.Runs.{Run-IsValid}
use ap2web.Jobs.RunnerRuns.{WorkIsRun, run_one-Run}
use ap2web.Jobs.RunnerEnds.{Ended, Ended-Run}
use ap2web.Jobs.RunnerResult.{CycleCancels, run_one-Ended}
use ap2web.Jobs.Loop.{
  LoopState, Tick, iterate, iterations, run_pending, run_selected, run_worker_loop,
  waits_for_worker,
}
use ap2web.Jobs.LoopRuns.{
  AreRuns, iterate-Run, iterations-Run, run_pending-Run, run_worker_loop-IsValid,
}
use ap2web.Prelude.{
  All, Bool-cases, List, Option-cases, Text, [], ap, false, first, inl, inr, leb, none, refl,
  select, some, subst, sym, take, true, ℕ, ◌&&◌, ◌∷◌, ◌≡◌, ◌⊎◌,
}

take-select :
    {F : Type 0} (rows : List (Job F)) {j : Job F}
    → first waits_for_worker rows ≡ some j
    → (js : List (Job F)) × (take 5 (select waits_for_worker rows) ≡ j ∷ js)
take-select [] h = cc
take-select (x ∷ rows) {j} h = elim (Bool-cases (waits_for_worker x)) [
  | inl e ↦ (
    take 4 (select waits_for_worker rows),
    rw e (ap (λ y. y ∷ take 4 (select waits_for_worker rows)) (some-injective x j (rw e at h))),
  )
  | inr e ↦ let (js, same) = take-select rows {j = j} (rw e at h) in (js, rw e same)
]

module _ {F : Type 0} (env : Environment F) (worker_id : Text) (lease_seconds : ℕ) where
  -- What an iteration that finds the table `t` has done for the oldest pending job by the time of `u`;
  -- `due` is the time of the next heartbeat.
  abbrev pub Serves : ℕ → Tick F → Table F → Table F → Type 0
  Serves due k t u =
      ((leb due k.monotonic && k.heartbeat_raises) ≡ true)
      ⊎ ((k.select_raises ≡ true)
          ⊎ ((first waits_for_worker t.rows ≡ none)
              ⊎ ((j : Job F) × (first waits_for_worker t.rows ≡ some j)
                  × ((k.run_one_raises j ≡ true)
                      ⊎ (((claim_job (env.now t) j.id worker_id lease_seconds t).0 ≡ false)
                          ⊎ Ended j.id u)))))

  Serves-Run :
      (due : ℕ) (k : Tick F) (t : Table F) {u w : Table F}
      → IsValid u
      → Run F u w
      → Serves due k t u
      → Serves due k t w
  Serves-Run due k t v r (inl a) = inl a
  Serves-Run due k t v r (inr (inl a)) = inr (inl a)
  Serves-Run due k t v r (inr (inr (inl a))) = inr (inr (inl a))
  Serves-Run due k t v r (inr (inr (inr (j, found, inl a)))) = inr (inr (inr (j, found, inl a)))
  Serves-Run due k t v r (inr (inr (inr (j, found, inr (inl a))))) =
      inr (inr (inr (j, found, inr (inl a))))
  Serves-Run due k t v r (inr (inr (inr (j, found, inr (inr a))))) =
      inr (inr (inr (j, found, inr (inr (Ended-Run j.id v a r)))))

module _ {F : Type 0} (env : Environment F) (worker_id : Text)
    (heartbeat_seconds lease_seconds : ℕ) where
  -- Every iteration before the stop event serves the oldest job that it finds pending.
  abbrev pub AllServe : List (Tick F) → LoopState F → Table F → Type 0
  AllServe [] s u = Unit
  AllServe (k ∷ ks) s u =
      (k.stopped ≡ true)
      ⊎ (Serves env worker_id lease_seconds s.next_heartbeat k (k.others s.jobs) u
          × AllServe ks (iterate env worker_id heartbeat_seconds lease_seconds k s) u)

  module _ (work : WorkIsRun env) (cycle : (jid : ℕ) → CycleCancels env jid) where
    run_pending-Ended :
        (k : Tick F) (j : Job F) (js : List (Job F)) (t : Table F)
        → IsValid t
        → (k.run_one_raises j ≡ true)
          ⊎ (((claim_job (env.now t) j.id worker_id lease_seconds t).0 ≡ false)
              ⊎ Ended j.id (run_pending env worker_id lease_seconds k (j ∷ js) t))
    unfolding run_pending
    run_pending-Ended k j js t v = elim (Bool-cases (k.run_one_raises j)) [
      | inl raised ↦ inl raised
      | inr ran ↦ elim (run_one-Ended env j.id worker_id lease_seconds work (cycle j.id) j t v) [
        | inr (refused, same) ↦ inr (inl refused)
        | inl (granted, ended) ↦ elim (Bool-cases (k.stopped_after j)) [
          | inl stop ↦ inr (inr (rw (ran, stop) ended))
          | inr on ↦ inr (
              inr (
                rw (ran, on)
                  (Ended-Run j.id
                    (Run-IsValid v (run_one-Run env j.id worker_id lease_seconds work j t)) ended
                    (run_pending-Run env worker_id heartbeat_seconds lease_seconds work k js
                      (run_one env j.id worker_id lease_seconds j t)))))
        ]
      ]
    ]

    run_selected-Serves :
        (due : ℕ) (k : Tick F) (t : Table F)
        → IsValid t
        → Serves env worker_id lease_seconds due k t
            (run_selected env worker_id heartbeat_seconds lease_seconds k t)
    unfolding run_selected
    run_selected-Serves due k t v = elim (Bool-cases (k.select_raises)) [
      | inl raised ↦ inr (inl raised)
      | inr read ↦ elim (Option-cases (first waits_for_worker t.rows)) [
        | inl idle ↦ inr (inr (inl idle))
        | inr (j, found) ↦
            let (js, same) = take-select t.rows {j = j} found in
            inr (inr (inr (j, found, rw (read, same) (run_pending-Ended k j js t v))))
      ]
    ]

    iterate-Serves :
        (k : Tick F) (s : LoopState F)
        → IsValid (k.others s.jobs)
        → Serves env worker_id lease_seconds s.next_heartbeat k
            (k.others s.jobs)
            (iterate env worker_id heartbeat_seconds lease_seconds k s).jobs
    unfolding iterate
    iterate-Serves k s v =
        elim (Bool-cases (leb s.next_heartbeat k.monotonic && k.heartbeat_raises)) [
          | inl raised ↦ inl raised
          | inr beats ↦
              let same : (iterate env worker_id heartbeat_seconds lease_seconds k s).jobs
                  ≡ run_selected env worker_id heartbeat_seconds lease_seconds k (k.others s.jobs) =
                rw beats refl in
              subst (λ u. Serves env worker_id lease_seconds s.next_heartbeat k (k.others s.jobs) u)
                (sym same) (run_selected-Serves s.next_heartbeat k (k.others s.jobs) v)
        ]

    iterations-AllServe :
        (ks : List (Tick F)) (s : LoopState F)
        → AreRuns ks
        → IsValid s.jobs
        → AllServe ks s (iterations env worker_id heartbeat_seconds lease_seconds ks s).jobs
    unfolding iterations
    iterations-AllServe [] s a v = tt
    iterations-AllServe (k ∷ ks) s a v = elim (Bool-cases (k.stopped)) [
      | inl e ↦ inl e
      | inr e ↦
          let v0 = Run-IsValid v (a.0 s.jobs) in
          let v1 =
            Run-IsValid v0 (iterate-Run env worker_id heartbeat_seconds lease_seconds work k s) in
          let s1 = iterate env worker_id heartbeat_seconds lease_seconds k s in
          inr (
            rw e (
              Serves-Run env worker_id lease_seconds s.next_heartbeat k (k.others s.jobs) v1
                  (iterations-Run env worker_id heartbeat_seconds lease_seconds work ks s1 a.1)
                  (iterate-Serves k s v0),
              iterations-AllServe ks s1 a.1 v1,
            ))
    ]

    -- A worker loop, over any number of iterations, whenever its stop event is set and whichever of
    -- its heartbeats, SELECTs or jobs raise (without effect, a job before its claim), keeps the
    -- invariant of the job table, and its worker's record is not online when it ends. Each iteration
    -- before the stop event serves the oldest job that it finds pending: unless a call raises or the
    -- claim is refused, that job has ended when the loop ends. The work of a job and the other
    -- processes change jobs by steps of the registry's calls only, and the backtest cycle raises
    -- `_JobCancelled` only for a cancelled job.
    pub run_worker_loop-AllServe :
        (now : ℕ) (ks : List (Tick F)) (t : Table F) (workers : List WorkerRow)
        → AreRuns ks
        → IsValid t
        → let s = run_worker_loop env worker_id heartbeat_seconds lease_seconds now ks t workers in
          IsValid s.jobs
          × All (λ r. (is_worker worker_id r && r.online) ≡ false) s.workers
          × AllServe ks
              (record {
                jobs = t;
                workers = register_worker now worker_id workers;
                next_heartbeat = 0;
              })
              s.jobs
    unfolding run_worker_loop
    run_worker_loop-AllServe now ks t workers a v =
        let kept =
          run_worker_loop-IsValid env worker_id heartbeat_seconds lease_seconds work now ks t
            workers a v in
        (kept.0, kept.1, iterations-AllServe ks _ a v)
