-- ===== src/Jobs/Loop.antt =====
-- `run_worker_loop` of backend/app/jobs/loop.py, as a function of the iterations that it makes. What
-- the loop reads from outside stands in the iteration: the times, what other processes have done to
-- the jobs, whether the stop event is set, and which of its calls raises. A call that raises is taken
-- to have had no effect; registering and stopping the worker's record, outside of the `try`, do not
-- raise.
use ap2web.Jobs.Table.{Job, Table, is_pending}
use ap2web.Jobs.Workers.{WorkerRow, heartbeat_worker, register_worker, stop_worker_record}
use ap2web.Jobs.Runner.{Environment, run_one}
use ap2web.Prelude.{Bool, List, Text, [], if◌then◌else◌, leb, select, take, ℕ, ◌&&◌, ◌+◌, ◌∷◌}

-- One iteration: `stopped` is the test of the `while`, `run_one_raises` is that `_run_one` raises
-- before its claim (so does `json.loads` on the parameters), `stopped_after` the test after a job.
pub record Tick (F : Type 0) : Type 0 where
  pub stopped : Bool
  pub monotonic : ℕ
  pub clock : ℕ
  pub others : Table F → Table F
  pub heartbeat_raises : Bool
  pub select_raises : Bool
  pub run_one_raises : Job F → Bool
  pub stopped_after : Job F → Bool

pub record LoopState (F : Type 0) : Type 0 where
  pub jobs : Table F
  pub workers : List WorkerRow
  pub next_heartbeat : ℕ

abbrev pub waits_for_worker : {F : Type 0} → Job F → Bool
waits_for_worker j = is_pending j.status

module _ {F : Type 0} (env : Environment F) (worker_id : Text) (lease_seconds : ℕ) where
  -- `for job in pending: _run_one(…)`, left when a job raises or the stop event is set.
  unfoldable pub run_pending : Tick F → List (Job F) → Table F → Table F
  unfolding run_one
  run_pending k [] t = t
  run_pending k (j ∷ js) t =
      let t' = run_one env j.id worker_id lease_seconds j t in
      let rest = run_pending k js t' in
      if k.run_one_raises j then t else if k.stopped_after j then t' else rest

module _ {F : Type 0} (env : Environment F) (worker_id : Text)
    (heartbeat_seconds lease_seconds : ℕ) where
  -- The `try` after the heartbeat: the five oldest pending jobs.
  unfoldable pub run_selected : Tick F → Table F → Table F
  unfolding run_pending
  run_selected k t =
      if k.select_raises
      then t
      else run_pending env worker_id lease_seconds k (take 5 (select waits_for_worker t.rows)) t

  -- One iteration: the heartbeat when it is due, and the jobs; an exception ends the iteration.
  unfoldable pub iterate : Tick F → LoopState F → LoopState F
  unfolding run_selected heartbeat_worker
  iterate k s =
      let t = k.others s.jobs in
      let due = leb s.next_heartbeat k.monotonic in
      if due && k.heartbeat_raises then record s { jobs = t } else record {
        jobs = run_selected k t;
        workers = if due then heartbeat_worker k.clock worker_id s.workers else s.workers;
        next_heartbeat = if due then k.monotonic + heartbeat_seconds else s.next_heartbeat;
      }

  unfoldable pub iterations : List (Tick F) → LoopState F → LoopState F
  unfolding iterate
  iterations [] s = s
  iterations (k ∷ ks) s = let rest = iterations ks (iterate k s) in if k.stopped then s else rest

  unfoldable pub run_worker_loop : ℕ → List (Tick F) → Table F → List WorkerRow → LoopState F
  unfolding iterations register_worker stop_worker_record
  run_worker_loop now ks t workers =
      let s = iterations ks (record {
        jobs = t;
        workers = register_worker now worker_id workers;
        next_heartbeat = 0;
      }) in
      record s { workers = stop_worker_record worker_id s.workers }
