-- ===== src/Jobs/Tests.antt =====
-- Small runs of the job system on a concrete table, and the theorems of its modules at that table.
-- Floats are the natural numbers here, from 0 to 100.
use ap2web.Jobs.Table.{
  Job, Status, Table, active_of_type, calibrate_all, get_job, permission_error, sync_all,
  sync_league,
}
use ap2web.Jobs.Create.{conflict, create_job, insert_job, new_job}
use ap2web.Jobs.Claim.{claim_job, claim_sync, lease_until, other_type, renew_job_lease, set_claimed}
use ap2web.Jobs.Finish.{
  cancel_job, complete_job, recover_each, recover_expired_jobs, set_cancelled, set_completed,
  set_recovered, update_progress,
}
use ap2web.Jobs.Workers.{is_worker, register_worker}
use ap2web.Jobs.Runner.{
  Environment, Raised, failure, is_cancelled, job_cancelled, return, run_one, ◌>>=◌,
}
use ap2web.Jobs.Invariant.{IsValid}
use ap2web.Jobs.Evolution.{Follows, reaches}
use ap2web.Jobs.Steps.{Run, Step}
use ap2web.Jobs.Runs.{Run-IsValid, Run-attempt_count, Run-get_job}
use ap2web.Jobs.Calls.{Granted, Refused, claim_job-cases, claim_job-claim_job}
use ap2web.Jobs.Recovery.{recover_expired_jobs-get_job}
use ap2web.Jobs.Ends.{Bounded, update_progress-get_job}
use ap2web.Jobs.Requests.{cancel_job-cases, create_job-create_job, may_cancel}
use ap2web.Jobs.RunnerRuns.{WorkIsRun, bind-IsRun}
use ap2web.Jobs.RunnerEnds.{Ended}
use ap2web.Jobs.RunnerResult.{CycleCancels, run_one-Ended}
use ap2web.Jobs.Loop.{Tick, run_worker_loop}
use ap2web.Jobs.LoopServes.{AllServe, run_worker_loop-AllServe}
use ap2web.Jobs.Races.{check_guards, create_job_among}
use ap2web.Prelude.{
  All, Bool, List, Option, Result, Text, [], arith, codes, count_where, err, false, if◌then◌else◌,
  lower, ltb, member, none, ok, refl, some, text_eq, true, ℕ, ◌&&◌, ◌*◌, ◌++◌, ◌/◌, ◌==◌, ◌∷◌, ◌≡◌,
  ◌≤◌, ◌⊎◌,
}
use ap2web.Users.{Caller, User, role_of}

abbrev key_one : Text
key_one = codes "k1"

abbrev key_two : Text
key_two = codes "k2"

abbrev worker_one : Text
worker_one = codes "w1"

-- A full sync that waits.
abbrev waiting : Job ℕ
waiting = record {
  id = 1;
  job_type = sync_all;
  status = Status.pending;
  requested_by = some 5;
  league_id = none;
  parameters = codes "{}";
  idempotency_key = some key_one;
  created_at = 10;
  started_at = none;
  finished_at = none;
  cancelled_at = none;
  progress = 0;
  result = none;
  error_message = none;
  attempt_count = 0;
  worker_id = none;
  updated_at = 10;
  lease_expires_at = none;
}

-- A targeted sync that runs.
abbrev busy : Job ℕ
busy = record waiting {
  id = 2;
  job_type = sync_league;
  status = Status.running;
  league_id = some 7;
  idempotency_key = some key_two;
  started_at = some 20;
  attempt_count = 1;
  worker_id = some worker_one;
  lease_expires_at = some 500;
}

abbrev table : Table ℕ
table = record { rows = waiting ∷ busy ∷ []; next_id = 3 }

abbrev calm : Table ℕ
calm = record { rows = waiting ∷ []; next_id = 2 }

abbrev computed : Text → Option ℕ → Text → Text
computed ty league params = ty ++ params

abbrev users : List User
users = []

abbrev guest : Caller
guest = record { role = some (codes "User"); username = none; user_id = some 6 }

program : Unit {0}
unfolding text_eq member lower role_of create_job claim_job claim_sync get_job set_claimed
    renew_job_lease complete_job set_completed cancel_job set_cancelled recover_expired_jobs
    recover_each set_recovered other_type lease_until new_job insert_job conflict create_job_among
    check_guards
program = tt

-- While the targeted sync runs the full one is not claimed; after its end it is.
claim_waits :
    ((claim_job 30 1 worker_one 60 table).0 ≡ false)
    × ((claim_job 30 1 worker_one 60 (complete_job 25 2 (codes "{}") 100 table)).0 ≡ true)
unfolding program
claim_waits = (refl, refl)

-- The running job is recovered after its lease, and no other.
recover_one : (recover_expired_jobs 501 table).0 ≡ 1
unfolding program
recover_one = refl

guest_may_not_cancel : (cancel_job 30 users guest 1 table).0 ≡ err permission_error
unfolding program
guest_may_not_cancel = refl

table-IsValid : IsValid table
unfolding program
table-IsValid = record {
  rows_valid = ((refl, refl), ((refl, refl, refl, refl), tt));
  ids_below = (omega arith, (omega arith, tt));
  ids_distinct = ((omega arith, tt), (tt, tt));
  keys_unique = ((refl, tt), (tt, tt));
  exclusive = λ a b. cc;
}

calm-IsValid : IsValid calm
unfolding program
calm-IsValid = record {
  rows_valid = ((refl, refl), tt);
  ids_below = (omega arith, tt);
  ids_distinct = (tt, tt);
  keys_unique = (tt, tt);
  exclusive = λ a b. cc;
}

-- Two creations of `calibrate_all` under different keys: the second one runs as a whole behind the
-- second SELECT of the first. Neither sees a conflict, and both jobs are active afterwards.
abbrev meanwhile : ℕ → Table ℕ → Table ℕ
meanwhile n t =
    if n == 1 then (create_job 0 31 computed calibrate_all 6 none (codes "b") none t).1 else t

creations_race :
    count_where
      (active_of_type calibrate_all)
      (create_job_among meanwhile 0 30 computed calibrate_all 5 none (codes "a") none calm).1.rows
    ≡ 2
unfolding program
creations_race = refl

abbrev ran : Table ℕ
ran = (claim_job 30 1 worker_one 60 calm).1

claimed-Run : Run ℕ calm ran
claimed-Run = Run.next Run.here (Step.claim 30 1 worker_one 60 calm)

Run-IsValid_example : IsValid ran
Run-IsValid_example = Run-IsValid calm-IsValid claimed-Run

Run-get_job_example : (y : Job ℕ) × (get_job 1 ran ≡ some y) × Follows reaches waiting y
unfolding program
Run-get_job_example = Run-get_job 1 {x = waiting} calm-IsValid claimed-Run refl

Run-attempt_count_example : (set_claimed 30 worker_one 60 waiting).attempt_count ≤ 1
unfolding program
Run-attempt_count_example =
    Run-attempt_count 1 {y = set_claimed 30 worker_one 60 waiting} calm-IsValid claimed-Run refl

claim_job-cases_example :
    Refused calm (claim_job 30 1 worker_one 60 calm)
    ⊎ Granted 30 1 worker_one 60 calm (claim_job 30 1 worker_one 60 calm)
claim_job-cases_example = claim_job-cases 30 1 worker_one 60 calm calm-IsValid

-- The worker that has claimed the job completes it, and another one claims it afterwards.
claim_job-claim_job_example :
    Refused
      (complete_job 35 1 (codes "{}") 100 ran)
      (claim_job 40 1 (codes "w2") 60 (complete_job 35 1 (codes "{}") 100 ran))
unfolding program
claim_job-claim_job_example =
    claim_job-claim_job 30 40 1 worker_one (codes "w2") 60 60 calm
      {u = complete_job 35 1 (codes "{}") 100 ran} calm-IsValid refl
      (Run.next Run.here (Step.complete 35 1 (codes "{}") 100 ran))

recover_expired_jobs-get_job_example :
    ((recover_expired_jobs 501 table).0 ≡ 1)
    × (get_job 2 (recover_expired_jobs 501 table).1 ≡ some (set_recovered 501 busy))
unfolding program
recover_expired_jobs-get_job_example = recover_expired_jobs-get_job 501 2 table {j = busy} refl

ltb_irrefl : (x : ℕ) → ltb x x ≡ false
ltb_irrefl x = ground arith

ltb_asym : (x y : ℕ) → ltb x y ≡ true → ltb y x ≡ false
ltb_asym x y h = ground arith

update_progress-get_job_example :
    (y : Job ℕ) × (get_job 2 (update_progress ltb 0 100 30 2 250 none 60 table) ≡ some y)
    × (((◌≡◌ {A = Bool} true false) × (y ≡ busy))
        ⊎ ((◌≡◌ {A = Bool} true true)
            × Bounded ltb 0 100 250 y.progress
            × (ltb y.progress 0 ≡ false)
            × (ltb 100 y.progress ≡ false)))
unfolding program
update_progress-get_job_example =
    update_progress-get_job ltb 0 100 30 2 250 none 60 table {j = busy} ltb_irrefl ltb_asym refl
      refl

cancel_job-cases_example :
    (may_cancel users guest waiting ≡ false
      → cancel_job 30 users guest 1 table ≡ (err permission_error, table))
    × (may_cancel users guest waiting ≡ true
        → ((cancel_job 30 users guest 1 table).0 ≡ ok (set_cancelled 30 waiting))
          × (get_job 1 (cancel_job 30 users guest 1 table).1 ≡ some (set_cancelled 30 waiting)))
unfolding program
cancel_job-cases_example = cancel_job-cases 30 users guest 1 table {j = waiting} refl

abbrev created : Table ℕ
created = (create_job 0 30 computed (codes "health") 5 none (codes "{}") none table).1

abbrev added : Job ℕ
added = record waiting {
  id = 3;
  job_type = codes "health";
  idempotency_key = some (codes "health{}");
  created_at = 30;
  updated_at = 30;
}

create_job-create_job_example :
    create_job 0 40 computed (codes "health") 6 none (codes "{}") none created ≡ (ok added, created)
unfolding program
create_job-create_job_example =
    create_job-create_job 0 30 40 computed (codes "health") 5 6 none (codes "{}") none table
      {j = added} table-IsValid refl

abbrev env : Environment ℕ
env = record {
  lt = ltb;
  lo = 0;
  hi = 100;
  ratio = λ i n. i * 100 / n;
  now = λ t. 30;
  dumps = λ rs. codes "{}";
  partial_message = λ rs. codes "partial";
  load_leagues = λ t. (ok (codes "a" ∷ []), t);
  sync_league = λ cfg t. (ok (true, cfg), t);
  sync_league_local = λ l t. (ok (true, [], codes "{}"), t);
  sport_key = λ p. none;
  sync_soccer_h2h = λ k p t. (ok (true, [], codes "{}"), t);
  calibrate_all = λ t. (ok (codes "{}"), t);
  calibrate_league = λ l t. (ok (codes "{}"), t);
  execute_cycle = λ p cb t. (cb 0 1 >>= λ _. return (codes "{}")) t;
  health = λ t. (err (failure (codes "down")), t);
}

env-WorkIsRun : WorkIsRun env
env-WorkIsRun = record {
  load_leagues = λ t. Run.here;
  sync_league = λ cfg t. Run.here;
  sync_league_local = λ l t. Run.here;
  sync_soccer_h2h = λ k p t. Run.here;
  calibrate_all = λ t. Run.here;
  calibrate_league = λ l t. Run.here;
  execute_cycle =
      λ p cb h. bind-IsRun (cb 0 1) (λ _. return (codes "{}")) (h 0 1) (λ _ t. Run.here);
  health = λ t. Run.here;
}

env-CycleCancels : (jid : ℕ) → CycleCancels env jid
env-CycleCancels jid = record { cancels = λ p cb h t. stop (cb 0 1 t) (h 0 1 t) }
  where
    bound : Result Raised (Unit {0}) × Table ℕ → Result Raised Text × Table ℕ
    bound r = elim r.0 [ ok a ↦ (ok (codes "{}"), r.1) | err e ↦ (err e, r.1) ]

    same_error :
        (e : Raised)
        → ◌≡◌ {A = Result Raised Text} (err e) (err job_cancelled)
        → ◌≡◌ {A = Result Raised (Unit {0})} (err e) (err job_cancelled)
    same_error e h = cc

    stop :
        (r : Result Raised (Unit {0}) × Table ℕ)
        → (r.0 ≡ err job_cancelled → is_cancelled jid r.1 ≡ true)
        → (bound r).0 ≡ err job_cancelled
        → is_cancelled jid (bound r).1 ≡ true
    stop (ok a, u) h c = cc
    stop (err e, u) h c = h (same_error e c)

run_one-Ended_example :
    (((claim_job 30 1 worker_one 60 calm).0 ≡ true)
      × Ended 1 (run_one env 1 worker_one 60 waiting calm))
    ⊎ (((claim_job 30 1 worker_one 60 calm).0 ≡ false)
        × ((run_one env 1 worker_one 60 waiting calm).rows ≡ calm.rows))
run_one-Ended_example =
    run_one-Ended env 1 worker_one 60 env-WorkIsRun (env-CycleCancels 1) waiting calm calm-IsValid

abbrev quiet_tick : Tick ℕ
quiet_tick = record {
  stopped = false;
  monotonic = 5;
  clock = 30;
  others = λ t. t;
  heartbeat_raises = false;
  select_raises = false;
  run_one_raises = λ j. false;
  stopped_after = λ j. false;
}

-- The first iteration runs the job; in the second one the SELECT raises.
abbrev ticks : List (Tick ℕ)
ticks = quiet_tick ∷ record quiet_tick { select_raises = true } ∷ []

run_worker_loop-AllServe_example :
    let s = run_worker_loop env worker_one 10 60 30 ticks calm [] in
    IsValid s.jobs
    × All (λ r. (is_worker worker_one r && r.online) ≡ false) s.workers
    × AllServe env worker_one 10 60 ticks
        (record { jobs = calm; workers = register_worker 30 worker_one []; next_heartbeat = 0 })
        s.jobs
run_worker_loop-AllServe_example =
    run_worker_loop-AllServe env worker_one 10 60 env-WorkIsRun env-CycleCancels 30 ticks calm []
      ((λ t. Run.here), ((λ t. Run.here), tt)) calm-IsValid
