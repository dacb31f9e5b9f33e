-- ===== src/Lib.antt =====
-- A verification library for AP2WEB, a football prediction service: a FastAPI application
-- (backend/app) that keeps its state in a relational database. API handlers create and cancel
-- jobs, a worker claims and runs them, sessions and roles guard the handlers, and audit and
-- execution events are recorded in append-only tables. The library models the parts of backend/app
-- that hold this control logic; a table is a list of rows, a statement a function on it, and a
-- handler a function from the state to its answer and the new state.
--
-- The files and the code:
--
-- - Prelude: the shared notation, Python's str as lists of code points (Texts), and the SELECT,
--   UPDATE and COUNT of a table (Tables), sorting (Sorting), unique keys (Keys) and loops that
--   update the rows that they read (Scans). ASCII letters are the only ones that have cases.
-- - Users: the rows of `users` (backend/app/db/schema.py) and the lookup by name.
-- - Floats: the floating-point operations, an argument of every model that computes with floats.
-- - Config: backend/app/config.py. Env has the readers of environment values (_as_bool, _as_int,
--   _parse_origins, read_env_value), Settings the attributes that Settings.__init__ sets,
--   Validation its validate and the whole construction; Safety and Ranges have the proofs. int()
--   on texts and the reading of files are arguments.
-- - Jobs: backend/app/jobs. Table has the rows of `jobs`; Create, Claim and Finish have the calls
--   of registry.py (create_job, claim_job, renew_job_lease, complete_job, fail_job,
--   update_progress, cancel_job, recover_expired_jobs), Listing list_jobs and job_metrics, Workers
--   the calls of workers.py, Runner _run_one of runner.py, Loop run_worker_loop of loop.py. Steps
--   makes the calls a step relation and Runs its sequences, in which calls of several workers and
--   handlers come in any order. The step of a creation is its INSERT alone, on the table of that
--   moment, since the guards of create_job are SELECTs before it without a lock; what they add where
--   no call comes in between (IsSingle) is no part of the invariant. Races has create_job with other
--   processes between its statements. The proofs about the runner are in RunnerRuns, RunnerEnds,
--   RunnerOutcome and RunnerResult, those about the loop in
--   LoopRuns and LoopServes. The clock, the work that a job does and the floating-point
--   comparison are arguments.
-- - Auth: backend/app/auth. Roles has the permissions table and its checks, Password the stored
--   hashes, State the session statements of tokens.py, Sessions login and refresh, Logout the
--   logout, Access the request resolution of dependencies.py, Accounts create_user and
--   bootstrap_admin. The hashes, the JWT decoding and the random tokens are arguments.
-- - Security: backend/app/security. Csrf, Client, Redaction and Audit model csrf_protect with
--   error_code_for, client_ip, redact, and audit_event with the listing and the retention. The
--   membership of an address in a CIDR range and the outcome of an INSERT are arguments.
-- - Executions: backend/app/execution_store.py, with start, finish and get.
-- - RateLimit: backend/app/ratelimit.py (Limiter) over an argument for the limits library, and
--   when it refuses (Refusals).
-- - Learning: backend/app/feature_engine.py (Features) and backend/app/learning/walkforward.py:
--   the batches of simultaneous fixtures (Batches) and the backtest over them (Engine); Past
--   describes the predictions from the earlier rows alone, NoLeak and Scores prove that the
--   backtest makes those. A loop over batches runs on the number of rows as fuel, which is enough
--   (Batches). The prediction of a fixture from the averages of its teams is an argument.
--   Calibration has calibrate_league and calibrate_all of backend/app/learning/calibration.py,
--   Selection and Stored their proofs.
-- - Scientific: backend/app/scientific. Split has temporal_split of snapshot.py, Protocol the
--   evaluation of fixed parameters by run_scientific_protocol; Partition, Holdout and Outcomes
--   have the proofs. Rounding up (math.ceil) is an argument.
-- - Risk: backend/app/market.py and backend/app/risk. Policy has the Kelly fractions and the
--   score, Assess market_for_match, risk_for_match and portfolio_risk, Stakes the proofs. The
--   prediction and the quote of a match are arguments.
-- - Picks: backend/app/history.py. Rules has _validate_pick and _result_of_pick_v2, Store the
--   tables with save_prediction and delete_prediction, Resolve resolve_predictions,
--   resolve_predictions_for_match, list_predictions and stats. Settled, Finished, Resolved and
--   ByMatch prove that a resolution is one pass over the table, Runs is the set of all sequences
--   of calls.
-- - Backtest: the suggestions of backend/app/backtest/meta.py (Meta) and their proofs (Bounds), over a
--   type of floats with the operations that they use; and the cross-validation temporal_cv of
--   backend/app/backtest/temporal.py (Folds).
--
-- Jobs and Auth share the user rows; Config supplies the numbers (times to live, limits) that Auth
-- takes as arguments; the protocol of Scientific runs the backtest of Learning; the loop of Jobs
-- runs the runner's calls and the workers' records. Each folder's Tests evaluates the model at
-- concrete inputs.
--
-- Loops are structural recursions. Two run on fuel: the redaction, whose depth bound of 8 is the
-- source's own, and the loop over the batches of fixtures, on the number of rows. Times are
-- natural numbers of seconds (of microseconds for the workers' heartbeats); the texts that the
-- source stores sort alike.
--
-- Not modelled: the HTTP routes, the database drivers and migrations, the statistical models, the
-- backtest cycles, data ingestion, the scripts and the clients. A failure of the database between
-- two statements of one call is not modelled either: but for create_job, a call's statements run
-- without interruption. The worker's loop has the calls that raise, without effect, as arguments: the
-- heartbeat, the SELECT, and a job before it is claimed (Loop).
pub mod Prelude
pub mod Users
pub mod Floats
pub mod Config
pub mod Jobs
pub mod Auth
pub mod Executions
pub mod Security
pub mod RateLimit
pub mod Learning
pub mod Backtest
pub mod Picks
pub mod Scientific
pub mod Risk
