-- ===== src/Jobs/RunnerResult.antt =====
-- The result of `_run_one` (backend/app/jobs/runner.py) for every type of job.
use ap2web.Jobs.Table.{Job, Table, calibrate_all, sync_all, sync_league}
use ap2web.Jobs.Claim.{claim_job, set_claimed}
use ap2web.Jobs.Runner.{
  Action, Environment, Raised, all_ok, catch, complete, cycle_progress, fail, failure, is_cancelled,
  job_cancelled, message, progress, raise, return, run_backtest, run_body, run_one, run_sync_all,
  run_sync_league, run_sync_odds, sync_each, ◌>>=◌,
}
use ap2web.Jobs.Invariant.{IsValid}
use ap2web.Jobs.Steps.{Run, claim-Sound}
use ap2web.Jobs.Calls.{claim_job-cases}
use ap2web.Jobs.RunnerRuns.{
  IsRun, WorkIsRun, bind-IsRun, complete-IsRun, cycle_progress-IsRun, run_body-IsRun,
  sync_each-IsRun,
}
use ap2web.Jobs.RunnerEnds.{
  Ended, Settled, Settles, Started, bind-Settles, catch-Settles, is_cancelled-Ended,
}
use ap2web.Jobs.RunnerOutcome.{
  Stopped, by_type, complete-Settles, fail-Ended, fail-Settles, sync_each-Stopped, then_complete,
}
use ap2web.Prelude.{
  Bool, Bool-cases, List, Option, Option-cases, Result, Text, [], ap, codes, err, false,
  if◌then◌else◌, inl, inr, length, none, ok, refl, some, subst, sym, text_eq, true, ℕ, ◌∙◌, ◌≡◌,
  ◌⊎◌,
}

-- What the runner relies on of the backtest cycle: it raises `_JobCancelled` only where a call of the
-- progress callback did, and the job is then still cancelled.
pub record CycleCancels {F : Type 0} (env : Environment F) (jid : ℕ) : Type 0 where
  pub cancels :
      (params : Text) (cb : ℕ → ℕ → Action F (Unit {0}))
      → ((i n : ℕ) (t : Table F)
          → (cb i n t).0 ≡ err job_cancelled
          → is_cancelled jid (cb i n t).1 ≡ true)
      → (t : Table F) → (env.execute_cycle params cb t).0 ≡ err job_cancelled
      → is_cancelled jid (env.execute_cycle params cb t).1 ≡ true

bind_error :
    {F A : Type 0} (m : Action F A) (f : A → Action F (Unit {0})) (t : Table F) (x : Raised)
    → ((a : A) (u : Table F) → (f a u).0 ≡ ok tt)
    → ((m >>= f) t).0 ≡ err x
    → ((m t).0 ≡ err x) × (((m >>= f) t).1 ≡ (m t).1)
bind_error {F} {A} m f t x safe = go (m t)
  where
    bound : Result Raised A × Table F → Result Raised (Unit {0}) × Table F
    bound r = elim r.0 [ ok a ↦ f a r.1 | err e ↦ (err e, r.1) ]

    ok_not_err : (r : Result Raised (Unit {0})) → r ≡ ok tt → r ≡ err x → ⊥
    ok_not_err r a b = cc

    same_error :
        (e : Raised)
        → ◌≡◌ {A = Result Raised (Unit {0})} (err e) (err x)
        → ◌≡◌ {A = Result Raised A} (err e) (err x)
    same_error e h = cc

    go : (r : Result Raised A × Table F) → (bound r).0 ≡ err x → (r.0 ≡ err x) × ((bound r).1 ≡ r.1)
    go (ok a, u) h = absurd (ok_not_err (f a u).0 (safe a u) h)
    go (err e, u) h = (same_error e h, refl)

module _ {F : Type 0} (env : Environment F) (jid : ℕ) (wid : Text) (lease : ℕ)
    (work : WorkIsRun env) (cycle : CycleCancels env jid) where
  run_sync_all-Settles : Settles jid (run_sync_all env jid wid lease)
  unfolding run_sync_all Stopped
  run_sync_all-Settles =
      bind-Settles jid env.load_leagues
        (λ leagues. sync_each env jid wid lease 0 (length leagues) leagues [] >>= finish)
        work.load_leagues
        (λ leagues t u e s.
          bind-Settles jid (loop leagues) finish
            (sync_each-IsRun env jid wid lease work 0 (length leagues) leagues [])
            (λ o t' u' e' s'. last o u' s' (λ n.
              subst (λ r. r.0 ≡ ok none → is_cancelled jid r.1 ≡ true) e'
                (sync_each-Stopped env jid wid lease work 0 (length leagues) leagues [] t')
                (ap ok n)))
            u s)
    where
      loop : List Text → Action F (Option (List (Bool × Text)))
      loop leagues = sync_each env jid wid lease 0 (length leagues) leagues []

      finish : Option (List (Bool × Text)) → Action F (Unit {0})
      finish outcome = elim outcome [
        | none ↦ return tt
        | some results ↦
            if all_ok results
            then complete env jid wid lease (env.dumps results)
            else fail env jid wid lease (env.partial_message results) (env.dumps results)
      ]

      last :
          (o : Option (List (Bool × Text))) (u : Table F)
          → Started jid u
          → (o ≡ none → is_cancelled jid u ≡ true)
          → Settled jid (finish o u)
      last none u s stop = λ _. is_cancelled-Ended jid u (stop refl)
      last (some results) u s stop =
          by_type env jid wid lease work (all_ok results)
            (complete env jid wid lease (env.dumps results))
            (fail env jid wid lease (env.partial_message results) (env.dumps results))
            (complete-Settles env jid wid lease work (env.dumps results))
            (fail-Settles env jid wid lease work (env.partial_message results) (env.dumps results))
            u s

  run_sync_league-Settles : (job : Job F) → Settles jid (run_sync_league env jid wid lease job)
  unfolding run_sync_league
  run_sync_league-Settles job =
      bind-Settles jid (env.sync_league_local job.league_id) finish
        (work.sync_league_local job.league_id)
        (λ r t u e s.
          by_type env jid wid lease work r.0 (complete env jid wid lease r.2)
            (fail env jid wid lease r.1 r.2) (complete-Settles env jid wid lease work r.2)
            (fail-Settles env jid wid lease work r.1 r.2) u s)
    where
      finish : Bool × Text × Text → Action F (Unit {0})
      finish (good, error, res) =
          if good then complete env jid wid lease res else fail env jid wid lease error res

  run_sync_odds-Settles : (job : Job F) → Settles jid (run_sync_odds env jid wid lease job)
  unfolding run_sync_odds
  run_sync_odds-Settles job t s = elim (Option-cases (env.sport_key job.parameters)) [
    | inl missing ↦ rw (missing, run_sync_odds) (λ bad. cc)
    | inr (key, e) ↦
        rw (e, run_sync_odds)
          (bind-Settles jid (env.sync_soccer_h2h key job.parameters) finish
            (work.sync_soccer_h2h key job.parameters)
            (λ r t' u e' s'.
              by_type env jid wid lease work r.0 (complete env jid wid lease r.2)
                (raise (failure r.1)) (complete-Settles env jid wid lease work r.2) (λ w z bad. cc)
                u s')
            t s)
  ]
    where
      finish : Bool × Text × Text → Action F (Unit {0})
      finish (good, reason, res) =
          if good then complete env jid wid lease res else raise (failure reason)

  cycle_progress_cancels :
      (i n : ℕ) (t : Table F)
      → (cycle_progress env jid wid lease i n t).0 ≡ err job_cancelled
      → is_cancelled jid (cycle_progress env jid wid lease i n t).1 ≡ true
  unfolding cycle_progress progress
  cycle_progress_cancels i n t h = elim (Bool-cases (is_cancelled jid t)) [
    | inl stop ↦ rw (stop, cycle_progress) stop
    | inr go_on ↦ cc (rw (go_on, cycle_progress) at h)
  ]

  run_backtest-Settles : (job : Job F) → Settles jid (run_backtest env jid wid lease job)
  unfolding run_backtest complete
  run_backtest-Settles job =
      catch-Settles jid (env.execute_cycle job.parameters cb >>= finish) handler
        (bind-IsRun (env.execute_cycle job.parameters cb) finish
          (work.execute_cycle job.parameters cb (cycle_progress-IsRun env jid wid lease work))
          finish-IsRun)
        (bind-Settles jid (env.execute_cycle job.parameters cb) finish
          (work.execute_cycle job.parameters cb (cycle_progress-IsRun env jid wid lease work))
          (λ res t u e s. finished res u s))
        handled
    where
      cb : ℕ → ℕ → Action F (Unit {0})
      cb = cycle_progress env jid wid lease

      finish : Text → Action F (Unit {0})
      finish res t = if is_cancelled jid t then (ok tt, t) else complete env jid wid lease res t

      finish-IsRun : (res : Text) → IsRun (finish res)
      finish-IsRun res t = elim (Bool-cases (is_cancelled jid t)) [
        | inl stop ↦ rw stop Run.here
        | inr go_on ↦ rw go_on (complete-IsRun env jid wid lease work res t)
      ]

      finished : (res : Text) (u : Table F) → Started jid u → Settled jid (finish res u)
      finished res u s = elim (Bool-cases (is_cancelled jid u)) [
        | inl stop ↦ rw stop (λ _. is_cancelled-Ended jid u stop)
        | inr go_on ↦ rw go_on (complete-Settles env jid wid lease work res u s)
      ]

      finish_returns : (res : Text) (u : Table F) → (finish res u).0 ≡ ok tt
      finish_returns res u = elim (Bool-cases (is_cancelled jid u)) [
        | inl stop ↦ rw stop refl
        | inr go_on ↦ rw go_on refl
      ]

      handler : Raised → Action F (Unit {0})
      handler e = elim e [ job_cancelled ↦ return tt | failure s ↦ raise (failure s) ]

      handled :
          (x : Raised) (t u : Table F)
          → (env.execute_cycle job.parameters cb >>= finish) t ≡ (err x, u)
          → Started jid u
          → Settled jid (handler x u)
      handled (failure f) t u e s = λ bad. cc
      handled job_cancelled t u e s = λ _.
          let inner =
            bind_error (env.execute_cycle job.parameters cb) finish t job_cancelled finish_returns
              (ap (λ r. r.0) e) in
          let at_end = cycle.cancels job.parameters cb cycle_progress_cancels t inner.0 in
          is_cancelled-Ended jid u (
            subst (λ (w : Table F). is_cancelled jid w ≡ true) (sym inner.1 ∙ ap (λ r. r.1) e)
              at_end)

  run_body-Settles : (job : Job F) → Settles jid (run_body env jid wid lease job)
  unfolding run_body
  run_body-Settles job = pick (text_eq ty sync_all) _ _ run_sync_all-Settles (
      pick (text_eq ty sync_league) _ _ (run_sync_league-Settles job) (
        pick (text_eq ty (codes "sync_odds")) _ _ (run_sync_odds-Settles job) (
          pick (text_eq ty calibrate_all) _ _
            (then_complete env jid wid lease work env.calibrate_all work.calibrate_all)
            (pick (text_eq ty (codes "calibrate_league")) _ _
              (then_complete env jid wid lease work (env.calibrate_league job.league_id)
                (work.calibrate_league job.league_id))
              (pick (text_eq ty (codes "backtest")) _ _ (run_backtest-Settles job) (
                pick (text_eq ty (codes "health")) _ _
                  (then_complete env jid wid lease work env.health work.health)
                  (λ t s bad. cc)))))))
    where
      ty : Text
      ty = job.job_type

      pick :
          (b : Bool) (m n : Action F (Unit {0}))
          → Settles jid m
          → Settles jid n
          → Settles jid (if b then m else n)
      pick = by_type env jid wid lease work

  -- Whatever the work of a job returns or raises, and whatever other processes do meanwhile, a job
  -- whose claim was granted has ended when `_run_one` returns; where the claim was refused the rows
  -- are as they were. It assumes that the work changes jobs by registry calls only, and that the
  -- backtest cycle raises `_JobCancelled` only for a cancelled job.
  pub run_one-Ended :
      (job : Job F) (t : Table F)
      → IsValid t
      → (((claim_job (env.now t) jid wid lease t).0 ≡ true)
          × Ended jid (run_one env jid wid lease job t))
        ⊎ (((claim_job (env.now t) jid wid lease t).0 ≡ false)
            × ((run_one env jid wid lease job t).rows ≡ t.rows))
  unfolding run_one
  run_one-Ended job t v = elim (Bool-cases (claim_job (env.now t) jid wid lease t).0) [
    | inl granted ↦ inl (granted, rw (granted, run_one) (ends granted))
    | inr refused ↦ inr (refused, rw (refused, run_one) (unchanged refused))
  ]
    where
      claim : Bool × Table F
      claim = claim_job (env.now t) jid wid lease t

      on_error : Raised → Action F (Unit {0})
      on_error e = fail env jid wid lease (message e) (codes "{}")

      started : claim.0 ≡ true → Started jid claim.1
      started granted = elim (claim_job-cases (env.now t) jid wid lease t v) [
        | inl refused ↦ cc (refused.0)
        | inr g ↦ (
          (claim-Sound (env.now t) jid wid lease t v).0,
          (set_claimed (env.now t) wid lease g.1.0, g.1.3, unfold set_claimed in refl),
        )
      ]

      unchanged : claim.0 ≡ false → claim.1.rows ≡ t.rows
      unchanged refused = elim (claim_job-cases (env.now t) jid wid lease t v) [
        | inl r ↦ r.1
        | inr g ↦ cc (g.0)
      ]

      body_IsRun : IsRun (run_body env jid wid lease job)
      body_IsRun = run_body-IsRun env jid wid lease work job

      returns : (r : Result Raised (Unit {0}) × Table F) → Result Raised (Unit {0}) × Table F
      returns r = elim r.0 [ ok a ↦ (ok a, r.1) | err e ↦ on_error e r.1 ]

      always : (r : Result Raised (Unit {0}) × Table F) → (returns r).0 ≡ ok tt
      always (ok tt, u) = refl
      always (err e, u) = unfold fail in refl

      ends : claim.0 ≡ true → Ended jid (catch (run_body env jid wid lease job) on_error claim.1).1
      ends granted =
          catch-Settles jid (run_body env jid wid lease job) on_error body_IsRun
            (run_body-Settles job)
            (λ x w u e s _. fail-Ended env jid wid lease work (message x) (codes "{}") u s) claim.1
            (started granted) (always (run_body env jid wid lease job claim.1))
