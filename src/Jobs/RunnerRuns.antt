-- ===== src/Jobs/RunnerRuns.antt =====
-- The runner (backend/app/jobs/runner.py) does nothing to the `jobs` table but registry calls, and
-- leaves no claimed job active.
use ap2web.Prelude.{
  Bool, Bool-cases, List, Option, Option-cases, Result, Text, [], codes, err, false, if◌then◌else◌,
  inl, inr, length, none, ok, some, text_eq, true, ℕ, ◌++◌, ◌+◌, ◌==◌, ◌∷◌,
}
use ap2web.Jobs.Table.{Job, Table, calibrate_all, sync_all, sync_league}
use ap2web.Jobs.Claim.{claim_job, renew_job_lease}
use ap2web.Jobs.Finish.{bounded, update_progress}
use ap2web.Jobs.Runner.{
  Action, Environment, Raised, all_ok, catch, complete, cycle_progress, fail, failure, is_cancelled,
  job_cancelled, message, progress, raise, return, run_backtest, run_body, run_one, run_sync_all,
  run_sync_league, run_sync_odds, sync_each, ◌>>=◌, ◌>>◌,
}
use ap2web.Jobs.Steps.{Run, Step}

module _ {F : Type 0} where
  pub Run-append : {s t u : Table F} → Run F s t → Run F t u → Run F s u
  Run-append a Run.here = a
  Run-append a (Run.next b st) = Run.next (Run-append a b) st

  -- An action that changes the table by steps of the job system only.
  abbrev pub IsRun : {A : Type 0} → Action F A → Type 0
  IsRun m = (t : Table F) → Run F t (m t).1

  pub bind-IsRun :
      {A B : Type 0} (m : Action F A) (f : A → Action F B)
      → IsRun m
      → ((a : A) → IsRun (f a))
      → IsRun (m >>= f)
  bind-IsRun {A} {B} m f hm hf t = go (m t) (hm t)
    where
      go :
          (r : Result Raised A × Table F)
          → Run F t r.1
          → Run F t
              (let x : Result Raised B × Table F = elim r.0 [
                | ok a ↦ f a r.1
                | err e ↦ (err e, r.1)
              ] in
                x).1
      go (ok a, t') h = Run-append h (hf a t')
      go (err e, t') h = h

  pub catch-IsRun :
      {A : Type 0} (m : Action F A) (handler : Raised → Action F A)
      → IsRun m
      → ((e : Raised) → IsRun (handler e))
      → IsRun (catch m handler)
  catch-IsRun {A} m handler hm hh t = go (m t) (hm t)
    where
      go :
          (r : Result Raised A × Table F)
          → Run F t r.1
          → Run F t
              (let x : Result Raised A × Table F = elim r.0 [
                | ok a ↦ (ok a, r.1)
                | err e ↦ handler e r.1
              ] in
                x).1
      go (ok a, t') h = h
      go (err e, t') h = Run-append h (hh e t')

  pub return-IsRun : {A : Type 0} (a : A) → IsRun (return a)
  return-IsRun a t = Run.here

  -- What the runner relies on of the work that it calls: it touches the jobs by registry calls only.
  pub record WorkIsRun (env : Environment F) : Type 0 where
    pub load_leagues : IsRun (env.load_leagues)
    pub sync_league : (cfg : Text) → IsRun (env.sync_league cfg)
    pub sync_league_local : (league : Option ℕ) → IsRun (env.sync_league_local league)
    pub sync_soccer_h2h : (key params : Text) → IsRun (env.sync_soccer_h2h key params)
    pub calibrate_all : IsRun (env.calibrate_all)
    pub calibrate_league : (league : Option ℕ) → IsRun (env.calibrate_league league)
    pub execute_cycle :
        (params : Text) (cb : ℕ → ℕ → Action F (Unit {0}))
        → ((i n : ℕ) → IsRun (cb i n))
        → IsRun (env.execute_cycle params cb)
    pub health : IsRun (env.health)

module _ {F : Type 0} (env : Environment F) (jid : ℕ) (wid : Text) (lease : ℕ)
    (work : WorkIsRun env) where
  progress-IsRun : (p : F) → IsRun (progress env jid wid lease p)
  unfolding progress update_progress
  progress-IsRun p t = renewed wid
    where
      renewed :
          (w : Text)
          → Run F t (update_progress env.lt env.lo env.hi (env.now t) jid p (some w) lease t)
      renewed [] =
          Run.next Run.here (Step.report (env.now t) jid (bounded env.lt env.lo env.hi p) t)
      renewed (c ∷ w) = Run.next (Run.next Run.here (Step.renew (env.now t) jid (c ∷ w) lease t)) (
          Step.report (env.now t) jid (bounded env.lt env.lo env.hi p)
            (renew_job_lease (env.now t) jid (c ∷ w) lease t).1)

  pub complete-IsRun : (res : Text) → IsRun (complete env jid wid lease res)
  unfolding complete
  complete-IsRun res t = Run.next Run.here (Step.complete (env.now t) jid res env.hi t)

  fail-IsRun : (error res : Text) → IsRun (fail env jid wid lease error res)
  unfolding fail
  fail-IsRun error res t = Run.next Run.here (Step.fail (env.now t) jid error res t)

  pub sync_each-IsRun :
      (i total : ℕ) (cfgs : List Text) (results : List (Bool × Text))
      → IsRun (sync_each env jid wid lease i total cfgs results)
  unfolding sync_each
  sync_each-IsRun i total [] results t = Run.here
  sync_each-IsRun i total (cfg ∷ cfgs) results t = elim (Bool-cases (is_cancelled jid t)) [
    | inl stop ↦ rw (stop, sync_each) Run.here
    | inr go_on ↦
        rw (go_on, sync_each)
          (rest (λ r. sync_each-IsRun (i + 1) total cfgs (results ++ (r ∷ []))) t)
  ]
    where
      p : F → Action F (Unit {0})
      p = progress env jid wid lease

      caught : Action F (Bool × Text)
      caught = catch (p (env.ratio i total) >> env.sync_league cfg) (λ e. return (false, message e))

      caught-IsRun : IsRun caught
      caught-IsRun =
          catch-IsRun (p (env.ratio i total) >> env.sync_league cfg)
            (λ e. return (false, message e))
            (bind-IsRun (p (env.ratio i total)) (λ _. env.sync_league cfg)
              (progress-IsRun (env.ratio i total)) (λ _. work.sync_league cfg))
            (λ e. return-IsRun {A = Bool × Text} (false, message e))

      again : Bool × Text → Action F (Option (List (Bool × Text)))
      again r = sync_each env jid wid lease (i + 1) total cfgs (results ++ (r ∷ []))

      next_leagues : Bool × Text → Action F (Option (List (Bool × Text)))
      next_leagues r = p (env.ratio (i + 1) total) >> again r

      rest :
          ((r : Bool × Text) → IsRun (again r))
          → IsRun (
              p (env.ratio i total)
              >> catch
                  (p (env.ratio i total) >> env.sync_league cfg)
                  (λ e. return (false, message e))
              >>= (λ r.
                  p (env.ratio (i + 1) total)
                  >> sync_each env jid wid lease (i + 1) total cfgs (results ++ (r ∷ []))))
      rest more =
          bind-IsRun (p (env.ratio i total) >> caught) next_leagues
            (bind-IsRun (p (env.ratio i total)) (λ _. caught) (progress-IsRun (env.ratio i total))
              (λ _. caught-IsRun))
            (λ r.
              bind-IsRun (p (env.ratio (i + 1) total)) (λ _. again r)
                (progress-IsRun (env.ratio (i + 1) total)) (λ _. more r))

  run_sync_all-IsRun : IsRun (run_sync_all env jid wid lease)
  unfolding run_sync_all
  run_sync_all-IsRun =
      bind-IsRun env.load_leagues
        (λ leagues. sync_each env jid wid lease 0 (length leagues) leagues [] >>= finish)
        work.load_leagues
        (λ leagues.
          bind-IsRun (sync_each env jid wid lease 0 (length leagues) leagues []) finish
            (sync_each-IsRun 0 (length leagues) leagues []) finish-IsRun)
    where
      finish : Option (List (Bool × Text)) → Action F (Unit {0})
      finish outcome = elim outcome [
        | none ↦ return tt
        | some results ↦
            if all_ok results
            then complete env jid wid lease (env.dumps results)
            else fail env jid wid lease (env.partial_message results) (env.dumps results)
      ]

      finish-IsRun : (o : Option (List (Bool × Text))) → IsRun (finish o)
      finish-IsRun none = return-IsRun tt
      finish-IsRun (some results) = either (all_ok results)
        where
          either :
              (b : Bool)
              → IsRun (
                  if b
                  then complete env jid wid lease (env.dumps results)
                  else fail env jid wid lease (env.partial_message results) (env.dumps results))
          either true = complete-IsRun (env.dumps results)
          either false = fail-IsRun (env.partial_message results) (env.dumps results)

  run_sync_league-IsRun : (job : Job F) → IsRun (run_sync_league env jid wid lease job)
  unfolding run_sync_league
  run_sync_league-IsRun job =
      bind-IsRun (env.sync_league_local job.league_id) finish (work.sync_league_local job.league_id)
        (λ r. either r.0 r.1 r.2)
    where
      finish : Bool × Text × Text → Action F (Unit {0})
      finish (good, error, res) =
          if good then complete env jid wid lease res else fail env jid wid lease error res

      either : (b : Bool) (error res : Text) → IsRun (finish (b, error, res))
      either true error res = complete-IsRun res
      either false error res = fail-IsRun error res

  run_sync_odds-IsRun : (job : Job F) → IsRun (run_sync_odds env jid wid lease job)
  unfolding run_sync_odds
  run_sync_odds-IsRun job t = elim (Option-cases (env.sport_key job.parameters)) [
    | inl missing ↦ rw (missing, run_sync_odds) Run.here
    | inr (key, e) ↦
        rw (e, run_sync_odds)
          (bind-IsRun (env.sync_soccer_h2h key job.parameters) finish
            (work.sync_soccer_h2h key job.parameters) (λ r. either r.0 r.1 r.2) t)
  ]
    where
      finish : Bool × Text × Text → Action F (Unit {0})
      finish (good, reason, res) =
          if good then complete env jid wid lease res else raise (failure reason)

      either : (b : Bool) (reason res : Text) → IsRun (finish (b, reason, res))
      either true reason res t = complete-IsRun res t
      either false reason res t = Run.here

  pub cycle_progress-IsRun : (i total : ℕ) → IsRun (cycle_progress env jid wid lease i total)
  unfolding cycle_progress
  cycle_progress-IsRun i total t = elim (Bool-cases (is_cancelled jid t)) [
    | inl stop ↦ rw (stop, cycle_progress) Run.here
    | inr go_on ↦
        rw (go_on, cycle_progress)
          (progress-IsRun (if total == 0 then env.hi else env.ratio i total) t)
  ]

  run_backtest-IsRun : (job : Job F) → IsRun (run_backtest env jid wid lease job)
  unfolding run_backtest
  run_backtest-IsRun job =
      catch-IsRun (env.execute_cycle job.parameters cb >>= finish) handler
        (bind-IsRun (env.execute_cycle job.parameters cb) finish
          (work.execute_cycle job.parameters cb cycle_progress-IsRun) finish-IsRun)
        handler-IsRun
    where
      cb : ℕ → ℕ → Action F (Unit {0})
      cb = cycle_progress env jid wid lease

      finish : Text → Action F (Unit {0})
      finish res t = if is_cancelled jid t then (ok tt, t) else complete env jid wid lease res t

      finish-IsRun : (res : Text) → IsRun (finish res)
      finish-IsRun res t = elim (Bool-cases (is_cancelled jid t)) [
        | inl stop ↦ rw stop Run.here
        | inr go_on ↦ rw go_on (complete-IsRun res t)
      ]

      handler : Raised → Action F (Unit {0})
      handler e = elim e [ job_cancelled ↦ return tt | failure s ↦ raise (failure s) ]

      handler-IsRun : (e : Raised) → IsRun (handler e)
      handler-IsRun job_cancelled t = Run.here
      handler-IsRun (failure s) t = Run.here

  by_type-IsRun :
      (b : Bool) (m n : Action F (Unit {0})) → IsRun m → IsRun n → IsRun (if b then m else n)
  by_type-IsRun true m n hm hn = hm
  by_type-IsRun false m n hm hn = hn

  pub run_body-IsRun : (job : Job F) → IsRun (run_body env jid wid lease job)
  unfolding run_body
  run_body-IsRun job = by_type-IsRun (text_eq ty sync_all) _ _ run_sync_all-IsRun (
      by_type-IsRun (text_eq ty sync_league) _ _ (run_sync_league-IsRun job) (
        by_type-IsRun (text_eq ty (codes "sync_odds")) _ _ (run_sync_odds-IsRun job) (
          by_type-IsRun (text_eq ty calibrate_all) _ _
            (bind-IsRun env.calibrate_all (complete env jid wid lease) work.calibrate_all
              complete-IsRun)
            (by_type-IsRun (text_eq ty (codes "calibrate_league")) _ _
              (bind-IsRun (env.calibrate_league job.league_id) (complete env jid wid lease)
                (work.calibrate_league job.league_id) complete-IsRun)
              (by_type-IsRun (text_eq ty (codes "backtest")) _ _ (run_backtest-IsRun job) (
                by_type-IsRun (text_eq ty (codes "health")) _ _
                  (bind-IsRun env.health (complete env jid wid lease) work.health complete-IsRun)
                  (λ t. Run.here)))))))
    where
      ty : Text
      ty = job.job_type

  -- Executing a job is a run of the job system, if the work that it calls is.
  pub run_one-Run : (job : Job F) (t : Table F) → Run F t (run_one env jid wid lease job t)
  unfolding run_one
  run_one-Run job t = elim (Bool-cases (claim_job (env.now t) jid wid lease t).0) [
    | inr refused ↦ rw (refused, run_one) claimed
    | inl granted ↦
        rw (granted, run_one)
          (Run-append claimed (
            catch-IsRun (run_body env jid wid lease job)
              (λ e. fail env jid wid lease (message e) (codes "{}")) (run_body-IsRun job)
              (λ e. fail-IsRun (message e) (codes "{}")) (claim_job (env.now t) jid wid lease t).1))
  ]
    where
      claimed : Run F t (claim_job (env.now t) jid wid lease t).1
      claimed = Run.next Run.here (Step.claim (env.now t) jid wid lease t)
