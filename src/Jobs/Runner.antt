-- ===== src/Jobs/Runner.antt =====
-- backend/app/jobs/runner.py: `_run_one` executes one claimed job. The work of each type of job is
-- an argument, a call that may raise and that may find the table changed by other processes.
use ap2web.Prelude.{
  Bool, List, Option, Result, Text, [], codes, err, false, if◌then◌else◌, length, none, ok, some,
  text_eq, true, ℕ, ◌&&◌, ◌++◌, ◌+◌, ◌==◌, ◌∷◌,
}
use ap2web.Jobs.Table.{Job, Status, Table, calibrate_all, get_job, sync_all, sync_league}
use ap2web.Jobs.Claim.{claim_job}
use ap2web.Jobs.Finish.{complete_job, fail_job, update_progress}

-- What a call raises: `_JobCancelled`, or any other exception with its text.
pub data Raised : Type 0 where
  job_cancelled : Raised
  failure : Text → Raised

-- `str(e)`
abbrev pub message : Raised → Text
message job_cancelled = []
message (failure s) = s

abbrev pub Action : Type 0 → Type 0 → Type 0
Action F A = Table F → Result Raised A × Table F

module _ {F : Type 0} where
  infixl 5 ◌>>=◌ ◌>>◌
  abbrev pub ◌>>=◌ : {A B : Type 0} → Action F A → (A → Action F B) → Action F B
  ◌>>=◌ m f t = let (r, t') = m t in elim r [ ok a ↦ f a t' | err e ↦ (err e, t') ]

  abbrev pub ◌>>◌ : {A B : Type 0} → Action F A → Action F B → Action F B
  m >> k = m >>= λ _. k

  abbrev pub return : {A : Type 0} → A → Action F A
  return a t = (ok a, t)

  abbrev pub raise : {A : Type 0} → Raised → Action F A
  raise e t = (err e, t)

  abbrev pub modify : (Table F → Table F) → Action F (Unit {0})
  modify f t = (ok tt, f t)

  -- `try: … except Exception as e: handler(e)`
  abbrev pub catch : {A : Type 0} → Action F A → (Raised → Action F A) → Action F A
  catch m handler t = let (r, t') = m t in elim r [ ok a ↦ (ok a, t') | err e ↦ handler e t' ]

-- The work that the runner calls, the clock, the float operations and the serialiser.
pub record Environment (F : Type 0) : Type 0 where
  pub lt : F → F → Bool
  pub lo : F
  pub hi : F
  pub ratio : ℕ → ℕ → F
  pub now : Table F → ℕ
  pub dumps : List (Bool × Text) → Text
  pub partial_message : List (Bool × Text) → Text
  pub load_leagues : Action F (List Text)
  pub sync_league : Text → Action F (Bool × Text)
  pub sync_league_local : Option ℕ → Action F (Bool × Text × Text)
  pub sport_key : Text → Option Text
  pub sync_soccer_h2h : Text → Text → Action F (Bool × Text × Text)
  pub calibrate_all : Action F Text
  pub calibrate_league : Option ℕ → Action F Text
  pub execute_cycle : Text → (ℕ → ℕ → Action F (Unit {0})) → Action F Text
  pub health : Action F Text

abbrev pub all_ok : List (Bool × Text) → Bool
all_ok [] = true
all_ok ((b, r) ∷ rs) = b && all_ok rs

module _ {F : Type 0} where
  -- `cur and cur["status"] == "cancelled"`
  unfoldable pub is_cancelled : ℕ → Table F → Bool
  is_cancelled jid t = elim (get_job jid t) [
    | none ↦ false
    | some j ↦ elim j.status [ Status.cancelled ↦ true | _ ↦ false ]
  ]

module _ {F : Type 0} (env : Environment F) (jid : ℕ) (wid : Text) (lease : ℕ) where
  open env use {lt, lo, hi, ratio, now, dumps}

  unfoldable pub progress : F → Action F (Unit {0})
  progress p t = (ok tt, update_progress lt lo hi (now t) jid p (some wid) lease t)

  unfoldable pub complete : Text → Action F (Unit {0})
  complete res t = (ok tt, complete_job (now t) jid res hi t)

  unfoldable pub fail : Text → Text → Action F (Unit {0})
  fail error res t = (ok tt, fail_job (now t) jid error res t)

  -- The loop of `sync_all` over the leagues that are left; `none` if the job was found cancelled.
  unfoldable pub sync_each :
      ℕ → ℕ → List Text → List (Bool × Text) → Action F (Option (List (Bool × Text)))
  sync_each i total [] results t = (ok (some results), t)
  sync_each i total (cfg ∷ cfgs) results t = elim (is_cancelled jid t) [
    | true ↦ (ok none, t)
    | false ↦
        (progress (ratio i total)
            >> catch (progress (ratio i total) >> env.sync_league cfg)
                (λ e. return (false, message e))
            >>= (λ r.
                progress (ratio (i + 1) total)
                >> sync_each (i + 1) total cfgs (results ++ (r ∷ []))))
          t
  ]

  unfoldable pub run_sync_all : Action F (Unit {0})
  unfolding sync_each
  run_sync_all = do
    leagues ← env.load_leagues
    outcome ← sync_each 0 (length leagues) leagues []
    elim outcome [
      | none ↦ return tt
      | some results ↦
          if all_ok results
          then complete (dumps results)
          else fail (env.partial_message results) (dumps results)
    ]

  unfoldable pub run_sync_league : Job F → Action F (Unit {0})
  run_sync_league job = do
    (good, error, res) ← env.sync_league_local job.league_id
    if good then complete res else fail error res

  unfoldable pub run_sync_odds : Job F → Action F (Unit {0})
  run_sync_odds job = elim (env.sport_key job.parameters) [
    | none ↦ raise (failure (codes "sync_odds requires sport_key"))
    | some key ↦ do
      (good, reason, res) ← env.sync_soccer_h2h key job.parameters
      if good then complete res else raise (failure reason)
  ]

  -- `_progress`, which stops the cycle of a cancelled job.
  unfoldable pub cycle_progress : ℕ → ℕ → Action F (Unit {0})
  cycle_progress i total t = elim (is_cancelled jid t) [
    | true ↦ (err job_cancelled, t)
    | false ↦ progress (if total == 0 then hi else ratio i total) t
  ]

  -- After the cycle a cancelled job is left alone; `except _JobCancelled: return`.
  unfoldable pub run_backtest : Job F → Action F (Unit {0})
  run_backtest job =
      catch
        (env.execute_cycle job.parameters cycle_progress
          >>= (λ res t. if is_cancelled jid t then (ok tt, t) else complete res t))
        (λ e. elim e [ job_cancelled ↦ return tt | failure s ↦ raise (failure s) ])

  unfoldable pub run_body : Job F → Action F (Unit {0})
  unfolding run_sync_all run_sync_league run_sync_odds run_backtest
  run_body job =
      if text_eq job.job_type sync_all
      then run_sync_all
      else if text_eq job.job_type sync_league
      then run_sync_league job
      else if text_eq job.job_type (codes "sync_odds")
      then run_sync_odds job
      else if text_eq job.job_type calibrate_all
      then (env.calibrate_all >>= complete)
      else if text_eq job.job_type (codes "calibrate_league")
      then (env.calibrate_league job.league_id >>= complete)
      else if text_eq job.job_type (codes "backtest")
      then run_backtest job
      else if text_eq job.job_type (codes "health")
      then (env.health >>= complete)
      else raise (failure (codes "Unsupported persisted job type"))

  -- `_run_one` from its claim on: nothing without the claim; what the body raises fails the job.
  -- (The parameters are parsed before the claim; that this raises is in the worker's loop.)
  unfoldable pub run_one : Job F → Table F → Table F
  run_one job t =
      let (granted, t') = claim_job (now t) jid wid lease t in
      if granted then (catch (run_body job) (λ e. fail (message e) (codes "{}")) t').1 else t'
