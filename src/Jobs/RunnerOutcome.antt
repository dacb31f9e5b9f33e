-- ===== src/Jobs/RunnerOutcome.antt =====
-- `_run_one` of backend/app/jobs/runner.py, branch by branch: each type of job ends.
use ap2web.Prelude.{
  Bool, Bool-cases, List, Option, Result, Text, [], err, false, if◌then◌else◌, inl, inr, none, ok,
  true, ℕ, ◌++◌, ◌+◌, ◌∷◌, ◌≡◌,
}
use ap2web.Jobs.Table.{Table}
use ap2web.Jobs.Finish.{complete_job, fail_job, set_completed, set_failed}
use ap2web.Jobs.Runner.{
  Action, Environment, Raised, catch, complete, fail, is_cancelled, message, progress, return,
  sync_each, ◌>>=◌, ◌>>◌,
}
use ap2web.Jobs.Ends.{complete_job-fail_job-get_job}
use ap2web.Jobs.RunnerRuns.{IsRun, WorkIsRun}
use ap2web.Jobs.RunnerEnds.{
  Ended, Settles, Started, bind-Settles, set_completed_ended, set_failed_ended, settle,
}

module _ {F : Type 0} (env : Environment F) (jid : ℕ) (wid : Text) (lease : ℕ)
    (work : WorkIsRun env) where
  complete-Ended :
      (res : Text) (t : Table F) → Started jid t → Ended jid (complete env jid wid lease res t).1
  unfolding complete
  complete-Ended res t (v, (y, found, waits)) =
      settle jid (set_completed (env.now t) res env.hi) y
        (complete_job (env.now t) jid res env.hi t) (set_completed_ended jid (env.now t) res env.hi)
        waits ((complete_job-fail_job-get_job (env.now t) jid res [] env.hi t {j = y} found).0)

  pub fail-Ended :
      (error res : Text) (t : Table F)
      → Started jid t
      → Ended jid (fail env jid wid lease error res t).1
  unfolding fail
  fail-Ended error res t (v, (y, found, waits)) =
      settle jid (set_failed (env.now t) error res) y (fail_job (env.now t) jid error res t)
        (set_failed_ended jid (env.now t) error res) waits
        ((complete_job-fail_job-get_job (env.now t) jid res error env.hi t {j = y} found).1)

  pub complete-Settles : (res : Text) → Settles jid (complete env jid wid lease res)
  complete-Settles res t s = λ _. complete-Ended res t s

  pub fail-Settles : (error res : Text) → Settles jid (fail env jid wid lease error res)
  fail-Settles error res t s = λ _. fail-Ended error res t s

  pub then_complete : (m : Action F Text) → IsRun m → Settles jid (m >>= complete env jid wid lease)
  then_complete m hm =
      bind-Settles jid m (complete env jid wid lease) hm (λ res t u e s. complete-Settles res u s)

  pub by_type :
      (b : Bool) (m n : Action F (Unit {0}))
      → Settles jid m
      → Settles jid n
      → Settles jid (if b then m else n)
  by_type true m n hm hn = hm
  by_type false m n hm hn = hn

  -- The loop over the leagues stops early only at a state where the job is cancelled.
  unfoldable pub Stopped : Result Raised (Option (List (Bool × Text))) × Table F → Type 0
  Stopped r = r.0 ≡ ok none → is_cancelled jid r.1 ≡ true

  bind-Stopped :
      {A : Type 0} (m : Action F A) (f : A → Action F (Option (List (Bool × Text)))) (t : Table F)
      → ((a : A) (u : Table F) → Stopped (f a u))
      → Stopped ((m >>= f) t)
  unfolding Stopped
  bind-Stopped {A} m f t h = go (m t)
    where
      go :
          (r : Result Raised A × Table F)
          → Stopped (
              let x : Result Raised (Option (List (Bool × Text))) × Table F = elim r.0 [
                | ok a ↦ f a r.1
                | err e ↦ (err e, r.1)
              ] in
              x)
      go (ok a, u) = h a u
      go (err e, u) = λ bad. cc

  pub sync_each-Stopped :
      (i total : ℕ) (cfgs : List Text) (results : List (Bool × Text)) (t : Table F)
      → Stopped (sync_each env jid wid lease i total cfgs results t)
  unfolding sync_each Stopped
  sync_each-Stopped i total [] results t = λ bad. cc
  sync_each-Stopped i total (cfg ∷ cfgs) results t = elim (Bool-cases (is_cancelled jid t)) [
    | inl stop ↦ rw (stop, sync_each) (λ _. stop)
    | inr go_on ↦
        rw (go_on, sync_each)
          (bind-Stopped (p (env.ratio i total) >> caught)
            (λ r. p (env.ratio (i + 1) total) >> again r) t
            (λ r u.
              bind-Stopped (p (env.ratio (i + 1) total)) (λ _. again r) u
                (λ _ w. sync_each-Stopped (i + 1) total cfgs (results ++ (r ∷ [])) w)))
  ]
    where
      p : F → Action F (Unit {0})
      p = progress env jid wid lease

      caught : Action F (Bool × Text)
      caught = catch (p (env.ratio i total) >> env.sync_league cfg) (λ e. return (false, message e))

      again : Bool × Text → Action F (Option (List (Bool × Text)))
      again r = sync_each env jid wid lease (i + 1) total cfgs (results ++ (r ∷ []))
