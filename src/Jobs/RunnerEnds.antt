-- ===== src/Jobs/RunnerEnds.antt =====
-- A job that the runner (backend/app/jobs/runner.py) has claimed does not stay active: whatever its
-- work returns or raises, and whatever other processes do to the table meanwhile.
use ap2web.Prelude.{
  Bool, Bool-cases, Option-cases, Result, Text, ap, arith, err, false, if◌then◌else◌, inl, inr, ok,
  refl, some, subst, sym, true, ℕ, ◌≡◌,
}
use ap2web.Jobs.Table.{Job, Status, Table, get_job, is_active, is_pending, is_running}
use ap2web.Jobs.Finish.{set_completed, set_failed}
use ap2web.Jobs.Runner.{Action, Raised, catch, is_cancelled, ◌>>=◌}
use ap2web.Jobs.Invariant.{IsValid}
use ap2web.Jobs.Evolution.{reaches}
use ap2web.Jobs.Steps.{Run}
use ap2web.Jobs.Runs.{Run-IsValid, Run-get_job}
use ap2web.Jobs.RunnerRuns.{IsRun}

not_pending : (a b : Status) → is_pending a ≡ false → reaches a b ≡ true → is_pending b ≡ false
not_pending Status.pending b p r = cc
not_pending Status.running b p r = ground arith
not_pending Status.completed b p r = ground arith
not_pending Status.failed b p r = ground arith
not_pending Status.cancelled b p r = ground arith

ended_status : (s : Status) → is_pending s ≡ false → is_running s ≡ false → is_active s ≡ false
ended_status s p r = ground arith

module _ {F : Type 0} (jid : ℕ) where
  -- The job is found, and has ended.
  abbrev pub Ended : Table F → Type 0
  Ended t = (y : Job F) × (get_job jid t ≡ some y) × (is_active y.status ≡ false)

  -- The table is valid, and the job is found and waits no more.
  abbrev pub Started : Table F → Type 0
  Started t = IsValid t × ((y : Job F) × (get_job jid t ≡ some y) × (is_pending y.status ≡ false))

  pub Started-Run : {t u : Table F} → Started t → Run F t u → Started u
  Started-Run (v, (y, found, waits)) r =
      let (z, found', follows) = Run-get_job jid {x = y} v r found in
      (Run-IsValid v r, (z, found', not_pending y.status z.status waits follows.moved))

  pub Ended-Run : {t u : Table F} → IsValid t → Ended t → Run F t u → Ended u
  Ended-Run v (y, found, ended) r =
      let (z, found', follows) = Run-get_job jid {x = y} v r found in
      (
        z,
        found',
        subst (λ (x : Job F). is_active x.status ≡ false) (sym (follows.frozen ended)) ended,
      )

  pub set_completed_ended :
      (now : ℕ) (res : Text) (p : F) (x : Job F)
      → is_active (set_completed now res p x).status ≡ false
  unfolding set_completed
  set_completed_ended now res p x = refl

  pub set_failed_ended :
      (now : ℕ) (error res : Text) (x : Job F)
      → is_active (set_failed now error res x).status ≡ false
  unfolding set_failed
  set_failed_ended now error res x = refl

  pub settle :
      (f : Job F → Job F) (y : Job F) (u : Table F)
      → ((x : Job F) → is_active (f x).status ≡ false)
      → is_pending y.status ≡ false
      → get_job jid u ≡ some (if is_running y.status then f y else y)
      → Ended u
  settle f y u ends waits found = elim (Bool-cases (is_running y.status)) [
    | inl on ↦ (f y, rw on at found, ends y)
    | inr off ↦ (y, rw off at found, ended_status y.status waits off)
  ]

  pub is_cancelled-Ended : (t : Table F) → is_cancelled jid t ≡ true → Ended t
  unfolding is_cancelled
  is_cancelled-Ended t h = elim (Option-cases (get_job jid t)) [
    | inl e ↦ cc (rw (e, is_cancelled) at h)
    | inr (y, e) ↦ (y, e, at_status y.status (rw (e, is_cancelled) at h))
  ]
    where
      at_status :
          (s : Status)
          → (let b : Bool = elim s [ Status.cancelled ↦ true | _ ↦ false ] in b) ≡ true
          → is_active s ≡ false
      at_status Status.pending h = cc
      at_status Status.running h = cc
      at_status Status.completed h = cc
      at_status Status.failed h = cc
      at_status Status.cancelled h = refl

  -- If the action returns, the job has ended.
  abbrev pub Settled : Result Raised (Unit {0}) × Table F → Type 0
  Settled r = r.0 ≡ ok tt → Ended r.1

  abbrev pub Settles : Action F (Unit {0}) → Type 0
  Settles m = (t : Table F) → Started t → Settled (m t)

  pub bind-Settles :
      {A : Type 0} (m : Action F A) (f : A → Action F (Unit {0}))
      → IsRun m
      → ((a : A) (t u : Table F) → m t ≡ (ok a, u) → Started u → Settled (f a u))
      → Settles (m >>= f)
  bind-Settles {A} m f hm hf t s = go (m t) refl
    where
      go :
          (r : Result Raised A × Table F)
          → m t ≡ r
          → Settled (
              let x : Result Raised (Unit {0}) × Table F = elim r.0 [
                | ok a ↦ f a r.1
                | err e ↦ (err e, r.1)
              ] in
              x)
      go (ok a, u) e = hf a t u e (Started-Run s (subst (λ r. Run F t r.1) e (hm t)))
      go (err e, u) h = λ bad. cc

  pub catch-Settles :
      (m : Action F (Unit {0})) (handler : Raised → Action F (Unit {0}))
      → IsRun m
      → Settles m
      → ((x : Raised) (t u : Table F) → m t ≡ (err x, u) → Started u → Settled (handler x u))
      → Settles (catch m handler)
  catch-Settles m handler hm sm hh t s = go (m t) refl
    where
      go :
          (r : Result Raised (Unit {0}) × Table F)
          → m t ≡ r
          → Settled (
              let x : Result Raised (Unit {0}) × Table F = elim r.0 [
                | ok a ↦ (ok a, r.1)
                | err e ↦ handler e r.1
              ] in
              x)
      go (ok tt, u) e = λ _. subst (λ r. Ended r.1) e (sm t s (ap (λ r. r.0) e))
      go (err x, u) e = hh x t u e (Started-Run s (subst (λ r. Run F t r.1) e (hm t)))
