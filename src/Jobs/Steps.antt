-- ===== src/Jobs/Steps.antt =====
-- The job system as a state machine: one step is one registry call, or one of the statements that
-- a call executes on its own, by any process. Runs are sequences of steps, so that the calls of
-- several workers interleave between the statements.
use ap2web.Jobs.Table.{
  Job, Table, active_with_key, allowed_types, exec, get_job, has_id, is_pending, is_running,
  pending_id, running_id, running_of_type, sync_all, sync_league,
}
use ap2web.Jobs.Create.{conflict, create_job, insert_job, key_or}
use ap2web.Jobs.Claim.{
  claim_job, claim_sync, claim_update, other_type, renew_job_lease, set_claimed,
}
use ap2web.Jobs.Finish.{cancel_job, complete_job, fail_job, is_stale, set_progress, set_recovered}
use ap2web.Jobs.Workers.{fresh}
use ap2web.Jobs.Lifecycle.{Legal, allowed, set_claimed-Legal}
use ap2web.Jobs.Invariant.{IsSingle, IsValid, calm-Exclusive, exec-IsValid}
use ap2web.Jobs.Evolution.{Evolves, Evolves-self, update-Evolves}
use ap2web.Jobs.Exclusion.{claim-Exclusive, leagues_differ}
use ap2web.Jobs.Insertion.{insert_job-IsSingle}
use ap2web.Prelude.{
  Bool, Bool-cases, List, Option, Option-cases, Text, [], any, arith, false, first, inl, inr,
  member, some, text_eq, text_eq_iff, true, ℕ, ◌&&◌, ◌==◌, ◌∷◌, ◌≡◌,
}
use ap2web.Users.{Caller, User}

-- `claim_job` is one step: the database serialises the claims. Of `create_job`, whose SELECTs and
-- INSERT are not one transaction, the step is the INSERT with its handler, on the table of that
-- moment: the guards may have been read on any earlier table, so that creations overlap.
pub data Step (F : Type 0) : Table F → Table F → Type 0 where
  insert :
      (zero_progress : F) (now : ℕ) (job_type : Text) (requested_by : ℕ) (league_id : Option ℕ)
      (params key : Text) (t : Table F)
      → Step F t (insert_job zero_progress now job_type requested_by league_id params key t).1
  claim :
      (now jid : ℕ) (worker : Text) (lease : ℕ) (t : Table F)
      → Step F t (claim_job now jid worker lease t).1
  renew :
      (now jid : ℕ) (worker : Text) (lease : ℕ) (t : Table F)
      → Step F t (renew_job_lease now jid worker lease t).1
  complete :
      (now jid : ℕ) (res : Text) (p : F) (t : Table F) → Step F t (complete_job now jid res p t)
  fail : (now jid : ℕ) (error res : Text) (t : Table F) → Step F t (fail_job now jid error res t)
  report :
      (now jid : ℕ) (p : F) (t : Table F)
      → Step F t (exec (running_id jid) (set_progress now p) t).1
  cancel :
      (now : ℕ) (users : List User) (c : Caller) (jid : ℕ) (t : Table F)
      → Step F t (cancel_job now users c jid t).1
  recover :
      (now jid : ℕ) (t : Table F)
      → Step F t (exec (λ j. j.id == jid && is_stale now j) (set_recovered now) t).1

pub data Run (F : Type 0) (s : Table F) : Table F → Type 0 where
  here : Run F s s
  next : {t u : Table F} → Run F s t → Step F t u → Run F s u

module _ {F : Type 0} where
  -- The step keeps the invariant, and moves every job along an edge of its life cycle.
  abbrev pub Sound : Table F → Table F → Type 0
  Sound t u = IsValid u × Evolves allowed t.rows u.rows

  pub Sound-self : (t : Table F) → IsValid t → Sound t t
  Sound-self t v = (v, Evolves-self t.rows)

  -- An UPDATE that is legal and makes no row `running`.
  pub exec-Sound :
      (p : Job F → Bool) (f : Job F → Job F) (t : Table F)
      → ((x : Job F) → p x ≡ true → Legal x (f x))
      → ((x : Job F) → p x ≡ true → is_running (f x).status ≡ true → is_running x.status ≡ true)
      → IsValid t
      → Sound t (exec p f t).1
  exec-Sound p f t legal calm v = (
    exec-IsValid p f legal t v (calm-Exclusive p f legal t.rows calm v.exclusive),
    update-Evolves p f legal t.rows,
  )

  -- `create_job` with no call in between is a run of at most one step, its INSERT.
  pub create_job-Run :
      (z : F) (now : ℕ) (computed : Text → Option ℕ → Text → Text) (ty : Text) (by : ℕ)
      (league : Option ℕ) (params : Text) (given : Option Text) (t : Table F)
      → Run F t (create_job z now computed ty by league params given t).1
  unfolding create_job
  create_job-Run z now computed ty by league params given t =
      let key = key_or given (computed ty league params) in
      elim (Bool-cases (member ty allowed_types)) [
        | inr bad ↦ rw (bad, create_job) Run.here
        | inl good ↦ elim (Option-cases (first (active_with_key key) t.rows)) [
          | inr (old, e) ↦ rw (good, e, create_job) Run.here
          | inl fresh ↦ elim (Option-cases (conflict ty league t.rows)) [
            | inr (raised, e) ↦ rw (good, fresh, e, create_job) Run.here
            | inl c ↦
                rw (good, fresh, c, create_job)
                  (Run.next Run.here (Step.insert z now ty by league params key t))
          ]
        ]
      ]

  -- Nor does it, where none comes in between, make a second calibration or a second sync of one
  -- league active.
  create_job-IsSingle :
      (z : F) (now : ℕ) (computed : Text → Option ℕ → Text → Text) (ty : Text) (by : ℕ)
      (league : Option ℕ) (params : Text) (given : Option Text) (t : Table F)
      → IsSingle t.rows
      → IsSingle (create_job z now computed ty by league params given t).1.rows
  unfolding create_job
  create_job-IsSingle z now computed ty by league params given t s =
      let key = key_or given (computed ty league params) in
      elim (Bool-cases (member ty allowed_types)) [
        | inr bad ↦ rw (bad, create_job) s
        | inl good ↦ elim (Option-cases (first (active_with_key key) t.rows)) [
          | inr (old, e) ↦ rw (good, e, create_job) s
          | inl fresh ↦ elim (Option-cases (conflict ty league t.rows)) [
            | inr (raised, e) ↦ rw (good, fresh, e, create_job) s
            | inl c ↦
                rw (good, fresh, c, create_job)
                  (insert_job-IsSingle z now by ty params key league t c s)
          ]
        ]
      ]

  claim_update-Sound :
      (now jid : ℕ) (worker : Text) (lease : ℕ) (t : Table F) {j : Job F}
      → first (has_id jid) t.rows ≡ some j
      → (text_eq j.job_type sync_all ≡ true → any (running_of_type sync_league) t.rows ≡ false)
      → (text_eq j.job_type sync_league ≡ true → any (running_of_type sync_all) t.rows ≡ false)
      → IsValid t
      → Sound t (claim_update now jid worker lease t).1
  claim_update-Sound now jid worker lease t found full targeted v =
      let legal = λ (x : Job F). set_claimed-Legal now worker lease jid x in
      (
        exec-IsValid (pending_id jid) (set_claimed now worker lease) legal t v (
            claim-Exclusive now jid lease worker t.rows v.ids_distinct found full targeted
              v.exclusive),
        update-Evolves (pending_id jid) (set_claimed now worker lease) legal t.rows,
      )

  claim_sync-Sound :
      (now jid : ℕ) (worker : Text) (lease : ℕ) (t : Table F)
      → IsValid t
      → Sound t (claim_sync now jid worker lease t).1
  unfolding claim_sync
  claim_sync-Sound now jid worker lease t v = elim (Option-cases (first (has_id jid) t.rows)) [
    | inl e ↦ rw (e, claim_sync, get_job) (Sound-self t v)
    | inr (j, e) ↦ elim (Bool-cases (is_pending j.status)) [
      | inr ended ↦ rw (e, claim_sync, get_job) (rw ended (Sound-self t v))
      | inl waits ↦ elim (Bool-cases (any (running_of_type (other_type j.job_type)) t.rows)) [
        | inl busy ↦ rw (e, claim_sync, get_job) (rw waits (rw busy (Sound-self t v)))
        | inr free ↦
            rw (e, claim_sync, get_job)
              (rw waits (
                rw free
                  (claim_update-Sound now jid worker lease t e (full j free) (targeted j free) v)))
      ]
    ]
  ]
    where
      full :
          (j : Job F)
          → any (running_of_type (other_type j.job_type)) t.rows ≡ false
          → text_eq j.job_type sync_all ≡ true
          → any (running_of_type sync_league) t.rows ≡ false
      full j free e = rw (e, other_type) at free

      targeted :
          (j : Job F)
          → any (running_of_type (other_type j.job_type)) t.rows ≡ false
          → text_eq j.job_type sync_league ≡ true
          → any (running_of_type sync_all) t.rows ≡ false
      targeted j free e =
          let d : text_eq j.job_type sync_all ≡ false =
            rw ((text_eq_iff j.job_type sync_league).0 e) leagues_differ in
          rw (d, other_type) at free

  pub claim-Sound :
      (now jid : ℕ) (worker : Text) (lease : ℕ) (t : Table F)
      → IsValid t
      → Sound t (claim_job now jid worker lease t).1
  unfolding claim_job member
  claim-Sound now jid worker lease t v = elim (Option-cases (first (has_id jid) t.rows)) [
    | inl e ↦ rw (e, claim_job, get_job) (Sound-self t v)
    | inr (j, e) ↦ elim (Bool-cases (member j.job_type (sync_all ∷ sync_league ∷ []))) [
      | inl sync ↦ rw (e, claim_job, get_job) (rw sync (claim_sync-Sound now jid worker lease t v))
      | inr plain ↦
          rw (e, claim_job, get_job)
            (rw plain (
              claim_update-Sound now jid worker lease t e (λ s. cc (s, plain)) (λ s. ground arith)
                v))
    ]
  ]
