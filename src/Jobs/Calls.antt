-- ===== src/Jobs/Calls.antt =====
-- What the calls of backend/app/jobs/registry.py return, and the rows that they leave.
use mathlib.Core.Option.{some-injective}
use ap2web.Jobs.Table.{
  Job, Status, Table, get_job, has_id, holds_text, is_pending, is_running, pending_id,
  running_of_type, sync_all, sync_league,
}
use ap2web.Jobs.Claim.{
  claim_job, claim_sync, claim_update, other_type, owned_by, renew_job_lease, set_claimed,
  set_lease,
}
use ap2web.Jobs.Finish.{set_cancelled}
use ap2web.Jobs.Invariant.{Distinct, IsValid}
use ap2web.Jobs.Evolution.{reaches}
use ap2web.Jobs.Found.{count-found, update-found}
use ap2web.Jobs.Steps.{Run, claim-Sound}
use ap2web.Jobs.Runs.{Run-IsValid, Run-get_job}
use ap2web.Prelude.{
  Bool, Bool-cases, Option-cases, Text, [], any, count_where, false, first, if◌then◌else◌, inl, inr,
  member, none, refl, some, subst, sym, true, update_none, ℕ, ◌&&◌, ◌∙◌, ◌∷◌, ◌≡◌, ◌⊎◌,
}

module _ {F : Type 0} where
  set_claimed_id :
      (now : ℕ) (w : Text) (lease : ℕ) (x : Job F) → (set_claimed now w lease x).id ≡ x.id
  unfolding set_claimed
  set_claimed_id now w lease x = refl

  set_lease_id : (now lease : ℕ) (x : Job F) → (set_lease now lease x).id ≡ x.id
  unfolding set_lease
  set_lease_id now lease x = refl

  set_cancelled_id : (now : ℕ) (x : Job F) → (set_cancelled now x).id ≡ x.id
  unfolding set_cancelled
  set_cancelled_id now x = refl

  -- A claim refused: `False`, and the table as it was.
  abbrev pub Refused : Table F → Bool × Table F → Type 0
  Refused t r = (r.0 ≡ false) × (r.1.rows ≡ t.rows)

  -- A claim granted: the job was pending, and is now the claimed row.
  abbrev pub Granted : ℕ → ℕ → Text → ℕ → Table F → Bool × Table F → Type 0
  Granted now jid worker lease t r =
      (r.0 ≡ true)
      × ((j : Job F) × (get_job jid t ≡ some j)
          × (j.status ≡ Status.pending)
          × (get_job jid r.1 ≡ some (set_claimed now worker lease j)))

  claim_update-cases :
      (now jid : ℕ) (worker : Text) (lease : ℕ) (t : Table F) {j : Job F}
      → Distinct t.rows
      → first (has_id jid) t.rows ≡ some j
      → Refused t (claim_update now jid worker lease t)
        ⊎ Granted now jid worker lease t (claim_update now jid worker lease t)
  unfolding get_job
  claim_update-cases now jid worker lease t {j} d found =
      let g = λ (x : Job F). is_pending x.status in
      let f = set_claimed {F = F} now worker lease in
      let n = count-found jid g t.rows {j = j} d found in
      let after = update-found jid g f t.rows {j = j} (set_claimed_id now worker lease) found in
      elim (Bool-cases (is_pending j.status)) [
        | inr ended ↦
            let zero_rows : count_where (pending_id jid) t.rows ≡ 0 = rw ended at n in
            inl (rw zero_rows refl, update_none (pending_id jid) f t.rows zero_rows)
        | inl waits ↦
            inr (
              rw (rw waits at n) refl,
              (j, found, pending_status j.status waits, rw waits at after),
            )
      ]
    where
      pending_status : (s : Status) → is_pending s ≡ true → s ≡ Status.pending
      pending_status Status.pending h = refl
      pending_status Status.running h = cc
      pending_status Status.completed h = cc
      pending_status Status.failed h = cc
      pending_status Status.cancelled h = cc

  abbrev Claimed : ℕ → ℕ → Text → ℕ → Table F → Bool × Table F → Type 0
  Claimed now jid worker lease t r = Refused t r ⊎ Granted now jid worker lease t r

  claim_sync-cases :
      (now jid : ℕ) (worker : Text) (lease : ℕ) (t : Table F) {j : Job F}
      → Distinct t.rows
      → first (has_id jid) t.rows ≡ some j
      → Claimed now jid worker lease t (claim_sync now jid worker lease t)
  claim_sync-cases now jid worker lease t {j} d e = elim (Bool-cases (is_pending j.status)) [
    | inr ended ↦
        subst (Claimed now jid worker lease t) (sym (refused_ended ended)) (inl (refl, refl))
    | inl waits ↦ elim (Bool-cases (any (running_of_type (other_type j.job_type)) t.rows)) [
      | inl busy ↦
          subst (Claimed now jid worker lease t) (sym (refused_busy waits busy)) (inl (refl, refl))
      | inr free ↦
          subst (Claimed now jid worker lease t) (sym (granted waits free))
            (claim_update-cases now jid worker lease t {j = j} d e)
    ]
  ]
    where
      refused_ended : is_pending j.status ≡ false → claim_sync now jid worker lease t ≡ (false, t)
      refused_ended ended = unfold claim_sync in rw (e, claim_sync, get_job) (rw ended refl)

      refused_busy :
          is_pending j.status ≡ true
          → any (running_of_type (other_type j.job_type)) t.rows ≡ true
          → claim_sync now jid worker lease t ≡ (false, t)
      refused_busy waits busy =
          unfold claim_sync in rw (e, claim_sync, get_job) (rw waits (rw busy refl))

      granted :
          is_pending j.status ≡ true
          → any (running_of_type (other_type j.job_type)) t.rows ≡ false
          → claim_sync now jid worker lease t ≡ claim_update now jid worker lease t
      granted waits free =
          unfold claim_sync in rw (e, claim_sync, get_job) (rw waits (rw free refl))

  -- A claim by one worker is refused and leaves the table as it was, or it is granted: then the job
  -- was pending, and its row is now running, with that worker, a lease and one attempt more.
  pub claim_job-cases :
      (now jid : ℕ) (worker : Text) (lease : ℕ) (t : Table F)
      → IsValid t
      → Refused t (claim_job now jid worker lease t)
        ⊎ Granted now jid worker lease t (claim_job now jid worker lease t)
  claim_job-cases now jid worker lease t v = elim (Option-cases (first (has_id jid) t.rows)) [
    | inl e ↦ subst (Claimed now jid worker lease t) (sym (missing e)) (inl (refl, refl))
    | inr (j, e) ↦ elim (Bool-cases (member j.job_type (sync_all ∷ sync_league ∷ []))) [
      | inr plain ↦
          subst (Claimed now jid worker lease t) (sym (plain_claim j e plain))
            (claim_update-cases now jid worker lease t {j = j} v.ids_distinct e)
      | inl sync ↦
          subst (Claimed now jid worker lease t) (sym (sync_claim j e sync))
            (claim_sync-cases now jid worker lease t {j = j} v.ids_distinct e)
    ]
  ]
    where
      missing : first (has_id jid) t.rows ≡ none → claim_job now jid worker lease t ≡ (false, t)
      missing e = unfold claim_job in rw (e, claim_job, get_job) refl

      plain_claim :
          (j : Job F)
          → first (has_id jid) t.rows ≡ some j
          → member j.job_type (sync_all ∷ sync_league ∷ []) ≡ false
          → claim_job now jid worker lease t ≡ claim_update now jid worker lease t
      plain_claim j e plain = unfold claim_job in rw (e, claim_job, get_job) (rw plain refl)

      sync_claim :
          (j : Job F)
          → first (has_id jid) t.rows ≡ some j
          → member j.job_type (sync_all ∷ sync_league ∷ []) ≡ true
          → claim_job now jid worker lease t ≡ claim_sync now jid worker lease t
      sync_claim j e sync = unfold claim_job in rw (e, claim_job, get_job) (rw sync refl)

  set_claimed_running :
      (now : ℕ) (w : Text) (lease : ℕ) (x : Job F)
      → is_pending (set_claimed now w lease x).status ≡ false
  unfolding set_claimed
  set_claimed_running now w lease x = refl

  -- Once a claim on a valid table is granted, every later claim of the job is refused and leaves the
  -- table as it is, whoever makes it and whatever the registry calls of any process have done in
  -- between.
  pub claim_job-claim_job :
      (now later jid : ℕ) (worker other : Text) (lease lease' : ℕ) (t : Table F) {u : Table F}
      → IsValid t
      → (claim_job now jid worker lease t).0 ≡ true
      → Run F (claim_job now jid worker lease t).1 u
      → Refused u (claim_job later jid other lease' u)
  unfolding get_job
  claim_job-claim_job now later jid worker other lease lease' t {u} v h run =
      elim (claim_job-cases now jid worker lease t v) [
        | inl refused ↦ cc (refused.0)
        | inr granted ↦ elim (claim_job-cases later jid other lease' u (Run-IsValid v' run)) [
          | inl refused ↦ refused
          | inr again ↦ absurd (pending_again granted.1 again.1)
        ]
      ]
    where
      t' : Table F
      t' = (claim_job now jid worker lease t).1

      v' : IsValid t'
      v' = (claim-Sound now jid worker lease t v).0

      never_pending :
          (s : Status) (k : Job F)
          → is_pending s ≡ false
          → reaches s k.status ≡ true
          → k.status ≡ Status.pending
          → ⊥
      never_pending Status.pending k a b c = cc
      never_pending Status.running k a b c = cc (rw c at b)
      never_pending Status.completed k a b c = cc (rw c at b)
      never_pending Status.failed k a b c = cc (rw c at b)
      never_pending Status.cancelled k a b c = cc (rw c at b)

      pending_again :
          (j : Job F) × (first (has_id jid) t.rows ≡ some j)
            × (j.status ≡ Status.pending)
            × (first (has_id jid) t'.rows ≡ some (set_claimed now worker lease j))
          → (k : Job F) × (first (has_id jid) u.rows ≡ some k)
            × (k.status ≡ Status.pending)
            × (first (has_id jid) (claim_job later jid other lease' u).1.rows
                ≡ some (set_claimed later other lease' k))
          → ⊥
      pending_again (j, _, _, a) (k, b, c, _) =
          let claimed = set_claimed now worker lease j in
          let (y, found, follows) = Run-get_job jid {x = claimed} v' run a in
          let e : y ≡ k = some-injective _ _ (sym found ∙ b) in
          never_pending claimed.status k (set_claimed_running now worker lease j)
            (subst (λ (x : Job F). reaches claimed.status x.status ≡ true) e follows.moved) c

  -- A lease is renewed only for the worker that holds the running job: for any other worker, or in
  -- any other state, the call returns `False` and the table is as it was; for the holder it returns
  -- `True` and sets the lease of that job.
  pub renew_job_lease-cases :
      (now jid : ℕ) (worker : Text) (lease : ℕ) (t : Table F) {j : Job F}
      → IsValid t
      → get_job jid t ≡ some j
      → let holds = is_running j.status && holds_text j.worker_id worker in
        let r = renew_job_lease now jid worker lease t in
        (r.0 ≡ holds)
        × (get_job jid r.1 ≡ some (if holds then set_lease now lease j else j))
        × (holds ≡ false → r.1.rows ≡ t.rows)
  unfolding renew_job_lease get_job
  renew_job_lease-cases now jid worker lease t {j} v found =
      let g = λ (x : Job F). is_running x.status && holds_text x.worker_id worker in
      let n = count-found jid g t.rows {j = j} v.ids_distinct found in
      (
        elim (Bool-cases (g j)) [
          | inl e ↦ rw e (rw (rw e at n) refl)
          | inr e ↦ rw e (rw (rw e at n) refl)
        ],
        update-found jid g (set_lease now lease) t.rows {j = j} (set_lease_id now lease) found,
        λ no. update_none (owned_by jid worker) (set_lease now lease) t.rows (rw no at n),
      )
