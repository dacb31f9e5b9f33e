-- ===== src/Jobs/Ends.antt =====
-- What completion, failure, progress and cancellation leave (backend/app/jobs/registry.py).
use ap2web.Jobs.Table.{Job, Table, get_job, has_id, holds_text, is_running}
use ap2web.Jobs.Claim.{renew_job_lease, set_lease}
use ap2web.Jobs.Finish.{
  bounded, complete_job, fail_job, renew_if, set_cancelled, set_completed, set_failed, set_progress,
  update_progress,
}
use ap2web.Jobs.Found.{update-found}
use ap2web.Prelude.{
  Bool, Bool-cases, Option, Text, [], arith, false, first, if◌then◌else◌, inl, inr, is_empty, none,
  not, refl, some, true, ℕ, ◌&&◌, ◌∷◌, ◌≡◌, ◌⊎◌,
}

module _ {F : Type 0} where
  set_progress_id : (now : ℕ) (p : F) (x : Job F) → (set_progress now p x).id ≡ x.id
  unfolding set_progress
  set_progress_id now p x = refl

  set_lease_id : (now lease : ℕ) (x : Job F) → (set_lease now lease x).id ≡ x.id
  unfolding set_lease
  set_lease_id now lease x = refl

  set_completed_id :
      (now : ℕ) (res : Text) (p : F) (x : Job F) → (set_completed now res p x).id ≡ x.id
  unfolding set_completed
  set_completed_id now res p x = refl

  set_failed_id : (now : ℕ) (error res : Text) (x : Job F) → (set_failed now error res x).id ≡ x.id
  unfolding set_failed
  set_failed_id now error res x = refl

  set_cancelled_id : (now : ℕ) (x : Job F) → (set_cancelled now x).id ≡ x.id
  unfolding set_cancelled
  set_cancelled_id now x = refl

  -- Only a running job is completed or failed: any other row, a cancelled one too, stays as it is.
  pub complete_job-fail_job-get_job :
      (now jid : ℕ) (res error : Text) (p : F) (t : Table F) {j : Job F}
      → get_job jid t ≡ some j
      → (get_job jid (complete_job now jid res p t)
          ≡ some (if is_running j.status then set_completed now res p j else j))
        × (get_job jid (fail_job now jid error res t)
            ≡ some (if is_running j.status then set_failed now error res j else j))
  unfolding complete_job fail_job get_job
  complete_job-fail_job-get_job now jid res error p t {j} h =
      let g = λ (x : Job F). is_running x.status in
      (
        update-found jid g (set_completed now res p) t.rows {j = j} (set_completed_id now res p) h,
        update-found jid g (set_failed now error res) t.rows {j = j} (set_failed_id now error res)
            h,
      )

  module _ (lt : F → F → Bool) (lo hi : F) where
    -- What `max(lo, min(p, hi))` is, with the order of its arguments: a number that compares with
    -- nothing becomes the lower bound.
    abbrev pub Bounded : F → F → Type 0
    Bounded p q =
        ((lt lo p ≡ false) × (q ≡ lo))
        ⊎ (((lt hi p ≡ true) × (q ≡ hi)) ⊎ ((lt lo p ≡ true) × (lt hi p ≡ false) × (q ≡ p)))

    bounded-Bounded : lt lo hi ≡ true → (p : F) → Bounded p (bounded lt lo hi p)
    unfolding bounded
    bounded-Bounded order p = elim (Bool-cases (lt hi p)) [
      | inl above ↦ rw (above, order) (inr (inl (refl, refl)))
      | inr below ↦ rw below (elim (Bool-cases (lt lo p)) [
        | inl e ↦ rw e (inr (inr (refl, refl, refl)))
        | inr e ↦ rw e (inl (refl, refl))
      ])
    ]

    within_range :
        ((x : F) → lt x x ≡ false)
        → ((x y : F) → lt x y ≡ true → lt y x ≡ false)
        → lt lo hi ≡ true
        → (p q : F) → Bounded p q
        → (lt q lo ≡ false) × (lt hi q ≡ false)
    within_range irrefl asym order p q b = elim b [
      | inl below ↦ rw (below.1) (irrefl lo, asym lo hi order)
      | inr (inl above) ↦ rw (above.1) (asym lo hi order, irrefl hi)
      | inr (inr same) ↦ rw (same.2) (asym lo p same.0, same.1)
    ]

    renewed : ℕ → ℕ → Option Text → ℕ → Table F → Job F → Bool
    renewed now jid none lease t j = false
    renewed now jid (some w) lease t j =
        not (is_empty w) && (is_running j.status && holds_text j.worker_id w)

    renew_if-first :
        (now jid : ℕ) (worker : Option Text) (lease : ℕ) (t : Table F) {j : Job F}
        → first (has_id jid) t.rows ≡ some j
        → first (has_id jid) (renew_if now jid worker lease t).rows
          ≡ some (if renewed now jid worker lease t j then set_lease now lease j else j)
    unfolding renewed renew_job_lease
    renew_if-first now jid none lease t h = h
    renew_if-first now jid (some []) lease t h = h
    renew_if-first now jid (some (c ∷ w)) lease t {j} h =
        update-found jid (λ x. is_running x.status && holds_text x.worker_id (c ∷ w))
          (set_lease now lease) t.rows {j = j} (set_lease_id now lease) h

    -- Of a running job, whoever runs it, exactly the clamp of the reported progress is stored: the
    -- bound that it passes, the number itself between them, and the lower bound for one that compares
    -- with nothing; in each case it lies between the bounds. A job that is not running keeps its row.
    -- The comparison is irreflexive and asymmetric, and the lower bound is the smaller one.
    pub update_progress-get_job :
        (now jid : ℕ) (p : F) (worker : Option Text) (lease : ℕ) (t : Table F) {j : Job F}
        → ((x : F) → lt x x ≡ false)
        → ((x y : F) → lt x y ≡ true → lt y x ≡ false)
        → lt lo hi ≡ true
        → get_job jid t ≡ some j
        → (y : Job F) × (get_job jid (update_progress lt lo hi now jid p worker lease t) ≡ some y)
          × (((is_running j.status ≡ false) × (y ≡ j))
              ⊎ ((is_running j.status ≡ true)
                  × Bounded p y.progress
                  × (lt y.progress lo ≡ false)
                  × (lt hi y.progress ≡ false)))
    unfolding update_progress get_job set_progress
    update_progress-get_job now jid p worker lease t {j} irrefl asym order h =
        let b = bounded-Bounded order p in
        let range = within_range irrefl asym order p (bounded lt lo hi p) b in
        (
          if is_running held.status then set_progress now (bounded lt lo hi p) held else held,
          update-found jid (λ x. is_running x.status) (set_progress now (bounded lt lo hi p))
              (renew_if now jid worker lease t).rows {j = held}
              (set_progress_id now (bounded lt lo hi p))
              (renew_if-first now jid worker lease t {j = j} h),
          rw (still (renewed now jid worker lease t j) refl)
              (elim (Bool-cases (is_running j.status)) [
                | inl on ↦ inr (rw on (refl, b, range.0, range.1))
                | inr off ↦ inl (rw off (refl, idle off worker))
              ]),
        )
      where
        held : Job F
        held = if renewed now jid worker lease t j then set_lease now lease j else j

        same_status : (set_lease now lease j).status ≡ j.status
        same_status = unfold set_lease in refl

        still : (b : Bool) → renewed now jid worker lease t j ≡ b → held.status ≡ j.status
        still true e = rw e same_status
        still false e = rw e refl

        idle :
            is_running j.status ≡ false
            → (w : Option Text)
            → (if renewed now jid w lease t j then set_lease now lease j else j) ≡ j
        idle off none = unfold renewed in refl
        idle off (some w) = unfold renewed in rw off (ground arith)
