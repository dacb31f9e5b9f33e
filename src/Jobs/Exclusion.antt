-- ===== src/Jobs/Exclusion.antt =====
-- Why `claim_job` lets no full sync run beside a targeted one (backend/app/jobs/registry.py).
use mathlib.Core.Option.{some-injective}
use ap2web.Prelude.{
  All, All-map, Bool-cases, List, Text, [], and-eq-true, any, any-update_where, ap, arith, false,
  first, inl, inr, refl, some, text_eq, text_eq_iff, true, update_where, ℕ, ◌==◌, ◌∷◌, ◌≡◌, ◌≢◌,
}
use ap2web.Jobs.Table.{Job, has_id, is_pending, pending_id, running_of_type, sync_all, sync_league}
use ap2web.Jobs.Claim.{set_claimed}
use ap2web.Jobs.Invariant.{Distinct, Exclusive}

pub leagues_differ : text_eq sync_league sync_all ≡ false
unfolding text_eq
leagues_differ = refl

pub syncs_differ : text_eq sync_all sync_league ≡ false
unfolding text_eq
syncs_differ = refl

module _ {F : Type 0} where
  -- With distinct ids the row that is found is the only one with its id.
  pub only_row :
      (jid : ℕ) (xs : List (Job F)) {j : Job F}
      → Distinct xs
      → first (has_id jid) xs ≡ some j
      → All (λ x. (x.id == jid) ≡ true → x ≡ j) xs
  only_row jid [] d h = tt
  only_row jid (x ∷ xs) {j} d h = elim (Bool-cases (x.id == jid)) [
    | inl hit ↦ (
      λ _. some-injective x j (rw hit at h),
      All-map (λ y. y.id ≢ x.id) (λ y. (y.id == jid) ≡ true → y ≡ j) xs
          (λ y ne e. absurd (ne (same y.id x.id e hit))) d.0,
    )
    | inr miss ↦ (λ e. cc (e, miss), only_row jid xs {j = j} d.1 (rw miss at h))
  ]
    where
      same : (a b : ℕ) → (a == jid) ≡ true → (b == jid) ≡ true → a ≡ b
      same a b e f = ground arith

  module _ (now jid lease : ℕ) (worker : Text) (rows : List (Job F)) {j : Job F}
      (distinct : Distinct rows) (found : first (has_id jid) rows ≡ some j) where
    claimed_type :
        (ty : Text) (x : Job F)
        → text_eq j.job_type ty ≡ false
        → ((x.id == jid) ≡ true → x ≡ j)
        → pending_id jid x ≡ true
        → running_of_type ty (set_claimed now worker lease x) ≡ true
        → running_of_type ty x ≡ true
    unfolding set_claimed
    claimed_type ty x other only p r =
        let e : x ≡ j = only ((and-eq-true (x.id == jid) (is_pending x.status) p).0) in
        let same : text_eq x.job_type ty ≡ text_eq j.job_type ty =
          ap (λ (y : Job F). text_eq y.job_type ty) e in
        ground arith

    -- Claiming a job of another type than `ty` makes no job of type `ty` run.
    claim_other :
        (ty : Text)
        → text_eq j.job_type ty ≡ false
        → any
            (running_of_type ty)
            (update_where (pending_id jid) (set_claimed now worker lease) rows)
          ≡ true
        → any (running_of_type ty) rows ≡ true
    claim_other ty other h =
        any-update_where (running_of_type ty) (pending_id jid) (set_claimed now worker lease) rows
          (All-map (λ x. (x.id == jid) ≡ true → x ≡ j)
            (λ x.
              pending_id jid x ≡ true
              → running_of_type ty (set_claimed now worker lease x) ≡ true
              → running_of_type ty x ≡ true)
            rows (λ x only. claimed_type ty x other only)
            (only_row jid rows {j = j} distinct found))
          h

    -- The guard of the claim: no job of the other type runs.
    pub claim-Exclusive :
        (text_eq j.job_type sync_all ≡ true → any (running_of_type sync_league) rows ≡ false)
        → (text_eq j.job_type sync_league ≡ true → any (running_of_type sync_all) rows ≡ false)
        → Exclusive rows
        → Exclusive (update_where (pending_id jid) (set_claimed now worker lease) rows)
    claim-Exclusive full targeted ex a b = elim (Bool-cases (text_eq j.job_type sync_all)) [
      | inl is_full ↦ cc (full is_full, claim_other sync_league (not_league is_full) b)
      | inr no_full ↦ elim (Bool-cases (text_eq j.job_type sync_league)) [
        | inl is_league ↦ cc (targeted is_league, claim_other sync_all no_full a)
        | inr no_league ↦ ex (claim_other sync_all no_full a) (claim_other sync_league no_league b)
      ]
    ]
      where
        not_league : text_eq j.job_type sync_all ≡ true → text_eq j.job_type sync_league ≡ false
        not_league e = rw ((text_eq_iff j.job_type sync_all).0 e) syncs_differ
