-- ===== src/Jobs/Recovery.antt =====
-- What `recover_expired_jobs` of backend/app/jobs/registry.py leaves.
use mathlib.Core.Option.{some-injective}
use ap2web.Prelude.{
  ==_iff, Bool, Bool-cases, List, [], any, ap, arith, count_where, false, first, if◌then◌else◌, inl,
  inr, length, refl, select, some, subst, sym, true, ℕ, ◌&&◌, ◌==◌, ◌∙◌, ◌∷◌, ◌≡◌,
}
use ap2web.Jobs.Table.{Job, Table, exec, get_job, has_id}
use ap2web.Jobs.Finish.{is_stale, recover_each, recover_expired_jobs, set_recovered}
use ap2web.Jobs.Found.{first-update_other, update-found}
use ap2web.Jobs.Steps.{Run, Step}

module _ {F : Type 0} where
  set_recovered_id : (now : ℕ) (x : Job F) → (set_recovered now x).id ≡ x.id
  unfolding set_recovered
  set_recovered_id now x = refl

  set_recovered_stale : (now : ℕ) (x : Job F) → is_stale now (set_recovered now x) ≡ false
  unfolding set_recovered
  set_recovered_stale now x = refl

  abbrev listed : ℕ → List (Job F) → Bool
  listed jid = any (has_id jid)

  abbrev recovered : ℕ → Bool → Job F → Job F
  recovered now b j = if b && is_stale now j then set_recovered now j else j

  recover_each-first :
      (now jid : ℕ) (rs : List (Job F)) (t : Table F) {j : Job F}
      → first (has_id jid) t.rows ≡ some j
      → first (has_id jid) (recover_each now rs t).rows ≡ some (recovered now (listed jid rs) j)
  unfolding recover_each
  recover_each-first now jid [] t h = h
  recover_each-first now jid (r ∷ rs) t {j} h = elim (Bool-cases (r.id == jid)) [
    | inr ne ↦ rw ne (
        recover_each-first now jid rs t' {j = j} (
          first-update_other r.id jid (is_stale now) (set_recovered now) t.rows
            (set_recovered_id now) ne
          ∙ h))
    | inl e ↦ rw e (
        recover_each-first now jid rs t' (hit ((==_iff r.id jid).0 e))
        ∙ ap some (twice (is_stale now j) refl (listed jid rs)))
  ]
    where
      t' : Table F
      t' = (exec (λ x. x.id == r.id && is_stale now x) (set_recovered now) t).1

      hit :
          r.id ≡ jid
          → first (has_id jid) t'.rows ≡ some (if is_stale now j then set_recovered now j else j)
      hit same = rw same (
          update-found jid (is_stale now) (set_recovered now) t.rows {j = j} (set_recovered_id now)
            h)

      twice :
          (b : Bool)
          → is_stale now j ≡ b
          → (c : Bool)
          → recovered now c (if is_stale now j then set_recovered now j else j)
            ≡ (if is_stale now j then set_recovered now j else j)
      twice true e true = rw e (rw (set_recovered_stale now j) refl)
      twice true e false = refl
      twice false e c = rw e (rw e (ground arith))

  listed-select :
      (now jid : ℕ) (xs : List (Job F)) {j : Job F}
      → first (has_id jid) xs ≡ some j
      → is_stale now j ≡ true
      → listed jid (select (is_stale now) xs) ≡ true
  listed-select now jid [] h s = cc
  listed-select now jid (x ∷ xs) {j} h s = elim (Bool-cases (x.id == jid)) [
    | inl e ↦
        let stale : is_stale now x ≡ true =
          subst (λ (y : Job F). is_stale now y ≡ true) (sym (some-injective x j (rw e at h))) s in
        rw stale (rw e refl)
    | inr e ↦
        let rest = listed-select now jid xs {j = j} (rw e at h) s in
        elim (Bool-cases (is_stale now x)) [ inl c ↦ rw c (rw (e, rest) refl) | inr c ↦ rw c rest ]
  ]

  length-select : (p : Job F → Bool) (xs : List (Job F)) → length (select p xs) ≡ count_where p xs
  length-select p [] = refl
  length-select p (x ∷ xs) = ground (arith, length-select p xs)

  -- Recovery returns the number of rows that were running on an expired lease, fails exactly those
  -- and leaves every other job as it was.
  pub recover_expired_jobs-get_job :
      (now jid : ℕ) (t : Table F) {j : Job F}
      → get_job jid t ≡ some j
      → ((recover_expired_jobs now t).0 ≡ count_where (is_stale now) t.rows)
        × (get_job jid (recover_expired_jobs now t).1
            ≡ some (if is_stale now j then set_recovered now j else j))
  unfolding recover_expired_jobs get_job
  recover_expired_jobs-get_job now jid t {j} h = (
    length-select (is_stale now) t.rows,
    recover_each-first now jid (select (is_stale now) t.rows) t {j = j} h
        ∙ ap some (all_listed (is_stale now j) refl),
  )
    where
      all_listed :
          (b : Bool)
          → is_stale now j ≡ b
          → recovered now (listed jid (select (is_stale now) t.rows)) j
            ≡ (if is_stale now j then set_recovered now j else j)
      all_listed true e = rw (listed-select now jid t.rows {j = j} h e) refl
      all_listed false e = rw e (ground arith)

  prepend : {s t u : Table F} → Step F s t → Run F t u → Run F s u
  prepend st Run.here = Run.next Run.here st
  prepend st (Run.next r last) = Run.next (prepend st r) last

  -- Recovery is a run of the job system, one step for each row that it found.
  pub recover_each-Run :
      (now : ℕ) (rs : List (Job F)) (t : Table F) → Run F t (recover_each now rs t)
  unfolding recover_each
  recover_each-Run now [] t = Run.here
  recover_each-Run now (r ∷ rs) t = prepend (Step.recover now r.id t) (recover_each-Run now rs _)
