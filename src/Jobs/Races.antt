-- ===== src/Jobs/Races.antt =====
-- `create_job` of backend/app/jobs/registry.py with other processes between its statements: each of
-- its SELECTs and the INSERT see the table of their own moment.
use ap2web.Jobs.Table.{
  Job, JobError, Table, active_of_type, active_with_key, allowed_types, calibrate_all, promotion,
  running_of_type, sync_all, sync_league, value_error,
}
use ap2web.Jobs.Create.{
  conflict, create_job, insert_job, key_or, league_conflict, or_else, refuse, when_error,
}
use ap2web.Jobs.Steps.{Run, Step}
use ap2web.Jobs.RunnerRuns.{Run-append}
use ap2web.Prelude.{
  Bool-cases, List, Option, Option-cases, Result, Text, [], ap, err, first, if◌then◌else◌, inl, inr,
  member, none, not, ok, refl, some, suc, text_eq, ℕ, ◌∷◌, ◌≡◌,
}

-- The SELECTs of the guards, in order; a guard that does not concern the type of job reads nothing.
abbrev pub guards : {F : Type 0} → Text → Option ℕ → List (List (Job F) → Option JobError)
guards job_type league_id =
    (λ rows.
      when_error (member job_type (calibrate_all ∷ promotion ∷ []))
        (refuse (first (active_of_type job_type) rows)))
    ∷ (λ rows. when_error (text_eq job_type sync_league) (league_conflict league_id rows))
    ∷ (λ rows.
        when_error (text_eq job_type sync_all) (refuse (first (running_of_type sync_league) rows)))
    ∷ (λ rows.
        when_error (text_eq job_type sync_league) (refuse (first (running_of_type sync_all) rows)))
    ∷ []

module _ {F : Type 0} (others : ℕ → Table F → Table F) where
  -- The guards from the `n`-th on: the first error, and the table then.
  unfoldable pub check_guards :
      ℕ → List (List (Job F) → Option JobError) → Table F → Option JobError × Table F
  check_guards n [] t = (none, t)
  check_guards n (g ∷ gs) t =
      let rest = check_guards (suc n) gs (others n t) in
      elim (g t.rows) [ some e ↦ (some e, t) | none ↦ rest ]

  -- `create_job` where `others n` happens behind its `n`-th SELECT.
  unfoldable pub create_job_among :
      F
      → ℕ
      → (Text → Option ℕ → Text → Text)
      → Text
      → ℕ
      → Option ℕ
      → Text
      → Option Text
      → Table F
      → Result JobError (Job F) × Table F
  unfolding check_guards insert_job
  create_job_among zero_progress now computed_key job_type requested_by league_id params given t =
      if not (member job_type allowed_types)
      then (err value_error, t)
      else (let key = key_or given (computed_key job_type league_id params) in
          elim (first (active_with_key key) t.rows) [
            | some existing ↦ (ok existing, t)
            | none ↦
                let (refused, u) = check_guards 1 (guards job_type league_id) (others 0 t) in
                elim refused [
                  | some e ↦ (err e, u)
                  | none ↦ insert_job zero_progress now job_type requested_by league_id params key u
                ]
          ])

  module _ (runs : (n : ℕ) (t : Table F) → Run F t (others n t)) where
    check_guards-Run :
        (n : ℕ) (gs : List (List (Job F) → Option JobError)) (t : Table F)
        → Run F t (check_guards n gs t).1
    unfolding check_guards
    check_guards-Run n [] t = Run.here
    check_guards-Run n (g ∷ gs) t = elim (Option-cases (g t.rows)) [
      | inr (e, h) ↦ rw (h, check_guards) Run.here
      | inl h ↦
          rw (h, check_guards) (Run-append (runs n t) (check_guards-Run (suc n) gs (others n t)))
    ]

    -- However creations overlap, each is a part of a run, its own step being the INSERT.
    create_job_among-Run :
        (z : F) (now : ℕ) (computed : Text → Option ℕ → Text → Text) (ty : Text) (by : ℕ)
        (league : Option ℕ) (params : Text) (given : Option Text) (t : Table F)
        → Run F t (create_job_among z now computed ty by league params given t).1
    unfolding create_job_among
    create_job_among-Run z now computed ty by league params given t =
        let key = key_or given (computed ty league params) in
        let checked = check_guards 1 (guards ty league) (others 0 t) in
        let before = Run-append (runs 0 t) (check_guards-Run 1 (guards ty league) (others 0 t)) in
        elim (Bool-cases (member ty allowed_types)) [
          | inr bad ↦ rw (bad, create_job_among) Run.here
          | inl good ↦ elim (Option-cases (first (active_with_key key) t.rows)) [
            | inr (old, e) ↦ rw (good, e, create_job_among) Run.here
            | inl unused ↦ elim (Option-cases (checked.0)) [
              | inr (raised, e) ↦ rw (good, unused, e, create_job_among) before
              | inl c ↦
                  rw (good, unused, c, create_job_among)
                    (Run.next before (Step.insert z now ty by league params key (checked.1)))
            ]
          ]
        ]

or_else-none : (o : Option JobError) → or_else o none ≡ o
or_else-none none = refl
or_else-none (some d) = refl

module _ {F : Type 0} where
  alone : ℕ → Table F → Table F
  alone n t = t

  abbrev first_error : List (List (Job F) → Option JobError) → List (Job F) → Option JobError
  first_error [] rows = none
  first_error (g ∷ gs) rows = or_else (g rows) (first_error gs rows)

  check_guards-alone :
      (n : ℕ) (gs : List (List (Job F) → Option JobError)) (t : Table F)
      → check_guards alone n gs t ≡ (first_error gs t.rows, t)
  unfolding check_guards alone
  check_guards-alone n [] t = refl
  check_guards-alone n (g ∷ gs) t = elim (Option-cases (g t.rows)) [
    | inr (e, h) ↦ rw (h, check_guards) refl
    | inl h ↦ rw (h, check_guards) (check_guards-alone (suc n) gs t)
  ]

  conflict-first_error :
      (ty : Text) (league : Option ℕ) (rows : List (Job F))
      → conflict ty league rows ≡ first_error (guards ty league) rows
  unfolding conflict
  conflict-first_error ty league rows =
      rw
        (or_else-none
          (when_error (text_eq ty sync_league) (refuse (first (running_of_type sync_all) rows))))
        refl

  failed : JobError → Table F → Result JobError (Job F) × Table F
  failed e t = (err e, t)

  -- Where nothing happens between the statements this is `create_job`.
  create_job_among-create_job :
      (z : F) (now : ℕ) (computed : Text → Option ℕ → Text → Text) (ty : Text) (by : ℕ)
      (league : Option ℕ) (params : Text) (given : Option Text) (t : Table F)
      → create_job_among alone z now computed ty by league params given t
        ≡ create_job z now computed ty by league params given t
  unfolding create_job_among create_job alone failed
  create_job_among-create_job z now computed ty by league params given t =
      let checked : check_guards alone 1 (guards ty league) t ≡ (conflict ty league t.rows, t) =
        rw (conflict-first_error ty league t.rows) (check_guards-alone 1 (guards ty league) t) in
      let key = key_or given (computed ty league params) in
      elim (Bool-cases (member ty allowed_types)) [
        | inr bad ↦ rw (bad, create_job_among, create_job) refl
        | inl good ↦ elim (Option-cases (first (active_with_key key) t.rows)) [
          | inr (old, e) ↦ rw (good, e, create_job_among, create_job) refl
          | inl unused ↦ elim (Option-cases (conflict ty league t.rows)) [
            | inr (raised, e) ↦
                rw (good, unused, rw e at checked, e, create_job_among, create_job)
                  (ap (λ u. failed raised u) (ap (λ x. x.1) checked))
            | inl c ↦
                rw (good, unused, rw c at checked, c, create_job_among, create_job)
                  (ap (insert_job z now ty by league params key) (ap (λ x. x.1) checked))
          ]
        ]
      ]
