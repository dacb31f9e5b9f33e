-- ===== src/Jobs/Insertion.antt =====
-- What the INSERT of `create_job` (backend/app/jobs/registry.py) keeps, whatever the table was when
-- the guards were read, and what the guards add where nothing has happened since.
use ap2web.Jobs.Table.{
  Job, Table, active_of_type, active_sync_of, calibrate_all, holds_number, holds_text, is_running,
  running_of_type, sync_all, sync_league,
}
use ap2web.Jobs.Create.{conflict, insert_job, new_job}
use ap2web.Jobs.Lifecycle.{RowIsValid, allowed}
use ap2web.Jobs.Invariant.{Distinct, Exclusive, IsSingle, IsValid, KeysUnique, same_key}
use ap2web.Jobs.Evolution.{Evolves, Evolves-self, append-Evolves}
use ap2web.Prelude.{
  All, All-append, All-first-none, All-map, Bool, Bool-cases, List, Option, Option-cases, Text, [],
  and-eq-true, any, any-append, arith, count-append, count_of_none, count_where, false, first, inl,
  inr, member, none, refl, some, subst, suc, text_eq, text_eq_iff, true, ℕ, ◌&&◌, ◌++◌, ◌<◌, ◌∷◌,
  ◌≡◌, ◌≢◌, ◌≤◌,
}

module _ {F : Type 0} where
  -- What a guard that has let the insertion pass says of the table.
  conflict-calibrate_all :
      (league : Option ℕ) (rows : List (Job F))
      → conflict calibrate_all league rows ≡ none
      → first (active_of_type calibrate_all) rows ≡ none
  unfolding conflict member text_eq
  conflict-calibrate_all league rows h =
      elim (Option-cases (first (active_of_type calibrate_all) rows)) [
        | inl e ↦ e
        | inr (j, e) ↦ cc (rw e at h)
      ]

  conflict-sync_league :
      (league : ℕ) (rows : List (Job F))
      → conflict sync_league (some league) rows ≡ none
      → first (active_sync_of league) rows ≡ none
  unfolding conflict member text_eq
  conflict-sync_league league rows h = elim (Option-cases (first (active_sync_of league) rows)) [
    | inl e ↦ e
    | inr (j, e) ↦ cc (rw e at h)
  ]

  module _ (j : Job F) where
    append-Distinct :
        (xs : List (Job F)) → All (λ x. x.id < j.id) xs → Distinct xs → Distinct (xs ++ (j ∷ []))
    append-Distinct [] a d = (tt, tt)
    append-Distinct (x ∷ xs) a d = (
      All-append (λ y. y.id ≢ x.id) xs (j ∷ []) d.0 (omega arith, tt),
      append-Distinct xs a.1 d.1,
    )

    append-KeysUnique :
        (xs : List (Job F))
        → All (λ x. same_key x.idempotency_key j.idempotency_key ≡ false) xs
        → KeysUnique xs
        → KeysUnique (xs ++ (j ∷ []))
    append-KeysUnique [] a d = (tt, tt)
    append-KeysUnique (x ∷ xs) a d = (
      All-append (λ y. same_key x.idempotency_key y.idempotency_key ≡ false) xs (j ∷ []) d.0
          (a.0, tt),
      append-KeysUnique xs a.1 d.1,
    )

    append-Exclusive :
        (xs : List (Job F))
        → is_running j.status ≡ false
        → Exclusive xs
        → Exclusive (xs ++ (j ∷ []))
    append-Exclusive xs still ex a b = ex (was sync_all a) (was sync_league b)
      where
        was :
            (ty : Text)
            → any (running_of_type ty) (xs ++ (j ∷ [])) ≡ true
            → any (running_of_type ty) xs ≡ true
        was ty h = elim (any-append (running_of_type ty) xs (j ∷ []) h) [
          | inl old ↦ old
          | inr new ↦ absurd (ground arith)
        ]

    -- One more row satisfies `q` only where none did.
    append_one :
        (q : Job F → Bool) (xs : List (Job F))
        → (q j ≡ true → first q xs ≡ none)
        → count_where q xs ≤ 1
        → count_where q (xs ++ (j ∷ [])) ≤ 1
    append_one q xs only c = elim (Bool-cases (q j)) [
      | inl e ↦ rw (count-append q xs (j ∷ []), count_of_none q xs (only e), e) (omega arith)
      | inr e ↦ rw (count-append q xs (j ∷ []), e) (omega arith)
    ]

  -- The row of the INSERT, where the guards and the UNIQUE constraint have let it pass.
  module _ (z : F) (now by : ℕ) (ty params key : Text) (league : Option ℕ) (t : Table F) where
    abbrev inserted : Job F
    unfolding new_job
    inserted = new_job z now ty by league params key t.next_id

    one_calibration_after :
        conflict ty league t.rows ≡ none
        → count_where (active_of_type calibrate_all) t.rows ≤ 1
        → count_where (active_of_type calibrate_all) (t.rows ++ (inserted ∷ [])) ≤ 1
    unfolding new_job
    one_calibration_after c = append_one inserted (active_of_type calibrate_all) t.rows (λ e.
        let is : ty ≡ calibrate_all =
          (text_eq_iff ty calibrate_all).0 ((and-eq-true (text_eq ty calibrate_all) true e).0) in
        conflict-calibrate_all league t.rows (subst (λ u. conflict u league t.rows ≡ none) is c))

    one_sync_after :
        (l : ℕ)
        → conflict ty league t.rows ≡ none
        → count_where (active_sync_of l) t.rows ≤ 1
        → count_where (active_sync_of l) (t.rows ++ (inserted ∷ [])) ≤ 1
    unfolding new_job
    one_sync_after l c = append_one inserted (active_sync_of l) t.rows (λ e. free e)
      where
        has_league : (o : Option ℕ) → holds_number o l ≡ true → o ≡ some l
        has_league none h = cc
        has_league (some m) h = ground arith

        free : active_sync_of l inserted ≡ true → first (active_sync_of l) t.rows ≡ none
        free e =
            let a = and-eq-true (text_eq ty sync_league) (holds_number league l && true) e in
            let is : ty ≡ sync_league = (text_eq_iff ty sync_league).0 a.0 in
            let il : league ≡ some l =
              has_league league ((and-eq-true (holds_number league l) true a.1).0) in
            conflict-sync_league l t.rows (
              subst (λ o. conflict sync_league o t.rows ≡ none) il
                (subst (λ u. conflict u league t.rows ≡ none) is c))

    key_free :
        (xs : List (Job F))
        → first (λ j. holds_text j.idempotency_key key) xs ≡ none
        → All (λ x. same_key x.idempotency_key (some key) ≡ false) xs
    key_free xs h =
        All-map (λ (x : Job F). holds_text x.idempotency_key key ≡ false)
          (λ x. same_key x.idempotency_key (some key) ≡ false) xs (λ x. same x.idempotency_key)
          (All-first-none (λ (j : Job F). holds_text j.idempotency_key key) xs h)
      where
        same : (o : Option Text) → holds_text o key ≡ false → same_key o (some key) ≡ false
        same none h = refl
        same (some s) h = h

    pub insert_job-IsValid :
        IsValid t
        → IsValid (insert_job z now ty by league params key t).1
          × Evolves allowed t.rows (insert_job z now ty by league params key t).1.rows
    unfolding insert_job
    insert_job-IsValid v =
        elim (Option-cases (first (λ (j : Job F). holds_text j.idempotency_key key) t.rows)) [
          | inl e ↦
              rw (e, insert_job)
                (
                  record {
                    rows_valid =
                        All-append RowIsValid t.rows (inserted ∷ []) v.rows_valid
                          ((refl, refl), tt);
                    ids_below =
                        All-append (λ j. j.id < suc t.next_id) t.rows (inserted ∷ [])
                          (All-map (λ j. j.id < t.next_id) (λ j. j.id < suc t.next_id) t.rows
                            (λ j h. omega arith) v.ids_below)
                          (omega arith, tt);
                    ids_distinct = append-Distinct inserted t.rows v.ids_below v.ids_distinct;
                    keys_unique =
                        append-KeysUnique inserted t.rows (key_free t.rows e) v.keys_unique;
                    exclusive = append-Exclusive inserted t.rows refl v.exclusive;
                  },
                  append-Evolves t.rows inserted refl,
                )
          | inr (j, e) ↦ rw (e, insert_job) (v, Evolves-self t.rows)
        ]

    pub insert_job-IsSingle :
        conflict ty league t.rows ≡ none
        → IsSingle t.rows
        → IsSingle (insert_job z now ty by league params key t).1.rows
    unfolding insert_job
    insert_job-IsSingle c s =
        elim (Option-cases (first (λ (j : Job F). holds_text j.idempotency_key key) t.rows)) [
          | inl e ↦
              rw (e, insert_job)
                (record {
                  one_calibration = one_calibration_after c s.one_calibration;
                  one_sync = λ l. one_sync_after l c (s.one_sync l);
                })
          | inr (j, e) ↦ rw (e, insert_job) s
        ]
