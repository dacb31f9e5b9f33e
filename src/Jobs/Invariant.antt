-- ===== src/Jobs/Invariant.antt =====
-- The well-formedness invariant of the `jobs` table, and what one legal UPDATE does to it.
use native.Mathlib.Nat.{le_trans}
use ap2web.Jobs.Table.{
  Job, Table, active_of_type, active_sync_of, calibrate_all, exec, is_running, running_of_type,
  sync_all, sync_league,
}
use ap2web.Jobs.Lifecycle.{
  Legal, Legal-active_of_type, Legal-active_sync_of, Legal-running_of_type, RowIsValid,
}
use ap2web.Prelude.{
  All, All-of_All, All-update_where, Bool, Bool-cases, List, Option, Option-cases, Text, [], any,
  any-update_where, count-update_where, count_where, false, inl, inr, none, refl, some, text_eq,
  true, update_where, ℕ, ◌<◌, ◌∷◌, ◌≡◌, ◌≢◌, ◌≤◌,
}

-- Two keys clash under the column's UNIQUE constraint; NULL clashes with nothing.
abbrev pub same_key : Option Text → Option Text → Bool
same_key none k = false
same_key (some a) none = false
same_key (some a) (some b) = text_eq a b

module _ {F : Type 0} where
  -- No two rows have one id.
  abbrev pub Distinct : List (Job F) → Type 0
  Distinct [] = Unit
  Distinct (x ∷ xs) = All (λ y. y.id ≢ x.id) xs × Distinct xs

  -- No two rows have one idempotency key.
  abbrev pub KeysUnique : List (Job F) → Type 0
  KeysUnique [] = Unit
  KeysUnique (x ∷ xs) =
      All (λ y. same_key x.idempotency_key y.idempotency_key ≡ false) xs × KeysUnique xs

  -- A full sync and a targeted one never run at the same time.
  abbrev pub Exclusive : List (Job F) → Type 0
  Exclusive rows =
      any (running_of_type sync_all) rows ≡ true → any (running_of_type sync_league) rows ≡ true → ⊥

  pub record IsValid (t : Table F) : Type 0 where
    pub rows_valid : All RowIsValid t.rows
    pub ids_below : All (λ j. j.id < t.next_id) t.rows
    pub ids_distinct : Distinct t.rows
    pub keys_unique : KeysUnique t.rows
    pub exclusive : Exclusive t.rows

  -- What the guards of `create_job` are there for. It is not part of the invariant: the SELECTs of
  -- the guards and the INSERT are not one transaction, so two creations at once may break it.
  pub record IsSingle (rows : List (Job F)) : Type 0 where
    pub one_calibration : count_where (active_of_type calibrate_all) rows ≤ 1
    pub one_sync : (league : ℕ) → count_where (active_sync_of league) rows ≤ 1

  -- Every row that the UPDATE selects is changed legally.
  abbrev pub LegalUpdate : (Job F → Bool) → (Job F → Job F) → Type 0
  LegalUpdate p f = (x : Job F) → p x ≡ true → Legal x (f x)

  module _ (p : Job F → Bool) (f : Job F → Job F) (legal : LegalUpdate p f) where
    pub update-rows_valid :
        (xs : List (Job F)) → All RowIsValid xs → All RowIsValid (update_where p f xs)
    update-rows_valid xs a =
        All-update_where RowIsValid p f xs (λ x e v. (legal x e).keeps_valid v) a

    pub update-ids_below :
        (n : ℕ) (xs : List (Job F))
        → All (λ j. j.id < n) xs
        → All (λ j. j.id < n) (update_where p f xs)
    update-ids_below n xs a =
        All-update_where (λ j. j.id < n) p f xs (λ x e v. rw ((legal x e).same_id) v) a

    other_ids :
        (n : ℕ) (xs : List (Job F))
        → All (λ y. y.id ≢ n) xs
        → All (λ y. y.id ≢ n) (update_where p f xs)
    other_ids n xs a =
        All-update_where (λ y. y.id ≢ n) p f xs (λ x e v. rw ((legal x e).same_id) v) a

    pub update-Distinct : (xs : List (Job F)) → Distinct xs → Distinct (update_where p f xs)
    update-Distinct [] d = tt
    update-Distinct (x ∷ xs) d = elim (Bool-cases (p x)) [
      | inl e ↦ rw e (rw ((legal x e).same_id) (other_ids x.id xs d.0), update-Distinct xs d.1)
      | inr e ↦ rw e (other_ids x.id xs d.0, update-Distinct xs d.1)
    ]

    other_keys :
        (k : Option Text) (xs : List (Job F))
        → All (λ y. same_key k y.idempotency_key ≡ false) xs
        → All (λ y. same_key k y.idempotency_key ≡ false) (update_where p f xs)
    other_keys k xs a =
        All-update_where (λ y. same_key k y.idempotency_key ≡ false) p f xs
          (λ x e v. elim ((legal x e).key_kept) [
            | inl same ↦ rw same v
            | inr gone ↦
                rw gone (elim (Option-cases k) [ inl n ↦ rw n refl | inr (a, s) ↦ rw s refl ])
          ])
          a

    no_key : (xs : List (Job F)) → All (λ y. same_key none y.idempotency_key ≡ false) xs
    no_key [] = tt
    no_key (x ∷ xs) = (refl, no_key xs)

    pub update-KeysUnique : (xs : List (Job F)) → KeysUnique xs → KeysUnique (update_where p f xs)
    update-KeysUnique [] d = tt
    update-KeysUnique (x ∷ xs) d = elim (Bool-cases (p x)) [
      | inl e ↦ rw e (elim ((legal x e).key_kept) [
        | inl same ↦ (rw same (other_keys x.idempotency_key xs d.0), update-KeysUnique xs d.1)
        | inr gone ↦ (rw gone (no_key (update_where p f xs)), update-KeysUnique xs d.1)
      ])
      | inr e ↦ rw e (other_keys x.idempotency_key xs d.0, update-KeysUnique xs d.1)
    ]

    update-active_of_type :
        (ty : Text) (xs : List (Job F))
        → count_where (active_of_type ty) (update_where p f xs) ≤ count_where (active_of_type ty) xs
    update-active_of_type ty xs =
        count-update_where (active_of_type ty) p f xs
          (λ x e. Legal-active_of_type ty x (f x) (legal x e))

    update-active_sync_of :
        (league : ℕ) (xs : List (Job F))
        → count_where (active_sync_of league) (update_where p f xs)
          ≤ count_where (active_sync_of league) xs
    update-active_sync_of league xs =
        count-update_where (active_sync_of league) p f xs
          (λ x e. Legal-active_sync_of league x (f x) (legal x e))

    -- All of the invariant but the exclusion of syncs is kept by any legal UPDATE.
    pub exec-IsValid :
        (t : Table F) → IsValid t → Exclusive (update_where p f t.rows) → IsValid (exec p f t).1
    exec-IsValid t v ex = record {
      rows_valid = update-rows_valid t.rows v.rows_valid;
      ids_below = update-ids_below t.next_id t.rows v.ids_below;
      ids_distinct = update-Distinct t.rows v.ids_distinct;
      keys_unique = update-KeysUnique t.rows v.keys_unique;
      exclusive = ex;
    }

    -- No legal UPDATE makes a second calibration, or a second sync of a league, active.
    pub update-IsSingle : (xs : List (Job F)) → IsSingle xs → IsSingle (update_where p f xs)
    update-IsSingle xs s = record {
      one_calibration = le_trans (update-active_of_type calibrate_all xs) s.one_calibration;
      one_sync = λ league. le_trans (update-active_sync_of league xs) (s.one_sync league);
    }

    -- An UPDATE that makes no row `running` keeps the exclusion too.
    pub calm-Exclusive :
        (xs : List (Job F))
        → ((x : Job F) → p x ≡ true → is_running (f x).status ≡ true → is_running x.status ≡ true)
        → Exclusive xs
        → Exclusive (update_where p f xs)
    calm-Exclusive xs calm ex a b = ex (was sync_all a) (was sync_league b)
      where
        was :
            (ty : Text)
            → any (running_of_type ty) (update_where p f xs) ≡ true
            → any (running_of_type ty) xs ≡ true
        was ty = any-update_where (running_of_type ty) p f xs (
            All-of_All
              (λ x. p x ≡ true → running_of_type ty (f x) ≡ true → running_of_type ty x ≡ true) xs
              (λ x e. Legal-running_of_type ty x (f x) (legal x e) (calm x e)))
