-- ===== src/Jobs/Requests.antt =====
-- What a request to create or to cancel a job answers (backend/app/jobs/registry.py).
use ap2web.Jobs.Table.{
  Job, JobError, Status, Table, active_id, active_with_key, allowed_types, get_job, has_id,
  holds_text, is_active, permission_error,
}
use ap2web.Jobs.Create.{conflict, create_job, insert_job, key_or, new_job}
use ap2web.Jobs.Finish.{cancel_job, is_owner, set_cancelled}
use ap2web.Jobs.Workers.{fresh}
use ap2web.Jobs.Lifecycle.{ColumnsOf, RowIsValid}
use ap2web.Jobs.Invariant.{IsValid}
use ap2web.Jobs.Found.{update-found}
use ap2web.Prelude.{
  All, Bool, Bool-cases, List, Option, Option-cases, Result, Text, [], ap, arith, codes, err, false,
  first, if◌then◌else◌, inl, inr, is_some, member, none, not, ok, refl, some, text_eq_self, true,
  update_where, ℕ, ◌&&◌, ◌++◌, ◌||◌, ◌∙◌, ◌∷◌, ◌≡◌,
}
use ap2web.Users.{Caller, User, role_of}

refused_iff : (a b : Bool) → (not a && not b) ≡ not (a || b)
refused_iff a b = ground arith

module _ {F : Type 0} where
  set_cancelled_id : (now : ℕ) (x : Job F) → (set_cancelled now x).id ≡ x.id
  unfolding set_cancelled
  set_cancelled_id now x = refl

  -- Whether the caller may cancel the job: an admin, an operator, or whoever requested it.
  abbrev pub may_cancel : List User → Caller → Job F → Bool
  may_cancel users c j =
      member (role_of c.role) (codes "admin" ∷ codes "operator" ∷ []) || is_owner users c j

  -- A job that is found is cancelled exactly if it is active and the caller is an admin, an operator
  -- or the job's requester. Without the permission the call raises and changes no row; with it the
  -- answer is the row as it then stands.
  pub cancel_job-cases :
      (now : ℕ) (users : List User) (c : Caller) (jid : ℕ) (t : Table F) {j : Job F}
      → get_job jid t ≡ some j
      → (may_cancel users c j ≡ false → cancel_job now users c jid t ≡ (err permission_error, t))
        × (may_cancel users c j ≡ true
            → let k = if is_active j.status then set_cancelled now j else j in
              ((cancel_job now users c jid t).0 ≡ ok k)
              × (get_job jid (cancel_job now users c jid t).1 ≡ some k))
  unfolding cancel_job get_job
  cancel_job-cases now users c jid t {j} h = (
    λ off. rw (h, cancel_job, get_job) (rw (refused_iff _ _, off) refl),
    λ on. elim (Bool-cases (is_active j.status)) [
      | inl live ↦ (
        rw (h, cancel_job, get_job) (rw (refused_iff _ _, on, live) (rw (after live) refl)),
        rw (h, cancel_job, get_job) (rw (refused_iff _ _, on, live) (after live)),
      )
      | inr ended ↦ (
        rw (h, cancel_job, get_job) (rw (refused_iff _ _, on, ended) refl),
        rw (h, cancel_job, get_job) (rw (refused_iff _ _, on, ended) h),
      )
    ],
  )
    where
      after :
          is_active j.status ≡ true
          → first (has_id jid) (update_where (active_id jid) (set_cancelled now) t.rows)
            ≡ some (set_cancelled now j)
      after live = rw live at (
          update-found jid (λ (x : Job F). is_active x.status) (set_cancelled now) t.rows {j = j}
            (set_cancelled_id now) h)

  first-append :
      (q : Job F → Bool) (xs : List (Job F)) (j : Job F)
      → first q xs ≡ none
      → q j ≡ true
      → first q (xs ++ (j ∷ [])) ≡ some j
  first-append q [] j h e = rw e refl
  first-append q (x ∷ xs) j h e = elim (Bool-cases (q x)) [
    | inl c ↦ cc (rw c at h)
    | inr c ↦ rw c (first-append q xs j (rw c at h) e)
  ]

  -- A row that holds a key is active, so the UNIQUE constraint adds nothing to the first query.
  keyed_active :
      (key : Text) (x : Job F)
      → RowIsValid x
      → holds_text x.idempotency_key key ≡ true
      → is_active x.status ≡ true
  keyed_active key x v h = at_status x.status v
    where
      holds_some : (o : Option Text) → holds_text o key ≡ true → is_some o ≡ true
      holds_some none h = cc
      holds_some (some k) h = refl

      at_status : (s : Status) → ColumnsOf s x → is_active s ≡ true
      at_status Status.pending c = refl
      at_status Status.running c = refl
      at_status Status.completed c = cc (c.1, holds_some x.idempotency_key h)
      at_status Status.failed c = cc (c.1, holds_some x.idempotency_key h)
      at_status Status.cancelled c = cc (c.1, holds_some x.idempotency_key h)

  first_key :
      (key : Text) (xs : List (Job F))
      → All RowIsValid xs
      → first (active_with_key key) xs ≡ none
      → first (λ j. holds_text j.idempotency_key key) xs ≡ none
  first_key key [] v h = refl
  first_key key (x ∷ xs) v h = elim (Bool-cases (holds_text x.idempotency_key key)) [
    | inl e ↦ cc (rw (e, keyed_active key x v.0 e) at h)
    | inr e ↦ rw e (first_key key xs v.1 (rw e at h))
  ]

  insert_finds :
      (z : F) (now by : ℕ) (ty params key : Text) (league : Option ℕ) (t : Table F) {j : Job F}
      → All RowIsValid t.rows
      → first (active_with_key key) t.rows ≡ none
      → (insert_job z now ty by league params key t).0 ≡ ok j
      → first (active_with_key key) (insert_job z now ty by league params key t).1.rows ≡ some j
  unfolding insert_job new_job
  insert_finds z now by ty params key league t {j} v h r =
      rw (first_key key t.rows v h, insert_job)
        (first-append (active_with_key key) t.rows (new_job z now ty by league params key t.next_id)
            h (rw (text_eq_self key) refl)
          ∙ ap some (ok-injective _ _ (rw (first_key key t.rows v h, insert_job) at r)))
    where
      ok-injective : (a b : Job F) → (◌≡◌ {A = Result JobError (Job F)} (ok a) (ok b)) → a ≡ b
      ok-injective a b e = cc

  created_finds :
      (z : F) (now : ℕ) (computed : Text → Option ℕ → Text → Text) (ty : Text) (by : ℕ)
      (league : Option ℕ) (params : Text) (given : Option Text) (t : Table F) {j : Job F}
      → IsValid t
      → (create_job z now computed ty by league params given t).0 ≡ ok j
      → (member ty allowed_types ≡ true)
        × (first
              (active_with_key (key_or given (computed ty league params)))
              (create_job z now computed ty by league params given t).1.rows
            ≡ some j)
  unfolding create_job
  created_finds z now computed ty by league params given t {j} v r =
      let key = key_or given (computed ty league params) in
      elim (Bool-cases (member ty allowed_types)) [
        | inr bad ↦ cc (rw (bad, create_job) at r)
        | inl good ↦ (
          good,
          elim (Option-cases (first (active_with_key key) t.rows)) [
            | inr (old, e) ↦
                rw (good, e, create_job)
                  (e ∙ ap some (ok-injective old j (rw (good, e, create_job) at r)))
            | inl fresh ↦ elim (Option-cases (conflict ty league t.rows)) [
              | inr (raised, e) ↦ cc (rw (good, fresh, e, create_job) at r)
              | inl c ↦
                  rw (good, fresh, c, create_job)
                    (insert_finds z now by ty params key league t {j = j} v.rows_valid fresh
                      (rw (good, fresh, c, create_job) at r))
            ]
          ],
        )
      ]
    where
      ok-injective : (a b : Job F) → (◌≡◌ {A = Result JobError (Job F)} (ok a) (ok b)) → a ≡ b
      ok-injective a b e = cc

  -- Creating a job again under the same key, by whomever and whenever, while nothing else has
  -- happened, returns the same row and adds none.
  pub create_job-create_job :
      (z : F) (now later : ℕ) (computed : Text → Option ℕ → Text → Text) (ty : Text) (by by' : ℕ)
      (league : Option ℕ) (params : Text) (given : Option Text) (t : Table F) {j : Job F}
      → IsValid t
      → (create_job z now computed ty by league params given t).0 ≡ ok j
      → create_job z later computed ty by' league params given
          (create_job z now computed ty by league params given t).1
        ≡ (ok j, (create_job z now computed ty by league params given t).1)
  create_job-create_job z now later computed ty by by' league params given t {j} v r =
      again (create_job z now computed ty by league params given t).1
        (created_finds z now computed ty by league params given t {j = j} v r)
    where
      again :
          (u : Table F)
          → (member ty allowed_types ≡ true)
            × (first (active_with_key (key_or given (computed ty league params))) u.rows ≡ some j)
          → create_job z later computed ty by' league params given u ≡ (ok j, u)
      again u (good, e) = unfold create_job in rw (good, e, create_job) refl
