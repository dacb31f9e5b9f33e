-- ===== src/Jobs/Found.antt =====
-- What an UPDATE `WHERE id=? AND …` of backend/app/jobs/registry.py does to the row that the id
-- finds, and its row count.
use mathlib.Core.Option.{some-injective}
use ap2web.Prelude.{
  ==_iff, All, Bool, Bool-cases, List, [], ap, arith, count_where, false, first, if◌then◌else◌, inl,
  inr, none, refl, some, subst, true, update_none, update_where, ℕ, ◌&&◌, ◌==◌, ◌∷◌, ◌≡◌, ◌≢◌,
}
use ap2web.Jobs.Table.{Job, has_id}
use ap2web.Jobs.Invariant.{Distinct}

module _ {F : Type 0} where
  module _ (jid : ℕ) (g : Job F → Bool) where
    abbrev pub guarded : Job F → Bool
    guarded x = x.id == jid && g x

    absent_count : (xs : List (Job F)) → All (λ y. y.id ≢ jid) xs → count_where guarded xs ≡ 0
    absent_count [] a = refl
    absent_count (x ∷ xs) a = ground (arith, absent_count xs a.1)

    pub count-missing :
        (xs : List (Job F)) → first (has_id jid) xs ≡ none → count_where guarded xs ≡ 0
    count-missing [] h = refl
    count-missing (x ∷ xs) h = elim (Bool-cases (x.id == jid)) [
      | inl e ↦ cc (rw e at h)
      | inr e ↦ rw e (count-missing xs (rw e at h))
    ]

    pub count-found :
        (xs : List (Job F)) {j : Job F}
        → Distinct xs
        → first (has_id jid) xs ≡ some j
        → count_where guarded xs ≡ (if g j then 1 else 0)
    count-found [] d h = cc
    count-found (x ∷ xs) {j} d h = elim (Bool-cases (x.id == jid)) [
      | inl e ↦
          subst (λ (y : Job F). count_where guarded (x ∷ xs) ≡ (if g y then 1 else 0))
            (some-injective x j (rw e at h)) (rw e (rw (absent_count xs (others e)) refl))
      | inr e ↦ rw e (count-found xs {j = j} d.1 (rw e at h))
    ]
      where
        others : (x.id == jid) ≡ true → All (λ y. y.id ≢ jid) xs
        others e = subst (λ n. All (λ y. y.id ≢ n) xs) ((==_iff x.id jid).0 e) d.0

    pub update-found :
        (f : Job F → Job F) (xs : List (Job F)) {j : Job F}
        → ((x : Job F) → (f x).id ≡ x.id)
        → first (has_id jid) xs ≡ some j
        → first (has_id jid) (update_where guarded f xs) ≡ some (if g j then f j else j)
    update-found f [] keeps h = cc
    update-found f (x ∷ xs) {j} keeps h = elim (Bool-cases (x.id == jid)) [
      | inl e ↦
          subst
            (λ (y : Job F).
              first (has_id jid) (update_where guarded f (x ∷ xs)) ≡ some (if g y then f y else y))
            (some-injective x j (rw e at h)) (here e (g x) refl)
      | inr e ↦ rw e (rw e (update-found f xs {j = j} keeps (rw e at h)))
    ]
      where
        here :
            (x.id == jid) ≡ true
            → (b : Bool) → g x ≡ b
            → first (has_id jid) (update_where guarded f (x ∷ xs)) ≡ some (if g x then f x else x)
        here e true c = rw (e, c, keeps x) (rw e refl)
        here e false c = rw (e, c) (rw e refl)

    pub missing-update :
        (f : Job F → Job F) (xs : List (Job F))
        → first (has_id jid) xs ≡ none
        → update_where guarded f xs ≡ xs
    missing-update f xs h = update_none guarded f xs (count-missing xs h)

  -- An UPDATE of one id leaves the row of another id as it is.
  pub first-update_other :
      (rid jid : ℕ) (g : Job F → Bool) (f : Job F → Job F) (xs : List (Job F))
      → ((x : Job F) → (f x).id ≡ x.id)
      → (rid == jid) ≡ false
      → first (has_id jid) (update_where (guarded rid g) f xs) ≡ first (has_id jid) xs
  first-update_other rid jid g f [] keeps ne = refl
  first-update_other rid jid g f (x ∷ xs) keeps ne = elim (Bool-cases (x.id == rid)) [
    | inl e ↦ elim (Bool-cases (g x)) [
      | inl c ↦
          rw (e, c) (rw (keeps x) (rw (apart x.id e) (first-update_other rid jid g f xs keeps ne)))
      | inr c ↦ rw (e, c) (rw (apart x.id e) (first-update_other rid jid g f xs keeps ne))
    ]
    | inr e ↦
        rw e
          (ap (λ r. if x.id == jid then some x else r) (first-update_other rid jid g f xs keeps ne))
  ]
    where
      apart : (n : ℕ) → (n == rid) ≡ true → (n == jid) ≡ false
      apart n e = ground arith
