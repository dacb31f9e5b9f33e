-- ===== src/Jobs/Evolution.antt =====
-- How the rows of the `jobs` table change from one table to a later one: the abstract view of every
-- registry function, as moves of each job along its life cycle.
use mathlib.Core.Option.{some-injective}
use ap2web.Prelude.{
  All, All-of_All, Bool, Bool-cases, List, [], arith, false, first, inl, inr, refl, some, subst,
  true, update_where, ℕ, ◌++◌, ◌==◌, ◌∙◌, ◌∷◌, ◌≡◌,
}
use ap2web.Jobs.Table.{Job, Status, has_id, is_active}
use ap2web.Jobs.Lifecycle.{Legal, allowed}
use ap2web.Jobs.Invariant.{LegalUpdate}

-- The states that a job can have later: the reflexive, transitive closure of `allowed`.
abbrev pub reaches : Status → Status → Bool
reaches Status.pending _ = true
reaches Status.running Status.pending = false
reaches Status.running _ = true
reaches Status.completed Status.completed = true
reaches Status.completed _ = false
reaches Status.failed Status.failed = true
reaches Status.failed _ = false
reaches Status.cancelled Status.cancelled = true
reaches Status.cancelled _ = false

pub reaches-allowed :
    (a b c : Status) → reaches a b ≡ true → allowed b c ≡ true → reaches a c ≡ true
reaches-allowed Status.pending b c h k = refl
reaches-allowed Status.running b c h k = ground arith
reaches-allowed Status.completed b c h k = ground arith
reaches-allowed Status.failed b c h k = ground arith
reaches-allowed Status.cancelled b c h k = ground arith

module _ {F : Type 0} where
  -- The row `x` has become `y`: the same job, further along `R`, and nothing has changed if it had
  -- ended.
  pub record Follows (R : Status → Status → Bool) (x y : Job F) : Type 0 where
    pub same_id : y.id ≡ x.id
    pub same_type : y.job_type ≡ x.job_type
    pub moved : R x.status y.status ≡ true
    pub frozen : is_active x.status ≡ false → y ≡ x

  -- Every row has its successor at the same place, and new rows stand behind them.
  abbrev pub Evolves : (Status → Status → Bool) → List (Job F) → List (Job F) → Type 0
  Evolves R [] ys = All (λ y. R Status.pending y.status ≡ true) ys
  Evolves R (x ∷ xs) [] = ⊥
  Evolves R (x ∷ xs) (y ∷ ys) = Follows R x y × Evolves R xs ys

  pub Follows-self : (x : Job F) → Follows allowed x x
  Follows-self x = record {
    same_id = refl;
    same_type = refl;
    moved = stays x.status;
    frozen = λ _. refl;
  }
    where
      stays : (s : Status) → allowed s s ≡ true
      stays Status.pending = refl
      stays _ = refl

  pub Evolves-self : (xs : List (Job F)) → Evolves allowed xs xs
  Evolves-self [] = tt
  Evolves-self (x ∷ xs) = (Follows-self x, Evolves-self xs)

  Legal-Follows : (x y : Job F) → Legal x y → Follows allowed x y
  Legal-Follows x y l = record {
    same_id = l.same_id;
    same_type = l.same_type;
    moved = l.edge;
    frozen = λ e. cc (l.was_active);
  }

  pub update-Evolves :
      (p : Job F → Bool) (f : Job F → Job F)
      → LegalUpdate p f
      → (xs : List (Job F)) → Evolves allowed xs (update_where p f xs)
  update-Evolves p f legal [] = tt
  update-Evolves p f legal (x ∷ xs) = elim (Bool-cases (p x)) [
    | inl e ↦ rw e (Legal-Follows x (f x) (legal x e), update-Evolves p f legal xs)
    | inr e ↦ rw e (Follows-self x, update-Evolves p f legal xs)
  ]

  pub append-Evolves :
      (xs : List (Job F)) (j : Job F)
      → j.status ≡ Status.pending
      → Evolves allowed xs (xs ++ (j ∷ []))
  append-Evolves [] j h = (rw h refl, tt)
  append-Evolves (x ∷ xs) j h = (Follows-self x, append-Evolves xs j h)

  Follows-trans : (x y z : Job F) → Follows reaches x y → Follows allowed y z → Follows reaches x z
  Follows-trans x y z a b = record {
    same_id = b.same_id ∙ a.same_id;
    same_type = b.same_type ∙ a.same_type;
    moved = reaches-allowed x.status y.status z.status a.moved b.moved;
    frozen = λ e. b.frozen (rw (a.frozen e) e) ∙ a.frozen e;
  }

  new_rows :
      (ys zs : List (Job F))
      → Evolves allowed ys zs
      → All (λ z. reaches Status.pending z.status ≡ true) zs
  new_rows ys zs e = All-of_All (λ z. reaches Status.pending z.status ≡ true) zs (λ z. refl)

  pub Evolves-trans :
      (xs ys zs : List (Job F))
      → Evolves reaches xs ys
      → Evolves allowed ys zs
      → Evolves reaches xs zs
  Evolves-trans [] ys zs a b = new_rows ys zs b
  Evolves-trans (x ∷ xs) [] zs a b = absurd a
  Evolves-trans (x ∷ xs) (y ∷ ys) [] a b = absurd b
  Evolves-trans (x ∷ xs) (y ∷ ys) (z ∷ zs) a b =
      (Follows-trans x y z a.0 b.0, Evolves-trans xs ys zs a.1 b.1)

  pub Evolves-reaches : (xs : List (Job F)) → Evolves reaches xs xs
  Evolves-reaches [] = tt
  Evolves-reaches (x ∷ xs) = (
    record { same_id = refl; same_type = refl; moved = stays x.status; frozen = λ _. refl },
    Evolves-reaches xs,
  )
    where
      stays : (s : Status) → reaches s s ≡ true
      stays Status.pending = refl
      stays _ = refl

  -- A job that is found is found later too, as the row that follows it.
  pub first-Evolves :
      (R : Status → Status → Bool) (jid : ℕ) (xs ys : List (Job F)) {x : Job F}
      → Evolves R xs ys
      → first (has_id jid) xs ≡ some x
      → (y : Job F) × (first (has_id jid) ys ≡ some y) × Follows R x y
  first-Evolves R jid [] ys e h = cc
  first-Evolves R jid (w ∷ xs) [] e h = absurd e
  first-Evolves R jid (w ∷ xs) (y ∷ ys) {x} e h = elim (Bool-cases (w.id == jid)) [
    | inl hit ↦ (
      y,
      rw (e.0.same_id) (rw hit refl),
      subst (λ u. Follows R u y) (some-injective w x (rw hit at h)) (e.0),
    )
    | inr miss ↦
        let (z, found, follows) = first-Evolves R jid xs ys {x = x} (e.1) (rw miss at h) in
        (z, rw (e.0.same_id) (rw miss found), follows)
  ]
