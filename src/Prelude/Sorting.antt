-- ===== src/Prelude/Sorting.antt =====
-- Python's `sorted` by a key, which is stable: insertion from the back, before the first element
-- that is not smaller.
use Prim.Native.Nat.{ℕ, suc}
use mathlib.Core.Path.{◌≡◌, refl, ap, ◌∙◌}
use mathlib.Core.Bool.{Bool, true, false, ◌||◌, ◌&&◌}
use mathlib.Core.Logic.{inl, inr}
use mathlib.Core.List.{List, [], ◌∷◌}
use native.Mathlib.Omega.{arith}
use ap2web.Prelude.Tests.{if◌then◌else◌, Bool-cases, ltb, ◌==◌}
use ap2web.Prelude.Tables.{All, length, count_where}

module _ {ℓ} {A : Type ℓ} (smaller : A → A → Bool) where
  unfoldable pub insert_sorted : A → List A → List A
  insert_sorted x [] = x ∷ []
  insert_sorted x (y ∷ ys) =
      let rest = insert_sorted x ys in if smaller y x then y ∷ rest else x ∷ y ∷ ys

  unfoldable pub sort_by : List A → List A
  unfolding insert_sorted
  sort_by [] = []
  sort_by (x ∷ xs) = insert_sorted x (sort_by xs)

  -- No element stands behind a larger one.
  abbrev pub IsSorted : List A → Type 0
  IsSorted [] = Unit
  IsSorted (x ∷ xs) = All (λ y. smaller y x ≡ false) xs × IsSorted xs

  pub All-insert_sorted {κ} :
      (P : A → Type κ) (x : A) (xs : List A) → P x → All P xs → All P (insert_sorted x xs)
  unfolding insert_sorted
  All-insert_sorted P x [] h a = (h, tt)
  All-insert_sorted P x (y ∷ ys) h a = elim (Bool-cases (smaller y x)) [
    | inl e ↦ rw e (a.0, All-insert_sorted P x ys h a.1)
    | inr e ↦ rw e (h, a)
  ]

  pub All-sort_by {κ} : (P : A → Type κ) (xs : List A) → All P xs → All P (sort_by xs)
  unfolding sort_by
  All-sort_by P [] a = tt
  All-sort_by P (x ∷ xs) a = All-insert_sorted P x (sort_by xs) a.0 (All-sort_by P xs a.1)

  length-insert_sorted : (x : A) (xs : List A) → length (insert_sorted x xs) ≡ suc (length xs)
  unfolding insert_sorted
  length-insert_sorted x [] = refl
  length-insert_sorted x (y ∷ ys) = elim (Bool-cases (smaller y x)) [
    | inl e ↦ rw e (ap suc (length-insert_sorted x ys))
    | inr e ↦ rw e refl
  ]

  pub length-sort_by : (xs : List A) → length (sort_by xs) ≡ length xs
  unfolding sort_by
  length-sort_by [] = refl
  length-sort_by (x ∷ xs) = omega (arith, length-insert_sorted x (sort_by xs), length-sort_by xs)

  count-insert_sorted :
      (q : A → Bool) (x : A) (xs : List A)
      → count_where q (insert_sorted x xs) ≡ count_where q (x ∷ xs)
  unfolding insert_sorted
  count-insert_sorted q x [] = refl
  count-insert_sorted q x (y ∷ ys) = elim (Bool-cases (smaller y x)) [
    | inl e ↦ rw e (ground (arith, count-insert_sorted q x ys))
    | inr e ↦ rw e refl
  ]

  -- Sorting keeps how many elements pass a test.
  pub count-sort_by : (q : A → Bool) (xs : List A) → count_where q (sort_by xs) ≡ count_where q xs
  unfolding sort_by
  count-sort_by q [] = refl
  count-sort_by q (x ∷ xs) =
      ground (arith, count-insert_sorted q x (sort_by xs), count-sort_by q xs)

  insert_least : (x : A) (ys : List A) → IsSorted (x ∷ ys) → insert_sorted x ys ≡ x ∷ ys
  unfolding insert_sorted
  insert_least x [] s = refl
  insert_least x (y ∷ ys) s = rw s.0.0 refl

  -- Sorted rows stay as they are.
  pub sort_by_sorted : (xs : List A) → IsSorted xs → sort_by xs ≡ xs
  unfolding sort_by
  sort_by_sorted [] s = refl
  sort_by_sorted (x ∷ xs) s =
      ap (λ ys. insert_sorted x ys) (sort_by_sorted xs s.1) ∙ insert_least x xs s

  module _ (total : (x y : A) → smaller x y ≡ true → smaller y x ≡ false)
      (trans : (x y z : A) → smaller y x ≡ false → smaller z y ≡ false → smaller z x ≡ false) where
    below :
        (x y : A) (ys : List A)
        → smaller y x ≡ false
        → All (λ z. smaller z y ≡ false) ys
        → All (λ z. smaller z x ≡ false) ys
    below x y [] h a = tt
    below x y (z ∷ zs) h a = (trans x y z h a.0, below x y zs h a.1)

    insert_sorted-IsSorted : (x : A) (xs : List A) → IsSorted xs → IsSorted (insert_sorted x xs)
    unfolding insert_sorted
    insert_sorted-IsSorted x [] s = (tt, tt)
    insert_sorted-IsSorted x (y ∷ ys) s = elim (Bool-cases (smaller y x)) [
      | inl e ↦ rw e (
        All-insert_sorted (λ z. smaller z y ≡ false) x ys (total y x e) s.0,
        insert_sorted-IsSorted x ys s.1,
      )
      | inr e ↦ rw e ((e, below x y ys e s.0), s)
    ]

    pub sort_by-IsSorted : (xs : List A) → IsSorted (sort_by xs)
    unfolding sort_by
    sort_by-IsSorted [] = tt
    sort_by-IsSorted (x ∷ xs) = insert_sorted-IsSorted x (sort_by xs) (sort_by-IsSorted xs)

-- Pairs of numbers in the lexicographic order.
abbrev pub pair_smaller {ℓ} : {A : Type ℓ} → (A → ℕ) → (A → ℕ) → A → A → Bool
pair_smaller f g x y = ltb (f x) (f y) || (f x == f y && ltb (g x) (g y))
