-- ===== src/Prelude/Keys.antt =====
-- Rows with a key that tells them apart, as a table's primary key does.
use Prim.Native.Nat.{ℕ}
use mathlib.Core.Path.{◌≡◌, refl}
use mathlib.Core.Logic.{◌≢◌, inl, inr}
use mathlib.Core.Bool.{Bool, true, false}
use mathlib.Core.List.{List, [], ◌∷◌, ◌++◌}
use native.Mathlib.Omega.{arith}
use ap2web.Prelude.Tests.{if◌then◌else◌, Bool-cases, ◌==◌}
use ap2web.Prelude.Tables.{All, count_where, select, update_where}

module _ {ℓ} {A : Type ℓ} where
  pub All-select {κ} :
      (P : A → Type κ) (q : A → Bool) (xs : List A) → All P xs → All P (select q xs)
  All-select P q [] a = tt
  All-select P q (x ∷ xs) a = elim (Bool-cases (q x)) [
    | inl e ↦ rw e (a.0, All-select P q xs a.1)
    | inr e ↦ rw e (All-select P q xs a.1)
  ]

  module _ (key : A → ℕ) where
    abbrev pub HasDistinct : List A → Type 0
    HasDistinct [] = Unit
    HasDistinct (x ∷ xs) = All (λ y. key y ≢ key x) xs × HasDistinct xs

    -- No other row has the key of a row.
    pub count-others :
        (x : A) (xs : List A)
        → All (λ y. key y ≢ key x) xs
        → count_where (λ y. key y == key x) xs ≡ 0
    count-others x [] a = refl
    count-others x (y ∷ ys) a = ground (arith, a.0, count-others x ys a.1)

    pub HasDistinct-update_where :
        (p : A → Bool) (f : A → A) (xs : List A)
        → ((x : A) → key (f x) ≡ key x)
        → HasDistinct xs
        → HasDistinct (update_where p f xs)
    HasDistinct-update_where p f [] keeps d = tt
    HasDistinct-update_where p f (x ∷ xs) keeps d =
        (moved (p x) x xs d.0, HasDistinct-update_where p f xs keeps d.1)
      where
        change : (b : Bool) (y : A) → key (if b then f y else y) ≡ key y
        change true y = keeps y
        change false y = refl

        moved :
            (b : Bool) (y : A) (ys : List A)
            → All (λ z. key z ≢ key y) ys
            → All (λ z. key z ≢ key (if b then f y else y)) (update_where p f ys)
        moved b y [] a = tt
        moved b y (z ∷ zs) a = (rw (change b y, change (p z) z) a.0, moved b y zs a.1)

    pub HasDistinct-append_one :
        (xs : List A) (y : A)
        → All (λ x. key y ≢ key x) xs
        → HasDistinct xs
        → HasDistinct (xs ++ (y ∷ []))
    HasDistinct-append_one [] y a d = (tt, tt)
    HasDistinct-append_one (x ∷ xs) y a d = (extend xs d.0, HasDistinct-append_one xs y a.1 d.1)
      where
        extend :
            (ys : List A) → All (λ z. key z ≢ key x) ys → All (λ z. key z ≢ key x) (ys ++ (y ∷ []))
        extend [] b = (a.0, tt)
        extend (z ∷ zs) b = (b.0, extend zs b.1)

    pub HasDistinct-select :
        (q : A → Bool) (xs : List A) → HasDistinct xs → HasDistinct (select q xs)
    HasDistinct-select q [] d = tt
    HasDistinct-select q (x ∷ xs) d = elim (Bool-cases (q x)) [
      | inl e ↦ rw e (All-select (λ y. key y ≢ key x) q xs d.0, HasDistinct-select q xs d.1)
      | inr e ↦ rw e (HasDistinct-select q xs d.1)
    ]
