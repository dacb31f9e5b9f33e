-- ===== src/Prelude/Tables.antt =====
-- Database tables as lists of rows in the order of insertion, with the effect of one SQL statement
-- on them, and Python slices.
use Prim.Native.Nat.{◌≤◌, ℕ, zero, suc, ◌+◌, ◌-◌, min}
use mathlib.Core.Path.{◌≡◌, refl, ap, subst}
use mathlib.Core.Logic.{◌⊎◌, inl, inr}
use mathlib.Core.Bool.{Bool, true, false, ◌||◌}
use mathlib.Core.Option.{Option, none, some}
use mathlib.Core.List.{List, [], ◌∷◌, ◌++◌}
use native.Mathlib.Omega.{arith}
use ap2web.Prelude.Tests.{if◌then◌else◌, Bool-cases}

module _ {ℓ} {A : Type ℓ} where
  abbrev pub length : List A → ℕ
  length [] = 0
  length (x ∷ xs) = suc (length xs)

  -- `xs[:n]`
  abbrev pub take : ℕ → List A → List A
  take zero xs = []
  take (suc n) [] = []
  take (suc n) (x ∷ xs) = x ∷ take n xs

  abbrev pub drop : ℕ → List A → List A
  drop zero xs = xs
  drop (suc n) [] = []
  drop (suc n) (x ∷ xs) = drop n xs

  -- `xs[-n:]` for `0 < n`
  abbrev pub take_last : ℕ → List A → List A
  take_last n xs = drop (length xs - n) xs

  -- `SELECT … WHERE p`
  abbrev pub select : (A → Bool) → List A → List A
  select p [] = []
  select p (x ∷ xs) = if p x then x ∷ select p xs else select p xs

  -- Whether `SELECT 1 … WHERE p LIMIT 1` has a row.
  abbrev pub any : (A → Bool) → List A → Bool
  any p [] = false
  any p (x ∷ xs) = p x || any p xs

  -- `rows[0] if rows else None`
  abbrev pub first : (A → Bool) → List A → Option A
  first p [] = none
  first p (x ∷ xs) = if p x then some x else first p xs

  -- `UPDATE … SET f WHERE p`, and its row count.
  abbrev pub update_where : (A → Bool) → (A → A) → List A → List A
  update_where p f [] = []
  update_where p f (x ∷ xs) = (if p x then f x else x) ∷ update_where p f xs

  abbrev pub count_where : (A → Bool) → List A → ℕ
  count_where p [] = 0
  count_where p (x ∷ xs) = if p x then suc (count_where p xs) else count_where p xs

  -- A property of every row.
  abbrev pub All {κ} : (A → Type κ) → List A → Type κ
  All P [] = Unit
  All P (x ∷ xs) = P x × All P xs

module _ {ℓ} {A : Type ℓ} where
  pub length-append : (xs ys : List A) → length (xs ++ ys) ≡ length xs + length ys
  length-append [] ys = omega arith
  length-append (x ∷ xs) ys = omega (arith, length-append xs ys)

  pub length-drop : (n : ℕ) (xs : List A) → length (drop n xs) ≡ length xs - n
  length-drop zero xs = omega arith
  length-drop (suc n) [] = omega arith
  length-drop (suc n) (x ∷ xs) = omega (arith, length-drop n xs)

  pub length-take : (n : ℕ) (xs : List A) → length (take n xs) ≡ min n (length xs)
  length-take zero xs = omega arith
  length-take (suc n) [] = omega arith
  length-take (suc n) (x ∷ xs) = omega (arith, length-take n xs)

  pub length-update_where :
      (p : A → Bool) (f : A → A) (xs : List A) → length (update_where p f xs) ≡ length xs
  length-update_where p f [] = refl
  length-update_where p f (x ∷ xs) = ap suc (length-update_where p f xs)

  pub All-map {κ} : (P Q : A → Type κ) (xs : List A) → ((x : A) → P x → Q x) → All P xs → All Q xs
  All-map P Q [] h a = tt
  All-map P Q (x ∷ xs) h a = (h x a.0, All-map P Q xs h a.1)

  pub All-append {κ} : (P : A → Type κ) (xs ys : List A) → All P xs → All P ys → All P (xs ++ ys)
  All-append P [] ys hx hy = hy
  All-append P (x ∷ xs) ys hx hy = (hx.0, All-append P xs ys hx.1 hy)

  pub All-update_where {κ} :
      (P : A → Type κ) (p : A → Bool) (f : A → A) (xs : List A)
      → ((x : A) → p x ≡ true → P x → P (f x))
      → All P xs
      → All P (update_where p f xs)
  All-update_where P p f [] h a = tt
  All-update_where P p f (x ∷ xs) h a = elim (Bool-cases (p x)) [
    | inl e ↦ rw e (h x e a.0, All-update_where P p f xs h a.1)
    | inr e ↦ rw e (a.0, All-update_where P p f xs h a.1)
  ]

  -- An update makes no row satisfy `q` that did not before, if it makes none of those it changes.
  pub any-update_where :
      (q p : A → Bool) (f : A → A) (xs : List A)
      → All (λ x. p x ≡ true → q (f x) ≡ true → q x ≡ true) xs
      → any q (update_where p f xs) ≡ true
      → any q xs ≡ true
  any-update_where q p f [] a h = h
  any-update_where q p f (x ∷ xs) a h = ground (arith, a.0, any-update_where q p f xs a.1)

  pub any-append :
      (q : A → Bool) (xs ys : List A)
      → any q (xs ++ ys) ≡ true
      → (any q xs ≡ true) ⊎ (any q ys ≡ true)
  any-append q [] ys h = inr h
  any-append q (x ∷ xs) ys h = elim (Bool-cases (q x)) [
    | inl e ↦ inl (rw e refl)
    | inr e ↦ elim (any-append q xs ys (rw e at h)) [ inl a ↦ inl (rw e a) | inr b ↦ inr b ]
  ]

  pub any-false-All : (q : A → Bool) (xs : List A) → any q xs ≡ false → All (λ x. q x ≡ false) xs
  any-false-All q [] h = tt
  any-false-All q (x ∷ xs) h = elim (Bool-cases (q x)) [
    | inl e ↦ cc (rw e at h)
    | inr e ↦ (e, any-false-All q xs (rw e at h))
  ]

  pub first-any : (q : A → Bool) (xs : List A) {a : A} → first q xs ≡ some a → any q xs ≡ true
  first-any q [] h = cc
  first-any q (x ∷ xs) {a} h = (elim (Bool-cases (q x)) [
    | inl e ↦ rw e refl
    | inr e ↦ rw e (first-any q xs (rw e at h))
  ])

  pub first_holds : (q : A → Bool) (xs : List A) {a : A} → first q xs ≡ some a → q a ≡ true
  first_holds q [] h = cc
  first_holds q (x ∷ xs) {a} h = (elim (Bool-cases (q x)) [
    | inl e ↦ ground arith
    | inr e ↦ first_holds q xs (rw e at h)
  ])

  pub All-first {κ} :
      (P : A → Type κ) (q : A → Bool) (xs : List A) {a : A} → All P xs → first q xs ≡ some a → P a
  All-first P q [] h e = cc
  All-first P q (x ∷ xs) {a} h e = elim (Bool-cases (q x)) [
    | inl t ↦ subst P (some-inj x a (rw t at e)) h.0
    | inr t ↦ All-first P q xs h.1 (rw t at e)
  ]
    where
      some-inj : (u v : A) → some u ≡ some v → u ≡ v
      some-inj u v p = cc

  pub All-update_any {κ} :
      (P : A → Type κ) (p : A → Bool) (f : A → A) (xs : List A)
      → ((x : A) → P x → P (f x))
      → All P xs
      → All P (update_where p f xs)
  All-update_any P p f xs h a = All-update_where P p f xs (λ x _ px. h x px) a

  -- Neither does it make more rows satisfy `q`.
  pub count-update_where :
      (q p : A → Bool) (f : A → A) (xs : List A)
      → ((x : A) → p x ≡ true → q (f x) ≡ true → q x ≡ true)
      → count_where q (update_where p f xs) ≤ count_where q xs
  count-update_where q p f [] h = omega arith
  count-update_where q p f (x ∷ xs) h = ground (arith, h x, count-update_where q p f xs h)

  pub count-append :
      (q : A → Bool) (xs ys : List A)
      → count_where q (xs ++ ys) ≡ count_where q xs + count_where q ys
  count-append q [] ys = omega arith
  count-append q (x ∷ xs) ys = ground (arith, count-append q xs ys)

  pub count_of_none : (q : A → Bool) (xs : List A) → first q xs ≡ none → count_where q xs ≡ 0
  count_of_none q [] h = refl
  count_of_none q (x ∷ xs) h = elim (Bool-cases (q x)) [
    | inl e ↦ cc (rw e at h)
    | inr e ↦ rw e (count_of_none q xs (rw e at h))
  ]

  pub any-count : (q : A → Bool) (xs : List A) → any q xs ≡ false → first q xs ≡ none
  any-count q [] h = refl
  any-count q (x ∷ xs) h = elim (Bool-cases (q x)) [
    | inl e ↦ cc (rw e at h)
    | inr e ↦ rw e (any-count q xs (rw e at h))
  ]

  pub first-none-any : (q : A → Bool) (xs : List A) → first q xs ≡ none → any q xs ≡ false
  first-none-any q [] h = refl
  first-none-any q (x ∷ xs) h = elim (Bool-cases (q x)) [
    | inl e ↦ cc (rw e at h)
    | inr e ↦ rw e (first-none-any q xs (rw e at h))
  ]

  pub All-first-none : (q : A → Bool) (xs : List A) → first q xs ≡ none → All (λ x. q x ≡ false) xs
  All-first-none q xs h = any-false-All q xs (first-none-any q xs h)

  pub All-of_All {κ} : (P : A → Type κ) (xs : List A) → ((x : A) → P x) → All P xs
  All-of_All P [] h = tt
  All-of_All P (x ∷ xs) h = (h x, All-of_All P xs h)

  -- An UPDATE that selects no row changes nothing.
  pub update_none :
      (p : A → Bool) (f : A → A) (xs : List A) → count_where p xs ≡ 0 → update_where p f xs ≡ xs
  update_none p f [] h = refl
  update_none p f (x ∷ xs) h = elim (Bool-cases (p x)) [
    | inl e ↦ absurd (ground arith)
    | inr e ↦ rw (e, update_none p f xs (rw e at h)) refl
  ]
