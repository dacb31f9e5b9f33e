-- ===== src/Prelude/Scans.antt =====
-- Loops over the rows that a SELECT found, each iteration updating its own row of the table: they
-- come to one pass over the table.
use Prim.Native.Nat.{ℕ, ◌+◌}
use mathlib.Core.Path.{◌≡◌, refl, ap, sym, ◌∙◌, subst}
use mathlib.Core.Logic.{◌≢◌, inl, inr}
use mathlib.Core.Bool.{Bool, true, false, ◌&&◌}
use mathlib.Core.List.{List, [], ◌∷◌}
use native.Mathlib.Omega.{arith}
use ap2web.Prelude.Tests.{if◌then◌else◌, Bool-cases}
use ap2web.Prelude.Tables.{All, count_where, length, select, update_where}
use ap2web.Prelude.Keys.{All-select, HasDistinct}

module _ {ℓ} {A : Type ℓ} where
  -- The loop, which counts and changes the table.
  abbrev pub scan : (A → ℕ × List A → ℕ × List A) → List A → ℕ × List A → ℕ × List A
  scan step [] acc = acc
  scan step (p ∷ ps) acc = scan step ps (step p acc)

  abbrev pub total_of : (A → ℕ) → List A → ℕ
  total_of c [] = 0
  total_of c (x ∷ xs) = c x + total_of c xs

  -- A row in front of the table.
  abbrev pub onto : A → ℕ × List A → ℕ × List A
  onto y acc = (acc.0, y ∷ acc.1)

  module _ (key : A → ℕ) (step : A → ℕ × List A → ℕ × List A) (c : A → ℕ) (g : A → A) (q : A → Bool)
      (skips : (p y : A) (n : ℕ) (t : List A)
        → key p ≢ key y
        → step p (n, y ∷ t) ≡ onto y (step p (n, t)))
      (hits : (p : A) (n : ℕ) (t : List A)
        → q p ≡ true
        → All (λ y. key y ≢ key p) t
        → step p (n, p ∷ t) ≡ (n + c p, g p ∷ t))
      (keeps : (p : A) → key (g p) ≡ key p) where
    skip :
        (ps : List A) (y : A) (acc : ℕ × List A)
        → All (λ p. key p ≢ key y) ps
        → scan step ps (onto y acc) ≡ onto y (scan step ps acc)
    skip [] y acc a = refl
    skip (p ∷ ps) y acc a =
        ap (λ r. scan step ps r) (skips p y acc.0 acc.1 a.0) ∙ skip ps y (step p acc) a.1

    -- The loop over the rows that `q` selects changes each of them by `g`, and counts `c`.
    pub scan-select :
        (t : List A) (n : ℕ)
        → HasDistinct key t
        → scan step (select q t) (n, t) ≡ (n + total_of c (select q t), update_where q g t)
    scan-select [] n d = ap (λ k. (k, [])) (omega arith)
    scan-select (x ∷ xs) n d = elim (Bool-cases (q x)) [
      | inl e ↦ rw e (
          ap (λ r. scan step (select q xs) r) (hits x n xs e d.0)
          ∙ skip (select q xs) (g x) (n + c x, xs) (moved (sym (keeps x)))
          ∙ ap (onto (g x)) (scan-select xs (n + c x) d.1)
          ∙ ap (λ k. (k, g x ∷ update_where q g xs)) (omega arith))
      | inr e ↦ rw e (
          skip (select q xs) x (n, xs) (All-select (λ p. key p ≢ key x) q xs d.0)
          ∙ ap (onto x) (scan-select xs n d.1))
    ]
      where
        moved : {k : ℕ} → key x ≡ k → All (λ p. key p ≢ k) (select q xs)
        moved e =
            subst (λ n. All (λ p. key p ≢ n) (select q xs)) e
              (All-select (λ p. key p ≢ key x) q xs d.0)

  -- What is counted, one for each row that passes a test.
  pub total_of-select :
      (q r : A → Bool) (c : A → ℕ) (xs : List A)
      → ((x : A) → c x ≡ (if r x then 1 else 0))
      → total_of c (select q xs) ≡ count_where (λ x. q x && r x) xs
  total_of-select q r c [] h = refl
  total_of-select q r c (x ∷ xs) h = ground (arith, h x, total_of-select q r c xs h)

  -- An UPDATE that changes no row.
  pub update_same :
      (q : A → Bool) (f : A → A) (xs : List A)
      → All (λ x. q x ≡ true → f x ≡ x) xs
      → update_where q f xs ≡ xs
  update_same q f [] a = refl
  update_same q f (x ∷ xs) a = elim (Bool-cases (q x)) [
    | inl e ↦ rw (e, a.0 e, update_same q f xs a.1) refl
    | inr e ↦ rw (e, update_same q f xs a.1) refl
  ]

  pub count_same : (q : A → Bool) (xs : List A) → All (λ x. q x ≡ false) xs → count_where q xs ≡ 0
  count_same q [] a = refl
  count_same q (x ∷ xs) a = rw a.0 (count_same q xs a.1)

  pub count_kept :
      (r q : A → Bool) (f : A → A) (xs : List A)
      → ((x : A) → r (f x) ≡ r x)
      → count_where r (update_where q f xs) ≡ count_where r xs
  count_kept r q f [] h = refl
  count_kept r q f (x ∷ xs) h = ground (arith, h x, count_kept r q f xs h)

  pub length-select : (q : A → Bool) (xs : List A) → length (select q xs) ≡ count_where q xs
  length-select q [] = refl
  length-select q (x ∷ xs) = ground (arith, length-select q xs)
