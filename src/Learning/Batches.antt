-- ===== src/Learning/Batches.antt =====
-- The loop of backend/app/learning/walkforward.py that gathers the fixtures of one kickoff.
use ap2web.Learning.Features.{Match}
use ap2web.Prelude.{
  ==_iff, All, All-map, Bool-cases, List, [], ap, arith, false, if◌then◌else◌, inl, inr, length,
  refl, suc, true, zero, ℕ, ◌++◌, ◌<◌, ◌==◌, ◌∙◌, ◌∷◌, ◌≡◌, ◌≤◌,
}

-- The rows at the front with the kickoff `k`, and the rest: `while index < len(matches) and …`.
unfoldable pub split_batch : ℕ → List Match → List Match × List Match
split_batch k [] = ([], [])
split_batch k (m ∷ ms) =
    let (batch, rest) = split_batch k ms in
    if m.kickoff == k then (m ∷ batch, rest) else ([], m ∷ ms)

-- The outer loop, on fuel: the batches in their order.
unfoldable pub batches : ℕ → List Match → List (List Match)
unfolding split_batch
batches zero ms = []
batches (suc fuel) [] = []
batches (suc fuel) (m ∷ ms) =
    let (batch, rest) = split_batch m.kickoff (m ∷ ms) in batch ∷ batches fuel rest

pub split_batch-append :
    (k : ℕ) (ms : List Match) → (split_batch k ms).0 ++ (split_batch k ms).1 ≡ ms
unfolding split_batch
split_batch-append k [] = refl
split_batch-append k (m ∷ ms) = elim (Bool-cases (m.kickoff == k)) [
  | inl e ↦ rw e (ap (λ xs. m ∷ xs) (split_batch-append k ms))
  | inr e ↦ rw e refl
]

-- The rest of the first batch is shorter than the rows.
pub split_batch-shorter :
    (m : Match) (ms : List Match) → length (split_batch m.kickoff (m ∷ ms)).1 ≤ length ms
unfolding split_batch
split_batch-shorter m ms = rw (self m.kickoff) (rest_shorter m.kickoff ms)
  where
    self : (n : ℕ) → (n == n) ≡ true
    self n = ground arith

    rest_shorter : (k : ℕ) (xs : List Match) → length (split_batch k xs).1 ≤ length xs
    rest_shorter k [] = omega arith
    rest_shorter k (x ∷ xs) = elim (Bool-cases (x.kickoff == k)) [
      | inl e ↦ rw e (omega (arith, rest_shorter k xs))
      | inr e ↦ rw e (omega arith)
    ]

pub split_batch-kickoff : (k : ℕ) (ms : List Match) → All (λ m. m.kickoff ≡ k) (split_batch k ms).0
unfolding split_batch
split_batch-kickoff k [] = tt
split_batch-kickoff k (m ∷ ms) = elim (Bool-cases (m.kickoff == k)) [
  | inl e ↦ rw e ((==_iff m.kickoff k).0 e, split_batch-kickoff k ms)
  | inr e ↦ rw e tt
]

-- Kickoffs do not fall.
abbrev pub IsChronological : List Match → Type 0
IsChronological [] = Unit
IsChronological (m ∷ ms) = All (λ x. m.kickoff ≤ x.kickoff) ms × IsChronological ms

-- In chronological rows what is left over by a batch starts later.
pub split_batch-later :
    (k : ℕ) (ms : List Match)
    → IsChronological ms
    → All (λ x. k ≤ x.kickoff) ms
    → All (λ x. k < x.kickoff) (split_batch k ms).1
unfolding split_batch
split_batch-later k [] c a = tt
split_batch-later k (m ∷ ms) c a = elim (Bool-cases (m.kickoff == k)) [
  | inl e ↦ rw e (split_batch-later k ms c.1 a.1)
  | inr e ↦ rw e (
    above e,
    All-map (λ x. m.kickoff ≤ x.kickoff) (λ x. k < x.kickoff) ms (λ x h. omega (arith, h, above e))
        c.0,
  )
]
  where
    above : (m.kickoff == k) ≡ false → k < m.kickoff
    above e = ground (arith, a.0)

pub split_batch-IsChronological :
    (k : ℕ) (ms : List Match) → IsChronological ms → IsChronological (split_batch k ms).1
unfolding split_batch
split_batch-IsChronological k [] c = tt
split_batch-IsChronological k (m ∷ ms) c = elim (Bool-cases (m.kickoff == k)) [
  | inl e ↦ rw e (split_batch-IsChronological k ms c.1)
  | inr e ↦ rw e c
]

abbrev pub joined : List (List Match) → List Match
joined [] = []
joined (b ∷ bs) = b ++ joined bs

-- As many rounds as rows are enough: the batches then hold every row, in its order.
joined-batches : (fuel : ℕ) (ms : List Match) → length ms ≤ fuel → joined (batches fuel ms) ≡ ms
unfolding batches
joined-batches zero [] h = refl
joined-batches zero (m ∷ ms) h = absurd (omega (arith, h))
joined-batches (suc fuel) [] h = refl
joined-batches (suc fuel) (m ∷ ms) h =
    ap (λ xs. (split_batch m.kickoff (m ∷ ms)).0 ++ xs)
      (joined-batches fuel (split_batch m.kickoff (m ∷ ms)).1
        (omega (arith, h, split_batch-shorter m ms)))
    ∙ split_batch-append m.kickoff (m ∷ ms)

-- A batch is not empty and has one kickoff, and everything in the batches behind it starts later.
abbrev pub AreBatches : List (List Match) → Type 0
AreBatches [] = Unit
AreBatches (b ∷ bs) =
    ((k : ℕ) × (0 < length b) × All (λ m. m.kickoff ≡ k) b × All (λ m. k < m.kickoff) (joined bs))
    × AreBatches bs

-- A batch starts with the row whose kickoff it takes.
split_batch-occupied : (m : Match) (ms : List Match) → 0 < length (split_batch m.kickoff (m ∷ ms)).0
unfolding split_batch
split_batch-occupied m ms = rw (self m.kickoff) (omega arith)
  where
    self : (n : ℕ) → (n == n) ≡ true
    self n = ground arith

batches-grouped :
    (fuel : ℕ) (ms : List Match)
    → length ms ≤ fuel
    → IsChronological ms
    → AreBatches (batches fuel ms)
unfolding batches
batches-grouped zero ms h c = tt
batches-grouped (suc fuel) [] h c = tt
batches-grouped (suc fuel) (m ∷ ms) h c =
    let rest = (split_batch m.kickoff (m ∷ ms)).1 in
    let short : length rest ≤ fuel = omega (arith, h, split_batch-shorter m ms) in
    (
      (
        m.kickoff,
        split_batch-occupied m ms,
        split_batch-kickoff m.kickoff (m ∷ ms),
        rw (joined-batches fuel rest short)
            (split_batch-later m.kickoff (m ∷ ms) c (omega arith, c.0)),
      ),
      batches-grouped fuel rest short (split_batch-IsChronological m.kickoff (m ∷ ms) c),
    )

-- Of chronological rows, with as many rounds as rows: the batches hold every row in its order, and
-- the rows of one kickoff stand in one batch with no others, behind all of the earlier kickoffs.
pub batches-AreBatches :
    (fuel : ℕ) (ms : List Match)
    → length ms ≤ fuel
    → IsChronological ms
    → (joined (batches fuel ms) ≡ ms) × AreBatches (batches fuel ms)
batches-AreBatches fuel ms h c = (joined-batches fuel ms h, batches-grouped fuel ms h c)
