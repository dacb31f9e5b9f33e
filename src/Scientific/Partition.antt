-- ===== src/Scientific/Partition.antt =====
-- The partition that `temporal_split` of backend/app/scientific/snapshot.py makes.
-- The last row before a place and the first one behind it differ.
use ap2web.Scientific.Split.{Split, holdout_size, move_back, split_at, splits_batch, temporal_split}
use ap2web.Prelude.{
  All, All-map, All-of_All, Bool-cases, List, [], ap, arith, drop, false, inl, inr, length,
  length-drop, ltb, none, refl, some, subst, suc, sym, take, true, zero, ℕ, ◌&&◌, ◌++◌, ◌-◌, ◌<◌,
  ◌∷◌, ◌≡◌, ◌≤◌, ◌⊎◌,
}
use ap2web.Floats.{Floats, of_nat}
use ap2web.Learning.Features.{Match}
use ap2web.Learning.Batches.{IsChronological}
use ap2web.Learning.Engine.{chronological}
use ap2web.Learning.Order.{chronological-IsChronological, length-chronological}

IsStrict : ℕ → List Match → Type 0
IsStrict k ms =
    All (λ (a : Match). All (λ (b : Match). a.kickoff < b.kickoff) (drop k ms)) (take k ms)

take-drop : (k : ℕ) (ms : List Match) → take k ms ++ drop k ms ≡ ms
take-drop zero ms = refl
take-drop (suc k) [] = refl
take-drop (suc k) (m ∷ ms) = ap (λ xs. m ∷ xs) (take-drop k ms)

move_back-splits_batch : (k : ℕ) (ms : List Match) → splits_batch (move_back k ms) ms ≡ false
unfolding move_back
move_back-splits_batch zero ms = refl
move_back-splits_batch (suc k) ms = elim (Bool-cases (splits_batch (suc k) ms)) [
  | inl e ↦ rw (e, move_back) (move_back-splits_batch k ms)
  | inr e ↦ rw (e, move_back) e
]

move_back_least : (k : ℕ) (ms : List Match) → move_back k ms ≤ k
unfolding move_back
move_back_least zero ms = omega arith
move_back_least (suc k) ms = elim (Bool-cases (splits_batch (suc k) ms)) [
  | inl e ↦ rw (e, move_back) (omega (arith, move_back_least k ms))
  | inr e ↦ rw (e, move_back) (omega arith)
]

-- In chronological rows, a first row with another kickoff than the next comes before all others.
first_strict :
    (m : Match) (ms : List Match)
    → IsChronological (m ∷ ms)
    → splits_batch 1 (m ∷ ms) ≡ false
    → All (λ (b : Match). m.kickoff < b.kickoff) ms
first_strict m [] c h = tt
first_strict m (b ∷ bs) c h = (
  ahead,
  All-map (λ (x : Match). b.kickoff ≤ x.kickoff) (λ x. m.kickoff < x.kickoff) bs
      (λ x l. omega (arith, l, ahead)) c.1.0,
)
  where
    ahead : m.kickoff < b.kickoff
    ahead = ground (arith, h, c.0.0)

splits_batch-IsStrict :
    (k : ℕ) (ms : List Match) → IsChronological ms → splits_batch k ms ≡ false → IsStrict k ms
unfolding IsStrict
splits_batch-IsStrict zero ms c h = tt
splits_batch-IsStrict (suc k) [] c h = tt
splits_batch-IsStrict (suc zero) (m ∷ ms) c h = (first_strict m ms c h, tt)
splits_batch-IsStrict (suc (suc k)) (m ∷ []) c h = (tt, tt)
splits_batch-IsStrict (suc (suc k)) (m ∷ b ∷ bs) c h =
    let rest = splits_batch-IsStrict (suc k) (b ∷ bs) c.1 h in
    (
      All-map (λ (x : Match). b.kickoff < x.kickoff) (λ x. m.kickoff < x.kickoff) (drop k bs)
          (λ x l. omega (arith, l, c.0.0)) rest.0,
      rest,
    )

-- What a split is of.
abbrev pub IsSplit : List Match → Split → Type 0
IsSplit ms s =
    (s.development ++ s.holdout ≡ ms)
    × All (λ (a : Match). All (λ (b : Match). a.kickoff < b.kickoff) s.holdout) s.development

split_at-IsSplit : (n : ℕ) (ms : List Match) → IsChronological ms → IsSplit ms (split_at n ms)
unfolding split_at IsStrict
split_at-IsSplit n ms c = (
  take-drop (move_back n ms) ms,
  splits_batch-IsStrict (move_back n ms) ms c (move_back-splits_batch n ms),
)

holdout_long :
    (size : ℕ) (ms : List Match)
    → size ≤ length ms
    → size ≤ length (split_at (length ms - size) ms).holdout
unfolding split_at
holdout_long size ms h = omega (
  arith,
  h,
  length-drop (move_back (length ms - size) ms) ms,
  move_back_least (length ms - size) ms,
)

module _ {F : Type 0} (o : Floats F) (ceil : F → ℕ) where
  -- temporal_split raises for a fraction outside of (0, 0.5]. Otherwise, and unless the size of the
  -- holdout exceeds the rows, development and holdout together are the rows in chronological order,
  -- each kickoff of the development lies before each one of the holdout, and from two rows on the
  -- holdout has at least the size that the fraction asks for.
  pub temporal_split-cases :
      (rows : List Match) (fraction : F)
      → (2 ≤ length rows → holdout_size o ceil (length rows) fraction ≤ length rows)
      → ((temporal_split o ceil rows fraction ≡ none)
          × ((o.lt (of_nat o 0) fraction && o.le fraction (o.decimal 5 1)) ≡ false))
        ⊎ ((s : Split) × (temporal_split o ceil rows fraction ≡ some s)
            × (s.development ++ s.holdout ≡ chronological rows)
            × All
                (λ (a : Match). All (λ (b : Match). a.kickoff < b.kickoff) s.holdout)
                s.development
            × ((length rows < 2) ⊎ (holdout_size o ceil (length rows) fraction ≤ length s.holdout)))
  unfolding temporal_split
  temporal_split-cases rows fraction h =
      elim (Bool-cases (o.lt (of_nat o 0) fraction && o.le fraction (o.decimal 5 1))) [
        | inr e ↦ inl (rw (e, temporal_split) refl, e)
        | inl e ↦ elim (Bool-cases (ltb (length (chronological rows)) 2)) [
          | inl f ↦ inr (
            record { development = chronological rows; holdout = [] },
            rw (e, f, temporal_split) refl,
            append_nil (chronological rows),
            All-of_All (λ a. Unit) (chronological rows) (λ a. tt),
            inl (few f),
          )
          | inr f ↦
              let n = length (chronological rows) in
              let s = split_at (n - holdout_size o ceil n fraction) (chronological rows) in
              let parts =
                split_at-IsSplit (n - holdout_size o ceil n fraction) (chronological rows)
                  (chronological-IsChronological rows) in
              inr (
                s,
                rw (e, f, temporal_split) refl,
                parts.0,
                parts.1,
                inr (
                    subst (λ k. holdout_size o ceil k fraction ≤ length s.holdout)
                      (length-chronological rows)
                      (holdout_long (holdout_size o ceil n fraction) (chronological rows) (
                        subst (λ k. holdout_size o ceil k fraction ≤ k)
                          (sym (length-chronological rows)) (h (enough f))))),
              )
        ]
      ]
    where
      append_nil : (xs : List Match) → xs ++ [] ≡ xs
      append_nil [] = refl
      append_nil (x ∷ xs) = ap (λ ys. x ∷ ys) (append_nil xs)

      few : ltb (length (chronological rows)) 2 ≡ true → length rows < 2
      few f = ground (arith, f, length-chronological rows)

      enough : ltb (length (chronological rows)) 2 ≡ false → 2 ≤ length rows
      enough f = ground (arith, f, length-chronological rows)
