-- ===== src/Backtest/Folds.antt =====
-- `temporal_cv` of backend/app/backtest/temporal.py on the rows of its query, which are in the order of
-- kickoff and id and have their scores; `math.sqrt` and the prediction of a fixture are arguments. The
-- batches of a fold are those of the walk-forward backtest.
use ap2web.Prelude.{
  All, List, Option, [], arith, drop, if◌then◌else◌, is_empty, length, ltb, map, max, none, refl,
  some, suc, take, zero, ℕ, ◌*◌, ◌++◌, ◌-◌, ◌/◌, ◌==◌, ◌||◌, ◌∙◌, ◌∷◌, ◌≡◌, ◌≤◌,
}
use ap2web.Floats.{Floats, of_nat, sum, sum_from}
use ap2web.Executions.Store.{start}
use ap2web.Learning.Features.{Feature, Match, TeamStats}
use ap2web.Learning.Batches.{IsChronological, batches}
use ap2web.Learning.Engine.{
  Probs, Tally, empty_history, empty_tally, learn_all, min_samples, square, walk,
}
use ap2web.Learning.Past.{IsBefore}
use ap2web.Learning.NoLeak.{predicted_from_past, walk-past, walk-predictions}

pub record Fold (F : Type 0) : Type 0 where
  pub fold : ℕ
  pub train_size : ℕ
  pub test_size : ℕ
  pub accuracy : F
  pub brier : F
  pub correct : ℕ
  pub total : ℕ

pub record CrossValidation (F : Type 0) : Type 0 where
  pub folds : List (Fold F)
  pub mean_accuracy : F
  pub mean_brier : F
  pub std_accuracy : F
  pub std_brier : F
  pub total_matches : ℕ
  pub n_folds : ℕ

-- The number of folds and their size, for at least one fold.
abbrev pub fold_plan : ℕ → ℕ → ℕ × ℕ
fold_plan n len =
    if ltb (len / n) 5 then (let k = max 2 (len / 5) in (k, len / k)) else (n, len / n)

-- `matches[test_start:test_end]`
abbrev pub test_rows : ℕ → ℕ → List Match → List Match
test_rows start size ms = take size (drop start ms)

module _ {F : Type 0} (o : Floats F) (predict : TeamStats F → TeamStats F → Probs F) (window : ℕ)
    (feature : Feature) where
  -- The counters of one fold, whose history starts with the rows before the test.
  unfoldable pub fold_tally : List Match → List Match → Tally F
  unfolding learn_all walk batches
  fold_tally train test =
      walk o predict window feature 0 (length train)
        (learn_all o window feature train empty_history) (batches (length test) test)
        (empty_tally o)

  -- The entry of a fold: none for fewer than three rows or without a prediction.
  unfoldable pub fold_of : ℕ → ℕ → List Match → Option (Fold F)
  unfolding fold_tally
  fold_of i size ms =
      let start = i * size in
      let test = test_rows start size ms in
      let t = fold_tally (take start ms) test in
      if ltb (length test) 3 || t.total == 0
      then none
      else some (record {
        fold = i;
        train_size = start;
        test_size = length test;
        accuracy = o.round (o.mul (o.div (of_nat o t.correct) (of_nat o t.total)) (of_nat o 100)) 2;
        brier = o.round (o.div t.brier_sum (of_nat o t.total)) 4;
        correct = t.correct;
        total = t.total;
      })

  -- `for fold_idx in range(i, i + n)`
  unfoldable pub folds_from : ℕ → ℕ → ℕ → List Match → List (Fold F)
  unfolding fold_of
  folds_from zero i size ms = []
  folds_from (suc n) i size ms =
      let rest = folds_from n (suc i) size ms in
      elim (fold_of i size ms) [ none ↦ rest | some f ↦ f ∷ rest ]

module _ {F : Type 0} (o : Floats F) where
  abbrev mean : List F → F
  unfolding sum_from
  mean xs = o.div (sum o xs) (of_nat o (length xs))

  abbrev deviation : (F → F) → List F → F
  unfolding sum_from
  deviation sqrt xs =
      if ltb 1 (length xs)
      then sqrt (o.div (sum o (map (λ x. square o (o.sub x (mean xs))) xs)) (of_nat o (length xs)))
      else of_nat o 0

  abbrev no_folds : ℕ → CrossValidation F
  no_folds len = record {
    folds = [];
    mean_accuracy = of_nat o 0;
    mean_brier = of_nat o 0;
    std_accuracy = of_nat o 0;
    std_brier = of_nat o 0;
    total_matches = len;
    n_folds = 0;
  }

  abbrev summary : (F → F) → ℕ → List (Fold F) → CrossValidation F
  unfolding sum_from
  summary sqrt len folds =
      let accs = map (λ (f : Fold F). f.accuracy) folds in
      let briers = map (λ (f : Fold F). f.brier) folds in
      record {
        folds = folds;
        mean_accuracy = o.round (mean accs) 2;
        mean_brier = o.round (mean briers) 4;
        std_accuracy = o.round (deviation sqrt accs) 2;
        std_brier = o.round (deviation sqrt briers) 4;
        total_matches = len;
        n_folds = length folds;
      }

  unfoldable pub temporal_cv :
      (F → F)
      → (TeamStats F → TeamStats F → Probs F)
      → ℕ
      → Feature
      → ℕ
      → List Match
      → CrossValidation F
  unfolding folds_from sum_from
  temporal_cv sqrt predict window feature n ms =
      let plan = fold_plan n (length ms) in
      let folds = folds_from o predict window feature (plan.0 - 1) 1 plan.1 ms in
      if ltb (length ms) min_samples || is_empty folds
      then no_folds (length ms)
      else summary sqrt (length ms) folds

IsChronological-drop : (n : ℕ) (ms : List Match) → IsChronological ms → IsChronological (drop n ms)
IsChronological-drop zero ms c = c
IsChronological-drop (suc n) [] c = tt
IsChronological-drop (suc n) (m ∷ ms) c = IsChronological-drop n ms c.1

All-take {κ} : (P : Match → Type κ) (n : ℕ) (ms : List Match) → All P ms → All P (take n ms)
All-take P zero ms a = tt
All-take P (suc n) [] a = tt
All-take P (suc n) (m ∷ ms) a = (a.0, All-take P n ms a.1)

IsChronological-take : (n : ℕ) (ms : List Match) → IsChronological ms → IsChronological (take n ms)
IsChronological-take zero ms c = tt
IsChronological-take (suc n) [] c = tt
IsChronological-take (suc n) (m ∷ ms) c =
    (All-take (λ x. m.kickoff ≤ x.kickoff) n ms c.0, IsChronological-take n ms c.1)

-- A fold whose first test row starts later than all of its training rows does not look ahead: each of
-- its test rows that can be predicted is predicted from the training rows and the test rows with an
-- earlier kickoff, and no other row is.
pub fold_tally-predicted_from_past :
    {F : Type 0} (o : Floats F) (predict : TeamStats F → TeamStats F → Probs F) (window : ℕ)
    (feature : Feature) (start size : ℕ) (ms : List Match)
    → IsChronological ms
    → IsBefore (take start ms) (test_rows start size ms)
    → (fold_tally o predict window feature (take start ms) (test_rows start size ms)).predictions
      ≡ predicted_from_past o predict window feature 0
          (take start ms ++ test_rows start size ms)
          (length (take start ms))
          (test_rows start size ms)
unfolding fold_tally learn_all
fold_tally-predicted_from_past o predict window feature start size ms c before =
    walk-predictions o predict window feature 0 (length (take start ms))
      (learn_all o window feature (take start ms) empty_history)
      (batches (length (test_rows start size ms)) (test_rows start size ms)) (empty_tally o)
    ∙ walk-past o predict window feature 0 (length (test_rows start size ms))
        (take start ms ++ test_rows start size ms) (take start ms) (test_rows start size ms) refl
        (IsChronological-take size (drop start ms) (IsChronological-drop start ms c)) before
        (omega arith)
