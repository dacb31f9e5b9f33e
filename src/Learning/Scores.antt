-- ===== src/Learning/Scores.antt =====
-- The counts of a backtest of backend/app/learning/walkforward.py, and its whole result.
use ap2web.Learning.Features.{Feature, Match, TeamStats}
use ap2web.Learning.Batches.{batches}
use ap2web.Learning.Engine.{
  History, Prediction, Probs, Report, Tally, backtest_completed_matches, chronological,
  empty_history, empty_tally, forecast, learn_all, most_likely, outcome_of, report, same_outcome,
  score, score_batch, score_one, tally, walk,
}
use ap2web.Learning.NoLeak.{predicted_from_past, tally-predicted_from_past}
use ap2web.Prelude.{
  Bool, Bool-cases, List, Option-cases, [], arith, count-append, count_where, false, inl, inr,
  length, length-append, ltb, refl, some, subst, suc, true, ℕ, ◌+◌, ◌==◌, ◌∷◌, ◌≡◌, ◌≤◌,
}
use ap2web.Floats.{Floats}

module _ {F : Type 0} (o : Floats F) where
  abbrev pub is_hit : Prediction F → Bool
  is_hit p = same_outcome (most_likely o p.probabilities) p.actual

  -- The counters agree with the predictions.
  abbrev pub IsCounted : Tally F → Type 0
  IsCounted t = (t.total ≡ length t.predictions) × (t.correct ≡ count_where is_hit t.predictions)

  score-IsCounted :
      (m : Match) (p : Probs F) (t : Tally F) → IsCounted t → IsCounted (score o m p t)
  unfolding score
  score-IsCounted m p t (n, k) = (
    omega (arith, n, length-append t.predictions (row ∷ [])),
    elim (Bool-cases (is_hit row)) [
      | inl e ↦ rw e (omega (arith, k, count-append is_hit t.predictions (row ∷ []), one e))
      | inr e ↦ rw e (omega (arith, k, count-append is_hit t.predictions (row ∷ []), zero_of e))
    ],
  )
    where
      row : Prediction F
      row = record { match_id = m.id; actual = outcome_of m; probabilities = p }

      one : is_hit row ≡ true → count_where is_hit (row ∷ []) ≡ 1
      one e = rw e refl

      zero_of : is_hit row ≡ false → count_where is_hit (row ∷ []) ≡ 0
      zero_of e = rw e refl

  module _ (predict : TeamStats F → TeamStats F → Probs F) (window : ℕ) (feature : Feature)
      (evaluation_start : ℕ) where
    score_one-IsCounted :
        (index : ℕ) (h : History F) (m : Match) (t : Tally F)
        → IsCounted t
        → IsCounted (score_one o predict window feature evaluation_start index h m t)
    unfolding score_one
    score_one-IsCounted index h m t c = elim (Bool-cases (ltb index evaluation_start)) [
      | inl e ↦ rw e c
      | inr e ↦ elim (Option-cases (forecast o predict window h m)) [
        | inl f ↦ rw (e, f) c
        | inr (p, f) ↦ rw (e, f) (score-IsCounted m p t c)
      ]
    ]

    score_batch-IsCounted :
        (index : ℕ) (h : History F) (b : List Match) (t : Tally F)
        → IsCounted t
        → IsCounted (score_batch o predict window feature evaluation_start index h b t)
    unfolding score_batch
    score_batch-IsCounted index h [] t c = c
    score_batch-IsCounted index h (m ∷ b) t c =
        score_batch-IsCounted (suc index) h b
          (score_one o predict window feature evaluation_start index h m t)
          (score_one-IsCounted index h m t c)

    walk-IsCounted :
        (index : ℕ) (h : History F) (bs : List (List Match)) (t : Tally F)
        → IsCounted t
        → IsCounted (walk o predict window feature evaluation_start index h bs t)
    unfolding walk
    walk-IsCounted index h [] t c = c
    walk-IsCounted index h (b ∷ bs) t c =
        walk-IsCounted (index + length b) (learn_all o window feature b h) bs
          (score_batch o predict window feature evaluation_start index h b t)
          (score_batch-IsCounted index h b t c)

    tally-IsCounted :
        (ms : List Match) → IsCounted (tally o predict window feature evaluation_start ms)
    unfolding tally
    tally-IsCounted ms =
        walk-IsCounted 0 empty_history (batches (length (chronological ms)) (chronological ms))
          (empty_tally o) (refl, refl)

  empty_of_length : (ps : List (Prediction F)) → length ps ≡ 0 → ps ≡ []
  empty_of_length [] h = refl
  empty_of_length (p ∷ ps) h = absurd (omega (arith, h))

  -- What a report says of the predictions.
  abbrev pub Reports : Report F → List (Prediction F) → Type 0
  Reports r ps = (r.predictions ≡ ps) × (r.total ≡ length ps) × (r.correct ≡ count_where is_hit ps)

  report-Reports : (t : Tally F) → IsCounted t → Reports (report o t) t.predictions
  unfolding report
  report-Reports t (n, k) = elim (Bool-cases (t.total == 0)) [
    | inr e ↦ rw e (refl, n, k)
    | inl e ↦
        let none_made = empty_of_length t.predictions (ground (arith, n, e)) in
        rw e (rw none_made (refl, refl, refl))
  ]

  -- A backtest does not look ahead: unless the start of the evaluation lies beyond the rows, the
  -- result is there; its predictions are those of the independent description, in which each fixture
  -- is predicted from the rows with an earlier kickoff alone; and `total` and `correct` count them and
  -- the ones whose likeliest outcome came true.
  pub backtest_completed_matches-Reports :
      (predict : TeamStats F → TeamStats F → Probs F) (window : ℕ) (feature : Feature)
      (evaluation_start : ℕ) (ms : List Match)
      → evaluation_start ≤ length ms
      → let sorted = chronological ms in
        (r : Report F) × (backtest_completed_matches o predict window feature evaluation_start ms
          ≡ some r)
        × Reports r (predicted_from_past o predict window feature evaluation_start sorted 0 sorted)
  unfolding backtest_completed_matches
  backtest_completed_matches-Reports predict window feature evaluation_start ms h = (
    report o t,
    rw in_range refl,
    subst (Reports (report o t))
        (tally-predicted_from_past o predict window feature evaluation_start ms)
        (report-Reports t (tally-IsCounted predict window feature evaluation_start ms)),
  )
    where
      t : Tally F
      t = tally o predict window feature evaluation_start ms

      in_range : ltb (length ms) evaluation_start ≡ false
      in_range = ground arith
