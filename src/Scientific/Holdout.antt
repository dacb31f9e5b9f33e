-- ===== src/Scientific/Holdout.antt =====
-- What an evaluation of backend/app/scientific/protocol.py is made of.
use ap2web.Scientific.Split.{Split}
use ap2web.Scientific.Protocol.{both_scored, evaluate, evaluated}
use ap2web.Prelude.{
  List, [], ap, arith, false, length, length-append, ltb, refl, some, subst, suc, true, ℕ, ◌++◌,
  ◌+◌, ◌∙◌, ◌∷◌, ◌≡◌, ◌≤◌,
}
use ap2web.Floats.{Floats}
use ap2web.Learning.Features.{Feature, Match, TeamStats}
use ap2web.Learning.Engine.{Prediction, Probs, Report, backtest_completed_matches}
use ap2web.Learning.Order.{IsOrdered, chronological_ordered, front-IsOrdered}
use ap2web.Learning.Past.{earlier, history_of}
use ap2web.Learning.NoLeak.{predicted_from_past, recorded}
use ap2web.Learning.Scores.{Reports, backtest_completed_matches-Reports}

module _ {F : Type 0} (o : Floats F) (predict : TeamStats F → TeamStats F → Probs F) (window : ℕ)
    (feature : Feature) where
  -- The predictions of rows, each from the rows of `ms` with an earlier kickoff.
  abbrev pub from_past : List Match → List Match → List (Prediction F)
  from_past ms [] = []
  from_past ms (m ∷ rest) =
      recorded o predict window feature 0 (history_of o window feature (earlier m.kickoff ms)) m
      ++ from_past ms rest

  scored_behind :
      (start index : ℕ) (ms rest : List Match)
      → start ≤ index
      → predicted_from_past o predict window feature start ms index rest ≡ from_past ms rest
  scored_behind start index ms [] h = refl
  scored_behind start index ms (m ∷ rest) h = rw late (
      ap
        (λ xs.
          recorded o predict window feature 0 (history_of o window feature (earlier m.kickoff ms)) m
          ++ xs)
        (scored_behind start (suc index) ms rest (omega (arith, h))))
    where
      late : ltb index start ≡ false
      late = ground (arith, h)

  scored_from :
      (start index : ℕ) (ms done rest : List Match)
      → index + length done ≡ start
      → predicted_from_past o predict window feature start ms index (done ++ rest)
        ≡ from_past ms rest
  scored_from start index ms [] rest h = scored_behind start index ms rest (omega (arith, h))
  scored_from start index ms (m ∷ done) rest h =
      rw early (scored_from start (suc index) ms done rest (omega (arith, h)))
    where
      early : ltb index start ≡ true
      early = ground (arith, h)

  -- A backtest of ordered rows that scores them from a position on.
  backtest_behind :
      (done rest : List Match)
      → IsOrdered (done ++ rest)
      → (r : Report F) × (backtest_completed_matches o predict window feature
            (length done)
            (done ++ rest)
          ≡ some r)
        × Reports o r (from_past (done ++ rest) rest)
  backtest_behind done rest s =
      let (r, e, p) =
        backtest_completed_matches-Reports o predict window feature (length done) (done ++ rest)
          (omega (arith, length-append done rest)) in
      (
        r,
        e,
        subst (Reports o r)
            (ap (λ xs. predicted_from_past o predict window feature (length done) xs 0 xs)
                (chronological_ordered (done ++ rest) s)
              ∙ scored_from (length done) 0 (done ++ rest) done rest (omega arith))
            p,
      )

  -- What is reported of a split: the development is predicted from itself alone, and the holdout, each
  -- of whose rows is scored that can be predicted and no other, from the rows before the kickoff.
  abbrev pub AreEvaluations : Split → Report F → Report F → Type 0
  AreEvaluations s d h =
      Reports o d (from_past s.development s.development)
      × Reports o h (from_past (s.development ++ s.holdout) s.holdout)

  pub evaluate-AreEvaluations :
      (s : Split)
      → IsOrdered (s.development ++ s.holdout)
      → (d : Report F) × (h : Report F) × (evaluate o predict window feature s
          ≡ evaluated (both_scored o d h) s d h)
        × AreEvaluations s d h
  unfolding evaluate
  evaluate-AreEvaluations s ordered =
      let (d, e, p) =
        backtest_behind [] s.development (front-IsOrdered s.development s.holdout ordered) in
      let (h, f, q) = backtest_behind s.development s.holdout ordered in
      (d, h, rw (e, f, evaluate) refl, (p, q))
