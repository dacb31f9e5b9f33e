-- ===== src/Learning/Engine.antt =====
-- `backtest_completed_matches` of backend/app/learning/walkforward.py. The prediction of one fixture
-- from the averages of its two teams (`_predict_probs`) is an argument.
use ap2web.Learning.Features.{
  Feature, Match, Stats, TeamStats, cached_team_stats, compute_match_stats,
}
use ap2web.Learning.Batches.{batches}
use ap2web.Prelude.{
  Bool, List, Option, [], false, if◌then◌else◌, is_empty, length, ltb, max, none, pair_smaller,
  some, sort_by, suc, take, true, ℕ, ◌%◌, ◌++◌, ◌+◌, ◌/◌, ◌==◌, ◌||◌, ◌∷◌,
}
use ap2web.Floats.{Floats, larger, of_nat, sum, sum_from}

pub data Outcome : Type 0 where
  home draw away : Outcome

-- The probabilities of the outcomes, in the order of the source's dicts: "1", "X", "2".
pub record Probs (F : Type 0) : Type 0 where
  pub p1 : F
  pub px : F
  pub p2 : F

pub record Prediction (F : Type 0) : Type 0 where
  pub match_id : ℕ
  pub actual : Outcome
  pub probabilities : Probs F

-- The recent entries of each team, newest first. A team that has no deque has no entries.
abbrev pub History : Type 0 → Type 0
History F = ℕ → List (Stats F)

abbrev pub outcome_of : Match → Outcome
outcome_of m =
    if ltb m.score_away m.score_home
    then home
    else if m.score_home == m.score_away
    then draw
    else away

abbrev pub prob_of : {F : Type 0} → Probs F → Outcome → F
prob_of p home = p.p1
prob_of p draw = p.px
prob_of p away = p.p2

abbrev pub same_outcome : Outcome → Outcome → Bool
same_outcome home home = true
same_outcome home draw = false
same_outcome home away = false
same_outcome draw home = false
same_outcome draw draw = true
same_outcome draw away = false
same_outcome away home = false
same_outcome away draw = false
same_outcome away away = true

-- The accumulators of the loop.
pub record Tally (F : Type 0) : Type 0 where
  pub correct : ℕ
  pub brier_sum : F
  pub logloss_sum : F
  pub total : ℕ
  pub series : List (ℕ × F)
  pub predictions : List (Prediction F)

pub record Report (F : Type 0) : Type 0 where
  pub accuracy : F
  pub brier : F
  pub logloss : F
  pub correct : ℕ
  pub total : ℕ
  pub series : List (ℕ × F)
  pub predictions : List (Prediction F)

abbrev pub empty_history : {F : Type 0} → History F
empty_history team = []

-- `MIN_SAMPLES`
abbrev pub min_samples : ℕ
min_samples = 20

-- The order of the rows: by kickoff and id.
unfoldable pub chronological : List Match → List Match
unfolding sort_by
chronological ms = sort_by (pair_smaller (λ m. m.kickoff) (λ m. m.id)) ms

module _ {F : Type 0} (o : Floats F) where
  abbrev pub square : F → F
  square x = o.mul x x

  -- `max(p, key=p.get)`: the first of the largest.
  unfoldable pub most_likely : Probs F → Outcome
  most_likely p =
      let best : Outcome × F = if o.lt p.p1 p.px then (draw, p.px) else (home, p.p1) in
      if o.lt best.1 p.p2 then away else best.0

  -- `(1 - p[actual]) ** 2 + sum(p[k] ** 2 for k in p if k != actual)`
  unfoldable pub brier_term : Probs F → Outcome → F
  unfolding sum_from
  brier_term p home =
      o.add (square (o.sub (of_nat o 1) p.p1)) (sum o (square p.px ∷ square p.p2 ∷ []))
  brier_term p draw =
      o.add (square (o.sub (of_nat o 1) p.px)) (sum o (square p.p1 ∷ square p.p2 ∷ []))
  brier_term p away =
      o.add (square (o.sub (of_nat o 1) p.p2)) (sum o (square p.p1 ∷ square p.px ∷ []))

  -- `-math.log(max(p[actual], 1e-10))`
  abbrev pub logloss_term : Probs F → Outcome → F
  logloss_term p k = o.sub (of_nat o 0) (o.log (larger o (prob_of p k) (o.decimal 1 10)))

  -- One more prediction.
  unfoldable pub score : Match → Probs F → Tally F → Tally F
  unfolding most_likely brier_term
  score m p t =
      let actual = outcome_of m in
      let hits = if same_outcome (most_likely p) actual then suc t.correct else t.correct in
      let n = suc t.total in
      record {
        correct = hits;
        brier_sum = o.add t.brier_sum (brier_term p actual);
        logloss_sum = o.add t.logloss_sum (logloss_term p actual);
        total = n;
        series = t.series ++ ((n, o.mul (o.div (of_nat o hits) (of_nat o n)) (of_nat o 100)) ∷ []);
        predictions =
            t.predictions ++ (record { match_id = m.id; actual = actual; probabilities = p } ∷ []);
      }

  -- `hist.setdefault(team, deque(maxlen=window)).appendleft(entry)`
  abbrev pub push : ℕ → ℕ → Stats F → History F → History F
  push window team entry h t = if t == team then take window (entry ∷ h t) else h t

  -- The entries of a match, which come into the history of its two teams.
  abbrev pub entry_home : Feature → Match → Stats F
  entry_home feature m =
      let gm = compute_match_stats o feature m in
      record { gf = gm.gf; ga = gm.ga; xg_for = none; xg_against = none }

  abbrev pub entry_away : Feature → Match → Stats F
  entry_away feature m =
      let gm = compute_match_stats o feature m in
      record { gf = gm.ga; ga = gm.gf; xg_for = none; xg_against = none }

  unfoldable pub learn : ℕ → Feature → Match → History F → History F
  unfolding compute_match_stats
  learn window feature m h =
      push window m.away_team_id (entry_away feature m)
        (push window m.home_team_id (entry_home feature m) h)

  unfoldable pub learn_all : ℕ → Feature → List Match → History F → History F
  unfolding learn
  learn_all window feature [] h = h
  learn_all window feature (m ∷ ms) h = learn_all window feature ms (learn window feature m h)

  -- The prediction for a fixture: none for a team without a history.
  unfoldable pub forecast :
      (TeamStats F → TeamStats F → Probs F) → ℕ → History F → Match → Option (Probs F)
  unfolding cached_team_stats
  forecast predict window h m =
      let hh = h m.home_team_id in
      let ah = h m.away_team_id in
      if is_empty hh || is_empty ah
      then none
      else some (predict (cached_team_stats o hh window) (cached_team_stats o ah window))

  abbrev pub empty_tally : Tally F
  empty_tally = record {
    correct = 0;
    brier_sum = of_nat o 0;
    logloss_sum = of_nat o 0;
    total = 0;
    series = [];
    predictions = [];
  }

  module _ (predict : TeamStats F → TeamStats F → Probs F) (window : ℕ) (feature : Feature)
      (evaluation_start : ℕ) where
    -- The fixture at `index`, if it is to be scored and can be predicted.
    unfoldable pub score_one : ℕ → History F → Match → Tally F → Tally F
    unfolding forecast score
    score_one index h m t =
        if ltb index evaluation_start
        then t
        else elim (forecast predict window h m) [ none ↦ t | some p ↦ score m p t ]

    -- The fixtures of one batch, the first of which stands at `index`.
    unfoldable pub score_batch : ℕ → History F → List Match → Tally F → Tally F
    unfolding score_one
    score_batch index h [] t = t
    score_batch index h (m ∷ ms) t = score_batch (suc index) h ms (score_one index h m t)

    -- The loop over the batches.
    unfoldable pub walk : ℕ → History F → List (List Match) → Tally F → Tally F
    unfolding score_batch learn_all
    walk index h [] t = t
    walk index h (b ∷ bs) t =
        walk (index + length b) (learn_all window feature b h) bs (score_batch index h b t)

    unfoldable pub tally : List Match → Tally F
    unfolding chronological batches walk
    tally ms =
        let sorted = chronological ms in
        walk 0 empty_history (batches (length sorted) sorted) empty_tally

  -- The sample of the learning curve: each `step`-th point, and the last one.
  unfoldable pub every : ℕ → ℕ → List (ℕ × F) → List (ℕ × F)
  every step i [] = []
  every step i ((n, acc) ∷ ps) =
      let rest = every step (suc i) ps in if i % step == 0 then (n, o.round acc 1) ∷ rest else rest

  abbrev pub last_point : List (ℕ × F) → Option (ℕ × F)
  last_point [] = none
  last_point (p ∷ []) = some p
  last_point (p ∷ q ∷ ps) = last_point (q ∷ ps)

  unfoldable pub sample : List (ℕ × F) → List (ℕ × F)
  unfolding every
  sample series =
      let sampled = every (max 1 (length series / 60)) 0 series in
      elim (last_point sampled) [
        | none ↦ sampled
        | some (n, a) ↦ elim (last_point series) [
          | none ↦ sampled
          | some (k, acc) ↦ if n == k then sampled else sampled ++ ((k, o.round acc 1) ∷ [])
        ]
      ]

  abbrev pub nothing_scored : Report F
  nothing_scored = record {
    accuracy = of_nat o 0;
    brier = of_nat o 0;
    logloss = of_nat o 0;
    correct = 0;
    total = 0;
    series = [];
    predictions = [];
  }

  unfoldable pub report : Tally F → Report F
  unfolding sample
  report t = if t.total == 0 then nothing_scored else record {
    accuracy = o.round (o.mul (o.div (of_nat o t.correct) (of_nat o t.total)) (of_nat o 100)) 2;
    brier = o.round (o.div t.brier_sum (of_nat o t.total)) 4;
    logloss = o.round (o.div t.logloss_sum (of_nat o t.total)) 4;
    correct = t.correct;
    total = t.total;
    series = sample t.series;
    predictions = t.predictions;
  }

  -- `backtest_completed_matches`; `none` is the ValueError of a start beyond the rows.
  unfoldable pub backtest_completed_matches :
      (TeamStats F → TeamStats F → Probs F) → ℕ → Feature → ℕ → List Match → Option (Report F)
  unfolding tally report
  backtest_completed_matches predict window feature evaluation_start ms =
      if ltb (length ms) evaluation_start
      then none
      else some (report (tally predict window feature evaluation_start ms))

  -- `backtest_league`, on the rows of its query.
  unfoldable pub backtest_league :
      (TeamStats F → TeamStats F → Probs F) → ℕ → Feature → List Match → Option (Report F)
  unfolding backtest_completed_matches
  backtest_league predict window feature ms =
      if ltb (length ms) min_samples
      then some (record nothing_scored { total = length ms })
      else backtest_completed_matches predict window feature 0 ms
