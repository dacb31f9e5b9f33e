-- ===== src/Backtest/Tests.antt =====
-- Concrete runs of the models of backend/app/backtest/meta.py, in hundredths, and of
-- backend/app/backtest/temporal.py, in whole numbers.
use ap2web.Backtest.Meta.{Entry, GridFloats, suggest}
use ap2web.Backtest.Bounds.{HasNewKeys, suggest-HasNewKeys}
use ap2web.Backtest.Folds.{fold_tally, fold_tally-predicted_from_past, test_rows}
use ap2web.Prelude.{
  List, [], arith, codes, length, ltb, none, refl, suc, take, zero, ℕ, ◌++◌, ◌+◌, ◌-◌, ◌==◌, ◌∷◌,
  ◌≡◌, ◌≤◌,
}
use ap2web.Floats.{sum_from, whole}
use ap2web.Learning.Features.{
  Match, TeamStats, cached_team_stats, compute_match_stats, goals, select_goals,
}
use ap2web.Learning.Batches.{IsChronological, batches, split_batch}
use ap2web.Learning.Engine.{
  Probs, brier_term, forecast, learn, learn_all, most_likely, score, score_batch, score_one, walk,
}
use ap2web.Learning.NoLeak.{predicted_from_past}

abbrev hundredths : GridFloats ℕ
hundredths = record {
  lt = ltb;
  eq = λ a b. a == b;
  up = λ a. a + 3;
  down = λ a. a - 3;
  home_advantages = 105 ∷ 110 ∷ [];
  rhos = 0 ∷ 5 ∷ [];
}

abbrev run_at : ℕ → Entry ℕ
run_at b = record {
  league_id = 1;
  params = record { feature = codes "xg"; window = 10; home_advantage = 115; rho = 0 };
  accuracy = 50;
  brier = b;
  cv_mean_brier = none;
  timestamp = codes "t";
}

suggest-HasNewKeys_example :
    (length (suggest hundredths 1 (run_at 60 ∷ run_at 61 ∷ [])) ≤ 20)
    × HasNewKeys hundredths [] (suggest hundredths 1 (run_at 60 ∷ run_at 61 ∷ []))
suggest-HasNewKeys_example = suggest-HasNewKeys hundredths 1 (run_at 60) (run_at 61 ∷ [])

-- Six games, one after the other.
abbrev games_from : ℕ → ℕ → List Match
games_from n zero = []
games_from n (suc k) =
    record {
      id = n;
      kickoff = n;
      home_team_id = 1;
      away_team_id = 2;
      score_home = 2;
      score_away = 1;
      xg_home = none;
      xg_away = none;
    }
    ∷ games_from (suc n) k

abbrev six : List Match
six = games_from 1 6

abbrev by_home : TeamStats ℕ → TeamStats ℕ → Probs ℕ
by_home h a = record { p1 = 1; px = 0; p2 = 0 }

three_tested : (fold_tally whole by_home 10 goals (take 3 six) (test_rows 3 3 six)).total ≡ 3
unfolding fold_tally learn_all learn compute_match_stats select_goals walk batches split_batch
    score_batch score_one forecast cached_team_stats score most_likely brier_term sum_from
three_tested = refl

in_order : IsChronological six
in_order = (
  (omega arith, (omega arith, (omega arith, (omega arith, (omega arith, tt))))),
  (
    (omega arith, (omega arith, (omega arith, (omega arith, tt)))),
    (
      (omega arith, (omega arith, (omega arith, tt))),
      ((omega arith, (omega arith, tt)), ((omega arith, tt), (tt, tt))),
    ),
  ),
)

fold_tally-predicted_from_past_example :
    (fold_tally whole by_home 10 goals (take 3 six) (test_rows 3 3 six)).predictions
    ≡ predicted_from_past whole by_home 10 goals 0
        (take 3 six ++ test_rows 3 3 six)
        3
        (test_rows 3 3 six)
fold_tally-predicted_from_past_example =
    fold_tally-predicted_from_past whole by_home 10 goals 3 3 six in_order
      (omega arith, (omega arith, (omega arith, tt)))
