-- ===== src/Learning/Tests.antt =====
-- A small season.
use ap2web.Learning.Features.{
  Match, TeamStats, cached_team_stats, compute_match_stats, compute_team_stats, goals, select_goals,
}
use ap2web.Learning.Batches.{AreBatches, batches, batches-AreBatches, joined, split_batch}
use ap2web.Learning.Engine.{
  Probs, Report, backtest_completed_matches, brier_term, chronological, every, forecast, learn,
  learn_all, most_likely, report, sample, score, score_batch, score_one, tally, walk,
}
use ap2web.Learning.NoLeak.{predicted_from_past}
use ap2web.Learning.Scores.{Reports, backtest_completed_matches-Reports}
use ap2web.Learning.Calibration.{
  Candidate, LeagueModel, calibrate_league, league_run, parameter_grid,
}
use ap2web.Learning.Selection.{IsFrom, IsUnbeaten, eligible}
use ap2web.Learning.Stored.{Stores, calibrate_league-cases, of_league}
use ap2web.Prelude.{
  All, List, [], arith, false, first, insert_sorted, none, refl, some, sort_by, suc, zero, ℕ, ◌∷◌,
  ◌≡◌, ◌⊎◌,
}
use ap2web.Floats.{sum_from, whole}

abbrev game : ℕ → ℕ → ℕ → ℕ → Match
game mid kickoff home_team away_team = record {
  id = mid;
  kickoff = kickoff;
  home_team_id = home_team;
  away_team_id = away_team;
  score_home = 2;
  score_away = 1;
  xg_home = none;
  xg_away = none;
}

abbrev season : List Match
season = game 1 10 1 2 ∷ game 2 10 3 4 ∷ game 3 20 2 1 ∷ []

abbrev by_average : TeamStats ℕ → TeamStats ℕ → Probs ℕ
by_average h a = record { p1 = h.gf_avg; px = 0; p2 = a.gf_avg }

scored :
    (r : Report ℕ) × (backtest_completed_matches whole by_average 10 goals 0 season ≡ some r)
    × (r.total ≡ 1)
unfolding backtest_completed_matches tally chronological sort_by insert_sorted batches split_batch
    walk score_batch score_one forecast cached_team_stats compute_team_stats learn_all learn
    compute_match_stats select_goals score most_likely brier_term sum_from report sample every
scored = (_, refl, refl)

backtest_completed_matches-Reports_example :
    let sorted = chronological season in
    (r : Report ℕ) × (backtest_completed_matches whole by_average 10 goals 0 season ≡ some r)
    × Reports whole r (predicted_from_past whole by_average 10 goals 0 sorted 0 sorted)
backtest_completed_matches-Reports_example =
    backtest_completed_matches-Reports whole by_average 10 goals 0 season (omega arith)

batches-AreBatches_example : (joined (batches 3 season) ≡ season) × AreBatches (batches 3 season)
batches-AreBatches_example =
    batches-AreBatches 3 season (omega arith)
      ((omega arith, (omega arith, tt)), ((omega arith, tt), (tt, tt)))

-- A league of two teams that play each other again and again.
abbrev repeated : ℕ → List Match
repeated zero = []
repeated (suc n) = game (suc n) (suc n) 1 2 ∷ repeated n

abbrev games : ℕ → List Match
games league = repeated 30

abbrev by_averages : ℕ → ℕ → TeamStats ℕ → TeamStats ℕ → Probs ℕ
by_averages ha rho h a = by_average h a

calibrate_league-cases_example :
    ((calibrate_league whole by_averages games 7 1 [] ≡ (none, []))
      × All
          (λ p. eligible whole (league_run whole by_averages games 1 p) ≡ false)
          (parameter_grid whole))
    ⊎ ((c : Candidate ℕ) × (r : LeagueModel ℕ) × ((calibrate_league whole by_averages games 7 1
            []).0
          ≡ some c)
        × (first (of_league 1) (calibrate_league whole by_averages games 7 1 []).1 ≡ some r)
        × Stores r c
        × IsFrom whole (league_run whole by_averages games 1) none (parameter_grid whole) c
        × IsUnbeaten whole (league_run whole by_averages games 1) (parameter_grid whole) c.result)
calibrate_league-cases_example =
    calibrate_league-cases whole (λ n. n) (λ a b. (refl, refl)) by_averages games 7 1 []
