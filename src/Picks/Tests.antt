-- ===== src/Picks/Tests.antt =====
-- A small run of saved predictions.
use ap2web.Picks.Rules.{
  behind, digits_half, half_line, half_line_behind, hit_1x2, hit_of_pick, result_of_pick_v2,
  valid_pick, verdict,
}
use ap2web.Picks.Store.{
  Db, Draft, MatchRow, Pick, Provenance, SaveError, Team, check_draft, future_kickoff, joined_match,
  owned, pick_of, save_prediction, with_offset,
}
use ap2web.Picks.Resolve.{
  PickStats, judge, mine_pending, of_match, resolve_each, resolve_match_id, resolve_predictions,
  resolve_predictions_for_match, score_by, score_of, stats,
}
use ap2web.Picks.Settled.{settle_by, verdict_of}
use ap2web.Picks.Finished.{verdict_at}
use ap2web.Picks.Resolved.{resolve_predictions-resolve_predictions, resolve_predictions_lem}
use ap2web.Picks.ByMatch.{resolve_predictions_for_match_lem}
use ap2web.Picks.Accepted.{valid_pick-result_of_pick_v2}
use ap2web.Picks.Saves.{IsAccepted, save_prediction-cases}
use ap2web.Picks.Runs.{IsSound, Run, Run-IsSound, saved, started}
use ap2web.Picks.Counts.{stats-Run}
use ap2web.Prelude.{
  Bool, List, Option, Text, [], codes, count_where, err, is_some, member, none, ok, refl, some,
  text_eq, update_where, ℕ, ◌&&◌, ◌++◌, ◌+◌, ◌∷◌, ◌≡◌, ◌⊎◌,
}
use ap2web.Floats.{whole}

abbrev match_row : ℕ → Text → Option ℕ → MatchRow
match_row mid status goals = record {
  id = mid;
  league_id = 1;
  home_team_id = some 1;
  away_team_id = some 2;
  kickoff_datetime = some (codes "2026-01-01T00:00:00Z");
  status = some status;
  score_home = goals;
  score_away = some 1;
}

abbrev teams : List Team
teams = record { id = 1; name = codes "A" } ∷ record { id = 2; name = codes "B" } ∷ []

abbrev scheduled_rows : List MatchRow
scheduled_rows = match_row 7 (codes "scheduled") none ∷ []

abbrev played_rows : List MatchRow
played_rows = match_row 7 (codes "played") (some 2) ∷ []

abbrev draft : Draft ℕ
draft = record {
  league_id = 1;
  match_id = 7;
  home_team_id = 1;
  away_team_id = 2;
  pick_type = codes "1X2";
  pick_value = codes "1";
  pick_label = [];
  prob = 1;
  odd = 2;
  payload = [];
}

abbrev from_iso : Text → Option ℕ
from_iso t = some 100

abbrev isoformat : ℕ → Text
isoformat n = codes "now"

abbrev engine : ℕ → Option Provenance
engine mid = none

abbrev at_start : Db ℕ
at_start = record { matches = scheduled_rows; teams = teams; picks = []; next_pick = 1 }

abbrev row_of_draft : Pick ℕ
unfolding pick_of
row_of_draft =
    pick_of isoformat engine 1 5 10 draft
      (record {
        row = match_row 7 (codes "scheduled") none;
        home_team = record { id = 1; name = codes "A" };
        away_team = record { id = 2; name = codes "B" };
      })
      (codes "2026-01-01T00:00:00Z")

abbrev at_end : Db ℕ
unfolding row_of_draft
at_end = record { matches = played_rows; teams = teams; picks = row_of_draft ∷ []; next_pick = 2 }

ran :
    Run whole from_iso isoformat engine
      (save_prediction from_iso isoformat engine 5 10 draft at_start).1
ran = saved 5 10 draft (started scheduled_rows teams)

saved_row : (save_prediction from_iso isoformat engine 5 10 draft at_start).0 ≡ ok row_of_draft
unfolding save_prediction check_draft valid_pick joined_match future_kickoff with_offset pick_of
    text_eq member half_line_behind behind row_of_draft
saved_row = refl

resolved_pick : (resolve_predictions whole 5 200 at_end).0 ≡ 1
unfolding resolve_predictions resolve_each judge score_of score_by resolve_match_id
    result_of_pick_v2 hit_of_pick hit_1x2 text_eq at_end row_of_draft pick_of
resolved_pick = refl

resolve_predictions_lem_example : resolve_predictions whole 5 200 at_end ≡ (
  count_where (λ p. mine_pending 5 p && is_some (verdict_of whole at_end.matches p)) at_end.picks,
  record at_end {
    picks =
        update_where
          (mine_pending 5)
          (λ p. settle_by 200 (verdict_of whole at_end.matches p) p)
          at_end.picks;
  },
)
unfolding at_end
resolve_predictions_lem_example = resolve_predictions_lem whole 5 200 at_end (tt, tt)

resolve_predictions-resolve_predictions_example :
    resolve_predictions whole 5 300 (resolve_predictions whole 5 200 at_end).1
    ≡ (0, (resolve_predictions whole 5 200 at_end).1)
unfolding at_end
resolve_predictions-resolve_predictions_example =
    resolve_predictions-resolve_predictions whole 5 200 300 at_end (tt, tt)

resolve_predictions_for_match_lem_example :
    ((resolve_match_id 7 at_end.matches ≡ none)
      × (resolve_predictions_for_match whole 7 200 at_end ≡ (0, at_end)))
    ⊎ ((score : Option ℕ × Option ℕ) × (resolve_match_id 7 at_end.matches ≡ some score)
        × (resolve_predictions_for_match whole 7 200 at_end ≡ (
          count_where (λ p. of_match 7 p && is_some (verdict_at whole score p)) at_end.picks,
          record at_end {
            picks =
                update_where
                  (of_match 7)
                  (λ p. settle_by 200 (verdict_at whole score p) p)
                  at_end.picks;
          },
        )))
unfolding at_end
resolve_predictions_for_match_lem_example =
    resolve_predictions_for_match_lem whole 7 200 at_end (tt, tt)

valid_pick-result_of_pick_v2_example :
    (hit : Bool) × (hit_of_pick (codes "GOLS") (codes "over_2.5") 2 1 ≡ some hit)
    × (result_of_pick_v2 whole (codes "GOLS") (codes "over_2.5") (some 2) (some 1) 1
        ≡ some (verdict whole 1 hit))
unfolding valid_pick text_eq member half_line_behind behind half_line digits_half
valid_pick-result_of_pick_v2_example =
    valid_pick-result_of_pick_v2 whole (codes "GOLS") (codes "over_2.5") 2 1 1 refl

save_prediction-cases_example :
    ((e : SaveError) × (save_prediction from_iso isoformat engine 5 10 draft at_start
        ≡ (err e, at_start)))
    ⊎ ((row : Pick ℕ) × (save_prediction from_iso isoformat engine 5 10 draft at_start
          ≡ (ok row, record at_start { picks = at_start.picks ++ (row ∷ []); next_pick = 2 }))
        × (row.id ≡ 1)
        × (row.user_id ≡ 5)
        × IsAccepted from_iso 10 draft at_start row)
save_prediction-cases_example = save_prediction-cases from_iso isoformat engine 5 10 draft at_start

Run-IsSound_example : IsSound (save_prediction from_iso isoformat engine 5 10 draft at_start).1
Run-IsSound_example = Run-IsSound whole from_iso isoformat engine ran

stats-Run_example :
    (s : PickStats ℕ) × ((stats whole 5 200
        (save_prediction from_iso isoformat engine 5 10 draft at_start).1).0
      ≡ some s)
    × (s.total ≡ s.correct + s.wrong + s.pending)
    × (s.total
        ≡ count_where
            (owned 5)
            (save_prediction from_iso isoformat engine 5 10 draft at_start).1.picks)
stats-Run_example = stats-Run whole from_iso isoformat engine 5 200 ran
