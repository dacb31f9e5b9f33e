-- ===== src/Learning/Calibration.antt =====
-- `calibrate_league` and `calibrate_all` of backend/app/learning/calibration.py. The prediction of a
-- fixture depends on the home advantage and on rho; it is an argument. The migrations of
-- `_ensure_rho_column` and its like find the columns of the schema in place.
use ap2web.Learning.Features.{Feature, Match, TeamStats, blend, goals, xg}
use ap2web.Learning.Engine.{Probs, Report, backtest_league, min_samples, nothing_scored}
use ap2web.Prelude.{
  Bool, List, Option, Text, [], any, codes, if◌then◌else◌, ltb, none, some, update_where, ℕ, ◌++◌,
  ◌==◌, ◌∷◌,
}
use ap2web.Floats.{Floats, of_nat}

pub record Params (F : Type 0) : Type 0 where
  pub feature : Feature
  pub window : ℕ
  pub ha : F
  pub rho : F

pub record Candidate (F : Type 0) : Type 0 where
  pub params : Params F
  pub result : Report F

-- A row of `league_models`.
pub record LeagueModel (F : Type 0) : Type 0 where
  pub league_id : ℕ
  pub home_advantage : F
  pub window : ℕ
  pub feature : Feature
  pub rho : F
  pub accuracy : Option F
  pub brier : Option F
  pub sample_count : Option ℕ
  pub calibrated_at : Option ℕ
  pub bayesian : ℕ
  pub method : Text
  pub ctx_rest : ℕ
  pub ctx_form : ℕ
  pub ctx_team_ha : ℕ

-- The nested loops over the grids.
abbrev over_rhos : {F : Type 0} → Feature → ℕ → F → List F → List (Params F)
over_rhos f w h [] = []
over_rhos f w h (r ∷ rs) = record { feature = f; window = w; ha = h; rho = r } ∷ over_rhos f w h rs

abbrev over_advantages : {F : Type 0} → Feature → ℕ → List F → List F → List (Params F)
over_advantages f w [] rs = []
over_advantages f w (h ∷ hs) rs = over_rhos f w h rs ++ over_advantages f w hs rs

abbrev over_windows : {F : Type 0} → Feature → List ℕ → List F → List F → List (Params F)
over_windows f [] hs rs = []
over_windows f (w ∷ ws) hs rs = over_advantages f w hs rs ++ over_windows f ws hs rs

abbrev over_features : {F : Type 0} → List Feature → List ℕ → List F → List F → List (Params F)
over_features [] ws hs rs = []
over_features (f ∷ fs) ws hs rs = over_windows f ws hs rs ++ over_features fs ws hs rs

module _ {F : Type 0} (o : Floats F) where
  abbrev minus : F → F
  minus x = o.sub (of_nat o 0) x

  unfoldable pub parameter_grid : List (Params F)
  parameter_grid =
      over_features (xg ∷ goals ∷ blend ∷ []) (5 ∷ 10 ∷ 15 ∷ [])
        (o.decimal 105 2
          ∷ o.decimal 110 2
          ∷ o.decimal 115 2
          ∷ o.decimal 120 2
          ∷ o.decimal 125 2
          ∷ o.decimal 130 2
          ∷ [])
        (of_nat o 0
          ∷ minus (o.decimal 5 2)
          ∷ minus (o.decimal 10 2)
          ∷ minus (o.decimal 13 2)
          ∷ minus (o.decimal 15 2)
          ∷ minus (o.decimal 20 2)
          ∷ [])

  -- `key < best["key"]` for the keys `(brier, -accuracy)`
  unfoldable pub better : Report F → Report F → Bool
  better a b = if o.same a.brier b.brier then o.lt b.accuracy a.accuracy else o.lt a.brier b.brier

  unfoldable pub choose : Option (Candidate F) → Candidate F → Option (Candidate F)
  unfolding better
  choose best c = if ltb c.result.total min_samples then best else (elim best [
    | none ↦ some c
    | some b ↦ if better c.result b.result then some c else some b
  ])

  unfoldable pub search :
      (Params F → Report F) → Option (Candidate F) → List (Params F) → Option (Candidate F)
  unfolding choose
  search run best [] = best
  search run best (p ∷ ps) = search run (choose best (record { params = p; result = run p })) ps

-- `INSERT … ON CONFLICT(league_id) DO UPDATE SET`
unfoldable pub upsert_model :
    {F : Type 0} → ℕ → ℕ → Candidate F → List (LeagueModel F) → List (LeagueModel F)
upsert_model league now c table =
    if any (λ r. r.league_id == league) table
    then update_where (λ r. r.league_id == league)
        (λ r. record r {
          home_advantage = c.params.ha;
          window = c.params.window;
          feature = c.params.feature;
          rho = c.params.rho;
          accuracy = some c.result.accuracy;
          brier = some c.result.brier;
          sample_count = some c.result.total;
          calibrated_at = some now;
        })
        table
    else table
      ++ (record {
        league_id = league;
        home_advantage = c.params.ha;
        window = c.params.window;
        feature = c.params.feature;
        rho = c.params.rho;
        accuracy = some c.result.accuracy;
        brier = some c.result.brier;
        sample_count = some c.result.total;
        calibrated_at = some now;
        bayesian = 0;
        method = codes "poisson";
        ctx_rest = 0;
        ctx_form = 0;
        ctx_team_ha = 0;
      }
          ∷ [])

-- `backtest_league` of a league at a point of the grid, on the rows of the league's query. A start of
-- the evaluation beyond the rows, which would raise, cannot be: it is 0.
unfoldable pub league_run :
    {F : Type 0}
    → Floats F
    → (F → F → TeamStats F → TeamStats F → Probs F)
    → (ℕ → List Match)
    → ℕ
    → Params F
    → Report F
unfolding backtest_league
league_run o predict rows league p =
    elim (backtest_league o (predict p.ha p.rho) p.window p.feature (rows league)) [
      | none ↦ nothing_scored o
      | some r ↦ r
    ]

module _ {F : Type 0} (o : Floats F) (predict : F → F → TeamStats F → TeamStats F → Probs F)
    (rows : ℕ → List Match) (now : ℕ) where
  -- `calibrate_league`
  unfoldable pub calibrate_league :
      ℕ → List (LeagueModel F) → Option (Candidate F) × List (LeagueModel F)
  unfolding search parameter_grid upsert_model league_run
  calibrate_league league table =
      elim (search o (league_run o predict rows league) none (parameter_grid o)) [
        | none ↦ (none, table)
        | some c ↦ (some c, upsert_model league now c table)
      ]

  -- `calibrate_all` over the leagues with their numbers of played matches: those calibrated, those
  -- skipped and the table.
  unfoldable pub calibrate_all :
      List (ℕ × ℕ) → List (LeagueModel F) → List (ℕ × Candidate F) × List ℕ × List (LeagueModel F)
  unfolding calibrate_league
  calibrate_all [] table = ([], [], table)
  calibrate_all ((league, played) ∷ ls) table =
      let few = ltb played min_samples in
      let r : Option (Candidate F) × List (LeagueModel F) =
        if few then (none, table) else calibrate_league league table in
      let rest = calibrate_all ls r.1 in
      if few
      then (rest.0, league ∷ rest.1, rest.2)
      else (elim r.0 [ none ↦ rest | some c ↦ ((league, c) ∷ rest.0, rest.1, rest.2) ])
