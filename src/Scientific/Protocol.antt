-- ===== src/Scientific/Protocol.antt =====
-- `run_scientific_protocol` of backend/app/scientific/protocol.py with fixed parameters, on the rows of
-- its query, up to the two evaluations and the status; and the checks of `_metric_records`
-- (backend/app/scientific/records.py) that the status depends on.
-- The columns that may be NULL, of a played match with both scores.
use ap2web.Scientific.Split.{Split, temporal_split}
use ap2web.Prelude.{
  Bool, List, Option, Text, [], if◌then◌else◌, is_empty, length, none, not, select, some, ℕ, ◌&&◌,
  ◌++◌, ◌||◌, ◌∷◌,
}
use ap2web.Floats.{Floats, of_nat, sum, sum_from}
use ap2web.Learning.Features.{Feature, Match, TeamStats}
use ap2web.Learning.Engine.{Prediction, Probs, Report, backtest_completed_matches}

pub record RawRow : Type 0 where
  pub id : ℕ
  pub kickoff : Option ℕ
  pub home_team_id : Option ℕ
  pub away_team_id : Option ℕ
  pub score_home : ℕ
  pub score_away : ℕ
  pub xg_home : Option Text
  pub xg_away : Option Text

-- The rows with all fields, for which `_is_usable` is true.
unfoldable pub usable_row : RawRow → Option Match
usable_row r = elim r.kickoff [
  | none ↦ none
  | some k ↦ elim r.home_team_id [
    | none ↦ none
    | some h ↦ elim r.away_team_id [
      | none ↦ none
      | some a ↦ some (record {
        id = r.id;
        kickoff = k;
        home_team_id = h;
        away_team_id = a;
        score_home = r.score_home;
        score_away = r.score_away;
        xg_home = r.xg_home;
        xg_away = r.xg_away;
      })
    ]
  ]
]

unfoldable pub usable_rows : List RawRow → List Match
unfolding usable_row
usable_rows [] = []
usable_rows (r ∷ rs) =
    let rest = usable_rows rs in elim (usable_row r) [ none ↦ rest | some m ↦ m ∷ rest ]

pub data ProtocolResult (F : Type 0) : Type 0 where
  bad_fraction out_of_range blocked : ProtocolResult F
  one_sided : Split → ProtocolResult F
  evaluated : Bool → Split → Report F → Report F → ProtocolResult F

module _ {F : Type 0} (o : Floats F) where
  abbrev is_probability : F → Bool
  is_probability x = o.is_finite x && o.le (of_nat o 0) x && o.le x (of_nat o 1)

  -- `math.isclose(total, 1.0, rel_tol=0.0, abs_tol=1e-9)` for a finite total
  abbrev close_to_one : F → Bool
  close_to_one x =
      o.le (o.sub x (of_nat o 1)) (o.decimal 1 9) && o.le (o.sub (of_nat o 1) x) (o.decimal 1 9)

  unfoldable pub valid_record : Prediction F → Bool
  unfolding sum_from
  valid_record r =
      let p = r.probabilities in
      is_probability p.p1
      && is_probability p.px
      && is_probability p.p2
      && close_to_one (sum o (p.p1 ∷ p.px ∷ p.p2 ∷ []))

  -- `_metric_records`, whose emptiness is the status `insufficient_data` of `scientific_metrics`
  abbrev pub metric_records : Report F → List (Prediction F)
  unfolding valid_record
  metric_records r = select valid_record r.predictions

  -- `"completed"`, or `"insufficient_data"`
  unfoldable pub both_scored : Report F → Report F → Bool
  unfolding valid_record
  both_scored d h = not (is_empty (metric_records d)) && not (is_empty (metric_records h))

module _ {F : Type 0} (o : Floats F) (predict : TeamStats F → TeamStats F → Probs F) (window : ℕ)
    (feature : Feature) where
  unfoldable pub evaluate : Split → ProtocolResult F
  unfolding backtest_completed_matches both_scored
  evaluate s = elim (backtest_completed_matches o predict window feature 0 s.development) [
    | none ↦ out_of_range
    | some d ↦
        elim (backtest_completed_matches o predict window feature (length s.development)
          (s.development ++ s.holdout)) [
            | none ↦ out_of_range
            | some h ↦ evaluated (both_scored o d h) s d h
          ]
  ]

  unfoldable pub run_scientific_protocol : (F → ℕ) → List RawRow → F → ProtocolResult F
  unfolding usable_rows temporal_split evaluate
  run_scientific_protocol ceil raw fraction =
      let rows = usable_rows raw in
      if is_empty rows then blocked else (elim (temporal_split o ceil rows fraction) [
        | none ↦ bad_fraction
        | some s ↦ if is_empty s.holdout || is_empty s.development then one_sided s else evaluate s
      ])
