-- ===== src/Learning/Features.antt =====
-- backend/app/feature_engine.py: the selection of goals or expected goals, and their averages.
use ap2web.Prelude.{
  List, Option, Result, Text, [], codes, err, if◌then◌else◌, is_empty, length, ltb, map, none, not,
  ok, some, split_on, strip, take, text_eq, ℕ, ◌==◌, ◌||◌, ◌∷◌,
}
use ap2web.Floats.{Floats, of_nat, sum, sum_from}

-- A row of `matches` with the columns that the evaluation reads; kickoffs are seconds, whose ISO texts
-- sort alike. An xG column is the text of its value.
pub record Match : Type 0 where
  pub id : ℕ
  pub kickoff : ℕ
  pub home_team_id : ℕ
  pub away_team_id : ℕ
  pub score_home : ℕ
  pub score_away : ℕ
  pub xg_home : Option Text
  pub xg_away : Option Text

pub data Feature : Type 0 where
  goals xg blend : Feature

-- The check of the feature's name.
unfoldable pub feature_of : Text → Option Feature
unfolding text_eq
feature_of t =
    if text_eq t (codes "goals")
    then some goals
    else if text_eq t (codes "xg")
    then some xg
    else if text_eq t (codes "blend")
    then some blend
    else none

-- What one match gives for its home team.
pub record Stats (F : Type 0) : Type 0 where
  pub gf : F
  pub ga : F
  pub xg_for : Option F
  pub xg_against : Option F

-- The averages of a team.
pub record TeamStats (F : Type 0) : Type 0 where
  pub gf_avg : F
  pub ga_avg : F
  pub xg_avg : Option F
  pub xga_avg : Option F

-- The reasons for a ValueError.
pub data FeatureError : Type 0 where
  unknown_feature : FeatureError
  missing_score : FeatureError
  not_a_participant : FeatureError
  invalid_window : FeatureError

-- `text.split("(")[-1]`
abbrev pub last_part : List Text → Text
last_part [] = []
last_part (p ∷ []) = p
last_part (p ∷ q ∷ ps) = last_part (q ∷ ps)

-- `text.replace(c, "")`
abbrev pub without : ℕ → Text → Text
without c [] = []
without c (d ∷ s) = let rest = without c s in if d == c then rest else d ∷ rest

module _ {F : Type 0} (o : Floats F) where
  abbrev pub finite : F → Option F
  finite x = if o.is_finite x then some x else none

  -- `parse_stat_value`: the first candidate that parses decides.
  unfoldable pub parse_stat_value : Option Text → Option F
  unfolding strip split_on text_eq
  parse_stat_value none = none
  parse_stat_value (some t) =
      if is_empty t || text_eq t (codes "-")
      then none
      else (let s = strip t in
          let inner = strip (without b'%' (without b')' (last_part (split_on b'(' s)))) in
          elim (o.of_text inner) [
            | some x ↦ finite x
            | none ↦ elim (o.of_text s) [ some x ↦ finite x | none ↦ none ]
          ])

  -- The goals of one side by the feature.
  unfoldable pub select_goals : Feature → ℕ → Option F → F
  select_goals goals score x = of_nat o score
  select_goals xg score none = of_nat o score
  select_goals xg score (some x) = x
  select_goals blend score none = of_nat o score
  select_goals blend score (some x) = o.div (o.add (of_nat o score) x) (of_nat o 2)

  -- `compute_match_stats`, for a known feature and a match with both scores.
  unfoldable pub compute_match_stats : Feature → Match → Stats F
  unfolding parse_stat_value select_goals
  compute_match_stats feature m =
      let xh = parse_stat_value m.xg_home in
      let xa = parse_stat_value m.xg_away in
      record {
        gf = o.round (select_goals feature m.score_home xh) 3;
        ga = o.round (select_goals feature m.score_away xa) 3;
        xg_for = xh;
        xg_against = xa;
      }

  abbrev pub mirrored : Stats F → Stats F
  mirrored s = record { gf = s.ga; ga = s.gf; xg_for = s.xg_against; xg_against = s.xg_for }

  -- `team_match_stats`
  unfoldable pub team_match_stats : Match → ℕ → Feature → Result FeatureError (Stats F)
  unfolding compute_match_stats
  team_match_stats m team feature =
      if team == m.home_team_id
      then ok (compute_match_stats feature m)
      else if not (team == m.away_team_id)
      then err not_a_participant
      else ok (mirrored (compute_match_stats feature m))

  abbrev pub known : List (Option F) → List F
  known [] = []
  known (none ∷ xs) = known xs
  known (some x ∷ xs) = x ∷ known xs

  -- `round(sum(xs) / len(xs), 3)`
  abbrev pub rounded_mean : List F → F
  rounded_mean xs = o.round (o.div (sum o xs) (of_nat o (length xs))) 3

  abbrev pub optional_mean : List F → Option F
  optional_mean [] = none
  optional_mean (x ∷ xs) = some (rounded_mean (x ∷ xs))

  -- `_cached_team_stats`
  unfoldable pub cached_team_stats : List (Stats F) → ℕ → TeamStats F
  unfolding sum_from
  cached_team_stats history window =
      let rows = take window history in
      record {
        gf_avg = if is_empty rows then of_nat o 0 else rounded_mean (map (λ r. r.gf) rows);
        ga_avg = if is_empty rows then of_nat o 0 else rounded_mean (map (λ r. r.ga) rows);
        xg_avg = optional_mean (known (map (λ r. r.xg_for) rows));
        xga_avg = optional_mean (known (map (λ r. r.xg_against) rows));
      }

  -- `compute_team_stats`, with its check of the window; the check of the feature is `feature_of`.
  unfoldable pub compute_team_stats : List (Stats F) → ℕ → Result FeatureError (TeamStats F)
  unfolding cached_team_stats
  compute_team_stats history window =
      if ltb window 1 then err invalid_window else ok (cached_team_stats history window)
