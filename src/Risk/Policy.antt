-- ===== src/Risk/Policy.antt =====
-- backend/app/risk/policy.py: the configuration, the Kelly fractions and the confidence score.
use ap2web.Prelude.{if◌then◌else◌, ◌||◌}
use ap2web.Floats.{Floats, larger, lesser, of_nat}

pub record RiskConfig (F : Type 0) : Type 0 where
  pub fraction : F
  pub bankroll : F
  pub max_stake_pct : F
  pub max_exposure_pct : F
  pub max_daily_pct : F
  pub min_edge : F
  pub min_prob : F
  pub max_odds : F

pub data Grade : Type 0 where
  grade_a grade_b grade_c grade_d : Grade

pub record RiskScore (F : Type 0) : Type 0 where
  pub score : F
  pub grade : Grade
  pub edge : F
  pub probability : F
  pub kelly : F

module _ {F : Type 0} (o : Floats F) where
  -- The defaults of `RiskConfig`.
  abbrev pub default_config : RiskConfig F
  default_config = record {
    fraction = o.decimal 25 2;
    bankroll = o.decimal 1000 0;
    max_stake_pct = o.decimal 5 2;
    max_exposure_pct = o.decimal 15 2;
    max_daily_pct = o.decimal 25 2;
    min_edge = o.decimal 2 2;
    min_prob = o.decimal 30 2;
    max_odds = o.decimal 100 1;
  }

  abbrev pub max_stake : RiskConfig F → F
  max_stake c = o.mul c.bankroll c.max_stake_pct

  abbrev pub max_exposure_per_match : RiskConfig F → F
  max_exposure_per_match c = o.mul c.bankroll c.max_exposure_pct

  abbrev pub max_daily_exposure : RiskConfig F → F
  max_daily_exposure c = o.mul c.bankroll c.max_daily_pct

  -- `kelly_full`
  unfoldable pub kelly_full : F → F → F
  kelly_full prob odds =
      if o.le odds (of_nat o 1) || o.le prob (of_nat o 0)
      then of_nat o 0
      else o.div (o.sub (o.mul prob odds) (of_nat o 1)) (o.sub odds (of_nat o 1))

  -- `kelly_fraction`
  unfoldable pub kelly_fraction : F → F → F → F
  unfolding kelly_full
  kelly_fraction prob odds fraction =
      let full = kelly_full prob odds in
      if o.le full (of_nat o 0) then of_nat o 0 else o.round (o.mul full fraction) 6

  abbrev pub grade_of : F → Grade
  grade_of total =
      if o.le (of_nat o 70) total
      then grade_a
      else if o.le (of_nat o 50) total
      then grade_b
      else if o.le (of_nat o 30) total
      then grade_c
      else grade_d

  -- `_risk_score`
  unfoldable pub risk_score : F → F → F → RiskScore F
  risk_score prob edge kelly_val =
      let edge_score = o.mul (lesser o (o.div edge (o.decimal 10 2)) (of_nat o 1)) (of_nat o 40) in
      let prob_score = o.mul (lesser o prob (of_nat o 1)) (of_nat o 30) in
      let kelly_norm =
        lesser o (o.div (larger o kelly_val (of_nat o 0)) (o.decimal 3 2)) (of_nat o 1) in
      let kelly_score = o.mul kelly_norm (of_nat o 30) in
      let total = o.round (o.add (o.add edge_score prob_score) kelly_score) 1 in
      record {
        score = lesser o total (of_nat o 100);
        grade = grade_of total;
        edge = o.round edge_score 1;
        probability = o.round prob_score 1;
        kelly = o.round kelly_score 1;
      }
