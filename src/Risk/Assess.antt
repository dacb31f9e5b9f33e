-- ===== src/Risk/Assess.antt =====
-- `market_for_match` (backend/app/market.py) on the status of its match, with the prediction and the
-- latest quote as arguments; `risk_for_match` (backend/app/risk/match.py) and `portfolio_risk`
-- (backend/app/risk/portfolio.py). Numbers by outcome are in the order of OUTCOMES.
use ap2web.Risk.Policy.{
  RiskConfig, RiskScore, kelly_fraction, kelly_full, max_exposure_per_match, max_stake, risk_score,
}
use ap2web.Prelude.{
  Bool, List, Option, Result, Text, [], codes, count_where, err, if◌then◌else◌, length, ltb, map,
  none, ok, select, some, sort_by, text_eq, ℕ, ◌&&◌, ◌++◌, ◌∷◌,
}
use ap2web.Floats.{Floats, larger, of_nat, sum, sum_from}
use ap2web.Learning.Engine.{Outcome, Probs, away, draw, home, prob_of, same_outcome, square}

pub data MarketError : Type 0 where
  not_found not_scheduled : MarketError

pub record Market (F : Type 0) : Type 0 where
  pub probs : Probs F
  pub fair_odds : Probs F
  pub market_odds : Option (Probs F)
  pub ev : Option (Probs F)
  pub kelly_full : List (Outcome × F)
  pub overround : Option F
  pub value_bets : List Outcome

pub record Signal (F : Type 0) : Type 0 where
  pub outcome : Outcome
  pub prob : F
  pub fair_odds : F
  pub market_odds : F
  pub edge : F
  pub kelly_full : F
  pub kelly_adjusted : F
  pub stake_suggested : F
  pub stake_pct : F
  pub score : RiskScore F

abbrev pub each : {F G : Type 0} → (F → G) → Probs F → Probs G
each f p = record { p1 = f p.p1; px = f p.px; p2 = f p.p2 }

abbrev pub both : {F G H : Type 0} → (F → G → H) → Probs F → Probs G → Probs H
both f p q = record { p1 = f p.p1 q.p1; px = f p.px q.px; p2 = f p.p2 q.p2 }

abbrev pub outcomes : List Outcome
outcomes = home ∷ draw ∷ away ∷ []

module _ {F : Type 0} (o : Floats F) where
  -- `_fair_odds`
  abbrev fair_of : Probs F → Probs F
  fair_of p = each (λ x. o.div (of_nat o 1) (larger o x (o.decimal 1 6))) p

  -- `_ev`
  abbrev pub ev_of : Probs F → Probs F → Probs F
  ev_of p q = both (λ x y. o.round (o.sub (o.mul x y) (of_nat o 1)) 4) p q

  abbrev pub rounded : ℕ → Probs F → Probs F
  rounded n p = each (λ x. o.round x n) p

  -- `kelly` of the outcomes whose odds are above 1
  abbrev kelly_entry : F → F → Outcome → List (Outcome × F)
  kelly_entry p q k =
      if o.lt (of_nat o 1) q
      then (k, o.round (o.div (o.sub (o.mul q p) (of_nat o 1)) (o.sub q (of_nat o 1))) 4) ∷ []
      else []

  unfoldable pub quoted : Probs F → Probs F → Market F
  unfolding sum_from
  quoted p q =
      let ev = ev_of p q in
      record {
        probs = rounded 6 p;
        fair_odds = rounded 3 (fair_of p);
        market_odds = some (rounded 3 q);
        ev = some ev;
        kelly_full =
            kelly_entry p.p1 q.p1 home ++ kelly_entry p.px q.px draw ++ kelly_entry p.p2 q.p2 away;
        overround = some (
            o.round
              (sum o
                (o.div (of_nat o 1) q.p1 ∷ o.div (of_nat o 1) q.px ∷ o.div (of_nat o 1) q.p2 ∷ []))
              4);
        value_bets = select (λ k. o.lt (of_nat o 0) (prob_of ev k)) outcomes;
      }

  abbrev unquoted : Probs F → Market F
  unquoted p = record {
    probs = rounded 6 p;
    fair_odds = rounded 3 (fair_of p);
    market_odds = none;
    ev = none;
    kelly_full = [];
    overround = none;
    value_bets = [];
  }

  -- `market_for_match` on the `status` of the row, if there is one
  unfoldable pub market_for_match :
      Option Text → Probs F → Option (Probs F) → Result MarketError (Market F)
  unfolding quoted text_eq
  market_for_match none p quote = err not_found
  market_for_match (some status) p quote =
      if text_eq status (codes "scheduled")
      then ok (elim quote [ none ↦ unquoted p | some q ↦ quoted p q ])
      else err not_scheduled

  -- The suggested stake and its two guardrails.
  unfoldable pub stake_of : RiskConfig F → F → F
  stake_of c kelly_val =
      let stake =
        if o.lt (of_nat o 0) kelly_val
        then o.round (o.mul kelly_val c.bankroll) 2
        else of_nat o 0 in
      let capped = if o.lt (max_stake o c) stake then max_stake o c else stake in
      if o.lt (max_exposure_per_match o c) capped then max_exposure_per_match o c else capped

  abbrev pub is_value : RiskConfig F → F → F → F → Bool
  is_value c edge prob odds = o.lt c.min_edge edge && o.le c.min_prob prob && o.le odds c.max_odds

  -- The signal of one outcome, if it is one.
  unfoldable pub signal_of : RiskConfig F → Market F → Probs F → Probs F → Outcome → List (Signal F)
  unfolding kelly_fraction stake_of risk_score
  signal_of c m odds ev k =
      let p = prob_of m.probs k in
      let q = prob_of odds k in
      let edge = prob_of ev k in
      let kelly_val = kelly_fraction o p q c.fraction in
      let stake = stake_of c kelly_val in
      if is_value c edge p q && o.lt (of_nat o 0) kelly_val
      then record {
        outcome = k;
        prob = o.round p 4;
        fair_odds = o.round (prob_of m.fair_odds k) 3;
        market_odds = o.round q 3;
        edge = o.round edge 4;
        kelly_full = o.round (kelly_full o p q) 4;
        kelly_adjusted = o.round kelly_val 4;
        stake_suggested = stake;
        stake_pct =
            if o.lt (of_nat o 0) c.bankroll
            then o.round (o.mul (o.div stake c.bankroll) (of_nat o 100)) 2
            else of_nat o 0;
        score = risk_score o p (larger o edge (of_nat o 0)) kelly_val;
      }
        ∷ []
      else []

  -- `signals.sort(key=score, reverse=True)`, which is stable
  abbrev pub lower_score : Signal F → Signal F → Bool
  lower_score a b = o.lt b.score.score a.score.score

  -- The signals of `risk_for_match`, the best first.
  unfoldable pub signals_of : RiskConfig F → Market F → List (Signal F)
  unfolding signal_of sort_by
  signals_of c m = elim m.market_odds [
    | none ↦ []
    | some odds ↦ elim m.ev [
      | none ↦ []
      | some ev ↦
          sort_by lower_score
            (signal_of c m odds ev home ++ signal_of c m odds ev draw ++ signal_of c m odds ev away)
    ]
  ]

  -- `risk_for_match`: its signals.
  unfoldable pub risk_for_match :
      RiskConfig F → Option Text → Probs F → Option (Probs F) → Result MarketError (List (Signal F))
  unfolding market_for_match signals_of
  risk_for_match c status p quote = elim (market_for_match status p quote) [
    | err e ↦ err e
    | ok m ↦ ok (signals_of c m)
  ]

pub data RiskLevel : Type 0 where
  low medium high : RiskLevel

pub record Portfolio (F : Type 0) : Type 0 where
  pub total_matches : ℕ
  pub total_signals : ℕ
  pub total_stake : F
  pub total_exposure_pct : F
  pub daily_ok : Bool
  pub risk_level : RiskLevel
  pub outcome_distribution : Outcome → ℕ
  pub odds_diversity_std : F
  pub signals : List (Signal F)

module _ {F : Type 0} (o : Floats F) where
  abbrev all_signals : List (List (Signal F)) → List (Signal F)
  all_signals [] = []
  all_signals (s ∷ ss) = s ++ all_signals ss

  -- The deviation of the odds, from two signals on.
  abbrev odds_std : (F → F) → List F → F
  unfolding sum_from
  odds_std sqrt values =
      let n = of_nat o (length values) in
      let mean = o.div (sum o values) n in
      if ltb (length values) 2
      then of_nat o 0
      else sqrt (o.div (sum o (map (λ x. square o (o.sub x mean)) values)) n)

  -- `portfolio_risk`. The count of an outcome that has no entry in the dict is 0; `** 0.5` is an
  -- argument.
  unfoldable pub portfolio_risk : (F → F) → RiskConfig F → List (List (Signal F)) → Portfolio F
  unfolding sum_from
  portfolio_risk sqrt c matches_risk =
      let signals = all_signals matches_risk in
      let total = sum o (map (λ s. s.stake_suggested) signals) in
      let pct =
        if o.lt (of_nat o 0) c.bankroll
        then o.mul (o.div total c.bankroll) (of_nat o 100)
        else of_nat o 0 in
      let daily = o.mul c.max_daily_pct (of_nat o 100) in
      record {
        total_matches = length matches_risk;
        total_signals = length signals;
        total_stake = o.round total 2;
        total_exposure_pct = o.round pct 2;
        daily_ok = o.le pct daily;
        risk_level =
            if o.lt (o.mul daily (o.decimal 8 1)) pct
            then high
            else if o.lt (o.mul daily (o.decimal 5 1)) pct
            then medium
            else low;
        outcome_distribution =
            λ k. count_where (λ (s : Signal F). same_outcome s.outcome k) signals;
        odds_diversity_std = o.round (odds_std sqrt (map (λ s. s.market_odds) signals)) 3;
        signals = signals;
      }
