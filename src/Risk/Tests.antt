-- ===== src/Risk/Tests.antt =====
-- One scheduled match with odds, in whole numbers.
use ap2web.Risk.Policy.{RiskConfig, kelly_fraction, kelly_full, risk_score}
use ap2web.Risk.Assess.{
  Signal, ev_of, lower_score, market_for_match, quoted, risk_for_match, rounded, signal_of,
  signals_of, stake_of,
}
use ap2web.Risk.Stakes.{IsGuarded, IsValueBet, risk_for_match-IsGuarded}
use ap2web.Prelude.{
  All, IsSorted, List, Option, [], codes, insert_sorted, map, none, ok, refl, some, sort_by,
  text_eq, ℕ, ◌∷◌, ◌≡◌, ◌⊎◌,
}
use ap2web.Floats.{sum_from, whole}
use ap2web.Learning.Engine.{Probs}

abbrev config : RiskConfig ℕ
config = record {
  fraction = 1;
  bankroll = 100;
  max_stake_pct = 2;
  max_exposure_pct = 1;
  max_daily_pct = 1;
  min_edge = 0;
  min_prob = 1;
  max_odds = 9;
}

abbrev sure_home : Probs ℕ
sure_home = record { p1 = 1; px = 0; p2 = 0 }

abbrev odds : Probs ℕ
odds = record { p1 = 3; px = 3; p2 = 3 }

one_signal :
    (ss : List (Signal ℕ)) × (risk_for_match whole config
        (some (codes "scheduled"))
        sure_home
        (some odds)
      ≡ ok ss)
    × (map (λ s. s.stake_suggested) ss ≡ 100 ∷ [])
unfolding risk_for_match market_for_match quoted signals_of signal_of kelly_fraction kelly_full
    stake_of risk_score sort_by insert_sorted text_eq sum_from
one_signal = (_, refl, refl)

risk_for_match-IsGuarded_example :
    (ss : List (Signal ℕ)) × (risk_for_match whole config
        (some (codes "scheduled"))
        sure_home
        (some odds)
      ≡ ok ss)
    × (((◌≡◌ {A = Option (Probs ℕ)} (some odds) none) × (ss ≡ []))
        ⊎ ((q : Probs ℕ) × (◌≡◌ {A = Option (Probs ℕ)} (some odds) (some q))
            × All
                (λ s.
                  IsGuarded whole config s
                  × IsValueBet whole config
                      (quoted whole sure_home q)
                      (rounded whole 3 q)
                      (ev_of whole sure_home q)
                      s)
                ss))
    × IsSorted (lower_score whole) ss
risk_for_match-IsGuarded_example =
    risk_for_match-IsGuarded whole config (λ n. n) (λ a b. (refl, refl)) sure_home (some odds)
