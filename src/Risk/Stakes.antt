-- ===== src/Risk/Stakes.antt =====
-- What holds of the signals of backend/app/risk/match.py.
use ap2web.Risk.Policy.{RiskConfig, kelly_fraction, max_exposure_per_match, max_stake}
use ap2web.Risk.Assess.{
  Market, Signal, ev_of, is_value, lower_score, market_for_match, quoted, risk_for_match, rounded,
  signal_of, signals_of, stake_of,
}
use ap2web.Prelude.{
  All, All-append, All-sort_by, Bool-cases, IsSorted, List, Option, [], and-eq-true, ap, arith,
  codes, false, if◌then◌else◌, inl, inr, none, ok, refl, some, sort_by, sort_by-IsSorted, text_eq,
  true, ℕ, ◌&&◌, ◌++◌, ◌≡◌, ◌⊎◌,
}
use ap2web.Floats.{Floats, of_nat}
use ap2web.Learning.Engine.{Outcome, Probs, away, draw, home, prob_of}
use ap2web.Learning.Selection.{IsLinear}

module _ {F : Type 0} (o : Floats F) (c : RiskConfig F) where
  -- The stake exceeds neither guardrail.
  abbrev pub IsGuarded : Signal F → Type 0
  IsGuarded s =
      (o.lt (max_stake o c) s.stake_suggested ≡ false)
      × (o.lt (max_exposure_per_match o c) s.stake_suggested ≡ false)

  -- The market's numbers for the outcome are those of a value bet with a positive Kelly fraction.
  abbrev pub IsValueBet : Market F → Probs F → Probs F → Signal F → Type 0
  IsValueBet m odds ev s =
      (is_value o c (prob_of ev s.outcome) (prob_of m.probs s.outcome) (prob_of odds s.outcome)
        ≡ true)
      × (o.lt (of_nat o 0)
            (kelly_fraction o (prob_of m.probs s.outcome) (prob_of odds s.outcome) c.fraction)
          ≡ true)

  module _ (rank : F → ℕ) (linear : IsLinear o rank) where
    guard :
        (a b x : F)
        → (o.lt a (if o.lt b (if o.lt a x then a else x) then b else (if o.lt a x then a else x))
            ≡ false)
          × (o.lt b (if o.lt b (if o.lt a x then a else x) then b else (if o.lt a x then a else x))
              ≡ false)
    guard a b x = elim (Bool-cases (o.lt a x)) [
      | inl e ↦ rw e (above a (self a))
      | inr e ↦ rw e (above x e)
    ]
      where
        self : (y : F) → o.lt y y ≡ false
        self y = ground (arith, (linear y y).0)

        above :
            (y : F)
            → o.lt a y ≡ false
            → (o.lt a (if o.lt b y then b else y) ≡ false)
              × (o.lt b (if o.lt b y then b else y) ≡ false)
        above y h = elim (Bool-cases (o.lt b y)) [
          | inl e ↦
              rw e (ground (arith, h, e, (linear a y).0, (linear b y).0, (linear a b).0), self b)
          | inr e ↦ rw e (h, e)
        ]

    stake_of-IsGuarded :
        (kelly_val : F)
        → (o.lt (max_stake o c) (stake_of o c kelly_val) ≡ false)
          × (o.lt (max_exposure_per_match o c) (stake_of o c kelly_val) ≡ false)
    unfolding stake_of
    stake_of-IsGuarded kelly_val =
        guard (max_stake o c) (max_exposure_per_match o c) (
          if o.lt (of_nat o 0) kelly_val
          then o.round (o.mul kelly_val c.bankroll) 2
          else of_nat o 0)

    signal_of-IsGuarded :
        (m : Market F) (odds ev : Probs F) (k : Outcome)
        → All (λ s. IsGuarded s × IsValueBet m odds ev s) (signal_of o c m odds ev k)
    unfolding signal_of
    signal_of-IsGuarded m odds ev k =
        let p = prob_of m.probs k in
        let q = prob_of odds k in
        let value = is_value o c (prob_of ev k) p q in
        let positive = o.lt (of_nat o 0) (kelly_fraction o p q c.fraction) in
        (elim (Bool-cases (value && positive)) [
          | inl e ↦
              rw (e, signal_of)
                (
                  (
                    stake_of-IsGuarded (kelly_fraction o p q c.fraction),
                    and-eq-true value positive e,
                  ),
                  tt,
                )
          | inr e ↦ rw (e, signal_of) tt
        ])

    lower_total : (x y : Signal F) → lower_score o x y ≡ true → lower_score o y x ≡ false
    lower_total x y h =
        ground
          (arith, h, (linear x.score.score y.score.score).0, (linear y.score.score x.score.score).0)

    lower_trans :
        (x y z : Signal F)
        → lower_score o y x ≡ false
        → lower_score o z y ≡ false
        → lower_score o z x ≡ false
    lower_trans x y z h k = ground (
      arith,
      h,
      k,
      (linear x.score.score y.score.score).0,
      (linear y.score.score z.score.score).0,
      (linear x.score.score z.score.score).0,
    )

    quoted_signals :
        (p q : Probs F)
        → (ss : List (Signal F)) × (signals_of o c (quoted o p q) ≡ ss)
          × All (λ s. IsGuarded s × IsValueBet (quoted o p q) (rounded o 3 q) (ev_of o p q) s) ss
          × IsSorted (lower_score o) ss
    unfolding signals_of quoted
    quoted_signals p q =
        let found : Outcome → List (Signal F) =
          λ k. signal_of o c (quoted o p q) (rounded o 3 q) (ev_of o p q) k in
        let good = λ (s : Signal F).
          IsGuarded s × IsValueBet (quoted o p q) (rounded o 3 q) (ev_of o p q) s in
        let each_good : (k : Outcome) → All good (found k) =
          λ k. signal_of-IsGuarded (quoted o p q) (rounded o 3 q) (ev_of o p q) k in
        (
          sort_by (lower_score o) (found home ++ found draw ++ found away),
          refl,
          All-sort_by (lower_score o) good (found home ++ found draw ++ found away) (
              All-append good (found home ++ found draw) (found away)
                (All-append good (found home) (found draw) (each_good home) (each_good draw))
                (each_good away)),
          sort_by-IsSorted (lower_score o) lower_total lower_trans
              (found home ++ found draw ++ found away),
        )

    -- For a scheduled match the assessment returns. Without a quote there is no signal; with one, the
    -- signals are sorted by their score, the best first, the stake of each exceeds neither the maximum
    -- stake nor the maximum exposure of a match, and each outcome is a value bet by the configured
    -- edge, probability and odds, with a positive Kelly fraction. Floats are compared as a linear order.
    pub risk_for_match-IsGuarded :
        (p : Probs F) (quote : Option (Probs F))
        → (ss : List (Signal F)) × (risk_for_match o c (some (codes "scheduled")) p quote ≡ ok ss)
          × (((quote ≡ none) × (ss ≡ []))
              ⊎ ((q : Probs F) × (quote ≡ some q)
                  × All
                      (λ s. IsGuarded s × IsValueBet (quoted o p q) (rounded o 3 q) (ev_of o p q) s)
                      ss))
          × IsSorted (lower_score o) ss
    unfolding risk_for_match market_for_match signals_of text_eq
    risk_for_match-IsGuarded p none = ([], refl, inl (refl, refl), tt)
    risk_for_match-IsGuarded p (some q) =
        let (ss, e, good, sorted) = quoted_signals p q in (ss, ap ok e, inr (q, refl, good), sorted)
