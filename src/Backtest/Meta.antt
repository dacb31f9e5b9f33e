-- ===== src/Backtest/Meta.antt =====
-- `MetaLearner` of backend/app/backtest/meta.py, over a type `F` of floats with their comparison,
-- their test of equality and `round(x ± 0.03, 4)`. The history file, its lock and
-- the defaults for fields that a run lacks are left out.
use ap2web.Prelude.{
  Bool, List, Option, Text, [], any, codes, if◌then◌else◌, is_empty, length, ltb, max, min, select,
  take, take_last, text_eq, ℕ, ◌&&◌, ◌++◌, ◌+◌, ◌-◌, ◌==◌, ◌∷◌,
}

-- The hyperparameters of one run.
pub record Params {ℓ} (F : Type ℓ) : Type ℓ where
  pub feature : Text
  pub window : ℕ
  pub home_advantage : F
  pub rho : F

-- A record of the history.
pub record Entry {ℓ} (F : Type ℓ) : Type ℓ where
  pub league_id : ℕ
  pub params : Params F
  pub accuracy : F
  pub brier : F
  pub cv_mean_brier : Option F
  pub timestamp : Text

-- `FEATURE_GRID` and `WINDOW_GRID` of backend/app/learning/grids.py.
abbrev pub feature_grid : List Text
feature_grid = codes "xg" ∷ codes "goals" ∷ codes "blend" ∷ []

abbrev pub window_grid : List ℕ
window_grid = 5 ∷ 10 ∷ 15 ∷ []

-- The operations on floats, and the values of `HOME_ADVANTAGE_GRID` and `RHO_GRID`.
pub record GridFloats {ℓ} (F : Type ℓ) : Type ℓ where
  pub lt : F → F → Bool
  pub eq : F → F → Bool
  pub up : F → F
  pub down : F → F
  pub home_advantages : List F
  pub rhos : List F

module _ {ℓ} {F : Type ℓ} (o : GridFloats F) where
  -- `record`
  unfoldable pub record_run : Entry F → List (Entry F) → List (Entry F)
  record_run e history =
      let h = history ++ (e ∷ []) in if ltb 500 (length h) then take_last 500 h else h

  abbrev pub of_league : ℕ → Entry F → Bool
  of_league league e = e.league_id == league

  -- `(s["feature"], s["window"], s["home_advantage"], s["rho"])`, compared.
  unfoldable pub same_key : Params F → Params F → Bool
  unfolding text_eq
  same_key p q =
      text_eq p.feature q.feature
      && (p.window == q.window && (o.eq p.home_advantage q.home_advantage && o.eq p.rho q.rho))

  -- The loop over the suggestions: those whose key was not seen yet.
  unfoldable pub unique_behind : List (Params F) → List (Params F) → List (Params F)
  unfolding same_key
  unique_behind seen [] = []
  unique_behind seen (p ∷ ps) =
      let kept = unique_behind (p ∷ seen) ps in
      let dropped = unique_behind seen ps in if any (same_key p) seen then dropped else p ∷ kept

  -- `sorted(history, key=brier)`, which is stable.
  unfoldable pub insert_run : Entry F → List (Entry F) → List (Entry F)
  insert_run e [] = e ∷ []
  insert_run e (x ∷ xs) =
      let rest = insert_run e xs in if o.lt x.brier e.brier then x ∷ rest else e ∷ x ∷ xs

  unfoldable pub sort_runs : List (Entry F) → List (Entry F)
  unfolding insert_run
  sort_runs [] = []
  sort_runs (e ∷ es) = insert_run e (sort_runs es)

  -- `min(history, key=brier)`: the first of the least.
  unfoldable pub least : Entry F → List (Entry F) → Entry F
  least b [] = b
  least b (e ∷ es) = least (if o.lt e.brier b.brier then e else b) es

  abbrev pub narrower : Params F → Params F
  narrower p = record p { window = max 3 (p.window - 2) }

  abbrev pub wider : Params F → Params F
  wider p = record p { window = min 20 (p.window + 2) }

  -- The five variations of one of the best runs.
  unfoldable pub variations : Params F → List (Params F)
  variations p =
      narrower p
      ∷ wider p
      ∷ record p { home_advantage = o.up p.home_advantage }
      ∷ record p { home_advantage = o.down p.home_advantage }
      ∷ record p { rho = o.down p.rho }
      ∷ []

  unfoldable pub variations_of : List (Entry F) → List (Params F)
  unfolding variations
  variations_of [] = []
  variations_of (e ∷ es) = variations e.params ++ variations_of es

  -- The eight variations of the best run.
  unfoldable pub heuristic_variations : Params F → List (Params F)
  unfolding text_eq
  heuristic_variations p =
      narrower p
      ∷ wider p
      ∷ record p { home_advantage = o.up p.home_advantage }
      ∷ record p { home_advantage = o.down p.home_advantage }
      ∷ record p { rho = o.up p.rho }
      ∷ record p { rho = o.down p.rho }
      ∷ record p { feature = if text_eq p.feature (codes "xg") then codes "goals" else codes "xg" }
      ∷ record p { feature = codes "blend" }
      ∷ []

  -- The nested loops over the grids.
  abbrev pub each {κ} : {A : Type κ} → (A → List (Params F)) → List A → List (Params F)
  each f [] = []
  each f (x ∷ xs) = f x ++ each f xs

  unfoldable pub grid : List (Params F)
  grid =
      each
        (λ f.
          each
            (λ w.
              each
                (λ h.
                  each (λ r. record { feature = f; window = w; home_advantage = h; rho = r } ∷ [])
                    o.rhos)
                o.home_advantages)
            window_grid)
        feature_grid

  -- `_grid_suggestions`
  unfoldable pub grid_suggestions : List (Entry F) → List (Params F)
  unfolding variations_of sort_runs unique_behind grid
  grid_suggestions [] = take 20 grid
  grid_suggestions (e ∷ es) =
      take 15 (unique_behind [] (variations_of (take 3 (sort_runs (e ∷ es)))))

  -- `_heuristic_suggestions`, which copies the other fields of the best run along.
  unfoldable pub heuristic_suggestions : Entry F → List (Entry F) → List (Params F)
  unfolding least heuristic_variations unique_behind
  heuristic_suggestions e es = take 10 (unique_behind [] (heuristic_variations (least e es).params))

  -- The runs of the league, else the last 100 of all.
  abbrev pub relevant : ℕ → List (Entry F) → List (Entry F)
  relevant league history =
      let own = select (of_league league) history in
      if is_empty own then take_last 100 history else own

  -- `suggest`, on the relevant runs.
  unfoldable pub suggest_from : List (Entry F) → List (Entry F) → List (Params F)
  unfolding grid_suggestions heuristic_suggestions
  suggest_from history [] = grid_suggestions history
  suggest_from history (e ∷ es) =
      if ltb (length (e ∷ es)) 5 then grid_suggestions history else heuristic_suggestions e es

  unfoldable pub suggest : ℕ → List (Entry F) → List (Params F)
  unfolding suggest_from
  suggest league history = suggest_from history (relevant league history)
