-- ===== src/Backtest/Bounds.antt =====
-- What the suggestions of backend/app/backtest/meta.py satisfy.
use ap2web.Backtest.Meta.{
  Entry, GridFloats, Params, grid, grid_suggestions, heuristic_suggestions, heuristic_variations,
  least, record_run, relevant, same_key, sort_runs, suggest, suggest_from, unique_behind,
  variations_of,
}
use ap2web.Prelude.{
  Bool-cases, List, [], any, arith, false, inl, inr, length, length-append, length-drop,
  length-take, ltb, refl, suc, take, true, zero, ℕ, ◌++◌, ◌-◌, ◌<◌, ◌∷◌, ◌≡◌, ◌≤◌,
}

module _ {ℓ} {F : Type ℓ} (o : GridFloats F) where
  -- The history is bounded: after a run has been recorded it holds at most 500 runs, and it holds all
  -- of them when they are at most 500.
  pub length-record_run :
      (e : Entry F) (history : List (Entry F))
      → (length (record_run o e history) ≤ 500)
        × (length history < 500 → record_run o e history ≡ history ++ (e ∷ []))
  unfolding record_run
  length-record_run e history = elim (Bool-cases (ltb 500 (length (history ++ (e ∷ []))))) [
    | inl h ↦ rw h (
      omega (arith, length-drop (length (history ++ (e ∷ [])) - 500) (history ++ (e ∷ []))),
      λ s. absurd (too_long s h),
    )
    | inr h ↦ rw h (ground arith, λ s. refl)
  ]
    where
      too_long : length history < 500 → ltb 500 (length (history ++ (e ∷ []))) ≡ true → ⊥
      too_long s h = ground (arith, length-append history (e ∷ []))

  -- No two suggestions have one key, and none has a key of the given ones.
  abbrev pub HasNewKeys : List (Params F) → List (Params F) → Type 0
  HasNewKeys seen [] = Unit
  HasNewKeys seen (p ∷ ps) = (any (same_key o p) seen ≡ false) × HasNewKeys (p ∷ seen) ps

  unique_behind-HasNewKeys : (seen ps : List (Params F)) → HasNewKeys seen (unique_behind o seen ps)
  unfolding unique_behind
  unique_behind-HasNewKeys seen [] = tt
  unique_behind-HasNewKeys seen (p ∷ ps) = elim (Bool-cases (any (same_key o p) seen)) [
    | inl e ↦ rw e (unique_behind-HasNewKeys seen ps)
    | inr e ↦ rw e (e, unique_behind-HasNewKeys (p ∷ seen) ps)
  ]

  take-HasNewKeys :
      (n : ℕ) (seen ps : List (Params F)) → HasNewKeys seen ps → HasNewKeys seen (take n ps)
  take-HasNewKeys zero seen ps h = tt
  take-HasNewKeys (suc n) seen [] h = tt
  take-HasNewKeys (suc n) seen (p ∷ ps) h = (h.0, take-HasNewKeys n (p ∷ seen) ps h.1)

  grid_suggestions-HasNewKeys :
      (e : Entry F) (es : List (Entry F)) → HasNewKeys [] (grid_suggestions o (e ∷ es))
  unfolding grid_suggestions
  grid_suggestions-HasNewKeys e es =
      take-HasNewKeys 15 [] _
        (unique_behind-HasNewKeys [] (variations_of o (take 3 (sort_runs o (e ∷ es)))))

  grid_suggestions_short : (history : List (Entry F)) → length (grid_suggestions o history) ≤ 20
  unfolding grid_suggestions
  grid_suggestions_short [] = omega (arith, length-take 20 (grid o))
  grid_suggestions_short (e ∷ es) =
      omega (
        arith,
        length-take 15 (unique_behind o [] (variations_of o (take 3 (sort_runs o (e ∷ es))))),
      )

  suggest_from-HasNewKeys :
      (e : Entry F) (es rs : List (Entry F))
      → (length (suggest_from o (e ∷ es) rs) ≤ 20) × HasNewKeys [] (suggest_from o (e ∷ es) rs)
  unfolding suggest_from heuristic_suggestions
  suggest_from-HasNewKeys e es [] =
      (grid_suggestions_short (e ∷ es), grid_suggestions-HasNewKeys e es)
  suggest_from-HasNewKeys e es (r ∷ rs) = elim (Bool-cases (ltb (length (r ∷ rs)) 5)) [
    | inl h ↦ rw h (grid_suggestions_short (e ∷ es), grid_suggestions-HasNewKeys e es)
    | inr h ↦ rw h (
      omega (
        arith,
        length-take 10 (unique_behind o [] (heuristic_variations o (least o r rs).params)),
      ),
      take-HasNewKeys 10 [] (unique_behind o [] (heuristic_variations o (least o r rs).params))
          (unique_behind-HasNewKeys [] (heuristic_variations o (least o r rs).params)),
    )
  ]

  -- For a history that is not empty there are at most 20 suggestions for every league, and no two of
  -- them agree on the feature, the window, the home advantage and rho.
  pub suggest-HasNewKeys :
      (league : ℕ) (e : Entry F) (es : List (Entry F))
      → (length (suggest o league (e ∷ es)) ≤ 20) × HasNewKeys [] (suggest o league (e ∷ es))
  unfolding suggest
  suggest-HasNewKeys league e es = suggest_from-HasNewKeys e es (relevant o league (e ∷ es))
