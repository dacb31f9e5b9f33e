-- ===== src/Learning/Stored.antt =====
-- What `calibrate_league` of backend/app/learning/calibration.py stores and returns.
use ap2web.Learning.Features.{Match, TeamStats}
use ap2web.Learning.Engine.{Probs}
use ap2web.Learning.Calibration.{
  Candidate, LeagueModel, calibrate_league, league_run, parameter_grid, upsert_model,
}
use ap2web.Learning.Selection.{IsFrom, IsLinear, IsUnbeaten, eligible, search-IsUnbeaten}
use ap2web.Prelude.{
  ==_iff, All, Bool, Bool-cases, List, [], any, false, first, inl, inr, none, refl, some, true,
  update_where, ℕ, ◌++◌, ◌==◌, ◌∷◌, ◌≡◌, ◌⊎◌,
}
use ap2web.Floats.{Floats}

module _ {F : Type 0} where
  -- The row of a league says what its candidate says.
  abbrev pub Stores : LeagueModel F → Candidate F → Type 0
  Stores r c =
      (r.home_advantage ≡ c.params.ha)
      × (r.window ≡ c.params.window)
      × (r.feature ≡ c.params.feature)
      × (r.rho ≡ c.params.rho)
      × (r.brier ≡ some c.result.brier)
      × (r.accuracy ≡ some c.result.accuracy)
      × (r.sample_count ≡ some c.result.total)

  abbrev pub of_league : ℕ → LeagueModel F → Bool
  of_league league r = r.league_id == league

  first-update :
      (league : ℕ) (f : LeagueModel F → LeagueModel F) (c : Candidate F)
      (table : List (LeagueModel F))
      → ((r : LeagueModel F) → ((f r).league_id ≡ r.league_id) × Stores (f r) c)
      → any (of_league league) table ≡ true
      → (r : LeagueModel F) × (first (of_league league) (update_where (of_league league) f table)
          ≡ some r)
        × Stores r c
  first-update league f c [] keeps h = cc
  first-update league f c (x ∷ xs) keeps h = elim (Bool-cases (x.league_id == league)) [
    | inl e ↦ (f x, rw (e, (keeps x).0, e) refl, (keeps x).1)
    | inr e ↦ let (r, g, s) = first-update league f c xs keeps (rw e at h) in (r, rw (e, e) g, s)
  ]

  first_last :
      (league : ℕ) (y : LeagueModel F) (table : List (LeagueModel F))
      → any (of_league league) table ≡ false
      → y.league_id ≡ league
      → first (of_league league) (table ++ (y ∷ [])) ≡ some y
  first_last league y [] h e = rw ((==_iff y.league_id league).1 e) refl
  first_last league y (x ∷ xs) h e = elim (Bool-cases (x.league_id == league)) [
    | inl f ↦ cc (rw f at h)
    | inr f ↦ rw f (first_last league y xs (rw f at h) e)
  ]

  upsert_model-Stores :
      (league now : ℕ) (c : Candidate F) (table : List (LeagueModel F))
      → (r : LeagueModel F) × (first (of_league league) (upsert_model league now c table) ≡ some r)
        × Stores r c
  unfolding upsert_model
  upsert_model-Stores league now c table = elim (Bool-cases (any (of_league league) table)) [
    | inl e ↦
        rw (e, upsert_model)
          (first-update league _ c table (λ r. (refl, (refl, refl, refl, refl, refl, refl, refl)))
            e)
    | inr e ↦
        rw (e, upsert_model)
          (_, first_last league _ table e refl, (refl, refl, refl, refl, refl, refl, refl))
  ]

-- For floats that compare as a linear order, calibrate_league returns nothing and changes nothing
-- exactly where no point of the grid has the least number of samples. Otherwise it returns a point of
-- the grid that has, which none of the others that have beats by its Brier score, or by its accuracy
-- where the scores are equal, and the row of the league says what that point does.
pub calibrate_league-cases :
    {F : Type 0} (o : Floats F) (rank : F → ℕ)
    → IsLinear o rank
    → (predict : F → F → TeamStats F → TeamStats F → Probs F) (rows : ℕ → List Match)
      (now league : ℕ) (table : List (LeagueModel F))
    → ((calibrate_league o predict rows now league table ≡ (none, table))
        × All (λ p. eligible o (league_run o predict rows league p) ≡ false) (parameter_grid o))
      ⊎ ((c : Candidate F) × (r : LeagueModel F) × ((calibrate_league o predict rows now league
              table).0
            ≡ some c)
          × (first (of_league league) (calibrate_league o predict rows now league table).1 ≡ some r)
          × Stores r c
          × IsFrom o (league_run o predict rows league) none (parameter_grid o) c
          × IsUnbeaten o (league_run o predict rows league) (parameter_grid o) c.result)
unfolding calibrate_league
calibrate_league-cases o rank linear predict rows now league table =
    elim (search-IsUnbeaten o rank linear (league_run o predict rows league) (parameter_grid o)) [
      | inl (e, a) ↦ inl (rw (e, calibrate_league) refl, a)
      | inr (c, e, f, u) ↦
          let (r, g, s) = upsert_model-Stores league now c table in
          inr (c, r, rw (e, calibrate_league) refl, rw (e, calibrate_league) g, s, f, u)
    ]
