-- ===== src/Picks/Counts.antt =====
-- What `stats` of backend/app/history.py returns after any run.
use ap2web.Picks.Rules.{Verdict}
use ap2web.Picks.Store.{
  Db, Pick, PickStatus, Provenance, correct, owned, pending, same_status, wrong,
}
use ap2web.Picks.Resolve.{
  PickStats, is_open, mine_pending, numbers, resolve_predictions, stats, stats_of,
}
use ap2web.Picks.Settled.{settle_by, verdict_of}
use ap2web.Picks.Resolved.{resolve_predictions_lem}
use ap2web.Picks.Runs.{IsScored, Run, Run-IsSound, resolved}
use ap2web.Prelude.{
  All, All-map, All-select, Bool-cases, HasDistinct, List, Option, Option-cases, Text, [], ap,
  arith, count_kept, count_where, false, if◌then◌else◌, inl, inr, is_some, length, length-select,
  map, none, not, refl, select, some, suc, true, ℕ, ◌+◌, ◌∙◌, ◌∷◌, ◌≡◌,
}
use ap2web.Floats.{Floats}

module _ {F : Type 0} where
  count_statuses :
      (xs : List (Pick F))
      → count_where (λ p. same_status p.status correct) xs
          + count_where (λ p. same_status p.status wrong) xs
          + count_where is_open xs
        ≡ length xs
  count_statuses [] = omega arith
  count_statuses (x ∷ xs) = by_status x.status xs (count_statuses xs)
    where
      by_status :
          (s : PickStatus) (ys : List (Pick F))
          → count_where (λ p. same_status p.status correct) ys
              + count_where (λ p. same_status p.status wrong) ys
              + count_where is_open ys
            ≡ length ys
          → (if same_status s correct
                then suc (count_where (λ p. same_status p.status correct) ys)
                else count_where (λ p. same_status p.status correct) ys)
              + (if same_status s wrong
                  then suc (count_where (λ p. same_status p.status wrong) ys)
                  else count_where (λ p. same_status p.status wrong) ys)
              + (if same_status s pending
                  then suc (count_where is_open ys)
                  else count_where is_open ys)
            ≡ suc (length ys)
      by_status pending ys h = omega (arith, h)
      by_status correct ys h = omega (arith, h)
      by_status wrong ys h = omega (arith, h)

  -- A column without NULLs among the rows that are resolved.
  numbers-resolved :
      (f : Pick F → Option F) (xs : List (Pick F))
      → All (λ p. is_open p ≡ false → is_some (f p) ≡ true) xs
      → (ys : List F) × (numbers (map f (select (λ p. not (is_open p)) xs)) ≡ some ys)
  numbers-resolved f [] a = ([], refl)
  numbers-resolved f (x ∷ xs) a = elim (Bool-cases (is_open x)) [
    | inl e ↦ rw e (numbers-resolved f xs a.1)
    | inr e ↦ elim (Option-cases (f x)) [
      | inl n ↦ cc (rw n at (a.0 e))
      | inr (y, n) ↦
          let (ys, m) = numbers-resolved f xs a.1 in (y ∷ ys, rw e (rw (n, m, numbers) refl))
    ]
  ]

  resolved_scores :
      (p : Pick F)
      → IsScored p
      → is_open p ≡ false
      → (is_some p.brier_score ≡ true) × (is_some p.log_loss ≡ true)
  resolved_scores p (inl e) n = cc
  resolved_scores p (inr s) n = s

  owned_by :
      (now user : ℕ) (v : Option (Verdict F)) (p : Pick F)
      → owned user (settle_by now v p) ≡ owned user p
  owned_by now user none p = refl
  owned_by now user (some v) p = refl

module _ {F : Type 0} (o : Floats F) (from_iso : Text → Option ℕ) (isoformat : ℕ → Text)
    (predict_match : ℕ → Option Provenance) where
  kept_picks :
      (user now : ℕ) (db : Db F)
      → HasDistinct (λ p. p.id) db.picks
      → length (select (owned user) (resolve_predictions o user now db).1.picks)
        ≡ count_where (owned user) db.picks
  kept_picks user now db d =
      length-select (owned user) (resolve_predictions o user now db).1.picks
      ∙ ap (λ r. count_where (owned user) r.1.picks) (resolve_predictions_lem o user now db d)
      ∙ count_kept (owned user) (mine_pending user)
          (λ p. settle_by now (verdict_of o db.matches p) p) db.picks
          (λ p. owned_by now user (verdict_of o db.matches p) p)

  -- After every run, `stats` returns, since no score of a resolved pick is missing, and its total,
  -- the sum of the counts by status, is the number of the user's picks.
  pub stats-Run :
      (user now : ℕ) {db : Db F}
      → Run o from_iso isoformat predict_match db
      → (s : PickStats F) × ((stats o user now db).0 ≡ some s)
        × (s.total ≡ s.correct + s.wrong + s.pending)
        × (s.total ≡ count_where (owned user) db.picks)
  unfolding stats stats_of
  stats-Run user now {db} r =
      let after = (resolve_predictions o user now db).1 in
      let mine = select (owned user) after.picks in
      let scored =
        All-select (λ (p : Pick F). IsScored p) (owned user) after.picks
          (Run-IsSound o from_iso isoformat predict_match (resolved user now r)).2 in
      let (briers, e) =
        numbers-resolved (λ p. p.brier_score) mine
          (All-map (λ (p : Pick F). IsScored p)
            (λ p. is_open p ≡ false → is_some p.brier_score ≡ true) mine
            (λ p h n. (resolved_scores p h n).0) scored) in
      let (losses, f) =
        numbers-resolved (λ p. p.log_loss) mine
          (All-map (λ (p : Pick F). IsScored p) (λ p. is_open p ≡ false → is_some p.log_loss ≡ true)
            mine (λ p h n. (resolved_scores p h n).1) scored) in
      (
        stats_of o mine briers losses,
        rw (e, f, stats) refl,
        refl,
        count_statuses mine
            ∙ kept_picks user now db (Run-IsSound o from_iso isoformat predict_match r).0,
      )
