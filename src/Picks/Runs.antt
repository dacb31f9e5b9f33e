-- ===== src/Picks/Runs.antt =====
-- Every sequence of calls of backend/app/history.py, with changes of the matches by the synchronisation
-- in between, and what holds of the table of picks throughout.
use ap2web.Picks.Rules.{Verdict}
use ap2web.Picks.Store.{
  Db, Draft, MatchRow, Pick, Provenance, SaveError, Team, delete_prediction, pending,
  save_prediction,
}
use ap2web.Picks.Resolve.{
  is_open, mine_pending, of_match, resolve_predictions, resolve_predictions_for_match,
}
use ap2web.Picks.Settled.{settle_by, settle_by-id, verdict_of}
use ap2web.Picks.Finished.{verdict_at}
use ap2web.Picks.Resolved.{resolve_predictions_lem}
use ap2web.Picks.ByMatch.{resolve_predictions_for_match_lem}
use ap2web.Picks.Saves.{save_prediction-cases}
use ap2web.Prelude.{
  All, All-append, All-map, All-select, All-update_any, Bool, HasDistinct, HasDistinct-append_one,
  HasDistinct-select, HasDistinct-update_where, List, Option, Result, Text, [], arith, inl, inr,
  is_some, none, not, refl, some, subst, suc, sym, true, update_where, ℕ, ◌&&◌, ◌++◌, ◌<◌, ◌==◌,
  ◌∷◌, ◌≡◌, ◌≢◌, ◌⊎◌,
}
use ap2web.Floats.{Floats}

abbrev pub IsScored : {F : Type 0} → Pick F → Type 0
IsScored p = (is_open p ≡ true) ⊎ ((is_some p.brier_score ≡ true) × (is_some p.log_loss ≡ true))

-- The ids are those of different inserts, and a pick that is not pending has its scores.
abbrev pub IsSound : {F : Type 0} → Db F → Type 0
IsSound db =
    HasDistinct (λ p. p.id) db.picks
    × All (λ p. p.id < db.next_pick) db.picks
    × All (λ p. IsScored p) db.picks

module _ {F : Type 0} (o : Floats F) (from_iso : Text → Option ℕ) (isoformat : ℕ → Text)
    (predict_match : ℕ → Option Provenance) where
  pub data Run : Db F → Type 0 where
    started :
        (ms : List MatchRow) (ts : List Team)
        → Run (record { matches = ms; teams = ts; picks = []; next_pick = 1 })
    synced :
        (ms : List MatchRow) (ts : List Team) {db : Db F}
        → Run db
        → Run (record db { matches = ms; teams = ts })
    saved :
        (user now : ℕ) (d : Draft F) {db : Db F}
        → Run db
        → Run (save_prediction from_iso isoformat predict_match user now d db).1
    deleted : (user pid : ℕ) {db : Db F} → Run db → Run (delete_prediction user pid db).1
    resolved : (user now : ℕ) {db : Db F} → Run db → Run (resolve_predictions o user now db).1
    finished :
        (mid now : ℕ) {db : Db F} → Run db → Run (resolve_predictions_for_match o mid now db).1

module _ {F : Type 0} where
  settle_by-IsScored :
      (now : ℕ) (v : Option (Verdict F)) (p : Pick F) → IsScored p → IsScored (settle_by now v p)
  settle_by-IsScored now none p h = h
  settle_by-IsScored now (some v) p h = inr (refl, refl)

  -- A pass that settles some of the rows.
  pass-IsSound :
      (now : ℕ) (q : Pick F → Bool) (f : Pick F → Option (Verdict F)) (db : Db F)
      → IsSound db
      → IsSound (record db { picks = update_where q (λ p. settle_by now (f p) p) db.picks })
  pass-IsSound now q f db s = (
    HasDistinct-update_where (λ p. p.id) q (λ p. settle_by now (f p) p) db.picks
        (λ p. settle_by-id now (f p) p) s.0,
    All-update_any (λ (p : Pick F). p.id < db.next_pick) q (λ p. settle_by now (f p) p) db.picks
        (λ p h. rw (settle_by-id now (f p) p) h) s.1,
    All-update_any (λ (p : Pick F). IsScored p) q (λ p. settle_by now (f p) p) db.picks
        (λ p h. settle_by-IsScored now (f p) p h) s.2,
  )

  delete_prediction-IsSound :
      (user pid : ℕ) (db : Db F) → IsSound db → IsSound (delete_prediction user pid db).1
  unfolding delete_prediction
  delete_prediction-IsSound user pid db s = (
    HasDistinct-select (λ p. p.id) (λ p. not (p.id == pid && p.user_id == user)) db.picks s.0,
    All-select (λ (p : Pick F). p.id < db.next_pick) (λ p. not (p.id == pid && p.user_id == user))
        db.picks s.1,
    All-select (λ (p : Pick F). IsScored p) (λ p. not (p.id == pid && p.user_id == user)) db.picks
        s.2,
  )

  append-IsSound :
      (row : Pick F) (db : Db F)
      → row.id ≡ db.next_pick
      → row.status ≡ pending
      → IsSound db
      → IsSound (record db { picks = db.picks ++ (row ∷ []); next_pick = suc db.next_pick })
  append-IsSound row db e st s = (
    HasDistinct-append_one (λ p. p.id) db.picks row
        (All-map (λ (p : Pick F). p.id < db.next_pick) (λ p. row.id ≢ p.id) db.picks
          (λ p h. ground (arith, h, e)) s.1)
        s.0,
    All-append (λ (p : Pick F). p.id < suc db.next_pick) db.picks (row ∷ [])
        (All-map (λ (p : Pick F). p.id < db.next_pick) (λ p. p.id < suc db.next_pick) db.picks
          (λ p h. omega (arith, h)) s.1)
        (omega (arith, e), tt),
    All-append (λ (p : Pick F). IsScored p) db.picks (row ∷ []) s.2 (open_row, tt),
  )
    where
      open_row : IsScored row
      open_row = inl (rw st refl)

module _ {F : Type 0} (o : Floats F) where
  resolve_predictions-IsSound :
      (user now : ℕ) (db : Db F) → IsSound db → IsSound (resolve_predictions o user now db).1
  resolve_predictions-IsSound user now db s =
      subst (λ (r : ℕ × Db F). IsSound r.1) (sym (resolve_predictions_lem o user now db s.0))
        (pass-IsSound now (mine_pending user) (λ p. verdict_of o db.matches p) db s)

  resolve_predictions_for_match-IsSound :
      (mid now : ℕ) (db : Db F)
      → IsSound db
      → IsSound (resolve_predictions_for_match o mid now db).1
  resolve_predictions_for_match-IsSound mid now db s =
      elim (resolve_predictions_for_match_lem o mid now db s.0) [
        | inl (a, e) ↦ subst (λ (r : ℕ × Db F). IsSound r.1) (sym e) s
        | inr (score, a, e) ↦
            subst (λ (r : ℕ × Db F). IsSound r.1) (sym e)
              (pass-IsSound now (of_match mid) (λ p. verdict_at o score p) db s)
      ]

  module _ (from_iso : Text → Option ℕ) (isoformat : ℕ → Text)
      (predict_match : ℕ → Option Provenance) where
    save_prediction-IsSound :
        (user now : ℕ) (d : Draft F) (db : Db F)
        → IsSound db
        → IsSound (save_prediction from_iso isoformat predict_match user now d db).1
    save_prediction-IsSound user now d db s =
        elim (save_prediction-cases from_iso isoformat predict_match user now d db) [
          | inl (x, e) ↦ subst (λ (r : Result SaveError (Pick F) × Db F). IsSound r.1) (sym e) s
          | inr (row, e, i, u, a) ↦
              subst (λ (r : Result SaveError (Pick F) × Db F). IsSound r.1) (sym e)
                (append-IsSound row db i a.3 s)
        ]

    -- Throughout every run of saves, deletions, resolutions and synchronisations, the picks have
    -- different ids, all below the next one, and each pick that is not pending has both its scores.
    pub Run-IsSound : {db : Db F} → Run o from_iso isoformat predict_match db → IsSound db
    Run-IsSound (started ms ts) = (tt, tt, tt)
    Run-IsSound (synced ms ts r) = Run-IsSound r
    Run-IsSound (saved user now d {db} r) = save_prediction-IsSound user now d db (Run-IsSound r)
    Run-IsSound (deleted user pid {db} r) = delete_prediction-IsSound user pid db (Run-IsSound r)
    Run-IsSound (resolved user now {db} r) = resolve_predictions-IsSound user now db (Run-IsSound r)
    Run-IsSound (finished mid now {db} r) =
        resolve_predictions_for_match-IsSound mid now db (Run-IsSound r)
