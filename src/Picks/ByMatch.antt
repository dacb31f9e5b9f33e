-- ===== src/Picks/ByMatch.antt =====
-- The contract of `resolve_predictions_for_match` of backend/app/history.py.
use ap2web.Picks.Store.{Db, Pick}
use ap2web.Picks.Resolve.{
  is_id, is_open, of_match, resolve_each_pending, resolve_match_id, resolve_predictions_for_match,
}
use ap2web.Picks.Settled.{counted, settle_by}
use ap2web.Picks.Finished.{resolve_pending_all, verdict_at}
use ap2web.Picks.Resolved.{counted_by}
use ap2web.Prelude.{
  HasDistinct, List, Option, Option-cases, and-eq-true, ap, count_where, inl, inr, is_some, none,
  refl, select, some, total_of-select, update_where, ℕ, ◌&&◌, ◌∙◌, ◌≡◌, ◌⊎◌,
}
use ap2web.Floats.{Floats}

module _ {F : Type 0} (o : Floats F) where
  abbrev stored : Db F → ℕ × List (Pick F) → ℕ × Db F
  stored db r = (r.0, record db { picks = r.1 })

  -- Where ids are unique, resolve_predictions_for_match does nothing for a match that is not played,
  -- and otherwise is one pass over the table: each pending pick on the match whose kind is judged is
  -- settled with its verdict on the match's score, every other row stays as it is, and the number
  -- returned is that of the settled picks.
  pub resolve_predictions_for_match_lem :
      (mid now : ℕ) (db : Db F)
      → HasDistinct (λ p. p.id) db.picks
      → ((resolve_match_id mid db.matches ≡ none)
          × (resolve_predictions_for_match o mid now db ≡ (0, db)))
        ⊎ ((score : Option ℕ × Option ℕ) × (resolve_match_id mid db.matches ≡ some score)
            × (resolve_predictions_for_match o mid now db ≡ (
              count_where (λ p. of_match mid p && is_some (verdict_at o score p)) db.picks,
              record db {
                picks =
                    update_where
                      (of_match mid)
                      (λ p. settle_by now (verdict_at o score p) p)
                      db.picks;
              },
            )))
  unfolding resolve_predictions_for_match
  resolve_predictions_for_match_lem mid now db d =
      elim (Option-cases (resolve_match_id mid db.matches)) [
        | inl e ↦ inl (e, rw (e, resolve_predictions_for_match) refl)
        | inr (score, e) ↦ inr (score, e, rw (e, resolve_predictions_for_match) (passes score))
      ]
    where
      passes :
          (score : Option ℕ × Option ℕ)
          → stored db
              (resolve_each_pending o now score (select (of_match mid) db.picks) (0, db.picks))
            ≡ (
              count_where (λ p. of_match mid p && is_some (verdict_at o score p)) db.picks,
              record db {
                picks =
                    update_where
                      (of_match mid)
                      (λ p. settle_by now (verdict_at o score p) p)
                      db.picks;
              },
            )
      passes score =
          ap (stored db) (
            resolve_pending_all o now score (of_match mid) db.picks
              (λ p e. (and-eq-true (is_id mid p.match_id) (is_open p) e).1) d)
          ∙ ap
              (λ n. (
                n,
                record db {
                  picks =
                      update_where (of_match mid) (λ p. settle_by now (verdict_at o score p) p)
                        db.picks;
                },
              ))
              (total_of-select (of_match mid) (λ p. is_some (verdict_at o score p))
                (λ p. counted (verdict_at o score p)) db.picks
                (λ p. counted_by o (verdict_at o score p)))
