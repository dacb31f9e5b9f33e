-- ===== src/Picks/Settled.antt =====
-- What `resolve_predictions` and `resolve_predictions_for_match` of backend/app/history.py do to the
-- table of picks, row by row.
use ap2web.Picks.Rules.{Verdict}
use ap2web.Picks.Store.{MatchRow, Pick, has_pick_id}
use ap2web.Picks.Resolve.{judge, resolve_each, resolve_one, score_of, settle}
use ap2web.Prelude.{
  All, Bool, HasDistinct, List, Option, [], ap, arith, count-others, false, if◌then◌else◌, map,
  none, onto, refl, scan, scan-select, select, some, suc, total_of, true, update_none, update_where,
  ℕ, ◌+◌, ◌==◌, ◌∙◌, ◌∷◌, ◌≡◌, ◌≢◌,
}
use ap2web.Floats.{Floats}

abbrev pub settle_by : {F : Type 0} → ℕ → Option (Verdict F) → Pick F → Pick F
settle_by now none p = p
settle_by now (some v) p = settle now v p

abbrev pub counted : {F : Type 0} → Option (Verdict F) → ℕ
counted none = 0
counted (some v) = 1

module _ {F : Type 0} where
  pub settle_by-id : (now : ℕ) (v : Option (Verdict F)) (p : Pick F) → (settle_by now v p).id ≡ p.id
  settle_by-id now none p = refl
  settle_by-id now (some v) p = refl

  -- An UPDATE by id changes the row with the id alone.
  update_here :
      (f : Pick F → Pick F) (x : Pick F) (xs : List (Pick F))
      → All (λ y. y.id ≢ x.id) xs
      → update_where (has_pick_id x.id) f (x ∷ xs) ≡ f x ∷ xs
  update_here f x xs a =
      rw
        (
          self x.id,
          update_none (has_pick_id x.id) f xs (count-others (λ (p : Pick F). p.id) x xs a),
        )
        refl
    where
      self : (n : ℕ) → (n == n) ≡ true
      self n = ground arith

  update_behind :
      (f : Pick F → Pick F) (p y : Pick F) (xs : List (Pick F))
      → p.id ≢ y.id
      → update_where (has_pick_id p.id) f (y ∷ xs) ≡ y ∷ update_where (has_pick_id p.id) f xs
  update_behind f p y xs h = rw differ refl
    where
      differ : (y.id == p.id) ≡ false
      differ = ground (arith, h)

-- The verdict on a pick, where there is one.
abbrev pub verdict_of : {F : Type 0} → Floats F → List MatchRow → Pick F → Option (Verdict F)
verdict_of o ms p = judge o (score_of ms p) p

module _ {F : Type 0} (o : Floats F) (now : ℕ) where
  module _ (ms : List MatchRow) where
    step : Pick F → ℕ × List (Pick F) → ℕ × List (Pick F)
    step p acc = resolve_one o now p.id (verdict_of o ms p) acc

    resolve_each-scan :
        (ps : List (Pick F)) (acc : ℕ × List (Pick F))
        → resolve_each o now ms ps acc ≡ scan step ps acc
    unfolding resolve_each step
    resolve_each-scan [] acc = refl
    resolve_each-scan (p ∷ ps) acc = resolve_each-scan ps (step p acc)

    skips_by :
        (v : Option (Verdict F)) (p y : Pick F) (n : ℕ) (t : List (Pick F))
        → p.id ≢ y.id
        → resolve_one o now p.id v (n, y ∷ t) ≡ onto y (resolve_one o now p.id v (n, t))
    skips_by none p y n t h = refl
    skips_by (some v) p y n t h = ap (λ r. (suc n, r)) (update_behind (settle now v) p y t h)

    hits_by :
        (v : Option (Verdict F)) (p : Pick F) (n : ℕ) (t : List (Pick F))
        → All (λ y. y.id ≢ p.id) t
        → resolve_one o now p.id v (n, p ∷ t) ≡ (n + counted v, settle_by now v p ∷ t)
    hits_by none p n t a = ap (λ k. (k, p ∷ t)) (omega arith)
    hits_by (some v) p n t a =
        ap (λ r. (suc n, r)) (update_here (settle now v) p t a)
        ∙ ap (λ k. (k, settle now v p ∷ t)) (omega arith)

    pub resolve_all :
        (q : Pick F → Bool) (t : List (Pick F))
        → HasDistinct (λ p. p.id) t
        → resolve_each o now ms (select q t) (0, t) ≡ (
          total_of (λ p. counted (verdict_of o ms p)) (select q t),
          map (λ p. if q p then settle_by now (verdict_of o ms p) p else p) t,
        )
    unfolding step
    resolve_all q t d =
        resolve_each-scan (select q t) (0, t)
        ∙ scan-select (λ p. p.id) step (λ p. counted (verdict_of o ms p))
            (λ p. settle_by now (verdict_of o ms p) p) q
            (λ p y n t h. skips_by (verdict_of o ms p) p y n t h)
            (λ p n t e a. hits_by (verdict_of o ms p) p n t a)
            (λ p. settle_by-id now (verdict_of o ms p) p) t 0 d
        ∙ ap (λ k. (k, update_where q (λ p. settle_by now (verdict_of o ms p) p) t)) (omega arith)
