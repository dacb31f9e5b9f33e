-- ===== src/Picks/Finished.antt =====
-- What `resolve_predictions_for_match` of backend/app/history.py, whose UPDATE asks for a pending row,
-- does to the table of picks, row by row.
use ap2web.Picks.Rules.{Verdict}
use ap2web.Picks.Store.{Pick}
use ap2web.Picks.Resolve.{is_open, judge, resolve_each_pending, resolve_pending, settle}
use ap2web.Picks.Settled.{counted, settle_by, settle_by-id}
use ap2web.Prelude.{
  All, Bool, HasDistinct, List, Option, [], ap, arith, count_where, false, none, onto, refl, scan,
  scan-select, select, some, total_of, true, update_none, update_where, ℕ, ◌&&◌, ◌+◌, ◌==◌, ◌∙◌,
  ◌∷◌, ◌≡◌, ◌≢◌,
}
use ap2web.Floats.{Floats}

self_hit : (n : ℕ) (b : Bool) → b ≡ true → (n == n && b) ≡ true
self_hit n b e = ground (arith, e)

module _ {F : Type 0} where
  abbrev guarded : ℕ → Pick F → Bool
  guarded pid p = p.id == pid && is_open p

  count_guarded :
      (x : Pick F) (xs : List (Pick F))
      → All (λ y. y.id ≢ x.id) xs
      → count_where (guarded x.id) xs ≡ 0
  count_guarded x [] a = refl
  count_guarded x (y ∷ ys) a = ground (arith, a.0, count_guarded x ys a.1)

  guarded_here :
      (f : Pick F → Pick F) (x : Pick F) (xs : List (Pick F))
      → is_open x ≡ true
      → All (λ y. y.id ≢ x.id) xs
      → (count_where (guarded x.id) (x ∷ xs) ≡ 1)
        × (update_where (guarded x.id) f (x ∷ xs) ≡ f x ∷ xs)
  guarded_here f x xs e a = (
    rw (self_hit x.id (is_open x) e, count_guarded x xs a) refl,
    rw (self_hit x.id (is_open x) e, update_none (guarded x.id) f xs (count_guarded x xs a)) refl,
  )

  guarded_behind : (pid : ℕ) (y : Pick F) → pid ≢ y.id → guarded pid y ≡ false
  guarded_behind pid y h = ground (arith, h)

abbrev pub verdict_at : {F : Type 0} → Floats F → Option ℕ × Option ℕ → Pick F → Option (Verdict F)
verdict_at o score p = judge o (some score) p

module _ {F : Type 0} (o : Floats F) (now : ℕ) (score : Option ℕ × Option ℕ) where
  step : Pick F → ℕ × List (Pick F) → ℕ × List (Pick F)
  step p acc = resolve_pending o now p.id (verdict_at o score p) acc

  resolve_each_pending-scan :
      (ps : List (Pick F)) (acc : ℕ × List (Pick F))
      → resolve_each_pending o now score ps acc ≡ scan step ps acc
  unfolding resolve_each_pending step
  resolve_each_pending-scan [] acc = refl
  resolve_each_pending-scan (p ∷ ps) acc = resolve_each_pending-scan ps (step p acc)

  skips_by :
      (v : Option (Verdict F)) (pid : ℕ) (y : Pick F) (n : ℕ) (t : List (Pick F))
      → pid ≢ y.id
      → resolve_pending o now pid v (n, y ∷ t) ≡ onto y (resolve_pending o now pid v (n, t))
  skips_by none pid y n t h = refl
  skips_by (some v) pid y n t h = rw (guarded_behind pid y h) refl

  hits_by :
      (v : Option (Verdict F)) (p : Pick F) (n : ℕ) (t : List (Pick F))
      → is_open p ≡ true
      → All (λ y. y.id ≢ p.id) t
      → resolve_pending o now p.id v (n, p ∷ t) ≡ (n + counted v, settle_by now v p ∷ t)
  hits_by none p n t e a = ap (λ k. (k, p ∷ t)) (omega arith)
  hits_by (some v) p n t e a =
      ap (λ k. (n + k, update_where (guarded p.id) (settle now v) (p ∷ t)))
        (guarded_here (settle now v) p t e a).0
      ∙ ap (λ r. (n + 1, r)) (guarded_here (settle now v) p t e a).1

  pub resolve_pending_all :
      (q : Pick F → Bool) (t : List (Pick F))
      → ((p : Pick F) → q p ≡ true → is_open p ≡ true)
      → HasDistinct (λ p. p.id) t
      → resolve_each_pending o now score (select q t) (0, t) ≡ (
        total_of (λ p. counted (verdict_at o score p)) (select q t),
        update_where q (λ p. settle_by now (verdict_at o score p) p) t,
      )
  unfolding step
  resolve_pending_all q t asks d =
      resolve_each_pending-scan (select q t) (0, t)
      ∙ scan-select (λ p. p.id) step (λ p. counted (verdict_at o score p))
          (λ p. settle_by now (verdict_at o score p) p) q
          (λ p y n t h. skips_by (verdict_at o score p) p.id y n t h)
          (λ p n t e a. hits_by (verdict_at o score p) p n t (asks p e) a)
          (λ p. settle_by-id now (verdict_at o score p) p) t 0 d
      ∙ ap (λ k. (k, update_where q (λ p. settle_by now (verdict_at o score p) p) t)) (omega arith)
