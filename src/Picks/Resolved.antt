-- ===== src/Picks/Resolved.antt =====
-- The contract of the resolution of backend/app/history.py: one pass over the table, which a second
-- run does not change.
use ap2web.Picks.Rules.{Verdict}
use ap2web.Picks.Store.{Db, MatchRow, Pick}
use ap2web.Picks.Resolve.{
  is_fixture, is_open, judge, mine_pending, resolve_fixture, resolve_predictions, score_by,
  score_of, settle,
}
use ap2web.Picks.Settled.{counted, resolve_all, settle_by, settle_by-id, verdict_of}
use ap2web.Prelude.{
  All, All-map, Bool, Bool-cases, HasDistinct, HasDistinct-update_where, List, Option, [], ap,
  arith, count_same, count_where, false, if◌then◌else◌, inl, inr, is_some, none, refl, some, sym,
  total_of-select, true, update_same, update_where, ℕ, ◌&&◌, ◌==◌, ◌∙◌, ◌∷◌, ◌≡◌,
}
use ap2web.Floats.{Floats}

module _ {F : Type 0} (o : Floats F) where
  pub counted_by : (v : Option (Verdict F)) → counted v ≡ (if is_some v then 1 else 0)
  counted_by none = refl
  counted_by (some v) = refl

  -- Where ids are unique, resolve_predictions is one pass over the table: each pending pick of the
  -- user whose match has a result, and whose kind is judged, is settled with its own verdict, every
  -- other row stays as it is, and the number returned is that of the settled picks.
  pub resolve_predictions_lem :
      (user now : ℕ) (db : Db F)
      → HasDistinct (λ p. p.id) db.picks
      → resolve_predictions o user now db ≡ (
        count_where (λ p. mine_pending user p && is_some (verdict_of o db.matches p)) db.picks,
        record db {
          picks =
              update_where
                (mine_pending user)
                (λ p. settle_by now (verdict_of o db.matches p) p)
                db.picks;
        },
      )
  unfolding resolve_predictions
  resolve_predictions_lem user now db d =
      ap (λ r. (r.0, record db { picks = r.1 }))
        (resolve_all o now db.matches (mine_pending user) db.picks d)
      ∙ ap
          (λ n. (
            n,
            record db {
              picks =
                  update_where (mine_pending user)
                    (λ p. settle_by now (verdict_of o db.matches p) p) db.picks;
            },
          ))
          (total_of-select (mine_pending user) (λ p. is_some (verdict_of o db.matches p))
            (λ p. counted (verdict_of o db.matches p)) db.picks
            (λ p. counted_by (verdict_of o db.matches p)))

  settled_by :
      (now : ℕ) (v : Option (Verdict F)) (p : Pick F)
      → (is_open (settle_by now v p) && is_some v) ≡ false
  settled_by now none p = ground arith
  settled_by now (some v) p = elim (Bool-cases v.result) [ inl e ↦ rw e refl | inr e ↦ rw e refl ]

  same_by :
      (now : ℕ) (v : Option (Verdict F)) (p : Pick F) → is_some v ≡ false → settle_by now v p ≡ p
  same_by now none p e = refl
  same_by now (some v) p e = cc

  unjudged : (a b c : Bool) → (b && c) ≡ false → ((a && b) && c) ≡ false
  unjudged a b c h = ground (arith, h)

  score_kept :
      (now : ℕ) (ms : List MatchRow) (v : Verdict F) (p : Pick F) (mid : Option ℕ)
      → score_by (settle now v p) ms mid ≡ score_by p ms mid
  unfolding score_by resolve_fixture is_fixture
  score_kept now ms v p none = refl
  score_kept now ms v p (some mid) = refl

  judge_kept :
      (now : ℕ) (v : Verdict F) (p : Pick F) (score : Option (Option ℕ × Option ℕ))
      → judge o score (settle now v p) ≡ judge o score p
  unfolding judge
  judge_kept now v p none = refl
  judge_kept now v p (some score) = refl

  verdict_kept :
      (now : ℕ) (ms : List MatchRow) (v : Option (Verdict F)) (p : Pick F)
      → verdict_of o ms (settle_by now v p) ≡ verdict_of o ms p
  unfolding score_of
  verdict_kept now ms none p = refl
  verdict_kept now ms (some v) p =
      ap (λ s. judge o s (settle now v p)) (score_kept now ms v p p.match_id)
      ∙ judge_kept now v p (score_of ms p)

  -- The rows after a pass of the loop are not settled again.
  none_left :
      (user now : ℕ) (ms : List MatchRow) (xs : List (Pick F))
      → All
          (λ p. (mine_pending user p && is_some (verdict_of o ms p)) ≡ false)
          (update_where (mine_pending user) (λ p. settle_by now (verdict_of o ms p) p) xs)
  none_left user now ms [] = tt
  none_left user now ms (x ∷ xs) = (
    elim (Bool-cases (mine_pending user x)) [
      | inl e ↦ rw e (here x)
      | inr e ↦ rw e (ap (λ b. b && is_some (verdict_of o ms x)) e)
    ],
    none_left user now ms xs,
  )
    where
      here :
          (p : Pick F)
          → (mine_pending user (settle_by now (verdict_of o ms p) p)
              && is_some (verdict_of o ms (settle_by now (verdict_of o ms p) p)))
            ≡ false
      here p =
          unjudged ((settle_by now (verdict_of o ms p) p).user_id == user)
            (is_open (settle_by now (verdict_of o ms p) p))
            (is_some (verdict_of o ms (settle_by now (verdict_of o ms p) p)))
            (rw (verdict_kept now ms (verdict_of o ms p) p) (settled_by now (verdict_of o ms p) p))

  left_same :
      (now : ℕ) (ms : List MatchRow) (b : Bool) (p : Pick F)
      → (b && is_some (verdict_of o ms p)) ≡ false
      → b ≡ true
      → settle_by now (verdict_of o ms p) p ≡ p
  left_same now ms true p h e = same_by now (verdict_of o ms p) p h
  left_same now ms false p h e = cc

  -- One pass over the table.
  abbrev passed : ℕ → ℕ → Db F → Db F
  passed user now db = record db {
    picks =
        update_where (mine_pending user) (λ p. settle_by now (verdict_of o db.matches p) p)
          db.picks;
  }

  passed_again :
      (user now later : ℕ) (db : Db F)
      → HasDistinct (λ p. p.id) db.picks
      → resolve_predictions o user later (passed user now db) ≡ (0, passed user now db)
  passed_again user now later db d =
      resolve_predictions_lem user later (passed user now db) (
        HasDistinct-update_where (λ p. p.id) (mine_pending user)
          (λ p. settle_by now (verdict_of o db.matches p) p) db.picks
          (λ p. settle_by-id now (verdict_of o db.matches p) p) d)
      ∙ ap (λ n. (n, passed user later (passed user now db)))
          (count_same (λ p. mine_pending user p && is_some (verdict_of o db.matches p))
            (passed user now db).picks (none_left user now db.matches db.picks))
      ∙ ap (λ xs. (0, record db { picks = xs }))
          (update_same (mine_pending user) (λ p. settle_by later (verdict_of o db.matches p) p)
            (passed user now db).picks
            (All-map (λ p. (mine_pending user p && is_some (verdict_of o db.matches p)) ≡ false)
              (λ p. mine_pending user p ≡ true → settle_by later (verdict_of o db.matches p) p ≡ p)
              (passed user now db).picks
              (λ p h e. left_same later db.matches (mine_pending user p) p h e)
              (none_left user now db.matches db.picks)))

  -- Where ids are unique, a second resolve_predictions of the same user on the same matches, at any
  -- time, settles no pick and changes nothing.
  pub resolve_predictions-resolve_predictions :
      (user now later : ℕ) (db : Db F)
      → HasDistinct (λ p. p.id) db.picks
      → resolve_predictions o user later (resolve_predictions o user now db).1
        ≡ (0, (resolve_predictions o user now db).1)
  resolve_predictions-resolve_predictions user now later db d =
      ap (λ r. resolve_predictions o user later r.1) (resolve_predictions_lem user now db d)
      ∙ passed_again user now later db d
      ∙ sym (ap (λ r. (0, r.1)) (resolve_predictions_lem user now db d))
