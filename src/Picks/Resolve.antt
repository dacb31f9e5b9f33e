-- ===== src/Picks/Resolve.antt =====
-- `resolve_predictions` and `resolve_predictions_for_match` of backend/app/history.py, with the scores
-- that they look up, and `list_predictions` and `stats`, which resolve first.
-- The order of two texts by their code points.
use ap2web.Picks.Rules.{Verdict, result_of_pick_v2}
use ap2web.Picks.Store.{
  Db, MatchRow, Pick, correct, has_pick_id, owned, pending, same_status, status_is, wrong,
}
use ap2web.Prelude.{
  Bool, List, Option, Text, [], codes, count_where, false, first, if◌then◌else◌, is_empty, length,
  ltb, map, none, not, select, some, sort_by, suc, take, text_eq, true, update_where, ℕ, ◌&&◌, ◌+◌,
  ◌==◌, ◌||◌, ◌∷◌,
}
use ap2web.Floats.{Floats, of_nat, sum, sum_from}

unfoldable pub text_before : Text → Text → Bool
text_before [] [] = false
text_before [] (d ∷ t) = true
text_before (c ∷ s) [] = false
text_before (c ∷ s) (d ∷ t) = let rest = text_before s t in ltb c d || c == d && rest

abbrev is_played : MatchRow → Bool
unfolding text_eq
is_played m = status_is (codes "played") m.status

-- `_resolve_match_id` for a match id that is not None
unfoldable pub resolve_match_id : ℕ → List MatchRow → Option (Option ℕ × Option ℕ)
unfolding text_eq
resolve_match_id mid ms = elim (first (λ m. m.id == mid && is_played m) ms) [
  | none ↦ none
  | some m ↦ some (m.score_home, m.score_away)
]

abbrev pub is_id : ℕ → Option ℕ → Bool
is_id t none = false
is_id t (some u) = u == t

-- Whether the second kickoff is the later one; a missing one is the earliest.
abbrev earlier_kickoff : Option Text → Option Text → Bool
unfolding text_before
earlier_kickoff none none = false
earlier_kickoff none (some k) = true
earlier_kickoff (some j) none = false
earlier_kickoff (some j) (some k) = text_before j k

-- `ORDER BY kickoff_datetime DESC LIMIT 1`, with a NULL kickoff behind all others as SQLite orders
-- them. (PostgreSQL has NULL first in descending order.)
unfoldable pub latest_of : MatchRow → List MatchRow → MatchRow
unfolding text_before
latest_of best [] = best
latest_of best (m ∷ ms) =
    latest_of (if earlier_kickoff best.kickoff_datetime m.kickoff_datetime then m else best) ms

unfoldable pub latest_match : List MatchRow → Option MatchRow
unfolding latest_of
latest_match [] = none
latest_match (m ∷ ms) = some (latest_of m ms)

module _ {F : Type 0} where
  unfoldable pub is_fixture : Pick F → MatchRow → Bool
  unfolding text_eq
  is_fixture p m =
      m.league_id == p.league_id
      && is_id p.home_team_id m.home_team_id
      && is_id p.away_team_id m.away_team_id
      && is_played m

  -- `_resolve_fixture`
  unfoldable pub resolve_fixture : Pick F → List MatchRow → Option (Option ℕ × Option ℕ)
  unfolding latest_match text_eq is_fixture
  resolve_fixture p ms = elim (latest_match (select (is_fixture p) ms)) [
    | none ↦ none
    | some m ↦ some (m.score_home, m.score_away)
  ]

  abbrev pub is_open : Pick F → Bool
  is_open p = same_status p.status pending

  abbrev pub mine_pending : ℕ → Pick F → Bool
  mine_pending user p = p.user_id == user && is_open p

  abbrev pub of_match : ℕ → Pick F → Bool
  of_match mid p = is_id mid p.match_id && is_open p

  unfoldable pub score_by : Pick F → List MatchRow → Option ℕ → Option (Option ℕ × Option ℕ)
  unfolding resolve_match_id resolve_fixture
  score_by p ms none = resolve_fixture p ms
  score_by p ms (some mid) = resolve_match_id mid ms

  -- The score that `resolve_predictions` looks up for a pick.
  unfoldable pub score_of : List MatchRow → Pick F → Option (Option ℕ × Option ℕ)
  unfolding score_by
  score_of ms p = score_by p ms p.match_id

  -- `SET status=?, resolved_at=…, brier_score=?, log_loss=?, updated_at=…`
  abbrev pub settle : ℕ → Verdict F → Pick F → Pick F
  settle now v p = record p {
    status = if v.result then correct else wrong;
    resolved_at = some now;
    brier_score = some v.brier;
    log_loss = some v.log_loss;
    updated_at = some now;
  }

module _ {F : Type 0} (o : Floats F) where
  unfoldable pub judge : Option (Option ℕ × Option ℕ) → Pick F → Option (Verdict F)
  unfolding result_of_pick_v2
  judge none p = none
  judge (some score) p = result_of_pick_v2 o p.pick_type p.pick_value score.0 score.1 p.prob

  -- The UPDATE of one pick of the loop, and the number of resolved picks.
  abbrev pub resolve_one : ℕ → ℕ → Option (Verdict F) → ℕ × List (Pick F) → ℕ × List (Pick F)
  resolve_one now pid none acc = acc
  resolve_one now pid (some v) acc =
      (suc acc.0, update_where (has_pick_id pid) (settle now v) acc.1)

  unfoldable pub resolve_each :
      ℕ → List MatchRow → List (Pick F) → ℕ × List (Pick F) → ℕ × List (Pick F)
  unfolding score_of judge
  resolve_each now ms [] acc = acc
  resolve_each now ms (p ∷ ps) acc =
      resolve_each now ms ps (resolve_one now p.id (judge (score_of ms p) p) acc)

  -- `resolve_predictions`
  unfoldable pub resolve_predictions : ℕ → ℕ → Db F → ℕ × Db F
  unfolding resolve_each
  resolve_predictions user now db =
      let r = resolve_each now db.matches (select (mine_pending user) db.picks) (0, db.picks) in
      (r.0, record db { picks = r.1 })

  -- The guarded UPDATE of one pick, and the sum of the row counts.
  abbrev pub resolve_pending : ℕ → ℕ → Option (Verdict F) → ℕ × List (Pick F) → ℕ × List (Pick F)
  resolve_pending now pid none acc = acc
  resolve_pending now pid (some v) acc =
      let hit = λ (p : Pick F). p.id == pid && is_open p in
      (acc.0 + count_where hit acc.1, update_where hit (settle now v) acc.1)

  unfoldable pub resolve_each_pending :
      ℕ → Option ℕ × Option ℕ → List (Pick F) → ℕ × List (Pick F) → ℕ × List (Pick F)
  unfolding judge
  resolve_each_pending now score [] acc = acc
  resolve_each_pending now score (p ∷ ps) acc =
      resolve_each_pending now score ps (resolve_pending now p.id (judge (some score) p) acc)

  -- `resolve_predictions_for_match`
  unfoldable pub resolve_predictions_for_match : ℕ → ℕ → Db F → ℕ × Db F
  unfolding resolve_match_id resolve_each_pending
  resolve_predictions_for_match mid now db = elim (resolve_match_id mid db.matches) [
    | none ↦ (0, db)
    | some score ↦
        let r = resolve_each_pending now score (select (of_match mid) db.picks) (0, db.picks) in
        (r.0, record db { picks = r.1 })
  ]

  -- `list_predictions`: the rows, newest first.
  unfoldable pub list_predictions : ℕ → ℕ → ℕ → Db F → List (Pick F) × Db F
  unfolding resolve_predictions sort_by
  list_predictions user limit now db =
      let after = (resolve_predictions user now db).1 in
      (take limit (sort_by (λ x y. ltb y.id x.id) (select (owned user) after.picks)), after)

pub record PickStats (F : Type 0) : Type 0 where
  pub total : ℕ
  pub correct : ℕ
  pub wrong : ℕ
  pub pending : ℕ
  pub hit_rate : F
  pub avg_brier : Option F
  pub avg_log_loss : Option F

-- The numbers of a column, or none where one is NULL, which `sum` raises on.
abbrev pub numbers : {F : Type 0} → List (Option F) → Option (List F)
numbers [] = some []
numbers (none ∷ xs) = none
numbers (some x ∷ xs) = elim (numbers xs) [ none ↦ none | some ys ↦ some (x ∷ ys) ]

module _ {F : Type 0} (o : Floats F) where
  -- `round(sum(xs) / len(xs), 4) if xs else None`
  abbrev average : List F → Option F
  unfolding sum_from
  average xs =
      if is_empty xs then none else some (o.round (o.div (sum o xs) (of_nat o (length xs))) 4)

  -- The dict that `stats` returns, from the user's rows and the scores of those that are resolved.
  unfoldable pub stats_of : List (Pick F) → List F → List F → PickStats F
  unfolding sum_from
  stats_of mine briers losses =
      let hits = count_where (λ p. same_status p.status correct) mine in
      let misses = count_where (λ p. same_status p.status wrong) mine in
      let open_ = count_where is_open mine in
      record {
        total = hits + misses + open_;
        correct = hits;
        wrong = misses;
        pending = open_;
        hit_rate =
            if hits + misses == 0
            then of_nat o 0
            else o.round (o.mul (o.div (of_nat o hits) (of_nat o (hits + misses))) (of_nat o 100))
                1;
        avg_brier = average briers;
        avg_log_loss = average losses;
      }

  -- `stats`; none where a sum raises.
  unfoldable pub stats : ℕ → ℕ → Db F → Option (PickStats F) × Db F
  unfolding resolve_predictions stats_of
  stats user now db =
      let after = (resolve_predictions o user now db).1 in
      let mine = select (owned user) after.picks in
      let resolved = select (λ p. not (is_open p)) mine in
      (
        elim (numbers (map (λ p. p.brier_score) resolved)) [
          | none ↦ none
          | some briers ↦ elim (numbers (map (λ p. p.log_loss) resolved)) [
            | none ↦ none
            | some losses ↦ some (stats_of mine briers losses)
          ]
        ],
        after,
      )
