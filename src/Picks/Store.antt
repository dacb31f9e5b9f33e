-- ===== src/Picks/Store.antt =====
-- The tables that backend/app/history.py works on (backend/app/db/schema.py) and its `save_prediction`,
-- `list_predictions`, `delete_prediction` and `stats`. The reading of an ISO text as an instant (one
-- without an offset is UTC), `isoformat` and the prediction engine are arguments; a payload is its
-- JSON text. Rows come from requests, which always give a probability (PredictionBody.prob) and the
-- texts of a pick.
use ap2web.Picks.Rules.{valid_pick}
use ap2web.Prelude.{
  Bool, List, Option, Result, Text, [], codes, count_where, err, false, first, if◌then◌else◌,
  is_empty, leb, ltb, none, not, ok, select, some, suc, take, text_eq, true, ℕ, ◌&&◌, ◌++◌, ◌==◌,
  ◌∷◌,
}

pub record MatchRow : Type 0 where
  pub id : ℕ
  pub league_id : ℕ
  pub home_team_id : Option ℕ
  pub away_team_id : Option ℕ
  pub kickoff_datetime : Option Text
  pub status : Option Text
  pub score_home : Option ℕ
  pub score_away : Option ℕ

pub record Team : Type 0 where
  pub id : ℕ
  pub name : Text

pub data PickStatus : Type 0 where
  pending correct wrong : PickStatus

-- What the prediction engine says of how it came to its prediction.
pub record Provenance : Type 0 where
  pub model_version : Option Text
  pub model_method : Option Text
  pub feature_version : Option Text
  pub data_snapshot_timestamp : Option Text
  pub as_of_timestamp : Option Text
  pub training_window : Option ℕ
  pub training_sample_size : Option ℕ
  pub league_model_version : Option Text
  pub prediction_created_at : Option Text
  pub source_data_freshness : Option Text
  pub confidence_level : Option Text
  pub fallback_reason : Option Text

-- The columns that a row takes from the request as they are.
pub record Draft (F : Type 0) : Type 0 where
  pub league_id : ℕ
  pub match_id : ℕ
  pub home_team_id : ℕ
  pub away_team_id : ℕ
  pub pick_type : Text
  pub pick_value : Text
  pub pick_label : Text
  pub prob : F
  pub odd : F
  pub payload : Text

pub record Pick (F : Type 0) : Type 0 where
  pub id : ℕ
  pub user_id : ℕ
  pub league_id : ℕ
  pub match_id : Option ℕ
  pub home_team_id : ℕ
  pub away_team_id : ℕ
  pub home_name : Text
  pub away_name : Text
  pub match_date : Option Text
  pub pick_type : Text
  pub pick_value : Text
  pub pick_label : Text
  pub prob : F
  pub odd : F
  pub payload : Text
  pub provenance : Provenance
  pub predicted_at : Text
  pub brier_score : Option F
  pub log_loss : Option F
  pub status : PickStatus
  pub resolved_at : Option ℕ
  pub updated_at : Option ℕ
  pub created_at : ℕ

pub record Db (F : Type 0) : Type 0 where
  pub matches : List MatchRow
  pub teams : List Team
  pub picks : List (Pick F)
  pub next_pick : ℕ

pub data SaveError : Type 0 where
  unsupported no_match not_scheduled no_kickoff bad_kickoff past mismatch : SaveError

abbrev pub no_provenance : Provenance
no_provenance = record {
  model_version = none;
  model_method = none;
  feature_version = none;
  data_snapshot_timestamp = none;
  as_of_timestamp = none;
  training_window = none;
  training_sample_size = none;
  league_model_version = none;
  prediction_created_at = none;
  source_data_freshness = none;
  confidence_level = none;
  fallback_reason = none;
}

abbrev pub same_status : PickStatus → PickStatus → Bool
same_status pending pending = true
same_status pending correct = false
same_status pending wrong = false
same_status correct pending = false
same_status correct correct = true
same_status correct wrong = false
same_status wrong pending = false
same_status wrong correct = false
same_status wrong wrong = true

abbrev pub status_is : Text → Option Text → Bool
status_is t none = false
status_is t (some s) = text_eq s t

-- `kickoff.replace("Z", "+00:00")`
unfoldable pub with_offset : Text → Text
with_offset [] = []
with_offset (c ∷ s) =
    let rest = with_offset s in if c == b'Z' then codes "+00:00" ++ rest else c ∷ rest

abbrev team_of : List Team → Option ℕ → Option Team
team_of teams none = none
team_of teams (some t) = first (λ (x : Team). x.id == t) teams

-- A match with the rows of its two teams, as the inner joins make it.
pub record Joined : Type 0 where
  pub row : MatchRow
  pub home_team : Team
  pub away_team : Team

abbrev with_teams : List Team → MatchRow → Option Joined
with_teams teams m = elim (team_of teams m.home_team_id) [
  | none ↦ none
  | some h ↦ elim (team_of teams m.away_team_id) [
    | none ↦ none
    | some a ↦ some (record { row = m; home_team = h; away_team = a })
  ]
]

unfoldable pub joined_match : {F : Type 0} → ℕ → Db F → Option Joined
joined_match mid db = elim (first (λ (m : MatchRow). m.id == mid) db.matches) [
  | none ↦ none
  | some m ↦ with_teams db.teams m
]

abbrev is_text : Option Text → Bool
is_text none = false
is_text (some t) = not (is_empty t)

module _ (from_iso : Text → Option ℕ) where
  -- The guards on the kickoff: the kickoff, or why there is none to bet on.
  unfoldable pub future_kickoff : ℕ → Option Text → Result SaveError Text
  unfolding with_offset
  future_kickoff now none = err no_kickoff
  future_kickoff now (some k) =
      if is_empty k then err no_kickoff else (elim (from_iso (with_offset k)) [
        | none ↦ err bad_kickoff
        | some t ↦ if leb t now then err past else ok k
      ])

-- `predict_match(match_id).get("provenance") or {}`, and `{}` for an exception
abbrev provenance_of : Option Provenance → Provenance
provenance_of none = no_provenance
provenance_of (some p) = p

-- `canonical.get("prediction_created_at") or datetime.now(timezone.utc).isoformat()`
abbrev predicted_at_of : (ℕ → Text) → ℕ → Option Text → Text
predicted_at_of isoformat now none = isoformat now
predicted_at_of isoformat now (some t) = if is_empty t then isoformat now else t

abbrev pub agrees : {F : Type 0} → Draft F → Joined → Bool
agrees d j =
    d.league_id == j.row.league_id
    && d.home_team_id == j.home_team.id
    && d.away_team_id == j.away_team.id

module _ {F : Type 0} (from_iso : Text → Option ℕ) where
  -- The guards of `save_prediction`: the match and its kickoff, or the error that is raised.
  unfoldable pub check_draft : ℕ → Draft F → Db F → Result SaveError (Joined × Text)
  unfolding valid_pick joined_match text_eq future_kickoff
  check_draft now d db =
      if not (valid_pick d.pick_type d.pick_value)
      then err unsupported
      else (elim (joined_match d.match_id db) [
        | none ↦ err no_match
        | some j ↦
            if not (status_is (codes "scheduled") j.row.status)
            then err not_scheduled
            else (elim (future_kickoff from_iso now j.row.kickoff_datetime) [
              | err e ↦ err e
              | ok k ↦ if agrees d j then ok (j, k) else err mismatch
            ])
      ])

module _ {F : Type 0} (isoformat : ℕ → Text) (predict_match : ℕ → Option Provenance) where
  -- The row of a draft: the ids and names are those of the match.
  unfoldable pub pick_of : ℕ → ℕ → ℕ → Draft F → Joined → Text → Pick F
  pick_of pid user now d j kickoff =
      let made = provenance_of (predict_match d.match_id) in
      record {
        id = pid;
        user_id = user;
        league_id = j.row.league_id;
        match_id = some j.row.id;
        home_team_id = j.home_team.id;
        away_team_id = j.away_team.id;
        home_name = j.home_team.name;
        away_name = j.away_team.name;
        match_date = some (take 10 kickoff);
        pick_type = d.pick_type;
        pick_value = d.pick_value;
        pick_label = d.pick_label;
        prob = d.prob;
        odd = d.odd;
        payload = d.payload;
        provenance = made;
        predicted_at = predicted_at_of isoformat now made.prediction_created_at;
        brier_score = none;
        log_loss = none;
        status = pending;
        resolved_at = none;
        updated_at = none;
        created_at = now;
      }

module _ {F : Type 0} (from_iso : Text → Option ℕ) (isoformat : ℕ → Text)
    (predict_match : ℕ → Option Provenance) where
  -- `save_prediction`
  unfoldable pub save_prediction : ℕ → ℕ → Draft F → Db F → Result SaveError (Pick F) × Db F
  unfolding check_draft pick_of
  save_prediction user now d db = elim (check_draft from_iso now d db) [
    | err e ↦ (err e, db)
    | ok found ↦
        let row = pick_of isoformat predict_match db.next_pick user now d found.0 found.1 in
        (ok row, record db { picks = db.picks ++ (row ∷ []); next_pick = suc db.next_pick })
  ]

module _ {F : Type 0} where
  abbrev pub owned : ℕ → Pick F → Bool
  owned user p = p.user_id == user

  abbrev pub has_pick_id : ℕ → Pick F → Bool
  has_pick_id pid p = p.id == pid

  -- `delete_prediction`
  unfoldable pub delete_prediction : ℕ → ℕ → Db F → Bool × Db F
  delete_prediction user pid db =
      let doomed = λ (p : Pick F). p.id == pid && p.user_id == user in
      (
        ltb 0 (count_where doomed db.picks),
        record db { picks = select (λ p. not (doomed p)) db.picks },
      )
