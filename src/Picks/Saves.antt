-- ===== src/Picks/Saves.antt =====
-- What `save_prediction` and `delete_prediction` of backend/app/history.py promise, and that a pick
-- that was accepted is judged.
use ap2web.Picks.Rules.{valid_pick}
use ap2web.Picks.Store.{
  Db, Draft, Joined, Pick, Provenance, SaveError, agrees, check_draft, future_kickoff, joined_match,
  mismatch, past, pending, pick_of, save_prediction, status_is, with_offset,
}
use ap2web.Prelude.{
  Bool-cases, Option, Option-cases, Result, Result-cases, Text, [], ap, arith, codes, err,
  if◌then◌else◌, inl, inr, is_empty, leb, none, ok, refl, some, subst, suc, sym, true, ℕ, ◌++◌, ◌<◌,
  ◌∙◌, ◌∷◌, ◌≡◌, ◌⊎◌,
}

agrees-ids :
    {F : Type 0} (d : Draft F) (j : Joined)
    → agrees d j ≡ true
    → (d.league_id ≡ j.row.league_id)
      × (d.home_team_id ≡ j.home_team.id)
      × (d.away_team_id ≡ j.away_team.id)
agrees-ids d j h = (ground (arith, h), ground (arith, h), ground (arith, h))

abbrev accept : {A : Type 0} → A → Result SaveError A
accept a = ok a

ok-inj : {A : Type 0} {a b : A} → accept a ≡ accept b → a ≡ b
ok-inj e = cc

module _ (from_iso : Text → Option ℕ) where
  not_past :
      (now : ℕ) (k k' : Text) (t : ℕ)
      → (if leb t now then err past else ok k) ≡ ok k'
      → (k ≡ k') × (now < t)
  not_past now k k' t h = elim (Bool-cases (leb t now)) [
    | inl e ↦ cc (rw e at h)
    | inr e ↦ (ok-inj (rw e at h), ground (arith, e))
  ]

  future_kickoff-cases :
      (now : ℕ) (o : Option Text) (k : Text)
      → future_kickoff from_iso now o ≡ ok k
      → (o ≡ some k) × (t : ℕ) × (from_iso (with_offset k) ≡ some t) × (now < t)
  unfolding future_kickoff
  future_kickoff-cases now none k h = cc
  future_kickoff-cases now (some a) k h = elim (Bool-cases (is_empty a)) [
    | inl e ↦ cc (rw (e, future_kickoff) at h)
    | inr e ↦ elim (Option-cases (from_iso (with_offset a))) [
      | inl f ↦ cc (rw (e, f, future_kickoff) at h)
      | inr (t, f) ↦
          let (g, l) = not_past now a k t (rw (e, f, future_kickoff) at h) in
          (ap some g, t, subst (λ x. from_iso (with_offset x) ≡ some t) g f, l)
    ]
  ]

module _ {F : Type 0} (from_iso : Text → Option ℕ) where
  agreed :
      (d : Draft F) (j : Joined) (k : Text) (found : Joined × Text)
      → (if agrees d j then ok (j, k) else err mismatch) ≡ ok found
      → (j ≡ found.0) × (k ≡ found.1) × (agrees d j ≡ true)
  agreed d j k found h = elim (Bool-cases (agrees d j)) [
    | inl e ↦
        let g = ok-inj {a = (j, k)} {b = found} (rw e at h) in (ap (λ p. p.0) g, ap (λ p. p.1) g, e)
    | inr e ↦ cc (rw e at h)
  ]

  check_draft-cases :
      (now : ℕ) (d : Draft F) (db : Db F) (found : Joined × Text)
      → check_draft from_iso now d db ≡ ok found
      → (valid_pick d.pick_type d.pick_value ≡ true)
        × (joined_match d.match_id db ≡ some found.0)
        × (status_is (codes "scheduled") found.0.row.status ≡ true)
        × (agrees d found.0 ≡ true)
        × (future_kickoff from_iso now found.0.row.kickoff_datetime ≡ ok found.1)
  unfolding check_draft
  check_draft-cases now d db found h = elim (Bool-cases (valid_pick d.pick_type d.pick_value)) [
    | inr e ↦ cc (rw (e, check_draft) at h)
    | inl e ↦ elim (Option-cases (joined_match d.match_id db)) [
      | inl f ↦ cc (rw (e, f, check_draft) at h)
      | inr (j, f) ↦ elim (Bool-cases (status_is (codes "scheduled") j.row.status)) [
        | inr g ↦ cc (rw (e, f, g, check_draft) at h)
        | inl g ↦ elim (Result-cases (future_kickoff from_iso now j.row.kickoff_datetime)) [
          | inl (x, k) ↦ cc (rw (e, f, g, k, check_draft) at h)
          | inr (a, k) ↦
              let w = agreed d j a found (rw (e, f, g, k, check_draft) at h) in
              (
                e,
                f ∙ ap some w.0,
                subst (λ (r : Joined). status_is (codes "scheduled") r.row.status ≡ true) w.0 g,
                subst (λ (r : Joined). agrees d r ≡ true) w.0 w.2,
                ap (λ (r : Joined). future_kickoff from_iso now r.row.kickoff_datetime) (sym w.0)
                    ∙ k
                    ∙ ap ok w.1,
              )
        ]
      ]
    ]
  ]

  -- What holds of a draft that is accepted.
  abbrev pub IsAccepted : ℕ → Draft F → Db F → Pick F → Type 0
  IsAccepted now d db row =
      (valid_pick d.pick_type d.pick_value ≡ true)
      × (row.pick_type ≡ d.pick_type)
      × (row.pick_value ≡ d.pick_value)
      × (row.status ≡ pending)
      × (j : Joined) × (joined_match d.match_id db ≡ some j)
      × (status_is (codes "scheduled") j.row.status ≡ true)
      × (row.match_id ≡ some j.row.id)
      × (row.league_id ≡ j.row.league_id)
      × (row.home_team_id ≡ j.home_team.id)
      × (row.away_team_id ≡ j.away_team.id)
      × (row.home_name ≡ j.home_team.name)
      × (row.away_name ≡ j.away_team.name)
      × (d.league_id ≡ j.row.league_id)
      × (d.home_team_id ≡ j.home_team.id)
      × (d.away_team_id ≡ j.away_team.id)
      × (k : Text) × (j.row.kickoff_datetime ≡ some k)
      × (t : ℕ) × (from_iso (with_offset k) ≡ some t)
      × (now < t)

module _ {F : Type 0} (from_iso : Text → Option ℕ) (isoformat : ℕ → Text)
    (predict_match : ℕ → Option Provenance) where
  abbrev save : ℕ → ℕ → Draft F → Db F → Result SaveError (Pick F) × Db F
  save user now d db = save_prediction from_iso isoformat predict_match user now d db

  check_draft-IsAccepted :
      (user now : ℕ) (d : Draft F) (db : Db F) (found : Joined × Text)
      → check_draft from_iso now d db ≡ ok found
      → IsAccepted from_iso now d db
          (pick_of isoformat predict_match db.next_pick user now d found.0 found.1)
  unfolding pick_of
  check_draft-IsAccepted user now d db found h =
      let c = check_draft-cases from_iso now d db found h in
      let ids = agrees-ids d found.0 c.3 in
      let k = future_kickoff-cases from_iso now found.0.row.kickoff_datetime found.1 c.4 in
      (
        c.0, refl, refl, refl, found.0, c.1, c.2, refl, refl, refl, refl, refl, refl, ids.0, ids.1,
        ids.2, found.1, k.0, k.1, k.2, k.3,
      )

  -- When save_prediction returns a row, the pick is a supported one, and the row has the draft's pick,
  -- is pending and is the one row added to the table. It has the league, the teams and their names from
  -- the match that the draft names; the draft's league and team ids are those of the match too, which is
  -- scheduled with a kickoff in the future. When save_prediction raises, nothing changes.
  pub save_prediction-cases :
      (user now : ℕ) (d : Draft F) (db : Db F)
      → ((e : SaveError) × (save user now d db ≡ (err e, db)))
        ⊎ ((row : Pick F) × (save user now d db ≡ (
          ok row,
          record db { picks = db.picks ++ (row ∷ []); next_pick = suc db.next_pick },
        ))
            × (row.id ≡ db.next_pick)
            × (row.user_id ≡ user)
            × IsAccepted from_iso now d db row)
  unfolding save_prediction pick_of
  save_prediction-cases user now d db = elim (Result-cases (check_draft from_iso now d db)) [
    | inl (e, h) ↦ inl (e, rw (h, save_prediction) refl)
    | inr (found, h) ↦ inr (
      pick_of isoformat predict_match db.next_pick user now d found.0 found.1,
      rw (h, save_prediction) refl,
      refl,
      refl,
      check_draft-IsAccepted user now d db found h,
    )
  ]
