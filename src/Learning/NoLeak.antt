-- ===== src/Learning/NoLeak.antt =====
-- Each prediction of backend/app/learning/walkforward.py is made from earlier kickoffs only.
use mathlib.Core.List.{append-nil, append_assoc}
use ap2web.Learning.Features.{Feature, Match, TeamStats}
use ap2web.Learning.Batches.{
  IsChronological, batches, split_batch, split_batch-IsChronological, split_batch-append,
  split_batch-kickoff, split_batch-later, split_batch-shorter,
}
use ap2web.Learning.Engine.{
  History, Prediction, Probs, Tally, chronological, empty_history, empty_tally, forecast, learn_all,
  outcome_of, score, score_batch, score_one, tally, walk,
}
use ap2web.Learning.Order.{chronological-IsChronological}
use ap2web.Learning.Past.{
  IsBefore, IsBefore-append, earlier, earlier-append, from_head, history_of, learn_all-append,
}
use ap2web.Prelude.{
  All, Bool-cases, List, Option, Option-cases, [], ap, arith, if◌then◌else◌, inl, inr, length,
  length-append, ltb, none, refl, some, suc, sym, zero, ℕ, ◌++◌, ◌+◌, ◌∙◌, ◌∷◌, ◌≡◌, ◌≤◌,
}
use ap2web.Floats.{Floats, whole}

module _ {F : Type 0} (o : Floats F) (predict : TeamStats F → TeamStats F → Probs F) (window : ℕ)
    (feature : Feature) (evaluation_start : ℕ) where
  -- The record of a fixture for which there are probabilities.
  abbrev pub record_of : Match → Option (Probs F) → List (Prediction F)
  record_of m none = []
  record_of m (some p) = record { match_id = m.id; actual = outcome_of m; probabilities = p } ∷ []

  -- The record of a fixture that is predicted from a history.
  abbrev pub recorded : History F → Match → List (Prediction F)
  recorded h m = record_of m (forecast o predict window h m)

  abbrev pub scored : ℕ → History F → Match → List (Prediction F)
  scored index h m = if ltb index evaluation_start then [] else recorded h m

  -- The independent description: each row from the position `index` on is predicted from the history
  -- that the rows of `ms` with an earlier kickoff make, and from nothing else.
  abbrev pub predicted_from_past : List Match → ℕ → List Match → List (Prediction F)
  predicted_from_past ms index [] = []
  predicted_from_past ms index (m ∷ rest) =
      scored index (history_of o window feature (earlier m.kickoff ms)) m
      ++ predicted_from_past ms (suc index) rest

  -- What a batch adds with its one history.
  abbrev made : ℕ → History F → List Match → List (Prediction F)
  made index h [] = []
  made index h (m ∷ rest) = scored index h m ++ made (suc index) h rest

  abbrev made_all : ℕ → History F → List (List Match) → List (Prediction F)
  made_all index h [] = []
  made_all index h (b ∷ bs) =
      made index h b ++ made_all (index + length b) (learn_all o window feature b h) bs

  score_one-predictions :
      (index : ℕ) (h : History F) (m : Match) (t : Tally F)
      → (score_one o predict window feature evaluation_start index h m t).predictions
        ≡ t.predictions ++ scored index h m
  unfolding score_one score
  score_one-predictions index h m t = elim (Bool-cases (ltb index evaluation_start)) [
    | inl e ↦ rw e (sym (append-nil t.predictions))
    | inr e ↦ elim (Option-cases (forecast o predict window h m)) [
      | inl f ↦ rw (e, f) (sym (append-nil t.predictions))
      | inr (p, f) ↦ rw (e, f) refl
    ]
  ]

  score_batch-predictions :
      (index : ℕ) (h : History F) (b : List Match) (t : Tally F)
      → (score_batch o predict window feature evaluation_start index h b t).predictions
        ≡ t.predictions ++ made index h b
  unfolding score_batch
  score_batch-predictions index h [] t = sym (append-nil t.predictions)
  score_batch-predictions index h (m ∷ b) t =
      score_batch-predictions (suc index) h b
        (score_one o predict window feature evaluation_start index h m t)
      ∙ ap (λ xs. xs ++ made (suc index) h b) (score_one-predictions index h m t)
      ∙ append_assoc t.predictions (scored index h m) (made (suc index) h b)

  pub walk-predictions :
      (index : ℕ) (h : History F) (bs : List (List Match)) (t : Tally F)
      → (walk o predict window feature evaluation_start index h bs t).predictions
        ≡ t.predictions ++ made_all index h bs
  unfolding walk
  walk-predictions index h [] t = sym (append-nil t.predictions)
  walk-predictions index h (b ∷ bs) t =
      walk-predictions (index + length b) (learn_all o window feature b h) bs
        (score_batch o predict window feature evaluation_start index h b t)
      ∙ ap (λ xs. xs ++ made_all (index + length b) (learn_all o window feature b h) bs)
          (score_batch-predictions index h b t)
      ∙ append_assoc t.predictions (made index h b)
          (made_all (index + length b) (learn_all o window feature b h) bs)

  past-append :
      (ms : List Match) (index : ℕ) (xs ys : List Match)
      → predicted_from_past ms index (xs ++ ys)
        ≡ predicted_from_past ms index xs ++ predicted_from_past ms (index + length xs) ys
  past-append ms index [] ys = ap (λ n. predicted_from_past ms n ys) (add_zero index)
    where
      add_zero : (n : ℕ) → n ≡ n + 0
      add_zero n = omega arith
  past-append ms index (x ∷ xs) ys =
      ap (λ l. here ++ l) (past-append ms (suc index) xs ys)
      ∙ sym (append_assoc here (predicted_from_past ms (suc index) xs) _)
      ∙ ap (λ n. (here ++ predicted_from_past ms (suc index) xs) ++ predicted_from_past ms n ys)
          (shift index (length xs))
    where
      here : List (Prediction F)
      here = scored index (history_of o window feature (earlier x.kickoff ms)) x

      shift : (n k : ℕ) → suc n + k ≡ n + suc k
      shift n k = omega arith

  -- The rows of one batch have one past.
  made-past :
      (ms done : List Match) (k index : ℕ) (b : List Match)
      → earlier k ms ≡ done
      → All (λ x. x.kickoff ≡ k) b
      → made index (history_of o window feature done) b ≡ predicted_from_past ms index b
  made-past ms done k index [] e a = refl
  made-past ms done k index (m ∷ b) e a =
      ap
        (λ q.
          scored index (history_of o window feature q) m
          ++ made (suc index) (history_of o window feature done) b)
        (sym (ap (λ n. earlier n ms) a.0 ∙ e))
      ∙ ap (λ l. scored index (history_of o window feature (earlier m.kickoff ms)) m ++ l)
          (made-past ms done k (suc index) b e a.1)

  pub walk-past :
      (fuel : ℕ) (ms done rest : List Match)
      → ms ≡ done ++ rest
      → IsChronological rest
      → IsBefore done rest
      → length rest ≤ fuel
      → made_all (length done) (history_of o window feature done) (batches fuel rest)
        ≡ predicted_from_past ms (length done) rest
  unfolding batches
  walk-past zero ms done [] whole c before h = refl
  walk-past zero ms done (m ∷ rest) whole c before h = absurd (omega (arith, h))
  walk-past (suc fuel) ms done [] whole c before h = refl
  walk-past (suc fuel) ms done (m ∷ rest) whole c before h =
      ap (λ l. l ++ made_all (length done + length b) (learn_all o window feature b past) later)
        (made-past ms done m.kickoff (length done) b
          (ap (λ l. earlier m.kickoff l) whole
            ∙ earlier-append m.kickoff done (m ∷ rest) before (from_head m rest c))
          (split_batch-kickoff m.kickoff (m ∷ rest)))
      ∙ ap (λ l. predicted_from_past ms (length done) b ++ l)
          (following (
            walk-past fuel ms (done ++ b) r whole_again
              (split_batch-IsChronological m.kickoff (m ∷ rest) c)
              (IsBefore-append m done b r before (split_batch-kickoff m.kickoff (m ∷ rest))
                (split_batch-later m.kickoff (m ∷ rest) c (from_head m rest c)))
              (omega (arith, h, split_batch-shorter m rest))))
      ∙ sym (past-append ms (length done) b r)
      ∙ ap (λ l. predicted_from_past ms (length done) l) (split_batch-append m.kickoff (m ∷ rest))
    where
      b : List Match
      b = (split_batch m.kickoff (m ∷ rest)).0

      r : List Match
      r = (split_batch m.kickoff (m ∷ rest)).1

      past : History F
      past = history_of o window feature done

      later : List (List Match)
      later = batches fuel r

      whole_again : ms ≡ (done ++ b) ++ r
      whole_again =
          whole
          ∙ ap (λ l. done ++ l) (sym (split_batch-append m.kickoff (m ∷ rest)))
          ∙ sym (append_assoc done b r)

      following :
          made_all (length (done ++ b)) (history_of o window feature (done ++ b)) later
            ≡ predicted_from_past ms (length (done ++ b)) r
          → made_all (length done + length b) (learn_all o window feature b past) later
            ≡ predicted_from_past ms (length done + length b) r
      following ih =
          ap (λ n. made_all n (learn_all o window feature b past) later)
            (sym (length-append done b))
          ∙ ap (λ q. made_all (length (done ++ b)) q later)
              (sym (learn_all-append o window feature done b empty_history))
          ∙ ih
          ∙ ap (λ n. predicted_from_past ms n r) (length-append done b)

  walk-predicted_from_past :
      (ms : List Match)
      → IsChronological ms
      → (walk o predict window feature evaluation_start 0 empty_history
          (batches (length ms) ms)
          (empty_tally o)).predictions
        ≡ predicted_from_past ms 0 ms
  unfolding learn_all
  walk-predicted_from_past ms c =
      walk-predictions 0 empty_history (batches (length ms) ms) (empty_tally o)
      ∙ walk-past (length ms) ms [] ms refl c (first_before ms) (omega arith)
    where
      first_before : (xs : List Match) → IsBefore [] xs
      first_before [] = tt
      first_before (x ∷ xs) = tt

  pub tally-predicted_from_past :
      (ms : List Match)
      → (tally o predict window feature evaluation_start ms).predictions
        ≡ predicted_from_past (chronological ms) 0 (chronological ms)
  unfolding tally
  tally-predicted_from_past ms =
      walk-predicted_from_past (chronological ms) (chronological-IsChronological ms)
