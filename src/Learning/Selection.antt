-- ===== src/Learning/Selection.antt =====
-- The selection of `calibrate_league` of backend/app/learning/calibration.py.
use mathlib.Core.Option.{some-injective}
use ap2web.Learning.Engine.{Report, min_samples}
use ap2web.Learning.Calibration.{Candidate, Params, better, choose, search}
use ap2web.Prelude.{
  All, Bool, Bool-cases, List, Option, [], ap, arith, false, if◌then◌else◌, inl, inr, ltb, none,
  not, refl, some, sym, true, ℕ, ◌==◌, ◌∷◌, ◌≡◌, ◌⊎◌,
}
use ap2web.Floats.{Floats}

module _ {F : Type 0} (o : Floats F) where
  -- Floats without NaN: their comparisons are those of a linear order.
  abbrev pub IsLinear : (F → ℕ) → Type 0
  IsLinear rank = (a b : F) → (o.lt a b ≡ ltb (rank a) (rank b)) × (o.same a b ≡ (rank a == rank b))

  -- What `search` returns, from a candidate at the start and the parameters that are left.
  abbrev pub eligible : Report F → Bool
  eligible r = not (ltb r.total min_samples)

  -- No eligible result is better.
  abbrev pub IsUnbeaten : (Params F → Report F) → List (Params F) → Report F → Type 0
  IsUnbeaten run ps b = All (λ p. (eligible (run p) ≡ false) ⊎ (better o (run p) b ≡ false)) ps

  abbrev IsUnbeatenBy : Option (Candidate F) → Report F → Type 0
  IsUnbeatenBy none b = Unit
  IsUnbeatenBy (some a) b = better o a.result b ≡ false

  abbrev pub IsFrom :
      (Params F → Report F) → Option (Candidate F) → List (Params F) → Candidate F → Type 0
  IsFrom run best [] b = best ≡ some b
  IsFrom run best (p ∷ ps) b =
      ((eligible (run p) ≡ true) × (b ≡ record { params = p; result = run p }))
      ⊎ IsFrom run best ps b

  module _ (rank : F → ℕ) (linear : IsLinear rank) where
    better_rank :
        (a b : Report F)
        → better o a b ≡ (
            if rank a.brier == rank b.brier
            then ltb (rank b.accuracy) (rank a.accuracy)
            else ltb (rank a.brier) (rank b.brier))
    unfolding better
    better_rank a b =
        rw
          ((linear a.brier b.brier).0, (linear a.brier b.brier).1, (linear b.accuracy a.accuracy).0)
          refl

    better_asym : (a b : Report F) → better o a b ≡ true → better o b a ≡ false
    better_asym a b h = ground (arith, h, better_rank a b, better_rank b a)

    better_trans :
        (a b c : Report F) → better o a b ≡ false → better o b c ≡ false → better o a c ≡ false
    better_trans a b c h k = ground (arith, h, k, better_rank a b, better_rank b c, better_rank a c)

    module _ (run : Params F → Report F) where
      abbrev cand : Params F → Candidate F
      cand p = record { params = p; result = run p }

      -- The result of a search: nothing, where nothing was eligible, or the best there is.
      abbrev pub IsFound : Option (Candidate F) → List (Params F) → Option (Candidate F) → Type 0
      IsFound best ps none = (best ≡ none) × All (λ p. eligible (run p) ≡ false) ps
      IsFound best ps (some b) =
          IsFrom run best ps b × IsUnbeatenBy best b.result × IsUnbeaten run ps b.result

      IsFrom-eligible :
          (best : Option (Candidate F)) (p : Params F) (ps : List (Params F)) (b : Candidate F)
          → eligible (run p) ≡ true
          → IsFrom run (some (cand p)) ps b
          → IsFrom run best (p ∷ ps) b
      IsFrom-eligible best p [] b e f = inl (e, sym (some-injective (cand p) b f))
      IsFrom-eligible best p (q ∷ ps) b e (inl f) = inr (inl f)
      IsFrom-eligible best p (q ∷ ps) b e (inr f) = elim (IsFrom-eligible best p ps b e f) [
        | inl g ↦ inl g
        | inr g ↦ inr (inr g)
      ]

      skipped :
          (best : Option (Candidate F)) (p : Params F) (ps : List (Params F))
          (r : Option (Candidate F))
          → eligible (run p) ≡ false
          → IsFound best ps r
          → IsFound best (p ∷ ps) r
      skipped best p ps none e f = (f.0, (e, f.1))
      skipped best p ps (some b) e f = (inr f.0, f.1, (inl e, f.2))

      taken :
          (best : Option (Candidate F)) (p : Params F) (ps : List (Params F))
          (r : Option (Candidate F))
          → eligible (run p) ≡ true
          → ((b : Report F) → better o (run p) b ≡ false → IsUnbeatenBy best b)
          → IsFound (some (cand p)) ps r
          → IsFound best (p ∷ ps) r
      taken best p ps none e u f = cc f.0
      taken best p ps (some b) e u f =
          (IsFrom-eligible best p ps b e f.0, u b.result f.1, (inr f.1, f.2))

      kept :
          (a : Candidate F) (p : Params F) (ps : List (Params F)) (r : Option (Candidate F))
          → better o (run p) a.result ≡ false
          → IsFound (some a) ps r
          → IsFound (some a) (p ∷ ps) r
      kept a p ps none h f = cc f.0
      kept a p ps (some b) h f =
          (inr f.0, f.1, (inr (better_trans (run p) a.result b.result h f.1), f.2))

      -- One more candidate.
      choose-step :
          (best : Option (Candidate F)) (p : Params F) (ps : List (Params F))
          (r : Option (Candidate F))
          → IsFound (choose o best (cand p)) ps r
          → IsFound best (p ∷ ps) r
      unfolding choose
      choose-step best p ps r f = elim (Bool-cases (ltb (run p).total min_samples)) [
        | inl e ↦ skipped best p ps r (ap not e) (rw (e, choose) at f)
        | inr e ↦ among best p ps r (ap not e) (rw (e, choose) at f)
      ]
        where
          among :
              (best : Option (Candidate F)) (p : Params F) (ps : List (Params F))
              (r : Option (Candidate F))
              → eligible (run p) ≡ true
              → IsFound
                  (elim best [
                    | none ↦ some (cand p)
                    | some b ↦ if better o (run p) b.result then some (cand p) else some b
                  ])
                  ps
                  r
              → IsFound best (p ∷ ps) r
          among none p ps r e f = taken none p ps r e (λ b h. tt) f
          among (some a) p ps r e f = elim (Bool-cases (better o (run p) a.result)) [
            | inl g ↦
                taken (some a) p ps r e
                  (λ b h. better_trans a.result (run p) b (better_asym (run p) a.result g) h)
                  (rw g at f)
            | inr g ↦ kept a p ps r g (rw g at f)
          ]

      search-IsFound :
          (best : Option (Candidate F)) (ps : List (Params F))
          → IsFound best ps (search o run best ps)
      unfolding search
      search-IsFound none [] = (refl, tt)
      search-IsFound (some b) [] = (refl, self_unbeaten b.result, tt)
        where
          self_unbeaten : (a : Report F) → better o a a ≡ false
          self_unbeaten a = ground (arith, better_rank a a)
      search-IsFound best (p ∷ ps) =
          choose-step best p ps (search o run (choose o best (cand p)) ps)
            (search-IsFound (choose o best (cand p)) ps)

      -- The search over any list of parameters finds nothing exactly where no result has the least
      -- number of samples, and otherwise the result of one of them that has, which none of the others
      -- that have beats by its Brier score, or by its accuracy where the scores are equal.
      pub search-IsUnbeaten :
          (ps : List (Params F))
          → ((search o run none ps ≡ none) × All (λ p. eligible (run p) ≡ false) ps)
            ⊎ ((b : Candidate F) × (search o run none ps ≡ some b)
                × IsFrom run none ps b
                × IsUnbeaten run ps b.result)
      search-IsUnbeaten ps = by_result (search o run none ps) refl (search-IsFound none ps)
        where
          by_result :
              (r : Option (Candidate F))
              → search o run none ps ≡ r
              → IsFound none ps r
              → ((search o run none ps ≡ none) × All (λ p. eligible (run p) ≡ false) ps)
                ⊎ ((b : Candidate F) × (search o run none ps ≡ some b)
                    × IsFrom run none ps b
                    × IsUnbeaten run ps b.result)
          by_result none e f = inl (e, f.1)
          by_result (some b) e f = inr (b, e, f.0, f.2)
