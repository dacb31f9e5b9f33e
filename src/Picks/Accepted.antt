-- ===== src/Picks/Accepted.antt =====
-- The picks that `_validate_pick` of backend/app/history.py accepts, against those that
-- `_result_of_pick_v2` judges.
use ap2web.Picks.Rules.{
  Side, behind, digits_half, goals_pick, half_line, half_line_behind, hit_1x2, hit_btts, hit_goals,
  hit_of_pick, is_digit, line, line_from, over, result_of_pick_v2, side_line, under, valid_pick,
  verdict,
}
use ap2web.Prelude.{
  ==_iff, Bool, Bool-cases, Option, Option-cases, Text, [], arith, codes, false, inl, inr, is_some,
  none, refl, some, subst, text_eq, text_eq_iff, true, ℕ, ◌*◌, ◌+◌, ◌-◌, ◌==◌, ◌||◌, ◌∷◌, ◌≡◌, ◌⊎◌,
}
use ap2web.Floats.{Floats}

digits_half-line_from :
    (n : ℕ) (s : Text) → digits_half s ≡ true → (k : ℕ) × (line_from n s ≡ some (2 * k + 1))
unfolding digits_half line_from
digits_half-line_from n [] h = cc
digits_half-line_from n (c ∷ s) h = elim (Bool-cases (is_digit c)) [
  | inl e ↦ rw e (digits_half-line_from (10 * n + (c - b'0')) s (rw e at h))
  | inr e ↦ rw e (rw (rw e at h) (n, refl))
]

zero_line : (c : ℕ) (s : Text) → c ≡ b'0' → s ≡ codes ".5" → line (c ∷ s) ≡ some (2 * 0 + 1)
unfolding line line_from text_eq
zero_line c s e f = rw (e, f) refl

half_line-line : (s : Text) → half_line s ≡ true → (k : ℕ) × (line s ≡ some (2 * k + 1))
unfolding half_line line
half_line-line [] h = cc
half_line-line (c ∷ s) h = elim (Bool-cases (c == b'0')) [
  | inl e ↦ (0, zero_line c s ((==_iff c b'0').0 e) ((text_eq_iff s (codes ".5")).0 (rw e at h)))
  | inr e ↦ elim (Bool-cases (is_digit c)) [
    | inl f ↦ rw f (digits_half-line_from (c - b'0') s (rw f at (rw e at h)))
    | inr f ↦ cc (rw f at (rw e at h))
  ]
]

-- The side and the doubled line, an odd number, of a pick behind a prefix.
half_line_behind-side_line :
    (side : Side) (s : Option Text)
    → half_line_behind s ≡ true
    → (k : ℕ) × (side_line side s ≡ some (side, 2 * k + 1))
unfolding half_line_behind side_line
half_line_behind-side_line side none h = cc
half_line_behind-side_line side (some s) h =
    let (k, e) = half_line-line s h in (k, rw (e, side_line) refl)

some_of :
    {A : Type 0} (a : A) (x y : Option A)
    → (x ≡ some a) ⊎ (y ≡ some a)
    → is_some (elim x [ none ↦ y | some p ↦ some p ]) ≡ true
some_of a none y (inl e) = cc
some_of a none y (inr e) = rw e refl
some_of a (some b) y h = refl

either_side :
    (v : Text)
    → (half_line_behind (behind (codes "over_") v) || half_line_behind (behind (codes "under_") v))
      ≡ true
    → is_some (goals_pick v) ≡ true
unfolding goals_pick
either_side v h = elim (Bool-cases (half_line_behind (behind (codes "over_") v))) [
  | inl e ↦
      let (k, f) = half_line_behind-side_line over (behind (codes "over_") v) e in
      some_of (over, 2 * k + 1) _ _ (inl f)
  | inr e ↦
      let (k, f) = half_line_behind-side_line under (behind (codes "under_") v) (rw e at h) in
      some_of (under, 2 * k + 1) _ _ (inr f)
]

goals_judged :
    (v : Text) (g : Side × ℕ → Bool)
    → is_some (goals_pick v) ≡ true
    → (hit : Bool) × (elim (goals_pick v) [ none ↦ none | some p ↦ some (g p) ] ≡ some hit)
goals_judged v g h = elim (Option-cases (goals_pick v)) [
  | inl e ↦ cc (rw e at h)
  | inr (p, e) ↦ (g p, rw e refl)
]

or-false : (b : Bool) → (b || false) ≡ true → b ≡ true
or-false b h = ground (arith, h)

goals_valid : (v : Text) → valid_pick (codes "GOLS") v ≡ true → is_some (goals_pick v) ≡ true
unfolding valid_pick text_eq
goals_valid v h = either_side v (or-false _ h)

goals_type :
    (pick_type v : Text)
    → text_eq pick_type (codes "GOLS") ≡ true
    → valid_pick pick_type v ≡ true
    → is_some (goals_pick v) ≡ true
goals_type pick_type v e h =
    goals_valid v
      (subst (λ t. valid_pick t v ≡ true) ((text_eq_iff pick_type (codes "GOLS")).0 e) h)

valid_pick-hit_of_pick :
    (pick_type v : Text) (fh fa : ℕ)
    → valid_pick pick_type v ≡ true
    → (hit : Bool) × (hit_of_pick pick_type v fh fa ≡ some hit)
unfolding hit_of_pick valid_pick
valid_pick-hit_of_pick pick_type v fh fa h = elim (Bool-cases (text_eq pick_type (codes "1X2"))) [
  | inl e ↦ (hit_1x2 v fh fa, rw e refl)
  | inr e ↦ elim (Bool-cases (text_eq pick_type (codes "GOLS"))) [
    | inl f ↦
        rw (e, f) (goals_judged v (λ p. hit_goals (fh + fa) p.0 p.1) (goals_type pick_type v f h))
    | inr f ↦ elim (Bool-cases (text_eq pick_type (codes "BTTS"))) [
      | inl g ↦ (hit_btts v fh fa, rw (e, f, g) refl)
      | inr g ↦ cc (rw (e, f, g) at h)
    ]
  ]
]

-- Every pick that `_validate_pick` accepts is judged once its match has a final score, whatever the
-- score: `_result_of_pick_v2` does not return None, and its scores are those of the hit or the miss.
pub valid_pick-result_of_pick_v2 :
    {F : Type 0} (o : Floats F) (pick_type v : Text) (fh fa : ℕ) (p : F)
    → valid_pick pick_type v ≡ true
    → (hit : Bool) × (hit_of_pick pick_type v fh fa ≡ some hit)
      × (result_of_pick_v2 o pick_type v (some fh) (some fa) p ≡ some (verdict o p hit))
unfolding result_of_pick_v2
valid_pick-result_of_pick_v2 o pick_type v fh fa p h =
    let (hit, e) = valid_pick-hit_of_pick pick_type v fh fa h in
    (hit, e, rw (e, result_of_pick_v2) refl)
