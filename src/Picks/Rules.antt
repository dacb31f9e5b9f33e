-- ===== src/Picks/Rules.antt =====
-- The picks of backend/app/history.py: which ones are accepted (`_validate_pick`), whether a pick is
-- hit by a final score and how it is scored (`_result_of_pick_v2`, `_brier_score`, `_log_loss`). The
-- line of a goals pick, `float(m.group(2))`, is kept doubled, as a whole number.
use ap2web.Prelude.{
  Bool, Option, Text, [], codes, false, if◌then◌else◌, leb, ltb, member, none, not, some, text_eq,
  ℕ, ◌&&◌, ◌*◌, ◌+◌, ◌-◌, ◌==◌, ◌||◌, ◌∷◌,
}
use ap2web.Floats.{Floats, of_nat}

abbrev pub is_digit : ℕ → Bool
is_digit c = leb b'0' c && leb c b'9'

-- The digits of a number with the decimal point of `.5` behind them, or without: `[0-9]*(?:\.5)?`
-- after digits that make `n`.
unfoldable pub line_from : ℕ → Text → Option ℕ
unfolding text_eq
line_from n [] = some (2 * n)
line_from n (c ∷ s) =
    let rest = line_from (10 * n + (c - b'0')) s in
    if is_digit c then rest else if text_eq (c ∷ s) (codes ".5") then some (2 * n + 1) else none

-- `[0-9]+(?:\.5)?`
unfoldable pub line : Text → Option ℕ
unfolding line_from
line [] = none
line (c ∷ s) = if is_digit c then line_from (c - b'0') s else none

-- What stands behind a prefix.
unfoldable pub behind : Text → Text → Option Text
behind [] s = some s
behind (c ∷ p) [] = none
behind (c ∷ p) (d ∷ s) = if c == d then behind p s else none

pub data Side : Type 0 where
  over under : Side

unfoldable pub side_line : Side → Option Text → Option (Side × ℕ)
unfolding line
side_line side none = none
side_line side (some s) = elim (line s) [ none ↦ none | some n ↦ some (side, n) ]

-- `(over|under)_([0-9]+(?:\.5)?)`
unfoldable pub goals_pick : Text → Option (Side × ℕ)
unfolding behind side_line
goals_pick v = elim (side_line over (behind (codes "over_") v)) [
  | some p ↦ some p
  | none ↦ side_line under (behind (codes "under_") v)
]

-- `[0-9]*\.5`
unfoldable pub digits_half : Text → Bool
unfolding text_eq
digits_half [] = false
digits_half (c ∷ s) =
    let rest = digits_half s in if is_digit c then rest else text_eq (c ∷ s) (codes ".5")

-- `(?:0|[1-9][0-9]*)\.5`
unfoldable pub half_line : Text → Bool
unfolding text_eq digits_half
half_line [] = false
half_line (c ∷ s) =
    if c == b'0' then text_eq s (codes ".5") else if is_digit c then digits_half s else false

unfoldable pub half_line_behind : Option Text → Bool
unfolding half_line
half_line_behind none = false
half_line_behind (some s) = half_line s

-- `_validate_pick`
unfoldable pub valid_pick : Text → Text → Bool
unfolding half_line_behind member text_eq behind
valid_pick pick_type v =
    text_eq pick_type (codes "1X2") && member v (codes "1" ∷ codes "X" ∷ codes "2" ∷ [])
    || text_eq pick_type (codes "GOLS")
      && (half_line_behind (behind (codes "over_") v)
          || half_line_behind (behind (codes "under_") v))
    || text_eq pick_type (codes "BTTS") && member v (codes "sim" ∷ codes "nao" ∷ [])

-- Whether the pick is hit by a final score; none for a pick that is not resolved.
unfoldable pub hit_1x2 : Text → ℕ → ℕ → Bool
unfolding text_eq
hit_1x2 v fh fa =
    text_eq (if ltb fa fh then codes "1" else if fh == fa then codes "X" else codes "2") v

unfoldable pub hit_goals : ℕ → Side → ℕ → Bool
hit_goals total over line2 = ltb line2 (2 * total)
hit_goals total under line2 = ltb (2 * total) line2

unfoldable pub hit_btts : Text → ℕ → ℕ → Bool
unfolding text_eq
hit_btts v fh fa =
    let both = ltb 0 fh && ltb 0 fa in if text_eq v (codes "sim") then both else not both

unfoldable pub hit_of_pick : Text → Text → ℕ → ℕ → Option Bool
unfolding goals_pick text_eq hit_1x2 hit_goals hit_btts
hit_of_pick pick_type v fh fa =
    if text_eq pick_type (codes "1X2")
    then some (hit_1x2 v fh fa)
    else if text_eq pick_type (codes "GOLS")
    then elim (goals_pick v) [ none ↦ none | some p ↦ some (hit_goals (fh + fa) p.0 p.1) ]
    else if text_eq pick_type (codes "BTTS")
    then some (hit_btts v fh fa)
    else none

pub record Verdict (F : Type 0) : Type 0 where
  pub result : Bool
  pub brier : F
  pub log_loss : F

module _ {F : Type 0} (o : Floats F) where
  -- `_brier_score`
  abbrev pub brier_score : F → F
  brier_score p = let d = o.sub (of_nat o 1) p in o.mul d d

  -- `_log_loss`
  abbrev pub log_loss : F → F
  log_loss p =
      if o.le p (of_nat o 0) || o.le (of_nat o 1) p
      then of_nat o 99
      else o.sub (of_nat o 0) (o.log p)

  -- The scores of a pick of the probability `p`.
  abbrev pub verdict : F → Bool → Verdict F
  verdict p hit =
      let q = if hit then p else o.sub (of_nat o 1) p in
      record { result = hit; brier = o.round (brier_score q) 4; log_loss = o.round (log_loss q) 4 }

  -- `_result_of_pick_v2`
  unfoldable pub result_of_pick_v2 : Text → Text → Option ℕ → Option ℕ → F → Option (Verdict F)
  unfolding hit_of_pick
  result_of_pick_v2 pick_type v none away p = none
  result_of_pick_v2 pick_type v (some fh) none p = none
  result_of_pick_v2 pick_type v (some fh) (some fa) p = elim (hit_of_pick pick_type v fh fa) [
    | none ↦ none
    | some hit ↦ some (verdict p hit)
  ]
