-- ===== src/Scientific/Split.antt =====
-- `temporal_split` of backend/app/scientific/snapshot.py. `math.ceil` is an argument; a fraction is a
-- float, so its type is not checked.
use ap2web.Prelude.{
  Bool, List, Option, [], drop, false, if◌then◌else◌, length, ltb, max, none, not, some, suc, take,
  zero, ℕ, ◌&&◌, ◌-◌, ◌==◌, ◌∷◌,
}
use ap2web.Floats.{Floats, of_nat}
use ap2web.Learning.Features.{Match}
use ap2web.Learning.Engine.{chronological}

abbrev kickoff_at : ℕ → List Match → Option ℕ
kickoff_at n [] = none
kickoff_at zero (m ∷ ms) = some m.kickoff
kickoff_at (suc n) (m ∷ ms) = kickoff_at n ms

abbrev same_kickoff : Option ℕ → Option ℕ → Bool
same_kickoff none b = false
same_kickoff (some a) none = false
same_kickoff (some a) (some b) = a == b

-- Whether the rows `k - 1` and `k` are there and have one kickoff.
abbrev pub splits_batch : ℕ → List Match → Bool
splits_batch zero ms = false
splits_batch (suc k) ms = same_kickoff (kickoff_at k ms) (kickoff_at (suc k) ms)

-- `while split_at > 0 and …: split_at -= 1`
unfoldable pub move_back : ℕ → List Match → ℕ
move_back zero ms = zero
move_back (suc k) ms = let rest = move_back k ms in if splits_batch (suc k) ms then rest else suc k

pub record Split : Type 0 where
  pub development : List Match
  pub holdout : List Match

-- `ordered[:split_at]` and `ordered[split_at:]` for the last place that does not part a batch.
unfoldable pub split_at : ℕ → List Match → Split
unfolding move_back
split_at n ms = let k = move_back n ms in record { development = take k ms; holdout = drop k ms }

module _ {F : Type 0} (o : Floats F) (ceil : F → ℕ) where
  -- `max(1, math.ceil(len(ordered) * holdout_fraction))`
  abbrev pub holdout_size : ℕ → F → ℕ
  holdout_size n fraction = max 1 (ceil (o.mul (of_nat o n) fraction))

  -- `temporal_split`; none is the ValueError of a fraction outside of (0, 0.5].
  unfoldable pub temporal_split : List Match → F → Option Split
  unfolding chronological split_at
  temporal_split rows fraction =
      let ordered = chronological rows in
      if not (o.lt (of_nat o 0) fraction && o.le fraction (o.decimal 5 1))
      then none
      else if ltb (length ordered) 2
      then some (record { development = ordered; holdout = [] })
      else some (split_at (length ordered - holdout_size (length ordered) fraction) ordered)
