-- ===== src/Learning/Order.antt =====
-- The order of the rows of backend/app/learning/walkforward.py.
use ap2web.Learning.Features.{Match}
use ap2web.Learning.Batches.{IsChronological}
use ap2web.Learning.Engine.{chronological}
use ap2web.Prelude.{
  All, All-map, IsSorted, List, [], arith, false, length, length-sort_by, pair_smaller,
  sort_by-IsSorted, sort_by_sorted, true, ◌++◌, ◌∷◌, ◌≡◌, ◌≤◌,
}

smaller_total :
    (x y : Match)
    → pair_smaller (λ m. m.kickoff) (λ m. m.id) x y ≡ true
    → pair_smaller (λ m. m.kickoff) (λ m. m.id) y x ≡ false
smaller_total x y h = ground arith

smaller_trans :
    (x y z : Match)
    → pair_smaller (λ m. m.kickoff) (λ m. m.id) y x ≡ false
    → pair_smaller (λ m. m.kickoff) (λ m. m.id) z y ≡ false
    → pair_smaller (λ m. m.kickoff) (λ m. m.id) z x ≡ false
smaller_trans x y z h k = ground arith

sorted-IsChronological :
    (ms : List Match) → IsSorted (pair_smaller (λ m. m.kickoff) (λ m. m.id)) ms → IsChronological ms
sorted-IsChronological [] s = tt
sorted-IsChronological (m ∷ ms) s = (
  All-map (λ y. pair_smaller (λ m. m.kickoff) (λ m. m.id) y m ≡ false) (λ y. m.kickoff ≤ y.kickoff)
      ms (λ y h. ground arith) s.0,
  sorted-IsChronological ms s.1,
)

pub chronological-IsChronological : (ms : List Match) → IsChronological (chronological ms)
unfolding chronological
chronological-IsChronological ms =
    sorted-IsChronological _
      (sort_by-IsSorted (pair_smaller (λ m. m.kickoff) (λ m. m.id)) smaller_total smaller_trans ms)

pub length-chronological : (ms : List Match) → length (chronological ms) ≡ length ms
unfolding chronological
length-chronological ms = length-sort_by (pair_smaller (λ m. m.kickoff) (λ m. m.id)) ms

-- The rows are in the order of kickoff and id.
abbrev pub IsOrdered : List Match → Type 0
IsOrdered ms = IsSorted (pair_smaller (λ m. m.kickoff) (λ m. m.id)) ms

pub chronological-IsOrdered : (ms : List Match) → IsOrdered (chronological ms)
unfolding chronological
chronological-IsOrdered ms =
    sort_by-IsSorted (pair_smaller (λ m. m.kickoff) (λ m. m.id)) smaller_total smaller_trans ms

-- Ordered rows, and their front, are left as they are.
pub chronological_ordered : (ms : List Match) → IsOrdered ms → chronological ms ≡ ms
unfolding chronological
chronological_ordered ms s = sort_by_sorted (pair_smaller (λ m. m.kickoff) (λ m. m.id)) ms s

All-front {κ} : (P : Match → Type κ) (xs ys : List Match) → All P (xs ++ ys) → All P xs
All-front P [] ys a = tt
All-front P (x ∷ xs) ys a = (a.0, All-front P xs ys a.1)

pub front-IsOrdered : (xs ys : List Match) → IsOrdered (xs ++ ys) → IsOrdered xs
front-IsOrdered [] ys s = tt
front-IsOrdered (x ∷ xs) ys s = (
  All-front (λ y. pair_smaller (λ m. m.kickoff) (λ m. m.id) y x ≡ false) xs ys s.0,
  front-IsOrdered xs ys s.1,
)
