-- ===== src/Learning/Past.antt =====
-- The rows before a kickoff, and the history that they make.
use ap2web.Learning.Features.{Feature, Match}
use ap2web.Learning.Batches.{IsChronological}
use ap2web.Learning.Engine.{History, empty_history, learn, learn_all}
use ap2web.Prelude.{
  All, All-append, All-map, List, [], ap, arith, false, ltb, refl, select, true, ℕ, ◌++◌, ◌<◌, ◌∷◌,
  ◌≡◌, ◌≤◌,
}
use ap2web.Floats.{Floats}

-- The rows with an earlier kickoff.
abbrev pub earlier : ℕ → List Match → List Match
earlier k ms = select (λ x. ltb x.kickoff k) ms

-- Everything that stands before the front of the rest starts earlier than it.
abbrev pub IsBefore : List Match → List Match → Type 0
IsBefore done [] = Unit
IsBefore done (m ∷ rest) = All (λ x. x.kickoff < m.kickoff) done

earlier-none : (k : ℕ) (ms : List Match) → All (λ x. k ≤ x.kickoff) ms → earlier k ms ≡ []
earlier-none k [] a = refl
earlier-none k (m ∷ ms) a = rw (late a.0) (earlier-none k ms a.1)
  where
    late : k ≤ m.kickoff → ltb m.kickoff k ≡ false
    late h = ground arith

pub earlier-append :
    (k : ℕ) (done rest : List Match)
    → All (λ x. x.kickoff < k) done
    → All (λ x. k ≤ x.kickoff) rest
    → earlier k (done ++ rest) ≡ done
earlier-append k [] rest d r = earlier-none k rest r
earlier-append k (m ∷ done) rest d r =
    rw (early d.0) (ap (λ xs. m ∷ xs) (earlier-append k done rest d.1 r))
  where
    early : m.kickoff < k → ltb m.kickoff k ≡ true
    early h = ground arith

All-split {κ} : (P : Match → Type κ) (xs ys : List Match) → All P (xs ++ ys) → All P xs × All P ys
All-split P [] ys a = (tt, a)
All-split P (x ∷ xs) ys a = let (l, r) = All-split P xs ys a.1 in ((a.0, l), r)

-- In chronological rows no row is before the first.
pub from_head :
    (m : Match) (ms : List Match)
    → IsChronological (m ∷ ms)
    → All (λ x. m.kickoff ≤ x.kickoff) (m ∷ ms)
from_head m ms c = (omega arith, c.0)

-- What a batch and the rows before it leave behind is before the rest.
pub IsBefore-append :
    (m : Match) (done batch rest : List Match)
    → All (λ x. x.kickoff < m.kickoff) done
    → All (λ x. x.kickoff ≡ m.kickoff) batch
    → All (λ x. m.kickoff < x.kickoff) rest
    → IsBefore (done ++ batch) rest
IsBefore-append m done batch [] d b r = tt
IsBefore-append m done batch (n ∷ rest) d b r =
    All-append (λ x. x.kickoff < n.kickoff) done batch
      (All-map (λ x. x.kickoff < m.kickoff) (λ x. x.kickoff < n.kickoff) done
        (λ x h. omega (arith, h, r.0)) d)
      (All-map (λ x. x.kickoff ≡ m.kickoff) (λ x. x.kickoff < n.kickoff) batch
        (λ x h. omega (arith, h, r.0)) b)

module _ {F : Type 0} (o : Floats F) (window : ℕ) (feature : Feature) where
  pub learn_all-append :
      (xs ys : List Match) (h : History F)
      → learn_all o window feature (xs ++ ys) h
        ≡ learn_all o window feature ys (learn_all o window feature xs h)
  unfolding learn_all
  learn_all-append [] ys h = refl
  learn_all-append (x ∷ xs) ys h = learn_all-append xs ys (learn o window feature x h)

  -- The history that rows make, from nothing.
  abbrev pub history_of : List Match → History F
  history_of ms = learn_all o window feature ms empty_history
