-- ===== src/Scientific/Outcomes.antt =====
-- The outcomes of `run_scientific_protocol` of backend/app/scientific/protocol.py.
use ap2web.Scientific.Split.{Split, holdout_size, temporal_split}
use ap2web.Scientific.Partition.{IsSplit, temporal_split-cases}
use ap2web.Scientific.Protocol.{
  ProtocolResult, RawRow, bad_fraction, blocked, both_scored, evaluated, one_sided,
  run_scientific_protocol, usable_rows,
}
use ap2web.Scientific.Holdout.{AreEvaluations, evaluate-AreEvaluations}
use ap2web.Prelude.{
  Bool, Bool-cases, List, false, inl, inr, is_empty, length, refl, some, subst, sym, true, ℕ, ◌&&◌,
  ◌++◌, ◌||◌, ◌≡◌, ◌≤◌, ◌⊎◌,
}
use ap2web.Floats.{Floats, of_nat}
use ap2web.Learning.Features.{Feature, TeamStats}
use ap2web.Learning.Engine.{Probs, Report, chronological}
use ap2web.Learning.Order.{IsOrdered, chronological-IsOrdered}

module _ {F : Type 0} (o : Floats F) (predict : TeamStats F → TeamStats F → Probs F) (window : ℕ)
    (feature : Feature) (ceil : F → ℕ) where
  -- What the protocol does with a split.
  abbrev pub AreOutcomes : ProtocolResult F → Split → Type 0
  AreOutcomes result s =
      ((result ≡ one_sided s) × ((is_empty s.holdout || is_empty s.development) ≡ true))
      ⊎ ((d : Report F) × (h : Report F) × (result ≡ evaluated (both_scored o d h) s d h)
          × AreEvaluations o predict window feature s d h)

  abbrev fraction_ok : F → Bool
  fraction_ok fraction = o.lt (of_nat o 0) fraction && o.le fraction (o.decimal 5 1)

  -- Unless the size of the holdout exceeds the rows, the protocol is blocked without usable rows,
  -- raises for a fraction outside of (0, 0.5], and otherwise splits the usable rows, in order, such
  -- that the development ends before the holdout starts. A split with an empty side is returned as it
  -- is; every other one is evaluated: the development from itself alone, and the holdout, each of whose
  -- rows is scored that can be predicted and no other, from the rows before its kickoff.
  pub run_scientific_protocol-cases :
      (raw : List RawRow) (fraction : F)
      → (2 ≤ length (usable_rows raw)
          → holdout_size o ceil (length (usable_rows raw)) fraction ≤ length (usable_rows raw))
      → ((is_empty (usable_rows raw) ≡ true)
          × (run_scientific_protocol o predict window feature ceil raw fraction ≡ blocked))
        ⊎ ((fraction_ok fraction ≡ false)
            × (run_scientific_protocol o predict window feature ceil raw fraction ≡ bad_fraction))
        ⊎ ((s : Split) × IsSplit (chronological (usable_rows raw)) s
            × AreOutcomes (run_scientific_protocol o predict window feature ceil raw fraction) s)
  unfolding run_scientific_protocol
  run_scientific_protocol-cases raw fraction b = elim (Bool-cases (is_empty (usable_rows raw))) [
    | inl e ↦ inl (e, rw (e, run_scientific_protocol) refl)
    | inr e ↦ elim (temporal_split-cases o ceil (usable_rows raw) fraction b) [
      | inl (f, g) ↦ inr (inl (g, rw (e, f, run_scientific_protocol) refl))
      | inr (s, f, parts, strict, long) ↦ inr (inr (s, (parts, strict), split_outcomes e s f parts))
    ]
  ]
    where
      split_outcomes :
          is_empty (usable_rows raw) ≡ false
          → (s : Split) → temporal_split o ceil (usable_rows raw) fraction ≡ some s
          → s.development ++ s.holdout ≡ chronological (usable_rows raw)
          → AreOutcomes (run_scientific_protocol o predict window feature ceil raw fraction) s
      split_outcomes e s f parts =
          elim (Bool-cases (is_empty s.holdout || is_empty s.development)) [
            | inl g ↦ inl (rw (e, f, g, run_scientific_protocol) refl, g)
            | inr g ↦
                let (d, h, k, p) =
                  evaluate-AreEvaluations o predict window feature s
                    (subst IsOrdered (sym parts) (chronological-IsOrdered (usable_rows raw))) in
                inr (d, h, rw (e, f, g, run_scientific_protocol) k, p)
          ]
