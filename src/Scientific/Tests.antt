-- ===== src/Scientific/Tests.antt =====
-- Three played rows, the last two of them at the same time; fractions and ceilings are whole numbers.
use ap2web.Scientific.Split.{Split, move_back, split_at, temporal_split}
use ap2web.Scientific.Partition.{IsSplit, temporal_split-cases}
use ap2web.Scientific.Protocol.{
  RawRow, bad_fraction, blocked, run_scientific_protocol, usable_row, usable_rows,
}
use ap2web.Scientific.Outcomes.{AreOutcomes, run_scientific_protocol-cases}
use ap2web.Prelude.{
  All, List, [], arith, false, insert_sorted, is_empty, leb, length, ltb, none, refl, some, sort_by,
  true, ℕ, ◌&&◌, ◌++◌, ◌<◌, ◌∷◌, ◌≡◌, ◌≤◌, ◌⊎◌,
}
use ap2web.Floats.{whole}
use ap2web.Learning.Features.{Match, TeamStats, goals}
use ap2web.Learning.Engine.{Probs, chronological}

abbrev played : ℕ → ℕ → RawRow
played mid kickoff = record {
  id = mid;
  kickoff = some kickoff;
  home_team_id = some 1;
  away_team_id = some 2;
  score_home = 2;
  score_away = 1;
  xg_home = none;
  xg_away = none;
}

abbrev raw_rows : List RawRow
raw_rows = played 1 10 ∷ played 2 20 ∷ played 3 20 ∷ []

abbrev home_wins : TeamStats ℕ → TeamStats ℕ → Probs ℕ
home_wins h a = record { p1 = 1; px = 0; p2 = 0 }

abbrev one_ceil : ℕ → ℕ
one_ceil n = 1

batch_kept :
    (s : Split) × (temporal_split whole one_ceil (usable_rows raw_rows) 1 ≡ some s)
    × (length s.development ≡ 1)
unfolding temporal_split split_at move_back usable_rows usable_row chronological sort_by
    insert_sorted
batch_kept = (_, refl, refl)

temporal_split-cases_example :
    ((temporal_split whole one_ceil (usable_rows raw_rows) 1 ≡ none)
      × ((ltb 0 1 && leb 1 5) ≡ false))
    ⊎ ((s : Split) × (temporal_split whole one_ceil (usable_rows raw_rows) 1 ≡ some s)
        × (s.development ++ s.holdout ≡ chronological (usable_rows raw_rows))
        × All (λ (a : Match). All (λ (b : Match). a.kickoff < b.kickoff) s.holdout) s.development
        × ((length (usable_rows raw_rows) < 2) ⊎ (1 ≤ length s.holdout)))
unfolding usable_rows usable_row
temporal_split-cases_example =
    temporal_split-cases whole one_ceil (usable_rows raw_rows) 1 (λ h. omega arith)

run_scientific_protocol-cases_example :
    ((is_empty (usable_rows raw_rows) ≡ true)
      × (run_scientific_protocol whole home_wins 10 goals one_ceil raw_rows 1 ≡ blocked))
    ⊎ (((ltb 0 1 && leb 1 5) ≡ false)
        × (run_scientific_protocol whole home_wins 10 goals one_ceil raw_rows 1 ≡ bad_fraction))
    ⊎ ((s : Split) × IsSplit (chronological (usable_rows raw_rows)) s
        × AreOutcomes whole home_wins 10 goals one_ceil
            (run_scientific_protocol whole home_wins 10 goals one_ceil raw_rows 1)
            s)
unfolding usable_rows usable_row
run_scientific_protocol-cases_example =
    run_scientific_protocol-cases whole home_wins 10 goals one_ceil raw_rows 1 (λ h. omega arith)
