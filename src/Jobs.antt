-- ===== src/Jobs.antt =====
-- The job system of backend/app/jobs: the `jobs` table (`Table`), the functions of registry.py
-- (`Create`, `Claim`, `Finish`), the runner (`Runner`), the worker's loop (`Loop`) and the proofs about
-- them.
pub mod Table
pub mod Create
pub mod Claim
pub mod Finish
pub mod Workers
pub mod Runner
pub mod Lifecycle
pub mod Invariant
pub mod Evolution
pub mod Exclusion
pub mod Insertion
pub mod Found
pub mod Steps
pub mod Runs
pub mod Calls
pub mod Recovery
pub mod Ends
pub mod Requests
pub mod RunnerRuns
pub mod RunnerEnds
pub mod RunnerOutcome
pub mod RunnerResult
pub mod Loop
pub mod LoopRuns
pub mod LoopServes
pub mod Races
pub mod Listing
mod Tests
