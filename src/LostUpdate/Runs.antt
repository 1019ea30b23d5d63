-- ===== src/LostUpdate/Runs.antt =====
-- What section-04/lab/lab_1.c may print at the least, with its loop of 1000000 rounds.
use zhone_engineering_academ.Common.{◌*◌, ◌≤◌, ◌↔◌, arith}
use zhone_engineering_academ.LostUpdate.{Reach}
use zhone_engineering_academ.LostUpdate.Results.{ended, Reach-ended}

Reach-ended_example : Reach 1_000_000 (ended 2) ↔ ((2 ≤ 2) × (2 ≤ 2 * 1_000_000))
Reach-ended_example = Reach-ended 1_000_000 2 (omega arith)
