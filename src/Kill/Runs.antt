-- ===== src/Kill/Runs.antt =====
-- A run of section-03/lab/lab_2.c: the child is killed before it prints.
use zhone_engineering_academ.Common.{◌≤◌, ◌≡◌, [], ◌∷◌, ◌⊎◌}
use zhone_engineering_academ.Kill.{Processes, kill, reaped, returned, Step, Reach}
use zhone_engineering_academ.Kill.Race.{Moves, IsRace, Reach-race}

abbrev killed : Processes
killed = record { out = kill ∷ []; child = reaped; parent = returned }

killed-Reach : Reach 3 killed
killed-Reach =
    let a = Reach.later Reach.start Step.parent_prints in
    Reach.later (Reach.later a Step.parent_kills) Step.parent_reaps

Reach-race_example :
    (3 ≤ 5) × (Moves killed ⊎ ((reaped ≡ reaped) × (returned ≡ returned) × IsRace killed.out))
Reach-race_example = Reach-race killed-Reach
