-- ===== src/Pipe/Runs.antt =====
-- Runs of pipe.c and pipe_2.c: the child waits for the message, the parent writes it and leaves.
use zhone_engineering_academ.Common.{
  ℕ, ◌≤◌, Bool, true, false, List, [], ◌∷◌, ◌≡◌, refl, ◌⊎◌, replicate,
}
use zhone_engineering_academ.Pipe.{
  pipe, pipe_2, exited, reading, returned, Pipe, message, ParentStep, ChildStep, Step, Reach,
}
use zhone_engineering_academ.Pipe.Orderly.{hello_line}
use zhone_engineering_academ.Pipe.Result.{Moves, pipe-ends, pipe_2-hangs}

abbrev stack : List ℕ
stack = replicate 3 65

-- The child has printed the message and its next read is to come.
abbrev printed : Bool → Pipe
printed held = record {
  queue = [];
  out = hello_line ∷ [];
  parent = record { at = exited; read_end = false; write_end = false };
  child = record { at = reading; read_end = true; write_end = held; buffer = message };
}

pipe-Reach : Reach pipe stack 5 (printed false)
pipe-Reach =
    let a = Reach.later Reach.start (Step.child ChildStep.starts) in
    let b = Reach.later a (Step.parent ParentStep.closes_read) in
    let c = Reach.later b (Step.parent (ParentStep.writes refl)) in
    let d = Reach.later c (Step.parent ParentStep.closes_write) in
    Reach.later d (Step.child ChildStep.reads)

pipe_2-Reach : Reach pipe_2 stack 5 (printed true)
pipe_2-Reach =
    let a = Reach.later Reach.start (Step.child ChildStep.starts) in
    let b = Reach.later a (Step.parent ParentStep.closes_read) in
    let c = Reach.later b (Step.parent (ParentStep.writes refl)) in
    let d = Reach.later c (Step.parent ParentStep.closes_write) in
    Reach.later d (Step.child ChildStep.reads)

pipe-ends_example :
    (5 ≤ 7)
    × (Moves pipe (printed false)
        ⊎ ((exited ≡ exited) × (reading ≡ returned) × (hello_line ∷ [] ≡ hello_line ∷ [])))
pipe-ends_example = pipe-ends stack pipe-Reach

pipe_2-hangs_example :
    (5 ≤ 5)
    × (Moves pipe_2 (printed true)
        ⊎ ((exited ≡ exited)
            × (reading ≡ reading)
            × (hello_line ∷ [] ≡ hello_line ∷ [])
            × ((t : Pipe) → Step pipe_2 (printed true) t → ⊥)))
pipe_2-hangs_example = pipe_2-hangs stack pipe_2-Reach
