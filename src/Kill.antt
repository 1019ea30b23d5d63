-- ===== src/Kill.antt =====
-- section-03/lab/lab_2.c behind a `fork` that succeeds: the parent kills a child that is about to
-- print, as a step relation. Sleeps are left out: either process may be the next.
pub mod Race
mod Runs
use zhone_engineering_academ.Common.{ℕ, suc, List, [], ◌∷◌, ◌++◌}

-- "Child: Hello!" and "Parent: kill()", each flushed at once
pub data Line : Type 0 where
  hello kill : Line

-- Where a process stands: in its first sleep, behind its line, ended or behind the signal, at its
-- end. A child that has ended is a zombie until `waitpid` takes it.
pub data Child : Type 0 where
  asleep spoken zombie reaped : Child

pub data Parent : Type 0 where
  asleep spoken waiting returned : Parent

pub record Processes : Type 0 where
  pub out : List Line
  pub child : Child
  pub parent : Parent

pub data Step : Processes → Processes → Type 0 where
  child_prints :
      {out : List Line} {p : Parent}
      → Step
          (record { out = out; child = Child.asleep; parent = p })
          (record { out = out ++ hello ∷ []; child = Child.spoken; parent = p })
  child_exits :
      {out : List Line} {p : Parent}
      → Step
          (record { out = out; child = Child.spoken; parent = p })
          (record { out = out; child = zombie; parent = p })
  parent_prints :
      {out : List Line} {c : Child}
      → Step
          (record { out = out; child = c; parent = Parent.asleep })
          (record { out = out ++ kill ∷ []; child = c; parent = Parent.spoken })
  -- `SIGKILL` ends the child wherever it is.
  parent_kills :
      {out : List Line} {c : Child}
      → Step
          (record { out = out; child = c; parent = Parent.spoken })
          (record { out = out; child = zombie; parent = waiting })
  parent_reaps :
      {out : List Line}
      → Step
          (record { out = out; child = zombie; parent = waiting })
          (record { out = out; child = reaped; parent = returned })

abbrev pub begin : Processes
begin = record { out = []; child = Child.asleep; parent = Parent.asleep }

-- Reached in so many steps.
pub data Reach : ℕ → Processes → Type 0 where
  start : Reach 0 begin
  later : {n : ℕ} {s t : Processes} → Reach n s → Step s t → Reach (suc n) t
