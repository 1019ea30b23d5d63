-- ===== src/Echo/Tcp/Reap.antt =====
-- The children of section-07/lab/lab_1/server.c and the handler `sig_chld`, as a step relation. A
-- SIGCHLD that arrives while one is pending is lost, and a child may end at any time, also while the
-- handler runs.
pub mod Zombies
use zhone_engineering_academ.Common.{ℕ, ◌+◌, suc, Bool, true, false}

-- The children that run, those that have ended and are not waited for, those that are, whether a
-- SIGCHLD is pending, and whether the handler is in its loop.
pub record Children : Type 0 where
  pub running : ℕ
  pub zombies : ℕ
  pub reaped : ℕ
  pub pending : Bool
  pub handling : Bool

-- `waitpid(-1, NULL, WNOHANG)` takes a child that has ended, if
-- there is one, and the handler is not interrupted by itself.
pub data Step : Children → Children → Type 0 where
  forks :
      {r z d : ℕ} {p : Bool}
      → Step
          (record { running = r; zombies = z; reaped = d; pending = p; handling = false })
          (record { running = suc r; zombies = z; reaped = d; pending = p; handling = false })
  ends :
      {r z d : ℕ} {p h : Bool}
      → Step
          (record { running = suc r; zombies = z; reaped = d; pending = p; handling = h })
          (record { running = r; zombies = suc z; reaped = d; pending = true; handling = h })
  interrupts :
      {r z d : ℕ}
      → Step
          (record { running = r; zombies = z; reaped = d; pending = true; handling = false })
          (record { running = r; zombies = z; reaped = d; pending = false; handling = true })
  waits :
      {r z d : ℕ} {p : Bool}
      → Step
          (record { running = r; zombies = suc z; reaped = d; pending = p; handling = true })
          (record { running = r; zombies = z; reaped = suc d; pending = p; handling = true })
  returns :
      {r d : ℕ} {p : Bool}
      → Step
          (record { running = r; zombies = 0; reaped = d; pending = p; handling = true })
          (record { running = r; zombies = 0; reaped = d; pending = p; handling = false })

-- After the call of `signal`
abbrev pub begin : Children
begin = record { running = 0; zombies = 0; reaped = 0; pending = false; handling = false }

-- How many children a step makes.
abbrev pub forks_by : {s t : Children} → Step s t → ℕ
forks_by Step.forks = 1
forks_by Step.ends = 0
forks_by Step.interrupts = 0
forks_by Step.waits = 0
forks_by Step.returns = 0

pub data Reach : Children → Type 0 where
  start : Reach begin
  later : {s t : Children} → Reach s → Step s t → Reach t

abbrev pub forks_in : {s : Children} → Reach s → ℕ
forks_in Reach.start = 0
forks_in (Reach.later r st) = let before = forks_in r in before + forks_by st
