-- ===== src/Family.antt =====
-- section-03/lab/lab_1.c: a process, its child and its grandchild, which print and sleep, as a step
-- relation. Sleeps are left out: any process that can go on may be the next.
pub mod Prints
pub mod Orderly
pub mod Lines
pub mod Ends
mod Runs
use zhone_engineering_academ.Common.{
  ℕ, suc, ◌+◌, ◌≤◌, ◌<◌, ◌≡◌, Bool, true, false, List, [], ◌∷◌, ◌++◌,
}

pub data Process : Type 0 where
  parent child grandchild : Process

-- A line of `sleep_with_print` with its time and whether `getppid` is init by then, the messages of
-- the parent behind `waitpid` and of a process that exits, what `echo` prints, and `perror`.
pub data Line : Type 0 where
  tick : (who : Process) → (time : ℕ) → (orphan : Bool) → Line
  waited : Line
  exiting : Process → Line
  bye : Line
  fork_error : Process → Line

abbrev pub print_interval : ℕ
print_interval = 2

-- Where a process stands: it has not been made, it is to call `fork`, `sleep_with_print` is at `i`,
-- it is in `waitpid`, in the second `sleep_with_print` at `i`, or at its end.
pub data Pc : Type 0 where
  unborn : Pc
  forking : Pc
  sleeping : (i : ℕ) → Pc
  waiting : Pc
  sleeping_again : (i : ℕ) → Pc
  gone : Pc

-- `running_time` of the first loop of each
abbrev pub parent_time : ℕ
parent_time = 60

abbrev pub last_time : ℕ
last_time = 5

abbrev pub child_time : ℕ
child_time = 5

abbrev pub grandchild_time : ℕ
grandchild_time = 30

abbrev pub is_gone : Pc → Bool
is_gone gone = true
is_gone _ = false

-- What is printed, and the processes
pub record Family : Type 0 where
  pub out : List Line
  pub parent : Pc
  pub child : Pc
  pub grandchild : Pc

-- A step of the parent, behind its `fork`: the child's place is looked at by `waitpid` only.
pub data ParentStep (out : List Line) (c : Pc) : Pc → List Line → Pc → Type 0 where
  prints :
      {i : ℕ}
      → i < parent_time
      → ParentStep out c
          (sleeping i)
          (out ++ tick parent i false ∷ [])
          (sleeping (i + print_interval))
  awakes : {i : ℕ} → parent_time ≤ i → ParentStep out c (sleeping i) out waiting
  reaps : is_gone c ≡ true → ParentStep out c waiting (out ++ waited ∷ []) (sleeping_again 0)
  prints_again :
      {i : ℕ}
      → i < last_time
      → ParentStep out c
          (sleeping_again i)
          (out ++ tick parent i false ∷ [])
          (sleeping_again (i + print_interval))
  exits :
      {i : ℕ}
      → last_time ≤ i
      → ParentStep out c (sleeping_again i) (out ++ exiting parent ∷ []) gone

-- A step of the child, and what becomes of the grandchild.
pub data ChildStep (out : List Line) (p : Pc) : Pc → Pc → List Line → Pc → Pc → Type 0 where
  forks : {g : Pc} → ChildStep out p forking g out (sleeping 0) (sleeping 0)
  fails_to_fork : {g : Pc} → ChildStep out p forking g (out ++ fork_error child ∷ []) gone g
  prints :
      {i : ℕ} {g : Pc}
      → i < child_time
      → ChildStep out p
          (sleeping i)
          g
          (out ++ tick child i (is_gone p) ∷ [])
          (sleeping (i + print_interval))
          g
  exits :
      {i : ℕ} {g : Pc}
      → child_time ≤ i
      → ChildStep out p (sleeping i) g (out ++ exiting child ∷ []) gone g

-- A step of the grandchild; it becomes `echo`.
pub data GrandchildStep (out : List Line) (c : Pc) : Pc → List Line → Pc → Type 0 where
  prints :
      {i : ℕ}
      → i < grandchild_time
      → GrandchildStep out c
          (sleeping i)
          (out ++ tick grandchild i (is_gone c) ∷ [])
          (sleeping (i + print_interval))
  becomes_echo :
      {i : ℕ} → grandchild_time ≤ i → GrandchildStep out c (sleeping i) (out ++ bye ∷ []) gone

pub data Step (s : Family) : Family → Type 0 where
  of_parent :
      {out : List Line} {p : Pc}
      → ParentStep s.out s.child s.parent out p
      → Step s (record { out = out; parent = p; child = s.child; grandchild = s.grandchild })
  of_child :
      {out : List Line} {c g : Pc}
      → ChildStep s.out s.parent s.child s.grandchild out c g
      → Step s (record { out = out; parent = s.parent; child = c; grandchild = g })
  of_grandchild :
      {out : List Line} {g : Pc}
      → GrandchildStep s.out s.child s.grandchild out g
      → Step s (record { out = out; parent = s.parent; child = s.child; grandchild = g })

-- After a `fork` that succeeds
abbrev pub begin : Family
begin = record { out = []; parent = sleeping 0; child = forking; grandchild = unborn }

-- Reached in so many steps.
pub data Reach : ℕ → Family → Type 0 where
  start : Reach 0 begin
  later : {n : ℕ} {s t : Family} → Reach n s → Step s t → Reach (suc n) t
