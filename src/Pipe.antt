-- ===== src/Pipe.antt =====
-- section-05/lab/pipe/pipe.c and pipe_2.c: a parent and a child that share a pipe, as a step relation.
-- The programs differ in one line: the child of pipe_2.c keeps its write end. section-06/lab/lab_3.c
-- is pipe_2.c again.
pub mod Orderly
pub mod Ends
pub mod Result
mod Runs
use zhone_engineering_academ.Common.{
  ℕ, suc, Bool, true, false, not, ◌&&◌, ◌||◌, List, [], ◌∷◌, ◌++◌, ◌≡◌, take, drop,
}
use zhone_engineering_academ.CText.{codes, c_string, overwrite}

-- Whether the child closes its write end.
pub data Program : Type 0 where
  pipe pipe_2 : Program

abbrev pub closes : Program → Bool
closes pipe = true
closes pipe_2 = false

-- Where the parent stands: before it closes its read end, before its write, before it closes its
-- write end, at its end.
pub data Writing : Type 0 where
  opened writing written exited : Writing

-- Where the child stands: before its first close, before a read, behind its loop, at its end.
pub data Reading : Type 0 where
  forked reading finished returned : Reading

-- A process with the ends of the pipe that it has open.
pub record Parent : Type 0 where
  pub at : Writing
  pub read_end : Bool
  pub write_end : Bool

pub record Child : Type 0 where
  pub at : Reading
  pub read_end : Bool
  pub write_end : Bool
  pub buffer : List ℕ

-- The bytes in the pipe, what the child has printed, and the two processes
pub record Pipe : Type 0 where
  pub queue : List ℕ
  pub out : List (List ℕ)
  pub parent : Parent
  pub child : Child

-- The text and its zero, 14 bytes
abbrev pub message : List ℕ
message = codes "Hello, child!" ++ 0 ∷ []

-- `sizeof(buffer)`
abbrev pub buffer_size : ℕ
buffer_size = 100

abbrev pub received : List ℕ → List ℕ
received buffer = codes "Received from parent: " ++ (c_string buffer ++ codes "\n")

-- A system call of the parent. As pipe(7) documents, a write without a read end open kills it.
pub data ParentStep (others_read : Bool) (queue : List ℕ) : Parent → List ℕ → Parent → Type 0 where
  closes_read :
      {r w : Bool}
      → ParentStep others_read queue
          (record { at = opened; read_end = r; write_end = w })
          queue
          (record { at = writing; read_end = false; write_end = w })
  writes :
      {r w : Bool}
      → (r || others_read) ≡ true
      → ParentStep others_read queue
          (record { at = writing; read_end = r; write_end = w })
          (queue ++ message)
          (record { at = written; read_end = r; write_end = w })
  is_killed :
      {r w : Bool}
      → (r || others_read) ≡ false
      → ParentStep others_read queue
          (record { at = writing; read_end = r; write_end = w })
          queue
          (record { at = exited; read_end = false; write_end = false })
  closes_write :
      {r w : Bool}
      → ParentStep others_read queue
          (record { at = written; read_end = r; write_end = w })
          queue
          (record { at = exited; read_end = false; write_end = false })

-- A system call of the child. As pipe(7) documents, a read of an empty pipe waits while a write end
-- is open, and returns 0 when none is.
pub data ChildStep (program : Program) (others_write : Bool)
    : List ℕ → List (List ℕ) → Child → List ℕ → List (List ℕ) → Child → Type 0 where
  starts :
      {queue : List ℕ} {out : List (List ℕ)} {r w : Bool} {b : List ℕ}
      → ChildStep program others_write queue out
          (record { at = forked; read_end = r; write_end = w; buffer = b })
          queue
          out
          (record { at = reading; read_end = r; write_end = not (closes program) && w; buffer = b })
  reads :
      {byte : ℕ} {bytes : List ℕ} {out : List (List ℕ)} {r w : Bool} {b : List ℕ}
      → ChildStep program others_write
          (byte ∷ bytes)
          out
          (record { at = reading; read_end = r; write_end = w; buffer = b })
          (drop buffer_size (byte ∷ bytes))
          (out ++ received (overwrite b (take buffer_size (byte ∷ bytes))) ∷ [])
          (record {
            at = reading;
            read_end = r;
            write_end = w;
            buffer = overwrite b (take buffer_size (byte ∷ bytes));
          })
  reads_end :
      {out : List (List ℕ)} {r w : Bool} {b : List ℕ}
      → (others_write || w) ≡ false
      → ChildStep program others_write [] out
          (record { at = reading; read_end = r; write_end = w; buffer = b })
          []
          out
          (record { at = finished; read_end = r; write_end = w; buffer = b })
  returns :
      {queue : List ℕ} {out : List (List ℕ)} {r w : Bool} {b : List ℕ}
      → ChildStep program others_write queue out
          (record { at = finished; read_end = r; write_end = w; buffer = b })
          queue
          out
          (record { at = returned; read_end = false; write_end = false; buffer = b })

pub data Step (program : Program) (s : Pipe) : Pipe → Type 0 where
  parent :
      {queue : List ℕ} {p : Parent}
      → ParentStep s.child.read_end s.queue s.parent queue p
      → Step program s (record { queue = queue; out = s.out; parent = p; child = s.child })
  child :
      {queue : List ℕ} {out : List (List ℕ)} {c : Child}
      → ChildStep program s.parent.write_end s.queue s.out s.child queue out c
      → Step program s (record { queue = queue; out = out; parent = s.parent; child = c })

-- After `pipe` and `fork`; `stack` is what the buffer holds before it is written.
abbrev pub forks : List ℕ → Pipe
forks stack = record {
  queue = [];
  out = [];
  parent = record { at = opened; read_end = true; write_end = true };
  child = record { at = forked; read_end = true; write_end = true; buffer = stack };
}

-- Reached in so many steps.
pub data Reach (program : Program) (stack : List ℕ) : ℕ → Pipe → Type 0 where
  start : Reach program stack 0 (forks stack)
  later :
      {n : ℕ} {s t : Pipe}
      → Reach program stack n s
      → Step program s t
      → Reach program stack (suc n) t
