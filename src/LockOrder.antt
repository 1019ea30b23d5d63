-- ===== src/LockOrder.antt =====
-- section-04/lab/lab_5.c: two threads that take two mutexes in the same order, and a third that ends
-- the program when the counter stands still, as a step relation.
pub mod Progress
mod Runs
use zhone_engineering_academ.Common.{ℕ, suc, ◌≡◌, ◌≢◌, Bool, true, false}

-- `mutex1`, `mutex2`, whether they are held, and `counter`
pub record Shared : Type 0 where
  pub mutex1 : Bool
  pub mutex2 : Bool
  pub counter : ℕ

-- Where `thread_a` or `thread_b` stands: before its first lock, before its second one, before the
-- increment, before the unlock of `mutex2`, or before that of `mutex1`.
pub data Pc : Type 0 where
  looping : Pc
  has_first : Pc
  has_both : Pc
  counted : Pc
  has_first_still : Pc

-- A step of the loop in `thread_a`, which is that in `thread_b` too
pub data Move (m : Shared) : Pc → Shared → Pc → Type 0 where
  lock1 : m.mutex1 ≡ false → Move m looping (record m { mutex1 = true }) has_first
  lock2 : m.mutex2 ≡ false → Move m has_first (record m { mutex2 = true }) has_both
  count : Move m has_both (record m { counter = suc m.counter }) counted
  unlock2 : Move m counted (record m { mutex2 = false }) has_first_still
  unlock1 : Move m has_first_still (record m { mutex1 = false }) looping

-- Where `thread_c` stands: before it reads `counter`, asleep with what it has read, or after `exit`.
pub data Watch : Type 0 where
  reading : Watch
  sleeping : (old_counter : ℕ) → Watch
  exited : Watch

pub record Threads : Type 0 where
  pub shared : Shared
  pub a : Pc
  pub b : Pc
  pub c : Watch

-- The threads run until the process has ended.
pub data Step (s : Threads) : Threads → Type 0 where
  thread_a :
      {m : Shared} {p : Pc}
      → s.c ≢ exited
      → Move s.shared s.a m p
      → Step s (record { shared = m; a = p; b = s.b; c = s.c })
  thread_b :
      {m : Shared} {p : Pc}
      → s.c ≢ exited
      → Move s.shared s.b m p
      → Step s (record { shared = m; a = s.a; b = p; c = s.c })
  read_counter : s.c ≡ reading → Step s (record s { c = sleeping s.shared.counter })
  has_moved :
      {old : ℕ} → s.c ≡ sleeping old → old ≢ s.shared.counter → Step s (record s { c = reading })
  detect :
      {old : ℕ} → s.c ≡ sleeping old → old ≡ s.shared.counter → Step s (record s { c = exited })

-- After `pthread_mutex_init` and the three `pthread_create`
abbrev pub begin : Threads
begin = record {
  shared = record { mutex1 = false; mutex2 = false; counter = 0 };
  a = looping;
  b = looping;
  c = reading;
}

pub data Reach : Threads → Type 0 where
  start : Reach begin
  later : {s t : Threads} → Reach s → Step s t → Reach t
