-- ===== src/LostUpdate.antt =====
-- section-04/lab/lab_1.c: two threads that increment a counter without a mutex, as a step relation.
-- A step is one access to `counter`.
pub mod Lost
pub mod Least
pub mod Results
mod Runs
use zhone_engineering_academ.Common.{ℕ, suc, ◌<◌, ◌≤◌}

-- Where a thread stands in `increment`, in which round of its loop: before the read of `counter`,
-- or before its write.
pub data Pc : Type 0 where
  looping : (i : ℕ) → Pc
  loaded : (i v : ℕ) → Pc
  returned : Pc

pub record Threads : Type 0 where
  pub counter : ℕ
  pub t1 : Pc
  pub t2 : Pc

-- A step of `increment`, with a loop of `rounds` rounds: from a value of `counter` to another
pub data Increment (rounds c : ℕ) : Pc → ℕ → Pc → Type 0 where
  load : {i : ℕ} → i < rounds → Increment rounds c (looping i) c (loaded i c)
  store : {i v : ℕ} → Increment rounds c (loaded i v) (suc v) (looping (suc i))
  finish : {i : ℕ} → rounds ≤ i → Increment rounds c (looping i) c returned

pub data Step (rounds : ℕ) (s : Threads) : Threads → Type 0 where
  first :
      {c : ℕ} {p : Pc}
      → Increment rounds s.counter s.t1 c p
      → Step rounds s (record { counter = c; t1 = p; t2 = s.t2 })
  second :
      {c : ℕ} {p : Pc}
      → Increment rounds s.counter s.t2 c p
      → Step rounds s (record { counter = c; t1 = s.t1; t2 = p })

-- After both `pthread_create`
abbrev pub begin : Threads
begin = record { counter = 0; t1 = looping 0; t2 = looping 0 }

pub data Reach (rounds : ℕ) : Threads → Type 0 where
  start : Reach rounds begin
  later : {s t : Threads} → Reach rounds s → Step rounds s t → Reach rounds t
