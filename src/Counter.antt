-- ===== src/Counter.antt =====
-- section-04/lab/lab_2.c: two threads that increment a counter under a mutex, as a step relation. A
-- step is one access to what they share.
pub mod Total
pub mod Ends
mod Runs
use zhone_engineering_academ.Common.{ℕ, zero, suc, ◌+◌, ◌<◌, ◌≤◌, ◌≡◌, Bool, true, false}

-- Where a thread stands in `increment`, in which round of its loop: before the lock, before the
-- read of `counter`, before its write, or before the unlock.
pub data Pc : Type 0 where
  looping : (i : ℕ) → Pc
  locked : (i : ℕ) → Pc
  loaded : (i v : ℕ) → Pc
  stored : (i : ℕ) → Pc
  returned : Pc

-- `mutex`, whether it is held, and `counter`
pub record Shared : Type 0 where
  pub mutex : Bool
  pub counter : ℕ

pub record Threads : Type 0 where
  pub shared : Shared
  pub t1 : Pc
  pub t2 : Pc

-- A step of `increment`, with a loop of `rounds` rounds
pub data Increment (rounds : ℕ) (m : Shared) : Pc → Shared → Pc → Type 0 where
  lock :
      {i : ℕ}
      → i < rounds
      → m.mutex ≡ false
      → Increment rounds m (looping i) (record m { mutex = true }) (locked i)
  load : {i : ℕ} → Increment rounds m (locked i) m (loaded i m.counter)
  store : {i v : ℕ} → Increment rounds m (loaded i v) (record m { counter = suc v }) (stored i)
  unlock : {i : ℕ} → Increment rounds m (stored i) (record m { mutex = false }) (looping (suc i))
  finish : {i : ℕ} → rounds ≤ i → Increment rounds m (looping i) m returned

pub data Step (rounds : ℕ) (s : Threads) : Threads → Type 0 where
  first :
      {m : Shared} {p : Pc}
      → Increment rounds s.shared s.t1 m p
      → Step rounds s (record { shared = m; t1 = p; t2 = s.t2 })
  second :
      {m : Shared} {p : Pc}
      → Increment rounds s.shared s.t2 m p
      → Step rounds s (record { shared = m; t1 = s.t1; t2 = p })

-- After `pthread_mutex_init` and both `pthread_create`
abbrev pub begin : Threads
begin = record { shared = record { mutex = false; counter = 0 }; t1 = looping 0; t2 = looping 0 }

-- Reached in so many steps.
pub data Reach (rounds : ℕ) : ℕ → Threads → Type 0 where
  start : Reach rounds 0 begin
  later : {n : ℕ} {s t : Threads} → Reach rounds n s → Step rounds s t → Reach rounds (suc n) t
