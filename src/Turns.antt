-- ===== src/Turns.antt =====
-- section-05/lab/lab_2.c: a producer and a consumer that take turns on a value in shared memory by
-- two semaphores, as a step relation. A step is one access to what they share.
pub mod Order
pub mod Runs
pub mod Shutdown
use zhone_engineering_academ.Common.{ℕ, zero, suc, ◌+◌, ◌-◌, ◌≤◌, ◌<◌, ◌≡◌, ℤ, pos, negsuc}

abbrev pub max_size : ℕ
max_size = 5

-- `struct shared_data`
pub record SharedData : Type 0 where
  pub sem_full : ℕ
  pub sem_empty : ℕ
  pub value : ℤ

-- `value + 1` and `value - 1`
abbrev pub inc : ℤ → ℤ
inc (pos n) = pos (suc n)
inc (negsuc zero) = pos 0
inc (negsuc (suc n)) = negsuc n

abbrev pub dec : ℤ → ℤ
dec (pos zero) = negsuc 0
dec (pos (suc n)) = pos n
dec (negsuc n) = negsuc (suc n)

-- Where a process stands: before `sem_wait`, at the head of its loop in round `i`, or between the
-- read and the write of `value` in that round.
pub data Pc : Type 0 where
  waiting : Pc
  looping : (i : ℕ) → Pc
  loaded : (i : ℕ) → (v : ℤ) → Pc

pub record System : Type 0 where
  pub shared : SharedData
  pub producer : Pc
  pub consumer : Pc

-- After `sem_init` and `value = 0`; the consumer's sleep lets the producer get there first.
abbrev pub init : System
init = record {
  shared = record { sem_full = 0; sem_empty = 1; value = pos 0 };
  producer = waiting;
  consumer = waiting;
}

-- A step of the loop in `producer`.
pub data Produce (m : SharedData) : Pc → SharedData → Pc → Type 0 where
  wait_empty :
      {n : ℕ} → m.sem_empty ≡ suc n → Produce m waiting (record m { sem_empty = n }) (looping 0)
  load : {i : ℕ} → i < max_size → Produce m (looping i) m (loaded i m.value)
  store : {i : ℕ} {v : ℤ} → Produce m (loaded i v) (record m { value = inc v }) (looping (suc i))
  post_full :
      {i : ℕ}
      → max_size ≤ i
      → Produce m (looping i) (record m { sem_full = suc m.sem_full }) waiting

-- A step of the loop in `consumer`.
pub data Consume (m : SharedData) : Pc → SharedData → Pc → Type 0 where
  wait_full :
      {n : ℕ} → m.sem_full ≡ suc n → Consume m waiting (record m { sem_full = n }) (looping 0)
  load : {i : ℕ} → i < max_size → Consume m (looping i) m (loaded i m.value)
  store : {i : ℕ} {v : ℤ} → Consume m (loaded i v) (record m { value = dec v }) (looping (suc i))
  post_empty :
      {i : ℕ}
      → max_size ≤ i
      → Consume m (looping i) (record m { sem_empty = suc m.sem_empty }) waiting

-- The two processes in any order.
pub data Step (s : System) : System → Type 0 where
  produces :
      {m : SharedData} {p : Pc}
      → Produce s.shared s.producer m p
      → Step s (record { shared = m; producer = p; consumer = s.consumer })
  consumes :
      {m : SharedData} {c : Pc}
      → Consume s.shared s.consumer m c
      → Step s (record { shared = m; producer = s.producer; consumer = c })

pub data Reach : System → Type 0 where
  start : Reach init
  later : {s t : System} → Reach s → Step s t → Reach t
