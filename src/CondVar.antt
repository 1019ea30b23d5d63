-- ===== src/CondVar.antt =====
-- section-04/lab/lab_4.c: a producer and a consumer under a mutex with a condition variable, as a
-- step relation. A wait for the condition gives the mutex back and sleeps until it is signalled, or
-- wakes for no reason, as POSIX allows, and then takes the mutex again.
pub mod Order
mod Runs
use zhone_engineering_academ.Common.{ℕ, suc, ◌+◌, ◌-◌, ◌<◌, ◌≤◌, ◌≡◌, Bool, true, false}

-- Where the producer stands: before the lock, before `counter += 1`, before the signal, before the
-- unlock.
pub data Producer : Type 0 where
  looping : Producer
  locked : Producer
  added : Producer
  signalled : Producer

-- Where the consumer stands: before the lock, at the test of its `while`, asleep in the wait,
-- awake and before taking the mutex again, or before the unlock.
pub data Consumer : Type 0 where
  looping : Consumer
  testing : Consumer
  asleep : Consumer
  woken : Consumer
  consumed : Consumer

pub record Shared : Type 0 where
  pub mutex : Bool
  pub counter : ℕ

pub record Threads : Type 0 where
  pub shared : Shared
  pub producer : Producer
  pub consumer : Consumer

-- How many items the consumer takes at once.
abbrev pub batch : ℕ
batch = 4

-- `pthread_cond_signal`: a thread that is asleep wakes, else nothing happens.
abbrev pub wake : Consumer → Consumer
wake Consumer.asleep = Consumer.woken
wake Consumer.looping = Consumer.looping
wake Consumer.testing = Consumer.testing
wake Consumer.woken = Consumer.woken
wake Consumer.consumed = Consumer.consumed

pub data Step (s : Threads) : Threads → Type 0 where
  producer_locks :
      s.producer ≡ Producer.looping
      → s.shared.mutex ≡ false
      → Step s (record s {
        shared = record { mutex = true; counter = s.shared.counter };
        producer = Producer.locked;
      })
  adds :
      s.producer ≡ Producer.locked
      → Step s (record s {
        shared = record { mutex = s.shared.mutex; counter = suc s.shared.counter };
        producer = Producer.added;
      })
  signals :
      s.producer ≡ Producer.added
      → Step s (record s { producer = Producer.signalled; consumer = wake s.consumer })
  producer_unlocks :
      s.producer ≡ Producer.signalled
      → Step s (record s {
        shared = record { mutex = false; counter = s.shared.counter };
        producer = Producer.looping;
      })
  consumer_locks :
      s.consumer ≡ Consumer.looping
      → s.shared.mutex ≡ false
      → Step s (record s {
        shared = record { mutex = true; counter = s.shared.counter };
        consumer = Consumer.testing;
      })
  waits :
      s.consumer ≡ Consumer.testing
      → s.shared.counter < batch
      → Step s (record s {
        shared = record { mutex = false; counter = s.shared.counter };
        consumer = Consumer.asleep;
      })
  wakes_unasked : s.consumer ≡ Consumer.asleep → Step s (record s { consumer = Consumer.woken })
  locks_again :
      s.consumer ≡ Consumer.woken
      → s.shared.mutex ≡ false
      → Step s (record s {
        shared = record { mutex = true; counter = s.shared.counter };
        consumer = Consumer.testing;
      })
  takes :
      s.consumer ≡ Consumer.testing
      → batch ≤ s.shared.counter
      → Step s (record s {
        shared = record { mutex = s.shared.mutex; counter = s.shared.counter - batch };
        consumer = Consumer.consumed;
      })
  consumer_unlocks :
      s.consumer ≡ Consumer.consumed
      → Step s (record s {
        shared = record { mutex = false; counter = s.shared.counter };
        consumer = Consumer.looping;
      })

-- After `pthread_mutex_init`, `pthread_cond_init` and both `pthread_create`
abbrev pub begin : Threads
begin = record {
  shared = record { mutex = false; counter = 0 };
  producer = Producer.looping;
  consumer = Consumer.looping;
}

pub data Reach : Threads → Type 0 where
  start : Reach begin
  later : {s t : Threads} → Reach s → Step s t → Reach t

-- How many items a step adds, and how many batches it takes
abbrev pub adds_by : {s t : Threads} → Step s t → ℕ
adds_by (Step.adds _) = 1
adds_by _ = 0

abbrev pub takes_by : {s t : Threads} → Step s t → ℕ
takes_by (Step.takes _ _) = 1
takes_by _ = 0

-- How many were added and taken on the way to a state
abbrev pub added_in : {s : Threads} → Reach s → ℕ
added_in start = 0
added_in (later r st) = added_in r + adds_by st

abbrev pub taken_in : {s : Threads} → Reach s → ℕ
taken_in start = 0
taken_in (later r st) = taken_in r + takes_by st
