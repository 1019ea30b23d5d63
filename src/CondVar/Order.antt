-- ===== src/CondVar/Order.antt =====
-- The producer and the consumer of section-04/lab/lab_4.c: mutual exclusion, wake-ups, and what is
-- in stock.
use zhone_engineering_academ.Common.{
  ◌+◌, ◌*◌, ◌<◌, ◌≡◌, Bool, true, false, ◌&&◌, ◌||◌, ◌⊎◌, inl, arith, refl,
}
use zhone_engineering_academ.CondVar.{
  Producer, Consumer, Threads, Step, Reach, start, later, batch, added_in, taken_in, adds_by,
  takes_by,
}

abbrev pub producer_inside : Producer → Bool
producer_inside Producer.looping = false
producer_inside Producer.locked = true
producer_inside Producer.added = true
producer_inside Producer.signalled = true

abbrev pub consumer_inside : Consumer → Bool
consumer_inside Consumer.looping = false
consumer_inside Consumer.testing = true
consumer_inside Consumer.asleep = false
consumer_inside Consumer.woken = false
consumer_inside Consumer.consumed = true

abbrev pub is_asleep : Consumer → Bool
is_asleep Consumer.looping = false
is_asleep Consumer.testing = false
is_asleep Consumer.asleep = true
is_asleep Consumer.woken = false
is_asleep Consumer.consumed = false

pub record IsSafe (s : Threads) : Type 0 where
  pub owned : s.shared.mutex ≡ (producer_inside s.producer || consumer_inside s.consumer)
  pub apart : (producer_inside s.producer && consumer_inside s.consumer) ≡ false
  pub no_lost_wakeup :
      (is_asleep s.consumer ≡ false) ⊎ (s.shared.counter < batch) ⊎ (s.producer ≡ Producer.added)

Step-IsSafe : {s t : Threads} → Step s t → IsSafe s → IsSafe t
Step-IsSafe (Step.producer_locks at free) v = ground arith
Step-IsSafe (Step.adds at) v = ground arith
Step-IsSafe (Step.signals at) v = ground arith
Step-IsSafe (Step.producer_unlocks at) v = ground arith
Step-IsSafe (Step.consumer_locks at free) v = ground arith
Step-IsSafe (Step.waits at few) v = ground arith
Step-IsSafe (Step.wakes_unasked at) v = ground arith
Step-IsSafe (Step.locks_again at free) v = ground arith
Step-IsSafe (Step.takes at enough) v = ground arith
Step-IsSafe (Step.consumer_unlocks at) v = ground arith

pub Reach-IsSafe : {s : Threads} → Reach s → IsSafe s
Reach-IsSafe start = record { owned = refl; apart = refl; no_lost_wakeup = inl refl }
Reach-IsSafe (later r st) = Step-IsSafe st (Reach-IsSafe r)

Step-stock :
    {s t : Threads} (st : Step s t)
    → t.shared.counter + batch * takes_by st ≡ s.shared.counter + adds_by st
Step-stock (Step.producer_locks at free) = omega arith
Step-stock (Step.adds at) = omega arith
Step-stock (Step.signals at) = omega arith
Step-stock (Step.producer_unlocks at) = omega arith
Step-stock (Step.consumer_locks at free) = omega arith
Step-stock (Step.waits at few) = omega arith
Step-stock (Step.wakes_unasked at) = omega arith
Step-stock (Step.locks_again at free) = omega arith
Step-stock (Step.takes at enough) = omega arith
Step-stock (Step.consumer_unlocks at) = omega arith

pub Reach-stock : {s : Threads} (r : Reach s) → s.shared.counter + batch * taken_in r ≡ added_in r
Reach-stock start = refl
Reach-stock (later r st) = omega (arith, Reach-stock r, Step-stock st)

-- In every reachable state the mutex is held by the thread that is between its lock and its unlock,
-- at most one is, and no wake-up is lost: while the consumer sleeps, fewer than four items are there
-- or the producer is about to signal. Along every run `counter` is what the producer has added less
-- four for each time that the consumer took: nothing is lost, or taken before it is there.
pub Reach-IsKept :
    {s : Threads} (r : Reach s) → IsSafe s × (s.shared.counter + batch * taken_in r ≡ added_in r)
Reach-IsKept r = (Reach-IsSafe r, Reach-stock r)
