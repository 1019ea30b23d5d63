-- ===== src/CondVar/Runs.antt =====
-- A run of section-04/lab/lab_4.c: the consumer finds too little and sleeps, the producer adds one.
use zhone_engineering_academ.Common.{◌+◌, ◌*◌, ◌≡◌, refl, arith, true}
use zhone_engineering_academ.CondVar.{
  Threads, Producer, Consumer, Step, Reach, start, later, batch, added_in, taken_in,
}
use zhone_engineering_academ.CondVar.Order.{IsSafe, Reach-IsKept}

abbrev waiting : Threads
waiting = record {
  shared = record { mutex = true; counter = 1 };
  producer = Producer.added;
  consumer = Consumer.asleep;
}

abbrev waiting-Reach : Reach waiting
waiting-Reach =
    let a = later start (Step.consumer_locks refl refl) in
    let b = later a (Step.waits refl (omega arith)) in
    later (later b (Step.producer_locks refl refl)) (Step.adds refl)

Reach-IsKept_example :
    IsSafe waiting × (1 + batch * taken_in waiting-Reach ≡ added_in waiting-Reach)
Reach-IsKept_example = Reach-IsKept waiting-Reach
