-- ===== src/Counter/Runs.antt =====
-- Runs of the two threads of section-04/lab/lab_2.c, with a loop of one round.
use zhone_engineering_academ.Common.{◌≤◌, ◌+◌, refl, arith, ◌*◌, false, true}
use zhone_engineering_academ.Counter.{
  Threads, Increment, first, second, Reach, start, later, looping, returned, locked,
}
use zhone_engineering_academ.Counter.Ends.{EndsInTotal, Reach-total}

-- The first thread holds the mutex and the second one waits for it.
abbrev begun : Threads
begun = record { shared = record { mutex = true; counter = 0 }; t1 = locked 0; t2 = looping 0 }

begun-Reach : Reach 1 1 begun
begun-Reach = later start (first (Increment.lock (omega arith) refl))

abbrev ended : Threads
ended = record { shared = record { mutex = false; counter = 2 }; t1 = returned; t2 = returned }

ended-Reach : Reach 1 10 ended
ended-Reach =
    let a = later begun-Reach (first Increment.load) in
    let b = later (later a (first Increment.store)) (first Increment.unlock) in
    let c = later (later b (second (Increment.lock (omega arith) refl))) (second Increment.load) in
    let d = later (later c (second Increment.store)) (second Increment.unlock) in
    later (later d (first (Increment.finish (omega arith))))
      (second (Increment.finish (omega arith)))

Reach-total_example : (10 ≤ 8 * 1 + 2) × EndsInTotal 1 ended
Reach-total_example = Reach-total 1 ended-Reach
