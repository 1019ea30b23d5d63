-- ===== src/LockOrder/Runs.antt =====
-- A run of section-04/lab/lab_5.c: `thread_a` has taken both mutexes when `thread_b` wants the first,
-- and `thread_c` finds that the counter has not moved while it slept.
use zhone_engineering_academ.Common.{◌⊎◌, refl, true}
use zhone_engineering_academ.LockOrder.{
  Threads, Move, Step, thread_a, Reach, start, later, looping, has_both, exited, sleeping,
}
use zhone_engineering_academ.LockOrder.Progress.{Moves, IsOwned, Reach-Advances}

abbrev blocked : Threads
blocked = record {
  shared = record { mutex1 = true; mutex2 = true; counter = 0 };
  a = has_both;
  b = looping;
  c = sleeping 0;
}

blocked-Reach : Reach blocked
blocked-Reach =
    let r = later start (thread_a (λ e. cc) (Move.lock1 refl)) in
    later (later r (thread_a (λ e. cc) (Move.lock2 refl))) (Step.read_counter refl)

-- No thread is in a deadlock, and the program ends all the same.
detected : Reach (record blocked { c = exited })
detected = later blocked-Reach (Step.detect refl refl)

Reach-Advances_example :
    (Moves blocked.shared blocked.a ⊎ Moves blocked.shared blocked.b)
    × IsOwned blocked.shared blocked.a blocked.b
Reach-Advances_example = Reach-Advances blocked-Reach
