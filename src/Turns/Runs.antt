-- ===== src/Turns/Runs.antt =====
-- Runs of the two processes of section-05/lab/lab_2.c.
use zhone_engineering_academ.Common.{refl, arith, pos}
use zhone_engineering_academ.Turns.{waiting, loaded, System, Produce, produces, Reach, start, later}
use zhone_engineering_academ.Turns.Order.{IsInTurn, Reach-IsInTurn}

-- The producer has the turn and has read the value in its first round.
abbrev begun : System
begun = record {
  shared = record { sem_full = 0; sem_empty = 0; value = pos 0 };
  producer = loaded 0 (pos 0);
  consumer = waiting;
}

begun-Reach : Reach begun
begun-Reach =
    later (later start (produces (Produce.wait_empty refl))) (produces (Produce.load (omega arith)))

Reach-IsInTurn_example : IsInTurn begun
Reach-IsInTurn_example = Reach-IsInTurn begun-Reach
