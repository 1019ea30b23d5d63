-- ===== src/Turns/Shutdown/Runs.antt =====
-- A run of section-05/lab/lab_2.c: the consumer gets a SIGINT in the producer's first turn.
use zhone_engineering_academ.Common.{true, false, ◌≡◌, refl, pos, ◌⊎◌}
use zhone_engineering_academ.Turns
use zhone_engineering_academ.Turns.{waiting, looping}
use zhone_engineering_academ.Turns.Shutdown.{
  returned, destroyed, ready, mapped, in_loop, gone, Process, handler, ProducerStep, ConsumerStep,
  Program, Reach, start, later, produces, consumes, interrupts_consumer, sets_empty, sets_full,
  sets_value,
}
use zhone_engineering_academ.Turns.Shutdown.Settled.{has_full}
use zhone_engineering_academ.Turns.Shutdown.Handler.{shut_down, Reach-handler}
use zhone_engineering_academ.Turns.Shutdown.Loops.{view, Reach-loops}
use zhone_engineering_academ.Turns.Shutdown.Progress.{GoesOn, Reach-GoesOn}

-- In its loop, with the memory.
abbrev running : Turns.Pc → Process
running pc = record { fd = true; addr = mapped; place = in_loop pc }

abbrev set_up : Program
set_up = record {
  memory = record { linked = true; full = ready; empty = ready; shared = Turns.init.shared };
  producer = running waiting;
  consumer = running waiting;
}

set_up-Reach : Reach set_up
set_up-Reach =
    let a = later start (produces ProducerStep.opens) in
    let b = later (later a (consumes (ConsumerStep.opens refl))) (produces ProducerStep.maps) in
    let c = later (later b (produces sets_empty)) (produces sets_full) in
    later (later c (produces sets_value)) (consumes ConsumerStep.maps)

abbrev halted : Program
halted = record {
  memory = record {
    linked = false;
    full = destroyed;
    empty = destroyed;
    shared = record { sem_full = 0; sem_empty = 0; value = pos 0 };
  };
  producer = running (looping 0);
  consumer = record { fd = true; addr = mapped; place = gone waiting };
}

halted-Reach : Reach halted
halted-Reach =
    let turn = ProducerStep.loops (Turns.Produce.wait_empty refl) (λ e. refl, λ e. refl) in
    later (later set_up-Reach (produces turn)) (interrupts_consumer refl refl)

Reach-loops_example :
    ((has_full (in_loop (looping 0)) ≡ false) × (waiting ≡ waiting)) ⊎ Turns.Reach (view halted)
Reach-loops_example = Reach-loops halted-Reach

Reach-handler_example :
    (handler set_up.producer set_up.memory ≡ shut_down true set_up.producer set_up.memory)
    × (handler set_up.consumer set_up.memory ≡ shut_down true set_up.consumer set_up.memory)
    × (true ≡ true)
    × (false ≡ false)
Reach-handler_example = Reach-handler set_up-Reach

Reach-GoesOn_example : GoesOn set_up ⊎ ((in_loop waiting ≡ returned) ⊎ (in_loop waiting ≡ returned))
Reach-GoesOn_example = Reach-GoesOn set_up-Reach refl
