-- ===== src/Turns/Shutdown/Handler.antt =====
-- What a SIGINT does at any time of section-05/lab/lab_2.c.
use zhone_engineering_academ.Turns.Shutdown.{
  Sem, Addr, mapped, destroyed, Place, starting, opened, failing, returned, raw, empty_set,
  full_set, in_loop, gone, Process, Memory, pc_of, sem_destroy, ◌>>=◌, handler, ProducerStep,
  sets_empty, sets_full, sets_value, ConsumerStep, Program, Step, Reach, start, later, produces,
  consumes, interrupts_producer, interrupts_consumer,
}
use zhone_engineering_academ.Common.{
  Bool, true, false, not, ◌&&◌, ◌||◌, Option, none, some, ◌≡◌, refl, sym, ◌∙◌,
}
use zhone_engineering_academ.Turns.Shutdown.Settled.{
  Settled, is_down, addr_at, is_gone, has_full, sem_at, has_empty, handler-some, Reach-Settled,
  ready-sem_at,
}

-- Whether `addr` points to the memory.
abbrev pub is_mapped : Place → Bool
is_mapped starting = false
is_mapped opened = false
is_mapped failing = false
is_mapped returned = false
is_mapped _ = true

-- What the handler should do: end the process and leave neither name nor semaphores.
abbrev pub shut_down : (allowed : Bool) → Process → Memory → Option (Process × Memory)
shut_down false p w = none
shut_down true p w = some (
  record p { place = gone (pc_of p.place) },
  record w { linked = false; full = destroyed; empty = destroyed },
)

abbrev destroy_both : Addr → Sem → Sem → Process → Memory → Option (Process × Memory)
destroy_both a x y p w = sem_destroy a x >>= λ full. sem_destroy a y >>= λ empty. some (
  record p { place = gone (pc_of p.place) },
  record w { linked = false; full = full; empty = empty },
)

handler-destroy_both :
    (p : Process) (w : Memory) {a : Addr} {x y : Sem}
    → p.addr ≡ a
    → w.full ≡ x
    → w.empty ≡ y
    → handler p w ≡ destroy_both a x y p w
handler-destroy_both p w at_a at_x at_y = rw (at_a, at_x, at_y) refl

mapped_outcome :
    (pl : Place) (down : Bool) (p : Process) (w : Memory)
    → destroy_both mapped (sem_at (has_full pl) down) (sem_at (has_empty pl) down) p w
      ≡ shut_down (has_full pl && not down) p w
mapped_outcome starting down p w = refl
mapped_outcome opened down p w = refl
mapped_outcome failing down p w = refl
mapped_outcome returned down p w = refl
mapped_outcome raw down p w = refl
mapped_outcome empty_set down p w = refl
mapped_outcome full_set false p w = refl
mapped_outcome full_set true p w = refl
mapped_outcome (in_loop pc) false p w = refl
mapped_outcome (in_loop pc) true p w = refl
mapped_outcome (gone pc) false p w = refl
mapped_outcome (gone pc) true p w = refl

outcome :
    (self pl : Place) (down : Bool) (p : Process) (w : Memory)
    → destroy_both (addr_at self) (sem_at (has_full pl) down) (sem_at (has_empty pl) down) p w
      ≡ shut_down (is_mapped self && (has_full pl && not down)) p w
outcome starting pl down p w = refl
outcome opened pl down p w = refl
outcome failing pl down p w = refl
outcome returned pl down p w = refl
outcome raw pl down p w = mapped_outcome pl down p w
outcome empty_set pl down p w = mapped_outcome pl down p w
outcome full_set pl down p w = mapped_outcome pl down p w
outcome (in_loop pc) pl down p w = mapped_outcome pl down p w
outcome (gone pc) pl down p w = mapped_outcome pl down p w

ProducerStep-is_gone :
    {w w' : Memory} {p p' : Process} → ProducerStep w p p' w' → is_gone p'.place ≡ false
ProducerStep-is_gone ProducerStep.opens = refl
ProducerStep-is_gone ProducerStep.open_fails = refl
ProducerStep-is_gone ProducerStep.maps = refl
ProducerStep-is_gone ProducerStep.map_fails = refl
ProducerStep-is_gone ProducerStep.returns = refl
ProducerStep-is_gone sets_empty = refl
ProducerStep-is_gone sets_full = refl
ProducerStep-is_gone sets_value = refl
ProducerStep-is_gone (ProducerStep.loops move may) = refl

ConsumerStep-is_gone :
    {w w' : Memory} {c c' : Process} → ConsumerStep w c c' w' → is_gone c'.place ≡ false
ConsumerStep-is_gone (ConsumerStep.opens named) = refl
ConsumerStep-is_gone ConsumerStep.open_fails = refl
ConsumerStep-is_gone ConsumerStep.maps = refl
ConsumerStep-is_gone ConsumerStep.map_fails = refl
ConsumerStep-is_gone ConsumerStep.returns = refl
ConsumerStep-is_gone (ConsumerStep.loops move may) = refl

and_false_r : (a b : Bool) → b ≡ false → a && b ≡ false
and_false_r false b e = refl
and_false_r true b e = e

or_false : (a b : Bool) → a || b ≡ false → (a ≡ false) × (b ≡ false)
or_false false b e = (refl, e)
or_false true b e = cc

-- A handler that is defined comes when neither has run.
pub handler-up :
    (s : Program) (p : Process) {r : Process × Memory}
    → Settled s
    → handler p s.memory ≡ some r
    → (is_gone s.producer.place ≡ false) × (is_gone s.consumer.place ≡ false)
handler-up s p h ends =
    let at_full = (handler-some p s.memory ends).1 in
    let (_, up) = ready-sem_at (has_full s.producer.place) _ (sym h.1 ∙ at_full) in or_false _ _ up

Step-one :
    {s t : Program}
    → Step s t
    → Settled s
    → is_gone s.producer.place && is_gone s.consumer.place ≡ false
    → is_gone t.producer.place && is_gone t.consumer.place ≡ false
Step-one (produces move) h one = rw (ProducerStep-is_gone move) refl
Step-one (consumes move) h one = and_false_r _ _ (ConsumerStep-is_gone move)
Step-one {s} (interrupts_producer on ends) h one =
    and_false_r _ _ (handler-up s s.producer h ends).1
Step-one {s} (interrupts_consumer on ends) h one = rw (handler-up s s.consumer h ends).0 refl

pub Reach-one :
    {s : Program} → Reach s → is_gone s.producer.place && is_gone s.consumer.place ≡ false
Reach-one start = refl
Reach-one (later r st) = Step-one st (Reach-Settled r) (Reach-one r)

-- In every reachable state the handler of either process is defined exactly if that process has
-- mapped the memory, the producer has called `sem_init` on both semaphores, and no handler has run;
-- it then ends the process, destroys both semaphores and takes the name away. The name is there
-- from the producer's `shm_open`, if that succeeds, until a handler runs, and at most one of the
-- two handlers runs.
pub Reach-handler :
    {s : Program}
    → Reach s
    → (handler s.producer s.memory
        ≡ shut_down
            (is_mapped s.producer.place && (has_full s.producer.place && not (is_down s)))
            s.producer
            s.memory)
      × (handler s.consumer s.memory
          ≡ shut_down
              (is_mapped s.consumer.place && (has_full s.producer.place && not (is_down s)))
              s.consumer
              s.memory)
      × (s.memory.linked ≡ (s.producer.fd && not (is_down s)))
      × (is_gone s.producer.place && is_gone s.consumer.place ≡ false)
Reach-handler {s} r =
    let (e, f, pa, ca, l, _, _, _) = Reach-Settled r in
    let pl = s.producer.place in
    (
      handler-destroy_both s.producer s.memory pa f e ∙ outcome pl pl (is_down s) _ _,
      handler-destroy_both s.consumer s.memory ca f e ∙ outcome s.consumer.place pl (is_down s) _ _,
      l,
      Reach-one r,
    )
