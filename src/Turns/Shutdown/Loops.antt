-- ===== src/Turns/Shutdown/Loops.antt =====
-- The loops of section-05/lab/lab_2.c inside the whole program, and those of Turns.
use zhone_engineering_academ.Common.{
  ◌≡◌, refl, sym, pos, arith, true, false, ap, ◌∙◌, ◌⊎◌, inl, inr,
}
use zhone_engineering_academ.Turns.{SharedData, Pc, waiting, System, Produce, Consume}
use zhone_engineering_academ.Turns
use zhone_engineering_academ.Turns.Shutdown.{
  Place, starting, opened, failing, returned, raw, empty_set, full_set, in_loop, gone, Process,
  Memory, pc_of, ProducerStep, sets_empty, sets_full, sets_value, ConsumerStep, Program, Step,
  Reach, start, later, produces, consumes, interrupts_producer, interrupts_consumer,
}
use zhone_engineering_academ.Turns.Shutdown.Settled.{
  Settled, has_full, ready-sem_at, handler-some, Reach-Settled,
}

-- The two loops, where a process that is not in its loop counts as one before its `sem_wait`.
abbrev pub view : Program → System
view s = record {
  shared = s.memory.shared;
  producer = pc_of s.producer.place;
  consumer = pc_of s.consumer.place;
}

-- The memory before the loop of the producer, by the producer's place; in the loop, what the two
-- loops alone can reach.
abbrev Stage : Place → SharedData → Pc → Type 0
Stage (in_loop pc) m c = Turns.Reach (record { shared = m; producer = pc; consumer = c })
Stage (gone pc) m c = Turns.Reach (record { shared = m; producer = pc; consumer = c })
Stage full_set m c = (m ≡ record { sem_full = 0; sem_empty = 1; value = pos 0 }) × (c ≡ waiting)
Stage empty_set m c = (m ≡ record { sem_full = 0; sem_empty = 1; value = pos 0 }) × (c ≡ waiting)
Stage _ m c = (m ≡ record { sem_full = 0; sem_empty = 0; value = pos 0 }) × (c ≡ waiting)

ProducerStep-Stage :
    {w w' : Memory} {p p' : Process} (c : Pc)
    → ProducerStep w p p' w'
    → Stage p.place w.shared c
    → Stage p'.place w'.shared c
ProducerStep-Stage c ProducerStep.opens h = h
ProducerStep-Stage c ProducerStep.open_fails h = h
ProducerStep-Stage c ProducerStep.maps h = h
ProducerStep-Stage c ProducerStep.map_fails h = h
ProducerStep-Stage c ProducerStep.returns h = h
ProducerStep-Stage c sets_empty h = (rw h.0 refl, h.1)
ProducerStep-Stage c sets_full h = (rw h.0 refl, h.1)
ProducerStep-Stage c sets_value h = rw (h.0, h.1) Turns.start
ProducerStep-Stage c (ProducerStep.loops move may) h = Turns.later h (Turns.produces move)

-- Before the producer's loop no move of the consumer's is open.
Consume-full :
    {m m' : SharedData} {c c' : Pc} → Consume m c m' c' → m.sem_full ≡ 0 → c ≡ waiting → ⊥
Consume-full (Consume.wait_full up) e at_wait = omega arith
Consume-full (Consume.load more) e at_wait = cc
Consume-full Consume.store e at_wait = cc
Consume-full (Consume.post_empty done) e at_wait = cc

Consume-Stage :
    {m m' : SharedData} {c c' : Pc} (pl : Place) → Consume m c m' c' → Stage pl m c → Stage pl m' c'
Consume-Stage (in_loop pc) move h = Turns.later h (Turns.consumes move)
Consume-Stage (gone pc) move h = Turns.later h (Turns.consumes move)
Consume-Stage full_set move h = absurd (Consume-full move (ap (λ m. m.sem_full) h.0) h.1)
Consume-Stage empty_set move h = absurd (Consume-full move (ap (λ m. m.sem_full) h.0) h.1)
Consume-Stage starting move h = absurd (Consume-full move (ap (λ m. m.sem_full) h.0) h.1)
Consume-Stage opened move h = absurd (Consume-full move (ap (λ m. m.sem_full) h.0) h.1)
Consume-Stage failing move h = absurd (Consume-full move (ap (λ m. m.sem_full) h.0) h.1)
Consume-Stage returned move h = absurd (Consume-full move (ap (λ m. m.sem_full) h.0) h.1)
Consume-Stage raw move h = absurd (Consume-full move (ap (λ m. m.sem_full) h.0) h.1)

ConsumerStep-Stage :
    {w w' : Memory} {c c' : Process} (pl : Place)
    → ConsumerStep w c c' w'
    → Stage pl w.shared (pc_of c.place)
    → Stage pl w'.shared (pc_of c'.place)
ConsumerStep-Stage pl (ConsumerStep.opens named) h = h
ConsumerStep-Stage pl ConsumerStep.open_fails h = h
ConsumerStep-Stage pl ConsumerStep.maps h = h
ConsumerStep-Stage pl ConsumerStep.map_fails h = h
ConsumerStep-Stage pl ConsumerStep.returns h = h
ConsumerStep-Stage pl (ConsumerStep.loops move may) h = Consume-Stage pl move h

Stage-gone :
    (pl : Place) {m : SharedData} {c : Pc}
    → has_full pl ≡ true
    → Stage pl m c
    → Stage (gone (pc_of pl)) m c
Stage-gone full_set e h = rw (h.0, h.1) Turns.start
Stage-gone (in_loop pc) e h = h
Stage-gone (gone pc) e h = h
Stage-gone starting e h = cc
Stage-gone opened e h = cc
Stage-gone failing e h = cc
Stage-gone returned e h = cc
Stage-gone raw e h = cc
Stage-gone empty_set e h = cc

abbrev IsStaged : Program → Type 0
IsStaged s = Stage s.producer.place s.memory.shared (pc_of s.consumer.place)

Step-IsStaged : {s t : Program} → Step s t → Settled s → IsStaged s → IsStaged t
Step-IsStaged {s} (produces move) h stage = ProducerStep-Stage (pc_of s.consumer.place) move stage
Step-IsStaged {s} (consumes move) h stage = ConsumerStep-Stage s.producer.place move stage
Step-IsStaged {s} (interrupts_producer on ends) h stage =
    let (_, at_full, _, gone_p, gone_w) = handler-some s.producer s.memory ends in
    let (is_full, _) = ready-sem_at (has_full s.producer.place) _ (sym h.1 ∙ at_full) in
    rw (gone_p, gone_w) (Stage-gone s.producer.place is_full stage)
Step-IsStaged {s} (interrupts_consumer on ends) h stage =
    let (_, _, _, gone_c, gone_w) = handler-some s.consumer s.memory ends in
    rw (gone_c, gone_w) stage

Reach-IsStaged : {s : Program} → Reach s → IsStaged s
Reach-IsStaged start = (refl, refl)
Reach-IsStaged (later r st) = Step-IsStaged st (Reach-Settled r) (Reach-IsStaged r)

Stage-loops :
    (pl : Place) {m : SharedData} (c : Pc)
    → Stage pl m c
    → ((has_full pl ≡ false) × (c ≡ waiting))
      ⊎ Turns.Reach (record { shared = m; producer = pc_of pl; consumer = c })
Stage-loops full_set c h = inr (rw (h.0, h.1) Turns.start)
Stage-loops (in_loop pc) c h = inr h
Stage-loops (gone pc) c h = inr h
Stage-loops starting c h = inl (refl, h.1)
Stage-loops opened c h = inl (refl, h.1)
Stage-loops failing c h = inl (refl, h.1)
Stage-loops returned c h = inl (refl, h.1)
Stage-loops raw c h = inl (refl, h.1)
Stage-loops empty_set c h = inl (refl, h.1)

-- The whole program refines the two loops: in every reachable state, until the producer has called
-- `sem_init` on both semaphores the consumer is not past its first `sem_wait`, and from then on,
-- interrupted or not, memory and processes are as the two loops alone can reach them.
pub Reach-loops :
    {s : Program}
    → Reach s
    → ((has_full s.producer.place ≡ false) × (pc_of s.consumer.place ≡ waiting))
      ⊎ Turns.Reach (view s)
Reach-loops {s} r = Stage-loops s.producer.place (pc_of s.consumer.place) (Reach-IsStaged r)
