-- ===== src/Turns/Shutdown/Settled.antt =====
-- What holds of the names, addresses and semaphores of section-05/lab/lab_2.c at every time.
use zhone_engineering_academ.Common.{
  Bool, true, false, ◌&&◌, ◌||◌, not, Option, some, none, ◌≡◌, refl, ◌∙◌, sym, ap, ap₂,
}
use mathlib.Core.Option.{some-injective}
use zhone_engineering_academ.Turns.Shutdown.{
  Sem, unset, ready, destroyed, Addr, null, map_failed, mapped, Place, starting, opened, failing,
  returned, raw, empty_set, full_set, in_loop, gone, Process, Memory, pc_of, sem_destroy, ◌>>=◌,
  handler, ProducerStep, ConsumerStep, Program, Step, Reach, start, later, produces, consumes,
  interrupts_producer, interrupts_consumer,
}

abbrev pub is_gone : Place → Bool
is_gone (gone pc) = true
is_gone _ = false

-- Whether `sem_init` has been called on `sem_empty`, and on `sem_full`.
abbrev pub has_empty : Place → Bool
has_empty empty_set = true
has_empty full_set = true
has_empty (in_loop pc) = true
has_empty (gone pc) = true
has_empty _ = false

abbrev pub has_full : Place → Bool
has_full full_set = true
has_full (in_loop pc) = true
has_full (gone pc) = true
has_full _ = false

abbrev pub sem_at : (is_set is_down : Bool) → Sem
sem_at false is_down = unset
sem_at true false = ready
sem_at true true = destroyed

abbrev pub addr_at : Place → Addr
addr_at starting = null
addr_at opened = null
addr_at failing = map_failed
addr_at returned = map_failed
addr_at _ = mapped

-- One of the handlers has run.
abbrev pub is_down : Program → Bool
is_down s = is_gone s.producer.place || is_gone s.consumer.place

-- The consumer is never between the producer's assignments.
abbrev pub is_reader : Place → Bool
is_reader raw = false
is_reader empty_set = false
is_reader full_set = false
is_reader _ = true

-- The semaphores, `addr` in each process, the name; and what the processes' order leaves out: a
-- handler of the consumer before the producer's `sem_init`, a `fd` before `shm_open`.
abbrev pub Settled : Program → Type 0
Settled s =
    (s.memory.empty ≡ sem_at (has_empty s.producer.place) (is_down s))
    × (s.memory.full ≡ sem_at (has_full s.producer.place) (is_down s))
    × (s.producer.addr ≡ addr_at s.producer.place)
    × (s.consumer.addr ≡ addr_at s.consumer.place)
    × (s.memory.linked ≡ (s.producer.fd && not (is_down s)))
    × (has_full s.producer.place ≡ false → is_gone s.consumer.place ≡ false)
    × (s.producer.place ≡ starting → s.producer.fd ≡ false)
    × (is_reader s.consumer.place ≡ true)

and_false : (b : Bool) → false ≡ (b && false)
and_false false = refl
and_false true = refl

or_true : (b : Bool) → b || true ≡ true
or_true false = refl
or_true true = refl

pub ready-sem_at :
    (is_set is_down : Bool) → sem_at is_set is_down ≡ ready → (is_set ≡ true) × (is_down ≡ false)
ready-sem_at false down e = cc
ready-sem_at true false e = (refl, refl)
ready-sem_at true true e = cc

-- `sem_destroy` is defined on a mapped, ready semaphore only.
pub sem_destroy-some :
    (a : Addr) (x : Sem) {y : Sem}
    → sem_destroy a x ≡ some y
    → (a ≡ mapped) × (x ≡ ready) × (y ≡ destroyed)
sem_destroy-some null x e = cc
sem_destroy-some map_failed x e = cc
sem_destroy-some mapped unset e = cc
sem_destroy-some mapped ready e = (refl, refl, cc)
sem_destroy-some mapped destroyed e = cc

bind-some :
    {A B : Type 0} {f : A → Option B} {b : B} (m : Option A)
    → m >>= f ≡ some b
    → (a : A) × (m ≡ some a) × (f a ≡ some b)
bind-some none e = cc
bind-some (some a) e = (a, refl, e)

-- Where the handler is defined, and what it leaves.
pub handler-some :
    (p : Process) (w : Memory) {p' : Process} {w' : Memory}
    → handler p w ≡ some (p', w')
    → (p.addr ≡ mapped)
      × (w.full ≡ ready)
      × (w.empty ≡ ready)
      × (p' ≡ record p { place = gone (pc_of p.place) })
      × (w' ≡ record w { linked = false; full = destroyed; empty = destroyed })
handler-some p w e =
    let (x, at_full, rest) = bind-some (sem_destroy p.addr w.full) e in
    let (y, at_empty, done) = bind-some (sem_destroy p.addr w.empty) rest in
    let (m, f, gone_f) = sem_destroy-some p.addr w.full at_full in
    let (_, at_e, gone_e) = sem_destroy-some p.addr w.empty at_empty in
    let ends = some-injective _ _ done in
    let leaves = ap₂ (λ a b. record w { linked = false; full = a; empty = b }) gone_f gone_e in
    (m, f, at_e, sym (ap (λ r. r.0) ends), sym (ap (λ r. r.1) ends) ∙ leaves)

ProducerStep-Settled :
    {w w' : Memory} {p p' : Process} (c : Process)
    → ProducerStep w p p' w'
    → Settled (record { memory = w; producer = p; consumer = c })
    → Settled (record { memory = w'; producer = p'; consumer = c })
ProducerStep-Settled c ProducerStep.opens h =
    let (e, f, pa, ca, l, early, closed, rd) = h in
    (e, f, pa, ca, rw (early refl) refl, early, λ x. cc, rd)
ProducerStep-Settled c ProducerStep.open_fails h =
    let (e, f, pa, ca, l, early, closed, rd) = h in
    (e, f, pa, ca, rw (l, closed refl) refl, early, λ x. cc, rd)
ProducerStep-Settled c ProducerStep.maps h =
    let (e, f, pa, ca, l, early, closed, rd) = h in (e, f, refl, ca, l, early, λ x. cc, rd)
ProducerStep-Settled c ProducerStep.map_fails h =
    let (e, f, pa, ca, l, early, closed, rd) = h in (e, f, refl, ca, l, early, λ x. cc, rd)
ProducerStep-Settled c ProducerStep.returns h =
    let (e, f, pa, ca, l, early, closed, rd) = h in (e, f, pa, ca, l, early, λ x. cc, rd)
ProducerStep-Settled c ProducerStep.sets_empty h =
    let (e, f, pa, ca, l, early, closed, rd) = h in
    (rw (early refl) refl, f, pa, ca, l, early, λ x. cc, rd)
ProducerStep-Settled c ProducerStep.sets_full h =
    let (e, f, pa, ca, l, early, closed, rd) = h in
    (e, rw (early refl) refl, pa, ca, l, λ x. cc, λ x. cc, rd)
ProducerStep-Settled c ProducerStep.sets_value h =
    let (e, f, pa, ca, l, early, closed, rd) = h in (e, f, pa, ca, l, early, λ x. cc, rd)
ProducerStep-Settled c (ProducerStep.loops move may) h =
    let (e, f, pa, ca, l, early, closed, rd) = h in (e, f, pa, ca, l, early, λ x. cc, rd)

ConsumerStep-Settled :
    {w w' : Memory} {c c' : Process} (p : Process)
    → ConsumerStep w c c' w'
    → Settled (record { memory = w; producer = p; consumer = c })
    → Settled (record { memory = w'; producer = p; consumer = c' })
ConsumerStep-Settled p (ConsumerStep.opens named) h =
    let (e, f, pa, ca, l, early, closed, rd) = h in (e, f, pa, ca, l, early, closed, rd)
ConsumerStep-Settled p ConsumerStep.open_fails h =
    let (e, f, pa, ca, l, early, closed, rd) = h in (e, f, pa, ca, l, early, closed, rd)
ConsumerStep-Settled p ConsumerStep.maps h =
    let (e, f, pa, ca, l, early, closed, rd) = h in (e, f, pa, refl, l, early, closed, rd)
ConsumerStep-Settled p ConsumerStep.map_fails h =
    let (e, f, pa, ca, l, early, closed, rd) = h in (e, f, pa, refl, l, early, closed, rd)
ConsumerStep-Settled p ConsumerStep.returns h =
    let (e, f, pa, ca, l, early, closed, rd) = h in (e, f, pa, ca, l, early, closed, rd)
ConsumerStep-Settled p (ConsumerStep.loops move may) h =
    let (e, f, pa, ca, l, early, closed, rd) = h in (e, f, pa, ca, l, early, closed, rd)

-- A handler that is defined comes to a process in its loop, or before `value = 0`, when no other
-- has come.
producer_handler-Settled :
    (w : Memory) (p : Process) {w' : Memory} {p' : Process} (c : Process)
    → handler p w ≡ some (p', w')
    → Settled (record { memory = w; producer = p; consumer = c })
    → Settled (record { memory = w'; producer = p'; consumer = c })
producer_handler-Settled w p c ends h =
    let (e, f, pa, ca, l, early, closed, rd) = h in
    let (m, at_full, at_empty, gone_p, gone_w) = handler-some p w ends in
    let (is_full, up) = ready-sem_at (has_full p.place) _ (sym f ∙ at_full) in
    rw (gone_p, gone_w) (refl, refl, m, ca, and_false p.fd, λ x. cc, λ x. cc, rd)

consumer_handler-Settled :
    (w : Memory) (c : Process) {w' : Memory} {c' : Process} (p : Process)
    → handler c w ≡ some (c', w')
    → Settled (record { memory = w; producer = p; consumer = c })
    → Settled (record { memory = w'; producer = p; consumer = c' })
consumer_handler-Settled w c p ends h =
    let (e, f, pa, ca, l, early, closed, rd) = h in
    let (m, at_full, at_empty, gone_c, gone_w) = handler-some c w ends in
    let (is_full, up) = ready-sem_at (has_full p.place) _ (sym f ∙ at_full) in
    let (is_empty, _) = ready-sem_at (has_empty p.place) _ (sym e ∙ at_empty) in
    rw (gone_c, gone_w, or_true (is_gone p.place), is_full, is_empty)
      (refl, refl, pa, m, and_false p.fd, λ x. cc, closed, refl)

Step-Settled : {s t : Program} → Step s t → Settled s → Settled t
Step-Settled {s} (produces move) h = ProducerStep-Settled s.consumer move h
Step-Settled {s} (consumes move) h = ConsumerStep-Settled s.producer move h
Step-Settled {s} (interrupts_producer on ends) h =
    producer_handler-Settled s.memory s.producer s.consumer ends h
Step-Settled {s} (interrupts_consumer on ends) h =
    consumer_handler-Settled s.memory s.consumer s.producer ends h

pub Reach-Settled : {s : Program} → Reach s → Settled s
Reach-Settled start = (refl, refl, refl, refl, refl, λ x. refl, λ x. refl, refl)
Reach-Settled (later r st) = Step-Settled st (Reach-Settled r)
