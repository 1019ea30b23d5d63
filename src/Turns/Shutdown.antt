-- ===== src/Turns/Shutdown.antt =====
-- section-05/lab/lab_2.c from `main` to its end: the loops of the two processes between the calls that
-- set the shared memory up and the signal handler that takes it down. A SIGINT may come at any point.
-- What POSIX leaves undefined is `none` in a function and no step in the relation.
mod Settled
pub mod Handler
pub mod Loops
pub mod Progress
mod Runs
use zhone_engineering_academ.Common.{Bool, true, false, Option, some, none, ◌≡◌, pos}
use zhone_engineering_academ.Turns.{SharedData, Pc, waiting, Produce, Consume}

-- What `sem_init` and `sem_destroy` made of a semaphore.
pub data Sem : Type 0 where
  unset ready destroyed : Sem

-- The global `addr`.
pub data Addr : Type 0 where
  null map_failed mapped : Addr

-- Where a process stands: before `shm_open`, before `mmap`, before the `return` behind a failed
-- `mmap`, in `main` behind it; for the producer before each of its three assignments to the memory;
-- in the loop; and ended by the handler, which came at a place of the loop.
pub data Place : Type 0 where
  starting opened failing returned raw empty_set full_set : Place
  in_loop gone : (pc : Pc) → Place

-- `fd`, by whether it is a descriptor of the memory, and `addr`, which are each process's own.
pub record Process : Type 0 where
  pub fd : Bool
  pub addr : Addr
  pub place : Place

-- Whether SHM_NAME names the memory, the state of its semaphores, and its bytes.
pub record Memory : Type 0 where
  pub linked : Bool
  pub full : Sem
  pub empty : Sem
  pub shared : SharedData

abbrev pub pc_of : Place → Pc
pc_of (in_loop pc) = pc
pc_of (gone pc) = pc
pc_of _ = waiting

-- `sem_destroy(&addr->...)`
abbrev pub sem_destroy : Addr → Sem → Option Sem
sem_destroy mapped ready = some destroyed
sem_destroy _ _ = none

infixl 5 ◌>>=◌
abbrev pub ◌>>=◌ : {A B : Type 0} → Option A → (A → Option B) → Option B
◌>>=◌ (some a) f = f a
◌>>=◌ none f = none

-- `handler`: `munmap` has no effect that outlives the `_exit` behind it, and the result of
-- `shm_unlink` is not looked at.
abbrev pub handler : Process → Memory → Option (Process × Memory)
handler p w = do
  full ← sem_destroy p.addr w.full
  empty ← sem_destroy p.addr w.empty
  some (
    record p { place = gone (pc_of p.place) },
    record w { linked = false; full = full; empty = empty },
  )

-- The semaphore calls of a move in a loop, by the semaphore it waits for and the one it posts.
abbrev pub MayCall : (waits posts : Sem) (pc pc' : Pc) → Type 0
MayCall waits posts pc pc' = (pc ≡ waiting → waits ≡ ready) × (pc' ≡ waiting → posts ≡ ready)

-- A step of `producer`. What `shm_open` and `mmap` return is open; new memory holds zeros.
pub data ProducerStep (w : Memory) : Process → Process → Memory → Type 0 where
  opens :
      {f : Bool} {a : Addr}
      → ProducerStep w
          (record { fd = f; addr = a; place = starting })
          (record { fd = true; addr = a; place = opened })
          (record w { linked = true })
  open_fails :
      {f : Bool} {a : Addr}
      → ProducerStep w
          (record { fd = f; addr = a; place = starting })
          (record { fd = false; addr = a; place = opened })
          w
  maps :
      {a : Addr}
      → ProducerStep w
          (record { fd = true; addr = a; place = opened })
          (record { fd = true; addr = mapped; place = raw })
          w
  map_fails :
      {f : Bool} {a : Addr}
      → ProducerStep w
          (record { fd = f; addr = a; place = opened })
          (record { fd = f; addr = map_failed; place = failing })
          w
  returns :
      {f : Bool} {a : Addr}
      → ProducerStep w
          (record { fd = f; addr = a; place = failing })
          (record { fd = f; addr = a; place = returned })
          w
  sets_empty :
      {f : Bool} {a : Addr}
      → ProducerStep w
          (record { fd = f; addr = a; place = raw })
          (record { fd = f; addr = a; place = empty_set })
          (record w { empty = ready; shared = record w.shared { sem_empty = 1 } })
  sets_full :
      {f : Bool} {a : Addr}
      → ProducerStep w
          (record { fd = f; addr = a; place = empty_set })
          (record { fd = f; addr = a; place = full_set })
          (record w { full = ready; shared = record w.shared { sem_full = 0 } })
  sets_value :
      {f : Bool} {a : Addr}
      → ProducerStep w
          (record { fd = f; addr = a; place = full_set })
          (record { fd = f; addr = a; place = in_loop waiting })
          (record w { shared = record w.shared { value = pos 0 } })
  loops :
      {f : Bool} {a : Addr} {pc pc' : Pc} {m : SharedData}
      → Produce w.shared pc m pc'
      → MayCall w.empty w.full pc pc'
      → ProducerStep w
          (record { fd = f; addr = a; place = in_loop pc })
          (record { fd = f; addr = a; place = in_loop pc' })
          (record w { shared = m })

-- A step of `consumer`, which opens the memory but does not create it.
pub data ConsumerStep (w : Memory) : Process → Process → Memory → Type 0 where
  opens :
      {f : Bool} {a : Addr}
      → w.linked ≡ true
      → ConsumerStep w
          (record { fd = f; addr = a; place = starting })
          (record { fd = true; addr = a; place = opened })
          w
  open_fails :
      {f : Bool} {a : Addr}
      → ConsumerStep w
          (record { fd = f; addr = a; place = starting })
          (record { fd = false; addr = a; place = opened })
          w
  maps :
      {a : Addr}
      → ConsumerStep w
          (record { fd = true; addr = a; place = opened })
          (record { fd = true; addr = mapped; place = in_loop waiting })
          w
  map_fails :
      {f : Bool} {a : Addr}
      → ConsumerStep w
          (record { fd = f; addr = a; place = opened })
          (record { fd = f; addr = map_failed; place = failing })
          w
  returns :
      {f : Bool} {a : Addr}
      → ConsumerStep w
          (record { fd = f; addr = a; place = failing })
          (record { fd = f; addr = a; place = returned })
          w
  loops :
      {f : Bool} {a : Addr} {pc pc' : Pc} {m : SharedData}
      → Consume w.shared pc m pc'
      → MayCall w.full w.empty pc pc'
      → ConsumerStep w
          (record { fd = f; addr = a; place = in_loop pc })
          (record { fd = f; addr = a; place = in_loop pc' })
          (record w { shared = m })

pub record Program : Type 0 where
  pub memory : Memory
  pub producer : Process
  pub consumer : Process

abbrev pub is_over : Place → Bool
is_over returned = true
is_over (gone pc) = true
is_over _ = false

-- The two processes in any order, and SIGINT, which `init_signal` has given its handler.
pub data Step (s : Program) : Program → Type 0 where
  produces :
      {p : Process} {w : Memory}
      → ProducerStep s.memory s.producer p w
      → Step s (record { memory = w; producer = p; consumer = s.consumer })
  consumes :
      {p : Process} {w : Memory}
      → ConsumerStep s.memory s.consumer p w
      → Step s (record { memory = w; producer = s.producer; consumer = p })
  interrupts_producer :
      {p : Process} {w : Memory}
      → is_over s.producer.place ≡ false
      → handler s.producer s.memory ≡ some (p, w)
      → Step s (record { memory = w; producer = p; consumer = s.consumer })
  interrupts_consumer :
      {p : Process} {w : Memory}
      → is_over s.consumer.place ≡ false
      → handler s.consumer s.memory ≡ some (p, w)
      → Step s (record { memory = w; producer = s.producer; consumer = p })

-- `fd` and `addr` as the program starts with them: a `fd` of 0 is no descriptor of the memory.
abbrev pub new_process : Process
new_process = record { fd = false; addr = null; place = starting }

-- `main` when `fork` succeeds and nothing has the name.
abbrev pub main : Program
main = record {
  memory = record {
    linked = false;
    full = unset;
    empty = unset;
    shared = record { sem_full = 0; sem_empty = 0; value = pos 0 };
  };
  producer = new_process;
  consumer = new_process;
}

pub data Reach : Program → Type 0 where
  start : Reach main
  later : {s t : Program} → Reach s → Step s t → Reach t
