-- ===== src/Reentrancy.antt =====
-- section-04/lab/lab_3.c: two threads that ask for a message, as step relations. PROGRAM 1 gives each
-- thread a buffer of its own, PROGRAM 0 has one static buffer. A thread sleeps between the writing
-- of its buffer and the printing, so that the other thread may come between them.
pub mod Messages
pub mod Ends
mod Runs
use zhone_engineering_academ.Common.{ℕ, List, [], ◌∷◌, ◌++◌}
use zhone_engineering_academ.CText.{codes, snprintf}

abbrev pub buffer_size : ℕ
buffer_size = 100

-- What `snprintf(buffer, buffer_size, "Hi, I'm %s", name)` leaves, as a C string.
unfoldable pub greeting : List ℕ → List ℕ
greeting name = snprintf buffer_size (codes "Hi, I'm " ++ name)

-- `printf("[%s thread] %s\n", name, msg)`
abbrev pub line : (name msg : List ℕ) → List ℕ
line name msg = codes "[" ++ (name ++ (codes " thread] " ++ (msg ++ codes "\n")))

-- Where a thread stands: before `get_message`, in its `sleep`, at its end. `B` is the buffer that
-- the thread has of its own.
pub data Pc (B : Type 0) : Type 0 where
  begun : Pc B
  asleep : B → Pc B
  returned : Pc B

-- PROGRAM 1: what is printed, and the two threads
pub record Reentrant : Type 0 where
  pub out : List (List ℕ)
  pub t1 : Pc (List ℕ)
  pub t2 : Pc (List ℕ)

-- PROGRAM 1: a step of `thread_func`
pub data Own (name : List ℕ) (out : List (List ℕ))
    : Pc (List ℕ) → List (List ℕ) → Pc (List ℕ) → Type 0 where
  writes : Own name out begun out (asleep (greeting name))
  prints : {msg : List ℕ} → Own name out (asleep msg) (out ++ line name msg ∷ []) returned

-- PROGRAM 0: the static buffer, what is printed, and the two threads
pub record NonReentrant : Type 0 where
  pub buffer : List ℕ
  pub out : List (List ℕ)
  pub t1 : Pc Unit
  pub t2 : Pc Unit

-- PROGRAM 0: a step of `thread_func`
pub data Static (name buffer : List ℕ) (out : List (List ℕ))
    : Pc Unit → List ℕ → List (List ℕ) → Pc Unit → Type 0 where
  writes : Static name buffer out begun (greeting name) out (asleep tt)
  prints :
      {u : Unit} → Static name buffer out (asleep u) buffer (out ++ line name buffer ∷ []) returned

-- `main`, with the names of the two threads
module _ (alice bob : List ℕ) where
  pub data ReentrantReach : Reentrant → Type 0 where
    start : ReentrantReach (record { out = []; t1 = begun; t2 = begun })
    first :
        {s : Reentrant} {out : List (List ℕ)} {p : Pc (List ℕ)}
        → ReentrantReach s
        → Own alice s.out s.t1 out p
        → ReentrantReach (record { out = out; t1 = p; t2 = s.t2 })
    second :
        {s : Reentrant} {out : List (List ℕ)} {p : Pc (List ℕ)}
        → ReentrantReach s
        → Own bob s.out s.t2 out p
        → ReentrantReach (record { out = out; t1 = s.t1; t2 = p })

  -- A static buffer holds zeros at first.
  pub data NonReentrantReach : NonReentrant → Type 0 where
    start : NonReentrantReach (record { buffer = []; out = []; t1 = begun; t2 = begun })
    first :
        {s : NonReentrant} {buffer : List ℕ} {out : List (List ℕ)} {p : Pc Unit}
        → NonReentrantReach s
        → Static alice s.buffer s.out s.t1 buffer out p
        → NonReentrantReach (record { buffer = buffer; out = out; t1 = p; t2 = s.t2 })
    second :
        {s : NonReentrant} {buffer : List ℕ} {out : List (List ℕ)} {p : Pc Unit}
        → NonReentrantReach s
        → Static bob s.buffer s.out s.t2 buffer out p
        → NonReentrantReach (record { buffer = buffer; out = out; t1 = s.t1; t2 = p })
