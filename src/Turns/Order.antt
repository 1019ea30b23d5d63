-- ===== src/Turns/Order.antt =====
-- The producer and the consumer of section-05/lab/lab_2.c take turns.
use zhone_engineering_academ.Common.{
  Bool, true, false, dec_lt, ℕ, suc, ◌-◌, ◌≤◌, ◌<◌, ◌≡◌, refl, ◌⊎◌, inl, inr, pos, arith,
}
use zhone_engineering_academ.Turns.{
  max_size, SharedData, dec, Pc, waiting, looping, loaded, System, Produce, Consume, Step, produces,
  consumes, Reach, start, later,
}

-- Neither semaphore is up: one process has the turn.
abbrev Taken : SharedData → Type 0
Taken m = (m.sem_full ≡ 0) × (m.sem_empty ≡ 0)

-- Whose turn it is, and the value at each point of the turn.
abbrev pub InTurn : SharedData → Pc → Pc → Type 0
InTurn m waiting waiting =
    ((m.sem_empty ≡ 1) × (m.sem_full ≡ 0) × (m.value ≡ pos 0))
    ⊎ ((m.sem_empty ≡ 0) × (m.sem_full ≡ 1) × (m.value ≡ pos max_size))
InTurn m (looping i) waiting = Taken m × (i ≤ max_size) × (m.value ≡ pos i)
InTurn m (loaded i v) waiting = Taken m × (i < max_size) × (m.value ≡ pos i) × (v ≡ pos i)
InTurn m waiting (looping i) = Taken m × (i ≤ max_size) × (m.value ≡ pos (max_size - i))
InTurn m waiting (loaded i v) =
    Taken m × (i < max_size) × (m.value ≡ pos (max_size - i)) × (v ≡ pos (max_size - i))
InTurn m _ _ = ⊥

Produce-InTurn :
    {m m' : SharedData} {p p' : Pc} (c : Pc) → Produce m p m' p' → InTurn m p c → InTurn m' p' c
Produce-InTurn waiting (Produce.wait_empty e) t = ground arith
Produce-InTurn waiting (Produce.load lt) t = ground arith
Produce-InTurn waiting Produce.store t = ground arith
Produce-InTurn waiting (Produce.post_full ge) t = ground arith
Produce-InTurn (looping i) (Produce.wait_empty e) t = ground arith
Produce-InTurn (looping i) (Produce.load lt) t = absurd t
Produce-InTurn (looping i) Produce.store t = absurd t
Produce-InTurn (looping i) (Produce.post_full ge) t = absurd t
Produce-InTurn (loaded i v) (Produce.wait_empty e) t = ground arith
Produce-InTurn (loaded i v) (Produce.load lt) t = absurd t
Produce-InTurn (loaded i v) Produce.store t = absurd t
Produce-InTurn (loaded i v) (Produce.post_full ge) t = absurd t

dec_step : (i : ℕ) → i < max_size → dec (pos (max_size - i)) ≡ pos (max_size - suc i)
dec_step i lt = let e : max_size - i ≡ suc (max_size - suc i) = omega arith in rw e

Consume-InTurn :
    {m m' : SharedData} {c c' : Pc} (p : Pc) → Consume m c m' c' → InTurn m p c → InTurn m' p c'
Consume-InTurn waiting (Consume.wait_full e) t = ground arith
Consume-InTurn waiting (Consume.load lt) t = ground arith
Consume-InTurn waiting (Consume.store {i} {v}) t =
    let (taken, lt, at_i, read) = t in (taken, lt, rw read (dec_step i lt))
Consume-InTurn waiting (Consume.post_empty ge) t = ground arith
Consume-InTurn (looping i) (Consume.wait_full e) t = ground arith
Consume-InTurn (looping i) (Consume.load lt) t = absurd t
Consume-InTurn (looping i) Consume.store t = absurd t
Consume-InTurn (looping i) (Consume.post_empty ge) t = absurd t
Consume-InTurn (loaded i v) (Consume.wait_full e) t = ground arith
Consume-InTurn (loaded i v) (Consume.load lt) t = absurd t
Consume-InTurn (loaded i v) Consume.store t = absurd t
Consume-InTurn (loaded i v) (Consume.post_empty ge) t = absurd t

abbrev pub IsInTurn : System → Type 0
IsInTurn s = InTurn s.shared s.producer s.consumer

Step-IsInTurn : {s t : System} → Step s t → IsInTurn s → IsInTurn t
Step-IsInTurn {s} (produces move) turn = Produce-InTurn s.consumer move turn
Step-IsInTurn {s} (consumes move) turn = Consume-InTurn s.producer move turn

-- In every reachable state at most one process is past its `sem_wait`. In round `i` of its turn
-- the producer finds the value `i` and the consumer the value `5 - i`, and what either has read is
-- what is still there; between turns the value is 0 or 5 by the semaphore that is up.
pub Reach-IsInTurn : {s : System} → Reach s → IsInTurn s
Reach-IsInTurn start = inl (refl, refl, refl)
Reach-IsInTurn (later r st) = Step-IsInTurn st (Reach-IsInTurn r)

abbrev is_waiting : Pc → Bool
is_waiting waiting = true
is_waiting _ = false

turn-Produce :
    (m : SharedData) (p : Pc)
    → (0 < m.sem_empty) ⊎ (is_waiting p ≡ false)
    → (m' : SharedData) × (p' : Pc) × Produce m p m' p'
turn-Produce m waiting (inl up) = (_, _, Produce.wait_empty {n = m.sem_empty - 1} (omega arith))
turn-Produce m waiting (inr e) = cc
turn-Produce m (looping i) go = elim (dec_lt i max_size) [
  | yes more ↦ (_, _, Produce.load more)
  | no done ↦ (_, _, Produce.post_full (omega arith))
]
turn-Produce m (loaded i v) go = (_, _, Produce.store)

turn-Consume :
    (m : SharedData) (c : Pc)
    → (0 < m.sem_full) ⊎ (is_waiting c ≡ false)
    → (m' : SharedData) × (c' : Pc) × Consume m c m' c'
turn-Consume m waiting (inl up) = (_, _, Consume.wait_full {n = m.sem_full - 1} (omega arith))
turn-Consume m waiting (inr e) = cc
turn-Consume m (looping i) go = elim (dec_lt i max_size) [
  | yes more ↦ (_, _, Consume.load more)
  | no done ↦ (_, _, Consume.post_empty (omega arith))
]
turn-Consume m (loaded i v) go = (_, _, Consume.store)

abbrev pub Moves : System → Type 0
Moves s =
    ((m : SharedData) × (p : Pc) × Produce s.shared s.producer m p)
    ⊎ ((m : SharedData) × (c : Pc) × Consume s.shared s.consumer m c)

InTurn-Moves :
    (m : SharedData) (p c : Pc)
    → InTurn m p c
    → Moves (record { shared = m; producer = p; consumer = c })
InTurn-Moves m waiting waiting (inl up) = inl (turn-Produce m waiting (inl (omega arith)))
InTurn-Moves m waiting waiting (inr up) = inr (turn-Consume m waiting (inl (omega arith)))
InTurn-Moves m waiting (looping i) t = inr (turn-Consume m (looping i) (inr refl))
InTurn-Moves m waiting (loaded i v) t = inr (turn-Consume m (loaded i v) (inr refl))
InTurn-Moves m (looping i) c t = inl (turn-Produce m (looping i) (inr refl))
InTurn-Moves m (loaded i v) c t = inl (turn-Produce m (loaded i v) (inr refl))

-- No deadlock: in every reachable state one of the processes can make a step.
pub Reach-Moves : {s : System} → Reach s → Moves s
Reach-Moves {s} r = InTurn-Moves s.shared s.producer s.consumer (Reach-IsInTurn r)
