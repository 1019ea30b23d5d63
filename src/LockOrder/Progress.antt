-- ===== src/LockOrder/Progress.antt =====
-- The threads of section-04/lab/lab_5.c do not block each other.
use zhone_engineering_academ.Common.{
  ◌≡◌, Bool, true, false, ◌||◌, ◌&&◌, ◌⊎◌, inl, inr, refl, ◌∙◌, arith,
}
use zhone_engineering_academ.LockOrder.{
  Shared, Pc, looping, has_first, has_both, counted, has_first_still, Move, Threads, Step, thread_a,
  thread_b, Reach, start, later,
}

-- Whether a thread holds `mutex1`, and `mutex2`
abbrev pub holds1 : Pc → Bool
holds1 looping = false
holds1 has_first = true
holds1 has_both = true
holds1 counted = true
holds1 has_first_still = true

abbrev pub holds2 : Pc → Bool
holds2 looping = false
holds2 has_first = false
holds2 has_both = true
holds2 counted = true
holds2 has_first_still = false

pub record IsOwned (m : Shared) (p q : Pc) : Type 0 where
  pub owned1 : m.mutex1 ≡ (holds1 p || holds1 q)
  pub owned2 : m.mutex2 ≡ (holds2 p || holds2 q)
  pub apart : (holds1 p && holds1 q) ≡ false

IsOwned-sym : {m : Shared} {p q : Pc} → IsOwned m p q → IsOwned m q p
IsOwned-sym o = ground arith

Move-IsOwned :
    {m m' : Shared} {p p' : Pc} (q : Pc) → Move m p m' p' → IsOwned m p q → IsOwned m' p' q
Move-IsOwned q (Move.lock1 free) o = ground arith
Move-IsOwned q (Move.lock2 free) o = ground arith
Move-IsOwned q Move.count o = ground arith
Move-IsOwned q Move.unlock2 o = ground arith
Move-IsOwned q Move.unlock1 o = ground arith

Reach-IsOwned : {s : Threads} → Reach s → IsOwned s.shared s.a s.b
Reach-IsOwned start = record { owned1 = refl; owned2 = refl; apart = refl }
Reach-IsOwned (later {s} r (thread_a runs move)) = Move-IsOwned s.b move (Reach-IsOwned r)
Reach-IsOwned (later {s} r (thread_b runs move)) =
    IsOwned-sym (Move-IsOwned s.a move (IsOwned-sym (Reach-IsOwned r)))
Reach-IsOwned (later r (Step.read_counter at)) = Reach-IsOwned r
Reach-IsOwned (later r (Step.has_moved at moved)) = Reach-IsOwned r
Reach-IsOwned (later r (Step.detect at same)) = Reach-IsOwned r

abbrev pub Moves : Shared → Pc → Type 0
Moves m p = (m' : Shared) × (p' : Pc) × Move m p m' p'

second_free : (q : Pc) → holds1 q ≡ false → holds2 q ≡ false
second_free looping free = refl
second_free has_first free = refl
second_free has_both free = cc
second_free counted free = cc
second_free has_first_still free = refl

-- The thread that holds a mutex can go on, and either one if none does.
IsOwned-Moves : (m : Shared) (p q : Pc) → IsOwned m p q → Moves m p ⊎ Moves m q
IsOwned-Moves m looping looping o = inl (_, _, Move.lock1 (ground arith))
IsOwned-Moves m looping has_first o = inr (_, _, Move.lock2 (ground arith))
IsOwned-Moves m looping has_both o = inr (_, _, Move.count)
IsOwned-Moves m looping counted o = inr (_, _, Move.unlock2)
IsOwned-Moves m looping has_first_still o = inr (_, _, Move.unlock1)
IsOwned-Moves m has_first q o = inl (_, _, Move.lock2 (o.owned2 ∙ second_free q o.apart))
IsOwned-Moves m has_both q o = inl (_, _, Move.count)
IsOwned-Moves m counted q o = inl (_, _, Move.unlock2)
IsOwned-Moves m has_first_still q o = inl (_, _, Move.unlock1)

-- No deadlock: in every reachable state `thread_a` or `thread_b` can make its next step. The mutexes
-- are held by the thread that stands behind its lock, and at most one thread does.
pub Reach-Advances :
    {s : Threads} → Reach s → (Moves s.shared s.a ⊎ Moves s.shared s.b) × IsOwned s.shared s.a s.b
Reach-Advances {s} r = (IsOwned-Moves s.shared s.a s.b (Reach-IsOwned r), Reach-IsOwned r)
