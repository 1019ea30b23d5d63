-- ===== src/LostUpdate/Least.antt =====
-- The least that the two threads of section-04/lab/lab_1.c may print.
use zhone_engineering_academ.Common.{ℕ, zero, suc, ◌<◌, ◌≤◌, ◌≡◌, refl, arith, ◌⊎◌, inl, inr}
use zhone_engineering_academ.LostUpdate.{
  Pc, looping, loaded, returned, Threads, Increment, first, second, Reach, start, later,
}
use zhone_engineering_academ.LostUpdate.Lost.{made}

-- A read behind a thread's own first write does not find 0.
abbrev ReadsLate : Pc → Type 0
ReadsLate (looping i) = Unit
ReadsLate (loaded zero v) = Unit
ReadsLate (loaded (suc i) v) = 0 < v
ReadsLate returned = Unit

-- The counter is 0 before all writes, and 1 only while one thread has made one write.
abbrev Level : (rounds c : ℕ) → Pc → Pc → Type 0
Level rounds c p q =
    ((c ≡ 0) × (made rounds p ≡ 0) × (made rounds q ≡ 0))
    ⊎ ((c ≡ 1) × ((made rounds p ≡ 1) ⊎ (made rounds q ≡ 1)))
    ⊎ (2 ≤ c)

abbrev AboveOne : (rounds c : ℕ) → Pc → Pc → Type 0
AboveOne rounds c p q = Level rounds c p q × ReadsLate p × ReadsLate q

AboveOne-sym : (rounds : ℕ) {c : ℕ} (p q : Pc) → AboveOne rounds c p q → AboveOne rounds c q p
AboveOne-sym rounds p q (level, late_p, late_q) = (ground arith, late_q, late_p)

Increment-AboveOne :
    {rounds c c' : ℕ} {p p' : Pc} (q : Pc)
    → 2 ≤ rounds
    → Increment rounds c p c' p'
    → AboveOne rounds c p q
    → AboveOne rounds c' p' q
Increment-AboveOne q two (Increment.load {i = zero} more) (level, late_p, late_q) =
    (level, tt, late_q)
Increment-AboveOne q two (Increment.load {i = suc i} more) (level, late_p, late_q) =
    (level, ground arith, late_q)
Increment-AboveOne q two (Increment.store {i = zero} {v = v}) (level, late_p, late_q) =
    (ground arith, tt, late_q)
Increment-AboveOne q two (Increment.store {i = suc i} {v = v}) (level, late_p, late_q) =
    (inr (inr (omega arith)), tt, late_q)
Increment-AboveOne q two (Increment.finish enough) (level, late_p, late_q) =
    (ground arith, tt, late_q)

pub Reach-AboveOne :
    {rounds : ℕ} {s : Threads} → 2 ≤ rounds → Reach rounds s → AboveOne rounds s.counter s.t1 s.t2
Reach-AboveOne two start = (inl (refl, refl, refl), tt, tt)
Reach-AboveOne two (later {s} r (first move)) =
    Increment-AboveOne s.t2 two move (Reach-AboveOne two r)
Reach-AboveOne {rounds} two (later {s} r (second {p} move)) =
    AboveOne-sym rounds p s.t1
      (Increment-AboveOne s.t1 two move (AboveOne-sym rounds s.t1 s.t2 (Reach-AboveOne two r)))

-- When both threads have returned, after two rounds each at least, `counter` is at least 2.
pub ge-Reach :
    {rounds c : ℕ}
    → 2 ≤ rounds
    → Reach rounds (record { counter = c; t1 = returned; t2 = returned })
    → 2 ≤ c
ge-Reach two r = let (level, _, _) = Reach-AboveOne two r in ground arith
