-- ===== src/LostUpdate/Lost.antt =====
-- What the two threads of section-04/lab/lab_1.c may print.
use zhone_engineering_academ.Common.{ℕ, zero, suc, ◌+◌, ◌*◌, ◌<◌, ◌≤◌, arith}
use zhone_engineering_academ.LostUpdate.{
  Pc, looping, loaded, returned, Threads, Increment, first, second, Reach, start, later,
}

-- How many increments a thread has made
abbrev pub made : (rounds : ℕ) → Pc → ℕ
made rounds (looping i) = i
made rounds (loaded i v) = i
made rounds returned = rounds

abbrev read : Pc → ℕ
read (looping i) = 0
read (loaded i v) = v
read returned = 0

abbrev FitsLoop : (rounds : ℕ) → Pc → Type 0
FitsLoop rounds (looping i) = i ≤ rounds
FitsLoop rounds (loaded i v) = i < rounds
FitsLoop rounds returned = Unit

-- What is stored and what a thread has read are at most what has been added.
pub record Bounded (rounds c : ℕ) (p q : Pc) : Type 0 where
  pub stored : c ≤ made rounds p + made rounds q
  pub first_read : read p ≤ made rounds p + made rounds q
  pub second_read : read q ≤ made rounds p + made rounds q
  pub first_fits : FitsLoop rounds p
  pub second_fits : FitsLoop rounds q

Bounded-sym : {rounds c : ℕ} {p q : Pc} → Bounded rounds c p q → Bounded rounds c q p
Bounded-sym b = record {
  stored = omega (arith, b.stored);
  first_read = omega (arith, b.second_read);
  second_read = omega (arith, b.first_read);
  first_fits = b.second_fits;
  second_fits = b.first_fits;
}

Increment-Bounded :
    {rounds c c' : ℕ} {p p' : Pc} (q : Pc)
    → Increment rounds c p c' p'
    → Bounded rounds c p q
    → Bounded rounds c' p' q
Increment-Bounded q (Increment.load more) b = ground arith
Increment-Bounded q Increment.store b = ground arith
Increment-Bounded q (Increment.finish enough) b = ground arith

Reach-Bounded : {rounds : ℕ} {s : Threads} → Reach rounds s → Bounded rounds s.counter s.t1 s.t2
Reach-Bounded start = omega arith
Reach-Bounded (later {s} r (first move)) = Increment-Bounded s.t2 move (Reach-Bounded r)
Reach-Bounded (later {s} r (second move)) =
    Bounded-sym (Increment-Bounded s.t1 move (Bounded-sym (Reach-Bounded r)))

made-le : (rounds : ℕ) (p : Pc) → FitsLoop rounds p → made rounds p ≤ rounds
made-le rounds (looping i) fits = fits
made-le rounds (loaded i v) fits = omega arith
made-le rounds returned fits = omega arith

-- At no point of any run is `counter` above twice the number of rounds.
pub Reach-counter-le : (rounds : ℕ) (s : Threads) → Reach rounds s → s.counter ≤ 2 * rounds
Reach-counter-le rounds s r =
    let b = Reach-Bounded r in
    omega (arith, b.stored, made-le rounds s.t1 b.first_fits, made-le rounds s.t2 b.second_fits)

-- Both threads read, then both write: of the two increments one is lost.
abbrev pub in_step : ℕ → Threads
in_step i = record { counter = i; t1 = looping i; t2 = looping i }

pub in_step-Reach : (rounds i : ℕ) → i ≤ rounds → Reach rounds (in_step i)
in_step-Reach rounds zero h = start
in_step-Reach rounds (suc i) h =
    let a = later (in_step-Reach rounds i (omega arith)) (first (Increment.load (omega arith))) in
    let b = later a (second (Increment.load (omega arith))) in
    later (later b (first Increment.store)) (second Increment.store)

-- For every number of rounds there is a run in which both threads return and half of the increments
-- are lost.
half-Reach : (rounds : ℕ) → Reach rounds (record { counter = rounds; t1 = returned; t2 = returned })
half-Reach rounds =
    let a =
      later (in_step-Reach rounds rounds (omega arith)) (first (Increment.finish (omega arith))) in
    later a (second (Increment.finish (omega arith)))
