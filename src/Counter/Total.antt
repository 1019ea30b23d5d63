-- ===== src/Counter/Total.antt =====
-- What holds at every time of the threads of section-04/lab/lab_2.c.
use zhone_engineering_academ.Common.{
  ℕ, suc, ◌+◌, ◌<◌, ◌≤◌, ◌≡◌, Bool, true, false, ◌&&◌, ◌||◌, refl, arith,
}
use zhone_engineering_academ.Counter.{
  Pc, looping, locked, loaded, stored, returned, Shared, Threads, Increment, Step, first, second,
  Reach, start, later,
}

-- Between the lock and the unlock
abbrev pub is_inside : Pc → Bool
is_inside (looping i) = false
is_inside returned = false
is_inside _ = true

-- How many increments a thread has made, if its place is one of a loop of so many rounds.
abbrev pub made : (rounds : ℕ) → Pc → ℕ
made rounds (looping i) = i
made rounds (locked i) = i
made rounds (loaded i v) = i
made rounds (stored i) = suc i
made rounds returned = rounds

abbrev pub FitsLoop : (rounds counter : ℕ) → Pc → Type 0
FitsLoop rounds counter (looping i) = i ≤ rounds
FitsLoop rounds counter (locked i) = i < rounds
FitsLoop rounds counter (loaded i v) = (i < rounds) × (v ≡ counter)
FitsLoop rounds counter (stored i) = i < rounds
FitsLoop rounds counter returned = Unit

-- One thread at most holds the mutex, it holds what it has read, and `counter` is what the two
-- have added.
pub record Counted (rounds : ℕ) (m : Shared) (p q : Pc) : Type 0 where
  pub total : m.counter ≡ made rounds p + made rounds q
  pub owned : m.mutex ≡ (is_inside p || is_inside q)
  pub apart : (is_inside p && is_inside q) ≡ false
  pub first_fits : FitsLoop rounds m.counter p
  pub second_fits : FitsLoop rounds m.counter q

module _ (rounds : ℕ) where
  Counted-sym : {m : Shared} {p q : Pc} → Counted rounds m p q → Counted rounds m q p
  Counted-sym {p} {q} c = record {
    total = omega (arith, c.total);
    owned = ground (arith, c.owned);
    apart = ground (arith, c.apart);
    first_fits = c.second_fits;
    second_fits = c.first_fits;
  }

  FitsLoop-outside :
      (a b : ℕ) (q : Pc) → is_inside q ≡ false → FitsLoop rounds a q → FitsLoop rounds b q
  FitsLoop-outside a b (looping i) out fits = fits
  FitsLoop-outside a b (locked i) out fits = fits
  FitsLoop-outside a b (loaded i v) out fits = ground arith
  FitsLoop-outside a b (stored i) out fits = fits
  FitsLoop-outside a b returned out fits = tt

  Increment-Counted :
      {m m' : Shared} {p p' : Pc} (q : Pc)
      → Increment rounds m p m' p'
      → Counted rounds m p q
      → Counted rounds m' p' q
  Increment-Counted q (Increment.lock more unheld) c =
      let out : is_inside q ≡ false = ground (arith, c.owned) in
      record {
        total = c.total;
        owned = ground arith;
        apart = out;
        first_fits = more;
        second_fits = FitsLoop-outside _ _ q out c.second_fits;
      }
  Increment-Counted q Increment.load c = record {
    total = c.total;
    owned = c.owned;
    apart = c.apart;
    first_fits = (c.first_fits, refl);
    second_fits = c.second_fits;
  }
  Increment-Counted q (Increment.store {i} {v}) c =
      let (more, same) = c.first_fits in
      record {
        total = omega (arith, same, c.total);
        owned = c.owned;
        apart = c.apart;
        first_fits = more;
        second_fits = FitsLoop-outside _ _ q c.apart c.second_fits;
      }
  Increment-Counted q Increment.unlock c = record {
    total = c.total;
    owned = ground (arith, c.apart);
    apart = refl;
    first_fits = c.first_fits;
    second_fits = FitsLoop-outside _ _ q c.apart c.second_fits;
  }
  Increment-Counted q (Increment.finish {i} enough) c = record {
    total = omega (arith, enough, c.first_fits, c.total);
    owned = c.owned;
    apart = c.apart;
    first_fits = tt;
    second_fits = c.second_fits;
  }

  abbrev pub IsCounted : Threads → Type 0
  IsCounted s = Counted rounds s.shared s.t1 s.t2

  Step-IsCounted : {s t : Threads} → Step rounds s t → IsCounted s → IsCounted t
  Step-IsCounted {s} (first move) c = Increment-Counted s.t2 move c
  Step-IsCounted {s} (second move) c = Counted-sym (Increment-Counted s.t1 move (Counted-sym c))

  pub Reach-IsCounted : {n : ℕ} {s : Threads} → Reach rounds n s → IsCounted s
  Reach-IsCounted start = record {
    total = refl;
    owned = refl;
    apart = refl;
    first_fits = omega arith;
    second_fits = omega arith;
  }
  Reach-IsCounted (later r st) = Step-IsCounted st (Reach-IsCounted r)
