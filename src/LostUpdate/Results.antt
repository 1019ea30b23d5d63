-- ===== src/LostUpdate/Results.antt =====
-- All that section-04/lab/lab_1.c may print.
use zhone_engineering_academ.Common.{
  ℕ, zero, suc, ◌+◌, ◌-◌, ◌*◌, ◌<◌, ◌≤◌, ◌≡◌, ◌↔◌, arith, subst, dec_lt,
}
use zhone_engineering_academ.LostUpdate.{
  Pc, looping, returned, Threads, Increment, first, second, Reach, start, later,
}
use zhone_engineering_academ.LostUpdate.Lost.{Reach-counter-le}
use zhone_engineering_academ.LostUpdate.Least.{ge-Reach}

-- One thread alone adds what it makes.
first_alone :
    {rounds c c' i i' : ℕ} (k : ℕ) {q : Pc}
    → i' ≡ i + k
    → c' ≡ c + k
    → i' ≤ rounds
    → Reach rounds (record { counter = c; t1 = looping i; t2 = q })
    → Reach rounds (record { counter = c'; t1 = looping i'; t2 = q })
first_alone {rounds} {c} {c'} {i} {i'} zero {q} ei ec fits r =
    let e : c ≡ c' = omega arith in let f : i ≡ i' = omega arith in rw (← e, ← f) r
first_alone {rounds} {c} {c'} {i} {i'} (suc k) {q} ei ec fits r =
    first_alone {c = suc c} {i = suc i} k (omega arith) (omega arith) fits
      (later (later r (first (Increment.load (omega arith)))) (first Increment.store))

second_alone :
    {rounds c c' i i' : ℕ} (k : ℕ) {p : Pc}
    → i' ≡ i + k
    → c' ≡ c + k
    → i' ≤ rounds
    → Reach rounds (record { counter = c; t1 = p; t2 = looping i })
    → Reach rounds (record { counter = c'; t1 = p; t2 = looping i' })
second_alone {rounds} {c} {c'} {i} {i'} zero {p} ei ec fits r =
    let e : c ≡ c' = omega arith in let f : i ≡ i' = omega arith in rw (← e, ← f) r
second_alone {rounds} {c} {c'} {i} {i'} (suc k) {p} ei ec fits r =
    second_alone {c = suc c} {i = suc i} k (omega arith) (omega arith) fits
      (later (later r (second (Increment.load (omega arith)))) (second Increment.store))

abbrev pub ended : ℕ → Threads
ended c = record { counter = c; t1 = returned; t2 = returned }

finish_both :
    {rounds c : ℕ}
    → Reach rounds (record { counter = c; t1 = looping rounds; t2 = looping rounds })
    → Reach rounds (ended c)
finish_both r =
    later (later r (first (Increment.finish (omega arith))))
      (second (Increment.finish (omega arith)))

-- The second thread makes `k` increments between the first one's first read and write, so that all
-- of them are lost.
lost_at_first :
    (rounds k : ℕ)
    → k ≤ rounds
    → 0 < rounds
    → Reach rounds (record { counter = 1; t1 = looping 1; t2 = looping k })
lost_at_first rounds k fits some_round =
    let a = later start (first (Increment.load (omega arith))) in
    later (second_alone {c = 0} {c' = k} {i = 0} {i' = k} k (omega arith) (omega arith) fits a)
      (first Increment.store)

-- Then nothing else is lost.
Reach-many : (rounds r : ℕ) → suc rounds ≤ r → r ≤ 2 * rounds → 0 < rounds → Reach rounds (ended r)
Reach-many rounds r more most some_round =
    let k = 2 * rounds - r in
    let a = lost_at_first rounds k (omega arith) some_round in
    let b =
      first_alone {c' = rounds} {i' = rounds} (rounds - 1) (omega arith) (omega arith) (omega arith)
        a in
    finish_both
      (second_alone {c' = r} {i' = rounds} (rounds - k) (omega arith) (omega arith) (omega arith) b)

-- The second thread's last read comes behind `j + 1` writes of the first one, its write behind all.
Reach-few : (rounds j : ℕ) → j < rounds → 0 < rounds → Reach rounds (ended (suc (suc j)))
Reach-few rounds j few some_round =
    let a = lost_at_first rounds (rounds - 1) (omega arith) some_round in
    let b = first_alone {c' = suc j} {i' = suc j} j (omega arith) (omega arith) (omega arith) a in
    let c = later b (second (Increment.load (omega arith))) in
    let d =
      first_alone {c' = rounds} {i' = rounds} (rounds - suc j) (omega arith) (omega arith)
        (omega arith) c in
    let e : suc (rounds - 1) ≡ rounds = omega arith in
    finish_both (
      subst
        (λ i. Reach rounds (record { counter = suc (suc j); t1 = looping rounds; t2 = looping i }))
        e (later d (second Increment.store)))

-- With two rounds or more, the numbers that can be printed are exactly those from 2 to twice the
-- number of rounds.
pub Reach-ended :
    (rounds r : ℕ) → 2 ≤ rounds → Reach rounds (ended r) ↔ ((2 ≤ r) × (r ≤ 2 * rounds))
Reach-ended rounds r two = (
  λ run. (ge-Reach two run, Reach-counter-le rounds (ended r) run),
  λ (least, most). elim (dec_lt rounds r) [
    | yes many ↦ Reach-many rounds r (omega arith) most (omega arith)
    | no few ↦
        let e : suc (suc (r - 2)) ≡ r = omega arith in
        subst (λ c. Reach rounds (ended c)) e (Reach-few rounds (r - 2) (omega arith) (omega arith))
  ],
)
