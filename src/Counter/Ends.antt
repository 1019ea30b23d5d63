-- ===== src/Counter/Ends.antt =====
-- How the threads of section-04/lab/lab_2.c end.
use zhone_engineering_academ.Common.{
  ℕ, suc, ◌+◌, ◌-◌, ◌*◌, ◌≤◌, ◌≡◌, true, false, refl, arith, ◌⊎◌, inl, inr, dec_lt, ap, Bool-cases,
}
use zhone_engineering_academ.Counter.{
  Pc, looping, locked, loaded, stored, returned, Shared, Threads, Increment, Step, first, second,
  Reach, start, later,
}
use zhone_engineering_academ.Counter.Total.{is_inside, made, FitsLoop, Reach-IsCounted}

-- The steps that a thread has left.
abbrev pub left : (rounds : ℕ) → Pc → ℕ
left rounds (looping i) = 4 * (rounds - i) + 1
left rounds (locked i) = 4 * (rounds - i)
left rounds (loaded i v) = 4 * (rounds - i) - 1
left rounds (stored i) = 4 * (rounds - i) - 2
left rounds returned = 0

module _ (rounds : ℕ) where
  Increment-left :
      {m m' : Shared} {p p' : Pc}
      → Increment rounds m p m' p'
      → FitsLoop rounds m.counter p
      → left rounds p ≡ suc (left rounds p')
  Increment-left (Increment.lock more unheld) fits = omega arith
  Increment-left Increment.load fits = omega arith
  Increment-left Increment.store (more, same) = omega arith
  Increment-left Increment.unlock fits = omega arith
  Increment-left (Increment.finish enough) fits = omega arith

  -- The steps made and those that the threads have left are 8 for each round and 2 more at every
  -- point of every run, so no run is longer than that, in whatever order the threads go.
  pub Reach-left :
      {n : ℕ} {s : Threads}
      → Reach rounds n s
      → n + (left rounds s.t1 + left rounds s.t2) ≡ 8 * rounds + 2
  Reach-left start = omega arith
  Reach-left (later r (first move)) =
      let fits = (Reach-IsCounted rounds r).first_fits in
      omega (arith, Reach-left r, Increment-left move fits)
  Reach-left (later r (second move)) =
      let fits = (Reach-IsCounted rounds r).second_fits in
      omega (arith, Reach-left r, Increment-left move fits)

  -- When both threads have returned, `counter` is twice the number of rounds: no increment is lost,
  -- in whatever order they ran.
  pub Reach-counter :
      {n : ℕ} {s : Threads}
      → Reach rounds n s
      → s.t1 ≡ returned
      → s.t2 ≡ returned
      → s.shared.counter ≡ 2 * rounds
  Reach-counter {s} r end1 end2 =
      let c = Reach-IsCounted rounds r in
      omega (arith, c.total, ap (made rounds) end1, ap (made rounds) end2)

  abbrev CanMove : Shared → Pc → Type 0
  CanMove m p = (m' : Shared) × (p' : Pc) × Increment rounds m p m' p'

  inside-CanMove : (m : Shared) (p : Pc) → is_inside p ≡ true → CanMove m p
  inside-CanMove m (looping i) inside = cc
  inside-CanMove m (locked i) inside = (_, _, Increment.load)
  inside-CanMove m (loaded i v) inside = (_, _, Increment.store)
  inside-CanMove m (stored i) inside = (_, _, Increment.unlock)
  inside-CanMove m returned inside = cc

  unheld-CanMove : (m : Shared) (p : Pc) → m.mutex ≡ false → (p ≡ returned) ⊎ CanMove m p
  unheld-CanMove m (looping i) unheld = elim (dec_lt i rounds) [
    | yes more ↦ inr (_, _, Increment.lock more unheld)
    | no enough ↦ inr (_, _, Increment.finish (omega arith))
  ]
  unheld-CanMove m (locked i) unheld = inr (inside-CanMove m (locked i) refl)
  unheld-CanMove m (loaded i v) unheld = inr (inside-CanMove m (loaded i v) refl)
  unheld-CanMove m (stored i) unheld = inr (inside-CanMove m (stored i) refl)
  unheld-CanMove m returned unheld = inl refl

  abbrev pub EndsOrMoves : Threads → Type 0
  EndsOrMoves s = ((s.t1 ≡ returned) × (s.t2 ≡ returned)) ⊎ ((t : Threads) × Step rounds s t)

  -- A thread that may go on does, or has ended and the other goes on, or both have ended.
  both :
      (s : Threads)
      → (s.t1 ≡ returned) ⊎ CanMove s.shared s.t1
      → (s.t2 ≡ returned) ⊎ CanMove s.shared s.t2
      → EndsOrMoves s
  both s (inr (m, p, move)) other = inr (_, first move)
  both s (inl end1) (inr (m, p, move)) = inr (_, second move)
  both s (inl end1) (inl end2) = inl (end1, end2)

  -- No deadlock: in every reachable state a thread can make a step, or both have returned.
  pub Reach-EndsOrMoves : {n : ℕ} {s : Threads} → Reach rounds n s → EndsOrMoves s
  Reach-EndsOrMoves {s} r =
      let c = Reach-IsCounted rounds r in
      elim (Bool-cases (is_inside s.t1)) [
        | inl in1 ↦ let (m, p, move) = inside-CanMove s.shared s.t1 in1 in inr (_, first move)
        | inr out1 ↦ elim (Bool-cases (is_inside s.t2)) [
          | inl in2 ↦ let (m, p, move) = inside-CanMove s.shared s.t2 in2 in inr (_, second move)
          | inr out2 ↦
              let unheld : s.shared.mutex ≡ false = rw (out1, out2) at c.owned in
              both s (unheld-CanMove s.shared s.t1 unheld) (unheld-CanMove s.shared s.t2 unheld)
        ]
      ]

  abbrev pub EndsInTotal : Threads → Type 0
  EndsInTotal s =
      ((s.t1 ≡ returned) × (s.t2 ≡ returned) × (s.shared.counter ≡ 2 * rounds))
      ⊎ ((t : Threads) × Step rounds s t)

  -- Every run ends after 8 steps for each round and 2 more at most, whatever the order of the
  -- threads, since a state that is not the end has a next one: in the end both threads have returned
  -- and `counter` is twice the number of rounds, so that no increment is lost.
  pub Reach-total : {n : ℕ} {s : Threads} → Reach rounds n s → (n ≤ 8 * rounds + 2) × EndsInTotal s
  Reach-total r = (
    omega (arith, Reach-left r),
    elim (Reach-EndsOrMoves r) [
      | inl (end1, end2) ↦ inl (end1, end2, Reach-counter r end1 end2)
      | inr moves ↦ inr moves
    ],
  )
