-- ===== src/Echo/Tcp/Reap/Zombies.antt =====
-- No child of section-07/lab/lab_1/server.c is left a zombie.
use zhone_engineering_academ.Common.{◌+◌, ◌≡◌, refl, true, false, ◌||◌, arith, ◌⊎◌, inl, inr}
use zhone_engineering_academ.Echo.Tcp.Reap.{Children, Step, forks_by, Reach, forks_in}

-- The children that have ended wait for a handler that runs or is to come.
abbrev IsWatched : Children → Type 0
IsWatched s = (s.zombies ≡ 0) ⊎ ((s.pending || s.handling) ≡ true)

Step-IsWatched : {s t : Children} → Step s t → IsWatched s → IsWatched t
Step-IsWatched Step.forks v = v
Step-IsWatched Step.ends v = inr refl
Step-IsWatched Step.interrupts v = inr refl
Step-IsWatched (Step.waits {p = p}) v = inr (ground arith)
Step-IsWatched Step.returns v = inl refl

Reach-IsWatched : {s : Children} → Reach s → IsWatched s
Reach-IsWatched Reach.start = inl refl
Reach-IsWatched (Reach.later r st) = Step-IsWatched st (Reach-IsWatched r)

Step-count :
    {s t : Children} (st : Step s t)
    → t.running + (t.zombies + t.reaped) ≡ s.running + (s.zombies + s.reaped) + forks_by st
Step-count Step.forks = omega arith
Step-count Step.ends = omega arith
Step-count Step.interrupts = omega arith
Step-count Step.waits = omega arith
Step-count Step.returns = omega arith

Reach-count : {s : Children} (r : Reach s) → s.running + (s.zombies + s.reaped) ≡ forks_in r
Reach-count Reach.start = refl
Reach-count (Reach.later r st) = omega (arith, Step-count st, Reach-count r)

-- However the ends of the children and the signals fall, and though signals are lost: where the
-- handler does not run and no SIGCHLD is pending, every child that was forked and does not run any
-- more has been waited for.
pub Reach-reaped :
    {s : Children} (r : Reach s)
    → s.pending ≡ false
    → s.handling ≡ false
    → (s.zombies ≡ 0) × (s.running + s.reaped ≡ forks_in r)
Reach-reaped {s} r quiet idle =
    let none_left : s.zombies ≡ 0 = elim (Reach-IsWatched r) [
      | inl none ↦ none
      | inr busy ↦ absurd (ground (arith, busy, quiet, idle))
    ] in
    (none_left, omega (arith, Reach-count r, none_left))
