-- ===== src/Kill/Race.antt =====
-- How section-03/lab/lab_2.c can end.
use zhone_engineering_academ.Common.{
  ℕ, suc, ◌+◌, ◌≤◌, ◌≡◌, refl, List, [], ◌∷◌, ◌⊎◌, inl, inr, arith,
}
use zhone_engineering_academ.Kill.{
  Line, hello, kill, Child, zombie, reaped, Parent, waiting, returned, Processes, Step, Reach,
}

-- What can have been printed where the two stand.
abbrev Said : Child → Parent → List Line → Type 0
Said Child.asleep Parent.asleep out = out ≡ []
Said Child.asleep Parent.spoken out = out ≡ kill ∷ []
Said Child.spoken Parent.asleep out = out ≡ hello ∷ []
Said Child.spoken Parent.spoken out = (out ≡ hello ∷ kill ∷ []) ⊎ (out ≡ kill ∷ hello ∷ [])
Said zombie Parent.asleep out = out ≡ hello ∷ []
Said zombie Parent.spoken out = (out ≡ hello ∷ kill ∷ []) ⊎ (out ≡ kill ∷ hello ∷ [])
Said zombie waiting out = (out ≡ kill ∷ []) ⊎ (out ≡ hello ∷ kill ∷ []) ⊎ (out ≡ kill ∷ hello ∷ [])
Said reaped returned out = (out ≡ kill ∷ []) ⊎ (out ≡ hello ∷ kill ∷ []) ⊎ (out ≡ kill ∷ hello ∷ [])
Said _ _ out = ⊥

Step-Said : {s t : Processes} → Step s t → Said s.child s.parent s.out → Said t.child t.parent t.out
Step-Said (Step.child_prints {p = Parent.asleep}) h = rw h refl
Step-Said (Step.child_prints {p = Parent.spoken}) h = rw h (inr refl)
Step-Said (Step.child_prints {p = waiting}) h = absurd h
Step-Said (Step.child_prints {p = returned}) h = absurd h
Step-Said (Step.child_exits {p = Parent.asleep}) h = h
Step-Said (Step.child_exits {p = Parent.spoken}) h = h
Step-Said (Step.child_exits {p = waiting}) h = absurd h
Step-Said (Step.child_exits {p = returned}) h = absurd h
Step-Said (Step.parent_prints {c = Child.asleep}) h = rw h refl
Step-Said (Step.parent_prints {c = Child.spoken}) h = rw h (inl refl)
Step-Said (Step.parent_prints {c = zombie}) h = rw h (inl refl)
Step-Said (Step.parent_prints {c = reaped}) h = absurd h
Step-Said (Step.parent_kills {c = Child.asleep}) h = inl h
Step-Said (Step.parent_kills {c = Child.spoken}) h = inr h
Step-Said (Step.parent_kills {c = zombie}) h = inr h
Step-Said (Step.parent_kills {c = reaped}) h = absurd h
Step-Said Step.parent_reaps h = h

Reach-Said : {n : ℕ} {s : Processes} → Reach n s → Said s.child s.parent s.out
Reach-Said Reach.start = refl
Reach-Said (Reach.later r st) = Step-Said st (Reach-Said r)

abbrev child_left : Child → ℕ
child_left Child.asleep = 2
child_left Child.spoken = 1
child_left _ = 0

abbrev parent_left : Parent → ℕ
parent_left Parent.asleep = 3
parent_left Parent.spoken = 2
parent_left waiting = 1
parent_left returned = 0

Step-left :
    {s t : Processes}
    → Step s t
    → suc (child_left t.child + parent_left t.parent) ≤ child_left s.child + parent_left s.parent
Step-left Step.child_prints = omega arith
Step-left Step.child_exits = omega arith
Step-left Step.parent_prints = omega arith
Step-left Step.parent_kills = omega arith
Step-left Step.parent_reaps = omega arith

Reach-left :
    {n : ℕ} {s : Processes} → Reach n s → n + (child_left s.child + parent_left s.parent) ≤ 5
Reach-left Reach.start = omega arith
Reach-left (Reach.later r st) = omega (arith, Reach-left r, Step-left st)

abbrev pub Moves : Processes → Type 0
Moves s = (t : Processes) × Step s t

-- The parent's "kill()", and the child's "Hello!" before it, behind it, or not at all.
abbrev pub IsRace : List Line → Type 0
IsRace out = (out ≡ kill ∷ []) ⊎ (out ≡ hello ∷ kill ∷ []) ⊎ (out ≡ kill ∷ hello ∷ [])

stops :
    (out : List Line) (c : Child) (p : Parent)
    → Said c p out
    → Moves (record { out = out; child = c; parent = p })
      ⊎ ((c ≡ reaped) × (p ≡ returned) × IsRace out)
stops out c Parent.asleep h = inl (_, Step.parent_prints)
stops out c Parent.spoken h = inl (_, Step.parent_kills)
stops out Child.asleep waiting h = absurd h
stops out Child.spoken waiting h = absurd h
stops out zombie waiting h = inl (_, Step.parent_reaps)
stops out reaped waiting h = absurd h
stops out Child.asleep returned h = absurd h
stops out Child.spoken returned h = absurd h
stops out zombie returned h = absurd h
stops out reaped returned h = inr (refl, refl, h)

-- Every run ends after five steps at most: in the end the child has been waited for, the parent has
-- returned, and what is printed is one of three texts.
pub Reach-race :
    {n : ℕ} {s : Processes}
    → Reach n s
    → (n ≤ 5) × (Moves s ⊎ ((s.child ≡ reaped) × (s.parent ≡ returned) × IsRace s.out))
Reach-race {n} {s} r = (omega (arith, Reach-left r), stops s.out s.child s.parent (Reach-Said r))
