-- ===== src/Family/Ends.antt =====
-- Every run of section-03/lab/lab_1.c ends, and what it has printed.
use zhone_engineering_academ.Common.{
  ℕ, suc, ◌+◌, ◌-◌, ◌≤◌, ◌≡◌, refl, true, false, List, ◌⊎◌, inl, inr, arith, Bool-cases, ltb,
  ltb→lt,
}
use zhone_engineering_academ.Family.{
  parent, child, grandchild, Line, Pc, unborn, forking, sleeping, waiting, sleeping_again, gone,
  is_gone, Family, ParentStep, ChildStep, GrandchildStep, Step, Reach,
}
use zhone_engineering_academ.Family.Prints.{
  texts, ParentHas, ChildHas, GrandchildHas, IsOrdered, HasParent, All,
}
use zhone_engineering_academ.Family.Orderly.{IsOrderly, HasTicked-none}
use zhone_engineering_academ.Family.Lines.{
  ParentStep-IsOrderly, ChildStep-IsOrderly, GrandchildStep-IsOrderly,
}

Reach-IsOrderly : {n : ℕ} {s : Family} → Reach n s → IsOrderly s.out s.parent s.child s.grandchild
Reach-IsOrderly Reach.start = record {
  parent_lines = HasTicked-none 30;
  child_lines = refl;
  grandchild_lines = refl;
  told = record { ordered = tt; over = λ e. cc; kept = tt };
  waits = tt;
  made = refl;
}
Reach-IsOrderly (Reach.later {s = s} r (Step.of_parent st)) =
    ParentStep-IsOrderly s.child s.grandchild st (Reach-IsOrderly r)
Reach-IsOrderly (Reach.later {s = s} r (Step.of_child st)) =
    ChildStep-IsOrderly s.parent st (Reach-IsOrderly r)
Reach-IsOrderly (Reach.later {s = s} r (Step.of_grandchild st)) =
    GrandchildStep-IsOrderly s.parent s.child st (Reach-IsOrderly r)

-- In every state each process has printed its own lines in the order of its code, up to where it
-- stands, whatever the others print in between; "parent waited!" stands behind the last line of the
-- child; and the child, which the parent waits for, has never lost its parent when it prints.
pub Reach-lines :
    {n : ℕ} {s : Family}
    → Reach n s
    → ParentHas s.parent (texts parent s.out)
      × ChildHas s.child (texts child s.out)
      × GrandchildHas s.grandchild (texts grandchild s.out)
      × IsOrdered false s.out
      × All HasParent s.out
Reach-lines r =
    let v = Reach-IsOrderly r in
    (v.parent_lines, v.child_lines, v.grandchild_lines, v.told.ordered, v.told.kept)

abbrev parent_left : Pc → ℕ
parent_left (sleeping i) = 60 - i + 10
parent_left waiting = 9
parent_left (sleeping_again i) = 5 - i + 3
parent_left _ = 0

abbrev child_left : Pc → ℕ
child_left forking = 38
child_left (sleeping i) = 5 - i + 1
child_left _ = 0

abbrev grandchild_left : Pc → ℕ
grandchild_left (sleeping i) = 30 - i + 1
grandchild_left _ = 0

abbrev left : Family → ℕ
left s = parent_left s.parent + (child_left s.child + grandchild_left s.grandchild)

ParentStep-left :
    {out out' : List Line} {c p p' : Pc}
    → ParentStep out c p out' p'
    → suc (parent_left p') ≤ parent_left p
ParentStep-left (ParentStep.prints more) = omega arith
ParentStep-left (ParentStep.awakes done) = omega arith
ParentStep-left (ParentStep.reaps is_over) = omega arith
ParentStep-left (ParentStep.prints_again more) = omega arith
ParentStep-left (ParentStep.exits done) = omega arith

ChildStep-left :
    {out : List Line} {p c g : Pc} {out' : List Line} {c' g' : Pc}
    → ChildStep out p c g out' c' g'
    → suc (child_left c' + grandchild_left g') ≤ child_left c + grandchild_left g
ChildStep-left ChildStep.forks = omega arith
ChildStep-left ChildStep.fails_to_fork = omega arith
ChildStep-left (ChildStep.prints more) = omega arith
ChildStep-left (ChildStep.exits done) = omega arith

GrandchildStep-left :
    {out : List Line} {c g : Pc} {out' : List Line} {g' : Pc}
    → GrandchildStep out c g out' g'
    → suc (grandchild_left g') ≤ grandchild_left g
GrandchildStep-left (GrandchildStep.prints more) = omega arith
GrandchildStep-left (GrandchildStep.becomes_echo done) = omega arith

Step-left : {s t : Family} → Step s t → suc (left t) ≤ left s
Step-left (Step.of_parent st) = omega (arith, ParentStep-left st)
Step-left (Step.of_child st) = omega (arith, ChildStep-left st)
Step-left (Step.of_grandchild st) = omega (arith, GrandchildStep-left st)

Reach-left : {n : ℕ} {s : Family} → Reach n s → n + left s ≤ 108
Reach-left Reach.start = omega arith
Reach-left (Reach.later r st) = omega (arith, Reach-left r, Step-left st)

abbrev pub Moves : Family → Type 0
Moves s = (t : Family) × Step s t

parent_moves :
    (out : List Line) (p c : Pc)
    → ParentHas p (texts parent out)
    → ((out' : List Line) × (p' : Pc) × ParentStep out c p out' p')
      ⊎ ((p ≡ gone) ⊎ ((p ≡ waiting) × (is_gone c ≡ false)))
parent_moves out unborn c h = absurd h
parent_moves out forking c h = absurd h
parent_moves out (sleeping i) c h = elim (Bool-cases (ltb i 60)) [
  | inl more ↦ inl (_, _, ParentStep.prints (ltb→lt i 60 more))
  | inr done ↦ let past : 60 ≤ i = ground arith in inl (_, _, ParentStep.awakes past)
]
parent_moves out waiting c h = elim (Bool-cases (is_gone c)) [
  | inl is_over ↦ inl (_, _, ParentStep.reaps is_over)
  | inr alive ↦ inr (inr (refl, alive))
]
parent_moves out (sleeping_again i) c h = elim (Bool-cases (ltb i 5)) [
  | inl more ↦ inl (_, _, ParentStep.prints_again (ltb→lt i 5 more))
  | inr done ↦ let past : 5 ≤ i = ground arith in inl (_, _, ParentStep.exits past)
]
parent_moves out gone c h = inr (inl refl)

child_moves :
    (out : List Line) (p c g : Pc)
    → ChildHas c (texts child out)
    → ((out' : List Line) × (c' : Pc) × (g' : Pc) × ChildStep out p c g out' c' g') ⊎ (c ≡ gone)
child_moves out p unborn g h = absurd h
child_moves out p forking g h = inl (_, _, _, ChildStep.forks)
child_moves out p (sleeping i) g h = elim (Bool-cases (ltb i 5)) [
  | inl more ↦ inl (_, _, _, ChildStep.prints (ltb→lt i 5 more))
  | inr done ↦ let past : 5 ≤ i = ground arith in inl (_, _, _, ChildStep.exits past)
]
child_moves out p waiting g h = absurd h
child_moves out p (sleeping_again i) g h = absurd h
child_moves out p gone g h = inr refl

grandchild_moves :
    (out : List Line) (c g : Pc)
    → GrandchildHas g (texts grandchild out)
    → ((out' : List Line) × (g' : Pc) × GrandchildStep out c g out' g')
      ⊎ ((g ≡ gone) ⊎ (g ≡ unborn))
grandchild_moves out c unborn h = inr (inr refl)
grandchild_moves out c forking h = absurd h
grandchild_moves out c (sleeping i) h = elim (Bool-cases (ltb i 30)) [
  | inl more ↦ inl (_, _, GrandchildStep.prints (ltb→lt i 30 more))
  | inr done ↦ let past : 30 ≤ i = ground arith in inl (_, _, GrandchildStep.becomes_echo past)
]
grandchild_moves out c waiting h = absurd h
grandchild_moves out c (sleeping_again i) h = absurd h
grandchild_moves out c gone h = inr (inl refl)

-- Every run ends after 108 steps at most, since a state that is not the end has a next one: in the
-- end the parent and the child are gone, and so is the grandchild, if the child could make it.
pub Reach-ends :
    {n : ℕ} {s : Family}
    → Reach n s
    → (n ≤ 108)
      × (Moves s
          ⊎ ((s.parent ≡ gone)
              × (s.child ≡ gone)
              × ((s.grandchild ≡ gone) ⊎ (s.grandchild ≡ unborn))))
Reach-ends {n} {s} r =
    let v = Reach-IsOrderly r in
    (
      omega (arith, Reach-left r),
      elim (child_moves s.out s.parent s.child s.grandchild v.child_lines) [
        | inl (_, _, _, st) ↦ inl (_, Step.of_child st)
        | inr child_gone ↦ elim (grandchild_moves s.out s.child s.grandchild v.grandchild_lines) [
          | inl (_, _, st) ↦ inl (_, Step.of_grandchild st)
          | inr grandchild_done ↦ elim (parent_moves s.out s.parent s.child v.parent_lines) [
            | inl (_, _, st) ↦ inl (_, Step.of_parent st)
            | inr (inl parent_gone) ↦ inr (parent_gone, child_gone, grandchild_done)
            | inr (inr (_, alive)) ↦ let dead : is_gone s.child ≡ true = rw child_gone refl in cc
          ]
        ]
      ],
    )
