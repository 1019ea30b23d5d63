-- ===== src/Family/Runs.antt =====
-- A run of section-03/lab/lab_1.c: the grandchild prints between its parents.
use zhone_engineering_academ.Common.{◌≤◌, ◌≡◌, false, [], ◌∷◌, ◌⊎◌, arith}
use zhone_engineering_academ.Family.{
  parent, child, grandchild, tick, unborn, sleeping, gone, Family, ParentStep, ChildStep,
  GrandchildStep, Step, Reach,
}
use zhone_engineering_academ.Family.Prints.{
  texts, ParentHas, ChildHas, GrandchildHas, IsOrdered, HasParent, All,
}
use zhone_engineering_academ.Family.Ends.{Reach-lines, Moves, Reach-ends}

abbrev early : Family
early = record {
  out =
      tick parent 0 false
      ∷ tick grandchild 0 false
      ∷ tick child 0 false
      ∷ tick grandchild 2 false
      ∷ [];
  parent = sleeping 2;
  child = sleeping 2;
  grandchild = sleeping 4;
}

early-Reach : Reach 5 early
early-Reach =
    let a = Reach.later Reach.start (Step.of_parent (ParentStep.prints (omega arith))) in
    let b = Reach.later a (Step.of_child ChildStep.forks) in
    let c = Reach.later b (Step.of_grandchild (GrandchildStep.prints (omega arith))) in
    let d = Reach.later c (Step.of_child (ChildStep.prints (omega arith))) in
    Reach.later d (Step.of_grandchild (GrandchildStep.prints (omega arith)))

Reach-lines_example :
    ParentHas (sleeping 2) (texts parent early.out)
    × ChildHas (sleeping 2) (texts child early.out)
    × GrandchildHas (sleeping 4) (texts grandchild early.out)
    × IsOrdered false early.out
    × All HasParent early.out
Reach-lines_example = Reach-lines early-Reach

Reach-ends_example :
    (5 ≤ 108)
    × (Moves early
        ⊎ ((early.parent ≡ gone)
            × (early.child ≡ gone)
            × ((early.grandchild ≡ gone) ⊎ (early.grandchild ≡ unborn))))
Reach-ends_example = Reach-ends early-Reach
