-- ===== src/Family/Orderly.antt =====
-- What holds in every state of section-03/lab/lab_1.c.
use zhone_engineering_academ.Common.{
  ℕ, suc, ◌+◌, ◌*◌, ◌≤◌, ◌<◌, ◌≡◌, ap, sym, ◌∙◌, true, false, List, [], ◌∷◌, ◌++◌, arith,
}
use zhone_engineering_academ.Family.{
  parent, child, grandchild, Line, Pc, unborn, forking, sleeping_again, gone, is_gone,
}
use zhone_engineering_academ.Family.Prints.{
  Text, time, texts, evens, evens-suc, evens-zero, HasTicked, ParentHas, ChildHas, GrandchildHas,
  is_last, is_waited, over_after, IsOrdered, HasParent, All, All-append, over_after-append,
  IsOrdered-append,
}

-- The parent is behind its `waitpid` only if the child is gone.
abbrev pub Waits : Pc → Pc → Type 0
Waits (sleeping_again i) c = is_gone c ≡ true
Waits gone c = is_gone c ≡ true
Waits _ c = Unit {0}

-- Before the child's `fork` there is no grandchild.
abbrev pub Made : Pc → Pc → Type 0
Made forking g = g ≡ unborn
Made _ g = Unit {0}

pub record IsTold (out : List Line) (c : Pc) : Type 0 where
  pub ordered : IsOrdered false out
  pub over : is_gone c ≡ true → over_after false out ≡ true
  pub kept : All HasParent out

pub record IsOrderly (out : List Line) (p c g : Pc) : Type 0 where
  pub parent_lines : ParentHas p (texts parent out)
  pub child_lines : ChildHas c (texts child out)
  pub grandchild_lines : GrandchildHas g (texts grandchild out)
  pub told : IsTold out c
  pub waits : Waits p c
  pub made : Made c g

pub HasTicked-next :
    (rounds i : ℕ) (lines : List Text)
    → i < 2 * rounds
    → HasTicked rounds i lines
    → HasTicked rounds (i + 2) (lines ++ time i ∷ [])
HasTicked-next rounds i lines more (k, at, few, same) =
    (suc k, omega (arith, at), omega (arith, at), rw (same, at) (sym (evens-suc k)))

pub HasTicked-all :
    (rounds i : ℕ) (lines : List Text)
    → 2 * rounds ≤ i + 1
    → HasTicked rounds i lines
    → lines ≡ evens rounds
HasTicked-all rounds i lines done (k, at, few, same) =
    let all : k ≡ rounds = omega (arith, at) in same ∙ ap evens all

pub HasTicked-none : (rounds : ℕ) → HasTicked rounds 0 []
HasTicked-none rounds = (0, omega arith, omega arith, sym evens-zero)

-- One more line.
pub IsTold-append :
    (out : List Line) (c : Pc) (l : Line)
    → IsTold out c
    → (is_waited l ≡ true → over_after false out ≡ true)
    → HasParent l
    → IsTold (out ++ l ∷ []) c
IsTold-append out c l t late mine = record {
  ordered = IsOrdered-append false out l t.ordered late;
  over = λ is_over. over_after-append false out l ∙ rw (t.over is_over);
  kept = All-append HasParent out l t.kept mine;
}

-- The child's last line.
pub IsTold-last :
    (out : List Line) (c : Pc) (l : Line)
    → IsTold out c
    → is_last l ≡ true
    → is_waited l ≡ false
    → HasParent l
    → IsTold (out ++ l ∷ []) gone
IsTold-last out c l t last other mine = record {
  ordered = IsOrdered-append false out l t.ordered (λ e. cc);
  over = λ _. over_after-append false out l ∙ rw last (ground arith);
  kept = All-append HasParent out l t.kept mine;
}
