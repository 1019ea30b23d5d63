-- ===== src/Family/Lines.antt =====
-- Every step of section-03/lab/lab_1.c keeps what its processes have printed in order.
use zhone_engineering_academ.Common.{
  ℕ, ◌+◌, ◌≡◌, refl, subst, ap, sym, ◌∙◌, false, List, [], ◌∷◌, ◌++◌, inl, inr, arith,
}
use mathlib.Core.List.{append_assoc}
use zhone_engineering_academ.Family.{
  parent, child, grandchild, Line, tick, waited, exiting, bye, fork_error, Pc, unborn, forking,
  sleeping, waiting, sleeping_again, gone, is_gone, ParentStep, ChildStep, GrandchildStep,
}
use zhone_engineering_academ.Family.Prints.{
  time, has_waited, leaves, echoes, texts, texts-append, evens, HasTicked, GrandchildHas,
}
use zhone_engineering_academ.Family.Orderly.{
  Waits, Made, IsTold, IsOrderly, HasTicked-next, HasTicked-all, HasTicked-none, IsTold-append,
  IsTold-last,
}

pub ParentStep-IsOrderly :
    {out out' : List Line} {p p' : Pc} (c g : Pc)
    → ParentStep out c p out' p'
    → IsOrderly out p c g
    → IsOrderly out' p' c g
ParentStep-IsOrderly {out} c g (ParentStep.prints {i} more) v = record {
  parent_lines =
      rw (texts-append parent out (tick parent i false))
        (HasTicked-next 30 i _ more v.parent_lines);
  child_lines = rw (texts-append child out (tick parent i false)) v.child_lines;
  grandchild_lines = rw (texts-append grandchild out (tick parent i false)) v.grandchild_lines;
  told = IsTold-append out c (tick parent i false) v.told (λ e. cc) tt;
  waits = tt;
  made = v.made;
}
ParentStep-IsOrderly c g (ParentStep.awakes {i} done) v = record {
  parent_lines = HasTicked-all 30 i _ (omega arith) v.parent_lines;
  child_lines = v.child_lines;
  grandchild_lines = v.grandchild_lines;
  told = v.told;
  waits = tt;
  made = v.made;
}
ParentStep-IsOrderly {out} c g (ParentStep.reaps is_over) v = record {
  parent_lines =
      rw (texts-append parent out waited)
        ([], ap (λ t. t ++ has_waited ∷ []) v.parent_lines, HasTicked-none 3);
  child_lines = rw (texts-append child out waited) v.child_lines;
  grandchild_lines = rw (texts-append grandchild out waited) v.grandchild_lines;
  told = IsTold-append out c waited v.told (λ _. v.told.over is_over) tt;
  waits = is_over;
  made = v.made;
}
ParentStep-IsOrderly {out} c g (ParentStep.prints_again {i} more) v =
    let (again, same, ticked) = v.parent_lines in
    record {
      parent_lines = rw (texts-append parent out (tick parent i false)) (
        again ++ time i ∷ [],
        ap (λ t. t ++ time i ∷ []) same ∙ append_assoc (evens 30) (has_waited ∷ again) _,
        HasTicked-next 3 i again (omega arith) ticked,
      );
      child_lines = rw (texts-append child out (tick parent i false)) v.child_lines;
      grandchild_lines = rw (texts-append grandchild out (tick parent i false)) v.grandchild_lines;
      told = IsTold-append out c (tick parent i false) v.told (λ e. cc) tt;
      waits = v.waits;
      made = v.made;
    }
ParentStep-IsOrderly {out} c g (ParentStep.exits {i} done) v =
    let (again, same, ticked) = v.parent_lines in
    let all = HasTicked-all 3 i again (omega arith) ticked in
    record {
      parent_lines = rw (texts-append parent out (exiting parent)) (
          ap (λ t. t ++ leaves ∷ []) (same ∙ ap (λ a. evens 30 ++ has_waited ∷ a) all)
          ∙ append_assoc (evens 30) (has_waited ∷ evens 3) _);
      child_lines = rw (texts-append child out (exiting parent)) v.child_lines;
      grandchild_lines = rw (texts-append grandchild out (exiting parent)) v.grandchild_lines;
      told = IsTold-append out c (exiting parent) v.told (λ e. cc) tt;
      waits = v.waits;
      made = v.made;
    }

-- While the child is there, the parent is not behind its `waitpid`.
parent_there : (p c : Pc) → Waits p c → is_gone c ≡ false → is_gone p ≡ false
parent_there unborn c w here = refl
parent_there forking c w here = refl
parent_there (sleeping i) c w here = refl
parent_there waiting c w here = refl
parent_there (sleeping_again i) c w here = refl
parent_there gone c w here = cc

Waits-still : (p c c' : Pc) → Waits p c → is_gone c ≡ false → Waits p c'
Waits-still unborn c c' w here = tt
Waits-still forking c c' w here = tt
Waits-still (sleeping i) c c' w here = tt
Waits-still waiting c c' w here = tt
Waits-still (sleeping_again i) c c' w here = cc
Waits-still gone c c' w here = cc

IsTold-alive : (out : List Line) (c c' : Pc) → IsTold out c → is_gone c' ≡ false → IsTold out c'
IsTold-alive out c c' t alive = record { ordered = t.ordered; over = λ e. cc; kept = t.kept }

pub ChildStep-IsOrderly :
    {out : List Line} {c g : Pc} {out' : List Line} {c' g' : Pc} (p : Pc)
    → ChildStep out p c g out' c' g'
    → IsOrderly out p c g
    → IsOrderly out' p c' g'
ChildStep-IsOrderly {out} {c} {g} p ChildStep.forks v = record {
  parent_lines = v.parent_lines;
  child_lines = rw v.child_lines (HasTicked-none 3);
  grandchild_lines =
      subst (λ g. GrandchildHas g (texts grandchild out) → HasTicked 15 0 (texts grandchild out))
        (sym v.made) (λ none. rw none (HasTicked-none 15)) v.grandchild_lines;
  told = IsTold-alive out forking (sleeping 0) v.told refl;
  waits = Waits-still p forking (sleeping 0) v.waits refl;
  made = tt;
}
ChildStep-IsOrderly {out} {c} {g} p ChildStep.fails_to_fork v = record {
  parent_lines = rw (texts-append parent out (fork_error child)) v.parent_lines;
  child_lines = rw (texts-append child out (fork_error child), v.child_lines) (inr refl);
  grandchild_lines = rw (texts-append grandchild out (fork_error child)) v.grandchild_lines;
  told = IsTold-last out forking (fork_error child) v.told refl refl tt;
  waits = Waits-still p forking gone v.waits refl;
  made = tt;
}
ChildStep-IsOrderly {out} {c} {g} p (ChildStep.prints {i} more) v =
    let there = parent_there p (sleeping i) v.waits refl in
    let l : Line = tick child i (is_gone p) in
    record {
      parent_lines = rw (texts-append parent out l) v.parent_lines;
      child_lines =
          rw (texts-append child out l) (HasTicked-next 3 i _ (omega arith) v.child_lines);
      grandchild_lines = rw (texts-append grandchild out l) v.grandchild_lines;
      told =
          IsTold-alive _ (sleeping i) (sleeping (i + 2))
            (IsTold-append out (sleeping i) l v.told (λ e. cc) there) refl;
      waits = Waits-still p (sleeping i) (sleeping (i + 2)) v.waits refl;
      made = tt;
    }
ChildStep-IsOrderly {out} {c} {g} p (ChildStep.exits {i} done) v =
    let l : Line = exiting child in
    record {
      parent_lines = rw (texts-append parent out l) v.parent_lines;
      child_lines =
          rw (texts-append child out l)
            (inl (ap (λ t. t ++ leaves ∷ []) (HasTicked-all 3 i _ (omega arith) v.child_lines)));
      grandchild_lines = rw (texts-append grandchild out l) v.grandchild_lines;
      told = IsTold-last out (sleeping i) l v.told refl refl tt;
      waits = Waits-still p (sleeping i) gone v.waits refl;
      made = tt;
    }

-- A grandchild that is there has been made.
made_still : (c : Pc) (i : ℕ) (g' : Pc) → Made c (sleeping i) → Made c g'
made_still unborn j g' m = tt
made_still forking j g' m = cc
made_still (sleeping k) j g' m = tt
made_still waiting j g' m = tt
made_still (sleeping_again k) j g' m = tt
made_still gone j g' m = tt

pub GrandchildStep-IsOrderly :
    {out : List Line} {g : Pc} {out' : List Line} {g' : Pc} (p c : Pc)
    → GrandchildStep out c g out' g'
    → IsOrderly out p c g
    → IsOrderly out' p c g'
GrandchildStep-IsOrderly {out} p c (GrandchildStep.prints {i} more) v =
    let l : Line = tick grandchild i (is_gone c) in
    record {
      parent_lines = rw (texts-append parent out l) v.parent_lines;
      child_lines = rw (texts-append child out l) v.child_lines;
      grandchild_lines =
          rw (texts-append grandchild out l) (HasTicked-next 15 i _ more v.grandchild_lines);
      told = IsTold-append out c l v.told (λ e. cc) tt;
      waits = v.waits;
      made = made_still c i _ v.made;
    }
GrandchildStep-IsOrderly {out} p c (GrandchildStep.becomes_echo {i} done) v = record {
  parent_lines = rw (texts-append parent out bye) v.parent_lines;
  child_lines = rw (texts-append child out bye) v.child_lines;
  grandchild_lines =
      rw (texts-append grandchild out bye)
        (ap (λ t. t ++ echoes ∷ []) (HasTicked-all 15 i _ (omega arith) v.grandchild_lines));
  told = IsTold-append out c bye v.told (λ e. cc) tt;
  waits = v.waits;
  made = made_still c i _ v.made;
}
