-- ===== src/Pipe/Ends.antt =====
-- The system calls of pipe.c and pipe_2.c keep what holds, and each is one step less to go.
use zhone_engineering_academ.Common.{ℕ, ◌+◌, true, false, not, List, ◌∷◌, ◌≡◌, refl, inl, arith}
use zhone_engineering_academ.Pipe.{
  Program, closes, Parent, Child, Pipe, ParentStep, ChildStep, Step, Reach,
}
use zhone_engineering_academ.Pipe.Orderly.{
  has_write, IsOrderly, parent_left, last_steps, child_left, IsLate-still, listening, Holds-read,
  after_read, only_pipe, Holds-end,
}

ParentStep-IsOrderly :
    (program : Program) {queue queue' : List ℕ} {out : List (List ℕ)} {p p' : Parent} {c : Child}
    → ParentStep c.read_end queue p queue' p'
    → IsOrderly program queue out p c
    → IsOrderly program queue' out p' c × (1 + parent_left p'.at ≡ parent_left p.at)
ParentStep-IsOrderly program {c = c} ParentStep.closes_read v = (
  record {
    parent_read = refl;
    parent_write = v.parent_write;
    child_read = v.child_read;
    child_write = v.child_write;
    holds = v.holds;
    late = IsLate-still program _ _ _ _ c.at (λ e. cc) v.late;
  },
  refl,
)
ParentStep-IsOrderly program {c = c} (ParentStep.writes heard) v = (
  record {
    parent_read = v.parent_read;
    parent_write = v.parent_write;
    child_read = v.child_read;
    child_write = v.child_write;
    holds = inl (rw (v.holds.0) refl, v.holds.1);
    late = IsLate-still program _ _ _ _ c.at (λ e. cc) v.late;
  },
  refl,
)
ParentStep-IsOrderly program {c = c} (ParentStep.is_killed unheard) v =
    let heard : c.read_end ≡ true = rw v.child_read (listening program _ _ c.at (λ e. cc) v.late) in
    absurd (ground (arith, heard, unheard))
ParentStep-IsOrderly program {c = c} ParentStep.closes_write v = (
  record {
    parent_read = refl;
    parent_write = refl;
    child_read = v.child_read;
    child_write = v.child_write;
    holds = v.holds;
    late = IsLate-still program _ _ _ _ c.at (λ e. cc) v.late;
  },
  refl,
)

ChildStep-IsOrderly :
    (program : Program) {queue : List ℕ} {out : List (List ℕ)} {c : Child} {queue' : List ℕ}
    {out' : List (List ℕ)} {c' : Child} {p : Parent}
    → ChildStep program p.write_end queue out c queue' out' c'
    → IsOrderly program queue out p c
    → IsOrderly program queue' out' p c'
      × (1 + child_left program out' c'.at ≡ child_left program out c.at)
ChildStep-IsOrderly program ChildStep.starts v = (
  record {
    parent_read = v.parent_read;
    parent_write = v.parent_write;
    child_read = v.child_read;
    child_write = ground (arith, v.child_write);
    holds = v.holds;
    late = tt;
  },
  rw v.late (omega arith),
)
ChildStep-IsOrderly program {p = p} (ChildStep.reads {byte} {bytes} {b = b}) v =
    let (full, o, h) = Holds-read p.at v.holds in
    let (empty, text) = after_read b (byte ∷ bytes) full in
    rw (o, empty, text)
      (
        record {
          parent_read = v.parent_read;
          parent_write = v.parent_write;
          child_read = v.child_read;
          child_write = v.child_write;
          holds = h;
          late = tt;
        },
        refl,
      )
ChildStep-IsOrderly program {p = p} (ChildStep.reads_end {w = w} shut) v =
    let kept : not (closes program) ≡ false = ground (arith, shut, v.child_write) in
    let gone : has_write p.at ≡ false = ground (arith, shut, v.parent_write) in
    let (only, two) = only_pipe program kept in
    let (e, o) = Holds-end p.at gone v.holds in
    (
      record {
        parent_read = v.parent_read;
        parent_write = v.parent_write;
        child_read = v.child_read;
        child_write = v.child_write;
        holds = v.holds;
        late = (only, e, refl, o);
      },
      rw (o, two) refl,
    )
ChildStep-IsOrderly program ChildStep.returns v = (
  record {
    parent_read = v.parent_read;
    parent_write = v.parent_write;
    child_read = refl;
    child_write = refl;
    holds = v.holds;
    late = v.late;
  },
  refl,
)

pub Reach-IsOrderly :
    {program : Program} (stack : List ℕ) {n : ℕ} {s : Pipe}
    → Reach program stack n s
    → IsOrderly program s.queue s.out s.parent s.child
      × (n + (parent_left s.parent.at + child_left program s.out s.child.at)
          ≡ 5 + last_steps program)
Reach-IsOrderly stack Reach.start = (
  record {
    parent_read = refl;
    parent_write = refl;
    child_read = refl;
    child_write = refl;
    holds = (refl, refl);
    late = refl;
  },
  omega arith,
)
Reach-IsOrderly {program} stack (Reach.later r (Step.parent st)) =
    let (v, e) = Reach-IsOrderly stack r in
    let (v', e') = ParentStep-IsOrderly program st v in (v', omega (arith, e, e'))
Reach-IsOrderly {program} stack (Reach.later r (Step.child st)) =
    let (v, e) = Reach-IsOrderly stack r in
    let (v', e') = ChildStep-IsOrderly program st v in (v', omega (arith, e, e'))
