-- ===== src/Pipe/Result.antt =====
-- How pipe.c and pipe_2.c end.
use zhone_engineering_academ.Common.{
  ℕ, ◌+◌, ◌≤◌, Bool, true, false, ◌||◌, List, [], ◌∷◌, ◌≡◌, refl, ◌⊎◌, inl, inr, arith, Bool-cases,
}
use zhone_engineering_academ.Pipe.{
  Program, pipe, pipe_2, Writing, Reading, opened, writing, written, exited, Parent, Child, forked,
  reading, finished, returned, Pipe, ParentStep, ChildStep, Step, Reach,
}
use zhone_engineering_academ.Pipe.Orderly.{hello_line, IsOrderly, Holds-end}
use zhone_engineering_academ.Pipe.Ends.{Reach-IsOrderly}

abbrev ParentMoves : Bool → List ℕ → Parent → Type 0
ParentMoves heard queue p = (queue' : List ℕ) × (p' : Parent) × ParentStep heard queue p queue' p'

parent_moves :
    (heard : Bool) (queue : List ℕ) (w : Writing) (r wr : Bool)
    → (w ≡ exited) ⊎ ParentMoves heard queue (record { at = w; read_end = r; write_end = wr })
parent_moves heard queue opened r wr = inr (_, _, ParentStep.closes_read)
parent_moves heard queue writing r wr = elim (Bool-cases (r || heard)) [
  | inl hears ↦ inr (_, _, ParentStep.writes hears)
  | inr deaf ↦ inr (_, _, ParentStep.is_killed deaf)
]
parent_moves heard queue written r wr = inr (_, _, ParentStep.closes_write)
parent_moves heard queue exited r wr = inl refl

abbrev ChildMoves : Program → Bool → List ℕ → List (List ℕ) → Child → Type 0
ChildMoves program held queue out c =
    (queue' : List ℕ) × (out' : List (List ℕ)) × (c' : Child) × ChildStep program held queue out c
      queue' out' c'

-- The child moves, is at its end, or waits for bytes while a write end is open.
child_moves :
    (program : Program) (held : Bool) (queue : List ℕ) (out : List (List ℕ)) (at : Reading)
    (r w : Bool) (b : List ℕ)
    → ChildMoves program held queue out
        (record { at = at; read_end = r; write_end = w; buffer = b })
      ⊎ ((at ≡ returned) ⊎ ((at ≡ reading) × (queue ≡ []) × ((held || w) ≡ true)))
child_moves program held queue out forked r w b = inl (_, _, _, ChildStep.starts)
child_moves program held (_ ∷ _) out reading r w b = inl (_, _, _, ChildStep.reads)
child_moves program held [] out reading r w b = elim (Bool-cases (held || w)) [
  | inl waits ↦ inr (inr (refl, refl, waits))
  | inr ends ↦ inl (_, _, _, ChildStep.reads_end ends)
]
child_moves program held queue out finished r w b = inl (_, _, _, ChildStep.returns)
child_moves program held queue out returned r w b = inr (inl refl)

abbrev pub Moves : Program → Pipe → Type 0
Moves program s = (t : Pipe) × Step program s t

-- Where no process moves, the parent is at its end, and the child too or waiting.
stops :
    (program : Program) (s : Pipe)
    → Moves program s
      ⊎ ((s.parent.at ≡ exited)
          × ((s.child.at ≡ returned)
              ⊎ ((s.child.at ≡ reading)
                  × (s.queue ≡ [])
                  × ((s.parent.write_end || s.child.write_end) ≡ true))))
stops program s =
    let c = s.child in
    let p = s.parent in
    elim (parent_moves c.read_end s.queue p.at p.read_end p.write_end) [
      | inr (_, _, st) ↦ inl (_, Step.parent st)
      | inl e ↦
          elim (child_moves program p.write_end s.queue s.out c.at c.read_end c.write_end
            c.buffer) [ inl (_, _, _, st) ↦ inl (_, Step.child st) | inr still ↦ inr (e, still) ]
    ]

all_closed :
    (s : Pipe)
    → IsOrderly pipe s.queue s.out s.parent s.child
    → s.parent.at ≡ exited
    → s.child.at ≡ reading
    → (s.parent.write_end || s.child.write_end) ≡ false
all_closed s v gone in_loop =
    let left : s.parent.write_end ≡ false = rw gone at v.parent_write in
    let right : s.child.write_end ≡ false = rw in_loop at v.child_write in rw (left, right) refl

-- Every run of pipe.c ends after seven steps at most, since a state that is not the end has
-- a next one: in the end both processes have returned and the child has printed the message once.
pub pipe-ends :
    (stack : List ℕ) {n : ℕ} {s : Pipe}
    → Reach pipe stack n s
    → (n ≤ 7)
      × (Moves pipe s
          ⊎ ((s.parent.at ≡ exited) × (s.child.at ≡ returned) × (s.out ≡ hello_line ∷ [])))
pipe-ends stack {n} {s} r =
    let (v, e) = Reach-IsOrderly stack r in
    (
      omega (arith, e),
      elim (stops pipe s) [
        | inl moves ↦ inl moves
        | inr (gone, inl over) ↦
            let (_, _, _, printed) = rw over at v.late in inr (gone, over, printed)
        | inr (gone, inr (in_loop, _, waits)) ↦ let shut = all_closed s v gone in_loop in cc
      ],
    )

-- In pipe_2.c the child never gets out of its loop, since it keeps a write end of its own: every run
-- stops after five steps at most, with the message printed and the child waiting for more.
pub pipe_2-hangs :
    (stack : List ℕ) {n : ℕ} {s : Pipe}
    → Reach pipe_2 stack n s
    → (n ≤ 5)
      × (Moves pipe_2 s
          ⊎ ((s.parent.at ≡ exited)
              × (s.child.at ≡ reading)
              × (s.out ≡ hello_line ∷ [])
              × ((t : Pipe) → Step pipe_2 s t → ⊥)))
pipe_2-hangs stack {n} {s} r =
    let (v, e) = Reach-IsOrderly stack r in
    (
      omega (arith, e),
      elim (stops pipe_2 s) [
        | inl moves ↦ inl moves
        | inr (gone, inl over) ↦ let (other, _, _, _) = rw over at v.late in cc
        | inr (gone, inr (in_loop, empty, _)) ↦
            let (_, printed) = Holds-end s.parent.at (rw gone refl) (rw empty at v.holds) in
            inr (
              gone,
              in_loop,
              printed,
              λ t st.
                  let (_, e') = Reach-IsOrderly stack (Reach.later r st) in
                  let last : n + (0 + 0) ≡ 5 + 0 = rw (gone, in_loop, printed) at e in
                  omega (arith, e', last),
            )
      ],
    )
