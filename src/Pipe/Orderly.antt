-- ===== src/Pipe/Orderly.antt =====
-- What holds in every state of pipe.c and pipe_2.c, and how many steps are left.
use zhone_engineering_academ.Common.{
  take, drop, ℕ, ◌+◌, Bool, true, false, not, List, [], ◌∷◌, ◌≡◌, refl, ◌⊎◌, inl, inr,
}
use zhone_engineering_academ.CText.{codes, overwrite}
use zhone_engineering_academ.Pipe.{
  Program, pipe, pipe_2, closes, Writing, Reading, opened, writing, written, exited, Parent, Child,
  forked, reading, finished, returned, message, received, buffer_size,
}

abbrev pub hello_line : List ℕ
hello_line = codes "Received from parent: Hello, child!\n"

abbrev pub has_read : Writing → Bool
has_read opened = true
has_read _ = false

abbrev pub has_write : Writing → Bool
has_write exited = false
has_write _ = true

-- The child's write end is open, by where it stands.
abbrev pub keeps : Program → Reading → Bool
keeps program forked = true
keeps program returned = false
keeps program _ = not (closes program)

abbrev pub listens : Reading → Bool
listens returned = false
listens _ = true

-- The message is in the pipe or has been printed, once the parent has written it.
abbrev pub Holds : Writing → List ℕ → List (List ℕ) → Type 0
Holds opened queue out = (queue ≡ []) × (out ≡ [])
Holds writing queue out = (queue ≡ []) × (out ≡ [])
Holds _ queue out = ((queue ≡ message) × (out ≡ [])) ⊎ ((queue ≡ []) × (out ≡ hello_line ∷ []))

-- A child behind its loop was let out by the end of the parent, in pipe.c.
abbrev pub IsLate : Program → Writing → List ℕ → List (List ℕ) → Reading → Type 0
IsLate program w queue out forked = out ≡ []
IsLate program w queue out reading = Unit
IsLate program w queue out _ =
    (program ≡ pipe) × (w ≡ exited) × (queue ≡ []) × (out ≡ hello_line ∷ [])

pub record IsOrderly (program : Program) (queue : List ℕ) (out : List (List ℕ)) (p : Parent)
    (c : Child) : Type 0 where
  pub parent_read : p.read_end ≡ has_read p.at
  pub parent_write : p.write_end ≡ has_write p.at
  pub child_read : c.read_end ≡ listens c.at
  pub child_write : c.write_end ≡ keeps program c.at
  pub holds : Holds p.at queue out
  pub late : IsLate program p.at queue out c.at

-- What the two have left to do. In pipe_2.c the child's last steps never come.
abbrev pub parent_left : Writing → ℕ
parent_left opened = 3
parent_left writing = 2
parent_left written = 1
parent_left exited = 0

abbrev pub last_steps : Program → ℕ
last_steps pipe = 2
last_steps pipe_2 = 0

abbrev pub child_left : Program → List (List ℕ) → Reading → ℕ
child_left program out forked = 2 + last_steps program
child_left program [] reading = 1 + last_steps program
child_left program (_ ∷ _) reading = last_steps program
child_left program out finished = 1
child_left program out returned = 0

pub IsLate-still :
    (program : Program) {w : Writing} (w' : Writing) (queue queue' : List ℕ) (out : List (List ℕ))
    (r : Reading)
    → ((w ≡ exited) → ⊥)
    → IsLate program w queue out r
    → IsLate program w' queue' out r
IsLate-still program w' q q' out forked on l = l
IsLate-still program w' q q' out reading on l = tt
IsLate-still program w' q q' out finished on (_, e, _, _) = absurd (on e)
IsLate-still program w' q q' out returned on (_, e, _, _) = absurd (on e)

pub listening :
    (program : Program) {w : Writing} (queue : List ℕ) (out : List (List ℕ)) (r : Reading)
    → ((w ≡ exited) → ⊥)
    → IsLate program w queue out r
    → listens r ≡ true
listening program q out forked on l = refl
listening program q out reading on l = refl
listening program q out finished on l = refl
listening program q out returned on (_, e, _, _) = absurd (on e)

pub Holds-read :
    (w : Writing) {byte : ℕ} {bytes : List ℕ} {out : List (List ℕ)}
    → Holds w (byte ∷ bytes) out
    → (byte ∷ bytes ≡ message) × (out ≡ []) × Holds w [] (hello_line ∷ [])
Holds-read opened (e, _) = cc
Holds-read writing (e, _) = cc
Holds-read written (inl (e, o)) = (e, o, inr (refl, refl))
Holds-read written (inr (e, _)) = cc
Holds-read exited (inl (e, o)) = (e, o, inr (refl, refl))
Holds-read exited (inr (e, _)) = cc

pub after_read :
    (b queue : List ℕ)
    → queue ≡ message
    → (drop buffer_size queue ≡ []) × (received (overwrite b (take buffer_size queue)) ≡ hello_line)
after_read b queue e = rw e (refl, refl)

pub only_pipe :
    (program : Program) → not (closes program) ≡ false → (program ≡ pipe) × (last_steps program ≡ 2)
only_pipe pipe e = (refl, refl)
only_pipe pipe_2 e = cc

pub Holds-end :
    (w : Writing) {out : List (List ℕ)}
    → has_write w ≡ false
    → Holds w [] out
    → (w ≡ exited) × (out ≡ hello_line ∷ [])
Holds-end opened e h = cc
Holds-end writing e h = cc
Holds-end written e h = cc
Holds-end exited e (inl (e', _)) = cc
Holds-end exited e (inr (_, o)) = (refl, o)
