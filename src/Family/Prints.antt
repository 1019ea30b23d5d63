-- ===== src/Family/Prints.antt =====
-- What each process of section-03/lab/lab_1.c has printed, by where it stands, and in what order.
use zhone_engineering_academ.Common.{
  ℕ, zero, suc, ◌*◌, ◌≤◌, ◌≡◌, refl, Bool, true, false, ◌||◌, List, [], ◌∷◌, ◌++◌, if◌then◌else◌,
  ◌⊎◌, arith,
}
use zhone_engineering_academ.Family.{
  Process, parent, child, grandchild, Line, tick, waited, exiting, bye, fork_error, Pc, unborn,
  forking, sleeping, waiting, sleeping_again, gone,
}

-- The lines of a process, without what `getppid` gave.
pub data Text : Type 0 where
  time : ℕ → Text
  has_waited : Text
  leaves : Text
  echoes : Text
  cannot_fork : Text

abbrev pub writer : Line → Process
writer (tick who i o) = who
writer waited = parent
writer (exiting who) = who
writer bye = grandchild
writer (fork_error who) = who

abbrev pub text : Line → Text
text (tick who i o) = time i
text waited = has_waited
text (exiting who) = leaves
text bye = echoes
text (fork_error who) = cannot_fork

abbrev pub same : Process → Process → Bool
same parent parent = true
same child child = true
same grandchild grandchild = true
same parent child = false
same parent grandchild = false
same child parent = false
same child grandchild = false
same grandchild parent = false
same grandchild child = false

abbrev pub texts : Process → List Line → List Text
texts who [] = []
texts who (l ∷ rest) = if same who (writer l) then text l ∷ texts who rest else texts who rest

pub texts-append :
    (who : Process) (xs : List Line) (l : Line)
    → texts who (xs ++ l ∷ [])
      ≡ (if same who (writer l) then texts who xs ++ text l ∷ [] else texts who xs)
texts-append who [] l = ground arith
texts-append who (x ∷ xs) l = ground (arith, texts-append who xs l)

-- The times 0, 2, …, so many of them.
pub evens : ℕ → List Text
evens zero = []
evens (suc k) = evens k ++ time (2 * k) ∷ []

pub evens-suc : (k : ℕ) → evens (suc k) ≡ evens k ++ time (2 * k) ∷ []
unfolding evens
evens-suc k = refl

pub evens-zero : evens 0 ≡ []
unfolding evens
evens-zero = refl

-- `sleep_with_print` is at `i`, of at most `rounds` rounds, and these are its lines.
abbrev pub HasTicked : (rounds i : ℕ) → List Text → Type 0
HasTicked rounds i lines = (k : ℕ) × (i ≡ 2 * k) × (k ≤ rounds) × (lines ≡ evens k)

abbrev pub ParentHas : Pc → List Text → Type 0
ParentHas unborn lines = ⊥
ParentHas forking lines = ⊥
ParentHas (sleeping i) lines = HasTicked 30 i lines
ParentHas waiting lines = lines ≡ evens 30
ParentHas (sleeping_again i) lines =
    (again : List Text) × (lines ≡ evens 30 ++ has_waited ∷ again) × HasTicked 3 i again
ParentHas gone lines = lines ≡ evens 30 ++ has_waited ∷ (evens 3 ++ leaves ∷ [])

abbrev pub ChildHas : Pc → List Text → Type 0
ChildHas unborn lines = ⊥
ChildHas forking lines = lines ≡ []
ChildHas (sleeping i) lines = HasTicked 3 i lines
ChildHas waiting lines = ⊥
ChildHas (sleeping_again i) lines = ⊥
ChildHas gone lines = (lines ≡ evens 3 ++ leaves ∷ []) ⊎ (lines ≡ cannot_fork ∷ [])

abbrev pub GrandchildHas : Pc → List Text → Type 0
GrandchildHas unborn lines = lines ≡ []
GrandchildHas forking lines = ⊥
GrandchildHas (sleeping i) lines = HasTicked 15 i lines
GrandchildHas waiting lines = ⊥
GrandchildHas (sleeping_again i) lines = ⊥
GrandchildHas gone lines = lines ≡ evens 15 ++ echoes ∷ []

abbrev pub is_last : Line → Bool
is_last (exiting child) = true
is_last (fork_error child) = true
is_last _ = false

abbrev pub is_waited : Line → Bool
is_waited waited = true
is_waited _ = false

abbrev pub over_after : Bool → List Line → Bool
over_after over [] = over
over_after over (l ∷ ls) = over_after (over || is_last l) ls

-- The parent's "parent waited!" stands behind the last line of the child.
abbrev pub IsOrdered : (over : Bool) → List Line → Type 0
IsOrdered over [] = Unit {0}
IsOrdered over (l ∷ ls) = (is_waited l ≡ true → over ≡ true) × IsOrdered (over || is_last l) ls

-- The child has its parent whenever it prints.
abbrev pub HasParent : Line → Type 0
HasParent (tick child i orphan) = orphan ≡ false
HasParent _ = Unit {0}

abbrev pub All : (Line → Type 0) → List Line → Type 0
All P [] = Unit {0}
All P (l ∷ ls) = P l × All P ls

pub All-append :
    (P : Line → Type 0) (ls : List Line) (l : Line) → All P ls → P l → All P (ls ++ l ∷ [])
All-append P [] l h p = (p, tt)
All-append P (x ∷ ls) l h p = (h.0, All-append P ls l h.1 p)

pub over_after-append :
    (over : Bool) (ls : List Line) (l : Line)
    → over_after over (ls ++ l ∷ []) ≡ (over_after over ls || is_last l)
over_after-append over [] l = refl
over_after-append over (x ∷ ls) l = over_after-append (over || is_last x) ls l

pub IsOrdered-append :
    (over : Bool) (ls : List Line) (l : Line)
    → IsOrdered over ls
    → (is_waited l ≡ true → over_after over ls ≡ true)
    → IsOrdered over (ls ++ l ∷ [])
IsOrdered-append over [] l h p = (p, tt)
IsOrdered-append over (x ∷ ls) l h p = (h.0, IsOrdered-append (over || is_last x) ls l h.1 p)
