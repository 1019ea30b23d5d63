-- ===== src/CText/Lines.antt =====
-- The pieces that `fgets(buf, size, f)` makes of a stream: up to a newline, which is kept, or
-- `size - 1` bytes.
use zhone_engineering_academ.Common.{
  ℕ, zero, suc, ◌-◌, ◌<◌, ◌≤◌, ◌≡◌, refl, ap, false, List, [], ◌∷◌, ◌++◌, arith, if◌then◌else◌,
  ◌==◌, Option, some, none, length, drop, Bool-cases, inl, inr, length-drop, ◌∙◌,
}
use mathlib.Core.Option
use zhone_engineering_academ.CText.{has_byte}
use zhone_engineering_academ.CText.Memory.{has_byte-drop}

unfoldable pub first_line : (room : ℕ) → List ℕ → List ℕ
first_line zero bs = []
first_line (suc k) [] = []
first_line (suc k) (b ∷ bs) = let rest = first_line k bs in b ∷ (if b == 10 then [] else rest)

-- `none` at the end of the stream, else the line and what is left of the stream.
abbrev pub fgets : (size : ℕ) → List ℕ → Option (List ℕ × List ℕ)
fgets size [] = none
fgets size (b ∷ bs) =
    let line = first_line (size - 1) (b ∷ bs) in some (line, drop (length line) (b ∷ bs))

pub first_line-append-drop :
    (room : ℕ) (bs : List ℕ) → first_line room bs ++ drop (length (first_line room bs)) bs ≡ bs
unfolding first_line
first_line-append-drop zero bs = refl
first_line-append-drop (suc k) [] = refl
first_line-append-drop (suc k) (b ∷ bs) = elim (Bool-cases (b == 10)) [
  | inl newline ↦ rw newline refl
  | inr other ↦ rw other (ap (λ t. b ∷ t) (first_line-append-drop k bs))
]

pub length-first_line_le : (room : ℕ) (bs : List ℕ) → length (first_line room bs) ≤ room
unfolding first_line
length-first_line_le zero bs = omega arith
length-first_line_le (suc k) [] = omega arith
length-first_line_le (suc k) (b ∷ bs) = elim (Bool-cases (b == 10)) [
  | inl newline ↦ rw newline (omega arith)
  | inr other ↦ rw other (omega (arith, length-first_line_le k bs))
]

pub first_line-nonempty :
    (room b : ℕ) (bs : List ℕ) → 0 < room → 0 < length (first_line room (b ∷ bs))
unfolding first_line
first_line-nonempty zero b bs h = omega arith
first_line-nonempty (suc k) b bs h = omega arith

pub first_line-no_nul :
    (room : ℕ) (bs : List ℕ) → has_byte 0 bs ≡ false → has_byte 0 (first_line room bs) ≡ false
unfolding first_line
first_line-no_nul zero bs h = refl
first_line-no_nul (suc k) [] h = refl
first_line-no_nul (suc k) (b ∷ bs) h = ground (arith, first_line-no_nul k bs)

-- What a loop on `fgets` finds in a stream; `none` when there is not enough fuel.
unfoldable pub pieces : (fuel size : ℕ) → List ℕ → Option (List (List ℕ))
pieces zero size stream = none
pieces (suc fuel) size stream = elim (fgets size stream) [
  | none ↦ some []
  | some (line, rest) ↦ Option.map (λ lines. line ∷ lines) (pieces fuel size rest)
]

-- Lines as `fgets` reads them into `size` bytes, with no zero in them
abbrev pub AreLines : (size : ℕ) → List (List ℕ) → Type 0
AreLines size [] = Unit {0}
AreLines size (l ∷ ls) =
    (has_byte 0 l ≡ false) × (0 < length l) × (length l < size) × AreLines size ls

-- The pieces one behind the other
abbrev pub flatten : List (List ℕ) → List ℕ
flatten [] = []
flatten (l ∷ ls) = l ++ flatten ls

-- With a buffer of two bytes at least the loop ends, and its pieces are the stream.
pub pieces-flatten :
    (fuel size : ℕ) (stream : List ℕ)
    → 1 < size
    → has_byte 0 stream ≡ false
    → length stream < fuel
    → (lines : List (List ℕ)) × (pieces fuel size stream ≡ some lines)
      × (flatten lines ≡ stream)
      × AreLines size lines
unfolding pieces
pieces-flatten zero size stream room text enough = absurd (omega arith)
pieces-flatten (suc fuel) size [] room text enough = ([], refl, refl, tt)
pieces-flatten (suc fuel) size (b ∷ bs) room text enough =
    let line = first_line (size - 1) (b ∷ bs) in
    let some_byte = first_line-nonempty (size - 1) b bs (omega arith) in
    let fewer : length (drop (length line) (b ∷ bs)) < fuel =
      omega (arith, length-drop (length line) (b ∷ bs)) in
    let (lines, run, all, fit) =
      pieces-flatten fuel size (drop (length line) (b ∷ bs)) room
        (has_byte-drop (length line) 0 (b ∷ bs) text) fewer in
    (
      line ∷ lines,
      rw run refl,
      ap (λ t. line ++ t) all ∙ first_line-append-drop (size - 1) (b ∷ bs),
      (
        first_line-no_nul (size - 1) (b ∷ bs) text,
        some_byte,
        omega (arith, length-first_line_le (size - 1) (b ∷ bs)),
        fit,
      ),
    )
