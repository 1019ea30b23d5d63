-- ===== src/Popen/Copy.antt =====
-- What section-05/lab/pipe/popen.c prints.
use zhone_engineering_academ.Common.{
  ℕ, zero, suc, pos, ◌-◌, ◌≡◌, refl, ◌∙◌, false, some, List, [], ◌∷◌, arith, length, drop,
  Option-cases, inl, inr,
}
use zhone_engineering_academ.CText.{has_byte}
use zhone_engineering_academ.CText.Memory.{has_byte-drop, c_string_self}
use zhone_engineering_academ.CText.Lines.{
  first_line, first_line-no_nul, pieces, AreLines, flatten, pieces-flatten,
}
use mathlib.Core.Option
use zhone_engineering_academ.Popen.{buffer_size, copy, main}

copy-pieces :
    (fuel : ℕ) (stream : List ℕ)
    → has_byte 0 stream ≡ false
    → copy fuel stream
      ≡ Option.map
          (λ lines. record { printed = lines; code = pos 0 })
          (pieces fuel buffer_size stream)
unfolding copy pieces
copy-pieces zero stream text = refl
copy-pieces (suc fuel) [] text = refl
copy-pieces (suc fuel) (b ∷ bs) text =
    let line = first_line (buffer_size - 1) (b ∷ bs) in
    let rest = drop (length line) (b ∷ bs) in
    rw
      (
        c_string_self line (first_line-no_nul (buffer_size - 1) (b ∷ bs) text),
        copy-pieces fuel rest (has_byte-drop (length line) 0 (b ∷ bs) text),
      )
      (elim (Option-cases (pieces fuel buffer_size rest)) [
        | inl running ↦ rw running refl
        | inr (lines, ends) ↦ rw ends refl
      ])

-- The program ends, and prints exactly the bytes of the stream, in pieces that fit its buffer with
-- their zero, when the stream has no zero. The fuel is one more than the stream has bytes.
pub main-copies :
    (stream : List ℕ)
    → has_byte 0 stream ≡ false
    → (lines : List (List ℕ)) × (main (suc (length stream)) (some stream)
        ≡ some (record { printed = lines; code = pos 0 }))
      × (flatten lines ≡ stream)
      × AreLines buffer_size lines
main-copies stream text =
    let (lines, ends, all, fit) =
      pieces-flatten (suc (length stream)) buffer_size stream (omega arith) text (omega arith) in
    (lines, copy-pieces (suc (length stream)) stream text ∙ rw ends refl, all, fit)
