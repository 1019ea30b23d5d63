-- ===== src/Popen.antt =====
-- section-05/lab/pipe/popen.c: a program that prints the output of `ls -l`, piece by piece. What
-- `popen` returns is an argument, a stream as the bytes it will give. The loop is on fuel.
pub mod Copy
mod Runs
use zhone_engineering_academ.Common.{
  ℕ, zero, suc, ℤ, pos, minus_one, Option, some, none, List, [], ◌∷◌,
}
use zhone_engineering_academ.CText.{c_string}
use zhone_engineering_academ.CText.Lines.{fgets}

abbrev pub buffer_size : ℕ
buffer_size = 254

-- What a run prints, and the code it returns.
pub record Run : Type 0 where
  pub printed : List (List ℕ)
  pub code : ℤ

abbrev pub prints_first : List ℕ → Option Run → Option Run
prints_first text none = none
prints_first text (some run) = some (record run { printed = text ∷ run.printed })

-- The `while` loop and what follows it; `none` while it still runs.
unfoldable pub copy : (fuel : ℕ) → List ℕ → Option Run
copy zero stream = none
copy (suc fuel) stream = elim (fgets buffer_size stream) [
  | none ↦ some (record { printed = []; code = pos 0 })
  | some (buffer, rest) ↦ prints_first (c_string buffer) (copy fuel rest)
]

abbrev pub main : (fuel : ℕ) → (fp : Option (List ℕ)) → Option Run
main fuel none = some (record { printed = []; code = minus_one })
main fuel (some stream) = copy fuel stream
