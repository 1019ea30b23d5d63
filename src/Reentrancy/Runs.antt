-- ===== src/Reentrancy/Runs.antt =====
-- A text of section-04/lab/lab_3.c: Alice's thread says that it is Bob.
use zhone_engineering_academ.Common.{ℕ, List, [], ◌∷◌}
use zhone_engineering_academ.CText.{codes}

abbrev alice : List ℕ
alice = codes "Alice"

abbrev bob : List ℕ
bob = codes "Bob"

abbrev mixed_lines : List (List ℕ)
mixed_lines = codes "[Alice thread] Hi, I'm Bob\n" ∷ codes "[Bob thread] Hi, I'm Bob\n" ∷ []
