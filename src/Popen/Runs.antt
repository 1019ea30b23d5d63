-- ===== src/Popen/Runs.antt =====
-- A run of section-05/lab/pipe/popen.c.
use zhone_engineering_academ.Common.{ℕ, suc, ◌≡◌, refl, pos, some, List, length}
use zhone_engineering_academ.CText.{codes}
use zhone_engineering_academ.CText.Lines.{flatten, AreLines}
use zhone_engineering_academ.Popen.{buffer_size, main}
use zhone_engineering_academ.Popen.Copy.{main-copies}

abbrev listing : List ℕ
listing = codes "total 8\n-rw-r--r-- 1 me me 4096 notes\n"

main-copies_example :
    (lines : List (List ℕ)) × (main (suc (length listing)) (some listing)
      ≡ some (record { printed = lines; code = pos 0 }))
    × (flatten lines ≡ listing)
    × AreLines buffer_size lines
main-copies_example = main-copies listing refl
