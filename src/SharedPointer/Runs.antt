-- ===== src/SharedPointer/Runs.antt =====
-- Runs of section-05/lab/shared_mem, with the segment at the same address and at different ones.
use zhone_engineering_academ.Common.{ℕ, ◌↔◌, ◌≡◌, refl, some, none, ◌↔◌}
use zhone_engineering_academ.SharedPointer.{address, deref, secret, writer_stores, show, read_back}
use zhone_engineering_academ.SharedPointer.Bases.{read_back-follows}

same_test :
    read_back 0x7000 0x7000 ≡ record { target = secret; p = 0x7190; dereferenced = some secret }
unfolding read_back show writer_stores deref
same_test = refl

above_test : read_back 0x7000 0x8000 ≡ record { target = secret; p = 0x7190; dereferenced = none }
unfolding read_back show writer_stores deref
above_test = refl

abbrev here : ℕ
here = 0x7000

abbrev there : ℕ
there = 0x8000

read_back-follows_example :
    ((read_back here there).target ≡ secret)
    × ((read_back here there).p ≡ address here 50)
    × (((read_back here there).dereferenced ≡ some secret) ↔ (here ≡ there))
read_back-follows_example = read_back-follows here there refl
