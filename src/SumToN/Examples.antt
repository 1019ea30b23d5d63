-- ===== src/SumToN/Examples.antt =====
-- The sum of section-06/lab/lab_1.c at concrete numbers.
use zhone_engineering_academ.Common.{◌+◌, ◌*◌, ◌/◌, ◌≡◌, refl, leb, if◌then◌else◌, pos, negsuc}
use zhone_engineering_academ.SumToN.{ok, int_overflow, sum_to_n}
use zhone_engineering_academ.SumToN.Triangle.{sum_to_n-triangle}

ten : sum_to_n (pos 10) ≡ ok 55
unfolding sum_to_n
ten = refl

sum_to_n-triangle_example :
    (sum_to_n (pos 65536)
      ≡ (if leb 65536 65535 then ok (65536 * (65536 + 1) / 2) else int_overflow))
    × (sum_to_n (negsuc 65536) ≡ ok 0)
sum_to_n-triangle_example = sum_to_n-triangle 65536
