-- ===== src/SumToN.antt =====
-- section-06/lab/lab_1.c: the sum of the numbers to n, and its printing. An `int` that overflows is
-- undefined in C, and an error here.
pub mod Triangle
mod Examples
use zhone_engineering_academ.Common.{
  ℕ, zero, suc, ◌+◌, ◌^◌, ltb, if◌then◌else◌, ℤ, pos, negsuc, List,
}

pub data Result (A : Type 0) : Type 0 where
  ok : A → Result A
  int_overflow : Result A
  segfault : Result A

abbrev pub int_limit : ℕ
int_limit = 2 ^ 31

-- The loop of `sum_to_n`, with so many rounds left
unfoldable pub sum_loop : (rounds i sum : ℕ) → Result ℕ
sum_loop zero i sum = ok sum
sum_loop (suc k) i sum =
    let rest = sum_loop k (suc i) (sum + i) in
    if ltb (sum + i) int_limit then rest else int_overflow

-- `for (i = 1; i <= num; i++)` has `num` rounds, none for a negative number.
unfoldable pub sum_to_n : ℤ → Result ℕ
unfolding sum_loop
sum_to_n (pos n) = sum_loop n 1 0
sum_to_n (negsuc n) = ok 0

-- `sprintf(buf, …)`: nothing sets the pointer `buf`, so it is NULL.
abbrev pub print_to_null : Result ℕ → Result (List ℕ)
print_to_null (ok sum) = segfault
print_to_null int_overflow = int_overflow
print_to_null segfault = segfault

-- `printSum` on the number that `atoi` finds
unfoldable pub print_sum : ℤ → Result (List ℕ)
unfolding sum_to_n
print_sum num = print_to_null (sum_to_n num)
