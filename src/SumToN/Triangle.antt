-- ===== src/SumToN/Triangle.antt =====
-- The sum of section-06/lab/lab_1.c against its closed form.
use zhone_engineering_academ.Common.{
  ℕ, zero, suc, ◌+◌, ◌*◌, ◌/◌, ◌≤◌, ◌<◌, ◌≡◌, refl, arith, true, false, leb, if◌then◌else◌, ℤ, pos,
  negsuc, ap, ◌⊎◌, inl, inr, dec_lt, lt→ltb,
}
use zhone_engineering_academ.SumToN.{
  ok, int_overflow, segfault, int_limit, sum_loop, sum_to_n, print_sum, Result, print_to_null,
}

-- 1 + … + n
unfoldable pub triangle : ℕ → ℕ
triangle zero = 0
triangle (suc n) = triangle n + suc n

triangle_lem : (n : ℕ) → triangle n + triangle n ≡ n * (n + 1)
unfolding triangle
triangle_lem zero = refl
triangle_lem (suc n) = grind (arith, triangle_lem n)

triangle_eq : (n m : ℕ) → n ≡ m → triangle n ≤ triangle m
triangle_eq n m e = rw e (omega arith)

triangle_mono : (n m : ℕ) → n ≤ m → triangle n ≤ triangle m
unfolding triangle
triangle_mono n zero h = triangle_eq n 0 (omega arith)
triangle_mono n (suc m) h = elim (dec_lt n (suc m)) [
  | yes lt ↦ omega (arith, triangle_mono n m (omega arith))
  | no ge ↦ triangle_eq n (suc m) (omega arith)
]

-- After `i` rounds the sum is that of the first `i` numbers.
sum_loop-triangle :
    (k i n : ℕ)
    → n ≡ i + k
    → triangle n < int_limit
    → sum_loop k (suc i) (triangle i) ≡ ok (triangle n)
unfolding sum_loop triangle
sum_loop-triangle zero i n e small = ap (λ m. ok (triangle m)) (omega arith)
sum_loop-triangle (suc k) i n e small =
    let le = triangle_mono (suc i) n (omega arith) in
    rw (lt→ltb (triangle i + suc i) int_limit (omega arith))
      (sum_loop-triangle k (suc i) n (omega arith) small)

sum_loop-int_overflow :
    (k i n : ℕ)
    → n ≡ i + k
    → triangle i < int_limit
    → int_limit ≤ triangle n
    → sum_loop k (suc i) (triangle i) ≡ int_overflow
unfolding sum_loop triangle
sum_loop-int_overflow zero i n e small big = absurd (omega (arith, triangle_eq n i (omega arith)))
sum_loop-int_overflow (suc k) i n e small big = elim (dec_lt (triangle i + suc i) int_limit) [
  | yes lt ↦
      rw (lt→ltb (triangle i + suc i) int_limit lt)
        (sum_loop-int_overflow k (suc i) n (omega arith) lt big)
  | no ge ↦ ground arith
]

-- The loop from its start
sum_loop-ok : (n : ℕ) → triangle n < int_limit → sum_loop n 1 0 ≡ ok (triangle n)
unfolding triangle
sum_loop-ok n small = sum_loop-triangle n 0 n (omega arith) small

sum_loop-too_large : (n : ℕ) → int_limit ≤ triangle n → sum_loop n 1 0 ≡ int_overflow
unfolding triangle
sum_loop-too_large n big = sum_loop-int_overflow n 0 n (omega arith) (omega arith) big

-- `sum_to_n` returns n (n + 1) / 2 for 0 ≤ n ≤ 65535, overflows for every larger n, and returns 0
-- for a negative one.
pub sum_to_n-triangle :
    (n : ℕ)
    → (sum_to_n (pos n) ≡ (if leb n 65535 then ok (n * (n + 1) / 2) else int_overflow))
      × (sum_to_n (negsuc n) ≡ ok 0)
unfolding sum_to_n
sum_to_n-triangle n = (
  elim (dec_lt n 65536) [
    | yes few ↦
        let le = triangle_mono n 65535 (omega arith) in
        let small : triangle n < int_limit = omega (arith, triangle_lem 65535) in
        let test : leb n 65535 ≡ true = ground arith in
        rw (sum_loop-ok n small, test) (ap ok (omega (arith, triangle_lem n)))
    | no many ↦
        let le = triangle_mono 65536 n (omega arith) in
        let big : int_limit ≤ triangle n = omega (arith, triangle_lem 65536) in
        let test : leb n 65535 ≡ false = ground arith in rw (sum_loop-too_large n big, test)
  ],
  refl,
)

print_to_null-faults :
    (r : Result ℕ) → (print_to_null r ≡ segfault) ⊎ (print_to_null r ≡ int_overflow)
print_to_null-faults (ok sum) = inl refl
print_to_null-faults int_overflow = inr refl
print_to_null-faults segfault = inl refl

-- Whatever number is read, `printSum` prints nothing: the sum overflows or goes to NULL.
pub print_sum-faults : (num : ℤ) → (print_sum num ≡ segfault) ⊎ (print_sum num ≡ int_overflow)
unfolding print_sum
print_sum-faults num = print_to_null-faults (sum_to_n num)
