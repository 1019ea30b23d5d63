-- ===== src/DynArray/Examples.antt =====
-- The array of section-06/lab/lab_2.c with a `realloc` that fills what is new with 7.
use zhone_engineering_academ.Common.{
  ℕ, ◌-◌, ◌≡◌, ◌≤◌, refl, none, some, List, [], ◌∷◌, ◌++◌, length, replicate, take, arith,
  length-append, length-replicate, ap, sym, ◌∙◌,
}
use mathlib.Core.Option.{some-injective}
use zhone_engineering_academ.DynArray.{
  ok, DynArray, Reallocator, Reallocates, worker, sum_loop, init, arr_push, segfault,
}
use zhone_engineering_academ.DynArray.Pushes.{total, contents, IsValid, init-IsValid, worker-total}

abbrev filling : Reallocator
filling old n = some (old ++ replicate (n - length old) 7)

take-append_self : (xs ys : List ℕ) → take (length xs) (xs ++ ys) ≡ xs
take-append_self [] ys = refl
take-append_self (x ∷ xs) ys = ap (λ t. x ∷ t) (take-append_self xs ys)

length-filling :
    (old : List ℕ) (n : ℕ) → length old ≤ n → length (old ++ replicate (n - length old) 7) ≡ n
length-filling old n h = omega (
  arith,
  length-append old (replicate (n - length old) 7),
  length-replicate {A = ℕ} (n - length old) 7,
)

filling-Reallocates : Reallocates filling
filling-Reallocates = record {
  length_of = λ old new n h e. sym (ap length (some-injective _ _ e)) ∙ length-filling old n h;
  keeps = λ old new n h e. rw (← some-injective _ _ e) (take-append_self old _);
}

abbrev block : List ℕ
block = 5 ∷ 5 ∷ 5 ∷ 5 ∷ []

-- The thread with id 1 pushes five times, and the array grows once.
grown :
    worker filling 1 5 (init block)
    ≡ ok (record { block = 1 ∷ 1 ∷ 1 ∷ 1 ∷ 1 ∷ 7 ∷ 7 ∷ 7 ∷ []; size = 5; capacity = 8 })
unfolding worker arr_push
grown = refl

-- At NULL the array cannot grow.
no_memory :
    arr_push (λ old n. none) (record { block = 1 ∷ 2 ∷ []; size = 2; capacity = 2 }) 3 ≡ segfault
unfolding arr_push
no_memory = refl

worker-total_example :
    (b : DynArray) × (worker filling 1 5 (init block) ≡ ok b)
    × IsValid b
    × (contents b ≡ [] ++ replicate 5 1)
    × (sum_loop b b.size 0 0 ≡ ok (total ([] ++ replicate 5 1)))
worker-total_example =
    worker-total filling filling-Reallocates (λ old n. (_, refl)) (init block) 1 5
      (init-IsValid block refl) (omega arith)
