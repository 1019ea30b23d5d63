-- ===== src/DynArray.antt =====
-- section-06/lab/lab_2.c: an array that grows, as one thread alone uses it. The values are the threads' ids, which are not
-- negative; ids and sizes are of `int`, so their sum stays far below what `long` holds. `realloc` is
-- an argument: the block behind the pointer that it returns, `none` for NULL.
pub mod Pushes
mod Examples
use zhone_engineering_academ.Common.{
  ℕ, zero, suc, ◌+◌, ◌*◌, ◌^◌, ◌≤◌, ◌<◌, ◌≡◌, Option, none, some, List, [], ◌∷◌, ◌==◌, ltb,
  if◌then◌else◌, length, get_elem?, set, take,
}

pub record DynArray : Type 0 where
  pub block : List ℕ
  pub size : ℕ
  pub capacity : ℕ

-- What the code may run into: a write or read outside of the block or through NULL, or an `int`
-- that overflows.
pub data Result (A : Type 0) : Type 0 where
  ok : A → Result A
  segfault : Result A
  int_overflow : Result A

infixl 5 ◌>>=◌
abbrev pub ◌>>=◌ : {A B : Type 0} → Result A → (A → Result B) → Result B
ok a >>= k = k a
segfault >>= k = segfault
int_overflow >>= k = int_overflow

abbrev pub Reallocator : Type 0
Reallocator = List ℕ → ℕ → Option (List ℕ)

-- A block that `realloc` returns has the size asked for and keeps the contents of the old one.
pub record Reallocates (realloc : Reallocator) : Type 0 where
  pub length_of :
      (old new : List ℕ) (n : ℕ) → length old ≤ n → realloc old n ≡ some new → length new ≡ n
  pub keeps :
      (old new : List ℕ) (n : ℕ)
      → length old ≤ n
      → realloc old n ≡ some new
      → take (length old) new ≡ old

-- The memory does not run out.
abbrev pub Granted : Reallocator → Type 0
Granted realloc = (old : List ℕ) (n : ℕ) → (new : List ℕ) × (realloc old n ≡ some new)

abbrev pub int_limit : ℕ
int_limit = 2 ^ 31

-- `a->capacity *= 2; a->data = realloc(…);` At NULL the write that follows faults.
unfoldable pub grow : Reallocator → DynArray → Result DynArray
grow realloc a =
    let wanted = a.capacity * 2 in
    if ltb wanted int_limit
    then elim (realloc a.block wanted) [
      | none ↦ segfault
      | some block ↦ ok (record { block = block; size = a.size; capacity = wanted })
    ]
    else int_overflow

-- `a->data[a->size] = value; a->size++;`
unfoldable pub store : DynArray → ℕ → Result DynArray
store a value =
    if ltb a.size (length a.block)
    then ok (record { block = set a.block a.size value; size = suc a.size; capacity = a.capacity })
    else segfault

unfoldable pub arr_push : Reallocator → DynArray → ℕ → Result DynArray
unfolding grow store
arr_push realloc a value = do
  b ← if a.size == a.capacity then grow realloc a else ok a
  store b value

-- `worker` with a loop of `rounds` rounds, when no other thread uses the array.
unfoldable pub worker : Reallocator → (id rounds : ℕ) → DynArray → Result DynArray
worker realloc id zero a = ok a
worker realloc id (suc k) a = do b ← arr_push realloc a id; worker realloc id k b

-- The loop of `main` over the elements, from index `i` with so many rounds left.
unfoldable pub sum_loop : DynArray → (rounds i sum : ℕ) → Result ℕ
sum_loop a zero i sum = ok sum
sum_loop a (suc k) i sum = elim (get_elem? a.block i) [
  | none ↦ segfault
  | some v ↦ sum_loop a k (suc i) (sum + v)
]

-- `arr` before the threads are created, with the block that `malloc` returns.
abbrev pub init : List ℕ → DynArray
init block = record { block = block; size = 0; capacity = 4 }
