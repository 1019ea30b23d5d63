-- ===== src/DynArray/Pushes.antt =====
-- The array of section-06/lab/lab_2.c against the list of what was pushed.
use zhone_engineering_academ.Common.{
  ℕ, zero, suc, ◌+◌, ◌*◌, ◌^◌, ◌≤◌, ◌<◌, ◌≡◌, some, List, [], ◌∷◌, ◌==◌, ◌++◌, arith, refl, length,
  get_elem?, set, take, replicate, length-set, Bool-cases, inl, inr, ap, sym, drop, ==_iff,
  get_elem?-some, lt→ltb, ◌∙◌,
}
use mathlib.Core.List.{append_assoc, append-nil}
use zhone_engineering_academ.DynArray.{
  DynArray, Result, ok, Reallocator, Reallocates, Granted, int_limit, grow, store, arr_push, worker,
  sum_loop, init, ◌>>=◌,
}

-- What was pushed
abbrev pub contents : DynArray → List ℕ
contents a = take a.size a.block

pub record IsValid (a : DynArray) : Type 0 where
  pub block_size : length a.block ≡ a.capacity
  pub within : a.size ≤ a.capacity
  pub not_empty : 0 < a.capacity
  pub no_waste : a.capacity ≤ 2 * a.size + 4

-- The run ends well, with a value of which `P` holds.
pub data Returns {A : Type 0} (P : A → Type 0) : Result A → Type 0 where
  returns : {a : A} → P a → Returns P (ok a)

Returns-bind :
    {A B : Type 0} {P : A → Type 0} {Q : B → Type 0} {m : Result A} {k : A → Result B}
    → Returns P m
    → ((a : A) → P a → Returns Q (k a))
    → Returns Q (m >>= k)
Returns-bind (returns {a} p) next = next a p

Returns-ok : {A : Type 0} {P : A → Type 0} {m : Result A} → Returns P m → (a : A) × (m ≡ ok a) × P a
Returns-ok (returns {a} p) = (a, refl, p)

Returns-mono :
    {A : Type 0} {P Q : A → Type 0} {m : Result A}
    → Returns P m
    → ((a : A) → P a → Q a)
    → Returns Q m
Returns-mono (returns {a} p) next = returns (next a p)

take-set :
    (n : ℕ) (xs : List ℕ) (v : ℕ) → n < length xs → take (suc n) (set xs n v) ≡ take n xs ++ v ∷ []
take-set n [] v h = absurd (omega arith)
take-set zero (x ∷ xs) v h = refl
take-set (suc n) (x ∷ xs) v h = ap (λ t. x ∷ t) (take-set n xs v (omega arith))

take-take : (n m : ℕ) (xs : List ℕ) → n ≤ m → take n (take m xs) ≡ take n xs
take-take zero m xs h = refl
take-take (suc n) zero xs h = absurd (omega arith)
take-take (suc n) (suc m) [] h = refl
take-take (suc n) (suc m) (x ∷ xs) h = ap (λ t. x ∷ t) (take-take n m xs (omega arith))

abbrev Pushed : DynArray → ℕ → DynArray → Type 0
Pushed a value b = IsValid b × (contents b ≡ contents a ++ value ∷ []) × (b.size ≡ suc a.size)

store-Pushed :
    (a : DynArray) (value : ℕ)
    → IsValid a
    → a.size < a.capacity
    → Returns (Pushed a value) (store a value)
unfolding store
store-Pushed a value v room = rw (lt→ltb a.size (length a.block) (omega arith)) (
    returns (
      record {
        block_size = length-set a.block a.size value ∙ v.block_size;
        within = room;
        not_empty = v.not_empty;
        no_waste = omega arith;
      },
      take-set a.size a.block value (omega arith),
      refl,
    ))

module _ (realloc : Reallocator) (law : Reallocates realloc) (granted : Granted realloc) where
  grow-IsValid :
      (a : DynArray)
      → IsValid a
      → a.size ≡ a.capacity
      → a.capacity * 2 < int_limit
      → Returns
          (λ b. IsValid b × (contents b ≡ contents a) × (b.size ≡ a.size) × (b.size < b.capacity))
          (grow realloc a)
  unfolding grow
  grow-IsValid a v full small =
      let (new, e) = granted a.block (a.capacity * 2) in
      let same = law.keeps a.block new (a.capacity * 2) (omega arith) e in
      rw (lt→ltb (a.capacity * 2) int_limit small, e)
        (returns (
          record {
            block_size = law.length_of a.block new (a.capacity * 2) (omega arith) e;
            within = omega arith;
            not_empty = omega arith;
            no_waste = omega arith;
          },
          sym (take-take a.size (length a.block) new (omega arith))
              ∙ ap (λ xs. take a.size xs) same,
          refl,
          omega arith,
        ))

  -- A push puts the value behind the others and keeps the array valid.
  arr_push-Pushed :
      (a : DynArray) (value : ℕ)
      → IsValid a
      → a.size < 2 ^ 30
      → Returns (Pushed a value) (arr_push realloc a value)
  unfolding arr_push
  arr_push-Pushed a value v small = elim (Bool-cases (a.size == a.capacity)) [
    | inl full ↦
        let e : a.size ≡ a.capacity = (==_iff _ _).0 full in
        rw full (
          Returns-bind (grow-IsValid a v e (omega arith)) λ b (w, same, n, room).
            Returns-mono (store-Pushed b value w room)
              λ c (x, cs, m). (x, cs ∙ ap (λ xs. xs ++ value ∷ []) same, m ∙ ap suc n))
    | inr free ↦ rw free (store-Pushed a value v (ground arith))
  ]

  worker-append :
      (id rounds : ℕ) (a : DynArray)
      → IsValid a
      → a.size + rounds ≤ 2 ^ 30
      → Returns
          (λ b.
            IsValid b
            × (contents b ≡ contents a ++ replicate rounds id)
            × (b.size ≡ a.size + rounds))
          (worker realloc id rounds a)
  unfolding worker
  worker-append id zero a v small = returns (v, sym (append-nil _), omega arith)
  worker-append id (suc k) a v small =
      Returns-bind (arr_push-Pushed a id v (omega arith)) λ b (w, cs, m).
        Returns-mono (worker-append id k b w (omega arith))
          λ c (x, ds, n). (x, rw (ds, cs, append_assoc), omega arith)

drop-get_elem? :
    (i : ℕ) (xs : List ℕ) {v : ℕ} → get_elem? xs i ≡ some v → drop i xs ≡ v ∷ drop (suc i) xs
drop-get_elem? i [] e = cc
drop-get_elem? zero (x ∷ xs) e = ground arith
drop-get_elem? (suc i) (x ∷ xs) e = drop-get_elem? i xs e

abbrev pub total : List ℕ → ℕ
total [] = 0
total (x ∷ xs) = x + total xs

sum_loop-total :
    (a : DynArray) (rounds i sum : ℕ)
    → i + rounds ≤ length a.block
    → sum_loop a rounds i sum ≡ ok (sum + total (take rounds (drop i a.block)))
unfolding sum_loop
sum_loop-total a zero i sum h = ap ok (omega arith)
sum_loop-total a (suc k) i sum h =
    let (v, e) = get_elem?-some a.block i (omega arith) in
    rw (e, sum_loop)
      (rw (drop-get_elem? i a.block e, sum_loop-total a k (suc i) (sum + v) (omega arith))
        (ap ok (omega arith)))

pub init-IsValid : (block : List ℕ) → length block ≡ 4 → IsValid (init block)
init-IsValid block four = record {
  block_size = four;
  within = omega arith;
  not_empty = omega arith;
  no_waste = omega arith;
}

-- A thread that has the array to itself, valid and with no more than 2 ^ 30 values in the end, and
-- whose calls of `realloc` succeed: `worker` runs to its end with no write outside of the block,
-- which has then at most twice as many places as there are values, and four; the array holds what it
-- held before and behind it the thread's id, once for each round; and `main`'s loop finds the sum of
-- those values.
pub worker-total :
    (realloc : Reallocator)
    → Reallocates realloc
    → Granted realloc
    → (a : DynArray) (id rounds : ℕ) → IsValid a
    → a.size + rounds ≤ 2 ^ 30
    → (b : DynArray) × (worker realloc id rounds a ≡ ok b)
      × IsValid b
      × (contents b ≡ contents a ++ replicate rounds id)
      × (sum_loop b b.size 0 0 ≡ ok (total (contents a ++ replicate rounds id)))
worker-total realloc law granted a id rounds v small =
    let (b, e, (w, cs, n)) = Returns-ok (worker-append realloc law granted id rounds a v small) in
    (
      b,
      e,
      w,
      cs,
      sum_loop-total b b.size 0 0 (omega (arith, w.block_size, w.within))
          ∙ ap ok (omega (arith, ap total cs)),
    )
