-- ===== src/Chat/Slots.antt =====
-- The descriptors in the array of clients: which are in use, and that no two slots share one.
use zhone_engineering_academ.Common.{
  ℕ, zero, suc, ◌≡◌, refl, ap, Bool, true, false, ◌||◌, Option, none, some, List, [], ◌∷◌, ℤ,
  is_neg, ◌==ℤ◌, ==ℤ_iff, arith, Bool-cases, Option-cases, inl, inr, set, get_elem?, ◌⊎◌,
}
use zhone_engineering_academ.Chat.Types.{Client}
use zhone_engineering_academ.Chat.Client.{free_slot}

abbrev pub fds : List Client → List ℤ
fds [] = []
fds (c ∷ cs) = c.fd ∷ fds cs

abbrev pub has_fd : ℤ → List ℤ → Bool
has_fd f [] = false
has_fd f (g ∷ gs) = g ==ℤ f || has_fd f gs

-- `f` may be put beside `fs`: a negative number is not in use.
abbrev pub IsFresh : ℤ → List ℤ → Type 0
IsFresh f fs = is_neg f ≡ false → has_fd f fs ≡ false

abbrev pub AreDistinct : List ℤ → Type 0
AreDistinct [] = Unit
AreDistinct (f ∷ fs) = IsFresh f fs × AreDistinct fs

pub fds-set : (cs : List Client) (i : ℕ) (c : Client) → fds (set cs i c) ≡ set (fds cs) i c.fd
fds-set [] i c = refl
fds-set (x ∷ cs) zero c = refl
fds-set (x ∷ cs) (suc i) c = ap (λ r. x.fd ∷ r) (fds-set cs i c)

pub get_elem?-fds :
    (cs : List Client) (i : ℕ) {c : Client}
    → get_elem? cs i ≡ some c
    → get_elem? (fds cs) i ≡ some c.fd
get_elem?-fds [] i e = cc
get_elem?-fds (x ∷ cs) zero e = cc
get_elem?-fds (x ∷ cs) (suc i) e = get_elem?-fds cs i e

pub set_self {ℓ} :
    {A : Type ℓ} (xs : List A) (i : ℕ) {x : A} → get_elem? xs i ≡ some x → set xs i x ≡ xs
set_self [] i e = refl
set_self (y ∷ xs) zero e = cc
set_self (y ∷ xs) (suc i) e = ap (λ r. y ∷ r) (set_self xs i e)

-- A client that keeps its descriptor leaves the descriptors as they are.
pub fds-set_self :
    (cs : List Client) (i : ℕ) {c : Client} (c' : Client)
    → get_elem? cs i ≡ some c
    → c'.fd ≡ c.fd
    → fds (set cs i c') ≡ fds cs
fds-set_self cs i c' e same = rw (fds-set, same, set_self _ _ (get_elem?-fds cs i e))

pub has_fd_of_get_elem? :
    (fs : List ℤ) (i : ℕ) {f : ℤ} → get_elem? fs i ≡ some f → has_fd f fs ≡ true
has_fd_of_get_elem? [] i e = cc
has_fd_of_get_elem? (g ∷ fs) zero {f} e = ground (arith, ==ℤ_iff g f)
has_fd_of_get_elem? (g ∷ fs) (suc i) e = ground (arith, has_fd_of_get_elem? fs i e)

pub has_fd-set :
    (fs : List ℤ) (i : ℕ) (f g : ℤ)
    → has_fd g fs ≡ false
    → (f ==ℤ g) ≡ false
    → has_fd g (set fs i f) ≡ false
has_fd-set [] i f g out ne = refl
has_fd-set (h ∷ fs) zero f g out ne = ground arith
has_fd-set (h ∷ fs) (suc i) f g out ne = ground (arith, has_fd-set fs i f g)

ne_of_out : (fs : List ℤ) (f g : ℤ) → has_fd f (g ∷ fs) ≡ false → (f ==ℤ g) ≡ false
ne_of_out fs f g out = ground (arith, ==ℤ_iff f g, ==ℤ_iff g f)

pub neg_ne : (f g : ℤ) → is_neg f ≡ true → is_neg g ≡ false → (f ==ℤ g) ≡ false
neg_ne f g p q = ground arith

pub AreDistinct-set :
    (fs : List ℤ) (i : ℕ) (f : ℤ) → AreDistinct fs → IsFresh f fs → AreDistinct (set fs i f)
AreDistinct-set [] i f d new = tt
AreDistinct-set (g ∷ fs) zero f d new = (λ p. ground (arith, new p), d.1)
AreDistinct-set (g ∷ fs) (suc i) f d new = (
  λ p. has_fd-set fs i f g (d.0 p) (apart p),
  AreDistinct-set fs i f d.1 (λ p. ground (arith, new p)),
)
  where
    apart : is_neg g ≡ false → (f ==ℤ g) ≡ false
    apart p = elim (Bool-cases (is_neg f)) [
      | inl q ↦ neg_ne f g q p
      | inr q ↦ ne_of_out fs f g (new q)
    ]

-- The slot that a search finds is free.
pub free_slot_lem :
    (cs : List Client) (i : ℕ)
    → free_slot cs ≡ some i
    → (c : Client) × (get_elem? cs i ≡ some c) × (is_neg c.fd ≡ true)
unfolding free_slot
free_slot_lem [] i e = cc
free_slot_lem (x ∷ cs) i e = elim (Bool-cases (is_neg x.fd)) [
  | inl free ↦ let at_head : zero ≡ i = ground arith in rw (← at_head) (x, refl, free)
  | inr used ↦ elim (Option-cases (free_slot cs)) [
    | inl full ↦ ground arith
    | inr (j, found) ↦
        let at_tail : suc j ≡ i = ground arith in rw (← at_tail) (free_slot_lem cs j found)
  ]
]

-- No slot is free only if all are in use.
pub free_slot-none :
    (cs : List Client) (i : ℕ) {c : Client}
    → free_slot cs ≡ none
    → get_elem? cs i ≡ some c
    → is_neg c.fd ≡ false
unfolding free_slot
free_slot-none [] i e h = cc
free_slot-none (x ∷ cs) zero e h = ground arith
free_slot-none (x ∷ cs) (suc i) e h = free_slot-none cs i (full (free_slot cs) refl) h
  where
    full : (o : Option ℕ) → free_slot cs ≡ o → free_slot cs ≡ none
    full none q = q
    full (some j) q = ground arith

-- No descriptor is free, a free slot being one with a negative number.
abbrev pub AreTaken : List ℤ → Type 0
AreTaken [] = Unit
AreTaken (f ∷ fs) = (is_neg f ≡ false) × AreTaken fs

-- Slot `i` is free, and all slots before it are taken.
abbrev pub IsFirstFree : ℕ → List ℤ → Type 0
IsFirstFree i [] = ⊥
IsFirstFree zero (f ∷ fs) = is_neg f ≡ true
IsFirstFree (suc i) (f ∷ fs) = (is_neg f ≡ false) × IsFirstFree i fs

pub free_slot-search :
    (cs : List Client)
    → ((free_slot cs ≡ none) × AreTaken (fds cs))
      ⊎ ((i : ℕ) × (free_slot cs ≡ some i) × IsFirstFree i (fds cs))
unfolding free_slot
free_slot-search [] = inl (refl, tt)
free_slot-search (c ∷ cs) = elim (Bool-cases (is_neg c.fd)) [
  | inl free ↦ inr (0, rw free refl, free)
  | inr used ↦ elim (free_slot-search cs) [
    | inl (full, taken) ↦ inl (rw (used, full) refl, (used, taken))
    | inr (i, found, first) ↦ inr (suc i, rw (used, found) refl, (used, first))
  ]
]
