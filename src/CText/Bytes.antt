-- ===== src/CText/Bytes.antt =====
-- Which bytes a text has.
use zhone_engineering_academ.Common.{
  ℕ, zero, suc, ◌≡◌, refl, false, List, [], ◌∷◌, ◌++◌, arith, take, Bool-cases, ltb, inl, inr, ◌/◌,
}
use zhone_engineering_academ.CText.{has_byte, decimal}

pub has_byte-append :
    (b : ℕ) (xs ys : List ℕ)
    → has_byte b xs ≡ false
    → has_byte b ys ≡ false
    → has_byte b (xs ++ ys) ≡ false
has_byte-append b [] ys hx hy = hy
has_byte-append b (x ∷ xs) ys hx hy = ground (arith, has_byte-append b xs ys)

pub has_byte-take : (n b : ℕ) (xs : List ℕ) → has_byte b xs ≡ false → has_byte b (take n xs) ≡ false
has_byte-take zero b xs h = refl
has_byte-take (suc n) b [] h = refl
has_byte-take (suc n) b (x ∷ xs) h = ground (arith, has_byte-take n b xs)

pub decimal-no_nul : (digits n : ℕ) → has_byte 0 (decimal digits n) ≡ false
unfolding decimal
decimal-no_nul zero n = refl
decimal-no_nul (suc k) n = elim (Bool-cases (ltb n 10)) [
  | inl one ↦ rw one (ground arith)
  | inr more ↦
      rw more (has_byte-append 0 (decimal k (n / 10)) _ (decimal-no_nul k (n / 10)) (ground arith))
]
