-- ===== src/CText/Memory.antt =====
-- Strings in a buffer that is written again and again.
use mathlib.Core.List.{append-nil}
use zhone_engineering_academ.Common.{
  ℕ, zero, suc, ◌-◌, ◌<◌, ◌≤◌, ◌≡◌, refl, ap, sym, ◌∙◌, true, false, List, [], ◌∷◌, ◌++◌, arith,
  length, drop, replicate, take,
}
use zhone_engineering_academ.CText.{c_string, has_byte, overwrite}

pub c_string-append :
    (s rest : List ℕ) → has_byte 0 s ≡ false → c_string (s ++ rest) ≡ s ++ c_string rest
c_string-append [] rest h = refl
c_string-append (b ∷ bs) rest h = ground (arith, c_string-append bs rest)

pub c_string_self : (s : List ℕ) → has_byte 0 s ≡ false → c_string s ≡ s
c_string_self [] h = refl
c_string_self (b ∷ bs) h = ground (arith, c_string_self bs)

-- Behind a text that shows, what the buffer held before shows again, up to its first zero.
pub c_string-overwrite :
    (memory s : List ℕ)
    → has_byte 0 s ≡ false
    → c_string (overwrite memory s) ≡ s ++ c_string (drop (length s) memory)
c_string-overwrite memory s h = c_string-append s _ h

-- In a zeroed buffer the bytes are a C string as they are.
pub c_string-zeros :
    (size : ℕ) (bytes : List ℕ) → c_string (overwrite (replicate size 0) bytes) ≡ c_string bytes
c_string-zeros zero [] = refl
c_string-zeros (suc n) [] = refl
c_string-zeros zero (b ∷ bs) = rw (append-nil bs)
c_string-zeros (suc n) (b ∷ bs) = ground (arith, c_string-zeros n bs)

pub has_byte-zeros :
    (size : ℕ) (bytes : List ℕ)
    → length bytes < size
    → has_byte 0 (overwrite (replicate size 0) bytes) ≡ true
has_byte-zeros zero bytes h = absurd (omega arith)
has_byte-zeros (suc n) [] h = refl
has_byte-zeros (suc n) (b ∷ bs) h = ground (arith, has_byte-zeros n bs)

pub has_byte-append_right :
    (b : ℕ) (xs ys : List ℕ) → has_byte b ys ≡ true → has_byte b (xs ++ ys) ≡ true
has_byte-append_right b [] ys h = h
has_byte-append_right b (x ∷ xs) ys h = ground (arith, has_byte-append_right b xs ys)

drop-nil : (n : ℕ) → drop {A = ℕ} n [] ≡ []
drop-nil zero = refl
drop-nil (suc n) = refl

-- A write that ends before index `n` leaves alone what stands from there on.
pub drop-overwrite :
    (n : ℕ) (memory bytes : List ℕ)
    → length bytes ≤ n
    → drop n (overwrite memory bytes) ≡ drop n memory
drop-overwrite n memory [] h = refl
drop-overwrite zero memory (b ∷ bs) h = absurd (omega arith)
drop-overwrite (suc n) [] (b ∷ bs) h =
    ap (λ t. drop n (bs ++ t)) (sym (drop-nil (length bs)))
    ∙ drop-overwrite n [] bs (omega arith)
    ∙ drop-nil n
drop-overwrite (suc n) (x ∷ memory) (b ∷ bs) h = drop-overwrite n memory bs (omega arith)

pub has_byte-of_drop :
    (n b : ℕ) (xs : List ℕ) → has_byte b (drop n xs) ≡ true → has_byte b xs ≡ true
has_byte-of_drop zero b xs h = h
has_byte-of_drop (suc n) b [] h = h
has_byte-of_drop (suc n) b (x ∷ xs) h = ground (arith, has_byte-of_drop n b xs)

pub has_byte-drop : (n b : ℕ) (xs : List ℕ) → has_byte b xs ≡ false → has_byte b (drop n xs) ≡ false
has_byte-drop zero b xs h = h
has_byte-drop (suc n) b [] h = refl
has_byte-drop (suc n) b (x ∷ xs) h = has_byte-drop n b xs (ground arith)

pub drop-append : (n : ℕ) (xs ys : List ℕ) → n ≤ length xs → drop n (xs ++ ys) ≡ drop n xs ++ ys
drop-append zero xs ys h = refl
drop-append (suc n) [] ys h = absurd (omega arith)
drop-append (suc n) (x ∷ xs) ys h = drop-append n xs ys (omega arith)

pub c_string-drop_zeros : (n size : ℕ) → c_string (drop n (replicate size 0)) ≡ []
c_string-drop_zeros zero zero = refl
c_string-drop_zeros zero (suc m) = refl
c_string-drop_zeros (suc n) zero = refl
c_string-drop_zeros (suc n) (suc m) = c_string-drop_zeros n m

has_byte-zeros_last : (n : ℕ) → has_byte 0 (drop n (replicate (suc n) 0)) ≡ true
has_byte-zeros_last zero = refl
has_byte-zeros_last (suc n) = has_byte-zeros_last n

pub has_byte-last_zero :
    (size : ℕ) → 0 < size → has_byte 0 (drop (size - 1) (replicate size 0)) ≡ true
has_byte-last_zero zero h = absurd (omega arith)
has_byte-last_zero (suc n) h = let e : suc n - 1 ≡ n = omega arith in rw e (has_byte-zeros_last n)

pub drop-append_self : (xs ys : List ℕ) → drop (length xs) (xs ++ ys) ≡ ys
drop-append_self [] ys = refl
drop-append_self (x ∷ xs) ys = drop-append_self xs ys

pub take_all : (n : ℕ) (xs : List ℕ) → length xs ≤ n → take n xs ≡ xs
take_all zero [] h = refl
take_all zero (x ∷ xs) h = absurd (omega arith)
take_all (suc n) [] h = refl
take_all (suc n) (x ∷ xs) h = ap (λ t. x ∷ t) (take_all n xs (omega arith))

pub drop_all : (n : ℕ) (xs : List ℕ) → length xs ≤ n → drop n xs ≡ []
drop_all zero [] h = refl
drop_all zero (x ∷ xs) h = absurd (omega arith)
drop_all (suc n) [] h = refl
drop_all (suc n) (x ∷ xs) h = drop_all n xs (omega arith)

-- A write that fits keeps the size.
pub length-overwrite :
    (memory bytes : List ℕ)
    → length bytes ≤ length memory
    → length (overwrite memory bytes) ≡ length memory
length-overwrite memory [] h = refl
length-overwrite [] (b ∷ bs) h = absurd (omega arith)
length-overwrite (m ∷ ms) (b ∷ bs) h =
    let rest = length-overwrite ms bs (omega arith) in rw rest refl

-- Whatever follows the first zero does not show.
pub c_string-cut :
    (s rest more : List ℕ) → has_byte 0 s ≡ false → c_string ((s ++ 0 ∷ rest) ++ more) ≡ s
c_string-cut [] rest more h = refl
c_string-cut (b ∷ bs) rest more h = ground (arith, c_string-cut bs rest more)
