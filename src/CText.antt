-- ===== src/CText.antt =====
-- What the programs use of <string.h> and <stdio.h>. Memory is a list of bytes; a C string is the
-- list of the bytes before its terminating 0.
pub mod Memory
pub mod Bytes
pub mod Lines
use Prim.Native.Char.{code}
use Prim.Native.String.{String}
use zhone_engineering_academ.Common.{
  ℕ, zero, suc, ◌+◌, ◌-◌, ◌/◌, ◌%◌, Bool, true, false, ◌&&◌, ◌||◌, List, [], ◌∷◌, ◌++◌, ◌==◌, ltb,
  if◌then◌else◌, take, drop, length,
}

-- The bytes of a literal.
abbrev pub codes : String → List ℕ
codes String.[] = []
codes (String.◌∷◌ c s) = code c ∷ codes s

-- The string that a pointer to `memory` denotes.
abbrev pub c_string : List ℕ → List ℕ
c_string [] = []
c_string (b ∷ bs) = if b == 0 then [] else b ∷ c_string bs

abbrev pub has_byte : ℕ → List ℕ → Bool
has_byte b [] = false
has_byte b (x ∷ xs) = b == x || has_byte b xs

-- `strcspn(s, reject)`, on memory that holds a terminated string.
abbrev pub strcspn : List ℕ → List ℕ → ℕ
strcspn [] reject = 0
strcspn (b ∷ bs) reject = if b == 0 || has_byte b reject then 0 else suc (strcspn bs reject)

-- `strncmp(s, t, strlen(t)) == 0`: `t` is a prefix of `s`.
abbrev pub has_prefix : List ℕ → List ℕ → Bool
has_prefix [] s = true
has_prefix (x ∷ xs) [] = false
has_prefix (x ∷ xs) (y ∷ ys) = x == y && has_prefix xs ys

-- `%d` of a number below 10 ^ `digits`.
unfoldable pub decimal : (digits n : ℕ) → List ℕ
decimal zero n = []
decimal (suc k) n =
    let rest = decimal k (n / 10) in
    if ltb n 10 then (b'0' + n) ∷ [] else rest ++ (b'0' + n % 10) ∷ []

-- `snprintf(buf, size, …)` keeps at most `size - 1` bytes of the output.
abbrev pub snprintf : ℕ → List ℕ → List ℕ
snprintf size s = take (size - 1) s

-- Memory after `bytes` are written at its start.
abbrev pub overwrite : List ℕ → List ℕ → List ℕ
overwrite memory bytes = bytes ++ drop (length bytes) memory
