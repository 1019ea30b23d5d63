-- ===== src/Chat/Lines.antt =====
-- How server_poll.c finds the text in the bytes received: `recv_buf[n] = '\0'`, then
-- `recv_buf[strcspn(recv_buf, "\r\n")] = '\0'`.
use zhone_engineering_academ.Common.{
  ℕ, ◌<◌, ◌≤◌, ◌≡◌, refl, Bool, false, ◌||◌, List, [], ◌∷◌, ◌++◌, ◌==◌, arith, if◌then◌else◌,
  length, lt→ltb,
}
use zhone_engineering_academ.CText.{c_string, has_byte}
use zhone_engineering_academ.Chat.Types.{max_buffer, ok}
use zhone_engineering_academ.Chat.Message.{terminate, cut_line}

-- A byte that ends a line of text.
abbrev pub ends_line : ℕ → Bool
ends_line b = b == 0 || (b == 0x0d || b == 0x0a)

-- The bytes before the first that ends a line.
abbrev pub first_line : List ℕ → List ℕ
first_line [] = []
first_line (b ∷ bs) = if ends_line b then [] else b ∷ first_line bs

-- The two writes leave the first line, as a C string.
pub cut_line-terminated :
    (bytes : List ℕ) → c_string (cut_line (bytes ++ 0 ∷ [])) ≡ first_line bytes
unfolding cut_line
cut_line-terminated [] = refl
cut_line-terminated (b ∷ bs) = ground (arith, cut_line-terminated bs)

pub length-first_line : (bytes : List ℕ) → length (first_line bytes) ≤ length bytes
length-first_line [] = omega arith
length-first_line (b ∷ bs) = ground (arith, length-first_line bs)

pub first_line-no_nul : (bytes : List ℕ) → has_byte 0 (first_line bytes) ≡ false
first_line-no_nul [] = refl
first_line-no_nul (b ∷ bs) = ground (arith, first_line-no_nul bs)

pub terminate-ok :
    (bytes : List ℕ) → length bytes < max_buffer → terminate bytes ≡ ok (bytes ++ 0 ∷ [])
unfolding terminate
terminate-ok bytes h = rw (lt→ltb _ _ h)
