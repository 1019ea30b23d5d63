-- ===== src/Echo/Tcp/Session.antt =====
-- The client and the server of section-07/lab/lab_1 together.
use mathlib.Core.List.{append-nil}
use zhone_engineering_academ.Common.{
  ℕ, ◌-◌, ◌<◌, ◌≡◌, refl, ap, ap₂, true, List, [], ◌∷◌, ◌++◌, map, arith, length, drop, ◌∙◌,
  replicate,
}
use zhone_engineering_academ.CText.{c_string, has_byte, overwrite}
use zhone_engineering_academ.CText.Lines.{AreLines}
use zhone_engineering_academ.CText.Memory.{
  c_string-append, drop-append, has_byte-drop, c_string-drop_zeros, has_byte-last_zero,
  c_string-overwrite, c_string_self, c_string-zeros, has_byte-zeros, drop-overwrite,
  has_byte-of_drop,
}
use zhone_engineering_academ.Echo.{Answer, got, waiting, finished}
use zhone_engineering_academ.Echo.Tcp.{str_echo, str_cli}

-- A server that reads each line as a whole
pub str_echo-lines :
    (size : ℕ) (lines : List (List ℕ))
    → AreLines size lines
    → str_echo size (map got lines) ≡ record { written = lines; printed = lines; ending = waiting }
unfolding str_echo
str_echo-lines size [] h = refl
str_echo-lines size (l ∷ ls) (text, some_byte, fits, h) = rw (
  has_byte-zeros size l fits,
  c_string-zeros size l,
  c_string_self l text,
  str_echo-lines size ls h,
)

-- Each line with the answer to it
abbrev pub with_answers : List (List ℕ) → List (List ℕ) → List (List ℕ × Answer)
with_answers [] rs = []
with_answers (l ∷ ls) [] = []
with_answers (l ∷ ls) (r ∷ rs) = (l, got r) ∷ with_answers ls rs

-- What the client prints: each line, and behind it what an earlier, longer one has left.
abbrev pub shown : (read_buf : List ℕ) → List (List ℕ) → List (List ℕ)
shown read_buf [] = []
shown read_buf (l ∷ ls) =
    (l ++ c_string (drop (length l) read_buf)) ∷ shown (overwrite read_buf l) ls

str_cli-shown :
    (size : ℕ) (read_buf : List ℕ) (lines : List (List ℕ))
    → AreLines size lines
    → has_byte 0 (drop (size - 1) read_buf) ≡ true
    → str_cli read_buf (with_answers lines lines)
      ≡ record { written = lines; printed = shown read_buf lines; ending = finished }
unfolding str_cli
str_cli-shown size read_buf [] h z = refl
str_cli-shown size read_buf (l ∷ ls) (text, some_byte, fits, h) z =
    let z' = ap (λ t. has_byte 0 t) (drop-overwrite (size - 1) read_buf l (omega arith)) ∙ z in
    rw (
      has_byte-of_drop (size - 1) 0 (overwrite read_buf l) z',
      c_string_self l text,
      c_string-overwrite read_buf l text,
      str_cli-shown size (overwrite read_buf l) ls h z',
    )

-- A session in which each write arrives as one read: every line comes back to the client as it was
-- sent, at the front of what the client prints, and behind it there is what `read_buf` still holds
-- of earlier ones. The lines have no zero, and the last byte of `read_buf` is zero.
pub str_cli-str_echo :
    (size : ℕ) (read_buf : List ℕ) (lines : List (List ℕ))
    → AreLines size lines
    → has_byte 0 (drop (size - 1) read_buf) ≡ true
    → str_cli read_buf (with_answers lines (str_echo size (map got lines)).written)
      ≡ record { written = lines; printed = shown read_buf lines; ending = finished }
str_cli-str_echo size read_buf lines h z =
    rw (str_echo-lines size lines h) (str_cli-shown size read_buf lines h z)

-- After a line a shorter one comes back with the end of the first behind it, even if `read_buf` was
-- all zero at first.
pub str_cli-stale :
    (size : ℕ) (a b : List ℕ)
    → AreLines size (a ∷ b ∷ [])
    → length b < length a
    → (str_cli (replicate size 0) (with_answers (a ∷ b ∷ []) (a ∷ b ∷ []))).printed
      ≡ a ∷ (b ++ drop (length b) a) ∷ []
str_cli-stale size a b (text, some_byte, fits, h) shorter =
    let end = has_byte-last_zero size (omega arith) in
    let run = str_cli-shown size (replicate size 0) (a ∷ b ∷ []) (text, some_byte, fits, h) end in
    let first = c_string-drop_zeros (length a) size in
    let second : c_string (drop (length b) (overwrite (replicate size 0) a)) ≡ drop (length b) a =
      ap c_string (drop-append (length b) a _ (omega arith))
      ∙ c_string-append (drop (length b) a) _ (has_byte-drop (length b) 0 a text)
      ∙ ap (λ t. drop (length b) a ++ t) first
      ∙ append-nil _ in
    ap (λ log. log.printed) run
    ∙ ap₂ (λ x y. (a ++ x) ∷ (b ++ y) ∷ []) first second
    ∙ ap (λ x. x ∷ (b ++ drop (length b) a) ∷ []) (append-nil a)
