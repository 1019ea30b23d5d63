-- ===== src/Echo/Udp/Datagrams.antt =====
-- The client and the server of section-07/lab/lab_3 together.
use mathlib.Core.List.{append-nil, append_assoc}
use zhone_engineering_academ.Common.{
  ℕ, ◌<◌, ◌≡◌, refl, ap, sym, true, false, List, [], ◌∷◌, ◌++◌, map, length, drop, ◌∙◌,
}
use zhone_engineering_academ.CText.{c_string, has_byte, overwrite}
use zhone_engineering_academ.CText.Memory.{
  drop-append_self, c_string-append, c_string-zeros, has_byte-zeros, has_byte-append_right,
}
use zhone_engineering_academ.Echo.{Answer, got, waiting, finished}
use zhone_engineering_academ.Echo.Udp.{dg_echo, dg_client, reply, stored}

-- Datagrams shorter than the buffer
abbrev pub AreShort : (size : ℕ) → List Answer → Type 0
AreShort size [] = Unit {0}
AreShort size (a ∷ as') = (length (stored a) < size) × AreShort size as'

abbrev pub replies : List Answer → List (List ℕ)
replies [] = []
replies (a ∷ rest) = reply a ++ replies rest

abbrev pub texts : List Answer → List (List ℕ)
texts [] = []
texts (a ∷ rest) = c_string (stored a) ∷ texts rest

-- The server sends each datagram back as it came, zeros and all, answers no error, and goes on.
pub dg_echo-replies :
    (size : ℕ) (answers : List Answer)
    → AreShort size answers
    → dg_echo size answers
      ≡ record { sent = replies answers; printed = texts answers; ending = waiting }
unfolding dg_echo
dg_echo-replies size [] h = refl
dg_echo-replies size (a ∷ rest) (short, h) = rw (
  has_byte-zeros size (stored a) short,
  c_string-zeros size (stored a),
  dg_echo-replies size rest h,
)

-- Texts, with no zero in them
abbrev pub AreTexts : List (List ℕ) → Type 0
AreTexts [] = Unit {0}
AreTexts (l ∷ ls) = (has_byte 0 l ≡ false) × AreTexts ls

abbrev pub AreFit : (size : ℕ) → List (List ℕ) → Type 0
AreFit size [] = Unit {0}
AreFit size (l ∷ ls) = (length l < size) × AreFit size ls

-- Each line with the datagram that answers it
abbrev pub with_answers : List (List ℕ) → List (List ℕ) → List (List ℕ × Answer)
with_answers [] rs = []
with_answers (l ∷ ls) [] = []
with_answers (l ∷ ls) (r ∷ rs) = (l, got r) ∷ with_answers ls rs

replies-got : (lines : List (List ℕ)) → replies (map got lines) ≡ lines
replies-got [] = refl
replies-got (l ∷ ls) = ap (λ t. l ∷ t) (replies-got ls)

AreShort-got :
    (size : ℕ) (lines : List (List ℕ)) → AreFit size lines → AreShort size (map got lines)
AreShort-got size [] h = tt
AreShort-got size (l ∷ ls) (fits, h) = (fits, AreShort-got size ls h)

module _ (buffer l : List ℕ) where
  abbrev typed : List ℕ
  typed = overwrite buffer (l ++ 0 ∷ [])

  abbrev behind : List ℕ
  behind = drop (length (l ++ 0 ∷ [])) buffer

  typed-append : typed ≡ l ++ 0 ∷ behind
  typed-append = append_assoc l (0 ∷ []) behind

  -- Where a line and its zero stand, writing the line again changes nothing.
  overwrite-typed : overwrite typed l ≡ typed
  overwrite-typed =
      ap (λ t. l ++ drop (length l) t) typed-append
      ∙ ap (λ t. l ++ t) (drop-append_self l (0 ∷ behind))
      ∙ sym typed-append

  typed-terminated : has_byte 0 typed ≡ true
  typed-terminated =
      ap (λ t. has_byte 0 t) typed-append ∙ has_byte-append_right 0 l (0 ∷ behind) refl

  c_string-typed : has_byte 0 l ≡ false → c_string typed ≡ l
  c_string-typed text =
      ap c_string typed-append ∙ c_string-append l (0 ∷ behind) text ∙ append-nil l

dg_client-lines :
    (buffer : List ℕ) (lines : List (List ℕ))
    → AreTexts lines
    → dg_client buffer (with_answers lines lines)
      ≡ record { sent = lines; printed = lines; ending = finished }
unfolding dg_client
dg_client-lines buffer [] h = refl
dg_client-lines buffer (l ∷ ls) (text, h) = rw (
  overwrite-typed buffer l,
  typed-terminated buffer l,
  c_string-typed buffer l text,
  dg_client-lines (typed buffer l) ls h,
)

-- A session in which no datagram is lost: every line comes back as it was sent, and the client
-- prints the lines and nothing else, whatever its buffer held. The lines have no zero and are
-- shorter than the server's buffer.
pub dg_client-dg_echo :
    (size : ℕ) (buffer : List ℕ) (lines : List (List ℕ))
    → AreTexts lines
    → AreFit size lines
    → dg_client buffer (with_answers lines (dg_echo size (map got lines)).sent)
      ≡ record { sent = lines; printed = lines; ending = finished }
dg_client-dg_echo size buffer lines texts fits =
    rw (dg_echo-replies size (map got lines) (AreShort-got size lines fits), replies-got lines)
      (dg_client-lines buffer lines texts)
