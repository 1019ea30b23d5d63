-- ===== src/Fifo/Firsts.antt =====
-- Which messages of section-05/lab/fifo/client.c the server prints.
use zhone_engineering_academ.Common.{
  ℕ, zero, suc, ◌+◌, ◌*◌, ◌<◌, ◌≤◌, ◌≡◌, refl, ap, ◌∙◌, false, List, [], ◌∷◌, ◌++◌, drop, length,
  arith, length-append, length-take,
}
use mathlib.Core.List.{append_assoc}
use zhone_engineering_academ.CText.{codes, c_string, has_byte, decimal}
use zhone_engineering_academ.CText.Memory.{take_all, drop_all, length-overwrite, c_string-cut}
use zhone_engineering_academ.CText.Bytes.{has_byte-append, has_byte-take, decimal-no_nul}
use zhone_engineering_academ.Fifo.{
  message_size, read_size, text, message, send_messages, filled, show, exchange,
}

text-no_nul : (i : ℕ) → has_byte 0 (text i) ≡ false
unfolding text
text-no_nul i =
    has_byte-take 49 0 (codes "Message " ++ decimal 10 (suc i))
      (has_byte-append 0 (codes "Message ") (decimal 10 (suc i)) refl (decimal-no_nul 10 (suc i)))

length-text : (i : ℕ) → length (text i) ≤ 49
unfolding text
length-text i = omega (arith, length-take 49 (codes "Message " ++ decimal 10 (suc i)))

abbrev pub AreSmall : List ℕ → Type 0
AreSmall [] = Unit
AreSmall (k ∷ ks) = (0 < k) × (k ≤ 5) × AreSmall ks

-- The first of each lot.
abbrev pub firsts : ℕ → List ℕ → List (List ℕ)
firsts i [] = []
firsts i (k ∷ ks) = (codes "Received: " ++ (text i ++ codes "\n")) ∷ firsts (i + k) ks

behind_zero : (t d r : List ℕ) → ((t ++ 0 ∷ []) ++ d) ++ r ≡ t ++ 0 ∷ (d ++ r)
behind_zero [] d r = refl
behind_zero (x ∷ t) d r = ap (λ y. x ∷ y) (behind_zero t d r)

show-starts :
    (buffer t rest : List ℕ)
    → 0 < length t
    → has_byte 0 t ≡ false
    → show buffer (t ++ 0 ∷ rest) ≡ (codes "Received: " ++ (t ++ codes "\n")) ∷ []
unfolding show
show-starts buffer [] rest some_ h = absurd (omega arith)
show-starts buffer (b ∷ bs) rest some_ h =
    let bytes : List ℕ = (b ∷ bs) ++ 0 ∷ rest in
    ap (λ t. (codes "Received: " ++ (t ++ codes "\n")) ∷ [])
      (ap c_string (append_assoc bytes (0 ∷ []) (drop (length (bytes ++ 0 ∷ [])) buffer))
        ∙ c_string-cut (b ∷ bs) rest _ h)

show-text :
    (buffer : List ℕ) (i : ℕ) (rest : List ℕ)
    → show buffer (text i ++ 0 ∷ rest) ≡ (codes "Received: " ++ (text i ++ codes "\n")) ∷ []
unfolding text
show-text buffer i rest = show-starts buffer (text i) rest (omega arith) (text-no_nul i)

module _ (stack : List ℕ) (full : length stack ≡ message_size) where
  length-message : (i : ℕ) → length (message stack i) ≡ message_size
  unfolding message
  length-message i =
      length-overwrite stack (text i ++ 0 ∷ [])
        (omega (arith, full, length-text i, length-append (text i) (0 ∷ [])))
      ∙ full

  length-send_messages : (k i : ℕ) → length (send_messages stack k i) ≡ message_size * k
  unfolding send_messages
  length-send_messages zero i = omega arith
  length-send_messages (suc k) i =
      length-append (message stack i) (send_messages stack k (suc i))
      ∙ omega (arith, length-message i, length-send_messages k (suc i))

  show-first :
      (k i : ℕ) (buffer : List ℕ)
      → 0 < k
      → show buffer (send_messages stack k i) ≡ (codes "Received: " ++ (text i ++ codes "\n")) ∷ []
  unfolding show send_messages message
  show-first zero i buffer some_ = absurd (omega arith)
  show-first (suc k) i buffer some_ =
      let held = drop (length (text i ++ 0 ∷ [])) stack in
      let rest = send_messages stack k (suc i) in
      ap (show buffer) (behind_zero (text i) held rest) ∙ show-text buffer i (held ++ rest)

  -- If between one and five messages of the client are in the FIFO at each read of the server, the
  -- server prints the first of them, in the order sent, and no other: all of them, if it reads after
  -- each. What the client's array held before the text is not shown.
  pub exchange-firsts :
      (buffer : List ℕ) (i : ℕ) (schedule : List ℕ)
      → AreSmall schedule
      → exchange stack [] buffer i schedule ≡ firsts i schedule
  unfolding exchange
  exchange-firsts buffer i [] small = refl
  exchange-firsts buffer i (k ∷ ks) (some_, few, small) =
      let size = length-send_messages k i in
      rw
        (
          take_all read_size (send_messages stack k i) (omega (arith, size)),
          drop_all read_size (send_messages stack k i) (omega (arith, size)),
          show-first k i buffer some_,
          exchange-firsts (filled buffer (send_messages stack k i)) (i + k) ks small,
        )
        refl
