-- ===== src/Fifo/Examples.antt =====
-- A run of section-05/lab/fifo: the server is late once and finds three messages.
use zhone_engineering_academ.Common.{ℕ, ◌≡◌, refl, List, [], ◌∷◌, replicate, arith}
use zhone_engineering_academ.CText.{codes, decimal}
use zhone_engineering_academ.Fifo.{text, exchange}
use zhone_engineering_academ.Fifo.Firsts.{firsts, exchange-firsts}

abbrev junk : List ℕ
junk = replicate 50 65

text_test : text 4 ≡ codes "Message 5"
unfolding text decimal
text_test = refl

firsts_test :
    firsts 0 (1 ∷ 3 ∷ 1 ∷ [])
    ≡ codes "Received: Message 1\n"
      ∷ codes "Received: Message 2\n"
      ∷ codes "Received: Message 5\n"
      ∷ []
unfolding text decimal
firsts_test = refl

exchange-firsts_example : exchange junk [] junk 0 (1 ∷ 3 ∷ 1 ∷ []) ≡ firsts 0 (1 ∷ 3 ∷ 1 ∷ [])
exchange-firsts_example =
    exchange-firsts junk refl junk 0 (1 ∷ 3 ∷ 1 ∷ [])
      (omega arith, omega arith, (omega arith, omega arith, (omega arith, omega arith, tt)))
