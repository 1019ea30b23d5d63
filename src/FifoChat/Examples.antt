-- ===== src/FifoChat/Examples.antt =====
-- The chat of section-05/lab/lab_1.c between two users.
use zhone_engineering_academ.Common.{
  ◌≡◌, refl, some, none, false, true, [], ◌∷◌, ◌++◌, replicate, drop, length, arith,
}
use zhone_engineering_academ.CText.{codes, c_string, overwrite}
use zhone_engineering_academ.FifoChat.{
  Text, Fifos, put, user, name_fifo, start, send, receive, printed,
}
use zhone_engineering_academ.FifoChat.Exchange.{chatting, receive-sent}

abbrev an : Text
an = codes "an"

abbrev binh : Text
binh = codes "binh"

abbrev line : Text
line = codes "xin chao\n"

abbrev empty : Fifos
empty n = none

-- Two different pairs of users can name one FIFO.
shared_name : name_fifo (codes "a") (codes "b_to_c") ≡ name_fifo (codes "a_to_b") (codes "c")
shared_name = refl

usage : start (an ∷ []) empty ≡ none
unfolding start
usage = refl

receive-sent_example :
    let made = put (name_fifo an binh) (some []) empty in
    let full = put (name_fifo an binh) (some line) made in
    (send (user an binh) line empty ≡ (false, empty))
    × (start (binh ∷ an ∷ []) empty ≡ some (user binh an, made))
    × (send (user an binh) line made ≡ (true, full))
    × (receive (chatting binh an (replicate 254 0)) full ≡ (
      printed (line ++ c_string (drop (length line) (replicate 254 0))),
      chatting binh an (overwrite (replicate 254 0) line),
      put (name_fifo an binh) (some []) full,
    ))
receive-sent_example =
    receive-sent an binh line empty (replicate 254 0) refl refl (omega arith) (omega arith) refl
