-- ===== src/FifoChat/Exchange.antt =====
-- A line of the chat of section-05/lab/lab_1.c on its way from one user to the other.
use zhone_engineering_academ.Common.{
  ℕ, ◌<◌, ◌≤◌, ◌≡◌, refl, ap, ◌∙◌, true, false, none, some, List, [], ◌∷◌, ◌++◌, length, drop,
  arith,
}
use zhone_engineering_academ.CText.{c_string, has_byte, overwrite}
use zhone_engineering_academ.CText.Memory.{
  c_string-overwrite, c_string_self, drop-overwrite, has_byte-of_drop, take_all,
}
use zhone_engineering_academ.FifoChat.{
  Text, Fifos, put, User, user, read_size, read, name_fifo, start, send, receive, printed,
  same_text,
}

same_text_refl : (t : Text) → same_text t t ≡ true
same_text_refl [] = refl
same_text_refl (x ∷ xs) = ground (arith, same_text_refl xs)

read_all : (line : Text) → length line ≤ read_size → read line ≡ line
unfolding read
read_all line fits = take_all read_size line fits

-- The program of a user in the midst of a chat
abbrev pub chatting : (me friend : Text) → List ℕ → User
chatting me friend buffer = record (user me friend) { recv_buffer = buffer }

module _ (me friend line : Text) (fifos : Fifos) where
  abbrev pub route : Text
  route = name_fifo me friend

  -- Before the friend's program has started, a line goes nowhere and nothing changes.
  send-offline : fifos route ≡ none → send (user me friend) line fifos ≡ (false, fifos)
  unfolding send user
  send-offline absent = rw absent

  send-online :
      has_byte 0 line ≡ false
      → fifos route ≡ some []
      → send (user me friend) line fifos ≡ (true, put route (some line) fifos)
  unfolding send user
  send-online text there = rw (there, c_string_self line text)

receive-line :
    (me friend line : Text) (fifos : Fifos) (buffer : List ℕ)
    → fifos (name_fifo me friend) ≡ some line
    → has_byte 0 line ≡ false
    → 0 < length line
    → length line ≤ read_size
    → has_byte 0 (drop read_size buffer) ≡ true
    → receive (chatting friend me buffer) fifos ≡ (
      printed (line ++ c_string (drop (length line) buffer)),
      chatting friend me (overwrite buffer line),
      put (name_fifo me friend) (some []) fifos,
    )
unfolding receive user
receive-line me friend [] fifos buffer there text some_byte fits z = absurd (omega arith)
receive-line me friend (x ∷ xs) fifos buffer there text some_byte fits z =
    let z' = ap (λ t. has_byte 0 t) (drop-overwrite read_size buffer (x ∷ xs) fits) ∙ z in
    rw (
      there,
      read_all (x ∷ xs) fits,
      has_byte-of_drop read_size 0 (overwrite buffer (x ∷ xs)) z',
      c_string-overwrite buffer (x ∷ xs) text,
    )

-- The friend's program makes the FIFO that this user's program sends to. Before that, a line goes
-- nowhere. After it, a line of 1 to 253 bytes with no zero is what the friend's program prints next,
-- with what its buffer still holds of earlier, longer lines behind it, and the FIFO is empty again.
pub receive-sent :
    (me friend line : Text) (fifos : Fifos) (buffer : List ℕ)
    → fifos (name_fifo me friend) ≡ none
    → has_byte 0 line ≡ false
    → 0 < length line
    → length line ≤ read_size
    → has_byte 0 (drop read_size buffer) ≡ true
    → let made = put (name_fifo me friend) (some []) fifos in
      let full = put (name_fifo me friend) (some line) made in
      (send (user me friend) line fifos ≡ (false, fifos))
      × (start (friend ∷ me ∷ []) fifos ≡ some (user friend me, made))
      × (send (user me friend) line made ≡ (true, full))
      × (receive (chatting friend me buffer) full ≡ (
        printed (line ++ c_string (drop (length line) buffer)),
        chatting friend me (overwrite buffer line),
        put (name_fifo me friend) (some []) full,
      ))
unfolding start user
receive-sent me friend line fifos buffer absent text some_byte fits z =
    let name = name_fifo me friend in
    let made = put name (some []) fifos in
    let full = put name (some line) made in
    let self : same_text name name ≡ true = same_text_refl name in
    let made_there : made name ≡ some [] = rw self in
    let full_there : full name ≡ some line = rw self in
    (
      send-offline me friend line fifos absent,
      rw absent,
      send-online me friend line made text made_there,
      receive-line me friend line full buffer full_there text some_byte fits z,
    )
