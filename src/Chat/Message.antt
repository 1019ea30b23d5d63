-- ===== src/Chat/Message.antt =====
-- What a server does with the bytes of one client: the inside of the loop over the clients in
-- server_poll.c, which server_select.c repeats.
use zhone_engineering_academ.Common.{
  ℕ, ◌+◌, ◌&&◌, List, [], ◌∷◌, ◌++◌, minus_one, if◌then◌else◌, ltb, leb, length, set, drop, ℤ, pos,
  negsuc, Bool, true,
}
use zhone_engineering_academ.CText.{codes, c_string, strcspn, has_prefix}
use zhone_engineering_academ.Chat.Types.{
  Client, name_size, max_buffer, msg_cooldown, closed, printed, recv_overflow, Result, ok, fault,
  ◌>>=◌, Chat, emit,
}
use zhone_engineering_academ.Chat.Client.{send_msg, broadcast_msg, sprintf}

-- `recv_buf[n] = '\0'` after `n` bytes were stored; the rest of the array is never read.
unfoldable pub terminate : List ℕ → Result (List ℕ)
terminate bytes =
    if ltb (length bytes) max_buffer then ok (bytes ++ 0 ∷ []) else fault recv_overflow

-- `recv_buf[strcspn(recv_buf, "\r\n")] = '\0'`
unfoldable pub cut_line : List ℕ → List ℕ
cut_line buf = set buf (strcspn buf (0x0d ∷ 0x0a ∷ [])) 0

-- "[Server] … .\n"
abbrev pub announce : List ℕ → List ℕ
announce text = codes "[Server] " ++ (text ++ codes ".\n")

-- Printed on the server, and sent to every client.
abbrev pub tell_all : List ℕ → Chat → Chat
tell_all buf s = emit s (printed buf ∷ broadcast_msg s.clients buf minus_one)

abbrev pub renamed : List ℕ → List ℕ → List ℕ
renamed old_name name = announce (old_name ++ (codes " changed name to " ++ name))

abbrev pub bad_name : List ℕ
bad_name = announce (codes "Name must be between 1 and 29 characters")

-- The `/name` command; `i` is the client's slot.
unfoldable pub change_name : ℕ → Client → List ℕ → Chat → Result Chat
change_name i c new_name s =
    if ltb 0 (length new_name) && ltb (length new_name) name_size
    then (do
      send_buf ← sprintf (renamed c.name new_name)
      ok (
          tell_all send_buf
            (record s { clients = set s.clients i (record c { name = new_name }) })))
    else (do send_buf ← sprintf bad_name; ok (emit s (send_msg c send_buf)))

abbrev pub echo_text : List ℕ → List ℕ
echo_text text = codes "[You] " ++ (text ++ codes "\n")

abbrev pub chat_text : List ℕ → List ℕ → List ℕ
chat_text name text = codes "[" ++ (name ++ (codes "] " ++ (text ++ codes "\n")))

-- The echo to the sender, and the message to the others.
unfoldable pub chat : ℕ → Client → List ℕ → ℕ → Chat → Result Chat
chat i c text now s = do
  echo ← sprintf (echo_text text)
  all ← sprintf (chat_text c.name text)
  ok (record {
    clients = set s.clients i (record c { last_msg_time = pos now });
    out = s.out ++ (send_msg c echo ++ (broadcast_msg s.clients all c.fd ++ printed all ∷ []));
  })

-- The command or message in a received line.
unfoldable pub handle_text : ℕ → Client → List ℕ → ℕ → Chat → Result Chat
unfolding change_name chat
handle_text i c text now s =
    if has_prefix (codes "/name ") text
    then change_name i c (drop 6 text) s
    else chat i c text now s

-- `now - last_msg_time >= MSG_COOLDOWN` on signed numbers, of which the first is not negative. That
-- the difference overflows, for a junk time near the least number of 64 bits, is left out.
abbrev pub is_due : ℤ → ℕ → Bool
is_due (pos t) now = leb (t + msg_cooldown) now
is_due (negsuc t) now = true

-- The bytes received are handled unless they come too soon.
unfoldable pub receive : ℕ → Client → List ℕ → ℕ → Chat → Result Chat
unfolding handle_text terminate cut_line
receive i c bytes now s =
    if is_due c.last_msg_time now
    then (do buf ← terminate bytes; handle_text i c (c_string (cut_line buf)) now s)
    else ok s

-- After `n <= 0`: the slot is given up and the others are told.
unfoldable pub disconnect : ℕ → Client → Chat → Result Chat
disconnect i c s = do
  send_buf ← sprintf (announce (c.name ++ codes " has disconnected"))
  let s' = record s { clients = set s.clients i (record c { fd = minus_one }) }
  ok (record s' {
    out = s.out ++ (closed c.fd ∷ printed send_buf ∷ broadcast_msg s'.clients send_buf minus_one);
  })
