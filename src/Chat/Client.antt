-- ===== src/Chat/Client.antt =====
-- The helpers above `main` in server_poll.c, which server_select.c repeats.
use zhone_engineering_academ.Common.{
  ℕ, suc, not, ◌&&◌, Option, none, some, List, [], ◌∷◌, ◌++◌, ℤ, minus_one, is_neg, ◌==ℤ◌,
  if◌then◌else◌, ltb, length,
}
use mathlib.Core.Option
use zhone_engineering_academ.CText.{codes, snprintf, decimal}
use zhone_engineering_academ.Chat.Types.{
  SockAddr, Client, Effect, wrote, closed, printed, send_overflow, Result, ok, fault, Chat, emit,
  Network, max_buffer,
}

-- `snprintf(buf, size, "%s:%d", ip, ntohs(addr->sin_port))`. A port has at most five digits.
unfoldable pub addr_to_str : Network → SockAddr → ℕ → List ℕ
addr_to_str net a size =
    snprintf size (net.inet_ntop a.sin_addr ++ (b':' ∷ decimal 5 (net.ntohs a.sin_port)))

abbrev pub send_msg : Client → List ℕ → List Effect
send_msg c buf = wrote c.fd buf ∷ []

-- The loop over the array; the test of the source, `fd != -1 && fd != exceptfd`.
unfoldable pub broadcast_msg : List Client → List ℕ → ℤ → List Effect
broadcast_msg [] buf exceptfd = []
broadcast_msg (c ∷ cs) buf exceptfd =
    if not (c.fd ==ℤ minus_one) && not (c.fd ==ℤ exceptfd)
    then wrote c.fd buf ∷ broadcast_msg cs buf exceptfd
    else broadcast_msg cs buf exceptfd

-- The effects of `exit_handler`, which `exit` runs; the memory of the clients is given back.
unfoldable pub exit_handler : (listenfd : ℤ) → Chat → Chat
unfolding broadcast_msg
exit_handler listenfd s = emit s (
    printed (codes "\nServer shutting down...\n")
    ∷ (broadcast_msg s.clients (codes "Server shutting down.\n") minus_one ++ closed listenfd ∷ []))

-- `sprintf` into `send_buf`: the text and its terminator must fit.
unfoldable pub sprintf : List ℕ → Result (List ℕ)
sprintf s = if ltb (length s) max_buffer then ok s else fault send_overflow

-- The search for a free slot, `clients[i].fd < 0`.
unfoldable pub free_slot : List Client → Option ℕ
free_slot [] = none
free_slot (c ∷ cs) = if is_neg c.fd then some 0 else Option.map suc (free_slot cs)
