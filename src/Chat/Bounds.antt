-- ===== src/Chat/Bounds.antt =====
-- The sizes of the texts that server_poll.c formats into `send_buf`.
use zhone_engineering_academ.Common.{
  ℕ, ◌+◌, ◌<◌, ◌≤◌, ◌≡◌, List, ◌++◌, arith, length, length-append, length-take, lt→ltb,
}
use zhone_engineering_academ.CText.{codes}
use zhone_engineering_academ.Chat.Types.{max_buffer, name_size, ok, Network, SockAddr}
use zhone_engineering_academ.Chat.Client.{sprintf, addr_to_str}
use zhone_engineering_academ.Chat.Message.{announce, renamed, bad_name, echo_text, chat_text}

pub sprintf-ok : (s : List ℕ) → length s < max_buffer → sprintf s ≡ ok s
unfolding sprintf
sprintf-ok s h = rw (lt→ltb _ _ h)

pub length-echo_text : (text : List ℕ) → length (echo_text text) ≡ length text + 7
length-echo_text text = omega (arith, length-append text (codes "\n"))

pub length-chat_text :
    (name text : List ℕ) → length (chat_text name text) ≡ length name + length text + 4
length-chat_text name text = omega (
  arith,
  length-append name (codes "] " ++ (text ++ codes "\n")),
  length-append text (codes "\n"),
)

pub length-announce : (text : List ℕ) → length (announce text) ≡ length text + 11
length-announce text = omega (arith, length-append text (codes ".\n"))

pub length-renamed : (old name : List ℕ) → length (renamed old name) ≡ length old + length name + 28
length-renamed old name = omega (
  arith,
  length-announce (old ++ (codes " changed name to " ++ name)),
  length-append old (codes " changed name to " ++ name),
)

pub sprintf-bad_name : sprintf bad_name ≡ ok bad_name
sprintf-bad_name = sprintf-ok bad_name (omega arith)

pub sprintf-short :
    (name tail : List ℕ)
    → length name < name_size
    → length tail ≤ 100
    → sprintf (announce (name ++ tail)) ≡ ok (announce (name ++ tail))
sprintf-short name tail h k =
    sprintf-ok _ (omega (arith, length-announce (name ++ tail), length-append name tail))

-- The name of a new client fits its array.
pub length-addr_to_str :
    (net : Network) (a : SockAddr) → length (addr_to_str net a name_size) < name_size
unfolding addr_to_str
length-addr_to_str net a = omega (arith, length-take {0})
