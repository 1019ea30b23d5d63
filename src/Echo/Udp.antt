-- ===== src/Echo/Udp.antt =====
-- section-07/lab/lab_3/udp_server.c and udp_client.c: what they send and print.
pub mod Datagrams
pub mod Programs
pub mod Typed
use zhone_engineering_academ.Common.{
  ℕ, Bool, true, false, List, [], ◌∷◌, ◌++◌, if◌then◌else◌, replicate,
}
use zhone_engineering_academ.CText.{c_string, has_byte, overwrite}
use zhone_engineering_academ.Echo.{Answer, got, ended, failed, Ending, waiting, finished, overread}

-- The datagrams that a loop has sent, the texts that it has printed, and how it stands.
pub record Log : Type 0 where
  pub sent : List (List ℕ)
  pub printed : List (List ℕ)
  pub ending : Ending

abbrev pub stops : Ending → Log
stops e = record { sent = []; printed = []; ending = e }

abbrev pub then_log : List (List ℕ) → List ℕ → Log → Log
then_log d p rest = record {
  sent = d ++ rest.sent;
  printed = p ∷ rest.printed;
  ending = rest.ending;
}

-- What the server's `sendto` sends: the `n` bytes received, none where `n` is -1, since no datagram
-- has that length.
abbrev pub reply : Answer → List (List ℕ)
reply (got bytes) = bytes ∷ []
reply ended = [] ∷ []
reply failed = []

-- The bytes that `recvfrom` stores: an empty datagram has none.
abbrev pub stored : Answer → List ℕ
stored (got bytes) = bytes
stored ended = []
stored failed = []

-- The loop of the server's `dg_echo`
unfoldable pub dg_echo : (size : ℕ) → List Answer → Log
dg_echo size [] = stops waiting
dg_echo size (answer ∷ answers) =
    let buffer = overwrite (replicate size 0) (stored answer) in
    let rest = dg_echo size answers in
    if has_byte 0 buffer then then_log (reply answer) (c_string buffer) rest else stops overread

-- The loop of the client's `dg_echo`, over the lines that `fgets` finds, each with the answer to it.
-- `fgets` writes the line and a zero to the buffer that `recvfrom` then writes to.
unfoldable pub dg_client : (buffer : List ℕ) → List (List ℕ × Answer) → Log
dg_client buffer [] = stops finished
dg_client buffer ((line, answer) ∷ rest) =
    let typed = overwrite buffer (line ++ 0 ∷ []) in
    let received = overwrite typed (stored answer) in
    let log = dg_client received rest in
    if has_byte 0 received
    then then_log (c_string typed ∷ []) (c_string received) log
    else record { sent = c_string typed ∷ []; printed = []; ending = overread }
