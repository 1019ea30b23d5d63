-- ===== src/Echo/Tcp.antt =====
-- section-07/lab/lab_1/server.c and client.c: what they write and print.
pub mod Session
pub mod Client
pub mod Accept
pub mod Reap
use zhone_engineering_academ.Common.{ℕ, Bool, true, false, List, [], ◌∷◌, if◌then◌else◌, replicate}
use zhone_engineering_academ.CText.{c_string, has_byte, overwrite}
use zhone_engineering_academ.Echo.{
  Answer, got, ended, failed, Ending, waiting, finished, exited, overread,
}

-- What a loop has written to its socket, what it has printed, and how it stands.
pub record Log : Type 0 where
  pub written : List (List ℕ)
  pub printed : List (List ℕ)
  pub ending : Ending

abbrev pub stops : Ending → Log
stops e = record { written = []; printed = []; ending = e }

abbrev pub then_log : List ℕ → List ℕ → Log → Log
then_log w p rest = record {
  written = w ∷ rest.written;
  printed = p ∷ rest.printed;
  ending = rest.ending;
}

-- The loop of the server's `str_echo`: the buffer is zeroed before each read.
unfoldable pub str_echo : (size : ℕ) → List Answer → Log
str_echo size [] = stops waiting
str_echo size (ended ∷ answers) = stops finished
str_echo size (failed ∷ answers) = stops finished
str_echo size (got bytes ∷ answers) =
    let buffer = overwrite (replicate size 0) bytes in
    let rest = str_echo size answers in
    if has_byte 0 buffer then then_log (c_string buffer) (c_string buffer) rest else stops overread

-- The client's loop, over the lines that `fgets` finds, each with what the `read` after it answers.
-- Nothing clears `read_buf` between two reads.
unfoldable pub str_cli : (read_buf : List ℕ) → List (List ℕ × Answer) → Log
str_cli read_buf [] = stops finished
str_cli read_buf ((line, ended) ∷ rest) = record {
  written = c_string line ∷ [];
  printed = [];
  ending = exited;
}
str_cli read_buf ((line, failed) ∷ rest) =
    let log = str_cli read_buf rest in
    if has_byte 0 read_buf
    then then_log (c_string line) (c_string read_buf) log
    else record { written = c_string line ∷ []; printed = []; ending = overread }
str_cli read_buf ((line, got bytes) ∷ rest) =
    let log = str_cli (overwrite read_buf bytes) rest in
    if has_byte 0 (overwrite read_buf bytes)
    then then_log (c_string line) (c_string (overwrite read_buf bytes)) log
    else record { written = c_string line ∷ []; printed = []; ending = overread }
