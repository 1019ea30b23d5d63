-- ===== src/Fifo.antt =====
-- section-05/lab/fifo/client.c and server.c: the messages of the client, and what the server makes of
-- the bytes in the FIFO.
pub mod Firsts
mod Examples
use zhone_engineering_academ.Common.{ℕ, zero, suc, ◌+◌, List, [], ◌∷◌, ◌++◌, take, drop}
use zhone_engineering_academ.CText.{codes, c_string, decimal, snprintf, overwrite}

-- `sizeof(message)`
abbrev pub message_size : ℕ
message_size = 50

-- `sizeof(buffer) - 1` of the server
abbrev pub read_size : ℕ
read_size = 253

-- `"Message %d"`, of `i + 1`
unfoldable pub text : ℕ → List ℕ
text i = snprintf message_size (codes "Message " ++ decimal 10 (suc i))

-- The array `message`, which is written as a whole; `stack` is what it held before.
unfoldable pub message : (stack : List ℕ) → ℕ → List ℕ
message stack i = overwrite stack (text i ++ 0 ∷ [])

-- What so many rounds of the client's loop write, from round `i`.
unfoldable pub send_messages : (stack : List ℕ) → (rounds i : ℕ) → List ℕ
send_messages stack zero i = []
send_messages stack (suc k) i = let rest = send_messages stack k (suc i) in message stack i ++ rest

-- `buffer` after a read, with the zero behind the bytes
abbrev pub filled : (buffer bytes : List ℕ) → List ℕ
filled buffer bytes = overwrite buffer (bytes ++ 0 ∷ [])

-- A read of the server, and what it prints. A read of no bytes prints nothing: it waits, or the
-- client has gone.
unfoldable pub show : (buffer bytes : List ℕ) → List (List ℕ)
show buffer [] = []
show buffer (b ∷ bytes) =
    (codes "Received: " ++ (c_string (filled buffer (b ∷ bytes)) ++ codes "\n")) ∷ []

-- Client and server together. For each read of the server, `schedule` has the number of messages
-- that the client sends before it; `queue` is what waits in the FIFO. A read takes what is there, up
-- to `read_size` bytes.
unfoldable pub exchange : (stack queue buffer : List ℕ) (i : ℕ) (schedule : List ℕ) → List (List ℕ)
exchange stack queue buffer i [] = []
exchange stack queue buffer i (k ∷ ks) =
    let waiting = queue ++ send_messages stack k i in
    let bytes = take read_size waiting in
    let rest = exchange stack (drop read_size waiting) (filled buffer bytes) (i + k) ks in
    show buffer bytes ++ rest
