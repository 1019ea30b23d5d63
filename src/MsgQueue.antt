-- ===== src/MsgQueue.antt =====
-- section-05/lab/msg_queue.c: a `long` sent through a message queue in the text of a message. A
-- `long` has 64 bits, in two's complement, and lies in memory with its lowest byte first.
pub mod RoundTrip
mod Examples
use zhone_engineering_academ.Common.{
  ℕ, zero, suc, ◌+◌, ◌-◌, ◌*◌, ◌/◌, ◌%◌, ◌^◌, ◌<◌, Option, none, some, List, [], ◌∷◌, ◌++◌, ltb,
  if◌then◌else◌, take, ℤ, pos, negsuc,
}

-- `MyMsg`
pub record MyMsg : Type 0 where
  pub mtype : ℕ
  pub mtext : List ℕ

-- The queue holds its messages in the order in which they were sent.
abbrev pub Queue : Type 0
Queue = List MyMsg

abbrev pub size_of_long : ℕ
size_of_long = 8

-- `sizeof(send_msg.mtext)` and `BUFFER_SIZE`
abbrev pub buffer_size : ℕ
buffer_size = 1024

-- The low bytes of a number, and the number of such bytes
unfoldable pub low_bytes : ℕ → ℕ → List ℕ
low_bytes zero n = []
low_bytes (suc k) n = n % 256 ∷ low_bytes k (n / 256)

unfoldable pub of_bytes : List ℕ → ℕ
of_bytes [] = 0
of_bytes (b ∷ bs) = b + 256 * of_bytes bs

-- The bit pattern of a `long`, and the `long` of a pattern
abbrev pub word_of : ℤ → ℕ
word_of (pos n) = n
word_of (negsuc n) = 2 ^ 64 - 1 - n

abbrev pub long_of : ℕ → ℤ
long_of w = if ltb w (2 ^ 63) then pos w else negsuc (2 ^ 64 - 1 - w)

-- `msgsnd`
abbrev pub msgsnd : MyMsg → Queue → Queue
msgsnd m q = q ++ m ∷ []

-- `msgrcv` with type 0 takes the first message of any type, and waits while there is none.
abbrev pub msgrcv : Queue → Option (MyMsg × Queue)
msgrcv [] = none
msgrcv (m ∷ q) = some (m, q)

-- The parent process. `rest` is what the array `mtext`, which nothing initialises, holds behind the
-- copied bytes.
unfoldable pub send : (rest : List ℕ) → ℤ → Queue → Queue
unfolding low_bytes
send rest super_important_key q =
    msgsnd
      (record { mtype = 1; mtext = low_bytes size_of_long (word_of super_important_key) ++ rest }) q

-- The child process, once a message is there: the number that it prints
unfoldable pub receive : Queue → Option (ℤ × Queue)
unfolding of_bytes
receive q = elim (msgrcv q) [
  | none ↦ none
  | some (recv_msg, left) ↦ some (long_of (of_bytes (take size_of_long recv_msg.mtext)), left)
]
