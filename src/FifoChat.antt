-- ===== src/FifoChat.antt =====
-- section-05/lab/lab_1.c: a chat of two users over two FIFOs, one for each direction. Each user
-- creates the FIFO that it reads.
pub mod Exchange
mod Examples
use zhone_engineering_academ.Common.{
  ℕ, Bool, true, false, ◌&&◌, Option, none, some, List, [], ◌∷◌, ◌++◌, ◌==◌, if◌then◌else◌, take,
  replicate,
}
use zhone_engineering_academ.CText.{codes, c_string, has_byte, overwrite, snprintf}

abbrev pub Text : Type 0
Text = List ℕ

abbrev pub same_text : Text → Text → Bool
same_text [] [] = true
same_text [] (y ∷ ys) = false
same_text (x ∷ xs) [] = false
same_text (x ∷ xs) (y ∷ ys) = x == y && same_text xs ys

-- The FIFOs of the directory, by their names, with the bytes that wait in each
abbrev pub Fifos : Type 0
Fifos = Text → Option Text

abbrev pub put : Text → Option Text → Fifos → Fifos
put name content fifos = λ n. if same_text n name then content else fifos n

-- The global variables of a user's program
pub record User : Type 0 where
  pub user_name : Text
  pub friend_name : Text
  pub fifo_send : Text
  pub fifo_recv : Text
  pub recv_buffer : List ℕ

-- `sizeof(recv_buffer) - 1`
abbrev pub read_size : ℕ
read_size = 253

abbrev pub name_fifo : Text → Text → Text
name_fifo from to_ = snprintf 100 (from ++ (codes "_to_" ++ to_))

unfoldable pub user : Text → Text → User
user me friend = record {
  user_name = snprintf 50 me;
  friend_name = snprintf 50 friend;
  fifo_send = name_fifo me friend;
  fifo_recv = name_fifo friend me;
  recv_buffer = replicate 254 0;
}

-- `mkfifo` leaves a FIFO alone that is there already.
abbrev pub or_new : Option Text → Text → Fifos → Fifos
or_new none name fifos = put name (some []) fifos
or_new (some waiting) name fifos = fifos

abbrev pub mkfifo : Text → Fifos → Fifos
mkfifo name fifos = or_new (fifos name) name fifos

-- `main` up to the threads, on the arguments behind the program's name: none unless there are two.
unfoldable pub start : List Text → Fifos → Option (User × Fifos)
start [] fifos = none
start (me ∷ []) fifos = none
start (me ∷ friend ∷ []) fifos = let u = user me friend in some (u, mkfifo u.fifo_recv fifos)
start (me ∷ friend ∷ more ∷ args) fifos = none

-- `open` for writing, `write` and `close`, or the message that the friend is not online
abbrev pub write_to : Option Text → Text → Text → Fifos → Bool × Fifos
write_to none name text fifos = (false, fifos)
write_to (some waiting) name text fifos = (true, put name (some (waiting ++ text)) fifos)

-- A round of `send_thread_func`: whether the friend is online, and the FIFOs then.
unfoldable pub send : User → Text → Fifos → Bool × Fifos
send u send_buffer fifos = write_to (fifos u.fifo_send) u.fifo_send (c_string send_buffer) fifos

-- What a round of `recv_thread_func` does: it prints a text, or nothing, or exits since the FIFO is
-- gone, or prints memory past the buffer.
pub data Received : Type 0 where
  printed : Text → Received
  quiet : Received
  exited : Received
  overread : Received

-- `printf("%s")` of the buffer
abbrev pub print : List ℕ → Received
print buffer = if has_byte 0 buffer then printed (c_string buffer) else overread

-- One `read` takes what fits.
unfoldable pub read : Text → Text
read waiting = take read_size waiting

-- After the `read` the FIFO is closed. It is then open nowhere else, and what is left in it
-- is discarded.
abbrev pub read_from : Option Text → User → Fifos → Received × User × Fifos
read_from none u fifos = (exited, u, fifos)
read_from (some []) u fifos = (quiet, u, fifos)
read_from (some (b ∷ bs)) u fifos =
    let buffer = overwrite u.recv_buffer (read (b ∷ bs)) in
    (print buffer, record u { recv_buffer = buffer }, put u.fifo_recv (some []) fifos)

-- A round of `recv_thread_func`
unfoldable pub receive : User → Fifos → Received × User × Fifos
receive u fifos = read_from (fifos u.fifo_recv) u fifos

-- `cleanup_fifo`
unfoldable pub cleanup_fifo : User → Fifos → Fifos
cleanup_fifo u fifos = put u.fifo_recv none fifos
