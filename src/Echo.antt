-- ===== src/Echo.antt =====
-- The echo programs of section-07/lab: over TCP, lab_1, and over UDP, lab_3. `size` is MAX_BUFFER,
-- 4096 in each of them. Memory is a list of bytes; a use of `strlen` or `%s` on memory with no zero
-- reads on past its end, which is the ending `overread`.
pub mod Setup
pub mod Tcp
pub mod Udp
mod Examples
use zhone_engineering_academ.Common.{ℕ, List}

abbrev pub max_buffer : ℕ
max_buffer = 4096

-- What a `read` or `recvfrom` answers: bytes, none since the other side has ended, or an error.
pub data Answer : Type 0 where
  got : List ℕ → Answer
  ended : Answer
  failed : Answer

-- How a loop stands: it waits for more, it has left in the way that its code provides for, it has
-- exited with an error, or it has read past a buffer.
pub data Ending : Type 0 where
  waiting : Ending
  finished : Ending
  exited : Ending
  overread : Ending
