-- ===== src/SharedPointer.antt =====
-- section-05/lab/shared_mem/shm_ptr_writer.c and shm_ptr_reader.c: a pointer that one process stores
-- in shared memory and another follows.
pub mod Bases
mod Runs
use zhone_engineering_academ.Common.{
  ℕ, ◌+◌, ◌-◌, ◌*◌, ◌/◌, ◌%◌, Option, none, some, if◌then◌else◌, ◌==◌, ◌&&◌, ltb,
}

-- The segment, 4096 bytes, by the index of its longs. A new one holds zeros.
abbrev pub Segment : Type 0
Segment = ℕ → ℕ

abbrev pub zeros : Segment
zeros i = 0

abbrev pub cells : ℕ
cells = 512

abbrev pub long_size : ℕ
long_size = 8

abbrev pub store : Segment → ℕ → ℕ → Segment
store segment i value j = if j == i then value else segment j

-- `&baseaddr[i]`, where `shmat` returned `baseaddr`
abbrev pub address : (baseaddr i : ℕ) → ℕ
address baseaddr i = baseaddr + long_size * i

-- `*p` in a process that has the segment at `baseaddr`. What lies outside of it, or across two of its
-- longs, is not known.
unfoldable pub deref : (baseaddr : ℕ) → Segment → ℕ → Option ℕ
deref baseaddr segment p =
    let offset = p - baseaddr in
    if ltb p baseaddr
    then none
    else if ltb (offset / long_size) cells && offset % long_size == 0
    then some (segment (offset / long_size))
    else none

-- The values that a process prints: `*target`, `*p`, and what `*p` points to.
pub record Values : Type 0 where
  pub target : ℕ
  pub p : ℕ
  pub dereferenced : Option ℕ

abbrev pub secret : ℕ
secret = 123_456_789

unfoldable pub writer_stores : (baseaddr : ℕ) → Segment → Segment
writer_stores baseaddr segment = store (store segment 50 secret) 1 (address baseaddr 50)

-- What both programs print.
unfoldable pub show : (baseaddr : ℕ) → Segment → Values
show baseaddr segment = record {
  target = segment 50;
  p = segment 1;
  dereferenced = deref baseaddr segment (segment 1);
}

-- The writer and then the reader, each with the address that `shmat` gives it.
unfoldable pub read_back : (writers readers : ℕ) → Values
read_back writers readers = show readers (writer_stores writers zeros)
