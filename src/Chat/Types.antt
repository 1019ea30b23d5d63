-- ===== src/Chat/Types.antt =====
-- The data of section-07/lab/lab_4/server_poll.c and server_select.c, and what a server does to its
-- surroundings.
use zhone_engineering_academ.Common.{ℕ, ℤ, List, ◌++◌}

-- `struct sockaddr_in`, as far as the servers read it.
pub record SockAddr : Type 0 where
  pub sin_addr : ℕ
  pub sin_port : ℕ

-- `client_t`. The name is a C string; a time is in seconds.
pub record Client : Type 0 where
  pub fd : ℤ
  pub addr : SockAddr
  pub name : List ℕ
  pub last_msg_time : ℤ

-- `sizeof(client.name)`
abbrev pub name_size : ℕ
name_size = 30

abbrev pub max_clients : ℕ
max_clients = 3

abbrev pub max_buffer : ℕ
max_buffer = 4096

-- in seconds
abbrev pub msg_cooldown : ℕ
msg_cooldown = 1

-- A system call that others can see, in the order made.
pub data Effect : Type 0 where
  wrote : ℤ → List ℕ → Effect
  closed : ℤ → Effect
  printed : List ℕ → Effect

-- Undefined behaviour that the source does not exclude by itself.
pub data Fault : Type 0 where
  recv_overflow send_overflow : Fault
  out_of_bounds : Fault

pub data Result {ℓ} (A : Type ℓ) : Type ℓ where
  ok : A → Result A
  fault : Fault → Result A

infixl 5 ◌>>=◌
abbrev pub ◌>>=◌ {ℓ κ} : {A : Type ℓ} {B : Type κ} → Result A → (A → Result B) → Result B
ok a >>= f = f a
fault e >>= f = fault e

-- The state that both servers keep: the array of clients, and the calls made so far.
pub record Chat : Type 0 where
  pub clients : List Client
  pub out : List Effect

abbrev pub emit : Chat → List Effect → Chat
emit s es = record s { out = s.out ++ es }

-- What `read` returns: a negative number, or the bytes that it stored. No bytes is end of file.
pub data Received : Type 0 where
  failed : Received
  got : List ℕ → Received

-- The address functions of the C library.
pub record Network : Type 0 where
  pub inet_ntop : ℕ → List ℕ
  pub ntohs : ℕ → ℕ

-- What the system answers during one iteration of the main loop. `stale_time` is the value of
-- `last_msg_time` in the temporary client, which the source does not initialise,
-- so that it may be negative.
pub record Round : Type 0 where
  pub net : Network
  pub accepted : ℤ
  pub peer : SockAddr
  pub stale_time : ℤ
  pub received : ℤ → Received
  pub now : ℤ → ℕ
