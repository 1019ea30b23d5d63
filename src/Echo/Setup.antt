-- ===== src/Echo/Setup.antt =====
-- What the clients of section-07/lab, lab_1/client.c and lab_3/udp_client.c, make of their
-- arguments: the address of the server.
pub mod Address
use zhone_engineering_academ.Common.{
  ℕ, suc, ◌-◌, ◌%◌, Option, none, some, List, [], ◌∷◌, ◌++◌, ℤ, pos, negsuc, if◌then◌else◌, ltb,
  length, replicate,
}
use zhone_engineering_academ.CText.{codes, c_string, decimal, overwrite}

-- The functions of the C library that read texts and change the order of bytes. `inet_pton` writes
-- nothing if the text is no address.
pub record Library : Type 0 where
  pub inet_pton : List ℕ → Option ℕ
  pub htons : ℕ → ℕ
  pub atoi : List ℕ → ℤ

-- `struct sockaddr_in`
pub record SockAddr : Type 0 where
  pub sin_addr : ℕ
  pub sin_port : ℕ

-- `sizeof(serv_ip)`
abbrev pub ip_size : ℕ
ip_size = 15

-- `char serv_ip[15] = "127.0.0.1"`
abbrev pub default_ip : List ℕ
default_ip = codes "127.0.0.1" ++ replicate 6 0

-- `strcpy(serv_ip, text)`: `none` where the text and its zero go past the array.
unfoldable pub strcpy_ip : List ℕ → List ℕ → Option (List ℕ)
strcpy_ip serv_ip text =
    if ltb (length text) ip_size then some (overwrite serv_ip (text ++ 0 ∷ [])) else none

-- An `int` as the `uint16_t` that `htons` takes.
abbrev pub as_uint16 : ℤ → ℕ
as_uint16 (pos n) = n % 65536
as_uint16 (negsuc n) = 65535 - n % 65536

-- What `inet_pton` leaves in an address that was zero.
abbrev pub or_zero : Option ℕ → ℕ
or_zero none = 0
or_zero (some a) = a

unfoldable pub server_address : Library → (serv_ip : List ℕ) → (serv_port : ℤ) → SockAddr
server_address lib serv_ip serv_port = record {
  sin_addr = or_zero (lib.inet_pton (c_string serv_ip));
  sin_port = lib.htons (as_uint16 serv_port);
}

-- `%d`
abbrev pub shown_int : ℤ → List ℕ
shown_int (pos n) = decimal 10 n
shown_int (negsuc n) = b'-' ∷ decimal 10 (suc n)
