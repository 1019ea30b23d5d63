-- ===== src/Echo/Udp/Programs.antt =====
-- `main` of section-07/lab/lab_3/udp_server.c and of udp_client.c, and the two together.
use zhone_engineering_academ.Common.{
  ℕ, ◌≡◌, refl, Option, none, some, false, List, [], ◌∷◌, map, ℤ, pos, ◌==ℤ◌, if◌then◌else◌, ltb,
  length, Bool-cases, inl, inr, arith, ltb→lt, ◌≤◌,
}
use zhone_engineering_academ.CText.{has_byte}
use zhone_engineering_academ.Echo.{Answer, got, exited, finished}
use zhone_engineering_academ.Echo.Setup.{
  Library, SockAddr, default_ip, strcpy_ip, server_address, as_uint16, or_zero,
}
use zhone_engineering_academ.Echo.Setup.Address.{
  strcpy_ip-fits, strcpy_ip-overflows, c_string-copied,
}
use zhone_engineering_academ.Echo.Udp.{Log, stops, dg_echo, dg_client}
use zhone_engineering_academ.Echo.Udp.Datagrams.{AreTexts, AreFit, with_answers, dg_client-dg_echo}

-- The server, with what `bind` returns.
unfoldable pub server_main : (size : ℕ) → (bound : ℤ) → List Answer → Log
server_main size bound answers = if bound ==ℤ pos 0 then dg_echo size answers else stops exited

abbrev pub default_port : ℤ
default_port = pos 1234

-- `argv[2]`, if it is there
abbrev pub port_argument : Library → List (List ℕ) → ℤ
port_argument lib [] = default_port
port_argument lib (text ∷ more) = lib.atoi text

-- The address that the client's arguments name: `none` where `strcpy` goes past `serv_ip`.
unfoldable pub peer_address : Library → List (List ℕ) → Option SockAddr
unfolding strcpy_ip server_address
peer_address lib [] = some (server_address lib default_ip default_port)
peer_address lib (ip ∷ more) = elim (strcpy_ip default_ip ip) [
  | none ↦ none
  | some serv_ip ↦ some (server_address lib serv_ip (port_argument lib more))
]

-- The client: where it sends to, and what.
unfoldable pub client_main :
    Library
    → (arguments : List (List ℕ)) → (buffer : List ℕ) → List (List ℕ × Answer)
    → Option (SockAddr × Log)
unfolding peer_address
client_main lib arguments buffer session = elim (peer_address lib arguments) [
  | none ↦ none
  | some addr ↦ some (addr, dg_client buffer session)
]

peer_address-given :
    (lib : Library) (ip : List ℕ) (more : List (List ℕ))
    → has_byte 0 ip ≡ false
    → peer_address lib (ip ∷ more) ≡ (
        if ltb (length ip) 15
        then some (record {
          sin_addr = or_zero (lib.inet_pton ip);
          sin_port = lib.htons (as_uint16 (port_argument lib more));
        })
        else none)
unfolding peer_address
peer_address-given lib ip more clean = elim (Bool-cases (ltb (length ip) 15)) [
  | inl short ↦
      rw (strcpy_ip-fits default_ip ip (ltb→lt _ _ short), short, peer_address)
        (rw (c_string-copied default_ip ip clean) refl)
  | inr long ↦
      let past : 15 ≤ length ip = ground arith in
      rw (strcpy_ip-overflows default_ip ip past, long, peer_address) refl
]

-- The two programs on a network that loses no datagram, with a server that got its address: a client
-- whose address text has fewer than 15 bytes sends each line to what its arguments name, gets it
-- back, and prints the lines and nothing else, whatever its buffer held; a longer text is written
-- past `serv_ip`. The lines have no zero and are shorter than the server's buffer.
pub client_main-server_main :
    (lib : Library) (ip : List ℕ) (more : List (List ℕ)) (size : ℕ) (buffer : List ℕ)
    (lines : List (List ℕ))
    → has_byte 0 ip ≡ false
    → AreTexts lines
    → AreFit size lines
    → client_main lib
        (ip ∷ more)
        buffer
        (with_answers lines (server_main size (pos 0) (map got lines)).sent)
      ≡ (if ltb (length ip) 15
          then some (
            record {
              sin_addr = or_zero (lib.inet_pton ip);
              sin_port = lib.htons (as_uint16 (port_argument lib more));
            },
            record { sent = lines; printed = lines; ending = finished },
          )
          else none)
unfolding client_main server_main
client_main-server_main lib ip more size buffer lines clean texts fits =
    rw (peer_address-given lib ip more clean, client_main)
      (elim (Bool-cases (ltb (length ip) 15)) [
        | inl short ↦ rw short (rw (dg_client-dg_echo size buffer lines texts fits) refl)
        | inr long ↦ rw long refl
      ])
