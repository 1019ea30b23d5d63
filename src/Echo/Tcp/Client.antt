-- ===== src/Echo/Tcp/Client.antt =====
-- `main` of section-07/lab/lab_1/client.c: from the arguments to the connection, and the session.
pub mod Sessions
pub mod Outcomes
pub mod Typed
use zhone_engineering_academ.Common.{
  ℕ, Bool, Option, none, some, List, [], ◌∷◌, ◌++◌, map, ℤ, pos, is_neg, ◌==ℤ◌, if◌then◌else◌,
}
use zhone_engineering_academ.CText.{codes, c_string}
use zhone_engineering_academ.Echo.{Answer, Ending, waiting, finished, exited, overread}
use zhone_engineering_academ.Echo.Setup.{
  Library, SockAddr, default_ip, strcpy_ip, as_uint16, server_address, shown_int,
}
use zhone_engineering_academ.Echo.Tcp.{Log, str_cli}

-- The global variables that arguments set.
pub record Settings : Type 0 where
  pub cli_port : ℤ
  pub serv_ip : List ℕ
  pub serv_port : ℤ

abbrev pub default_port : ℤ
default_port = pos 8080

-- `argv[3]`, if it is there
abbrev pub port_argument : Library → List (List ℕ) → ℤ
port_argument lib [] = default_port
port_argument lib (text ∷ more) = lib.atoi text

-- The arguments behind the program's name: `none` where `strcpy` goes past `serv_ip`.
unfoldable pub read_arguments : Library → List (List ℕ) → Option Settings
unfolding strcpy_ip
read_arguments lib [] =
    some (record { cli_port = pos 0; serv_ip = default_ip; serv_port = default_port })
read_arguments lib (port ∷ []) =
    some (record { cli_port = lib.atoi port; serv_ip = default_ip; serv_port = default_port })
read_arguments lib (port ∷ ip ∷ more) = elim (strcpy_ip default_ip ip) [
  | none ↦ none
  | some serv_ip ↦
      some
        (record { cli_port = lib.atoi port; serv_ip = serv_ip; serv_port = port_argument lib more })
]

-- A call on the socket.
pub data Call : Type 0 where
  bound : ℕ → Call
  connected : SockAddr → Call
  wrote : List ℕ → Call
  closed : ℤ → Call

-- `return 0`, `exit(-1)`, a write past `serv_ip`, or a read past `read_buf`.
pub data Outcome : Type 0 where
  returned : Outcome
  gave_up : Outcome
  overflowed : Outcome
  overran : Outcome

pub record Run : Type 0 where
  pub calls : List Call
  pub printed : List (List ℕ)
  pub outcome : Outcome

-- What `socket` and `connect` return.
pub record Kernel : Type 0 where
  pub socket : ℤ
  pub connect : ℤ

abbrev pub connecting : Settings → List ℕ
connecting s =
    codes "Connecting to the server "
    ++ (c_string s.serv_ip ++ (codes ":" ++ (shown_int s.serv_port ++ codes "\n")))

abbrev pub echoed : List ℕ → List ℕ
echoed text = codes "Server echo: " ++ text

-- What follows `str_cli`: the close and the return, or what `str_cli` ends with. It is never left
-- waiting, since the answers to all lines are there.
abbrev pub after_session : ℤ → Log → Run
after_session sockfd log = elim log.ending [
  | waiting ↦ record {
    calls = map wrote log.written;
    printed = map echoed log.printed;
    outcome = returned;
  }
  | finished ↦ record {
    calls = map wrote log.written ++ closed sockfd ∷ [];
    printed = map echoed log.printed;
    outcome = returned;
  }
  | exited ↦ record {
    calls = map wrote log.written;
    printed = map echoed log.printed ++ codes "Server terminated prematurely\n" ∷ [];
    outcome = gave_up;
  }
  | overread ↦ record {
    calls = map wrote log.written;
    printed = map echoed log.printed;
    outcome = overran;
  }
]

-- The optional `bind`, whose result is not looked at.
abbrev pub binding : Library → ℤ → List Call
binding lib cli_port =
    if cli_port ==ℤ pos 0 then [] else bound (lib.htons (as_uint16 cli_port)) ∷ []

-- From the creation of the socket, with the lines typed, each with the answer to it.
unfoldable pub connects : Library → Kernel → Settings → List ℕ → List (List ℕ × Answer) → Run
unfolding server_address
connects lib kernel s read_buf session =
    let calls =
      binding lib s.cli_port ++ connected (server_address lib s.serv_ip s.serv_port) ∷ [] in
    let rest = after_session kernel.socket (str_cli read_buf session) in
    if is_neg kernel.socket
    then record { calls = []; printed = []; outcome = gave_up }
    else if kernel.connect ==ℤ pos 0
    then record {
      calls = calls ++ rest.calls;
      printed = connecting s ∷ codes "Connected to the server!\n" ∷ rest.printed;
      outcome = rest.outcome;
    }
    else record { calls = calls; printed = connecting s ∷ []; outcome = gave_up }

unfoldable pub main :
    Library → Kernel → (arguments : List (List ℕ)) → List ℕ → List (List ℕ × Answer) → Run
unfolding read_arguments connects
main lib kernel arguments read_buf session = elim (read_arguments lib arguments) [
  | none ↦ record { calls = []; printed = []; outcome = overflowed }
  | some s ↦ connects lib kernel s read_buf session
]
