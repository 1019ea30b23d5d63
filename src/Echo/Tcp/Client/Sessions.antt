-- ===== src/Echo/Tcp/Client/Sessions.antt =====
-- How section-07/lab/lab_1/client.c runs as a whole.
use zhone_engineering_academ.Common.{
  ℕ, ◌-◌, ◌<◌, ◌≤◌, ◌≡◌, refl, ◌∙◌, true, false, List, [], ◌∷◌, ◌++◌, map, pos, is_neg, length,
  drop,
}
use zhone_engineering_academ.CText.{codes, has_byte, overwrite}
use zhone_engineering_academ.CText.Lines.{AreLines}
use zhone_engineering_academ.Echo.{Answer, got}
use zhone_engineering_academ.Echo.Setup.{Library, default_ip, as_uint16, or_zero, shown_int}
use zhone_engineering_academ.Echo.Setup.Address.{
  strcpy_ip-fits, strcpy_ip-overflows, c_string-copied,
}
use zhone_engineering_academ.Echo.Tcp.{str_echo}
use zhone_engineering_academ.Echo.Tcp.Session.{with_answers, shown, str_cli-str_echo}
use zhone_engineering_academ.Echo.Tcp.Client.{
  Settings, port_argument, read_arguments, connected, wrote, closed, returned, overflowed, Run,
  Kernel, echoed, binding, connects, main,
}

module _ (lib : Library) (kernel : Kernel) (port ip : List ℕ) (more : List (List ℕ))
    (read_buf : List ℕ) (session : List (List ℕ × Answer)) where
  abbrev pub given : Settings
  given = record {
    cli_port = lib.atoi port;
    serv_ip = overwrite default_ip (ip ++ 0 ∷ []);
    serv_port = port_argument lib more;
  }

  pub main-given :
      length ip < 15
      → main lib kernel (port ∷ ip ∷ more) read_buf session
        ≡ connects lib kernel given read_buf session
  unfolding main
  main-given fits = rw (strcpy_ip-fits default_ip ip fits, read_arguments, main) refl

  pub main-overflows :
      15 ≤ length ip
      → main lib kernel (port ∷ ip ∷ more) read_buf session
        ≡ record { calls = []; printed = []; outcome = overflowed }
  unfolding main
  main-overflows long = rw (strcpy_ip-overflows default_ip ip long, read_arguments, main) refl

-- The calls, the output and the end of a client that reaches its server and is typed `lines`.
abbrev pub whole_session :
    (lib : Library) (kernel : Kernel) (port ip : List ℕ) (more : List (List ℕ)) (read_buf : List ℕ)
    (lines : List (List ℕ))
    → Run
whole_session lib kernel port ip more read_buf lines = record {
  calls =
      (binding lib (lib.atoi port)
        ++ connected (record {
          sin_addr = or_zero (lib.inet_pton ip);
          sin_port = lib.htons (as_uint16 (port_argument lib more));
        })
          ∷ [])
      ++ (map wrote lines ++ closed kernel.socket ∷ []);
  printed =
      (codes "Connecting to the server "
        ++ (ip ++ (codes ":" ++ (shown_int (port_argument lib more) ++ codes "\n"))))
      ∷ codes "Connected to the server!\n"
      ∷ map echoed (shown read_buf lines);
  outcome = returned;
}

-- With an address text that fits, a socket and a connection, the client connects to what the
-- arguments name, writes each line typed, prints the echo of each, as `shown` has it, and closes the
-- socket at the end of its input. The lines have no zero, the last byte of `read_buf` is zero, and
-- each write arrives as one read at the server's `str_echo`, which answers.
pub main-session :
    (lib : Library) (kernel : Kernel) (port ip : List ℕ) (more : List (List ℕ)) (size : ℕ)
    (read_buf : List ℕ) (lines : List (List ℕ))
    → has_byte 0 ip ≡ false
    → length ip < 15
    → is_neg kernel.socket ≡ false
    → kernel.connect ≡ pos 0
    → AreLines size lines
    → has_byte 0 (drop (size - 1) read_buf) ≡ true
    → main lib kernel
        (port ∷ ip ∷ more)
        read_buf
        (with_answers lines (str_echo size (map got lines)).written)
      ≡ whole_session lib kernel port ip more read_buf lines
unfolding connects
main-session lib kernel port ip more size read_buf lines clean fits open_socket accepted text end =
    main-given lib kernel port ip more read_buf _ fits
    ∙ rw
        (
          c_string-copied default_ip ip clean,
          str_cli-str_echo size read_buf lines text end,
          open_socket,
          accepted,
        )
        refl
