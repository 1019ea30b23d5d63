-- ===== src/Echo/Tcp/Client/Typed.antt =====
-- section-07/lab/lab_1/client.c from the bytes on its standard input to the server and back.
use zhone_engineering_academ.Common.{
  ℕ, suc, ◌-◌, ◌<◌, ◌≡◌, true, false, some, List, ◌∷◌, map, pos, is_neg, arith, length, drop,
}
use zhone_engineering_academ.CText.{has_byte}
use zhone_engineering_academ.CText.Lines.{pieces, flatten, pieces-flatten}
use zhone_engineering_academ.Echo.{got}
use zhone_engineering_academ.Echo.Setup.{Library}
use zhone_engineering_academ.Echo.Tcp.{str_echo}
use zhone_engineering_academ.Echo.Tcp.Session.{with_answers}
use zhone_engineering_academ.Echo.Tcp.Client.{Kernel, main}
use zhone_engineering_academ.Echo.Tcp.Client.Sessions.{whole_session, main-session}

-- Whatever is typed without a zero, `fgets` splits it into lines and comes to its end. With an
-- address text that fits, a socket and a connection, the client connects to what the arguments name,
-- writes the lines, which are together what was typed, prints the echo of each, as `shown` has it,
-- and closes the socket. The last byte of `read_buf` is zero, and each write arrives as one read at
-- the server's `str_echo`, which answers.
pub main-typed :
    (lib : Library) (kernel : Kernel) (port ip : List ℕ) (more : List (List ℕ)) (size : ℕ)
    (read_buf typed : List ℕ)
    → has_byte 0 ip ≡ false
    → length ip < 15
    → is_neg kernel.socket ≡ false
    → kernel.connect ≡ pos 0
    → 1 < size
    → has_byte 0 typed ≡ false
    → has_byte 0 (drop (size - 1) read_buf) ≡ true
    → (lines : List (List ℕ)) × (pieces (suc (length typed)) size typed ≡ some lines)
      × (flatten lines ≡ typed)
      × (main lib kernel
            (port ∷ ip ∷ more)
            read_buf
            (with_answers lines (str_echo size (map got lines)).written)
          ≡ whole_session lib kernel port ip more read_buf lines)
main-typed lib kernel port ip more size read_buf typed clean fits live accepted room text end =
    let (lines, ends, all, are_lines) =
      pieces-flatten (suc (length typed)) size typed room text (omega arith) in
    (
      lines,
      ends,
      all,
      main-session lib kernel port ip more size read_buf lines clean fits live accepted are_lines
          end,
    )
