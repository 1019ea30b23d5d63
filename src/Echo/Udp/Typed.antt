-- ===== src/Echo/Udp/Typed.antt =====
-- The two programs of section-07/lab/lab_3 from the bytes on the client's standard input on.
use zhone_engineering_academ.Common.{
  ℕ, suc, ◌<◌, ◌≡◌, none, some, false, List, [], ◌∷◌, map, pos, if◌then◌else◌, ltb, length, arith,
}
use zhone_engineering_academ.CText.{has_byte}
use zhone_engineering_academ.CText.Lines.{pieces, flatten, pieces-flatten, AreLines}
use zhone_engineering_academ.Echo.{got, finished}
use zhone_engineering_academ.Echo.Setup.{Library, as_uint16, or_zero}
use zhone_engineering_academ.Echo.Udp.Datagrams.{AreTexts, AreFit, with_answers}
use zhone_engineering_academ.Echo.Udp.Programs.{
  server_main, client_main, port_argument, client_main-server_main,
}

AreLines-AreTexts : (size : ℕ) (lines : List (List ℕ)) → AreLines size lines → AreTexts lines
AreLines-AreTexts size [] h = tt
AreLines-AreTexts size (l ∷ ls) (text, _, _, h) = (text, AreLines-AreTexts size ls h)

AreLines-AreFit : (size : ℕ) (lines : List (List ℕ)) → AreLines size lines → AreFit size lines
AreLines-AreFit size [] h = tt
AreLines-AreFit size (l ∷ ls) (_, _, fits, h) = (fits, AreLines-AreFit size ls h)

-- The two programs on a network that loses no datagram, with a server that got its address, and
-- whatever is typed without a zero: `fgets` splits it into lines and comes to its end. A client whose
-- address text has fewer than 15 bytes sends the lines, which are together what was typed, to what
-- its arguments name, gets each back, and prints the lines and nothing else, whatever its buffer
-- held; a longer text is written past `serv_ip`.
pub client_main-typed :
    (lib : Library) (ip : List ℕ) (more : List (List ℕ)) (size : ℕ) (buffer typed : List ℕ)
    → has_byte 0 ip ≡ false
    → 1 < size
    → has_byte 0 typed ≡ false
    → (lines : List (List ℕ)) × (pieces (suc (length typed)) size typed ≡ some lines)
      × (flatten lines ≡ typed)
      × (client_main lib
            (ip ∷ more)
            buffer
            (with_answers lines (server_main size (pos 0) (map got lines)).sent)
          ≡ (if ltb (length ip) 15
              then some (
                record {
                  sin_addr = or_zero (lib.inet_pton ip);
                  sin_port = lib.htons (as_uint16 (port_argument lib more));
                },
                record { sent = lines; printed = lines; ending = finished },
              )
              else none))
client_main-typed lib ip more size buffer typed clean room text =
    let (lines, ends, all, are_lines) =
      pieces-flatten (suc (length typed)) size typed room text (omega arith) in
    (
      lines,
      ends,
      all,
      client_main-server_main lib ip more size buffer lines clean
          (AreLines-AreTexts size lines are_lines) (AreLines-AreFit size lines are_lines),
    )
