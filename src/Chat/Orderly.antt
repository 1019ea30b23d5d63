-- ===== src/Chat/Orderly.antt =====
-- What the servers need of the answers that the system gives during an iteration.
use zhone_engineering_academ.Common.{◌≤◌, ◌≡◌, false, List, ℤ, length, ◌∷◌, ◌++◌}
use zhone_engineering_academ.CText.{has_byte, decimal}
use zhone_engineering_academ.Chat.Types.{Client, Received, failed, got, Round}
use zhone_engineering_academ.Chat.Client.{addr_to_str}
use zhone_engineering_academ.Chat.Slots.{fds, IsFresh}
use zhone_engineering_academ.CText.Bytes.{has_byte-append, has_byte-take, decimal-no_nul}
use zhone_engineering_academ.Chat.Bounds.{length-addr_to_str}
use zhone_engineering_academ.Chat.Conversation.{max_text}
use zhone_engineering_academ.Chat.Invariant.{IsName}
use zhone_engineering_academ.Chat.Poll.{new_client}

abbrev pub IsSmall : Received → Type 0
IsSmall failed = Unit
IsSmall (got bytes) = length bytes ≤ max_text

-- `accept` hands out a descriptor that no client has, `inet_ntop` gives a C string, and no `read`
-- returns more than `max_text` bytes.
pub record IsOrderly (r : Round) (clients : List Client) : Type 0 where
  pub fresh : IsFresh r.accepted (fds clients)
  pub clean : has_byte 0 (r.net.inet_ntop r.peer.sin_addr) ≡ false
  pub small : (f : ℤ) → IsSmall (r.received f)

-- The name of a new client fits.
pub new_client-IsName :
    {r : Round} {clients : List Client} → IsOrderly r clients → IsName (new_client r).name
unfolding new_client addr_to_str
new_client-IsName {r} o =
    let ip = r.net.inet_ntop r.peer.sin_addr in
    let port = b':' ∷ decimal 5 (r.net.ntohs r.peer.sin_port) in
    (
      length-addr_to_str r.net r.peer,
      has_byte-take 29 0 (ip ++ port)
          (has_byte-append 0 ip port o.clean (decimal-no_nul 5 (r.net.ntohs r.peer.sin_port))),
    )
