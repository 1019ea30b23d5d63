-- ===== src/Chat/Cooldown.antt =====
-- The rate limit of server_poll.c and server_select.c.
use zhone_engineering_academ.Common.{
  ℕ, ◌+◌, ◌<◌, ◌≤◌, ◌≡◌, refl, false, some, List, pos, is_neg, length, get_elem?,
  get_elem?-set_self, lt_of_get_elem?,
}
use zhone_engineering_academ.Chat.Types.{Client, Chat, msg_cooldown, ok}
use zhone_engineering_academ.Chat.Message.{receive}
use zhone_engineering_academ.Chat.Invariant.{IsValid}
use zhone_engineering_academ.Chat.Handling.{receive-too_soon, IsDue}
use zhone_engineering_academ.Chat.Conversation.{max_text, is_command, receive-chat}

-- After a message of a client was passed on, whatever the client sends within the cooldown is
-- dropped: nothing is written and no client changes.
pub receive-receive :
    (i : ℕ) (c : Client) (bytes : List ℕ) (now : ℕ) (s : Chat)
    → IsValid s.clients
    → get_elem? s.clients i ≡ some c
    → is_neg c.fd ≡ false
    → length bytes ≤ max_text
    → IsDue c.last_msg_time now
    → is_command bytes ≡ false
    → (s' : Chat) (c' : Client) (more : List ℕ) (then_at : ℕ) → receive i c bytes now s ≡ ok s'
    → get_elem? s'.clients i ≡ some c'
    → then_at < now + msg_cooldown
    → receive i c' more then_at s' ≡ ok s'
receive-receive i c bytes now s v at_i live small late plain s' c' more then_at e at_i' soon =
    let (t, e', same, _) = receive-chat i c bytes now s v at_i live small late plain (pos 0) refl in
    let outcome : t ≡ s' = cc in
    let c'' : Client = record c { last_msg_time = pos now } in
    let stored : get_elem? t.clients i ≡ some c'' =
      rw same (get_elem?-set_self s.clients i c'' (lt_of_get_elem? s.clients i at_i)) in
    let stored' : get_elem? t.clients i ≡ some c' = rw outcome at_i' in
    let stamped : c'' ≡ c' = cc in receive-too_soon i c' more then_at s' (rw (← stamped) soon)
