-- ===== src/Chat/Handling.antt =====
-- What server_poll.c and server_select.c do with the bytes of one client, on each branch.
use zhone_engineering_academ.Common.{
  ℕ, ◌+◌, ◌<◌, ◌≤◌, ◌≡◌, refl, ap, ◌∙◌, ◌⊎◌, true, false, ◌&&◌, some, List, [], ◌∷◌, ◌++◌, ℤ,
  is_neg, minus_one, ◌==ℤ◌, arith, if◌then◌else◌, length, set, get_elem?, ltb, lt→ltb, pos, negsuc,
  dec_lt, inl, inr,
}
use zhone_engineering_academ.CText.{codes}
use zhone_engineering_academ.Chat.Types.{
  Client, Chat, max_buffer, name_size, msg_cooldown, ok, closed, printed, emit,
}
use zhone_engineering_academ.Chat.Client.{broadcast_msg, send_msg}
use zhone_engineering_academ.Chat.Message.{
  announce, renamed, bad_name, echo_text, chat_text, tell_all, change_name, chat, handle_text,
  receive, disconnect, is_due,
}
use zhone_engineering_academ.Chat.Slots.{
  fds, has_fd, fds-set_self, get_elem?-fds, has_fd_of_get_elem?,
}
use zhone_engineering_academ.Chat.Delivery.{
  sent_to, sent_to-append, sent_to-notice, sent_to-speech, once_if,
}
use zhone_engineering_academ.Chat.Lines.{first_line, cut_line-terminated, terminate-ok}
use zhone_engineering_academ.Chat.Bounds.{
  sprintf-ok, sprintf-bad_name, sprintf-short, length-echo_text, length-chat_text, length-renamed,
}
use zhone_engineering_academ.Chat.Invariant.{IsValid, AreNamed-get}

-- Whether the cooldown is over: a time that nothing has initialised may be negative.
abbrev pub IsDue : ℤ → ℕ → Type 0
IsDue (pos t) now = t + msg_cooldown ≤ now
IsDue (negsuc t) now = Unit

abbrev pub IsEarly : ℤ → ℕ → Type 0
IsEarly (pos t) now = now < t + msg_cooldown
IsEarly (negsuc t) now = ⊥

is_due-true : (t : ℤ) (now : ℕ) → IsDue t now → is_due t now ≡ true
is_due-true (pos t) now h = ground arith
is_due-true (negsuc t) now h = refl

is_due-false : (t : ℤ) (now : ℕ) → IsEarly t now → is_due t now ≡ false
is_due-false (pos t) now h = ground arith
is_due-false (negsuc t) now h = absurd h

pub IsEarly-or_IsDue : (t : ℤ) (now : ℕ) → IsEarly t now ⊎ IsDue t now
IsEarly-or_IsDue (pos t) now = elim (dec_lt now (t + msg_cooldown)) [
  | yes soon ↦ inl soon
  | no late ↦ inr (omega arith)
]
IsEarly-or_IsDue (negsuc t) now = inr tt

-- Bytes that come in time are handled as the text of their first line.
pub receive-handle_text :
    (i : ℕ) (c : Client) (bytes : List ℕ) (now : ℕ) (s : Chat)
    → IsDue c.last_msg_time now
    → length bytes < max_buffer
    → receive i c bytes now s ≡ handle_text i c (first_line bytes) now s
unfolding receive
receive-handle_text i c bytes now s late fits =
    rw (is_due-true c.last_msg_time now late, terminate-ok bytes fits, cut_line-terminated bytes)

-- Within the cooldown nothing happens.
pub receive-too_soon :
    (i : ℕ) (c : Client) (bytes : List ℕ) (now : ℕ) (s : Chat)
    → IsEarly c.last_msg_time now
    → receive i c bytes now s ≡ ok s
unfolding receive
receive-too_soon i c bytes now s soon = rw (is_due-false c.last_msg_time now soon)

-- The bytes that an outcome writes to `f`, after those written before.
abbrev pub Sends : Chat → Chat → ℤ → List (List ℕ) → Type 0
Sends s s' f texts = sent_to f s'.out ≡ sent_to f s.out ++ texts

module _ (i : ℕ) (c : Client) (s : Chat) (v : IsValid s.clients)
    (at_i : get_elem? s.clients i ≡ some c) (live : is_neg c.fd ≡ false) where
  name_fits : length c.name < name_size
  name_fits = (AreNamed-get s.clients i v.named at_i live).0

  sender_in : has_fd c.fd (fds s.clients) ≡ true
  sender_in = has_fd_of_get_elem? (fds s.clients) i (get_elem?-fds s.clients i at_i)

  abbrev pub chat_outcome : List ℕ → ℕ → Chat
  chat_outcome text now = record {
    clients = set s.clients i (record c { last_msg_time = pos now });
    out =
        s.out
        ++ (send_msg c (echo_text text)
            ++ (broadcast_msg s.clients (chat_text c.name text) c.fd
                ++ printed (chat_text c.name text) ∷ []));
  }

  pub chat-ok :
      (text : List ℕ) (now : ℕ)
      → length text + 34 ≤ max_buffer
      → chat i c text now s ≡ ok (chat_outcome text now)
  unfolding chat
  chat-ok text now fits = rw (
    sprintf-ok (echo_text text) (omega (arith, length-echo_text text)),
    sprintf-ok (chat_text c.name text) (omega (arith, length-chat_text c.name text, name_fits)),
  )

  pub chat-Sends :
      (text : List ℕ) (now : ℕ) (f : ℤ)
      → is_neg f ≡ false
      → Sends s (chat_outcome text now) f (
          if f ==ℤ c.fd
          then echo_text text ∷ []
          else once_if (has_fd f (fds s.clients)) (chat_text c.name text))
  chat-Sends text now f here = rw (sent_to-append f s.out _) (
      ap (λ t. sent_to f s.out ++ t)
        (sent_to-speech s.clients (echo_text text) (chat_text c.name text) c.fd f here v.distinct))

  abbrev pub rename_outcome : List ℕ → Chat
  rename_outcome name =
      tell_all (renamed c.name name)
        (record s { clients = set s.clients i (record c { name = name }) })

  pub change_name-ok :
      (name : List ℕ)
      → 0 < length name
      → length name < name_size
      → change_name i c name s ≡ ok (rename_outcome name)
  unfolding change_name
  change_name-ok name some_text fits = rw (
    lt→ltb _ _ some_text,
    lt→ltb _ _ fits,
    sprintf-ok (renamed c.name name) (omega (arith, length-renamed c.name name, name_fits)),
  )

  pub rename-Sends :
      (name : List ℕ) (f : ℤ)
      → is_neg f ≡ false
      → Sends s (rename_outcome name) f (once_if (has_fd f (fds s.clients)) (renamed c.name name))
  rename-Sends name f here =
      let same = fds-set_self s.clients i (record c { name = name }) at_i refl in
      rw (sent_to-append f s.out _) (
        ap (λ t. sent_to f s.out ++ t)
          (sent_to-notice (set s.clients i (record c { name = name })) (renamed c.name name) f here
              (rw same v.distinct)
            ∙ ap (λ fs. once_if (has_fd f fs) (renamed c.name name)) same))

  -- A name that is empty or too long is refused, to its client alone.
  pub change_name-refused :
      (name : List ℕ)
      → (length name ≡ 0) ⊎ (name_size ≤ length name)
      → change_name i c name s ≡ ok (emit s (send_msg c bad_name))
  unfolding change_name
  change_name-refused name wrong =
      let out : (ltb 0 (length name) && ltb (length name) name_size) ≡ false = ground arith in
      rw (out, sprintf-bad_name)

  abbrev pub gone_text : List ℕ
  gone_text = announce (c.name ++ codes " has disconnected")

  abbrev pub disconnect_outcome : Chat
  disconnect_outcome =
      let clients : List Client = set s.clients i (record c { fd = minus_one }) in
      record {
        clients = clients;
        out =
            s.out ++ (closed c.fd ∷ printed gone_text ∷ broadcast_msg clients gone_text minus_one);
      }

  pub disconnect-ok : disconnect i c s ≡ ok disconnect_outcome
  unfolding disconnect
  disconnect-ok = rw (sprintf-short c.name (codes " has disconnected") name_fits (omega arith))
