-- ===== src/Chat/Conversation.antt =====
-- The message handler of server_poll.c and server_select.c as its users see it.
use zhone_engineering_academ.Common.{
  ℕ, ◌+◌, ◌<◌, ◌≤◌, ◌≡◌, refl, ap, ◌∙◌, inl, inr, Bool, true, false, some, List, [], ◌∷◌, ℤ, is_neg,
  pos, minus_one, ◌==ℤ◌, arith, if◌then◌else◌, length, set, get_elem?, drop, Bool-cases, ◌&&◌, ltb,
  ◌⊎◌,
}
use zhone_engineering_academ.CText.{codes, has_prefix}
use zhone_engineering_academ.CText.Memory.{has_byte-drop}
use zhone_engineering_academ.Chat.Types.{Client, Chat, max_buffer, name_size, ok, emit}
use zhone_engineering_academ.Chat.Message.{
  renamed, bad_name, echo_text, chat_text, handle_text, receive, disconnect,
}
use zhone_engineering_academ.Chat.Client.{send_msg}
use zhone_engineering_academ.Chat.Slots.{fds, has_fd, fds-set_self}
use zhone_engineering_academ.Chat.Delivery.{once_if, sent_to-append}
use zhone_engineering_academ.Chat.Lines.{first_line, length-first_line, first_line-no_nul}
use zhone_engineering_academ.Chat.Invariant.{
  IsValid, IsName, AreNamed-get, IsValid-set_self, IsValid-set,
}
use zhone_engineering_academ.Chat.Handling.{
  receive-handle_text, receive-too_soon, Sends, chat-ok, chat-Sends, chat_outcome, rename_outcome,
  change_name-ok, rename-Sends, change_name-refused, disconnect-ok, disconnect_outcome, IsDue,
  IsEarly-or_IsDue,
}

-- With at most so many bytes at a time every formatted text fits `send_buf`.
abbrev pub max_text : ℕ
max_text = 4062

-- Whether a received line is the `/name` command.
abbrev pub is_command : List ℕ → Bool
is_command bytes = has_prefix (codes "/name ") (first_line bytes)

abbrev pub asked_name : List ℕ → List ℕ
asked_name bytes = drop 6 (first_line bytes)

-- Whether `IsName` holds of a text with no 0, and it is not empty.
abbrev pub is_acceptable : List ℕ → Bool
is_acceptable name = ltb 0 (length name) && ltb (length name) name_size

module _ (i : ℕ) (c : Client) (bytes : List ℕ) (now : ℕ) (s : Chat) (v : IsValid s.clients)
    (at_i : get_elem? s.clients i ≡ some c) (live : is_neg c.fd ≡ false)
    (small : length bytes ≤ max_text) where
  fits : length (first_line bytes) + 34 ≤ max_buffer
  fits = omega (arith, length-first_line bytes)

  -- A line that is no command, and comes in time, is echoed to its sender once, sent once to
  -- every other client, and to no other descriptor; the sender's time is set.
  pub receive-chat :
      IsDue c.last_msg_time now
      → is_command bytes ≡ false
      → (f : ℤ) → is_neg f ≡ false
      → (s' : Chat) × (receive i c bytes now s ≡ ok s')
        × (s'.clients ≡ set s.clients i (record c { last_msg_time = pos now }))
        × Sends s s' f (
            if f ==ℤ c.fd
            then echo_text (first_line bytes) ∷ []
            else once_if (has_fd f (fds s.clients)) (chat_text c.name (first_line bytes)))
  unfolding handle_text
  receive-chat late plain f here = (
    chat_outcome i c s v at_i live (first_line bytes) now,
    receive-handle_text i c bytes now s late (omega arith)
        ∙ rw plain (chat-ok i c s v at_i live (first_line bytes) now fits),
    refl,
    chat-Sends i c s v at_i live (first_line bytes) now f here,
  )

  -- A `/name` command with a name of 1 to 29 bytes changes the name, and tells every client once.
  pub receive-rename :
      IsDue c.last_msg_time now
      → is_command bytes ≡ true
      → 0 < length (asked_name bytes)
      → length (asked_name bytes) < name_size
      → (f : ℤ) → is_neg f ≡ false
      → (s' : Chat) × (receive i c bytes now s ≡ ok s')
        × (s'.clients ≡ set s.clients i (record c { name = asked_name bytes }))
        × Sends s s' f (once_if (has_fd f (fds s.clients)) (renamed c.name (asked_name bytes)))
  unfolding handle_text
  receive-rename late command some_text short f here = (
    rename_outcome i c s v at_i live (asked_name bytes),
    receive-handle_text i c bytes now s late (omega arith)
        ∙ rw command (change_name-ok i c s v at_i live (asked_name bytes) some_text short),
    refl,
    rename-Sends i c s v at_i live (asked_name bytes) f here,
  )

  -- Any other name is refused, to the sender alone, and no client changes.
  pub receive-bad_name :
      IsDue c.last_msg_time now
      → is_command bytes ≡ true
      → is_acceptable (asked_name bytes) ≡ false
      → (f : ℤ)
      → (s' : Chat) × (receive i c bytes now s ≡ ok s')
        × (s'.clients ≡ s.clients)
        × Sends s s' f (once_if (c.fd ==ℤ f) bad_name)
  unfolding handle_text
  receive-bad_name late command wrong f = (
    emit s (send_msg c bad_name),
    receive-handle_text i c bytes now s late (omega arith)
        ∙ rw command (change_name-refused i c s v at_i live (asked_name bytes) (ground arith)),
    refl,
    sent_to-append f s.out (send_msg c bad_name),
  )

  -- What a `/name` command does: the name is changed and every client told once, or the sender alone
  -- is told, and no client changes.
  abbrev pub IsRenamed : Chat → (f : ℤ) → Type 0
  IsRenamed s' f =
      (s'.clients ≡ set s.clients i (record c { name = asked_name bytes }))
      × Sends s s' f (once_if (has_fd f (fds s.clients)) (renamed c.name (asked_name bytes)))

  abbrev pub IsRefused : Chat → (f : ℤ) → Type 0
  IsRefused s' f = (s'.clients ≡ s.clients) × Sends s s' f (once_if (c.fd ==ℤ f) bad_name)

  -- A `/name` command that comes in time never fails. A name of 1 to 29 bytes is taken and every
  -- client told once; any other is refused, the sender alone being told, and no client changes.
  pub receive-name :
      IsDue c.last_msg_time now
      → is_command bytes ≡ true
      → (f : ℤ) → is_neg f ≡ false
      → (s' : Chat) × (receive i c bytes now s ≡ ok s')
        × (((is_acceptable (asked_name bytes) ≡ true) × IsRenamed s' f)
            ⊎ ((is_acceptable (asked_name bytes) ≡ false) × IsRefused s' f))
  receive-name late command f here = elim (Bool-cases (is_acceptable (asked_name bytes))) [
    | inl fine ↦
        let (s', e, same, sent) =
          receive-rename late command (ground arith) (ground arith) f here in
        (s', e, inl (fine, (same, sent)))
    | inr wrong ↦
        let (s', e, same, sent) = receive-bad_name late command wrong f in
        (s', e, inr (wrong, (same, sent)))
  ]

  -- Whatever the bytes, the handler returns, keeps the invariant, and leaves every descriptor
  -- where it is.
  abbrev Kept : Type 0
  Kept =
      (s' : Chat) × (receive i c bytes now s ≡ ok s')
      × IsValid s'.clients
      × (fds s'.clients ≡ fds s.clients)

  name_ok : IsName c.name
  name_ok = AreNamed-get s.clients i v.named at_i live

  kept_of_chat : IsDue c.last_msg_time now → is_command bytes ≡ false → Kept
  kept_of_chat late plain =
      let (s', e, same, _) = receive-chat late plain (pos 0) refl in
      (
        s',
        e,
        rw same (IsValid-set_self v i _ at_i refl (λ _. name_ok)),
        rw same (fds-set_self s.clients i _ at_i refl),
      )

  kept_of_rename :
      IsDue c.last_msg_time now
      → is_command bytes ≡ true
      → is_acceptable (asked_name bytes) ≡ true
      → Kept
  kept_of_rename late command fine =
      let some_text : 0 < length (asked_name bytes) = ground arith in
      let short : length (asked_name bytes) < name_size = ground arith in
      let (s', e, same, _) = receive-rename late command some_text short (pos 0) refl in
      let clean = has_byte-drop 6 0 (first_line bytes) (first_line-no_nul bytes) in
      (
        s',
        e,
        rw same (IsValid-set_self v i _ at_i refl (λ _. (short, clean))),
        rw same (fds-set_self s.clients i _ at_i refl),
      )

  pub receive-IsValid : Kept
  receive-IsValid = elim (IsEarly-or_IsDue c.last_msg_time now) [
    | inl soon ↦ (s, receive-too_soon i c bytes now s soon, v, refl)
    | inr late ↦ elim (Bool-cases (is_command bytes)) [
      | inr plain ↦ kept_of_chat late plain
      | inl command ↦ elim (Bool-cases (is_acceptable (asked_name bytes))) [
        | inl fine ↦ kept_of_rename late command fine
        | inr wrong ↦
            let (s', e, same, _) = receive-bad_name late command wrong (pos 0) in
            (s', e, rw same v, ap fds same)
      ]
    ]
  ]

module _ (i : ℕ) (c : Client) (s : Chat) (v : IsValid s.clients)
    (at_i : get_elem? s.clients i ≡ some c) (live : is_neg c.fd ≡ false) where
  -- A disconnection frees the slot and keeps the invariant.
  pub disconnect-IsValid :
      (s' : Chat) × (disconnect i c s ≡ ok s')
      × IsValid s'.clients
      × (s'.clients ≡ set s.clients i (record c { fd = minus_one }))
  disconnect-IsValid = (
    disconnect_outcome i c s v at_i live,
    disconnect-ok i c s v at_i live,
    IsValid-set v i (record c { fd = minus_one }) (λ p. cc) (λ p. cc),
    refl,
  )
