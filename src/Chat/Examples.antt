-- ===== src/Chat/Examples.antt =====
-- The theorems about the chat servers at the clients and the round of Tests.antt.
use zhone_engineering_academ.Common.{
  ◌⊎◌, ℕ, ◌≡◌, refl, Bool, true, false, not, ◌&&◌, ◌||◌, [], ◌∷◌, ℤ, pos, is_neg, ◌==ℤ◌, ltb_ℤ,
  if◌then◌else◌, set, arith, Bool-cases, inl, inr,
}
use zhone_engineering_academ.CText.{codes}
use zhone_engineering_academ.Chat.Types.{wrote, printed, Chat, ok}
use zhone_engineering_academ.Chat.Client.{sprintf, broadcast_msg}
use zhone_engineering_academ.Chat.Message.{receive}
use zhone_engineering_academ.Chat.Slots.{fds}
use zhone_engineering_academ.Chat.Invariant.{IsValid}
use zhone_engineering_academ.Chat.Handling.{Sends}
use zhone_engineering_academ.Chat.Slots.{fds, AreTaken, IsFirstFree}
use zhone_engineering_academ.Chat.Conversation.{
  receive-chat, receive-name, is_acceptable, asked_name,
}
use zhone_engineering_academ.Chat.Cooldown.{receive-receive}
use zhone_engineering_academ.Chat.Orderly.{IsSmall, IsOrderly}
use zhone_engineering_academ.Chat.Poll.{PollFd, is_readable}
use zhone_engineering_academ.Chat.Poll.Safety.{IsServing}
use zhone_engineering_academ.Chat.Poll.Admission.{accept_client-answers, IsTurnedAway, Joins}
use zhone_engineering_academ.Chat.Select.{FdSet}
use zhone_engineering_academ.Chat.Mirror.Answers.{IsPoll}
use zhone_engineering_academ.Chat.Tests.{alice, bob, nobody, room, round, entry, server}

room-IsValid : IsValid room.clients
room-IsValid = record {
  size = refl;
  distinct = ((λ _. refl), ((λ _. refl), ((λ _. refl), tt)));
  named = ((λ _. (omega arith, refl)), ((λ p. cc), ((λ _. (omega arith, refl)), tt)));
}

pub round-IsSmall : (f : ℤ) → IsSmall (round.received f)
round-IsSmall f = elim (Bool-cases (f ==ℤ pos 4)) [
  | inl hit ↦ rw hit (omega arith)
  | inr miss ↦ rw miss tt
]

round-IsOrderly : IsOrderly round room.clients
round-IsOrderly = record { fresh = λ _. refl; clean = refl; small = round-IsSmall }

server-IsServing : IsServing (λ _. ⊥) server
server-IsServing = record {
  valid = room-IsValid;
  watched = ((λ _. (refl, refl)), ((λ _. (refl, refl)), ((λ _. (refl, refl)), tt)));
  released = ((λ p. cc), ((λ _. inl refl), ((λ p. cc), tt)));
  listens = (entry (pos 3), refl, refl, refl);
}

-- Input waits on the listening socket and on `alice`.
abbrev pub ready : ℤ → Bool
ready f = f ==ℤ pos 3 || f ==ℤ pos 4

abbrev pub answer : PollFd → ℕ
answer p = if is_neg p.fd then 0 else if ready p.fd then 1 else 0

abbrev pub select : ℤ → FdSet → FdSet
select maxfd fds f = fds f && (not (ltb_ℤ maxfd f) && ready f)

pub answer-IsPoll : IsPoll ready answer
answer-IsPoll = record {
  reports = λ p asked live. rw live (reported (ready p.fd));
  skips = λ p idle. rw idle;
}
  where
    reported : (b : Bool) → is_readable (if b then 1 else 0) ≡ b
    reported true = refl
    reported false = refl

receive-chat_example :
    (s' : Chat) × (receive 0 alice (codes "hi\r\n") 11 room ≡ ok s')
    × (s'.clients ≡ set room.clients 0 (record alice { last_msg_time = pos 11 }))
    × Sends room s' (pos 5) (codes "[alice] hi\n" ∷ [])
receive-chat_example =
    receive-chat 0 alice (codes "hi\r\n") 11 room room-IsValid refl refl (omega arith) (omega arith)
      refl (pos 5) refl

receive-name_example :
    let name = codes "/name eve\n" in
    (s' : Chat) × (receive 0 alice name 11 room ≡ ok s')
    × (((is_acceptable (asked_name name) ≡ true)
          × ((s'.clients ≡ set room.clients 0 (record alice { name = codes "eve" }))
              × Sends room s' (pos 5) (codes "[Server] alice changed name to eve.\n" ∷ [])))
        ⊎ ((is_acceptable (asked_name name) ≡ false)
            × ((s'.clients ≡ room.clients) × Sends room s' (pos 5) [])))
receive-name_example =
    receive-name 0 alice (codes "/name eve\n") 11 room room-IsValid refl refl (omega arith)
      (omega arith) refl (pos 5) refl

-- The room after `alice` said "hi" at second 11.
abbrev said : Chat
said = record {
  clients = record alice { last_msg_time = pos 11 } ∷ nobody ∷ bob ∷ [];
  out =
      wrote (pos 4) (codes "[You] hi\n")
      ∷ wrote (pos 5) (codes "[alice] hi\n")
      ∷ printed (codes "[alice] hi\n")
      ∷ [];
}

said-receive : receive 0 alice (codes "hi\n") 11 room ≡ ok said
unfolding receive sprintf broadcast_msg
said-receive = refl

receive-receive_example :
    receive 0 (record alice { last_msg_time = pos 11 }) (codes "again\n") 11 said ≡ ok said
receive-receive_example =
    receive-receive 0 alice (codes "hi\n") 11 room room-IsValid refl refl (omega arith)
      (omega arith) refl said (record alice { last_msg_time = pos 11 }) (codes "again\n") 11
      said-receive refl (omega arith)

accept_client-answers_example :
    (AreTaken (fds room.clients) × IsTurnedAway round server (pos 6))
    ⊎ ((i : ℕ) × IsFirstFree i (fds room.clients) × Joins round server i (pos 6))
accept_client-answers_example =
    accept_client-answers round server (pos 6) round-IsOrderly server-IsServing refl
