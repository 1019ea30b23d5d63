-- ===== src/Chat/Runs.antt =====
-- Runs of the two servers from their start: a client joins, and a second one asks to.
use zhone_engineering_academ.Common.{◌≡◌, refl, false, ◌||◌, [], ◌∷◌, pos, minus_one, ◌==ℤ◌}
use zhone_engineering_academ.CText.{codes, decimal}
use zhone_engineering_academ.Chat.Types.{Chat, Round, ok, wrote, printed}
use zhone_engineering_academ.Chat.Client.{sprintf, broadcast_msg, free_slot}
use zhone_engineering_academ.Chat.Orderly.{IsOrderly}
use zhone_engineering_academ.Chat.Poll
use zhone_engineering_academ.Chat.Poll.{Memory, PollServer, running}
use zhone_engineering_academ.Chat.Poll.Safety.{IsServing}
use zhone_engineering_academ.Chat.Poll.Admission.{IsStale}
use zhone_engineering_academ.Chat.Poll.Run.{Reach, started, served, Reach-serves}
use zhone_engineering_academ.Chat.Select
use zhone_engineering_academ.Chat.Select.{SelectServer}
use zhone_engineering_academ.Chat.Mirror.Run.{Together, Together-same}
use zhone_engineering_academ.Chat.Mirror.Run
use zhone_engineering_academ.Chat.Tests.{alice, peer, round, entry}
use zhone_engineering_academ.Chat.Examples.{answer, select, ready, answer-IsPoll, round-IsSmall}

-- `alice` is junk of the stack: the start overwrites her descriptor.
abbrev blank : Memory
blank = record { clients = λ _. alice; pfds = λ _. entry minus_one }

abbrev opened : PollServer
opened = record {
  listenfd = pos 3;
  pfds = entry minus_one ∷ entry minus_one ∷ entry minus_one ∷ entry (pos 3) ∷ [];
  chat = record {
    clients =
        record alice { fd = minus_one }
        ∷ record alice { fd = minus_one }
        ∷ record alice { fd = minus_one }
        ∷ [];
    out = [];
  };
}

abbrev first_joined : Chat
first_joined = record {
  clients =
      record { fd = pos 6; addr = peer; name = codes "127.0.0.1:40000"; last_msg_time = pos 0 }
      ∷ record alice { fd = minus_one }
      ∷ record alice { fd = minus_one }
      ∷ [];
  out =
      printed (codes "[Server] 127.0.0.1:40000 connected.\n")
      ∷ wrote (pos 6) (codes "[Server] 127.0.0.1:40000 connected.\n")
      ∷ [];
}

abbrev joined_poll : PollServer
joined_poll = record {
  listenfd = pos 3;
  pfds =
      entry (pos 6)
      ∷ entry minus_one
      ∷ entry minus_one
      ∷ record (entry (pos 3)) { revents = 1 }
      ∷ [];
  chat = first_joined;
}

opened-start : Poll.start blank (pos 3) (pos 0) (pos 0) ≡ running opened
unfolding Poll.start Poll.init_clients
opened-start = refl

opened-iteration : Poll.iteration answer round opened ≡ ok joined_poll
unfolding Poll.iteration Poll.accept_client Poll.serve_client sprintf broadcast_msg free_slot
    Poll.unwatch decimal
opened-iteration = refl

opened-IsOrderly : IsOrderly round opened.chat.clients
opened-IsOrderly = record { fresh = λ _. refl; clean = refl; small = round-IsSmall }

joined_poll-Reach : Reach blank (pos 3) joined_poll
joined_poll-Reach = served answer round (started opened-start) opened-IsOrderly opened-iteration

abbrev second_round : Round
second_round = record round { accepted = pos 7 }

second-IsOrderly : IsOrderly second_round first_joined.clients
second-IsOrderly = record { fresh = λ _. refl; clean = refl; small = round-IsSmall }

Reach-serves_example :
    IsServing (IsStale blank) joined_poll
    × (s' : PollServer) × (Poll.iteration answer second_round joined_poll ≡ ok s')
    × Reach blank (pos 3) s'
    × IsServing (IsStale blank) s'
Reach-serves_example = Reach-serves answer second_round joined_poll-Reach second-IsOrderly

abbrev opened_select : SelectServer
opened_select = record {
  listenfd = pos 3;
  allset = λ f. f ==ℤ pos 3 || false;
  rset = λ _. false;
  maxfd = pos 3;
  chat = opened.chat;
}

abbrev joined_select : SelectServer
joined_select = record {
  listenfd = pos 3;
  allset = λ f. f ==ℤ pos 6 || (f ==ℤ pos 3 || false);
  rset = select (pos 3) (λ f. f ==ℤ pos 3 || false);
  maxfd = pos 6;
  chat = first_joined;
}

select-start : Select.start (λ _. alice) (pos 3) (pos 0) (pos 0) ≡ ok (running opened_select)
unfolding Select.start Poll.init_clients Select.fd_zero
select-start = refl

select-iteration : Select.iteration select round opened_select ≡ ok joined_select
unfolding Select.iteration Select.accept_client Select.serve_client sprintf broadcast_msg free_slot
    decimal
select-iteration = refl

joined-Together : Together blank (pos 3) joined_poll joined_select
joined-Together =
    Run.served ready answer select round (Run.started opened-start select-start) answer-IsPoll
      (record { reports = λ m s f. refl }) opened-IsOrderly
      (record { succeeds = refl; in_range = refl; other = refl }) opened-iteration select-iteration

Together-same_example :
    (joined_poll.chat ≡ joined_select.chat)
    × (p' : PollServer) × (s' : SelectServer) × (Poll.iteration answer second_round joined_poll
        ≡ ok p')
    × (Select.iteration select second_round joined_select ≡ ok s')
    × Together blank (pos 3) p' s'
    × (p'.chat ≡ s'.chat)
Together-same_example =
    Together-same (record { unset = λ _ _. refl; socket = refl; in_range = refl }) second_round
      joined-Together answer-IsPoll (record { reports = λ m s f. refl }) second-IsOrderly
      (record { succeeds = refl; in_range = refl; other = refl })
