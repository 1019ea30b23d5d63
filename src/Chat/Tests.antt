-- ===== src/Chat/Tests.antt =====
-- Runs of the two servers on concrete inputs.
use zhone_engineering_academ.Common.{◌≡◌, refl, [], ◌∷◌, ℤ, pos, ◌==ℤ◌, minus_one, if◌then◌else◌}
use zhone_engineering_academ.CText.{codes, decimal}
use zhone_engineering_academ.Chat.Types.{
  SockAddr, Client, wrote, closed, printed, ok, Chat, failed, got, Round, Network,
}
use zhone_engineering_academ.Chat.Client.{addr_to_str, broadcast_msg, sprintf, free_slot}
use zhone_engineering_academ.Chat.Message.{receive, disconnect}
use zhone_engineering_academ.Chat.Poll
use zhone_engineering_academ.Chat.Poll.{PollFd, PollServer, running, exited}

abbrev pub loopback : Network
loopback = record { inet_ntop = λ _. codes "127.0.0.1"; ntohs = λ p. p }

abbrev pub peer : SockAddr
peer = record { sin_addr = 1; sin_port = 40_000 }

abbrev pub alice : Client
alice = record { fd = pos 4; addr = peer; name = codes "alice"; last_msg_time = pos 10 }

abbrev pub bob : Client
bob = record { fd = pos 5; addr = peer; name = codes "bob"; last_msg_time = pos 10 }

abbrev pub nobody : Client
nobody = record { fd = minus_one; addr = peer; name = []; last_msg_time = pos 0 }

abbrev pub room : Chat
room = record { clients = alice ∷ nobody ∷ bob ∷ []; out = [] }

name_test : addr_to_str loopback peer 30 ≡ codes "127.0.0.1:40000"
unfolding addr_to_str decimal
name_test = refl

chat_test :
    receive 0 alice (codes "hi\r\n") 11 room
    ≡ ok (record {
      clients = record alice { last_msg_time = pos 11 } ∷ nobody ∷ bob ∷ [];
      out =
          wrote (pos 4) (codes "[You] hi\n")
          ∷ wrote (pos 5) (codes "[alice] hi\n")
          ∷ printed (codes "[alice] hi\n")
          ∷ [];
    })
unfolding receive sprintf broadcast_msg
chat_test = refl

rename_test :
    receive 0 alice (codes "/name eve\n") 11 room
    ≡ ok (record {
      clients = record alice { name = codes "eve" } ∷ nobody ∷ bob ∷ [];
      out =
          printed (codes "[Server] alice changed name to eve.\n")
          ∷ wrote (pos 4) (codes "[Server] alice changed name to eve.\n")
          ∷ wrote (pos 5) (codes "[Server] alice changed name to eve.\n")
          ∷ [];
    })
unfolding receive sprintf broadcast_msg
rename_test = refl

abbrev pub round : Round
round = record {
  net = loopback;
  accepted = pos 6;
  peer = peer;
  stale_time = pos 0;
  received = λ fd. if fd ==ℤ pos 4 then got (codes "hi\n") else failed;
  now = λ _. 11;
}

abbrev pub entry : ℤ → PollFd
entry fd = record { fd = fd; events = 1; revents = 0 }

abbrev pub server : PollServer
server = record {
  listenfd = pos 3;
  pfds = entry (pos 4) ∷ entry minus_one ∷ entry (pos 5) ∷ entry (pos 3) ∷ [];
  chat = room;
}

-- In one iteration a client joins, `alice` speaks and `bob` leaves.
busy_test :
    Poll.iteration (λ p. if p.fd ==ℤ minus_one then 0 else 1) round server
    ≡ ok (record {
      listenfd = pos 3;
      pfds =
          record (entry (pos 4)) { revents = 1 }
          ∷ entry (pos 6)
          ∷ record (entry minus_one) { revents = 1 }
          ∷ record (entry (pos 3)) { revents = 1 }
          ∷ [];
      chat = record {
        clients =
            record alice { last_msg_time = pos 11 }
            ∷ record {
              fd = pos 6;
              addr = peer;
              name = codes "127.0.0.1:40000";
              last_msg_time = pos 0;
            }
            ∷ record bob { fd = minus_one }
            ∷ [];
        out =
            printed (codes "[Server] 127.0.0.1:40000 connected.\n")
            ∷ wrote (pos 4) (codes "[Server] 127.0.0.1:40000 connected.\n")
            ∷ wrote (pos 6) (codes "[Server] 127.0.0.1:40000 connected.\n")
            ∷ wrote (pos 5) (codes "[Server] 127.0.0.1:40000 connected.\n")
            ∷ wrote (pos 4) (codes "[You] hi\n")
            ∷ wrote (pos 6) (codes "[alice] hi\n")
            ∷ wrote (pos 5) (codes "[alice] hi\n")
            ∷ printed (codes "[alice] hi\n")
            ∷ closed (pos 5)
            ∷ printed (codes "[Server] bob has disconnected.\n")
            ∷ wrote (pos 4) (codes "[Server] bob has disconnected.\n")
            ∷ wrote (pos 6) (codes "[Server] bob has disconnected.\n")
            ∷ [];
      };
    })
unfolding Poll.iteration Poll.accept_client Poll.serve_client receive disconnect sprintf
    broadcast_msg free_slot Poll.unwatch decimal
busy_test = refl
