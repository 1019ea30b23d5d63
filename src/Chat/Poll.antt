-- ===== src/Chat/Poll.antt =====
-- `main` of section-07/lab/lab_4/server_poll.c: the array that `poll` watches beside the clients.
pub mod Watch
pub mod Safety
pub mod Admission
pub mod Run
use zhone_engineering_academ.Common.{
  ℕ, zero, suc, ◌%◌, Bool, none, some, List, [], ◌∷◌, ◌++◌, ℤ, minus_one, is_neg, if◌then◌else◌,
  ◌==◌, set, get_elem?, modify, map, pos,
}
use zhone_engineering_academ.CText.{codes}
use zhone_engineering_academ.Chat.Types.{
  Client, name_size, max_clients, printed, closed, out_of_bounds, Result, ok, fault, ◌>>=◌, Chat,
  emit, Received, failed, got, Round,
}
use zhone_engineering_academ.Chat.Client.{addr_to_str, send_msg, exit_handler, free_slot, sprintf}
use zhone_engineering_academ.Chat.Message.{announce, tell_all, receive, disconnect}

-- `struct pollfd`
pub record PollFd : Type 0 where
  pub fd : ℤ
  pub events : ℕ
  pub revents : ℕ

abbrev pub pollin : ℕ
pollin = 1

-- `revents & POLLIN`, the lowest bit.
abbrev pub is_readable : ℕ → Bool
is_readable revents = revents % 2 == 1

pub record PollServer : Type 0 where
  pub listenfd : ℤ
  pub pfds : List PollFd
  pub chat : Chat

-- What `malloc` and the stack hold before they are written.
pub record Memory : Type 0 where
  pub clients : ℕ → Client
  pub pfds : ℕ → PollFd

-- `for (i = 0; i < MAX_CLIENTS; i++) clients[i].fd = -1`
unfoldable pub init_clients : (rounds i : ℕ) → (ℕ → Client) → List Client
init_clients zero i memory = []
init_clients (suc k) i memory = record (memory i) { fd = minus_one } ∷ init_clients k (suc i) memory

init_pfds : (rounds i : ℕ) → ℤ → (ℕ → PollFd) → List PollFd
init_pfds zero i listenfd memory = record (memory i) { fd = listenfd; events = pollin } ∷ []
init_pfds (suc k) i listenfd memory = memory i ∷ init_pfds k (suc i) listenfd memory

-- The server serves, or has left by `exit(-1)`.
pub data Startup (S : Type 0) : Type 0 where
  running : S → Startup S
  exited : Chat → Startup S

-- Up to the main loop, with what `bind` and `listen` return.
unfoldable pub start : Memory → (listenfd bound listening : ℤ) → Startup PollServer
unfolding init_clients init_pfds exit_handler
start memory listenfd bound listening =
    let chat : Chat = record { clients = init_clients max_clients 0 memory.clients; out = [] } in
    elim bound [
      | pos zero ↦ elim listening [
        | pos zero ↦ running (record {
          listenfd = listenfd;
          pfds = init_pfds max_clients 0 listenfd memory.pfds;
          chat = chat;
        })
        | _ ↦ exited (exit_handler listenfd chat)
      ]
      | _ ↦ exited (exit_handler listenfd chat)
    ]

-- `poll` writes `revents` of each entry; `answer` is what it finds.
unfoldable pub poll_all : (PollFd → ℕ) → List PollFd → List PollFd
poll_all answer = map (λ (p : PollFd). record p { revents = answer p })

-- The temporary client of a new connection.
unfoldable pub new_client : Round → Client
unfolding addr_to_str
new_client r = record {
  fd = r.accepted;
  addr = r.peer;
  name = addr_to_str r.net r.peer name_size;
  last_msg_time = r.stale_time;
}

-- `pfds[i].fd = fd; pfds[i].events = POLLIN`
unfoldable pub watch : ℕ → ℤ → List PollFd → List PollFd
watch i fd ps = modify ps i (λ p. record p { fd = fd; events = pollin })

-- `pfds[i].fd = -1`
unfoldable pub unwatch : ℕ → List PollFd → List PollFd
unwatch i ps = modify ps i (λ p. record p { fd = minus_one })

-- After a refusal the loop goes on with its next iteration.
pub data Accepted (S : Type 0) : Type 0 where
  refused : S → Accepted S
  joined : S → Accepted S

-- The two messages of a refusal, and the close.
unfoldable pub refuse : Client → Chat → Chat
refuse c s = emit s (
    printed
      (codes "[Server] Max clients reached. Connection from " ++ (c.name ++ codes " refused.\n"))
    ∷ (send_msg c (codes "Server is full. Try again later.\n") ++ closed c.fd ∷ []))

abbrev pub connected : Client → List ℕ
connected c = announce (c.name ++ codes " connected")

unfoldable pub accept_client : Round → PollServer → Result (Accepted PollServer)
unfolding watch new_client refuse
accept_client r s =
    let client = new_client r in
    elim (free_slot s.chat.clients) [
      | none ↦ ok (refused (record s { chat = refuse client s.chat }))
      | some i ↦ (do
        let clients = set s.chat.clients i client
        send_buf ← sprintf (connected client)
        ok (
            joined (record s {
              pfds = watch i client.fd s.pfds;
              chat = tell_all send_buf (record s.chat { clients = clients });
            })))
    ]

-- The bytes of client `c` in slot `i`; `n <= 0` is a disconnection.
unfoldable pub on_read : ℕ → Client → Received → ℕ → PollServer → Result PollServer
on_read i c failed now s = do
  chat ← disconnect i c s.chat
  ok (record s { chat = chat; pfds = unwatch i s.pfds })
on_read i c (got []) now s = do
  chat ← disconnect i c s.chat
  ok (record s { chat = chat; pfds = unwatch i s.pfds })
on_read i c (got (b ∷ bs)) now s = do
  chat ← receive i c (b ∷ bs) now s.chat
  ok (record s { chat = chat })

-- The body of the loop over the clients.
unfoldable pub serve_client : Round → ℕ → PollServer → Result PollServer
unfolding on_read
serve_client r i s = elim (get_elem? s.chat.clients i) [
  | none ↦ fault out_of_bounds
  | some c ↦ if is_neg c.fd then ok s else elim (get_elem? s.pfds i) [
    | none ↦ fault out_of_bounds
    | some p ↦ if is_readable p.revents then on_read i c (r.received c.fd) (r.now c.fd) s else ok s
  ]
]

unfoldable pub serve_clients : Round → (rounds i : ℕ) → PollServer → Result PollServer
serve_clients r zero i s = ok s
serve_clients r (suc k) i s = do s' ← serve_client r i s; serve_clients r k (suc i) s'

unfoldable pub after_accept : Round → Accepted PollServer → Result PollServer
after_accept r (refused s) = ok s
after_accept r (joined s) = serve_clients r max_clients 0 s

-- One iteration of the main loop.
unfoldable pub iteration : (PollFd → ℕ) → Round → PollServer → Result PollServer
unfolding poll_all serve_clients after_accept
iteration answer r s =
    let polled : PollServer = record s { pfds = poll_all answer s.pfds } in
    elim (get_elem? polled.pfds max_clients) [
      | none ↦ fault out_of_bounds
      | some p ↦
          if is_readable p.revents
          then (do accepted ← accept_client r polled; after_accept r accepted)
          else serve_clients r max_clients 0 polled
    ]
