-- ===== src/Chat/Select.antt =====
-- `main` of section-07/lab/lab_4/server_select.c: the set that `select` watches beside the clients.
use zhone_engineering_academ.Common.{
  ℕ, zero, suc, Bool, false, ◌||◌, none, some, [], ◌∷◌, ℤ, is_neg, ◌==ℤ◌, ltb_ℤ, if◌then◌else◌, set,
  get_elem?, pos,
}
use zhone_engineering_academ.Chat.Types.{
  Client, max_clients, out_of_bounds, Result, ok, fault, ◌>>=◌, Chat, Received, failed, got, Round,
}
use zhone_engineering_academ.Chat.Client.{free_slot, sprintf, exit_handler}
use zhone_engineering_academ.Chat.Message.{tell_all, receive, disconnect}
use zhone_engineering_academ.Chat.Poll.{
  Accepted, refused, joined, refuse, connected, new_client, init_clients, Startup, running, exited,
}

-- `fd_set`, as the test `FD_ISSET`.
abbrev pub FdSet : Type 0
FdSet = ℤ → Bool

-- `FD_SETSIZE`
abbrev pub fd_setsize : ℤ
fd_setsize = pos 1024

unfoldable pub fd_zero : FdSet
fd_zero fd = false

-- Outside `0 … FD_SETSIZE - 1` the macro is undefined. The others are applied to descriptors that
-- this one has been applied to.
unfoldable pub fd_set : ℤ → FdSet → Result FdSet
fd_set fd fds =
    if is_neg fd
    then fault out_of_bounds
    else if ltb_ℤ fd fd_setsize
    then ok (λ x. x ==ℤ fd || fds x)
    else fault out_of_bounds

unfoldable pub fd_clr : ℤ → FdSet → FdSet
fd_clr fd fds x = if x ==ℤ fd then false else fds x

pub record SelectServer : Type 0 where
  pub listenfd : ℤ
  pub allset : FdSet
  pub rset : FdSet
  pub maxfd : ℤ
  pub chat : Chat

-- Up to the main loop, with what `bind` and `listen` return.
unfoldable pub start :
    (memory : ℕ → Client) → (listenfd bound listening : ℤ) → Result (Startup SelectServer)
unfolding init_clients fd_set fd_zero exit_handler
start memory listenfd bound listening =
    let chat : Chat = record { clients = init_clients max_clients 0 memory; out = [] } in
    elim bound [
      | pos zero ↦ elim listening [
        | pos zero ↦ (do
          allset ← fd_set listenfd fd_zero
          ok (
              running (record {
                listenfd = listenfd;
                allset = allset;
                rset = fd_zero;
                maxfd = listenfd;
                chat = chat;
              })))
        | _ ↦ ok (exited (exit_handler listenfd chat))
      ]
      | _ ↦ ok (exited (exit_handler listenfd chat))
    ]

unfoldable pub accept_client : Round → SelectServer → Result (Accepted SelectServer)
unfolding fd_set new_client refuse
accept_client r s =
    let client = new_client r in
    elim (free_slot s.chat.clients) [
      | none ↦ ok (refused (record s { chat = refuse client s.chat }))
      | some i ↦ (do
        let clients = set s.chat.clients i client
        allset ← fd_set client.fd s.allset
        let maxfd = if ltb_ℤ s.maxfd client.fd then client.fd else s.maxfd
        send_buf ← sprintf (connected client)
        ok (
            joined (record s {
              allset = allset;
              maxfd = maxfd;
              chat = tell_all send_buf (record s.chat { clients = clients });
            })))
    ]

-- The bytes of client `c` in slot `i`; `n <= 0` is a disconnection.
unfoldable pub on_read : ℕ → Client → Received → ℕ → SelectServer → Result SelectServer
unfolding fd_clr
on_read i c failed now s = do
  chat ← disconnect i c s.chat
  ok (record s { chat = chat; allset = fd_clr c.fd s.allset })
on_read i c (got []) now s = do
  chat ← disconnect i c s.chat
  ok (record s { chat = chat; allset = fd_clr c.fd s.allset })
on_read i c (got (b ∷ bs)) now s = do
  chat ← receive i c (b ∷ bs) now s.chat
  ok (record s { chat = chat })

-- The body of the loop over the clients.
unfoldable pub serve_client : Round → ℕ → SelectServer → Result SelectServer
unfolding on_read
serve_client r i s = elim (get_elem? s.chat.clients i) [
  | none ↦ fault out_of_bounds
  | some c ↦
      if is_neg c.fd
      then ok s
      else if s.rset c.fd
      then on_read i c (r.received c.fd) (r.now c.fd) s
      else ok s
]

unfoldable pub serve_clients : Round → (rounds i : ℕ) → SelectServer → Result SelectServer
serve_clients r zero i s = ok s
serve_clients r (suc k) i s = do s' ← serve_client r i s; serve_clients r k (suc i) s'

unfoldable pub after_accept : Round → Accepted SelectServer → Result SelectServer
after_accept r (refused s) = ok s
after_accept r (joined s) = serve_clients r max_clients 0 s

-- One iteration of the main loop; `select maxfd set` is the set that the call leaves.
unfoldable pub iteration : (ℤ → FdSet → FdSet) → Round → SelectServer → Result SelectServer
unfolding serve_clients after_accept
iteration select r s =
    let selected : SelectServer = record s { rset = select s.maxfd s.allset } in
    if selected.rset s.listenfd
    then (do accepted ← accept_client r selected; after_accept r accepted)
    else serve_clients r max_clients 0 selected
