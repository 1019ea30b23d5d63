-- ===== src/Chat/Mirror/Serve.antt =====
-- The loop over the clients of server_poll.c beside that of server_select.c.
use zhone_engineering_academ.Common.{
  zero, suc, ℕ, ◌<◌, ◌≡◌, refl, ap, ◌∙◌, false, some, List, [], ◌∷◌, ℤ, is_neg, minus_one, set,
  get_elem?, ◌+◌, get_elem?-some, Bool-cases, ◌≤◌, suc, inl, arith, inr,
}
use zhone_engineering_academ.Chat.Types.{
  Client, Chat, max_clients, Result, ok, Received, failed, got, Round,
}
use zhone_engineering_academ.Chat.Slots.{neg_ne, has_fd-set, fds, has_fd, fds-set, get_elem?-fds}
use zhone_engineering_academ.Chat.Invariant.{IsValid}
use zhone_engineering_academ.Chat.Conversation.{receive-IsValid, disconnect-IsValid}
use zhone_engineering_academ.Chat.Orderly.{IsSmall}
use zhone_engineering_academ.Chat.Poll
use zhone_engineering_academ.Chat.Poll.{PollFd, PollServer, is_readable, poll_all}
use zhone_engineering_academ.Chat.Poll.Watch.{AreWatched, AreWatched-unwatch, AreWatched-get}
use zhone_engineering_academ.Chat.Poll.Safety.{Listens, Listens-unwatch}
use zhone_engineering_academ.Chat.Select
use zhone_engineering_academ.Chat.Select.{FdSet, SelectServer, fd_clr}
use zhone_engineering_academ.Chat.Mirror.Answers.{
  AreAnswered-get, AreAnswered, AreAnswered-unwatch, AreQuiet, AreQuiet-unwatch,
}
use zhone_engineering_academ.Chat.Mirror.Sets.{Holds, IsBounded, Holds-fd_clr, IsBounded-fd_clr}

abbrev pub poll_state : ℤ → Chat → List PollFd → PollServer
poll_state listenfd chat ps = record { listenfd = listenfd; pfds = ps; chat = chat }

abbrev pub select_state : ℤ → Chat → FdSet → FdSet → ℤ → SelectServer
select_state listenfd chat allset rset maxfd = record {
  listenfd = listenfd;
  allset = allset;
  rset = rset;
  maxfd = maxfd;
  chat = chat;
}

-- The two servers wait for the same: the clients in the array and the listening socket.
pub record IsLinked (listenfd : ℤ) (chat : Chat) (ps : List PollFd) (allset : FdSet) (maxfd : ℤ)
    : Type 0 where
  pub valid : IsValid chat.clients
  pub watched : AreWatched (fds chat.clients) ps
  pub quiet : AreQuiet (fds chat.clients) ps
  pub listens : Listens ps listenfd
  pub socket : is_neg listenfd ≡ false
  pub apart : has_fd listenfd (fds chat.clients) ≡ false
  pub holds : Holds listenfd (fds chat.clients) allset
  pub bounded : IsBounded allset maxfd

-- Both iterations return, with one and the same chat, and are linked again.
abbrev pub Agree : ℤ → FdSet → Result PollServer → Result SelectServer → Type 0
Agree listenfd rset a b =
    (chat : Chat) × (ps : List PollFd) × (allset : FdSet) × (maxfd : ℤ) × (a
      ≡ ok (poll_state listenfd chat ps))
    × (b ≡ ok (select_state listenfd chat allset rset maxfd))
    × IsLinked listenfd chat ps allset maxfd
    × AreAnswered rset (fds chat.clients) ps

module _ (listenfd : ℤ) (rset : FdSet) where
  module _ (i : ℕ) (c : Client) (chat : Chat) (ps : List PollFd) (allset : FdSet) (maxfd : ℤ)
      (k : IsLinked listenfd chat ps allset maxfd) (w : AreAnswered rset (fds chat.clients) ps)
      (i_lt : i < max_clients) (at_i : get_elem? chat.clients i ≡ some c)
      (live : is_neg c.fd ≡ false) where
    hang_up-Agree :
        Agree listenfd rset
          (Poll.on_read i c failed 0 (poll_state listenfd chat ps))
          (Select.on_read i c failed 0 (select_state listenfd chat allset rset maxfd))
    unfolding Poll.on_read Select.on_read
    hang_up-Agree =
        let (t, e, valid, same) = disconnect-IsValid i c chat k.valid at_i live in
        let at_f = get_elem?-fds chat.clients i at_i in
        let now_fds : fds t.clients ≡ set (fds chat.clients) i minus_one =
          ap fds same ∙ fds-set chat.clients i _ in
        (
          t,
          Poll.unwatch i ps,
          fd_clr c.fd allset,
          maxfd,
          rw e,
          rw e,
          record {
            valid = valid;
            watched = rw now_fds (AreWatched-unwatch (fds chat.clients) ps i k.watched);
            quiet = rw now_fds (AreQuiet-unwatch (fds chat.clients) ps i k.quiet);
            listens = Listens-unwatch i ps listenfd i_lt k.listens;
            socket = k.socket;
            apart = rw now_fds (
                has_fd-set (fds chat.clients) i minus_one listenfd k.apart
                  (neg_ne minus_one listenfd refl k.socket));
            holds = rw now_fds (
                Holds-fd_clr listenfd (fds chat.clients) allset i k.holds at_f k.valid.distinct live
                  k.apart);
            bounded = IsBounded-fd_clr allset maxfd c.fd k.bounded;
          },
          rw now_fds (AreAnswered-unwatch rset (fds chat.clients) ps i w),
        )

    on_read-Agree :
        (r : Received) (now : ℕ)
        → IsSmall r
        → Agree listenfd rset
            (Poll.on_read i c r now (poll_state listenfd chat ps))
            (Select.on_read i c r now (select_state listenfd chat allset rset maxfd))
    unfolding Poll.on_read Select.on_read
    on_read-Agree failed now small = hang_up-Agree
    on_read-Agree (got []) now small = hang_up-Agree
    on_read-Agree (got (b ∷ bs)) now small =
        let (t, e, valid, same) = receive-IsValid i c (b ∷ bs) now chat k.valid at_i live small in
        (
          t,
          ps,
          allset,
          maxfd,
          rw e,
          rw e,
          record {
            valid = valid;
            watched = rw same k.watched;
            quiet = rw same k.quiet;
            listens = k.listens;
            socket = k.socket;
            apart = rw same k.apart;
            holds = rw same k.holds;
            bounded = k.bounded;
          },
          rw same w,
        )

  serve_client-Agree :
      (r : Round) (i : ℕ) (chat : Chat) (ps : List PollFd) (allset : FdSet) (maxfd : ℤ)
      → ((f : ℤ) → IsSmall (r.received f))
      → i < max_clients
      → IsLinked listenfd chat ps allset maxfd
      → AreAnswered rset (fds chat.clients) ps
      → Agree listenfd rset
          (Poll.serve_client r i (poll_state listenfd chat ps))
          (Select.serve_client r i (select_state listenfd chat allset rset maxfd))
  unfolding Poll.serve_client Select.serve_client
  serve_client-Agree r i chat ps allset maxfd small i_lt k w =
      let (c, at_i) = get_elem?-some chat.clients i (rw k.valid.size i_lt) in
      let at_f = get_elem?-fds chat.clients i at_i in
      rw (at_i, Poll.serve_client, Select.serve_client)
        (elim (Bool-cases (is_neg c.fd)) [
          | inl free ↦ rw free (chat, ps, allset, maxfd, refl, refl, k, w)
          | inr live ↦
              let (p, at_p, _) = AreWatched-get (fds chat.clients) ps i k.watched at_f in
              let alike = AreAnswered-get rset (fds chat.clients) ps i w at_f at_p live in
              rw (live, at_p, alike)
                (elim (Bool-cases (rset c.fd)) [
                  | inr silent ↦ rw silent (chat, ps, allset, maxfd, refl, refl, k, w)
                  | inl ready ↦ rw ready (
                      on_read-Agree i c chat ps allset maxfd k w i_lt at_i live (r.received c.fd)
                        (r.now c.fd) (small c.fd))
                ])
        ])

  pub serve_clients-Agree :
      (r : Round) (n i : ℕ) (chat : Chat) (ps : List PollFd) (allset : FdSet) (maxfd : ℤ)
      → ((f : ℤ) → IsSmall (r.received f))
      → i + n ≤ max_clients
      → IsLinked listenfd chat ps allset maxfd
      → AreAnswered rset (fds chat.clients) ps
      → Agree listenfd rset
          (Poll.serve_clients r n i (poll_state listenfd chat ps))
          (Select.serve_clients r n i (select_state listenfd chat allset rset maxfd))
  unfolding Poll.serve_clients Select.serve_clients
  serve_clients-Agree r zero i chat ps allset maxfd small room k w =
      (chat, ps, allset, maxfd, refl, refl, k, w)
  serve_clients-Agree r (suc n) i chat ps allset maxfd small room k w =
      let (chat', ps', all', max', e, e', k', w') =
        serve_client-Agree r i chat ps allset maxfd small (omega arith) k w in
      rw (e, e') (serve_clients-Agree r n (suc i) chat' ps' all' max' small (omega arith) k' w')
