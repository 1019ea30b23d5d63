-- ===== src/Chat/Poll/Safety.antt =====
-- An iteration of server_poll.c returns, and keeps the array of clients and `pfds` in step.
use zhone_engineering_academ.Common.{
  ℕ, zero, suc, ◌+◌, ◌<◌, ◌≤◌, ◌≡◌, refl, false, some, List, [], ◌∷◌, ℤ, is_neg, arith, get_elem?,
  get_elem?-some, get_elem?-modify_ne, lt_of_get_elem?, Bool-cases, Option-cases, inl, inr, ◌⊎◌,
}
use zhone_engineering_academ.CText.{codes}
use zhone_engineering_academ.Chat.Types.{
  ◌>>=◌, Client, max_clients, Received, failed, got, Result, ok, Round,
}
use zhone_engineering_academ.Chat.Client.{free_slot}
use zhone_engineering_academ.Chat.Slots.{fds, fds-set, get_elem?-fds, free_slot_lem}
use zhone_engineering_academ.Chat.Bounds.{sprintf-short}
use zhone_engineering_academ.Chat.Invariant.{IsValid, IsValid-set}
use zhone_engineering_academ.Chat.Conversation.{receive-IsValid, disconnect-IsValid}
use zhone_engineering_academ.Chat.Orderly.{IsSmall, IsOrderly, new_client-IsName}
use zhone_engineering_academ.Chat.Poll.{
  PollFd, PollServer, is_readable, unwatch, poll_all, new_client, accept_client, Accepted, refused,
  joined, on_read, serve_client, serve_clients, iteration, after_accept, watch, pollin,
}
use zhone_engineering_academ.Chat.Poll.Watch.{
  AreReleased, AreReleased-watch, AreReleased-unwatch, AreReleased-poll_all, AreWatched,
  AreWatched-get, AreWatched-watch, AreWatched-unwatch, AreWatched-poll_all, get_elem?-poll_all,
}

-- The last entry watches the listening socket.
abbrev pub Listens : List PollFd → ℤ → Type 0
Listens ps fd =
    (p : PollFd) × (get_elem? ps max_clients ≡ some p) × (p.fd ≡ fd) × (p.events ≡ pollin)

pub record IsServing (unused : ℤ → Type 0) (s : PollServer) : Type 0 where
  pub valid : IsValid s.chat.clients
  pub watched : AreWatched (fds s.chat.clients) s.pfds
  pub released : AreReleased unused (fds s.chat.clients) s.pfds
  pub listens : Listens s.pfds s.listenfd

pub Listens-unwatch :
    (i : ℕ) (ps : List PollFd) (fd : ℤ)
    → i < max_clients
    → Listens ps fd
    → Listens (unwatch i ps) fd
unfolding unwatch
Listens-unwatch i ps fd i_lt l = rw (get_elem?-modify_ne ps i max_clients _ i_lt) l

pub Listens-watch :
    (i : ℕ) (ps : List PollFd) (f fd : ℤ)
    → i < max_clients
    → Listens ps fd
    → Listens (watch i f ps) fd
unfolding watch
Listens-watch i ps f fd i_lt l = rw (get_elem?-modify_ne ps i max_clients _ i_lt) l

module _ (unused : ℤ → Type 0) where
  abbrev Returns : Result PollServer → Type 0
  Returns r = (s' : PollServer) × (r ≡ ok s') × IsServing unused s'

  module _ (i : ℕ) (c : Client) (s : PollServer) (v : IsServing unused s) (i_lt : i < max_clients)
      (at_i : get_elem? s.chat.clients i ≡ some c) (live : is_neg c.fd ≡ false) where
    -- After `n <= 0`.
    hang_up : Returns (on_read i c failed 0 s)
    unfolding on_read unwatch
    hang_up =
        let (t, e, valid, same) = disconnect-IsValid i c s.chat v.valid at_i live in
        (
          record s { chat = t; pfds = unwatch i s.pfds },
          rw e,
          record {
            valid = valid;
            watched =
                rw (same, fds-set) (AreWatched-unwatch (fds s.chat.clients) s.pfds i v.watched);
            released =
                rw (same, fds-set)
                  (AreReleased-unwatch unused (fds s.chat.clients) s.pfds i v.released);
            listens = rw (get_elem?-modify_ne s.pfds i max_clients _ i_lt) v.listens;
          },
        )

    on_read-Returns : (r : Received) (now : ℕ) → IsSmall r → Returns (on_read i c r now s)
    unfolding on_read
    on_read-Returns failed now small = hang_up
    on_read-Returns (got []) now small = hang_up
    on_read-Returns (got (b ∷ bs)) now small =
        let (t, e, valid, same) = receive-IsValid i c (b ∷ bs) now s.chat v.valid at_i live small in
        (
          record s { chat = t },
          rw e,
          record {
            valid = valid;
            watched = rw same v.watched;
            released = rw same v.released;
            listens = v.listens;
          },
        )

  serve_client-Returns :
      (r : Round) (i : ℕ) (s : PollServer)
      → ((f : ℤ) → IsSmall (r.received f))
      → i < max_clients
      → IsServing unused s
      → Returns (serve_client r i s)
  unfolding serve_client
  serve_client-Returns r i s small i_lt v =
      let (c, at_i) = get_elem?-some s.chat.clients i (rw v.valid.size i_lt) in
      rw (at_i, serve_client)
        (elim (Bool-cases (is_neg c.fd)) [
          | inl free ↦ rw free (s, refl, v)
          | inr live ↦
              let (p, at_p, _) =
                AreWatched-get (fds s.chat.clients) s.pfds i v.watched
                  (get_elem?-fds s.chat.clients i at_i) in
              rw (live, at_p)
                (elim (Bool-cases (is_readable p.revents)) [
                  | inr quiet ↦ rw quiet (s, refl, v)
                  | inl ready ↦ rw ready (
                      on_read-Returns i c s v i_lt at_i live (r.received c.fd) (r.now c.fd)
                        (small c.fd))
                ])
        ])

  serve_clients-Returns :
      (r : Round) (k i : ℕ) (s : PollServer)
      → ((f : ℤ) → IsSmall (r.received f))
      → i + k ≤ max_clients
      → IsServing unused s
      → Returns (serve_clients r k i s)
  unfolding serve_clients
  serve_clients-Returns r zero i s small room v = (s, refl, v)
  serve_clients-Returns r (suc k) i s small room v =
      let (s', e, v') = serve_client-Returns r i s small (omega arith) v in
      rw e (serve_clients-Returns r k (suc i) s' small (omega arith) v')

  abbrev StepDone : Result (Accepted PollServer) → Type 0
  StepDone r =
      ((s' : PollServer) × (r ≡ ok (refused s')) × IsServing unused s')
      ⊎ ((s' : PollServer) × (r ≡ ok (joined s')) × IsServing unused s')

  accept_client-StepDone :
      (r : Round) (s : PollServer)
      → IsOrderly r s.chat.clients
      → IsServing unused s
      → StepDone (accept_client r s)
  unfolding accept_client
  accept_client-StepDone r s o v = elim (Option-cases (free_slot s.chat.clients)) [
    | inl full ↦
        rw (full, accept_client)
          (inl (
            _,
            refl,
            record {
              valid = v.valid;
              watched = v.watched;
              released = v.released;
              listens = v.listens;
            },
          ))
    | inr (i, found) ↦
        let (c, at_i, free) = free_slot_lem s.chat.clients i found in
        let name = new_client-IsName o in
        rw
          (
            found,
            accept_client,
            sprintf-short (new_client r).name (codes " connected") name.0 (omega arith),
          )
          (inr (
            _,
            refl,
            record {
              valid = IsValid-set v.valid i (new_client r) o.fresh (λ _. name);
              watched =
                  rw fds-set
                    (AreWatched-watch (fds s.chat.clients) s.pfds i (new_client r).fd v.watched);
              released = rw fds-set (
                  AreReleased-watch unused (fds s.chat.clients) s.pfds i (new_client r).fd
                    v.released);
              listens =
                  rw
                    (get_elem?-modify_ne s.pfds i max_clients _
                      (rw v.valid.size at (lt_of_get_elem? s.chat.clients i at_i)))
                    v.listens;
            },
          ))
  ]

  after_accept-Returns :
      (r : Round) {a : Result (Accepted PollServer)}
      → ((f : ℤ) → IsSmall (r.received f))
      → StepDone a
      → Returns (a >>= after_accept r)
  unfolding after_accept
  after_accept-Returns r small (inl (s, e, v)) = rw e (s, refl, v)
  after_accept-Returns r small (inr (s, e, v)) =
      rw e (serve_clients-Returns r max_clients 0 s small (omega arith) v)

  -- An iteration of the main loop returns: no buffer overflows and no index is out of bounds. It
  -- keeps the array of clients valid, has `poll` watch every client and the listening socket, and
  -- this whatever `poll` answers, if the system's other answers are orderly.
  pub iteration-IsServing :
      (answer : PollFd → ℕ) (r : Round) (s : PollServer)
      → IsOrderly r s.chat.clients
      → IsServing unused s
      → (s' : PollServer) × (iteration answer r s ≡ ok s') × IsServing unused s'
  unfolding iteration
  iteration-IsServing answer r s o v =
      let polled : PollServer = record s { pfds = poll_all answer s.pfds } in
      let (p, at_p, same, asked) = v.listens in
      let at_last = get_elem?-poll_all answer s.pfds max_clients at_p in
      let serving : IsServing unused polled = record {
        valid = v.valid;
        watched = AreWatched-poll_all answer (fds s.chat.clients) s.pfds v.watched;
        released = AreReleased-poll_all unused answer (fds s.chat.clients) s.pfds v.released;
        listens = (record p { revents = answer p }, at_last, same, asked);
      } in
      rw (at_last, iteration)
        (elim (Bool-cases (is_readable (answer p))) [
          | inl ready ↦
              rw ready (after_accept-Returns r o.small (accept_client-StepDone r polled o serving))
          | inr quiet ↦
              rw quiet (serve_clients-Returns r max_clients 0 polled o.small (omega arith) serving)
        ])
