-- ===== src/Chat/Mirror/Iteration.antt =====
-- One iteration of server_poll.c beside one of server_select.c.
use zhone_engineering_academ.Common.{
  [], zero, suc, ==ℤ_refl, not, ◌∙◌, ap, ℕ, ◌<◌, ◌≡◌, refl, Bool, true, false, not, ◌&&◌, some,
  List, ℤ, is_neg, ◌==ℤ◌, ltb_ℤ, arith, get_elem?, Option-cases, inl, inr, lt_of_get_elem?, ◌⊎◌,
  ◌∷◌, ◌||◌, Bool-cases,
}
use zhone_engineering_academ.CText.{codes}
use zhone_engineering_academ.Chat.Types.{◌>>=◌, Chat, max_clients, Result, ok, Round}
use zhone_engineering_academ.Chat.Client.{free_slot}
use zhone_engineering_academ.Chat.Slots.{
  fds, fds-set, get_elem?-fds, free_slot_lem, has_fd-set, has_fd,
}
use zhone_engineering_academ.Chat.Bounds.{sprintf-short}
use zhone_engineering_academ.Chat.Invariant.{IsValid-set}
use zhone_engineering_academ.Chat.Orderly.{IsOrderly, new_client-IsName, IsSmall}
use zhone_engineering_academ.Chat.Poll
use zhone_engineering_academ.Chat.Poll.{
  PollFd, PollServer, Accepted, refused, joined, is_readable, poll_all, new_client,
}
use zhone_engineering_academ.Chat.Poll.Watch.{
  AreWatched-watch, AreWatched-poll_all, get_elem?-poll_all,
}
use zhone_engineering_academ.Chat.Poll.Safety.{Listens-watch}
use zhone_engineering_academ.Chat.Select
use zhone_engineering_academ.Chat.Select.{FdSet, SelectServer, fd_set, fd_setsize}
use zhone_engineering_academ.Chat.Mirror.Answers.{
  AreAnswered, AreAnswered-watch, AreQuiet-watch, AreQuiet-get, IsPoll, AreAnswered-poll_all,
  AreQuiet-poll_all,
}
use zhone_engineering_academ.Chat.Mirror.Sets.{Holds-fd_set, IsBounded-fd_set}
use zhone_engineering_academ.Chat.Mirror.Serve.{
  poll_state, select_state, IsLinked, Agree, serve_clients-Agree,
}

-- `accept` succeeds, with a descriptor that an `fd_set` can hold and that is not the listening one.
pub record Accepts (listenfd : ℤ) (r : Round) : Type 0 where
  pub succeeds : is_neg r.accepted ≡ false
  pub in_range : ltb_ℤ r.accepted fd_setsize ≡ true
  pub other : (r.accepted ==ℤ listenfd) ≡ false

-- What select(2) documents: the descriptors of the set up to `maxfd` that are ready.
pub record IsSelect (ready : ℤ → Bool) (select : ℤ → FdSet → FdSet) : Type 0 where
  pub reports :
      (maxfd : ℤ) (fds : FdSet) (f : ℤ)
      → select maxfd fds f ≡ (fds f && (not (ltb_ℤ maxfd f) && ready f))

-- Both servers refuse the new client, or both take it.
abbrev StepAgree :
    ℤ → FdSet → Result (Accepted PollServer) → Result (Accepted SelectServer) → Type 0
StepAgree listenfd rset a b =
    (chat : Chat) × (ps : List PollFd) × (allset : FdSet) × (maxfd : ℤ) × (((a
          ≡ ok (refused (poll_state listenfd chat ps)))
        × (b ≡ ok (refused (select_state listenfd chat allset rset maxfd))))
      ⊎ ((a ≡ ok (joined (poll_state listenfd chat ps)))
          × (b ≡ ok (joined (select_state listenfd chat allset rset maxfd)))))
    × IsLinked listenfd chat ps allset maxfd
    × AreAnswered rset (fds chat.clients) ps

module _ (listenfd : ℤ) (rset : FdSet) (r : Round) (chat : Chat) (ps : List PollFd) (allset : FdSet)
    (maxfd : ℤ) (o : IsOrderly r chat.clients) (acc : Accepts listenfd r)
    (k : IsLinked listenfd chat ps allset maxfd) (w : AreAnswered rset (fds chat.clients) ps)
    (silent : (i : ℕ) (p : PollFd)
      → get_elem? ps i ≡ some p
      → is_neg p.fd ≡ true
      → is_readable p.revents ≡ false)
    (unseen : rset r.accepted ≡ false) where
  accept_client-StepAgree :
      StepAgree listenfd rset
        (Poll.accept_client r (poll_state listenfd chat ps))
        (Select.accept_client r (select_state listenfd chat allset rset maxfd))
  unfolding Poll.accept_client Select.accept_client
  accept_client-StepAgree = elim (Option-cases (free_slot chat.clients)) [
    | inl full ↦
        rw (full, Poll.accept_client, Select.accept_client)
          (
            _,
            ps,
            allset,
            maxfd,
            inl (refl, refl),
            record {
              valid = k.valid;
              watched = k.watched;
              quiet = k.quiet;
              listens = k.listens;
              socket = k.socket;
              apart = k.apart;
              holds = k.holds;
              bounded = k.bounded;
            },
            w,
          )
    | inr (i, found) ↦
        let (c, at_i, free) = free_slot_lem chat.clients i found in
        let at_f = get_elem?-fds chat.clients i at_i in
        let i_lt : i < max_clients = rw k.valid.size at (lt_of_get_elem? chat.clients i at_i) in
        let name = new_client-IsName o in
        let (p, at_p, idle) = AreQuiet-get (fds chat.clients) ps i k.quiet at_f free in
        rw
          (
            found,
            Poll.accept_client,
            Select.accept_client,
            acc.succeeds,
            acc.in_range,
            sprintf-short (new_client r).name (codes " connected") name.0 (omega arith),
          )
          (
            _,
            Poll.watch i r.accepted ps,
            _,
            _,
            inr (refl, refl),
            record {
              valid = IsValid-set k.valid i (new_client r) o.fresh (λ _. name);
              watched = rw fds-set (AreWatched-watch (fds chat.clients) ps i r.accepted k.watched);
              quiet = rw fds-set (AreQuiet-watch (fds chat.clients) ps i r.accepted k.quiet);
              listens = Listens-watch i ps r.accepted listenfd i_lt k.listens;
              socket = k.socket;
              apart =
                  rw fds-set
                    (has_fd-set (fds chat.clients) i r.accepted listenfd k.apart acc.other);
              holds = rw fds-set (
                  Holds-fd_set listenfd (fds chat.clients) allset i k.holds at_f r.accepted free
                    acc.succeeds);
              bounded = IsBounded-fd_set allset maxfd r.accepted k.bounded;
            },
            rw fds-set (
                AreAnswered-watch rset (fds chat.clients) ps i r.accepted w at_p
                  (silent i p at_p idle) unseen),
          )
  ]

after_accept-Agree :
    (listenfd : ℤ) (rset : FdSet) (r : Round) {a : Result (Accepted PollServer)}
    {b : Result (Accepted SelectServer)}
    → ((f : ℤ) → IsSmall (r.received f))
    → StepAgree listenfd rset a b
    → Agree listenfd rset (a >>= Poll.after_accept r) (b >>= Select.after_accept r)
unfolding Poll.after_accept Select.after_accept
after_accept-Agree l rset r small (chat, ps, allset, maxfd, inl (e, e'), k, w) =
    rw (e, e') (chat, ps, allset, maxfd, refl, refl, k, w)
after_accept-Agree l rset r small (chat, ps, allset, maxfd, inr (e, e'), k, w) =
    rw (e, e')
      (serve_clients-Agree l rset r max_clients 0 chat ps allset maxfd small (omega arith) k w)

silent-poll_all :
    {ready : ℤ → Bool} {answer : PollFd → ℕ} (doc : IsPoll ready answer) (ps : List PollFd) (i : ℕ)
    (p : PollFd)
    → get_elem? (poll_all answer ps) i ≡ some p
    → is_neg p.fd ≡ true
    → is_readable p.revents ≡ false
unfolding poll_all
silent-poll_all doc [] i p e idle = cc
silent-poll_all {answer} doc (q ∷ ps) zero p e idle =
    let same : record q { revents = answer q } ≡ p = cc in
    rw (← same) (doc.skips q (rw (← same) at idle))
silent-poll_all doc (q ∷ ps) (suc i) p e idle = silent-poll_all doc ps i p e idle

module _ (listenfd : ℤ) {ready : ℤ → Bool} {answer : PollFd → ℕ} {select : ℤ → FdSet → FdSet}
    (poll_doc : IsPoll ready answer) (select_doc : IsSelect ready select) (r : Round) (chat : Chat)
    (ps : List PollFd) (allset : FdSet) (maxfd : ℤ)
    (k : IsLinked listenfd chat ps allset maxfd) where
  -- A member of the set is below `maxfd`, so that `select` reports it.
  reported :
      (f : ℤ)
      → (f ==ℤ listenfd || (not (is_neg f) && has_fd f (fds chat.clients))) ≡ true
      → select maxfd allset f ≡ ready f
  reported f inside =
      let member : allset f ≡ true = k.holds f ∙ inside in
      rw (select_doc.reports maxfd allset f, member, k.bounded f member)

  unseen_new :
      IsOrderly r chat.clients → Accepts listenfd r → select maxfd allset r.accepted ≡ false
  unseen_new o acc = rw (
    select_doc.reports maxfd allset r.accepted,
    k.holds r.accepted,
    acc.other,
    o.fresh acc.succeeds,
    acc.succeeds,
  )

  polled : IsLinked listenfd chat (poll_all answer ps) allset maxfd
  polled =
      let (p, at_p, same, asked) = k.listens in
      record {
        valid = k.valid;
        watched = AreWatched-poll_all answer (fds chat.clients) ps k.watched;
        quiet = AreQuiet-poll_all poll_doc (fds chat.clients) ps k.quiet;
        listens = (
          record p { revents = answer p },
          get_elem?-poll_all answer ps max_clients at_p,
          same,
          asked,
        );
        socket = k.socket;
        apart = k.apart;
        holds = k.holds;
        bounded = k.bounded;
      }

  answered : AreAnswered (select maxfd allset) (fds chat.clients) (poll_all answer ps)
  answered =
      AreAnswered-poll_all poll_doc (select maxfd allset) (fds chat.clients) ps k.watched
        (λ f live inside. reported f (rw (live, inside) (ground arith)))

  -- From linked states one iteration of each server makes the same system calls on the clients
  -- and leaves the same array of clients, and the states are linked again.
  pub iteration-Agree :
      IsOrderly r chat.clients
      → Accepts listenfd r
      → (rset : FdSet)
      → Agree listenfd
          (select maxfd allset)
          (Poll.iteration answer r (poll_state listenfd chat ps))
          (Select.iteration select r (select_state listenfd chat allset rset maxfd))
  unfolding Poll.iteration Select.iteration
  iteration-Agree o acc rset =
      let (p, at_p, same, asked) = k.listens in
      let heard : is_readable (answer p) ≡ ready listenfd =
        poll_doc.reports p asked (rw same k.socket) ∙ ap ready same in
      rw
        (
          get_elem?-poll_all answer ps max_clients at_p,
          Poll.iteration,
          Select.iteration,
          heard,
          reported listenfd (rw (==ℤ_refl listenfd)),
        )
        (elim (Bool-cases (ready listenfd)) [
          | inr quiet ↦ rw quiet (
              serve_clients-Agree listenfd (select maxfd allset) r max_clients 0 chat
                (poll_all answer ps) allset maxfd o.small (omega arith) polled answered)
          | inl ready' ↦ rw ready' (
              after_accept-Agree listenfd (select maxfd allset) r o.small (
                accept_client-StepAgree listenfd (select maxfd allset) r chat (poll_all answer ps)
                  allset maxfd o acc polled answered (silent-poll_all poll_doc ps)
                  (unseen_new o acc)))
        ])
