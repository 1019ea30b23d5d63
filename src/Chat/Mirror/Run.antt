-- ===== src/Chat/Mirror/Run.antt =====
-- Runs of server_poll.c and server_select.c side by side, from their start.
use zhone_engineering_academ.Common.{
  not, ◌&&◌, ◌||◌, [], ◌∷◌, ℕ, ◌≡◌, refl, subst, Bool, true, false, ◌∙◌, sym, ap, ℤ, pos, is_neg,
  ltb_ℤ, List, Bool-cases, inl, inr, arith, minus_one, ◌==ℤ◌, ==ℤ_iff, ◌<◌,
}
use zhone_engineering_academ.Chat.Types.{ok, Round, Chat, max_clients}
use zhone_engineering_academ.Chat.Slots.{neg_ne, has_fd}
use zhone_engineering_academ.Chat.Orderly.{IsOrderly}
use zhone_engineering_academ.Chat.Poll
use zhone_engineering_academ.Chat.Poll.{Memory, PollFd, PollServer, running}
use zhone_engineering_academ.Chat.Poll.Admission.{init_clients-IsValid}
use zhone_engineering_academ.Chat.Select
use zhone_engineering_academ.Chat.Select.{FdSet, SelectServer, fd_zero, fd_setsize}
use zhone_engineering_academ.Chat.Mirror.Answers.{IsPoll}
use zhone_engineering_academ.Chat.Mirror.Sets.{not_below_self}
use zhone_engineering_academ.Chat.Mirror.Serve.{IsLinked, poll_state, select_state}
use zhone_engineering_academ.Chat.Mirror.Iteration.{Accepts, IsSelect, iteration-Agree}

-- The two servers after the same number of iterations, given the same answers of the system.
pub data Together (memory : Memory) (listenfd : ℤ) : PollServer → SelectServer → Type 0 where
  started :
      {p : PollServer} {s : SelectServer}
      → Poll.start memory listenfd (pos 0) (pos 0) ≡ running p
      → Select.start memory.clients listenfd (pos 0) (pos 0) ≡ ok (running s)
      → Together memory listenfd p s
  served :
      {p p' : PollServer} {s s' : SelectServer} (ready : ℤ → Bool) (answer : PollFd → ℕ)
      (select : ℤ → FdSet → FdSet) (r : Round)
      → Together memory listenfd p s
      → IsPoll ready answer
      → IsSelect ready select
      → IsOrderly r p.chat.clients
      → Accepts listenfd r
      → Poll.iteration answer r p ≡ ok p'
      → Select.iteration select r s ≡ ok s'
      → Together memory listenfd p' s'

-- The two states are those of linked servers with one and the same chat.
record AreTwins (listenfd : ℤ) (p : PollServer) (s : SelectServer) : Type 0 where
  chat : Chat
  pfds : List PollFd
  allset : FdSet
  rset : FdSet
  maxfd : ℤ
  left : poll_state listenfd chat pfds ≡ p
  right : select_state listenfd chat allset rset maxfd ≡ s
  linked : IsLinked listenfd chat pfds allset maxfd

same_chat :
    {listenfd : ℤ} {p : PollServer} {s : SelectServer} → AreTwins listenfd p s → p.chat ≡ s.chat
same_chat t = ap (λ q. q.chat) (sym t.left) ∙ ap (λ q. q.chat) t.right

advance :
    {listenfd : ℤ} {ready : ℤ → Bool} {answer : PollFd → ℕ} {select : ℤ → FdSet → FdSet} {r : Round}
    {p : PollServer} {s : SelectServer}
    → IsPoll ready answer
    → IsSelect ready select
    → IsOrderly r p.chat.clients
    → Accepts listenfd r
    → AreTwins listenfd p s
    → (p' : PollServer) × (s' : SelectServer) × (Poll.iteration answer r p ≡ ok p')
      × (Select.iteration select r s ≡ ok s')
      × AreTwins listenfd p' s'
advance {listenfd} {ready} {answer} {select} {r} asked found o acc t =
    let (chat, ps, allset, maxfd, e, e', linked, _) =
      iteration-Agree listenfd asked found r t.chat t.pfds t.allset t.maxfd t.linked
        (subst (λ q. IsOrderly r q.chat.clients) (sym t.left) o) acc t.rset in
    (
      _,
      _,
      ap (Poll.iteration answer r) (sym t.left) ∙ e,
      ap (Select.iteration select r) (sym t.right) ∙ e',
      record {
        chat = chat;
        pfds = ps;
        allset = allset;
        rset = select t.maxfd t.allset;
        maxfd = maxfd;
        left = refl;
        right = refl;
        linked = linked;
      },
    )

-- What both need of the surroundings at the start: the uninitialised entries of `pfds` have no
-- descriptor, and the listening socket is one that an `fd_set` can hold.
pub record IsTidy (memory : Memory) (listenfd : ℤ) : Type 0 where
  pub unset : (i : ℕ) → i < max_clients → is_neg (memory.pfds i).fd ≡ true
  pub socket : is_neg listenfd ≡ false
  pub in_range : ltb_ℤ listenfd fd_setsize ≡ true

module _ {memory : Memory} {listenfd : ℤ} (tidy : IsTidy memory listenfd) where
  nobody_yet :
      (f : ℤ)
      → (f ==ℤ listenfd || false)
        ≡ (f ==ℤ listenfd || (not (is_neg f) && has_fd f (minus_one ∷ minus_one ∷ minus_one ∷ [])))
  nobody_yet f = elim (Bool-cases (is_neg f)) [
    | inl absent ↦ rw absent
    | inr present ↦ rw (present, neg_ne minus_one f refl present)
  ]

  alone : (f : ℤ) → (f ==ℤ listenfd || false) ≡ true → ltb_ℤ listenfd f ≡ false
  alone f hit = rw ((==ℤ_iff f listenfd).0 (ground (arith, hit))) (not_below_self listenfd)

  starts :
      (p : PollServer) × (s : SelectServer) × (Poll.start memory listenfd (pos 0) (pos 0)
        ≡ running p)
      × (Select.start memory.clients listenfd (pos 0) (pos 0) ≡ ok (running s))
      × AreTwins listenfd p s
  unfolding Poll.start Select.start Poll.init_clients fd_zero
  starts = rw tidy.socket (
      rw tidy.in_range (
        _,
        _,
        refl,
        refl,
        record {
          chat = _;
          pfds = _;
          allset = _;
          rset = _;
          maxfd = _;
          left = refl;
          right = refl;
          linked = record {
            valid = init_clients-IsValid memory.clients;
            watched = ((λ p. cc), ((λ p. cc), ((λ p. cc), tt)));
            quiet = (
              (λ _. tidy.unset 0 (omega arith)),
              ((λ _. tidy.unset 1 (omega arith)), ((λ _. tidy.unset 2 (omega arith)), tt)),
            );
            listens = (_, refl, refl, refl);
            socket = tidy.socket;
            apart = rw (neg_ne minus_one listenfd refl tidy.socket);
            holds = nobody_yet;
            bounded = alone;
          };
        },
      ))

  Together-AreTwins :
      {p : PollServer} {s : SelectServer} → Together memory listenfd p s → AreTwins listenfd p s
  Together-AreTwins (started {p} {s} e e') =
      let (p₀, s₀, d, d', twins) = starts in
      let same : p₀ ≡ p = cc in let same' : s₀ ≡ s = cc in rw (← same, ← same') twins
  Together-AreTwins (served {p} {p'} {s} {s'} ready answer select r before asked found o acc e e') =
      let (q, q', d, d', twins) =
        advance {p = p} {s = s} asked found o acc (Together-AreTwins before) in
      let same : q ≡ p' = cc in let same' : q' ≡ s' = cc in rw (← same, ← same') twins

  -- From a start at which the listening socket's descriptor is below FD_SETSIZE and the three entries
  -- of `pfds` that server_poll.c does not initialise hold negative descriptors, and while in every
  -- iteration the system gives both servers the same answers, `accept` succeeds with a descriptor
  -- below FD_SETSIZE that no client has, `inet_ntop` gives a string, and no `read` returns more than
  -- 4062 bytes: both servers run the next iteration to its end, and however many iterations they have
  -- made, they hold the same clients and have made the same calls, in the same order.
  pub Together-same :
      {ready : ℤ → Bool} {answer : PollFd → ℕ} {select : ℤ → FdSet → FdSet} (r : Round)
      {p : PollServer} {s : SelectServer}
      → Together memory listenfd p s
      → IsPoll ready answer
      → IsSelect ready select
      → IsOrderly r p.chat.clients
      → Accepts listenfd r
      → (p.chat ≡ s.chat)
        × (p' : PollServer) × (s' : SelectServer) × (Poll.iteration answer r p ≡ ok p')
        × (Select.iteration select r s ≡ ok s')
        × Together memory listenfd p' s'
        × (p'.chat ≡ s'.chat)
  Together-same {ready} {answer} {select} r before asked found o acc =
      let twins = Together-AreTwins before in
      let (p', s', e, e', twins') = advance asked found o acc twins in
      (
        same_chat twins,
        p',
        s',
        e,
        e',
        served ready answer select r before asked found o acc e e',
        same_chat twins',
      )
