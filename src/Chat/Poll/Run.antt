-- ===== src/Chat/Poll/Run.antt =====
-- Runs of server_poll.c: a successful start, then any number of iterations of the main loop.
use zhone_engineering_academ.Common.{ℕ, ◌≡◌, subst, ℤ, pos}
use zhone_engineering_academ.Chat.Types.{ok, Round}
use zhone_engineering_academ.Chat.Orderly.{IsOrderly}
use zhone_engineering_academ.Chat.Poll.{Memory, PollFd, PollServer, running, start, iteration}
use zhone_engineering_academ.Chat.Poll.Safety.{IsServing, iteration-IsServing}
use zhone_engineering_academ.Chat.Poll.Admission.{IsStale, start-IsServing}

-- The states between iterations. In each iteration `poll` answers what it likes, and the system's
-- other answers are orderly.
pub data Reach (memory : Memory) (listenfd : ℤ) : PollServer → Type 0 where
  started :
      {s : PollServer} → start memory listenfd (pos 0) (pos 0) ≡ running s → Reach memory listenfd s
  served :
      {s s' : PollServer} (answer : PollFd → ℕ) (r : Round)
      → Reach memory listenfd s
      → IsOrderly r s.chat.clients
      → iteration answer r s ≡ ok s'
      → Reach memory listenfd s'

module _ {memory : Memory} {listenfd : ℤ} where
  Reach-IsServing : {s : PollServer} → Reach memory listenfd s → IsServing (IsStale memory) s
  Reach-IsServing (started {s} e) =
      let (t, e', v, _, _) = start-IsServing memory listenfd in
      let same : t ≡ s = cc in subst (IsServing (IsStale memory)) same v
  Reach-IsServing (served {s} {s'} answer r before o e) =
      let (t, e', v) = iteration-IsServing (IsStale memory) answer r s o (Reach-IsServing before) in
      let same : t ≡ s' = cc in subst (IsServing (IsStale memory)) same v

  -- After a successful start, as long as the system's answers are orderly (a new descriptor is no
  -- client's, `inet_ntop` gives a string, and no `read` returns more than 4062 bytes): however many
  -- iterations the server has made, the next one returns with no buffer overflow and no index out of
  -- bounds, and in every state between iterations the clients are valid, and `poll` watches for input
  -- the listening socket and each client in the client's own entry; the entry of a free slot has the
  -- negative descriptor of the slot, or one that `pfds`, which the server does not initialise, held
  -- before the start.
  pub Reach-serves :
      (answer : PollFd → ℕ) (r : Round) {s : PollServer}
      → Reach memory listenfd s
      → IsOrderly r s.chat.clients
      → IsServing (IsStale memory) s
        × (s' : PollServer) × (iteration answer r s ≡ ok s')
        × Reach memory listenfd s'
        × IsServing (IsStale memory) s'
  Reach-serves answer r {s} before o =
      let v = Reach-IsServing before in
      let (s', e, v') = iteration-IsServing (IsStale memory) answer r s o v in
      (v, s', e, served answer r before o e, v')
