-- ===== src/Chat/Poll/Admission.antt =====
-- The life of server_poll.c around its clients: start, a new connection, exit.
use zhone_engineering_academ.Common.{
  inl, inr, ◌⊎◌, ℕ, ◌≡◌, refl, ap, ◌∙◌, false, none, some, List, [], ◌∷◌, ◌++◌, ℤ, pos, is_neg,
  minus_one, ◌==ℤ◌, arith, set,
}
use mathlib.Core.List.{append-nil}
use zhone_engineering_academ.CText.{codes}
use zhone_engineering_academ.Chat.Types.{Chat, Client, closed, max_clients, ok, Round}
use zhone_engineering_academ.Chat.Client.{free_slot, exit_handler, broadcast_msg}
use zhone_engineering_academ.Chat.Slots.{
  AreTaken, IsFirstFree, free_slot-search, fds, has_fd, AreDistinct, fds-set,
}
use zhone_engineering_academ.Chat.Delivery.{sent_to, sent_to-append, sent_to-notice, once_if}
use zhone_engineering_academ.Chat.Bounds.{sprintf-short}
use zhone_engineering_academ.Chat.Invariant.{IsValid, IsValid-set}
use zhone_engineering_academ.Chat.Handling.{Sends}
use zhone_engineering_academ.Chat.Orderly.{IsOrderly, new_client-IsName}
use zhone_engineering_academ.Chat.Poll.{
  Memory, PollServer, init_clients, running, start, new_client, accept_client, refused, joined,
  connected,
}
use zhone_engineering_academ.Chat.Poll.Safety.{IsServing}

pub init_clients-IsValid : (memory : ℕ → Client) → IsValid (init_clients max_clients 0 memory)
unfolding init_clients
init_clients-IsValid memory = record {
  size = refl;
  distinct = ((λ p. cc), ((λ p. cc), ((λ p. cc), tt)));
  named = ((λ p. cc), ((λ p. cc), ((λ p. cc), tt)));
}

-- The descriptor of an entry of `pfds` as `main` finds it, before it is written
abbrev pub IsStale : Memory → ℤ → Type 0
IsStale memory f = (i : ℕ) × (f ≡ (memory.pfds i).fd)

-- After a successful start every slot is free, every name may be junk, and the listening socket
-- is watched: whatever the memory held, the first iteration may begin.
pub start-IsServing :
    (memory : Memory) (listenfd : ℤ)
    → (s : PollServer) × (start memory listenfd (pos 0) (pos 0) ≡ running s)
      × IsServing (IsStale memory) s
      × (free_slot s.chat.clients ≡ some 0)
      × (s.chat.out ≡ [])
unfolding start free_slot
start-IsServing memory listenfd = (
  _,
  refl,
  record {
    valid = init_clients-IsValid memory.clients;
    watched = ((λ p. cc), ((λ p. cc), ((λ p. cc), tt)));
    released = ((λ free. inr (0, refl)), ((λ free. inr (1, refl)), ((λ free. inr (2, refl)), tt)));
    listens = (_, refl, refl, refl);
  },
  refl,
  refl,
)

-- The new client is in slot `i`, and `f` is told once, if it is a client's.
abbrev pub Joins : Round → PollServer → ℕ → ℤ → Type 0
Joins r s i f =
    (s' : PollServer) × (accept_client r s ≡ ok (joined s'))
    × (s'.chat.clients ≡ set s.chat.clients i (new_client r))
    × Sends s.chat s'.chat f
        (once_if (has_fd f (set (fds s.chat.clients) i r.accepted)) (connected (new_client r)))

-- Nothing changes, and `f` is told that the server is full, if it is the new connection's.
abbrev pub IsTurnedAway : Round → PollServer → ℤ → Type 0
IsTurnedAway r s f =
    (s' : PollServer) × (accept_client r s ≡ ok (refused s'))
    × (s'.chat.clients ≡ s.chat.clients)
    × (s'.pfds ≡ s.pfds)
    × Sends s.chat s'.chat f
        (once_if (r.accepted ==ℤ f) (codes "Server is full. Try again later.\n"))

-- With a free slot, a new connection takes the first one, and every client, the new one
-- included, is told once.
accept_client-joined :
    {unused : ℤ → Type 0} (r : Round) (s : PollServer) (i : ℕ) (f : ℤ)
    → IsOrderly r s.chat.clients
    → IsServing unused s
    → free_slot s.chat.clients ≡ some i
    → is_neg f ≡ false
    → Joins r s i f
unfolding accept_client
accept_client-joined r s i f o v found live =
    let name = new_client-IsName o in
    let valid = IsValid-set v.valid i (new_client r) o.fresh (λ _. name) in
    let after = set s.chat.clients i (new_client r) in
    rw
      (
        found,
        accept_client,
        sprintf-short (new_client r).name (codes " connected") name.0 (omega arith),
      )
      (
        _,
        refl,
        refl,
        sent_to-append f s.chat.out _
            ∙ ap (λ t. sent_to f s.chat.out ++ t)
                (sent_to-notice after (connected (new_client r)) f live valid.distinct
                  ∙ ap (λ fs. once_if (has_fd f fs) (connected (new_client r)))
                      (fds-set s.chat.clients i (new_client r))),
      )

-- With every slot in use a new connection is told so and closed, nobody else is sent anything,
-- and the clients and `pfds` stay as they are.
accept_client-refused :
    (r : Round) (s : PollServer) (f : ℤ) → free_slot s.chat.clients ≡ none → IsTurnedAway r s f
unfolding accept_client
accept_client-refused r s f full =
    rw (full, accept_client) (_, refl, refl, refl, sent_to-append f s.chat.out _)

-- When the system's answers are orderly and the server is in order, a new connection takes the first slot whose
-- descriptor is negative, all slots before it being taken, and every client, the new one included, is
-- told once; or the descriptors of all slots are taken, the connection is told that the server is
-- full, nobody else is sent anything, and the clients and `pfds` stay as they are.
pub accept_client-answers :
    {unused : ℤ → Type 0} (r : Round) (s : PollServer) (f : ℤ)
    → IsOrderly r s.chat.clients
    → IsServing unused s
    → is_neg f ≡ false
    → (AreTaken (fds s.chat.clients) × IsTurnedAway r s f)
      ⊎ ((i : ℕ) × IsFirstFree i (fds s.chat.clients) × Joins r s i f)
accept_client-answers r s f o v live = elim (free_slot-search s.chat.clients) [
  | inl (full, taken) ↦ inl (taken, accept_client-refused r s f full)
  | inr (i, found, first) ↦ inr (i, first, accept_client-joined r s i f o v found live)
]

abbrev shutdown : List ℕ
shutdown = codes "Server shutting down.\n"

-- On exit every client is told once, and no other descriptor is written to.
pub exit_handler-Sends :
    (listenfd f : ℤ) (s : Chat)
    → is_neg f ≡ false
    → AreDistinct (fds s.clients)
    → Sends s (exit_handler listenfd s) f (once_if (has_fd f (fds s.clients)) shutdown)
unfolding exit_handler
exit_handler-Sends listenfd f s live d =
    sent_to-append f s.out _
    ∙ ap (λ t. sent_to f s.out ++ t)
        (sent_to-append f (broadcast_msg s.clients shutdown minus_one) (closed listenfd ∷ [])
          ∙ append-nil _
          ∙ sent_to-notice s.clients shutdown f live d)
