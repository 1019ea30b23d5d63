-- ===== src/Chat/Delivery.antt =====
-- Who is sent what: `broadcast_msg` and the messages of server_poll.c.
use zhone_engineering_academ.Common.{
  ℕ, ◌≡◌, refl, subst, Bool, false, ◌&&◌, not, List, [], ◌∷◌, ◌++◌, ℤ, is_neg, minus_one, ◌==ℤ◌,
  ==ℤ_iff, ==ℤ_comm, ==ℤ_refl, arith, if◌then◌else◌, Bool-cases, inl, inr,
}
use mathlib.Core.List.{append-nil}
use zhone_engineering_academ.Chat.Types.{Client, Effect, wrote, closed, printed}
use zhone_engineering_academ.Chat.Client.{broadcast_msg}
use zhone_engineering_academ.Chat.Slots.{fds, has_fd, AreDistinct, IsFresh}

-- The texts written to `f`, in order.
abbrev pub sent_to : ℤ → List Effect → List (List ℕ)
sent_to f [] = []
sent_to f (wrote g buf ∷ es) = if g ==ℤ f then buf ∷ sent_to f es else sent_to f es
sent_to f (closed g ∷ es) = sent_to f es
sent_to f (printed buf ∷ es) = sent_to f es

pub sent_to-append :
    (f : ℤ) (es ds : List Effect) → sent_to f (es ++ ds) ≡ sent_to f es ++ sent_to f ds
sent_to-append f [] ds = refl
sent_to-append f (wrote g buf ∷ es) ds = ground (arith, sent_to-append f es ds)
sent_to-append f (closed g ∷ es) ds = sent_to-append f es ds
sent_to-append f (printed buf ∷ es) ds = sent_to-append f es ds

-- One copy, or none.
abbrev pub once_if : Bool → List ℕ → List (List ℕ)
once_if b buf = if b then buf ∷ [] else []

pub ne_minus_one : (f : ℤ) → is_neg f ≡ false → (f ==ℤ minus_one) ≡ false
ne_minus_one f live = ground arith

-- A broadcast reaches each descriptor in use once, but for the exception, and no other descriptor.
pub sent_to-broadcast_msg :
    (cs : List Client) (buf : List ℕ) (except f : ℤ)
    → is_neg f ≡ false
    → AreDistinct (fds cs)
    → sent_to f (broadcast_msg cs buf except)
      ≡ once_if (has_fd f (fds cs) && not (f ==ℤ except)) buf
unfolding broadcast_msg
sent_to-broadcast_msg [] buf except f live d = refl
sent_to-broadcast_msg (c ∷ cs) buf except f live d = elim (Bool-cases (c.fd ==ℤ f)) [
  | inl hit ↦
      let e : c.fd ≡ f = (==ℤ_iff c.fd f).0 hit in
      let alone : has_fd f (fds cs) ≡ false = subst (λ g. IsFresh g (fds cs)) e d.0 live in
      rw e (
        ground (
          arith,
          ne_minus_one f live,
          ==ℤ_refl f,
          alone,
          sent_to-broadcast_msg cs buf except f live d.1,
        ))
  | inr miss ↦ rw miss (ground (arith, miss, sent_to-broadcast_msg cs buf except f live d.1))
]

-- A notice of the server reaches everybody.
pub sent_to-notice :
    (cs : List Client) (buf : List ℕ) (f : ℤ)
    → is_neg f ≡ false
    → AreDistinct (fds cs)
    → sent_to f (printed buf ∷ broadcast_msg cs buf minus_one) ≡ once_if (has_fd f (fds cs)) buf
sent_to-notice cs buf f live d =
    ground (arith, sent_to-broadcast_msg cs buf minus_one f live d, ne_minus_one f live)

-- What a client says reaches everybody else, and its echo reaches itself.
pub sent_to-speech :
    (cs : List Client) (echo all : List ℕ) (from f : ℤ)
    → is_neg f ≡ false
    → AreDistinct (fds cs)
    → sent_to f (wrote from echo ∷ (broadcast_msg cs all from ++ printed all ∷ []))
      ≡ (if f ==ℤ from then echo ∷ [] else once_if (has_fd f (fds cs)) all)
sent_to-speech cs echo all from f live d =
    rw
      (
        sent_to-append f (broadcast_msg cs all from) (printed all ∷ []),
        append-nil,
        sent_to-broadcast_msg cs all from f live d,
        ==ℤ_comm from f,
      )
      (ground arith)
