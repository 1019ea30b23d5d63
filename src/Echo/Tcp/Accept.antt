-- ===== src/Echo/Tcp/Accept.antt =====
-- The loop in `main` of section-07/lab/lab_1/server.c: a process for each connection, and the
-- descriptors that the processes hold.
use mathlib.Core.List.{append_assoc, append-nil}
use zhone_engineering_academ.Common.{
  ◌≡◌, ap, ◌∙◌, false, List, [], ◌∷◌, ◌++◌, if◌then◌else◌, ℤ, is_neg, ◌==ℤ◌, ==ℤ_refl, Bool, true,
  not, ◌&&◌, ◌||◌, Bool-cases, inl, inr, pos, refl,
}

-- The descriptors that a process has open
abbrev pub Open : Type 0
Open = List ℤ

abbrev pub close : ℤ → Open → Open
close fd [] = []
close fd (x ∷ open_fds) = if x ==ℤ fd then open_fds else x ∷ close fd open_fds

-- What `fork` returns: 0 in the child, the child's id in the parent, or -1 with no child.
pub data Fork : Type 0 where
  forked : Fork
  fork_failed : Fork

-- The parent's descriptors, those of each child when it calls `str_echo`, and whether the parent is
-- still there.
pub record Server : Type 0 where
  pub parent : Open
  pub children : List Open
  pub running : Bool

-- After `exit(-1)`; the children live on.
abbrev pub leaves : List Open → Server
leaves children = record { parent = []; children = children; running = false }

-- The child, if there is one, closes `listenfd` first.
abbrev pub child_of : (listenfd : ℤ) → Fork → Open → List Open
child_of listenfd forked accepted = close listenfd accepted ∷ []
child_of listenfd fork_failed accepted = []

-- The rounds of the loop, each with what `accept` and `fork` return.
unfoldable pub accept_loop : (listenfd : ℤ) → List (ℤ × Fork) → Server → Server
accept_loop listenfd [] s = s
accept_loop listenfd ((connfd, fork) ∷ rest) s =
    let accepted = connfd ∷ s.parent in
    let go = accept_loop listenfd rest (record s {
      parent = close connfd accepted;
      children = s.children ++ child_of listenfd fork accepted;
    }) in
    if is_neg connfd then leaves s.children else go

-- From the socket, with what `socket`, `bind` and `listen` return; `socket`'s result goes unchecked
-- to `bind`.
unfoldable pub main : (listenfd bound listening : ℤ) → List (ℤ × Fork) → Server
unfolding accept_loop
main listenfd bound listening rounds =
    if bound ==ℤ pos 0
    then if listening ==ℤ pos 0
      then accept_loop listenfd rounds
          (record { parent = listenfd ∷ []; children = []; running = true })
      else leaves []
    else leaves []

-- The connections that a child was made for, up to the first failure of `accept`
abbrev pub served : List (ℤ × Fork) → List Open
served [] = []
served ((connfd, forked) ∷ rest) = if is_neg connfd then [] else (connfd ∷ []) ∷ served rest
served ((connfd, fork_failed) ∷ rest) = if is_neg connfd then [] else served rest

abbrev pub fails : List (ℤ × Fork) → Bool
fails [] = false
fails ((connfd, fork) ∷ rest) = is_neg connfd || fails rest

-- `accept` gives descriptors that are not in use.
abbrev pub Accepts : (listenfd : ℤ) → List (ℤ × Fork) → Type 0
Accepts listenfd [] = Unit {0}
Accepts listenfd ((connfd, fork) ∷ rest) = ((connfd ==ℤ listenfd) ≡ false) × Accepts listenfd rest

abbrev pub in_the_end : (listenfd : ℤ) → List Open → List (ℤ × Fork) → Server
in_the_end listenfd before rounds = record {
  parent = if fails rounds then [] else listenfd ∷ [];
  children = before ++ served rounds;
  running = not (fails rounds);
}

accept_loop-children :
    (listenfd : ℤ) (rounds : List (ℤ × Fork)) (before : List Open)
    → Accepts listenfd rounds
    → accept_loop listenfd rounds
        (record { parent = listenfd ∷ []; children = before; running = true })
      ≡ in_the_end listenfd before rounds
unfolding accept_loop
accept_loop-children listenfd [] before h = rw (append-nil before)
accept_loop-children listenfd ((connfd, forked) ∷ rest) before (other, h) =
    elim (Bool-cases (is_neg connfd)) [
      | inl refused ↦ rw (refused, append-nil before)
      | inr good ↦
          rw (good, ==ℤ_refl connfd, other, ==ℤ_refl listenfd)
            (accept_loop-children listenfd rest (before ++ (connfd ∷ []) ∷ []) h
              ∙ ap (λ cs. record (in_the_end listenfd before rest) { children = cs })
                  (append_assoc before _ _))
    ]
accept_loop-children listenfd ((connfd, fork_failed) ∷ rest) before (other, h) =
    elim (Bool-cases (is_neg connfd)) [
      | inl refused ↦ rw (refused, append-nil before)
      | inr good ↦
          rw (good, ==ℤ_refl connfd, append-nil before)
            (accept_loop-children listenfd rest before h)
    ]

-- If `bind` or `listen` fails, the server exits with no child made. Otherwise, however many
-- connections come, it keeps the listening socket and no other, each child holds its own connection
-- alone, and a connection for which `fork` fails is closed; when `accept` fails the server exits and
-- the children made so far go on.
pub main-children :
    (listenfd bound listening : ℤ) (rounds : List (ℤ × Fork))
    → Accepts listenfd rounds
    → main listenfd bound listening rounds ≡ (
        if bound ==ℤ pos 0 && listening ==ℤ pos 0 then in_the_end listenfd [] rounds else leaves [])
unfolding main
main-children listenfd bound listening rounds h = elim (Bool-cases (bound ==ℤ pos 0)) [
  | inr failed ↦ rw failed refl
  | inl fine ↦ elim (Bool-cases (listening ==ℤ pos 0)) [
    | inr deaf ↦ rw (fine, deaf) refl
    | inl heard ↦ rw (fine, heard, accept_loop-children listenfd rounds [] h) refl
  ]
]
