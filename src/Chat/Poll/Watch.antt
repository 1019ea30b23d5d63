-- ===== src/Chat/Poll/Watch.antt =====
-- The entries of `pfds` beside the clients of server_poll.c.
use zhone_engineering_academ.Common.{
  ℕ, zero, suc, ◌≡◌, refl, subst, true, false, ◌⊎◌, inl, some, List, [], ◌∷◌, ℤ, is_neg, minus_one,
  set, get_elem?,
}
use zhone_engineering_academ.Chat.Poll.{PollFd, pollin, watch, unwatch, poll_all}

-- Entry `p` has `poll` report input on the client with descriptor `f`.
abbrev pub IsWatched : ℤ → PollFd → Type 0
IsWatched f p = is_neg f ≡ false → (p.fd ≡ f) × (p.events ≡ pollin)

-- There is an entry for each slot, and it watches the slot's client if there is one.
abbrev pub AreWatched : List ℤ → List PollFd → Type 0
AreWatched [] ps = Unit
AreWatched (f ∷ fs) [] = ⊥
AreWatched (f ∷ fs) (p ∷ ps) = IsWatched f p × AreWatched fs ps

pub AreWatched-get :
    (fs : List ℤ) (ps : List PollFd) (i : ℕ) {f : ℤ}
    → AreWatched fs ps
    → get_elem? fs i ≡ some f
    → (p : PollFd) × (get_elem? ps i ≡ some p) × IsWatched f p
AreWatched-get [] ps i w e = cc
AreWatched-get (g ∷ fs) [] i w e = absurd w
AreWatched-get (g ∷ fs) (p ∷ ps) zero {f} w e =
    let same : g ≡ f = cc in (p, refl, subst (λ h. IsWatched h p) same w.0)
AreWatched-get (g ∷ fs) (p ∷ ps) (suc i) w e = AreWatched-get fs ps i w.1 e

pub AreWatched-watch :
    (fs : List ℤ) (ps : List PollFd) (i : ℕ) (f : ℤ)
    → AreWatched fs ps
    → AreWatched (set fs i f) (watch i f ps)
unfolding watch
AreWatched-watch [] ps i f w = tt
AreWatched-watch (g ∷ fs) [] i f w = absurd w
AreWatched-watch (g ∷ fs) (p ∷ ps) zero f w = (λ live. (refl, refl), w.1)
AreWatched-watch (g ∷ fs) (p ∷ ps) (suc i) f w = (w.0, AreWatched-watch fs ps i f w.1)

pub AreWatched-unwatch :
    (fs : List ℤ) (ps : List PollFd) (i : ℕ)
    → AreWatched fs ps
    → AreWatched (set fs i minus_one) (unwatch i ps)
unfolding unwatch
AreWatched-unwatch [] ps i w = tt
AreWatched-unwatch (g ∷ fs) [] i w = absurd w
AreWatched-unwatch (g ∷ fs) (p ∷ ps) zero w = (λ live. cc, w.1)
AreWatched-unwatch (g ∷ fs) (p ∷ ps) (suc i) w = (w.0, AreWatched-unwatch fs ps i w.1)

-- `poll` writes `revents` alone.
pub AreWatched-poll_all :
    (answer : PollFd → ℕ) (fs : List ℤ) (ps : List PollFd)
    → AreWatched fs ps
    → AreWatched fs (poll_all answer ps)
unfolding poll_all
AreWatched-poll_all answer [] ps w = tt
AreWatched-poll_all answer (f ∷ fs) [] w = absurd w
AreWatched-poll_all answer (f ∷ fs) (p ∷ ps) w = (w.0, AreWatched-poll_all answer fs ps w.1)

pub get_elem?-poll_all :
    (answer : PollFd → ℕ) (ps : List PollFd) (i : ℕ) {p : PollFd}
    → get_elem? ps i ≡ some p
    → get_elem? (poll_all answer ps) i ≡ some (record p { revents = answer p })
unfolding poll_all
get_elem?-poll_all answer [] i e = cc
get_elem?-poll_all answer (q ∷ ps) zero {p} e = let same : q ≡ p = cc in rw same
get_elem?-poll_all answer (q ∷ ps) (suc i) e = get_elem?-poll_all answer ps i e

-- An entry without a client has `poll` pass over it, its descriptor being the negative one of the slot, or it
-- is as the server found it: `unused` is what its descriptor may then be.
abbrev pub IsReleased : (unused : ℤ → Type 0) → ℤ → PollFd → Type 0
IsReleased unused f p = is_neg f ≡ true → (p.fd ≡ f) ⊎ unused p.fd

abbrev pub AreReleased : (unused : ℤ → Type 0) → List ℤ → List PollFd → Type 0
AreReleased unused [] ps = Unit
AreReleased unused (f ∷ fs) [] = ⊥
AreReleased unused (f ∷ fs) (p ∷ ps) = IsReleased unused f p × AreReleased unused fs ps

module _ (unused : ℤ → Type 0) where
  pub AreReleased-watch :
      (fs : List ℤ) (ps : List PollFd) (i : ℕ) (f : ℤ)
      → AreReleased unused fs ps
      → AreReleased unused (set fs i f) (watch i f ps)
  unfolding watch
  AreReleased-watch [] ps i f w = tt
  AreReleased-watch (g ∷ fs) [] i f w = absurd w
  AreReleased-watch (g ∷ fs) (p ∷ ps) zero f w = (λ free. inl refl, w.1)
  AreReleased-watch (g ∷ fs) (p ∷ ps) (suc i) f w = (w.0, AreReleased-watch fs ps i f w.1)

  pub AreReleased-unwatch :
      (fs : List ℤ) (ps : List PollFd) (i : ℕ)
      → AreReleased unused fs ps
      → AreReleased unused (set fs i minus_one) (unwatch i ps)
  unfolding unwatch
  AreReleased-unwatch [] ps i w = tt
  AreReleased-unwatch (g ∷ fs) [] i w = absurd w
  AreReleased-unwatch (g ∷ fs) (p ∷ ps) zero w = (λ free. inl refl, w.1)
  AreReleased-unwatch (g ∷ fs) (p ∷ ps) (suc i) w = (w.0, AreReleased-unwatch fs ps i w.1)

  pub AreReleased-poll_all :
      (answer : PollFd → ℕ) (fs : List ℤ) (ps : List PollFd)
      → AreReleased unused fs ps
      → AreReleased unused fs (poll_all answer ps)
  unfolding poll_all
  AreReleased-poll_all answer [] ps w = tt
  AreReleased-poll_all answer (f ∷ fs) [] w = absurd w
  AreReleased-poll_all answer (f ∷ fs) (p ∷ ps) w = (w.0, AreReleased-poll_all answer fs ps w.1)
