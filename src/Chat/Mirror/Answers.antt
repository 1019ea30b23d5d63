-- ===== src/Chat/Mirror/Answers.antt =====
-- The answer of `poll` for each slot of server_poll.c beside that of `select` in server_select.c.
use zhone_engineering_academ.Common.{
  ℕ, zero, suc, ◌≡◌, refl, subst, Bool, true, false, some, List, [], ◌∷◌, ℤ, is_neg, minus_one,
  arith, set, get_elem?, ==ℤ_refl, ◌∙◌, ap, sym,
}
use zhone_engineering_academ.Chat.Slots.{has_fd}
use zhone_engineering_academ.Chat.Poll.{PollFd, pollin, is_readable, watch, unwatch, poll_all}
use zhone_engineering_academ.Chat.Poll.Watch.{AreWatched}
use zhone_engineering_academ.Chat.Select.{FdSet}

-- Slot by slot: the client's input is reported by both calls, or by neither.
abbrev pub AreAnswered : FdSet → List ℤ → List PollFd → Type 0
AreAnswered rset [] ps = Unit
AreAnswered rset (f ∷ fs) [] = ⊥
AreAnswered rset (f ∷ fs) (p ∷ ps) =
    (is_neg f ≡ false → is_readable p.revents ≡ rset f) × AreAnswered rset fs ps

-- The entry of a free slot has no descriptor.
abbrev pub AreQuiet : List ℤ → List PollFd → Type 0
AreQuiet [] ps = Unit
AreQuiet (f ∷ fs) [] = ⊥
AreQuiet (f ∷ fs) (p ∷ ps) = (is_neg f ≡ true → is_neg p.fd ≡ true) × AreQuiet fs ps

-- What poll(2) documents: input is reported where it was asked for, and a negative descriptor is
-- passed over.
pub record IsPoll (ready : ℤ → Bool) (answer : PollFd → ℕ) : Type 0 where
  pub reports :
      (p : PollFd) → p.events ≡ pollin → is_neg p.fd ≡ false → is_readable (answer p) ≡ ready p.fd
  pub skips : (p : PollFd) → is_neg p.fd ≡ true → is_readable (answer p) ≡ false

module _ (rset : FdSet) where
  pub AreAnswered-get :
      (fs : List ℤ) (ps : List PollFd) (i : ℕ) {f : ℤ} {p : PollFd}
      → AreAnswered rset fs ps
      → get_elem? fs i ≡ some f
      → get_elem? ps i ≡ some p
      → is_neg f ≡ false
      → is_readable p.revents ≡ rset f
  AreAnswered-get [] ps i w e e' live = cc
  AreAnswered-get (g ∷ fs) [] i w e e' live = absurd w
  AreAnswered-get (g ∷ fs) (q ∷ ps) zero {f} {p} w e e' live =
      let same : g ≡ f = cc in
      let same' : q ≡ p = cc in
      subst (λ x. is_readable x.revents ≡ rset f) same'
        (subst (λ x. is_neg x ≡ false → is_readable q.revents ≡ rset x) same w.0 live)
  AreAnswered-get (g ∷ fs) (q ∷ ps) (suc i) w e e' live = AreAnswered-get fs ps i w.1 e e' live

  pub AreAnswered-unwatch :
      (fs : List ℤ) (ps : List PollFd) (i : ℕ)
      → AreAnswered rset fs ps
      → AreAnswered rset (set fs i minus_one) (unwatch i ps)
  unfolding unwatch
  AreAnswered-unwatch [] ps i w = tt
  AreAnswered-unwatch (g ∷ fs) [] i w = absurd w
  AreAnswered-unwatch (g ∷ fs) (p ∷ ps) zero w = (λ live. cc, w.1)
  AreAnswered-unwatch (g ∷ fs) (p ∷ ps) (suc i) w = (w.0, AreAnswered-unwatch fs ps i w.1)

  -- A new client is not served in the iteration that accepts it.
  pub AreAnswered-watch :
      (fs : List ℤ) (ps : List PollFd) (i : ℕ) (f : ℤ) {p : PollFd}
      → AreAnswered rset fs ps
      → get_elem? ps i ≡ some p
      → is_readable p.revents ≡ false
      → rset f ≡ false
      → AreAnswered rset (set fs i f) (watch i f ps)
  unfolding watch
  AreAnswered-watch [] ps i f w e silent out = tt
  AreAnswered-watch (g ∷ fs) [] i f w e silent out = absurd w
  AreAnswered-watch (g ∷ fs) (q ∷ ps) zero f {p} w e silent out =
      let same : q ≡ p = cc in (λ live. rw (same, silent, out), w.1)
  AreAnswered-watch (g ∷ fs) (q ∷ ps) (suc i) f w e silent out =
      (w.0, AreAnswered-watch fs ps i f w.1 e silent out)

pub AreQuiet-unwatch :
    (fs : List ℤ) (ps : List PollFd) (i : ℕ)
    → AreQuiet fs ps
    → AreQuiet (set fs i minus_one) (unwatch i ps)
unfolding unwatch
AreQuiet-unwatch [] ps i w = tt
AreQuiet-unwatch (g ∷ fs) [] i w = absurd w
AreQuiet-unwatch (g ∷ fs) (p ∷ ps) zero w = (λ _. refl, w.1)
AreQuiet-unwatch (g ∷ fs) (p ∷ ps) (suc i) w = (w.0, AreQuiet-unwatch fs ps i w.1)

pub AreQuiet-watch :
    (fs : List ℤ) (ps : List PollFd) (i : ℕ) (f : ℤ)
    → AreQuiet fs ps
    → AreQuiet (set fs i f) (watch i f ps)
unfolding watch
AreQuiet-watch [] ps i f w = tt
AreQuiet-watch (g ∷ fs) [] i f w = absurd w
AreQuiet-watch (g ∷ fs) (p ∷ ps) zero f w = (λ free. free, w.1)
AreQuiet-watch (g ∷ fs) (p ∷ ps) (suc i) f w = (w.0, AreQuiet-watch fs ps i f w.1)

pub AreQuiet-get :
    (fs : List ℤ) (ps : List PollFd) (i : ℕ) {f : ℤ}
    → AreQuiet fs ps
    → get_elem? fs i ≡ some f
    → is_neg f ≡ true
    → (p : PollFd) × (get_elem? ps i ≡ some p) × (is_neg p.fd ≡ true)
AreQuiet-get [] ps i w e free = cc
AreQuiet-get (g ∷ fs) [] i w e free = absurd w
AreQuiet-get (g ∷ fs) (p ∷ ps) zero {f} w e free =
    let same : f ≡ g = cc in (p, refl, w.0 (subst (λ x. is_neg x ≡ true) same free))
AreQuiet-get (g ∷ fs) (p ∷ ps) (suc i) w e free = AreQuiet-get fs ps i w.1 e free

module _ {ready : ℤ → Bool} {answer : PollFd → ℕ} (doc : IsPoll ready answer) where
  pub AreQuiet-poll_all :
      (fs : List ℤ) (ps : List PollFd) → AreQuiet fs ps → AreQuiet fs (poll_all answer ps)
  unfolding poll_all
  AreQuiet-poll_all [] ps w = tt
  AreQuiet-poll_all (f ∷ fs) [] w = absurd w
  AreQuiet-poll_all (f ∷ fs) (p ∷ ps) w = (w.0, AreQuiet-poll_all fs ps w.1)

  -- After both calls the answers agree, if `select` reports the clients that are ready.
  pub AreAnswered-poll_all :
      (rset : FdSet) (fs : List ℤ) (ps : List PollFd)
      → AreWatched fs ps
      → ((f : ℤ) → is_neg f ≡ false → has_fd f fs ≡ true → rset f ≡ ready f)
      → AreAnswered rset fs (poll_all answer ps)
  unfolding poll_all
  AreAnswered-poll_all rset [] ps w sel = tt
  AreAnswered-poll_all rset (f ∷ fs) [] w sel = absurd w
  AreAnswered-poll_all rset (f ∷ fs) (p ∷ ps) w sel = (
    λ live.
        let (same, asked) = w.0 live in
        doc.reports p asked (rw same live)
        ∙ ap ready same
        ∙ sym (sel f live (rw (==ℤ_refl f) refl)),
    AreAnswered-poll_all rset fs ps w.1 (λ g live inside. sel g live (ground arith)),
  )
