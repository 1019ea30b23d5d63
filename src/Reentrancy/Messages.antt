-- ===== src/Reentrancy/Messages.antt =====
-- What the two threads of section-04/lab/lab_3.c print, with a buffer each and with one static buffer.
use zhone_engineering_academ.Common.{
  ℕ, ◌++◌, ◌≤◌, length, arith, List, [], ◌∷◌, ◌≡◌, refl, ◌⊎◌, inl, inr, length, ◌≤◌, length-append,
}
use zhone_engineering_academ.CText.{codes}
use zhone_engineering_academ.CText.Memory.{take_all}
use zhone_engineering_academ.Reentrancy.{
  Pc, begun, asleep, returned, greeting, line, Reentrant, Own, NonReentrant, Static, ReentrantReach,
  NonReentrantReach, codes,
}

-- Two lines, in either order.
abbrev pub AreLines : (a b : List ℕ) → List (List ℕ) → Type 0
AreLines a b out = (out ≡ a ∷ b ∷ []) ⊎ (out ≡ b ∷ a ∷ [])

module _ (alice bob : List ℕ) where
  -- The lines of the two threads, if `msg` is what each finds in its buffer.
  abbrev of_alice : List ℕ → List ℕ
  of_alice msg = line alice msg

  abbrev of_bob : List ℕ → List ℕ
  of_bob msg = line bob msg

  abbrev OwnLines : List (List ℕ) → Type 0
  OwnLines = AreLines (of_alice (greeting alice)) (of_bob (greeting bob))

  -- What is printed when the threads stand there.
  abbrev Printed : Pc (List ℕ) → Pc (List ℕ) → List (List ℕ) → Type 0
  Printed returned returned out = OwnLines out
  Printed returned _ out = out ≡ of_alice (greeting alice) ∷ []
  Printed _ returned out = out ≡ of_bob (greeting bob) ∷ []
  Printed _ _ out = out ≡ []

  abbrev Holds : List ℕ → Pc (List ℕ) → Type 0
  Holds name (asleep msg) = msg ≡ greeting name
  Holds name _ = Unit

  abbrev IsApart : Pc (List ℕ) → Pc (List ℕ) → List (List ℕ) → Type 0
  IsApart p q out = Holds alice p × Holds bob q × Printed p q out

  first-IsApart :
      {out out' : List (List ℕ)} {p p' : Pc (List ℕ)} (q : Pc (List ℕ))
      → Own alice out p out' p'
      → IsApart p q out
      → IsApart p' q out'
  first-IsApart begun Own.writes (_, h, o) = (refl, h, o)
  first-IsApart (asleep b) Own.writes (_, h, o) = (refl, h, o)
  first-IsApart returned Own.writes (_, h, o) = (refl, h, o)
  first-IsApart begun Own.prints (e, h, o) = rw (o, e) (tt, h, refl)
  first-IsApart (asleep b) Own.prints (e, h, o) = rw (o, e) (tt, h, refl)
  first-IsApart returned Own.prints (e, h, o) = rw (o, e) (tt, h, inr refl)

  second-IsApart :
      {out out' : List (List ℕ)} (p : Pc (List ℕ)) {q q' : Pc (List ℕ)}
      → Own bob out q out' q'
      → IsApart p q out
      → IsApart p q' out'
  second-IsApart begun Own.writes (h, _, o) = (h, refl, o)
  second-IsApart (asleep b) Own.writes (h, _, o) = (h, refl, o)
  second-IsApart returned Own.writes (h, _, o) = (h, refl, o)
  second-IsApart begun Own.prints (h, e, o) = rw (o, e) (h, tt, refl)
  second-IsApart (asleep b) Own.prints (h, e, o) = rw (o, e) (h, tt, refl)
  second-IsApart returned Own.prints (h, e, o) = rw (o, e) (h, tt, inl refl)

  ReentrantReach-IsApart : {s : Reentrant} → ReentrantReach alice bob s → IsApart s.t1 s.t2 s.out
  ReentrantReach-IsApart ReentrantReach.start = (tt, tt, refl)
  ReentrantReach-IsApart (ReentrantReach.first {s} r st) =
      first-IsApart s.t2 st (ReentrantReach-IsApart r)
  ReentrantReach-IsApart (ReentrantReach.second {s} r st) =
      second-IsApart s.t1 st (ReentrantReach-IsApart r)

  abbrev IsGreeting : List ℕ → Type 0
  IsGreeting msg = (msg ≡ greeting alice) ⊎ (msg ≡ greeting bob)

  -- The first line was printed from the static buffer, which may have changed since.
  abbrev First : (List ℕ → List ℕ) → (own other buffer : List ℕ) → List (List ℕ) → Type 0
  First by own other buffer out =
      ((out ≡ by own ∷ []) × (buffer ≡ other)) ⊎ ((out ≡ by buffer ∷ []) × IsGreeting buffer)

  abbrev Mixed : List (List ℕ) → Type 0
  Mixed out = (msg : List ℕ) × IsGreeting msg × AreLines (of_alice msg) (of_bob msg) out

  abbrev Shares : Pc Unit → Pc Unit → List ℕ → List (List ℕ) → Type 0
  Shares begun begun b out = out ≡ []
  Shares (asleep _) begun b out = (out ≡ []) × (b ≡ greeting alice)
  Shares begun (asleep _) b out = (out ≡ []) × (b ≡ greeting bob)
  Shares (asleep _) (asleep _) b out = (out ≡ []) × IsGreeting b
  Shares returned begun b out = out ≡ of_alice (greeting alice) ∷ []
  Shares begun returned b out = out ≡ of_bob (greeting bob) ∷ []
  Shares returned (asleep _) b out = First of_alice (greeting alice) (greeting bob) b out
  Shares (asleep _) returned b out = First of_bob (greeting bob) (greeting alice) b out
  Shares returned returned b out = OwnLines out ⊎ Mixed out

  first-Shares :
      {b b' : List ℕ} {out out' : List (List ℕ)} {p p' : Pc Unit} (q : Pc Unit)
      → Static alice b out p b' out' p'
      → Shares p q b out
      → Shares p' q b' out'
  first-Shares begun Static.writes o = (o, refl)
  first-Shares (asleep _) Static.writes (o, _) = (o, inl refl)
  first-Shares returned Static.writes o = inl (o, refl)
  first-Shares begun Static.prints (o, e) = rw (o, e) refl
  first-Shares (asleep _) Static.prints (o, g) = rw o (inr (refl, g))
  first-Shares returned Static.prints (inl (o, e)) = rw (o, e) (inl (inr refl))
  first-Shares returned Static.prints (inr (o, g)) = rw o (inr (_, g, inr refl))

  second-Shares :
      {b b' : List ℕ} {out out' : List (List ℕ)} (p : Pc Unit) {q q' : Pc Unit}
      → Static bob b out q b' out' q'
      → Shares p q b out
      → Shares p q' b' out'
  second-Shares begun Static.writes o = (o, refl)
  second-Shares (asleep _) Static.writes (o, _) = (o, inr refl)
  second-Shares returned Static.writes o = inl (o, refl)
  second-Shares begun Static.prints (o, e) = rw (o, e) refl
  second-Shares (asleep _) Static.prints (o, g) = rw o (inr (refl, g))
  second-Shares returned Static.prints (inl (o, e)) = rw (o, e) (inl (inl refl))
  second-Shares returned Static.prints (inr (o, g)) = rw o (inr (_, g, inl refl))

  NonReentrantReach-Shares :
      {s : NonReentrant} → NonReentrantReach alice bob s → Shares s.t1 s.t2 s.buffer s.out
  NonReentrantReach-Shares NonReentrantReach.start = refl
  NonReentrantReach-Shares (NonReentrantReach.first {s} r st) =
      first-Shares s.t2 st (NonReentrantReach-Shares r)
  NonReentrantReach-Shares (NonReentrantReach.second {s} r st) =
      second-Shares s.t1 st (NonReentrantReach-Shares r)

abbrev pub hello : List ℕ → List ℕ
hello name = codes "Hi, I'm " ++ name

pub greeting-whole : (name : List ℕ) → length name ≤ 91 → greeting name ≡ hello name
unfolding greeting
greeting-whole name fits =
    take_all 99 (hello name) (omega (arith, length-append (codes "Hi, I'm ") name))

module _ {alice bob : List ℕ} (fits : length alice ≤ 91) (fits' : length bob ≤ 91) where
  -- With a buffer for each thread, and names of at most 91 bytes, each thread has printed its own
  -- greeting when both have returned, whatever the order of their steps.
  pub ReentrantReach-lines :
      {s : Reentrant}
      → ReentrantReach alice bob s
      → s.t1 ≡ returned
      → s.t2 ≡ returned
      → AreLines (line alice (hello alice)) (line bob (hello bob)) s.out
  ReentrantReach-lines {s} r e e' =
      let (_, _, lines) = ReentrantReach-IsApart alice bob r in
      rw (e, e', greeting-whole alice fits, greeting-whole bob fits') at lines

  -- With one static buffer either each thread has printed its own greeting when both have returned,
  -- or both have printed one and the same greeting, that of one of them.
  pub NonReentrantReach-lines :
      {s : NonReentrant}
      → NonReentrantReach alice bob s
      → s.t1 ≡ returned
      → s.t2 ≡ returned
      → AreLines (line alice (hello alice)) (line bob (hello bob)) s.out
        ⊎ ((msg : List ℕ) × ((msg ≡ hello alice) ⊎ (msg ≡ hello bob))
            × AreLines (line alice msg) (line bob msg) s.out)
  NonReentrantReach-lines {s} r e e' =
      rw (e, e', greeting-whole alice fits, greeting-whole bob fits') at
        (NonReentrantReach-Shares alice bob r)
