-- ===== src/Turns/Shutdown/Progress.antt =====
-- How the two processes of section-05/lab/lab_2.c go on without a signal.
use zhone_engineering_academ.Common.{refl, true, false, ◌≡◌, Bool, ◌⊎◌, inl, inr}
use zhone_engineering_academ.Turns.{Pc}
use zhone_engineering_academ.Turns.Order.{Reach-Moves}
use zhone_engineering_academ.Turns.Shutdown.{
  Addr, Place, starting, opened, failing, returned, raw, empty_set, full_set, gone, in_loop,
  Process, Memory, ProducerStep, sets_empty, sets_full, sets_value, ConsumerStep, Program, Reach,
}
use zhone_engineering_academ.Turns.Shutdown.Settled.{is_gone, is_down, is_reader, Reach-Settled}
use zhone_engineering_academ.Turns.Shutdown.Loops.{Reach-loops}

abbrev pub GoesOn : Program → Type 0
GoesOn s =
    ((p : Process) × (w : Memory) × ProducerStep s.memory s.producer p w)
    ⊎ ((c : Process) × (w : Memory) × ConsumerStep s.memory s.consumer c w)

-- Both processes in their loops.
abbrev pub looping_both : Memory → (f g : Bool) → (a b : Addr) → (p c : Pc) → Program
looping_both w f g a b p c = record {
  memory = w;
  producer = record { fd = f; addr = a; place = in_loop p };
  consumer = record { fd = g; addr = b; place = in_loop c };
}

looping_both-GoesOn :
    (w : Memory) (f g : Bool) (a b : Addr) (p c : Pc)
    → Reach (looping_both w f g a b p c)
    → GoesOn (looping_both w f g a b p c)
looping_both-GoesOn w f g a b p c r =
    let (at_empty, at_full, _, _, _, _, _, _) = Reach-Settled r in
    elim (Reach-loops r) [
      | inl before ↦ cc
      | inr turns ↦ elim (Reach-Moves turns) [
        | inl (m, p', move) ↦ inl (_, _, ProducerStep.loops move (λ e. at_empty, λ e. at_full))
        | inr (m, c', move) ↦ inr (_, _, ConsumerStep.loops move (λ e. at_full, λ e. at_empty))
      ]
    ]

-- Outside of its loop a process can go on, unless it has ended.
producer_goes :
    (w : Memory) (f : Bool) (a : Addr) (pl : Place)
    → ((p : Process) × (w' : Memory) × ProducerStep w
          (record { fd = f; addr = a; place = pl })
          p
          w')
      ⊎ (pl ≡ returned)
      ⊎ (is_gone pl ≡ true)
      ⊎ ((pc : Pc) × (pl ≡ in_loop pc))
producer_goes w f a starting = inl (_, _, ProducerStep.open_fails)
producer_goes w f a opened = inl (_, _, ProducerStep.map_fails)
producer_goes w f a failing = inl (_, _, ProducerStep.returns)
producer_goes w f a returned = inr (inl refl)
producer_goes w f a raw = inl (_, _, sets_empty)
producer_goes w f a empty_set = inl (_, _, sets_full)
producer_goes w f a full_set = inl (_, _, sets_value)
producer_goes w f a (in_loop pc) = inr (inr (inr (pc, refl)))
producer_goes w f a (gone pc) = inr (inr (inl refl))

consumer_goes :
    (w : Memory) (f : Bool) (a : Addr) (pl : Place)
    → is_reader pl ≡ true
    → ((p : Process) × (w' : Memory) × ConsumerStep w
          (record { fd = f; addr = a; place = pl })
          p
          w')
      ⊎ (pl ≡ returned)
      ⊎ (is_gone pl ≡ true)
      ⊎ ((pc : Pc) × (pl ≡ in_loop pc))
consumer_goes w f a starting e = inl (_, _, ConsumerStep.open_fails)
consumer_goes w f a opened e = inl (_, _, ConsumerStep.map_fails)
consumer_goes w f a failing e = inl (_, _, ConsumerStep.returns)
consumer_goes w f a returned e = inr (inl refl)
consumer_goes w f a raw e = cc
consumer_goes w f a empty_set e = cc
consumer_goes w f a full_set e = cc
consumer_goes w f a (in_loop pc) e = inr (inr (inr (pc, refl)))
consumer_goes w f a (gone pc) e = inr (inr (inl refl))

in_loops-GoesOn :
    (w : Memory) (f g : Bool) (a b : Addr) (pl pl' : Place) (p c : Pc)
    → pl ≡ in_loop p
    → pl' ≡ in_loop c
    → let s : Program = record {
      memory = w;
      producer = record { fd = f; addr = a; place = pl };
      consumer = record { fd = g; addr = b; place = pl' };
    } in
      Reach s → GoesOn s
in_loops-GoesOn w f g a b pl pl' p c at_p at_c r =
    rw (at_p, at_c) (looping_both-GoesOn w f g a b p c (rw (at_p, at_c) at r))

-- In every reachable state in which neither handler has run and neither process has returned, which
-- it does behind a failed `mmap`, one of the processes can go on without a signal, and where it does
-- so by a call on a semaphore, the call is defined.
pub Reach-GoesOn :
    {s : Program}
    → Reach s
    → is_down s ≡ false
    → GoesOn s ⊎ ((s.producer.place ≡ returned) ⊎ (s.consumer.place ≡ returned))
Reach-GoesOn {s} r up =
    let (_, _, _, _, _, _, _, reader) = Reach-Settled r in
    let p = s.producer in
    let c = s.consumer in
    elim (producer_goes s.memory p.fd p.addr p.place) [
      | inl step ↦ inl (inl step)
      | inr (inl ended) ↦ inr (inl ended)
      | inr (inr (inl down)) ↦ cc
      | inr (inr (inr (x, at_p))) ↦ elim (consumer_goes s.memory c.fd c.addr c.place reader) [
        | inl step ↦ inl (inr step)
        | inr (inl ended) ↦ inr (inr ended)
        | inr (inr (inl down)) ↦ let both : is_down s ≡ true = rw (at_p, down) refl in cc
        | inr (inr (inr (y, at_c))) ↦
            inl (in_loops-GoesOn s.memory p.fd c.fd p.addr c.addr p.place c.place x y at_p at_c r)
      ]
    ]
