-- ===== src/Echo/Examples.antt =====
-- The echo programs of section-07/lab on two lines, with smaller buffers.
use zhone_engineering_academ.Common.{
  if◌then◌else◌, ltb, ◌==ℤ◌, ◌&&◌, ◌+◌, ◌≡◌, refl, some, List, ℕ, [], ◌∷◌, map, replicate, length,
  arith, pos, negsuc, ℤ, none, false, suc,
}
use zhone_engineering_academ.CText.{codes}
use zhone_engineering_academ.Echo.{Answer, ended, got, finished}
use zhone_engineering_academ.Echo.Tcp.{str_echo}
use zhone_engineering_academ.Echo.Tcp.Session.{with_answers, shown}
use zhone_engineering_academ.Echo.Setup.{Library}
use zhone_engineering_academ.Echo.Tcp.Client
use zhone_engineering_academ.Echo.Tcp.Client.Sessions.{whole_session}
use zhone_engineering_academ.Echo.Tcp.Client.Typed.{main-typed}
use zhone_engineering_academ.CText.Lines.{pieces, flatten}
use zhone_engineering_academ.Echo.Tcp.Accept
use zhone_engineering_academ.Echo.Tcp.Accept.{
  Fork, forked, fork_failed, in_the_end, leaves, main-children,
}
use zhone_engineering_academ.Echo.Tcp.Reap
use zhone_engineering_academ.Echo.Tcp.Reap.Zombies.{Reach-reaped}
use zhone_engineering_academ.Echo.Udp.Programs.{server_main, client_main}
use zhone_engineering_academ.Echo.Udp.Typed.{client_main-typed}
use zhone_engineering_academ.Echo.Udp.Datagrams as Datagrams

abbrev lines : List (List ℕ)
lines = codes "hello\n" ∷ codes "hi\n" ∷ []

-- What the client prints second is "hi\nlo\n".
stale_test : shown (replicate 16 0) lines ≡ codes "hello\n" ∷ codes "hi\nlo\n" ∷ []
stale_test = refl

-- A library that knows one address.
abbrev library : Library
library = record {
  inet_pton = λ text. if ltb (length text) 7 then none else some 2_130_706_433;
  htons = λ p. p;
  atoi = λ text. pos (100 + length text);
}

abbrev typed : List ℕ
typed = flatten lines

main-typed_example :
    (ls : List (List ℕ)) × (pieces (suc (length typed)) 16 typed ≡ some ls)
    × (flatten ls ≡ typed)
    × (Client.main library
          (record { socket = pos 3; connect = pos 0 })
          (codes "0" ∷ codes "127.0.0.1" ∷ [])
          (replicate 16 0)
          (with_answers ls (str_echo 16 (map got ls)).written)
        ≡ whole_session library
            (record { socket = pos 3; connect = pos 0 })
            (codes "0")
            (codes "127.0.0.1")
            []
            (replicate 16 0)
            ls)
main-typed_example =
    main-typed library (record { socket = pos 3; connect = pos 0 }) (codes "0") (codes "127.0.0.1")
      [] 16 (replicate 16 0) typed refl (omega arith) refl refl (omega arith) refl refl

-- The server answers one line and is gone behind the second.
abbrev cut_session : List (List ℕ × Answer)
cut_session =
    (codes "hi\n", got (codes "hi\n")) ∷ (codes "bye\n", ended) ∷ (codes "on\n", ended) ∷ []

abbrev local : List (List ℕ)
local = codes "0" ∷ codes "127.0.0.1" ∷ []

abbrev online : Client.Kernel
online = record { socket = pos 3; connect = pos 0 }

-- Three connections, and no child for the second
abbrev rounds : List (ℤ × Fork)
rounds = (pos 4, forked) ∷ (pos 4, fork_failed) ∷ (pos 4, forked) ∷ []

main-children_example :
    Accept.main (pos 3) (pos 0) (pos 0) rounds
    ≡ (if pos 0 ==ℤ pos 0 && pos 0 ==ℤ pos 0 then in_the_end (pos 3) [] rounds else leaves [])
main-children_example = main-children (pos 3) (pos 0) (pos 0) rounds (refl, (refl, (refl, tt)))

-- `accept` fails behind the first child.
accept_fails :
    Accept.main (pos 3) (pos 0) (pos 0) ((pos 4, forked) ∷ (negsuc 0, forked) ∷ [])
    ≡ leaves ((pos 4 ∷ []) ∷ [])
unfolding Accept.main
accept_fails = refl

client_main-typed_example :
    (ls : List (List ℕ)) × (pieces (suc (length typed)) 16 typed ≡ some ls)
    × (flatten ls ≡ typed)
    × (client_main library
          (codes "127.0.0.1" ∷ [])
          (replicate 16 7)
          (Datagrams.with_answers ls (server_main 16 (pos 0) (map got ls)).sent)
        ≡ some (
          record { sin_addr = 2_130_706_433; sin_port = 1234 },
          record { sent = ls; printed = ls; ending = finished },
        ))
client_main-typed_example =
    client_main-typed library (codes "127.0.0.1") [] 16 (replicate 16 7) typed refl (omega arith)
      refl

-- Two children end, and one signal is lost: the handler waits for both.
abbrev both_reaped : Reap.Children
both_reaped = record { running = 1; zombies = 0; reaped = 2; pending = false; handling = false }

both_reaped-Reach : Reap.Reach both_reaped
both_reaped-Reach =
    let a = Reap.Reach.later (Reap.Reach.later Reap.Reach.start Reap.Step.forks) Reap.Step.forks in
    let b = Reap.Reach.later (Reap.Reach.later a Reap.Step.forks) Reap.Step.ends in
    let c = Reap.Reach.later (Reap.Reach.later b Reap.Step.ends) Reap.Step.interrupts in
    let d = Reap.Reach.later (Reap.Reach.later c Reap.Step.waits) Reap.Step.waits in
    Reap.Reach.later d Reap.Step.returns

Reach-reaped_example :
    (both_reaped.zombies ≡ 0)
    × (both_reaped.running + both_reaped.reaped ≡ Reap.forks_in both_reaped-Reach)
Reach-reaped_example = Reach-reaped both_reaped-Reach refl refl
