-- ===== src/Echo/Tcp/Client/Outcomes.antt =====
-- How section-07/lab/lab_1/client.c ends.
use zhone_engineering_academ.Common.{
  ℕ, suc, ◌<◌, ◌≡◌, true, false, Bool, List, [], ◌∷◌, ◌++◌, map, pos, is_neg, ◌==ℤ◌, length, ◌⊎◌,
  leb, not, ◌||◌, if◌then◌else◌,
}
use zhone_engineering_academ.CText.{codes, c_string}
use zhone_engineering_academ.Echo.{Answer, got, ended}
use zhone_engineering_academ.Echo.Tcp.Client.{
  Call, bound, connected, wrote, closed, returned, gave_up, Run, Kernel, echoed,
}

-- Whether there is an address text of 15 bytes or more, which does not fit `serv_ip` with its zero.
abbrev pub is_too_long : (arguments : List (List ℕ)) → Bool
is_too_long [] = false
is_too_long (port ∷ []) = false
is_too_long (port ∷ ip ∷ more) = leb 15 (length ip)

-- Whether the server closes the connection before the end of the session.
abbrev pub is_premature : (session : List (List ℕ × Answer)) → Bool
is_premature [] = false
is_premature ((line, ended) ∷ rest) = true
is_premature ((line, _) ∷ rest) = is_premature rest

-- The lines up to the one that the server does not answer, or all.
abbrev pub sent_lines : (session : List (List ℕ × Answer)) → List (List ℕ)
sent_lines [] = []
sent_lines ((line, ended) ∷ rest) = c_string line ∷ []
sent_lines ((line, _) ∷ rest) = c_string line ∷ sent_lines rest

-- How many lines the server answers.
abbrev pub answered : (session : List (List ℕ × Answer)) → ℕ
answered [] = 0
answered ((line, ended) ∷ rest) = 0
answered ((line, _) ∷ rest) = suc (answered rest)

-- No answer fills the buffer.
abbrev pub AreShort : (size : ℕ) → List (List ℕ × Answer) → Type 0
AreShort size [] = Unit
AreShort size ((line, got bytes) ∷ rest) = (length bytes < size) × AreShort size rest
AreShort size ((line, _) ∷ rest) = AreShort size rest

-- What a run wrote to the server
abbrev pub writes : List Call → List (List ℕ)
writes [] = []
writes (wrote bytes ∷ calls) = bytes ∷ writes calls
writes (bound port ∷ calls) = writes calls
writes (connected addr ∷ calls) = writes calls
writes (closed fd ∷ calls) = writes calls

-- A run with a connection: nothing is written `before` it. Each answer is printed; then the client
-- closes its socket and returns, or it gives up when the server has closed the connection.
abbrev pub HoldsSession : Kernel → List (List ℕ × Answer) → Run → Type 0
HoldsSession kernel session run =
    (before : List Call) × (writes before ≡ [])
    × (said : List ℕ) × (texts : List (List ℕ)) × (length texts ≡ answered session)
    × (run ≡ (
        if is_premature session
        then record {
          calls = before ++ map wrote (sent_lines session);
          printed =
              said
              ∷ codes "Connected to the server!\n"
              ∷ (map echoed texts ++ codes "Server terminated prematurely\n" ∷ []);
          outcome = gave_up;
        }
        else record {
          calls = before ++ (map wrote (sent_lines session) ++ closed kernel.socket ∷ []);
          printed = said ∷ codes "Connected to the server!\n" ∷ map echoed texts;
          outcome = returned;
        }))

-- A run with no connection writes nothing to it.
abbrev pub HasGivenUp : Run → Type 0
HasGivenUp run = (run.outcome ≡ gave_up) × (writes run.calls ≡ [])

abbrev pub Connects : Kernel → List (List ℕ × Answer) → Run → Type 0
Connects kernel session run =
    (((is_neg kernel.socket || not (kernel.connect ==ℤ pos 0)) ≡ true) × HasGivenUp run)
    ⊎ ((is_neg kernel.socket ≡ false) × (kernel.connect ≡ pos 0) × HoldsSession kernel session run)
