-- ===== src/Reentrancy/Ends.antt =====
-- Exactly what the two programs of section-04/lab/lab_3.c can print.
use zhone_engineering_academ.Common.{ℕ, ◌≡◌, ◌⊎◌, List}
use zhone_engineering_academ.Reentrancy.{returned, line, Reentrant, NonReentrant, NonReentrantReach}
use zhone_engineering_academ.Reentrancy.Messages.{AreLines, hello}

abbrev pub own_ended : List (List ℕ) → Reentrant
own_ended out = record { out = out; t1 = returned; t2 = returned }

abbrev pub static_ended : (buffer : List ℕ) → List (List ℕ) → NonReentrant
static_ended buffer out = record { buffer = buffer; out = out; t1 = returned; t2 = returned }

-- Each thread prints its own greeting, or both print that of one of them.
abbrev pub AreShared : (alice bob : List ℕ) → List (List ℕ) → Type 0
AreShared alice bob out =
    AreLines (line alice (hello alice)) (line bob (hello bob)) out
    ⊎ ((msg : List ℕ) × ((msg ≡ hello alice) ⊎ (msg ≡ hello bob))
        × AreLines (line alice msg) (line bob msg) out)

-- A run that ends with this text, whatever is in the static buffer
abbrev pub StaticEnds : (alice bob : List ℕ) → List (List ℕ) → Type 0
StaticEnds alice bob out = (buffer : List ℕ) × NonReentrantReach alice bob (static_ended buffer out)
