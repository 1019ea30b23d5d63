-- ===== src/Led/Control.antt =====
-- section-08/lab/led_device/led_control.c: a button that moves the light along four LEDs. The
-- bytes that the button's device answers are the input, the instructions written to the LED's the
-- output.
pub mod Trail
pub mod Lights
use zhone_engineering_academ.Common.{
  ℕ, zero, suc, ◌+◌, ◌%◌, Bool, true, false, Option, none, some, List, [], ◌∷◌, ◌++◌, ◌==◌,
  if◌then◌else◌, get_elem?,
}

-- `BTN_PRESSED`, the character '0'
abbrev pub btn_pressed : ℕ
btn_pressed = 48

abbrev pub ins_size : ℕ
ins_size = 6

-- `instructions`: for each LED, '1' turns it on.
abbrev pub instructions : List (List ℕ)
instructions =
    (49 ∷ 48 ∷ 48 ∷ 48 ∷ [])
    ∷ (48 ∷ 49 ∷ 48 ∷ 48 ∷ [])
    ∷ (48 ∷ 48 ∷ 49 ∷ 48 ∷ [])
    ∷ (48 ∷ 48 ∷ 48 ∷ 49 ∷ [])
    ∷ (48 ∷ 48 ∷ 49 ∷ 48 ∷ [])
    ∷ (48 ∷ 49 ∷ 48 ∷ 48 ∷ [])
    ∷ []

-- What a `read` of the button answers: its first byte, no byte, or an error.
pub data Answer : Type 0 where
  got : ℕ → Answer
  nothing_read : Answer
  failed : Answer

-- Where the program waits: at the outer `read`, at the `read` of the `do` loop, or after `cleanup`.
pub data Place : Type 0 where
  outer : Place
  held : Place
  stopped : Place

-- The variables `i` and `btn_state[0]`, and the place
pub record Control : Type 0 where
  pub i : ℕ
  pub btn_state : ℕ
  pub place : Place

-- The instruction that is written, none outside the array.
abbrev pub write_instruction : ℕ → List (List ℕ)
write_instruction i = elim (get_elem? instructions i) [ none ↦ [] | some w ↦ w ∷ [] ]

-- After the outer `read`, which leaves `btn_state[0]` as `b`
abbrev pub react : ℕ → ℕ → Control × List (List ℕ)
react i b =
    if b == btn_pressed
    then (record { i = (i + 1) % ins_size; btn_state = b; place = held }, write_instruction i)
    else (record { i = i; btn_state = b; place = outer }, [])

-- After the `read` of the `do` loop, which leaves `btn_state[0]` as `b`
abbrev pub hold : ℕ → ℕ → Control
hold i b = record { i = i; btn_state = b; place = if b == btn_pressed then held else outer }

abbrev pub stop : Control → Control
stop s = record s { place = stopped }

-- From one `read` of the button to the next, with what is written between them
abbrev pub step_at : Place → Control → Answer → Control × List (List ℕ)
step_at outer s (got b) = react s.i b
step_at outer s nothing_read = react s.i s.btn_state
step_at outer s failed = (stop s, [])
step_at held s (got b) = (hold s.i b, [])
step_at held s nothing_read = (stop s, [])
step_at held s failed = (stop s, [])
step_at stopped s a = (s, [])

-- The instructions written while the button answers so
unfoldable pub run : Control → List Answer → List (List ℕ)
run s [] = []
run s (a ∷ answers) = let (next, written) = step_at s.place s a in written ++ run next answers

-- `main`: status 1 where a device does not open, else the run. `stale` is what the array
-- `btn_state`, which nothing initialises, holds.
unfoldable pub main :
    (led_opens btn_opens : Bool) → (stale : ℕ) → List Answer → Option (List (List ℕ))
unfolding run
main false btn_opens stale answers = none
main true false stale answers = none
main true true stale answers =
    some (run (record { i = 0; btn_state = stale; place = outer }) answers)
