-- ===== src/Led/Control/Trail.antt =====
-- The light that led_control.c moves: it goes to the next LED at each press and turns at the ends.
use zhone_engineering_academ.Common.{
  ℕ, zero, suc, ◌+◌, ◌-◌, ◌%◌, ◌<◌, ◌≡◌, refl, ap, subst, subst, Bool, true, false, some, List, [],
  ◌∷◌, ◌++◌, ◌==◌, if◌then◌else◌, arith, ltb, length, map, Bool-cases, inl, inr,
}
use zhone_engineering_academ.Led.Control.{
  Control, Answer, got, nothing_read, failed, Place, outer, held, stopped, btn_pressed, ins_size,
  run, main, react, hold, write_instruction, stop, step_at,
}

pub record Light : Type 0 where
  pub position : ℕ
  pub rising : Bool

-- One LED on, the others off
abbrev pub one_hot : ℕ → List ℕ
one_hot p = map (λ j. if j == p then 49 else 48) (0 ∷ 1 ∷ 2 ∷ 3 ∷ [])

abbrev turn : ℕ → Bool → Bool
turn p rising = if p == 0 then true else if p == 3 then false else rising

abbrev pub move : Light → Light
move l =
    let p = if l.rising then l.position + 1 else l.position - 1 in
    record { position = p; rising = turn p l.rising }

-- What shows while the light is moved so often.
unfoldable pub trail : Light → ℕ → List (List ℕ)
trail l zero = []
trail l (suc k) = one_hot l.position ∷ trail (move l) k

abbrev pub first_light : Light
first_light = record { position = 0; rising = true }

-- How often the button goes down, by the bytes it answers
unfoldable pub presses : (down : Bool) → List ℕ → ℕ
presses down [] = 0
presses down (b ∷ bs) =
    let rest = presses (b == btn_pressed) bs in
    if b == btn_pressed then (if down then rest else suc rest) else rest

abbrev pub light_at : ℕ → Light
light_at i = record { position = if ltb i 4 then i else 6 - i; rising = ltb i 3 }

-- The array and its index step through the places of the light.
write_instruction-one_hot :
    (i : ℕ) → i < 6 → write_instruction i ≡ one_hot (light_at i).position ∷ []
write_instruction-one_hot zero small = refl
write_instruction-one_hot (suc zero) small = refl
write_instruction-one_hot (suc (suc zero)) small = refl
write_instruction-one_hot (suc (suc (suc zero))) small = refl
write_instruction-one_hot (suc (suc (suc (suc zero)))) small = refl
write_instruction-one_hot (suc (suc (suc (suc (suc zero))))) small = refl
write_instruction-one_hot (suc (suc (suc (suc (suc (suc i)))))) small = absurd (omega arith)

pub light_at-move : (i : ℕ) → i < 6 → light_at ((i + 1) % 6) ≡ move (light_at i)
light_at-move zero small = refl
light_at-move (suc zero) small = refl
light_at-move (suc (suc zero)) small = refl
light_at-move (suc (suc (suc zero))) small = refl
light_at-move (suc (suc (suc (suc zero)))) small = refl
light_at-move (suc (suc (suc (suc (suc zero))))) small = refl
light_at-move (suc (suc (suc (suc (suc (suc i)))))) small = absurd (omega arith)

-- A button that answers at each read moves the light once for each time it goes down.
abbrev place_of : Bool → Place
place_of true = held
place_of false = outer

run-presses :
    (down : Bool) (i s : ℕ) (bs : List ℕ)
    → i < 6
    → run (record { i = i; btn_state = s; place = place_of down }) (map got bs)
      ≡ trail (light_at i) (presses down bs)
unfolding run trail presses
run-presses down i s [] small = refl
run-presses true i s (b ∷ bs) small = elim (Bool-cases (b == btn_pressed)) [
  | inl hit ↦ rw hit (run-presses true i b bs small)
  | inr miss ↦ rw miss (run-presses false i b bs small)
]
run-presses false i s (b ∷ bs) small = elim (Bool-cases (b == btn_pressed)) [
  | inl hit ↦ rw (
    hit,
    write_instruction-one_hot i small,
    run-presses true ((i + 1) % 6) b bs (omega arith),
    light_at-move i small,
  )
  | inr miss ↦ rw miss (run-presses false i b bs small)
]

-- While the button answers each read, `main` writes what shows while the light is moved, one
-- instruction for each time that the button goes down, however long it is held.
pub main-trail :
    (stale : ℕ) (bs : List ℕ)
    → main true true stale (map got bs) ≡ some (trail first_light (presses false bs))
unfolding main
main-trail stale bs = ap some (run-presses false 0 stale bs (omega arith))

abbrev IsPrefix : Light → List (List ℕ) → Type 0
IsPrefix l written = written ≡ trail l (length written)

-- What is to be written later, from whichever instruction, is such a prefix too.
abbrev LaterIsPrefix : List Answer → Type 0
LaterIsPrefix answers = (s : Control) → s.i < 6 → IsPrefix (light_at s.i) (run s answers)

react-IsPrefix :
    (i b : ℕ) (answers : List Answer)
    → i < 6
    → LaterIsPrefix answers
    → IsPrefix (light_at i) ((react i b).1 ++ run (react i b).0 answers)
unfolding trail
react-IsPrefix i b answers small later = elim (Bool-cases (b == btn_pressed)) [
  | inl hit ↦
      let next : Control = record { i = (i + 1) % ins_size; btn_state = b; place = held } in
      let rest =
        subst (λ l. IsPrefix l (run next answers)) (light_at-move i small)
          (later next (omega arith)) in
      rw (hit, write_instruction-one_hot i small) (ap (λ w. one_hot (light_at i).position ∷ w) rest)
  | inr miss ↦ rw miss (later (record { i = i; btn_state = b; place = outer }) small)
]

step_at-IsPrefix :
    (p : Place) (s : Control) (a : Answer) (answers : List Answer)
    → s.i < 6
    → LaterIsPrefix answers
    → IsPrefix (light_at s.i) ((step_at p s a).1 ++ run (step_at p s a).0 answers)
step_at-IsPrefix outer s (got b) answers small later = react-IsPrefix s.i b answers small later
step_at-IsPrefix outer s nothing_read answers small later =
    react-IsPrefix s.i s.btn_state answers small later
step_at-IsPrefix outer s failed answers small later = later (stop s) small
step_at-IsPrefix held s (got b) answers small later = later (hold s.i b) small
step_at-IsPrefix held s nothing_read answers small later = later (stop s) small
step_at-IsPrefix held s failed answers small later = later (stop s) small
step_at-IsPrefix stopped s a answers small later = later s small

run-IsPrefix : (answers : List Answer) → LaterIsPrefix answers
unfolding run trail
run-IsPrefix [] s small = refl
run-IsPrefix (a ∷ answers) s small =
    step_at-IsPrefix s.place s a answers small (run-IsPrefix answers)

-- Whatever the button answers, no byte and errors included, and whatever the array `btn_state`
-- holds at first, the instructions that `main` writes are what the light shows as it is moved
-- from the first LED, with no step left out or repeated.
pub main-IsPrefix :
    (stale : ℕ) (answers : List Answer)
    → (w : List (List ℕ)) × (main true true stale answers ≡ some w)
      × (w ≡ trail first_light (length w))
unfolding main
main-IsPrefix stale answers = (
  _,
  refl,
  run-IsPrefix answers (record { i = 0; btn_state = stale; place = outer }) (omega arith),
)
