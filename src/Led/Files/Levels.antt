-- ===== src/Led/Files/Levels.antt =====
-- What the LEDs show after a write to the device file.
use zhone_engineering_academ.Common.{
  ℕ, suc, ◌≡◌, refl, ap, ap₂, ◌∙◌, sym, Bool, true, false, ◌&&◌, ◌||◌, some, List, [], ◌∷◌, ◌++◌,
  pos, ◌==◌, if◌then◌else◌, map, arith, Bool-cases, inl, inr,
}
use zhone_engineering_academ.Led.Device.{Call, gpio_set_value, led_gpios, btn_gpio}
use zhone_engineering_academ.Led.Files.{digit, led_status, led_write, write_leds, einval}

-- The GPIO lines behind the kernel's interface: setting a line changes that line alone.
pub record Gpio (Board : Type 0) : Type 0 where
  pub set_value : ℕ → ℕ → Board → Board
  pub get_value : Board → ℕ → ℕ
  pub get_set : (g v : ℕ) (b : Board) → get_value (set_value g v b) g ≡ v
  pub get_set_ne :
      (g h v : ℕ) (b : Board) → (g == h) ≡ false → get_value (set_value g v b) h ≡ get_value b h

-- The bytes that a write accepts.
abbrev pub is_digit : ℕ → Bool
is_digit b = b == b'1' || b == b'0'

-- Whether all bytes from the `i`-th on, one for each line, are accepted.
abbrev pub all_digits : List ℕ → ℕ → (ℕ → ℕ) → Bool
all_digits [] i kbuf = true
all_digits (g ∷ gs) i kbuf = is_digit (kbuf i) && all_digits gs (suc i) kbuf

-- The lines up to the first byte that is not accepted show the bytes; the others are as before.
abbrev pub shown : (level : ℕ → ℕ) → List ℕ → ℕ → (ℕ → ℕ) → List ℕ
shown level [] i kbuf = []
shown level (g ∷ gs) i kbuf =
    if is_digit (kbuf i)
    then kbuf i ∷ shown level gs (suc i) kbuf
    else map (λ h. digit (level h)) (g ∷ gs)

abbrev is_in : ℕ → List ℕ → Bool
is_in h [] = false
is_in h (g ∷ gs) = g == h || is_in h gs

abbrev AreApart : List ℕ → Type 0
AreApart [] = Unit
AreApart (g ∷ gs) = (is_in g gs ≡ false) × AreApart gs

-- What one round of the loop does.
data Round (g : ℕ) (gs : List ℕ) (i : ℕ) (kbuf : ℕ → ℕ) : Type 0 where
  sets :
      (v : ℕ)
      → kbuf i ≡ digit v
      → is_digit (kbuf i) ≡ true
      → (write_leds (g ∷ gs) i kbuf).calls ≡ gpio_set_value g v ∷ (write_leds gs (suc i) kbuf).calls
      → Round g gs i kbuf
  stops : is_digit (kbuf i) ≡ false → (write_leds (g ∷ gs) i kbuf).calls ≡ [] → Round g gs i kbuf

round : (g : ℕ) (gs : List ℕ) (i : ℕ) (kbuf : ℕ → ℕ) → Round g gs i kbuf
unfolding write_leds
round g gs i kbuf = elim (Bool-cases (kbuf i == b'1')) [
  | inl one ↦ sets 1 (ground arith) (rw one) (rw one)
  | inr other ↦ elim (Bool-cases (kbuf i == b'0')) [
    | inl nil ↦ sets 0 (ground arith) (rw (other, nil)) (rw (other, nil))
    | inr bad ↦ stops (rw (other, bad)) (rw (other, bad))
  ]
]

write_leds-finished :
    (gs : List ℕ) (i : ℕ) (kbuf : ℕ → ℕ) → (write_leds gs i kbuf).finished ≡ all_digits gs i kbuf
unfolding write_leds
write_leds-finished [] i kbuf = refl
write_leds-finished (g ∷ gs) i kbuf = ground (arith, write_leds-finished gs (suc i) kbuf)

module _ {Board : Type 0} (gpio : Gpio Board) where
  open gpio use {set_value, get_value, get_set, get_set_ne}

  -- The board after the calls.
  unfoldable pub run : List Call → Board → Board
  run [] b = b
  run (gpio_set_value g v ∷ cs) b = run cs (set_value g v b)
  run (_ ∷ cs) b = run cs b

  run-other :
      (gs : List ℕ) (i : ℕ) (kbuf : ℕ → ℕ) (h : ℕ) (b : Board)
      → is_in h gs ≡ false
      → get_value (run (write_leds gs i kbuf).calls b) h ≡ get_value b h
  unfolding run
  run-other [] i kbuf h b out = unfold write_leds in refl
  run-other (g ∷ gs) i kbuf h b out = elim (round g gs i kbuf) [
    | stops bad none_left ↦ rw none_left
    | sets v byte fine calls ↦ rw calls (
        run-other gs (suc i) kbuf h (set_value g v b) (ground arith)
        ∙ get_set_ne g h v b (ground arith))
  ]

  map-set :
      (gs : List ℕ) (g v : ℕ) (b : Board)
      → is_in g gs ≡ false
      → map (λ h. digit (get_value (set_value g v b) h)) gs ≡ map (λ h. digit (get_value b h)) gs
  map-set [] g v b out = refl
  map-set (h ∷ gs) g v b out =
      ap₂ ◌∷◌ (ap digit (get_set_ne g h v b (ground arith))) (map-set gs g v b (ground arith))

  shown-set :
      (gs : List ℕ) (i : ℕ) (kbuf : ℕ → ℕ) (g v : ℕ) (b : Board)
      → is_in g gs ≡ false
      → shown (get_value (set_value g v b)) gs i kbuf ≡ shown (get_value b) gs i kbuf
  shown-set [] i kbuf g v b out = refl
  shown-set (h ∷ gs) i kbuf g v b out = elim (Bool-cases (is_digit (kbuf i))) [
    | inl fine ↦ rw fine (ap (λ r. kbuf i ∷ r) (shown-set gs (suc i) kbuf g v b (ground arith)))
    | inr bad ↦ rw bad (map-set (h ∷ gs) g v b out)
  ]

  abbrev levels : Board → List ℕ → List ℕ
  levels b = map (λ h. digit (get_value b h))

  write_leds-shown :
      (gs : List ℕ) (i : ℕ) (kbuf : ℕ → ℕ) (b : Board)
      → AreApart gs
      → map (λ h. digit (get_value (run (write_leds gs i kbuf).calls b) h)) gs
        ≡ shown (get_value b) gs i kbuf
  unfolding run
  write_leds-shown [] i kbuf b apart = refl
  write_leds-shown (g ∷ gs) i kbuf b apart = elim (round g gs i kbuf) [
    | stops bad none_left ↦ rw bad (ap (λ cs. levels (run cs b) (g ∷ gs)) none_left)
    | sets v byte fine calls ↦ rw fine (
        ap (λ cs. levels (run cs b) (g ∷ gs)) calls
        ∙ ap₂ ◌∷◌
            (ap digit (run-other gs (suc i) kbuf g (set_value g v b) apart.0 ∙ get_set g v b)
              ∙ sym byte)
            (write_leds-shown gs (suc i) kbuf (set_value g v b) apart.1
              ∙ shown-set gs (suc i) kbuf g v b apart.0))
  ]

  -- A write returns `len` if its four bytes are all `'0'` or `'1'`, and `-EINVAL` if not. The LEDs
  -- before the first bad byte show the bytes written, the LEDs from there on and the button are
  -- as before.
  pub led_write-led_status :
      (kbuf : ℕ → ℕ) (len : ℕ) (b : Board)
      → let after : Board = run (led_write (some kbuf) len).calls b in
        ((led_write (some kbuf) len).ret
          ≡ (if all_digits led_gpios 0 kbuf then pos len else einval))
        × (led_status (get_value after) ≡ shown (get_value b) led_gpios 0 kbuf ++ b'\n' ∷ 0 ∷ [])
        × (get_value after btn_gpio ≡ get_value b btn_gpio)
  unfolding led_write
  led_write-led_status kbuf len b = (
    ap (λ f. if f then pos len else einval) (write_leds-finished led_gpios 0 kbuf),
    ap (λ r. r ++ b'\n' ∷ 0 ∷ [])
        (write_leds-shown led_gpios 0 kbuf b (refl, (refl, (refl, (refl, tt))))),
    run-other led_gpios 0 kbuf btn_gpio b refl,
  )
