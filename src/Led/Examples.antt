-- ===== src/Led/Examples.antt =====
-- The LED driver on concrete answers of the kernel.
use zhone_engineering_academ.Common.{
  ℕ, ◌≡◌, refl, true, false, some, List, map, [], ◌∷◌, ◌++◌, pos, negsuc, ◌==◌, if◌then◌else◌,
  arith,
}
use zhone_engineering_academ.CText.{codes}
use zhone_engineering_academ.Led.Device.{Answers, btn_gpio}
use zhone_engineering_academ.Led.Device.Resources.{region}
use zhone_engineering_academ.Led.Files.{led_write, led_status}
use zhone_engineering_academ.Led.Files.Levels.{Gpio, run, led_write-led_status}
use zhone_engineering_academ.Led.Control.{got, main}
use zhone_engineering_academ.Led.Control.Lights.{responses, accepted, main-responses}
use zhone_engineering_academ.Led.Control.Trail.{trail, first_light, presses, main-trail}

-- The kernel grants everything.
abbrev granting : Answers
granting = record {
  request = λ _. pos 0;
  region = pos 0;
  cdev = λ _. pos 0;
  class = pos 0;
  device = λ _. pos 0;
}

-- The device class exists already, -EEXIST.
abbrev class_taken : Answers
class_taken = record granting { class = negsuc 16 }

-- The third LED's pin is busy, -EBUSY.
abbrev pin_taken : Answers
pin_taken = record granting { request = λ gpio. if gpio == 525 then negsuc 15 else pos 0 }

set_at : (v w g : ℕ) → (if g == g then v else w) ≡ v
set_at v w g = ground arith

set_elsewhere : (g h v w : ℕ) → (g == h) ≡ false → (if g == h then v else w) ≡ w
set_elsewhere g h v w miss = rw miss

-- A board as the levels of its lines.
abbrev board : Gpio (ℕ → ℕ)
board = record {
  set_value = λ g v b h. if g == h then v else b h;
  get_value = λ b g. b g;
  get_set = λ g v b. set_at v (b g) g;
  get_set_ne = λ g h v b miss. set_elsewhere g h v (b h) miss;
}

abbrev typed : ℕ → ℕ
typed i = if i == 1 then b'1' else if i == 2 then b'x' else b'0'

-- "01x0" over LEDs that are all on: the first two change.
led_write-led_status_example :
    let after : ℕ → ℕ = run board (led_write (some typed) 4).calls (λ _. 1) in
    ((led_write (some typed) 4).ret ≡ negsuc 21)
    × (led_status after ≡ codes "0111\n" ++ 0 ∷ [])
    × (after btn_gpio ≡ 1)
led_write-led_status_example = led_write-led_status board typed 4 (λ _. 1)

-- The button is up, held for two reads, up, and down again.
abbrev samples : List ℕ
samples = 49 ∷ 48 ∷ 48 ∷ 49 ∷ 48 ∷ []

two_presses :
    main true true 0 (map got samples)
    ≡ some ((49 ∷ 48 ∷ 48 ∷ 48 ∷ []) ∷ (48 ∷ 49 ∷ 48 ∷ 48 ∷ []) ∷ [])
unfolding main
two_presses = refl

main-trail_example :
    main true true 0 (map got samples) ≡ some (trail first_light (presses false samples))
main-trail_example = main-trail 0 samples

-- All LEDs are on, then the first alone, then the second.
main-responses_example :
    (ws : List (List ℕ)) × (main true true 0 (map got samples) ≡ some ws)
    × (responses board (λ _. 1) ws
        ≡ map (accepted board) (trail first_light (presses false samples)))
main-responses_example = main-responses board 0 samples (λ _. 1)
