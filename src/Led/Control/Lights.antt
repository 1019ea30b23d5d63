-- ===== src/Led/Control/Lights.antt =====
-- led_control.c and the driver of led_device.c together: from the button to the LEDs.
use zhone_engineering_academ.Common.{
  ℕ, zero, suc, ◌<◌, ◌≡◌, List, [], ◌∷◌, ◌++◌, none, some, get_elem?, refl, pos, arith, ℤ, map, ap₂,
  subst, ◌%◌, ◌+◌, true, false,
}
use zhone_engineering_academ.Led.Control.{got, main}
use zhone_engineering_academ.Led.Control.Trail.{
  one_hot, trail, light_at, light_at-move, first_light, presses, main-trail,
}
use zhone_engineering_academ.Led.Files.{led_write, led_status}
use zhone_engineering_academ.Led.Files.Levels.{Gpio, run, led_write-led_status}

-- The memory that `write` is given, from the instruction on
abbrev pub memory_of : List ℕ → ℕ → ℕ
memory_of w i = elim (get_elem? w i) [ none ↦ 0 | some c ↦ c ]

module _ {Board : Type 0} (gpio : Gpio Board) where
  abbrev pub Lights : ℕ → Board → Type 0
  Lights p b =
      let written = led_write (some (memory_of (one_hot p))) 4 in
      (written.ret ≡ pos 4)
      × (led_status (gpio.get_value (run gpio written.calls b)) ≡ one_hot p ++ b'\n' ∷ 0 ∷ [])

  led_write-Lights : (p : ℕ) → p < 4 → (b : Board) → Lights p b
  led_write-Lights zero small b =
      let (r, s, _) = led_write-led_status gpio (memory_of (one_hot 0)) 4 b in (r, s)
  led_write-Lights (suc zero) small b =
      let (r, s, _) = led_write-led_status gpio (memory_of (one_hot 1)) 4 b in (r, s)
  led_write-Lights (suc (suc zero)) small b =
      let (r, s, _) = led_write-led_status gpio (memory_of (one_hot 2)) 4 b in (r, s)
  led_write-Lights (suc (suc (suc zero))) small b =
      let (r, s, _) = led_write-led_status gpio (memory_of (one_hot 3)) 4 b in (r, s)
  led_write-Lights (suc (suc (suc (suc p)))) small b = absurd (omega arith)

  -- What each `write` of an instruction returns, and the status of the LEDs behind it.
  abbrev pub responses : Board → List (List ℕ) → List (ℤ × List ℕ)
  responses b [] = []
  responses b (w ∷ ws) =
      let written = led_write (some (memory_of w)) 4 in
      let after = run gpio written.calls b in
      (written.ret, led_status (gpio.get_value after)) ∷ responses after ws

  -- A `write` of four bytes that is accepted, and its LEDs alone are on.
  abbrev pub accepted : List ℕ → ℤ × List ℕ
  accepted w = (pos 4, w ++ b'\n' ∷ 0 ∷ [])

  responses-trail :
      (k i : ℕ) (b : Board)
      → i < 6
      → responses b (trail (light_at i) k) ≡ map accepted (trail (light_at i) k)
  unfolding trail
  responses-trail zero i b small = refl
  responses-trail (suc k) i b small =
      let on_board : (light_at i).position < 4 = ground arith in
      let (ret, status) = led_write-Lights (light_at i).position on_board b in
      let after =
        run gpio (led_write (some (memory_of (one_hot (light_at i).position))) 4).calls b in
      let next = responses-trail k ((i + 1) % 6) after (omega arith) in
      ap₂ (λ r rs. r ∷ rs) (ap₂ (λ x y. (x, y)) ret status)
        (subst (λ l. responses after (trail l k) ≡ map accepted (trail l k)) (light_at-move i small)
          next)

  -- The control program and the driver together, with a button that answers at each read with the
  -- bytes `bs`: the driver accepts every instruction that the program writes, and behind each of them
  -- exactly one LED is on, the first one at the first press of the button, and then at each press its
  -- neighbour, turning at the ends, whatever the LEDs were at first.
  pub main-responses :
      (stale : ℕ) (bs : List ℕ) (b : Board)
      → (ws : List (List ℕ)) × (main true true stale (map got bs) ≡ some ws)
        × (responses b ws ≡ map accepted (trail first_light (presses false bs)))
  main-responses stale bs b =
      (_, main-trail stale bs, responses-trail (presses false bs) 0 b (omega arith))
