-- ===== src/Led/Device/Resources.antt =====
-- Who owns the kernel's resources during led_device.c. A GPIO pin is used only between its
-- `gpio_request` and `gpio_free`; every other resource is registered once and given back once.
use zhone_engineering_academ.Common.{
  inl, inr, Option-cases, ◌||◌, ℕ, ◌≡◌, refl, Bool, true, false, ◌||◌, Option, none, some, List, [],
  ◌∷◌, ◌++◌, ℤ, ◌==◌, if◌then◌else◌, arith, inl, inr, Bool-cases, ◌∙◌,
}
use zhone_engineering_academ.Led.Device.{
  Minor, led, btn, Call, gpio_request, gpio_direction_input, gpio_direction_output, gpio_set_value,
  gpio_free, alloc_chrdev_region, unregister_chrdev_region, cdev_add, cdev_del, class_create,
  class_destroy, device_create, device_destroy, Answers, is_error, btn_gpio, blink, gpio_setup,
  gpio_cleanup, led_gpios, setup_leds, all_led_test,
}

pub data Resource : Type 0 where
  pin : ℕ → Resource
  region : Resource
  chardev : Minor → Resource
  class : Resource
  node : Minor → Resource

abbrev same : Minor → Minor → Bool
same led led = true
same btn btn = true
same _ _ = false

-- Whether a resource that is held, or not, is held after it is acquired or given back; `none` for
-- a second acquisition, and for a release or a use of what is not held.
abbrev acquire : Bool → ℤ → Option Bool
acquire held ret = if is_error ret then some held else if held then none else some true

abbrev give_back : Bool → Option Bool
give_back held = if held then some false else none

abbrev use_held : Bool → Option Bool
use_held held = if held then some true else none

abbrev pub step : Resource → Bool → Call → Option Bool
step (pin n) held (gpio_request g ret) = if g == n then acquire held ret else some held
step (pin n) held (gpio_free g) = if g == n then give_back held else some held
step (pin n) held (gpio_direction_input g) = if g == n then use_held held else some held
step (pin n) held (gpio_direction_output g v) = if g == n then use_held held else some held
step (pin n) held (gpio_set_value g v) = if g == n then use_held held else some held
step region held (alloc_chrdev_region ret) = acquire held ret
step region held unregister_chrdev_region = give_back held
step (chardev m) held (cdev_add m' ret) = if same m' m then acquire held ret else some held
step (chardev m) held (cdev_del m') = if same m' m then give_back held else some held
step class held (class_create ret) = acquire held ret
step class held class_destroy = give_back held
step (node m) held (device_create m' ret) = if same m' m then acquire held ret else some held
step (node m) held (device_destroy m') = if same m' m then give_back held else some held
step _ held _ = some held

abbrev pub has_nat : ℕ → List ℕ → Bool
has_nat n [] = false
has_nat n (g ∷ gs) = g == n || has_nat n gs

-- Whether the resource is held after the calls; `none` if it is misused on the way.
unfoldable pub follow : Resource → Bool → List Call → Option Bool
follow r held [] = some held
follow r held (c ∷ cs) = elim (step r held c) [ none ↦ none | some held' ↦ follow r held' cs ]

abbrev pub next : Resource → List Call → Option Bool → Option Bool
next r cs none = none
next r cs (some held) = follow r held cs

pub follow-append :
    (r : Resource) (held : Bool) (xs ys : List Call)
    → follow r held (xs ++ ys) ≡ next r ys (follow r held xs)
unfolding follow
follow-append r held [] ys = refl
follow-append r held (c ∷ cs) ys = elim (Option-cases (step r held c)) [
  | inl misused ↦ rw (misused, follow)
  | inr (held', fine) ↦ rw (fine, follow) (follow-append r held' cs ys)
]

-- The pins of the driver.
abbrev pub is_used_pin : ℕ → Bool
is_used_pin n = btn_gpio == n || (517 == n || (518 == n || (525 == n || 531 == n)))

follow-blink :
    (n : ℕ) (held : Bool) (gs : List ℕ)
    → (has_nat n gs ≡ true → held ≡ true)
    → follow (pin n) held (blink gs) ≡ some held
unfolding follow blink
follow-blink n held [] h = refl
follow-blink n held (g ∷ gs) h = ground (arith, h, follow-blink n held gs)

-- `gpio_cleanup` gives back the pins that are held.
pub cleanup_pin : (n : ℕ) → follow (pin n) (is_used_pin n) gpio_cleanup ≡ some false
unfolding follow gpio_cleanup
cleanup_pin n = ground arith

-- The resources other than pins.
abbrev pub is_pin : Resource → Bool
is_pin (pin n) = true
is_pin _ = false

pub cleanup_other :
    (r : Resource) (held : Bool) → is_pin r ≡ false → follow r held gpio_cleanup ≡ some held
unfolding follow gpio_cleanup
cleanup_other (pin n) held other = cc
cleanup_other _ held other = refl

-- The kernel grants each of these pins.
abbrev pub AreGranted : Answers → List ℕ → Type 0
AreGranted a [] = Unit
AreGranted a (g ∷ gs) = (is_error (a.request g) ≡ false) × AreGranted a gs

abbrev granted_calls : Answers → List ℕ → List Call
granted_calls a [] = all_led_test
granted_calls a (g ∷ gs) =
    gpio_request g (a.request g) ∷ gpio_direction_output g 0 ∷ granted_calls a gs

setup_leds-granted :
    (a : Answers) (gs : List ℕ)
    → is_error (setup_leds a gs).ret ≡ false
    → AreGranted a gs × ((setup_leds a gs).calls ≡ granted_calls a gs)
unfolding setup_leds
setup_leds-granted a [] fine = (tt, refl)
setup_leds-granted a (g ∷ gs) fine = elim (Bool-cases (is_error (a.request g))) [
  | inl bad ↦ let bad' : is_error (a.request g) ≡ false = rw bad at fine in cc
  | inr good ↦
      let (all, same) = setup_leds-granted a gs (rw good at fine) in
      rw (good, same) ((refl, all), refl)
]

-- `gpio_setup` succeeds exactly if the kernel grants the button's pin and those of the LEDs.
pub gpio_setup-granted :
    (a : Answers)
    → is_error (gpio_setup a).ret ≡ false
    → AreGranted a (btn_gpio ∷ led_gpios)
      × ((gpio_setup a).calls
          ≡ gpio_request btn_gpio (a.request btn_gpio)
            ∷ gpio_direction_input btn_gpio
            ∷ granted_calls a led_gpios)
unfolding gpio_setup
gpio_setup-granted a fine = elim (Bool-cases (is_error (a.request btn_gpio))) [
  | inl bad ↦ let bad' : is_error (a.request btn_gpio) ≡ false = rw bad at fine in cc
  | inr good ↦
      let (all, same) = setup_leds-granted a led_gpios (rw good at fine) in
      rw (good, same) ((refl, all), refl)
]

-- `gpio_setup` takes the pins, and uses none before it has it.
pub setup_pin :
    (a : Answers) (n : ℕ)
    → is_error (gpio_setup a).ret ≡ false
    → follow (pin n) false (gpio_setup a).calls ≡ some (is_used_pin n)
unfolding follow all_led_test
setup_pin a n fine = let (all, same) = gpio_setup-granted a fine in rw same (ground arith)

pub setup_other :
    (a : Answers) (r : Resource) (held : Bool)
    → is_error (gpio_setup a).ret ≡ false
    → is_pin r ≡ false
    → follow r held (gpio_setup a).calls ≡ some held
unfolding follow all_led_test
setup_other a (pin n) held fine other = cc
setup_other a region held fine other = let (_, same) = gpio_setup-granted a fine in rw same
setup_other a (chardev m) held fine other = let (_, same) = gpio_setup-granted a fine in rw same
setup_other a class held fine other = let (_, same) = gpio_setup-granted a fine in rw same
setup_other a (node m) held fine other = let (_, same) = gpio_setup-granted a fine in rw same

request-other :
    (g n : ℕ) (held : Bool) (ret : ℤ) (cs : List Call)
    → (g == n) ≡ false
    → follow (pin n) held (gpio_request g ret ∷ gpio_direction_output g 0 ∷ cs)
      ≡ follow (pin n) held cs
unfolding follow
request-other g n held ret cs miss = ground arith

pub request-own :
    (n : ℕ) (ret : ℤ) (cs : List Call)
    → is_error ret ≡ false
    → follow (pin n) false (gpio_request n ret ∷ gpio_direction_input n ∷ cs)
      ≡ follow (pin n) true cs
unfolding follow
request-own n ret cs granted = ground arith

-- A loop that stops at a refused pin leaves every pin outside it as it was.
pub setup_leds-refused :
    (a : Answers) (n : ℕ) (held : Bool) (gs : List ℕ)
    → is_error (setup_leds a gs).ret ≡ true
    → has_nat n gs ≡ false
    → follow (pin n) held (setup_leds a gs).calls ≡ some held
unfolding follow setup_leds
setup_leds-refused a n held [] bad out = cc
setup_leds-refused a n held (g ∷ gs) bad out = elim (Bool-cases (is_error (a.request g))) [
  | inl refused ↦ rw refused (ground arith)
  | inr granted ↦
      let rest = setup_leds-refused a n held gs (rw granted at bad) (ground arith) in
      let miss : (g == n) ≡ false = ground arith in
      rw granted (request-other g n held (a.request g) (setup_leds a gs).calls miss ∙ rest)
]
