-- ===== src/Led/Device.antt =====
-- section-08/lab/led_device/led_device.c: the kernel module. The kernel's answers are arguments, and
-- a function returns the calls that it makes, in order.
pub mod Resources
pub mod Lifetime
use zhone_engineering_academ.Common.{
  ℕ, zero, suc, ◌+◌, ◌≡◌, Bool, true, false, Option, none, some, List, [], ◌∷◌, ◌++◌, ℤ, pos,
  negsuc, ◌==◌, if◌then◌else◌, map,
}

abbrev pub gpio_base : ℕ
gpio_base = 512

abbrev pub num_leds : ℕ
num_leds = 4

-- `led_gpio(0)` to `led_gpio(NUM_LEDS - 1)`, over `led_pins`.
abbrev pub led_gpios : List ℕ
led_gpios = map (λ pin. gpio_base + pin) (5 ∷ 6 ∷ 13 ∷ 19 ∷ [])

abbrev pub btn_gpio : ℕ
btn_gpio = gpio_base + 26

-- The minor numbers, and with them the two character devices.
pub data Minor : Type 0 where
  led btn : Minor

-- A call into the kernel; a call that may fail carries what it returned.
pub data Call : Type 0 where
  gpio_request : ℕ → ℤ → Call
  gpio_direction_input : ℕ → Call
  gpio_direction_output : ℕ → ℕ → Call
  gpio_set_value : ℕ → ℕ → Call
  gpio_free : ℕ → Call
  msleep : ℕ → Call
  alloc_chrdev_region : ℤ → Call
  unregister_chrdev_region : Call
  cdev_add : Minor → ℤ → Call
  cdev_del : Minor → Call
  class_create : ℤ → Call
  class_destroy : Call
  device_create : Minor → ℤ → Call
  device_destroy : Minor → Call

-- What the kernel returns: 0, or an error number; for `class_create` and `device_create` that is
-- `PTR_ERR` of the pointer, and 0 if it is not `IS_ERR`.
pub record Answers : Type 0 where
  pub request : ℕ → ℤ
  pub region : ℤ
  pub cdev : Minor → ℤ
  pub class : ℤ
  pub device : Minor → ℤ

-- `if (ret)`
abbrev pub is_error : ℤ → Bool
is_error (pos zero) = false
is_error (pos (suc n)) = true
is_error (negsuc n) = true

-- What a function returns, and its calls.
pub record Ran : Type 0 where
  pub ret : ℤ
  pub calls : List Call

-- The loop over the LEDs.
unfoldable pub blink : List ℕ → List Call
blink [] = []
blink (gpio ∷ gpios) =
    gpio_set_value gpio 1 ∷ msleep 50 ∷ gpio_set_value gpio 0 ∷ msleep 50 ∷ blink gpios

unfoldable pub all_led_test : List Call
unfolding blink
all_led_test = blink led_gpios

-- The loop of `gpio_setup`, and what follows it.
unfoldable pub setup_leds : Answers → List ℕ → Ran
setup_leds a [] = record { ret = pos 0; calls = all_led_test }
setup_leds a (gpio ∷ gpios) =
    let rest = setup_leds a gpios in
    let ret = a.request gpio in
    if is_error ret then record { ret = ret; calls = gpio_request gpio ret ∷ [] } else record {
      ret = rest.ret;
      calls = gpio_request gpio ret ∷ gpio_direction_output gpio 0 ∷ rest.calls;
    }

unfoldable pub gpio_setup : Answers → Ran
unfolding setup_leds
gpio_setup a =
    let rest = setup_leds a led_gpios in
    let ret = a.request btn_gpio in
    if is_error ret then record { ret = ret; calls = gpio_request btn_gpio ret ∷ [] } else record {
      ret = rest.ret;
      calls = gpio_request btn_gpio ret ∷ gpio_direction_input btn_gpio ∷ rest.calls;
    }

unfoldable pub free_leds : List ℕ → List Call
free_leds [] = []
free_leds (gpio ∷ gpios) = gpio_set_value gpio 0 ∷ gpio_free gpio ∷ free_leds gpios

unfoldable pub gpio_cleanup : List Call
unfolding all_led_test free_leds
gpio_cleanup = all_led_test ++ (gpio_free btn_gpio ∷ free_leds led_gpios)

-- The labels of `my_init`; each falls through to the next.
unfoldable pub err_led : List Call
err_led = gpio_cleanup

unfoldable pub err_region : List Call
unfolding err_led
err_region = unregister_chrdev_region ∷ err_led

unfoldable pub err_led_cdev : List Call
unfolding err_region
err_led_cdev = cdev_del led ∷ err_region

unfoldable pub err_btn_cdev : List Call
unfolding err_led_cdev
err_btn_cdev = cdev_del btn ∷ err_led_cdev

unfoldable pub err_class : List Call
unfolding err_btn_cdev
err_class = class_destroy ∷ err_btn_cdev

unfoldable pub err_led_dev : List Call
unfolding err_class
err_led_dev = device_destroy led ∷ err_class

-- `ret = call; if (ret) goto label;`, and otherwise the rest.
abbrev pub or_goto : ℤ → Call → List Call → Ran → Ran
or_goto ret call label rest =
    if is_error ret
    then record { ret = ret; calls = call ∷ label }
    else record { ret = rest.ret; calls = call ∷ rest.calls }

-- `my_init` after `gpio_setup`.
unfoldable pub register : Answers → Ran
unfolding err_led_dev
register a = or_goto a.region (alloc_chrdev_region a.region) err_led (
    or_goto (a.cdev led) (cdev_add led (a.cdev led)) err_region (
      or_goto (a.cdev btn) (cdev_add btn (a.cdev btn)) err_led_cdev (
        or_goto a.class (class_create a.class) err_btn_cdev (
          or_goto (a.device led) (device_create led (a.device led)) err_class (
            or_goto (a.device btn) (device_create btn (a.device btn)) err_led_dev
              (record { ret = pos 0; calls = [] }))))))

unfoldable pub my_init : Answers → Ran
unfolding gpio_setup register
my_init a =
    let setup = gpio_setup a in
    if is_error setup.ret
    then setup
    else record { ret = (register a).ret; calls = setup.calls ++ (register a).calls }

unfoldable pub my_exit : List Call
unfolding gpio_cleanup
my_exit =
    device_destroy led
    ∷ device_destroy btn
    ∷ class_destroy
    ∷ cdev_del led
    ∷ cdev_del btn
    ∷ unregister_chrdev_region
    ∷ gpio_cleanup
