-- ===== src/Led/Device/Lifetime.antt =====
-- Loading and unloading the module of led_device.c: what it owns afterwards.
use zhone_engineering_academ.Common.{◌≡◌, refl, ◌∙◌, Bool, true, false, some}
use zhone_engineering_academ.Led.Device.{
  Answers, is_error, led_gpios, btn_gpio, setup_leds, gpio_setup, my_init,
}
use zhone_engineering_academ.Led.Device.Resources.{
  Resource, pin, follow, is_used_pin, setup_leds-refused, request-own,
}

-- What a loaded module owns: its five pins, and everything else that it registers.
abbrev pub is_needed : Resource → Bool
is_needed (pin n) = is_used_pin n
is_needed _ = true

-- What `gpio_setup` has taken when `my_init` goes on.
abbrev at_start : Resource → Bool
at_start (pin n) = is_used_pin n
at_start _ = false

-- If the button's pin is granted and the setup of the LEDs fails, `my_init` fails and the
-- button's pin stays taken.
pub my_init-leak :
    (a : Answers)
    → is_error (a.request btn_gpio) ≡ false
    → is_error (gpio_setup a).ret ≡ true
    → (is_error (my_init a).ret ≡ true)
      × (follow (pin btn_gpio) false (my_init a).calls ≡ some true)
unfolding my_init gpio_setup
my_init-leak a granted bad =
    let bad' : is_error (setup_leds a led_gpios).ret ≡ true = rw granted at bad in
    rw (granted, bad')
      (
        bad',
        request-own btn_gpio (a.request btn_gpio) (setup_leds a led_gpios).calls granted
            ∙ setup_leds-refused a btn_gpio true led_gpios bad' refl,
      )
