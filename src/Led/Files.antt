-- ===== src/Led/Files.antt =====
-- The file operations of section-08/lab/led_device/led_device.c. `simple_read_from_buffer` and the
-- levels that `gpio_get_value` reads are arguments.
pub mod Levels
use zhone_engineering_academ.Common.{
  ℕ, zero, suc, ◌≡◌, Bool, true, false, Option, none, some, List, [], ◌∷◌, ◌++◌, ℤ, pos, negsuc,
  ◌==◌, if◌then◌else◌, map,
}
use zhone_engineering_academ.Led.Device.{Call, gpio_set_value, Ran, led_gpios, btn_gpio}

-- What a read leaves: the return value, the bytes stored for the user, the new offset.
pub record Copied : Type 0 where
  pub ret : ℤ
  pub bytes : List ℕ
  pub off : ℕ

-- `simple_read_from_buffer(buf, len, off, from, available)`
abbrev pub CopyOut : Type 0
CopyOut = (len off : ℕ) → List ℕ → Copied

-- `gpio_get_value(gpio) ? '1' : '0'`
abbrev pub digit : ℕ → ℕ
digit level = if level == 0 then b'0' else b'1'

-- The buffer that `led_read` fills, `char s[NUM_LEDS + 2]`.
abbrev pub led_status : (level : ℕ → ℕ) → List ℕ
led_status level = map (λ gpio. digit (level gpio)) led_gpios ++ b'\n' ∷ 0 ∷ []

unfoldable pub led_read : CopyOut → (level : ℕ → ℕ) → (len off : ℕ) → Copied
led_read copy level len off = copy len off (led_status level)

unfoldable pub btn_read : CopyOut → (level : ℕ → ℕ) → (len off : ℕ) → Copied
btn_read copy level len off =
    if len == 0
    then record { ret = pos 0; bytes = []; off = off }
    else copy len 0 (digit (level btn_gpio) ∷ b'\n' ∷ 0 ∷ [])

-- How the loop of `led_write` ends, and its calls.
pub record Loop : Type 0 where
  pub finished : Bool
  pub calls : List Call

unfoldable pub write_leds : List ℕ → (i : ℕ) → (kbuf : ℕ → ℕ) → Loop
write_leds [] i kbuf = record { finished = true; calls = [] }
write_leds (gpio ∷ gpios) i kbuf =
    let rest = write_leds gpios (suc i) kbuf in
    if kbuf i == b'1'
    then record { finished = rest.finished; calls = gpio_set_value gpio 1 ∷ rest.calls }
    else if kbuf i == b'0'
    then record { finished = rest.finished; calls = gpio_set_value gpio 0 ∷ rest.calls }
    else record { finished = false; calls = [] }

abbrev pub efault : ℤ
efault = negsuc 13

abbrev pub einval : ℤ
einval = negsuc 21

-- `user` is the memory behind `buf`, or `none` where `copy_from_user` fails; `NUM_LEDS` bytes are
-- copied whatever `len` is.
unfoldable pub led_write : (user : Option (ℕ → ℕ)) → (len : ℕ) → Ran
unfolding write_leds
led_write none len = record { ret = efault; calls = [] }
led_write (some kbuf) len =
    let loop = write_leds led_gpios 0 kbuf in
    record { ret = if loop.finished then pos len else einval; calls = loop.calls }
