-- ===== src/Driver/Init.antt =====
-- cpu_driver/cpu_emulator_driver.c: loading and unloading the module.
pub mod Loads
pub mod Outcome
use rpi_cpu_emulator_linux_d.Base.{
  ℕ, ◌+◌, ℤ, pos, is_negative, Bool, true, false, not, List, [], ◌∷◌, if◌then◌else◌,
}
use rpi_cpu_emulator_linux_d.Uapi.Status
use rpi_cpu_emulator_linux_d.Kernel.{
  Resource, run_line, pause_line, step_line, region, cdev, class, device, Held, ChrdevEnv, Result,
  ok, err, oops,
}
use rpi_cpu_emulator_linux_d.Kernel.{
  Action, ◌>>=◌, ◌>>◌, pure, raise, fault, acquire, release, release_all, is_zero, Pointer, null,
  error_pointer, valid,
}
use rpi_cpu_emulator_linux_d.Driver.Cpu.{Leds}

abbrev pub io_offset : ℕ
io_offset = 512

abbrev pub led_gpio : List ℕ
led_gpio = 17 ∷ 27 ∷ 22 ∷ 26 ∷ []

abbrev pub run_switch : ℕ
run_switch = 23

abbrev pub pause_switch : ℕ
pause_switch = 24

abbrev pub input_device : ℕ
input_device = 25

abbrev pub output_device : ℕ
output_device = 16

-- What the GPIO and interrupt calls answer: whether a pin has a descriptor, the status of setting its
-- direction, the number of its interrupt, and the status of requesting it.
pub record GpioEnv : Type 0 where
  pub has_desc : ℕ → Bool
  pub direction : ℕ → ℤ
  pub irq : ℕ → ℤ
  pub request : ℕ → ℤ

-- `gpio_to_desc` of some pins, in order.
unfoldable pub get_descs : GpioEnv → List ℕ → Action (Unit {0})
get_descs e [] = pure tt
get_descs e (p ∷ ps) = if e.has_desc (p + io_offset) then get_descs e ps else raise Status.enodev

-- `gpiod_direction_output` or `gpiod_direction_input` of some pins, in order.
unfoldable pub set_directions : GpioEnv → List ℕ → Action (Unit {0})
set_directions e [] = pure tt
set_directions e (p ∷ ps) =
    if is_zero (e.direction (p + io_offset))
    then set_directions e ps
    else raise (e.direction (p + io_offset))

-- The interrupt of one pin; the lines requested so far are freed where it fails.
unfoldable pub request_line : GpioEnv → ℕ → Resource → List Resource → Action (Unit {0})
request_line e pin line before =
    if is_negative (e.irq pin)
    then (do release_all before; raise (e.irq pin))
    else if is_zero (e.request pin)
    then acquire line
    else (do release_all before; raise (e.request pin))

abbrev pub all_pins : List ℕ
all_pins = 17 ∷ 27 ∷ 22 ∷ 26 ∷ output_device ∷ run_switch ∷ pause_switch ∷ input_device ∷ []

unfoldable pub gpio_init : GpioEnv → Action (Unit {0})
unfolding get_descs set_directions request_line
gpio_init e = do
  get_descs e all_pins
  set_directions e all_pins
  request_line e run_switch run_line []
  request_line e pause_switch pause_line (run_line ∷ [])
  request_line e input_device step_line (run_line ∷ pause_line ∷ [])

-- The class pointer is tested for NULL only, and then written through.
unfoldable pub create_class : ChrdevEnv → Action (Unit {0})
create_class e = elim (e.class_create) [
  | null ↦ (do release_all (cdev ∷ region ∷ []); raise Status.enomem)
  | error_pointer status ↦ fault
  | valid ↦ acquire class
]

-- The device pointer is tested for NULL only: with an error pointer there is no device, and loading
-- goes on to return 0.
unfoldable pub add_device : ChrdevEnv → Action (Unit {0})
add_device e = elim (e.device_create) [
  | null ↦ (do release_all (class ∷ class ∷ cdev ∷ region ∷ []); raise Status.enomem)
  | error_pointer status ↦ pure tt
  | valid ↦ acquire device
]

unfoldable pub chrdev_init : ChrdevEnv → Action (Unit {0})
unfolding create_class add_device
chrdev_init e = do
  (if is_zero e.alloc_region then acquire region else raise e.alloc_region)
  (if is_zero e.cdev_add then acquire cdev else (do release region; raise e.cdev_add))
  create_class e
  add_device e

unfoldable pub cpu_init : GpioEnv → ChrdevEnv → Action (Unit {0})
unfolding gpio_init chrdev_init
cpu_init g c = do gpio_init g; chrdev_init c

-- The diodes and the output pin go out, and everything is given back.
unfoldable pub cpu_exit : Leds × ℕ → Held → (Leds × ℕ) × Result (Unit {0})
cpu_exit pins h = (
  (record { led0 = 0; led1 = 0; led2 = 0; led3 = 0 }, 0),
  release_all (run_line ∷ pause_line ∷ step_line ∷ device ∷ class ∷ class ∷ cdev ∷ region ∷ []) h,
)
