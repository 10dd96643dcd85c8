-- ===== src/Driver/Init/Outcome.antt =====
-- cpu_driver/cpu_emulator_driver.c: what is held after the module has loaded, failed to load, or
-- unloaded.
use mathlib.Core.Path.{subst}
use rpi_cpu_emulator_linux_d.Base.{
  sym, ◌∙◌, ℕ, ℤ, true, false, ◌≡◌, ◌⊎◌, inl, inr, refl, [], ◌∷◌, Bool-cases,
}
use rpi_cpu_emulator_linux_d.Uapi.Status
use rpi_cpu_emulator_linux_d.Kernel.{
  class, device, ChrdevEnv, Held, nothing_held, Result, ok, err, oops, is_zero, error_pointer, null,
  valid, Pointer-cases, then_ok, then_err,
}
use rpi_cpu_emulator_linux_d.Driver.Cpu.{Leds}
use rpi_cpu_emulator_linux_d.Driver.Init.{
  GpioEnv, gpio_init, create_class, add_device, chrdev_init, cpu_init, cpu_exit,
}
use rpi_cpu_emulator_linux_d.Driver.Init.Loads.{lines_held, all_held, gpio_init_all_or_nothing}

-- The lines are held, and the class was unregistered twice.
abbrev pub lines_held_class_over : Held
lines_held_class_over = record lines_held { over_released = class ∷ [] }

abbrev pub class_over : Held
class_over = record nothing_held { over_released = class ∷ [] }

-- Everything but the device is held.
abbrev pub held_without_device : Held
held_without_device = record lines_held { region = true; cdev = true; class = true }

-- A device was given back that was not there, and the class once too often.
abbrev pub device_class_over : Held
device_class_over = record nothing_held { over_released = device ∷ class ∷ [] }

abbrev with_region : Held
with_region = record lines_held { region = true }

abbrev with_cdev : Held
with_cdev = record with_region { cdev = true }

abbrev with_class : Held
with_class = record with_cdev { class = true }

-- The device number is reserved and the character device is added.
abbrev pub Added : ChrdevEnv → Type 0
Added c = (is_zero c.alloc_region ≡ true) × (is_zero c.cdev_add ≡ true)

-- How the character device comes to be, where the three lines are held.
pub data ChrdevOutcome (c : ChrdevEnv) : Result (Unit {0}) → Type 0 where
  no_region : is_zero c.alloc_region ≡ false → ChrdevOutcome c (err c.alloc_region lines_held)
  no_cdev :
      is_zero c.alloc_region ≡ true
      → is_zero c.cdev_add ≡ false
      → ChrdevOutcome c (err c.cdev_add lines_held)
  null_class : Added c → c.class_create ≡ null → ChrdevOutcome c (err Status.enomem lines_held)
  bad_class : (st : ℤ) → Added c → c.class_create ≡ error_pointer st → ChrdevOutcome c oops
  no_device :
      Added c
      → c.class_create ≡ valid
      → c.device_create ≡ null
      → ChrdevOutcome c (err Status.enomem lines_held_class_over)
  bad_device :
      (st : ℤ)
      → Added c
      → c.class_create ≡ valid
      → c.device_create ≡ error_pointer st
      → ChrdevOutcome c (ok tt held_without_device)
  created :
      Added c → c.class_create ≡ valid → c.device_create ≡ valid → ChrdevOutcome c (ok tt all_held)

chrdev_init-Outcome : (c : ChrdevEnv) → ChrdevOutcome c (chrdev_init c lines_held)
unfolding chrdev_init create_class add_device
chrdev_init-Outcome c = elim (Bool-cases (is_zero c.alloc_region)) [
  | inr bad ↦
      subst (ChrdevOutcome c) (sym (rw (chrdev_init, bad) refl)) (ChrdevOutcome.no_region bad)
  | inl reg ↦ elim (Bool-cases (is_zero c.cdev_add)) [
    | inr bad ↦
        subst (ChrdevOutcome c) (sym (rw (chrdev_init, reg, bad) refl))
          (ChrdevOutcome.no_cdev reg bad)
    | inl add ↦ elim (Pointer-cases c.class_create) [
      | inl e ↦
          subst (ChrdevOutcome c) (sym (rw (chrdev_init, reg, add, create_class, e) refl))
            (ChrdevOutcome.null_class (reg, add) e)
      | inr (inl (st, e)) ↦
          subst (ChrdevOutcome c) (sym (rw (chrdev_init, reg, add, create_class, e) refl))
            (ChrdevOutcome.bad_class st (reg, add) e)
      | inr (inr e) ↦
          let to_device : chrdev_init c lines_held ≡ add_device c with_class =
            rw (chrdev_init, reg, add, create_class, e) refl in
          elim (Pointer-cases c.device_create) [
            | inl d ↦
                subst (ChrdevOutcome c) (sym (to_device ∙ rw (add_device, d) refl))
                  (ChrdevOutcome.no_device (reg, add) e d)
            | inr (inl (st, d)) ↦
                subst (ChrdevOutcome c) (sym (to_device ∙ rw (add_device, d) refl))
                  (ChrdevOutcome.bad_device st (reg, add) e d)
            | inr (inr d) ↦
                subst (ChrdevOutcome c) (sym (to_device ∙ rw (add_device, d) refl))
                  (ChrdevOutcome.created (reg, add) e d)
          ]
    ]
  ]
]

-- How the module loads: the pins are not to be had, or the character device comes to be as above.
pub data LoadOutcome (g : GpioEnv) (c : ChrdevEnv) : Result (Unit {0}) → Type 0 where
  no_gpio :
      (st : ℤ)
      → is_zero st ≡ false
      → gpio_init g nothing_held ≡ err st nothing_held
      → LoadOutcome g c (err st nothing_held)
  with_gpio :
      (r : Result (Unit {0}))
      → gpio_init g nothing_held ≡ ok tt lines_held
      → ChrdevOutcome c r
      → LoadOutcome g c r

-- Loading ends in one of eight ways, each with its condition. Without the pins it returns a nonzero
-- status and holds nothing. With them it returns 0 and holds everything, where `device_create` returned
-- a device; or it returns 0 and holds everything but the device, where `device_create` returned an error
-- pointer; or it writes through the error pointer that `class_create` returned; or it returns the status
-- of the failed call, or -ENOMEM for a null pointer, while it still holds the three interrupt lines,
-- after unregistering the class twice where `device_create` returned null.
pub cpu_init_outcome : (g : GpioEnv) (c : ChrdevEnv) → LoadOutcome g c (cpu_init g c nothing_held)
unfolding cpu_init
cpu_init_outcome g c = elim ((gpio_init_all_or_nothing g).0) [
  | inl e ↦
      subst (LoadOutcome g c) (sym (then_ok (gpio_init g) (chrdev_init c) nothing_held e))
        (LoadOutcome.with_gpio (chrdev_init c lines_held) e (chrdev_init-Outcome c))
  | inr (st, nz, e) ↦
      subst (LoadOutcome g c) (sym (then_err (gpio_init g) (chrdev_init c) nothing_held e))
        (LoadOutcome.no_gpio st nz e)
]

-- What is held after loading, and what unloading then gives back without holding it.
abbrev pub HeldWith : ChrdevEnv → Held → Held → Type 0
HeldWith c h over =
    ((c.device_create ≡ valid) × (h ≡ all_held) × (over ≡ class_over))
    ⊎ ((st : ℤ) × (c.device_create ≡ error_pointer st)
        × (h ≡ held_without_device)
        × (over ≡ device_class_over))

ok_held :
    {r : Result (Unit {0})} {h : Held} (c : ChrdevEnv)
    → ChrdevOutcome c r
    → r ≡ ok tt h
    → (over : Held) × HeldWith c h over
ok_held c (ChrdevOutcome.no_region a) e = absurd (cc)
ok_held c (ChrdevOutcome.no_cdev a b) e = absurd (cc)
ok_held c (ChrdevOutcome.null_class w a) e = absurd (cc)
ok_held c (ChrdevOutcome.bad_class st w a) e = absurd (cc)
ok_held c (ChrdevOutcome.no_device w a b) e = absurd (cc)
ok_held c (ChrdevOutcome.bad_device st w a b) e = (device_class_over, inr (st, b, cc, refl))
ok_held c (ChrdevOutcome.created w a b) e = (class_over, inl (b, cc, refl))

load_held :
    {r : Result (Unit {0})} {h : Held} (g : GpioEnv) (c : ChrdevEnv)
    → LoadOutcome g c r
    → r ≡ ok tt h
    → (over : Held) × HeldWith c h over
load_held g c (LoadOutcome.no_gpio st nz e) q = absurd (cc)
load_held g c (LoadOutcome.with_gpio r e o) q = ok_held c o q

-- Where loading succeeds, either `device_create` returned a device and everything is held, or it
-- returned an error pointer and everything but the device is held. Unloading then puts out the diodes
-- and the output pin, holds nothing afterwards, and has unregistered the class once more than it was
-- registered; in the second case it has also destroyed a device that there was not.
pub cpu_init-exit :
    (g : GpioEnv) (c : ChrdevEnv) (h : Held) (pins : Leds × ℕ)
    → cpu_init g c nothing_held ≡ ok tt h
    → (over : Held) × HeldWith c h over
      × (cpu_exit pins h ≡ ((record { led0 = 0; led1 = 0; led2 = 0; led3 = 0 }, 0), ok tt over))
unfolding cpu_exit
cpu_init-exit g c h pins e =
    let (over, how) = load_held g c (cpu_init_outcome g c) e in
    (
      over,
      how,
      elim how [
        | inl (_, held, gone) ↦ (λ t. cpu_exit pins (held t)) ∙ (λ t. (dark, ok tt (sym gone t)))
        | inr (st, _, held, gone) ↦
            (λ t. cpu_exit pins (held t)) ∙ (λ t. (dark, ok tt (sym gone t)))
      ],
    )
  where
    dark : Leds × ℕ
    dark = (record { led0 = 0; led1 = 0; led2 = 0; led3 = 0 }, 0)
