-- ===== src/Driver/Init/Loads.antt =====
-- cpu_driver/cpu_emulator_driver.c: what `gpio_init` holds when it returns.
use rpi_cpu_emulator_linux_d.Base.{
  ℕ, ◌+◌, ℤ, pos, negsuc, is_negative, true, false, ◌≡◌, ◌⊎◌, inl, inr, refl, ◌∙◌, List, [], ◌∷◌,
  Bool-cases,
}
use rpi_cpu_emulator_linux_d.Uapi.Status
use rpi_cpu_emulator_linux_d.Kernel.{
  Resource, run_line, pause_line, step_line, Held, nothing_held, Result, ok, err, is_zero, ◌>>◌,
  Action, acquire, raise, release_all, then_ok, then_err,
}
use rpi_cpu_emulator_linux_d.Driver.Init.{
  GpioEnv, get_descs, set_directions, request_line, gpio_init, all_pins, io_offset, run_switch,
  pause_switch, input_device,
}

abbrev pub lines_held : Held
lines_held = record nothing_held { run_line = true; pause_line = true; step_line = true }

abbrev pub all_held : Held
all_held = record lines_held { region = true; cdev = true; class = true; device = true }

-- A step that goes on with one state, or fails with another.
abbrev Steps : Result (Unit {0}) → Held → Held → Type 0
Steps r done undone = (r ≡ ok tt done) ⊎ ((st : ℤ) × (is_zero st ≡ false) × (r ≡ err st undone))

get_descs-Steps : (e : GpioEnv) (ps : List ℕ) (h : Held) → Steps (get_descs e ps h) h h
unfolding get_descs
get_descs-Steps e [] h = inl refl
get_descs-Steps e (p ∷ ps) h = elim (Bool-cases (e.has_desc (p + io_offset))) [
  | inl there ↦ rw (get_descs, there) (get_descs-Steps e ps h)
  | inr missing ↦ inr (Status.enodev, refl, rw (get_descs, missing) refl)
]

set_directions-Steps : (e : GpioEnv) (ps : List ℕ) (h : Held) → Steps (set_directions e ps h) h h
unfolding set_directions
set_directions-Steps e [] h = inl refl
set_directions-Steps e (p ∷ ps) h = elim (Bool-cases (is_zero (e.direction (p + io_offset)))) [
  | inl fine ↦ rw (set_directions, fine) (set_directions-Steps e ps h)
  | inr bad ↦ inr (e.direction (p + io_offset), bad, rw (set_directions, bad) refl)
]

is_zero-negative : (st : ℤ) → is_negative st ≡ true → is_zero st ≡ false
is_zero-negative (pos n) h = absurd (cc)
is_zero-negative (negsuc n) h = refl

request_line-Steps :
    (e : GpioEnv) (pin : ℕ) (line : Resource) (before : List Resource) (h done undone : Held)
    → acquire line h ≡ ok tt done
    → release_all before h ≡ ok tt undone
    → Steps (request_line e pin line before h) done undone
unfolding request_line
request_line-Steps e pin line before h done undone a r =
    elim (Bool-cases (is_negative (e.irq pin))) [
      | inl bad ↦ inr (
        e.irq pin,
        is_zero-negative (e.irq pin) bad,
        rw (request_line, bad) (then_ok (release_all before) (raise (e.irq pin)) h r),
      )
      | inr fine ↦ elim (Bool-cases (is_zero (e.request pin))) [
        | inl got ↦ inl (rw (request_line, fine, got) a)
        | inr refused ↦ inr (
          e.request pin,
          refused,
          rw (request_line, fine, refused)
              (then_ok (release_all before) (raise (e.request pin)) h r),
        )
      ]
    ]

-- One step, and then the rest.
Steps-then :
    (m k : Action (Unit {0})) (h mid done undone : Held)
    → Steps (m h) mid undone
    → Steps (k mid) done undone
    → Steps ((m >> k) h) done undone
Steps-then m k h mid done undone (inl e) s = rw (then_ok m k h e) s
Steps-then m k h mid done undone (inr (st, nz, e)) s = inr (st, nz, then_err m k h e)

-- What `gpio_init` asks for, and gets.
pub record GpioReady (e : GpioEnv) : Type 0 where
  pub descs : (p : ℕ) → e.has_desc p ≡ true
  pub directions : (p : ℕ) → is_zero (e.direction p) ≡ true
  pub irqs : (p : ℕ) → is_negative (e.irq p) ≡ false
  pub requests : (p : ℕ) → is_zero (e.request p) ≡ true

get_descs-ready : (e : GpioEnv) (ps : List ℕ) (h : Held) → GpioReady e → get_descs e ps h ≡ ok tt h
unfolding get_descs
get_descs-ready e [] h r = refl
get_descs-ready e (p ∷ ps) h r = rw (get_descs, r.descs (p + io_offset)) (get_descs-ready e ps h r)

set_directions-ready :
    (e : GpioEnv) (ps : List ℕ) (h : Held) → GpioReady e → set_directions e ps h ≡ ok tt h
unfolding set_directions
set_directions-ready e [] h r = refl
set_directions-ready e (p ∷ ps) h r =
    rw (set_directions, r.directions (p + io_offset)) (set_directions-ready e ps h r)

request_line-ready :
    (e : GpioEnv) (pin : ℕ) (line : Resource) (before : List Resource) (h done : Held)
    → acquire line h ≡ ok tt done
    → GpioReady e
    → request_line e pin line before h ≡ ok tt done
unfolding request_line
request_line-ready e pin line before h done a r = rw (request_line, r.irqs pin, r.requests pin) a

abbrev one_line : Held
one_line = record nothing_held { run_line = true }

abbrev two_lines : Held
two_lines = record one_line { pause_line = true }

-- `gpio_init` either succeeds and holds the three interrupt lines, or returns a nonzero status and
-- holds nothing. It succeeds if every pin has a descriptor and every call on it succeeds.
pub gpio_init_all_or_nothing :
    (e : GpioEnv)
    → ((gpio_init e nothing_held ≡ ok tt lines_held)
        ⊎ ((st : ℤ) × (is_zero st ≡ false) × (gpio_init e nothing_held ≡ err st nothing_held)))
      × (GpioReady e → gpio_init e nothing_held ≡ ok tt lines_held)
unfolding gpio_init
gpio_init_all_or_nothing e = (
  Steps-then (get_descs e all_pins) _ nothing_held nothing_held lines_held nothing_held
      (get_descs-Steps e all_pins nothing_held)
      (Steps-then (set_directions e all_pins) _ nothing_held nothing_held lines_held nothing_held
        (set_directions-Steps e all_pins nothing_held)
        (Steps-then (request_line e run_switch run_line []) _ nothing_held one_line lines_held
          nothing_held
          (request_line-Steps e run_switch run_line [] nothing_held one_line nothing_held refl refl)
          (Steps-then (request_line e pause_switch pause_line (run_line ∷ [])) _ one_line two_lines
            lines_held nothing_held
            (request_line-Steps e pause_switch pause_line (run_line ∷ []) one_line two_lines
              nothing_held refl refl)
            (request_line-Steps e input_device step_line (run_line ∷ pause_line ∷ []) two_lines
              lines_held nothing_held refl refl)))),
  λ r.
      then_ok (get_descs e all_pins) _ nothing_held (get_descs-ready e all_pins nothing_held r)
      ∙ then_ok (set_directions e all_pins) _ nothing_held
          (set_directions-ready e all_pins nothing_held r)
      ∙ then_ok (request_line e run_switch run_line []) _ nothing_held
          (request_line-ready e run_switch run_line [] nothing_held one_line refl r)
      ∙ then_ok (request_line e pause_switch pause_line (run_line ∷ [])) _ one_line
          (request_line-ready e pause_switch pause_line (run_line ∷ []) one_line two_lines refl r)
      ∙ request_line-ready e input_device step_line (run_line ∷ pause_line ∷ []) two_lines
          lines_held refl r,
)
