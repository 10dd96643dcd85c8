-- ===== src/Trace/Init.antt =====
-- trace_collector_driver/trace_collector_driver.c: loading and unloading the module.
use rpi_cpu_emulator_linux_d.Base.{
  ℤ, is_negative, List, [], ◌∷◌, ◌≡◌, inl, inr, refl, sym, ◌∙◌, ◌⊎◌, if◌then◌else◌, true, false,
  some, Bool-cases,
}
use mathlib.Core.Path.{subst}
use rpi_cpu_emulator_linux_d.Uapi.Status
use rpi_cpu_emulator_linux_d.Kernel.{
  region, cdev, class, device, Held, nothing_held, ChrdevEnv, null, error_pointer, valid,
  Pointer-cases,
}
use rpi_cpu_emulator_linux_d.Kernel.{
  Result, ok, err, oops, Action, ◌>>◌, pure, raise, fault, acquire, release, release_all,
}
use rpi_cpu_emulator_linux_d.Trace.Buffer.{TraceBuffer, trace_buffer_init, trace_buffer_free}
use rpi_cpu_emulator_linux_d.Trace.History.{Call, History, run_calls, start, run_calls_fifo}

-- The class pointer is tested with `IS_ERR`, and then written through.
unfoldable pub create_class : ChrdevEnv → Action (Unit {0})
create_class e = elim (e.class_create) [
  | error_pointer status ↦ (do release_all (cdev ∷ region ∷ []); raise status)
  | null ↦ fault
  | valid ↦ acquire class
]

-- The device pointer is tested for NULL only: with an error pointer there is no device, and loading
-- goes on to return 0.
unfoldable pub add_device : ChrdevEnv → Action (Unit {0})
add_device e = elim (e.device_create) [
  | null ↦ (do release_all (class ∷ class ∷ cdev ∷ region ∷ []); raise Status.enomem)
  | error_pointer status ↦ pure tt
  | valid ↦ acquire device
]

unfoldable pub trace_chrdev : ChrdevEnv → Action (Unit {0})
unfolding create_class add_device
trace_chrdev e = do
  (if is_negative e.alloc_region then raise e.alloc_region else acquire region)
  (if is_negative e.cdev_add then (do release region; raise e.cdev_add) else acquire cdev)
  create_class e
  add_device e

unfoldable pub trace_init : ChrdevEnv → Held → TraceBuffer × Result (Unit {0})
unfolding trace_chrdev trace_buffer_init
trace_init e h = (trace_buffer_init, trace_chrdev e h)

unfoldable pub trace_exit : TraceBuffer → Held → TraceBuffer × Result (Unit {0})
unfolding trace_buffer_free
trace_exit tb h =
    (trace_buffer_free tb, release_all (device ∷ class ∷ class ∷ cdev ∷ region ∷ []) h)

abbrev pub all_held : Held
all_held = record nothing_held { region = true; cdev = true; class = true; device = true }

abbrev pub class_over : Held
class_over = record nothing_held { over_released = class ∷ [] }

-- Everything but the device is held.
abbrev pub held_without_device : Held
held_without_device = record nothing_held { region = true; cdev = true; class = true }

-- A device was given back that was not there, and the class once too often.
abbrev pub device_class_over : Held
device_class_over = record nothing_held { over_released = device ∷ class ∷ [] }

-- The device number is reserved and the character device is added.
abbrev pub Added : ChrdevEnv → Type 0
Added e = (is_negative e.alloc_region ≡ false) × (is_negative e.cdev_add ≡ false)

-- How the module loads, where it held nothing.
pub data LoadOutcome (e : ChrdevEnv) : Result (Unit {0}) → Type 0 where
  no_region : is_negative e.alloc_region ≡ true → LoadOutcome e (err e.alloc_region nothing_held)
  no_cdev :
      is_negative e.alloc_region ≡ false
      → is_negative e.cdev_add ≡ true
      → LoadOutcome e (err e.cdev_add nothing_held)
  no_class :
      (st : ℤ) → Added e → e.class_create ≡ error_pointer st → LoadOutcome e (err st nothing_held)
  null_class : Added e → e.class_create ≡ null → LoadOutcome e oops
  no_device :
      Added e
      → e.class_create ≡ valid
      → e.device_create ≡ null
      → LoadOutcome e (err Status.enomem class_over)
  bad_device :
      (st : ℤ)
      → Added e
      → e.class_create ≡ valid
      → e.device_create ≡ error_pointer st
      → LoadOutcome e (ok tt held_without_device)
  loaded :
      Added e → e.class_create ≡ valid → e.device_create ≡ valid → LoadOutcome e (ok tt all_held)

-- Loading starts with an empty buffer and ends in one of seven ways, each with its condition. Where
-- `device_create` returns a device, it returns 0 and holds everything; where `device_create` returns an
-- error pointer, it returns 0, too, and holds everything but the device. Or it returns the status of the
-- call that failed, or -ENOMEM where `device_create` returns null, and holds nothing, having
-- unregistered the class twice in the last case. Or it writes through a null class.
pub trace_init_outcome :
    (e : ChrdevEnv)
    → ((trace_init e nothing_held).0 ≡ trace_buffer_init)
      × LoadOutcome e ((trace_init e nothing_held).1)
unfolding trace_init trace_chrdev create_class add_device
trace_init_outcome e = (
  refl,
  elim (Bool-cases (is_negative e.alloc_region)) [
    | inl bad ↦
        subst (LoadOutcome e) (sym (rw (trace_chrdev, bad) refl)) (LoadOutcome.no_region bad)
    | inr reg ↦ elim (Bool-cases (is_negative e.cdev_add)) [
      | inl bad ↦
          subst (LoadOutcome e) (sym (rw (trace_chrdev, reg, bad) refl))
            (LoadOutcome.no_cdev reg bad)
      | inr add ↦ elim (Pointer-cases e.class_create) [
        | inl c ↦
            subst (LoadOutcome e) (sym (rw (trace_chrdev, reg, add, create_class, c) refl))
              (LoadOutcome.null_class (reg, add) c)
        | inr (inl (st, c)) ↦
            subst (LoadOutcome e) (sym (rw (trace_chrdev, reg, add, create_class, c) refl))
              (LoadOutcome.no_class st (reg, add) c)
        | inr (inr c) ↦
            let to_device : trace_chrdev e nothing_held ≡ add_device e held_without_device =
              rw (trace_chrdev, reg, add, create_class, c) refl in
            elim (Pointer-cases e.device_create) [
              | inl d ↦
                  subst (LoadOutcome e) (sym (to_device ∙ rw (add_device, d) refl))
                    (LoadOutcome.no_device (reg, add) c d)
              | inr (inl (st, d)) ↦
                  subst (LoadOutcome e) (sym (to_device ∙ rw (add_device, d) refl))
                    (LoadOutcome.bad_device st (reg, add) c d)
              | inr (inr d) ↦
                  subst (LoadOutcome e) (sym (to_device ∙ rw (add_device, d) refl))
                    (LoadOutcome.loaded (reg, add) c d)
            ]
      ]
    ]
  ],
)

-- What is held after loading, and what unloading then gives back without holding it.
abbrev pub HeldWith : ChrdevEnv → Held → Held → Type 0
HeldWith e h over =
    ((e.device_create ≡ valid) × (h ≡ all_held) × (over ≡ class_over))
    ⊎ ((st : ℤ) × (e.device_create ≡ error_pointer st)
        × (h ≡ held_without_device)
        × (over ≡ device_class_over))

loaded_held :
    {e : ChrdevEnv} {r : Result (Unit {0})} {h : Held}
    → LoadOutcome e r
    → r ≡ ok tt h
    → (over : Held) × HeldWith e h over
loaded_held (LoadOutcome.no_region a) q = absurd (cc)
loaded_held (LoadOutcome.no_cdev a b) q = absurd (cc)
loaded_held (LoadOutcome.no_class st w a) q = absurd (cc)
loaded_held (LoadOutcome.null_class w a) q = absurd (cc)
loaded_held (LoadOutcome.no_device w a b) q = absurd (cc)
loaded_held (LoadOutcome.bad_device st w a b) q = (device_class_over, inr (st, b, cc, refl))
loaded_held (LoadOutcome.loaded w a b) q = (class_over, inl (b, cc, refl))

-- Where loading succeeds, either `device_create` returned a device and everything is held, or it
-- returned an error pointer and everything but the device is held. Then any sequence of writes and
-- reads runs on the buffer without a bad pointer, and unloading after it leaves an empty buffer, holds
-- nothing, and has unregistered the class once more than it was registered; in the second case it has
-- also destroyed a device that there was not.
pub trace_init-exit :
    (e : ChrdevEnv) (h : Held) (cs : List Call)
    → (trace_init e nothing_held).1 ≡ ok tt h
    → (t : History) × (over : Held) × (run_calls cs
          (record start { buffer = (trace_init e nothing_held).0 })
        ≡ some t)
      × HeldWith e h over
      × (trace_exit t.buffer h ≡ (trace_buffer_init, ok tt over))
unfolding trace_exit trace_buffer_init trace_buffer_free trace_init
trace_init-exit e h cs q =
    let (t, ran, fifo) = run_calls_fifo cs in
    let (over, how) = loaded_held ((trace_init_outcome e).1) q in
    (
      t,
      over,
      ran,
      how,
      elim how [
        | inl (_, held, gone) ↦
            (λ i. trace_exit t.buffer (held i)) ∙ (λ i. (trace_buffer_init, ok tt (sym gone i)))
        | inr (st, _, held, gone) ↦
            (λ i. trace_exit t.buffer (held i)) ∙ (λ i. (trace_buffer_init, ok tt (sym gone i)))
      ],
    )
