-- ===== src/Tests/Loading.antt =====
-- Loading and unloading the two kernel modules with concrete answers of the kernel.
use rpi_cpu_emulator_linux_d.Base.{◌≡◌, refl, pos, negsuc, true, some, List, [], ◌∷◌}
use rpi_cpu_emulator_linux_d.Kernel.{Held, nothing_held, ChrdevEnv, valid, error_pointer, ok}
use rpi_cpu_emulator_linux_d.Driver.Init.{
  GpioEnv, get_descs, set_directions, request_line, gpio_init, create_class, add_device,
  chrdev_init, cpu_init, cpu_exit,
}
use rpi_cpu_emulator_linux_d.Driver.Init.Outcome.{
  LoadOutcome, cpu_init_outcome, cpu_init-exit, held_without_device, HeldWith,
}
use rpi_cpu_emulator_linux_d.Trace.Buffer.{trace_buffer_init}
use rpi_cpu_emulator_linux_d.Trace.Init
use rpi_cpu_emulator_linux_d.Trace.History.{Call, write, read, History, run_calls, start}
use rpi_cpu_emulator_linux_d.Tests.Traces.{fetch_access, store_access}

abbrev working_pins : GpioEnv
working_pins = record {
  has_desc = λ p. true;
  direction = λ p. pos 0;
  irq = λ p. pos p;
  request = λ p. pos 0;
}

abbrev working : ChrdevEnv
working = record {
  alloc_region = pos 0;
  cdev_add = pos 0;
  class_create = valid;
  device_create = valid;
}

-- `device_create` fails with -ENOMEM.
abbrev bad_device : ChrdevEnv
bad_device = record {
  alloc_region = pos 0;
  cdev_add = pos 0;
  class_create = valid;
  device_create = error_pointer (negsuc 11);
}

cpu_init_outcome_example :
    LoadOutcome working_pins bad_device (cpu_init working_pins bad_device nothing_held)
cpu_init_outcome_example = cpu_init_outcome working_pins bad_device

loaded : cpu_init working_pins bad_device nothing_held ≡ ok tt held_without_device
unfolding get_descs set_directions request_line gpio_init create_class add_device chrdev_init
    cpu_init
loaded = refl

cpu_init-exit_example :
    (over : Held) × HeldWith bad_device held_without_device over
    × (cpu_exit (record { led0 = 1; led1 = 0; led2 = 1; led3 = 0 }, 1) held_without_device
        ≡ ((record { led0 = 0; led1 = 0; led2 = 0; led3 = 0 }, 0), ok tt over))
cpu_init-exit_example =
    cpu_init-exit working_pins bad_device held_without_device
      (record { led0 = 1; led1 = 0; led2 = 1; led3 = 0 }, 1) loaded

abbrev some_calls : List Call
some_calls = write 16 true fetch_access (some (λ i. store_access)) ∷ read 16 (λ k. true) ∷ []

trace_loaded : (Init.trace_init working nothing_held).1 ≡ ok tt Init.all_held
unfolding Init.trace_init Init.trace_chrdev Init.create_class Init.add_device
trace_loaded = refl

trace_init-exit_example :
    (t : History) × (over : Held) × (run_calls some_calls
        (record start { buffer = (Init.trace_init working nothing_held).0 })
      ≡ some t)
    × Init.HeldWith working Init.all_held over
    × (Init.trace_exit t.buffer Init.all_held ≡ (trace_buffer_init, ok tt over))
trace_init-exit_example = Init.trace_init-exit working Init.all_held some_calls trace_loaded

trace_init_outcome_example :
    ((Init.trace_init bad_device nothing_held).0 ≡ trace_buffer_init)
    × Init.LoadOutcome bad_device ((Init.trace_init bad_device nothing_held).1)
trace_init_outcome_example = Init.trace_init_outcome bad_device
