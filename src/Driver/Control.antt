-- ===== src/Driver/Control.antt =====
-- cpu_driver/cpu_emulator_driver.c: the run, pause and step switches, their interrupt threads, the
-- condition on which a reader sleeps, and the delay of a clock tick.
pub mod Wake
use rpi_cpu_emulator_linux_d.Base.{
  ℕ, ◌+◌, ◌-◌, ◌*◌, ◌/◌, ◌^◌, ◌≡◌, arith, ℤ, pos, Bool, true, false,
}
use rpi_cpu_emulator_linux_d.Base.{not, ◌&&◌, ◌||◌, ltb, leb, if◌then◌else◌, u32}

-- `cpu_running`, `cpu_paused` and `step_count`; the counter is an `int`, as its 32-bit pattern.
pub record Control : Type 0 where
  pub running : ℤ
  pub paused : ℤ
  pub steps : ℕ

-- An `int` as a condition.
unfoldable pub is_set : ℤ → Bool
is_set (pos n) = ltb 0 n
is_set _ = true

-- `atomic_read(&step_count) > 0`, signed
unfoldable pub has_step : Control → Bool
has_step c = ltb 0 c.steps && ltb c.steps (2 ^ 31)

-- The condition of `wait_event_interruptible`.
unfoldable pub is_ready : Control → Bool
unfolding is_set has_step
is_ready c = is_set c.running && (not (is_set c.paused) || has_step c)

-- An interrupt thread returns the new state, and whether it calls `wake_up_interruptible`. Its
-- argument is the level that `gpiod_get_value_cansleep` reads.
unfoldable pub run_irq_thread : ℤ → Control → Control × Bool
unfolding is_set
run_irq_thread run_sw c = if is_set run_sw then (record c { running = pos 1 }, true) else (c, false)

unfoldable pub pause_irq_thread : ℤ → Control → Control × Bool
unfolding is_set
pause_irq_thread pause_sw c =
    if is_set pause_sw
    then (record c { paused = pos 1 }, false)
    else (record c { paused = pos 0 }, true)

-- The pin is read after the 50 ms of the debounce.
unfoldable pub step_irq_thread : ℤ → Control → Control × Bool
unfolding is_set
step_irq_thread input_dev c =
    if not (is_set c.paused)
    then (c, false)
    else if is_set input_dev
    then (record c { steps = u32 (c.steps + 1) }, true)
    else (c, false)

-- `atomic_dec(&step_count)`
unfoldable pub take_step : Control → Control
take_step c = record c { steps = u32 (c.steps + 2 ^ 32 - 1) }

-- What `pause` sleeps: a range of microseconds, or milliseconds.
pub data Delay : Type 0 where
  usleep_range : ℕ → ℕ → Delay
  msleep : ℕ → Delay

unfoldable pub pause : ℕ → Delay
pause clock_speed =
    let adjusted_clock = u32 (clock_speed * 1000) in
    let max = u32 (adjusted_clock + adjusted_clock / 50) in
    if ltb clock_speed 20 then usleep_range adjusted_clock max else msleep clock_speed

-- The events that change the switches while a reader sleeps.
pub data Event : Type 0 where
  run_event pause_event step_event : ℤ → Event

unfoldable pub handle_event : Event → Control → Control × Bool
unfolding run_irq_thread pause_irq_thread step_irq_thread
handle_event (Event.run_event v) c = run_irq_thread v c
handle_event (Event.pause_event v) c = pause_irq_thread v c
handle_event (Event.step_event v) c = step_irq_thread v c
