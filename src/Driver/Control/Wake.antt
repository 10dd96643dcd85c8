-- ===== src/Driver/Control/Wake.antt =====
-- cpu_driver/cpu_emulator_driver.c: the interrupt threads against the reader that sleeps on `exec_wq`.
use rpi_cpu_emulator_linux_d.Base.{ℕ, ◌+◌, ◌^◌, ◌<◌, ◌≡◌, refl, arith, ◌∙◌, ℤ, true, false}
use rpi_cpu_emulator_linux_d.Base.{List, [], ◌∷◌, if◌then◌else◌}
use rpi_cpu_emulator_linux_d.Driver.Control.{Control, is_set, is_ready, Event, run_event}
use rpi_cpu_emulator_linux_d.Driver.Control.{pause_event, step_event, handle_event}

-- No wake-up is lost: an interrupt that makes the condition of the sleeping reader true wakes it.
pub handle_event_wakes :
    (e : Event) (c : Control)
    → is_ready c ≡ false
    → is_ready (handle_event e c).0 ≡ true
    → (handle_event e c).1 ≡ true
unfolding handle_event is_ready
handle_event_wakes (run_event v) c before after = ground arith
handle_event_wakes (pause_event v) c before after = ground arith
handle_event_wakes (step_event v) c before after = ground arith

-- The presses of the step button among events, while the switch stays paused.
unfoldable pub count_steps : List Event → ℕ
unfolding is_set
count_steps [] = 0
count_steps (step_event v ∷ es) = (if is_set v then 1 else 0) + count_steps es
count_steps (e ∷ es) = count_steps es

unfoldable pub handle_events : List Event → Control → Control
handle_events [] c = c
handle_events (e ∷ es) c = handle_events es (handle_event e c).0

-- No event is a change of the pause switch.
abbrev pub NoPause : List Event → Type 0
NoPause [] = Unit {0}
NoPause (pause_event v ∷ es) = ⊥
NoPause (e ∷ es) = NoPause es

-- One event, as far as pausing and stepping go.
run_event_keeps :
    (v : ℤ) (c : Control)
    → let d = (handle_event (run_event v) c).0 in (d.paused ≡ c.paused) × (d.steps ≡ c.steps)
unfolding handle_event
run_event_keeps v c = (ground arith, ground arith)

step_event_adds :
    (v : ℤ) (c : Control)
    → c.steps + 1 < 2 ^ 32
    → let d = (handle_event (step_event v) c).0 in
      (d.paused ≡ c.paused)
      × (d.steps ≡ c.steps + (if is_set c.paused then if is_set v then 1 else 0 else 0))
unfolding handle_event is_set
step_event_adds v c fits = (ground arith, ground arith)

-- While the processor is paused and the pause switch does not move, each press of the step button
-- adds one to the steps that a reader may take, and no other event does, as long as the counter
-- stays a positive `int`. While it is not paused, a press adds none.
pub handle_events_steps :
    (es : List Event) (c : Control)
    → NoPause es
    → c.steps + count_steps es < 2 ^ 31
    → let d = handle_events es c in
      (d.paused ≡ c.paused) × (d.steps ≡ c.steps + (if is_set c.paused then count_steps es else 0))
unfolding handle_events count_steps
handle_events_steps [] c np fits = ground arith
handle_events_steps (run_event v ∷ es) c np fits =
    let d : Control = (handle_event (run_event v) c).0 in
    let k = run_event_keeps v c in
    let ih = handle_events_steps es d np (omega (arith, k.1)) in
    (ih.0 ∙ k.0, rw (ih.1, k.0, k.1) refl)
handle_events_steps (pause_event v ∷ es) c np fits = absurd np
handle_events_steps (step_event v ∷ es) c np fits =
    let d : Control = (handle_event (step_event v) c).0 in
    let k = step_event_adds v c (omega arith) in
    let ih = handle_events_steps es d np (ground (arith, k.1)) in
    (ih.0 ∙ k.0, rw (ih.1, k.0) (ground (arith, k.1)))
