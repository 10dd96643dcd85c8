-- ===== src/Trace/History.antt =====
-- trace_collector_driver/trace_collector_driver.c: any sequence of writes and reads of the device.
use rpi_cpu_emulator_linux_d.Base.{ℕ, ◌≤◌, ◌≡◌, ◌⊎◌, inl, inr, refl, sym, ap, ap₂, ◌∙◌, arith}
use rpi_cpu_emulator_linux_d.Base.{
  ℤ, pos, Bool, true, false, ltb, if◌then◌else◌, Option, none, some, Bool-cases, List, [], ◌∷◌,
  ◌++◌,
}
use rpi_cpu_emulator_linux_d.Base.{
  length, take, drop, take-add, take_append_of_le, length-take, take-append-drop,
}
use mathlib.Core.List.{append-nil}
use mathlib.Core.Path.{subst}
use mathlib.Core.Option.{some-injective}
use rpi_cpu_emulator_linux_d.Uapi.{MemAccess}
use rpi_cpu_emulator_linux_d.Uapi.Status
use rpi_cpu_emulator_linux_d.Trace.Buffer.{TraceBuffer, trace_buffer_init}
use rpi_cpu_emulator_linux_d.Trace.Device.{trace_write, trace_read, sizeof_mem_access}
use rpi_cpu_emulator_linux_d.Trace.Log.{contents, position, IsValid}
use rpi_cpu_emulator_linux_d.Trace.Push.{Appends, push-Appends}
use rpi_cpu_emulator_linux_d.Trace.Read.{trace_read-Takes, position-le}

-- A system call with what the kernel answers in it.
pub data Call : Type 0 where
  write : ℕ → Bool → MemAccess → Option (ℕ → MemAccess) → Call
  read : ℕ → (ℕ → Bool) → Call

-- The entries whose write returned a success, those that reads have returned, and the buffer.
pub record History : Type 0 where
  pub written : List MemAccess
  pub returned : List MemAccess
  pub buffer : TraceBuffer

abbrev pub is_success : ℤ → Bool
is_success (pos n) = true
is_success _ = false

-- One call; `none` is an access through a bad pointer.
unfoldable pub run_call : Call → History → Option History
run_call (write len copied e kmalloc) h = elim (trace_write len copied e kmalloc h.buffer) [
  | none ↦ none
  | some (status, tb) ↦ some (record {
    written = if is_success status then h.written ++ e ∷ [] else h.written;
    returned = h.returned;
    buffer = tb;
  })
]
run_call (read len copies) h = elim (trace_read len copies h.buffer) [
  | none ↦ none
  | some r ↦ some (record h { returned = h.returned ++ r.out; buffer = r.buffer })
]

unfoldable pub run_calls : List Call → History → Option History
run_calls [] h = some h
run_calls (c ∷ cs) h = elim (run_call c h) [ none ↦ none | some h' ↦ run_calls cs h' ]

abbrev pub start : History
start = record { written = []; returned = []; buffer = trace_buffer_init }

pub record IsFaithful (h : History) : Type 0 where
  pub valid : IsValid h.buffer
  pub all_kept : contents h.buffer.chunks ≡ h.written
  pub in_order : h.returned ≡ take (position h.buffer) h.written

-- A write either appends its entry and reports success, or fails and changes nothing.
trace_write-Appends :
    (len : ℕ) (copied : Bool) (e : MemAccess) (kmalloc : Option (ℕ → MemAccess)) (tb : TraceBuffer)
    → IsValid tb
    → (r : ℤ × TraceBuffer) × (trace_write len copied e kmalloc tb ≡ some r)
      × ((r.0 ≡ pos sizeof_mem_access) × Appends e tb r.1 ⊎ (is_success r.0 ≡ false) × (r.1 ≡ tb))
unfolding trace_write
trace_write-Appends len copied e kmalloc tb v = elim (Bool-cases (ltb len sizeof_mem_access)) [
  | inl short ↦ ((Status.einval, tb), ground (arith, short), inr (refl, refl))
  | inr enough ↦ elim (Bool-cases copied) [
    | inr bad ↦ ((Status.efault, tb), ground (arith, enough, bad), inr (refl, refl))
    | inl good ↦
        let (r, pushed, how) = push-Appends kmalloc e tb v in
        elim how [
          | inl (zero_status, a) ↦ (
            (pos sizeof_mem_access, r.1),
            ground (arith, enough, good, pushed, zero_status),
            inl (refl, a),
          )
          | inr (failed, k, full) ↦
              ((Status.enomem, tb), ground (arith, enough, good, pushed, failed), inr (refl, refl))
        ]
  ]
]

pub run_call-IsFaithful :
    (c : Call) (h : History)
    → IsFaithful h
    → (h' : History) × (run_call c h ≡ some h') × IsFaithful h'
unfolding run_call
run_call-IsFaithful (write len copied e kmalloc) h f =
    let (r, wrote, how) = trace_write-Appends len copied e kmalloc h.buffer f.valid in
    elim how [
      | inl (accepted, a) ↦ (
        record { written = h.written ++ e ∷ []; returned = h.returned; buffer = r.1 },
        ground (arith, wrote, accepted),
        record {
          valid = a.valid;
          all_kept = a.one_more ∙ ap (λ t. t ++ e ∷ []) f.all_kept;
          in_order =
              f.in_order
              ∙ sym (
                  take_append_of_le (position h.buffer) h.written (e ∷ [])
                    (omega (arith, position-le h.buffer f.valid, ap length f.all_kept)))
              ∙ ap (λ t. take t (h.written ++ e ∷ [])) (sym a.same_position);
        },
      )
      | inr (bad, same) ↦ (h, ground (arith, wrote, bad, same), f)
    ]
run_call-IsFaithful (read len copies) h f = elim (Bool-cases (ltb len sizeof_mem_access)) [
  | inl short ↦ (
    record h { returned = h.returned ++ [] },
    unfold trace_read in ground (arith, short),
    record {
      valid = f.valid;
      all_kept = f.all_kept;
      in_order = append-nil h.returned ∙ f.in_order;
    },
  )
  | inr enough ↦
      let (r, reads, t) = trace_read-Takes len copies h.buffer f.valid (ground arith) in
      (
        record h { returned = h.returned ++ r.out; buffer = r.buffer },
        ground (arith, reads),
        record {
          valid = t.valid;
          all_kept = ap contents t.same_log ∙ f.all_kept;
          in_order =
              rw (t.moved, take-add (position h.buffer) t.taken h.written)
                (ap₂ ◌++◌ f.in_order (
                  t.next_entries ∙ ap (λ w. take t.taken (drop (position h.buffer) w)) f.all_kept));
        },
      )
]

run_calls-IsFaithful :
    (cs : List Call) (h : History)
    → IsFaithful h
    → (h' : History) × (run_calls cs h ≡ some h') × IsFaithful h'
unfolding run_calls
run_calls-IsFaithful [] h f = (h, refl, f)
run_calls-IsFaithful (c ∷ cs) h f =
    let (h', e, f') = run_call-IsFaithful c h f in
    let (h'', e', f'') = run_calls-IsFaithful cs h' f' in (h'', ground (arith, e, e'), f'')

pub start-IsFaithful : IsFaithful start
unfolding trace_buffer_init
start-IsFaithful = record {
  valid = record { filled = tt; writes_last = refl; reads_inside = tt; counted = refl };
  all_kept = refl;
  in_order = refl;
}

pub length-returned : (h : History) → IsFaithful h → length h.returned ≡ position h.buffer
length-returned h f =
    let le : position h.buffer ≤ length h.written =
      omega (arith, position-le h.buffer f.valid, ap length f.all_kept) in
    ap length f.in_order ∙ length-take (position h.buffer) h.written ∙ omega arith

-- Every history of the module is faithful.
pub run_calls-from_start :
    (cs : List Call) (h : History) → run_calls cs start ≡ some h → IsFaithful h
run_calls-from_start cs h e =
    let (h', e', f) = run_calls-IsFaithful cs start start-IsFaithful in
    subst IsFaithful (some-injective h' h (sym e' ∙ e)) f

-- Every sequence of writes and reads of the freshly loaded module runs without a bad pointer. The
-- entries that its reads return, in order, are a prefix of those that its writes accepted: none is
-- lost, repeated or reordered, and none comes from memory that was never written.
pub run_calls_fifo :
    (cs : List Call)
    → (h : History) × (run_calls cs start ≡ some h)
      × (h.returned ++ drop (length h.returned) h.written ≡ h.written)
run_calls_fifo cs =
    let (h, e, f) = run_calls-IsFaithful cs start start-IsFaithful in
    let n = position h.buffer in
    let size : length h.returned ≡ n = length-returned h f in
    (
      h,
      e,
      ap (λ k. h.returned ++ drop k h.written) size
          ∙ ap (λ t. t ++ drop n h.written) f.in_order
          ∙ take-append-drop n h.written,
    )
