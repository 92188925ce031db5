-- ===== src/Kernel/Timer.antt =====
-- What a run of timer interrupts does: the dots on the screen and the calls of `schedule`.
use os_simple.Base.{
  ℕ, zero, suc, ◌+◌, ◌-◌, ◌/◌, ◌%◌, ◌^◌, ◌<◌, ◌≡◌, refl, ap, sym, ◌∙◌, Bool, true, false, List, [],
  ◌∷◌, ◌++◌, Option, none, some, ◌==◌, if◌then◌else◌, inl, inr, Bool-cases, length, add32, arith,
}
use os_simple.Base.Effects.{Effect, outb, print_char}
use os_simple.Base.Outcome.{returns, after_effects, ◌>>=◌}
use os_simple.Interrupt.Handlers.{timer_handler}
use os_simple.Interrupt.Gates.{send_eoi}
use os_simple.Interrupt.Service.{InterruptContext, handle_timer}
use os_simple.Task.Table.{Tasks}
use os_simple.Task.Switching.{schedule}
use os_simple.Task.Keeping.{IsTasks, schedule-IsTasks}
use os_simple.Kernel.{Kernel}
use os_simple.Kernel.Dispatch.{
  Devices, SystemEntry, run_handler, count_interrupt, run_irq, irq_handler,
}
use os_simple.Kernel.Boot.{Image, Arrival, deliver}

abbrev pub AllTimer : List Arrival → Type 0
AllTimer [] = Unit {0}
AllTimer (a ∷ arrivals) = (a.context.int_no ≡ 32) × AllTimer arrivals

unfoldable pub schedule_times : ℕ → Tasks → Option Tasks
schedule_times zero t = some t
schedule_times (suc n) t = elim (schedule t) [ none ↦ none | some t' ↦ schedule_times n t' ]

abbrev pub is_dot : Effect → Bool
is_dot (print_char c) = c == b'.'
is_dot e = false

-- The dots among the effects.
abbrev pub dots : List Effect → ℕ
dots [] = 0
dots (e ∷ out) = (if is_dot e then 1 else 0) + dots out

-- The state after one timer interrupt.
ticked_once : Kernel → Tasks → Kernel
ticked_once k t = record k {
  interrupts = record k.interrupts {
    interrupt_count = add32 k.interrupts.interrupt_count 1;
    timer_ticks = add32 k.interrupts.timer_ticks 1;
  };
  tasks = t;
}

maybe_schedule :
    (b : Bool) (t : Tasks) (xs : List ℕ)
    → IsTasks t xs
    → (t' : Tasks) × ((if b then schedule t else some t) ≡ some t') × IsTasks t' xs
maybe_schedule true t xs v = schedule-IsTasks t xs v
maybe_schedule false t xs v = (t, refl, v)

one_tick :
    (entry : SystemEntry) (c : InterruptContext) (d : Devices) (k : Kernel) (xs : List ℕ)
    → c.int_no ≡ 32
    → k.interrupts.interrupt_handlers 32 ≡ some timer_handler
    → k.interrupts.timer_ticks + 1 < 2 ^ 32
    → IsTasks k.tasks xs
    → (t : Tasks) × (irq_handler entry c d k
        ≡ returns (ticked_once k t) (
            outb 0x20 0x20
            ∷ (if (k.interrupts.timer_ticks + 1) % 100 == 0 then print_char b'.' ∷ [] else [])))
      × ((if (k.interrupts.timer_ticks + 1) % 10 == 0 then schedule k.tasks else some k.tasks)
          ≡ some t)
      × IsTasks t xs
unfolding irq_handler run_handler handle_timer send_eoi ticked_once
one_tick entry c d k xs line handler small v =
    let now : ℕ = k.interrupts.timer_ticks + 1 in
    let same : add32 k.interrupts.timer_ticks 1 ≡ now = omega arith in
    let run = maybe_schedule (now % 10 == 0) k.tasks xs v in
    (
      run.0,
      ap
            (λ n.
              after_effects (send_eoi ((n + 256 - 32) % 256))
                (run_irq entry (k.interrupts.interrupt_handlers n) c d (count_interrupt k)))
            line
          ∙ ap (λ h. after_effects (send_eoi 0) (run_irq entry h c d (count_interrupt k))) handler
          ∙ rw (same, run.1) refl,
      run.1,
      run.2,
    )

dots-append : (out more : List Effect) → dots (out ++ more) ≡ dots out + dots more
dots-append [] more = omega arith
dots-append (e ∷ out) more = omega (arith, dots-append out more)

-- The effects of one tick have a dot at each hundredth.
dots_once :
    (n : ℕ)
    → dots (outb 0x20 0x20 ∷ (if n % 100 == 0 then print_char b'.' ∷ [] else []))
      ≡ (if n % 100 == 0 then 1 else 0)
dots_once n = elim (Bool-cases (n % 100 == 0)) [
  | inl dot ↦ rw dot refl
  | inr no_dot ↦ rw no_dot refl
]

dots_step :
    (t n : ℕ)
    → (if (t + 1) % 100 == 0 then 1 else 0) + ((t + 1 + n) / 100 - (t + 1) / 100)
      ≡ (t + suc n) / 100 - t / 100
dots_step t n = ground arith

-- One more call of `schedule` at each tenth tick.
schedule_step :
    (b : Bool) (u t' : Tasks) (t n : ℕ)
    → ((t + 1) % 10 == 0) ≡ b
    → (if b then schedule u else some u) ≡ some t'
    → schedule_times ((t + suc n) / 10 - t / 10) u
      ≡ schedule_times ((t + 1 + n) / 10 - (t + 1) / 10) t'
unfolding schedule_times
schedule_step true u t' t n e h =
    let more : (t + suc n) / 10 - t / 10 ≡ suc ((t + 1 + n) / 10 - (t + 1) / 10) = ground arith in
    ap (λ m. schedule_times m u) more ∙ rw (schedule_times, h) refl
schedule_step false u t' t n e h =
    let same : (t + suc n) / 10 - t / 10 ≡ (t + 1 + n) / 10 - (t + 1) / 10 = ground arith in
    ap (λ m. schedule_times m u) same
    ∙ ap
        (λ o. elim o as (λ x. Option Tasks) [
          | none ↦ none
          | some w ↦ schedule_times ((t + 1 + n) / 10 - (t + 1) / 10) w
        ])
        h

no_ticks : (t : ℕ) → (t + 0) / 10 - t / 10 ≡ 0
no_ticks t = omega arith

-- A run of timer interrupts, from a kernel whose timer has its handler, whose tasks are in order, and
-- whose count of ticks stays below 2^32: all of them are handled to their end. Each adds a tick;
-- the dots printed are the multiples of 100 that the count passes, and the tasks are those that as
-- many calls of `schedule` leave as the count passes multiples of 10.
pub timer_lem :
    (image : Image) (arrivals : List Arrival) (k : Kernel) (xs : List ℕ)
    → AllTimer arrivals
    → k.interrupts.interrupt_handlers 32 ≡ some timer_handler
    → k.interrupts.timer_ticks + length arrivals < 2 ^ 32
    → IsTasks k.tasks xs
    → (k' : Kernel) × (out : List Effect) × (deliver image arrivals k ≡ returns k' out)
      × (k'.interrupts.timer_ticks ≡ k.interrupts.timer_ticks + length arrivals)
      × (dots out
          ≡ (k.interrupts.timer_ticks + length arrivals) / 100 - k.interrupts.timer_ticks / 100)
      × (schedule_times
            ((k.interrupts.timer_ticks + length arrivals) / 10 - k.interrupts.timer_ticks / 10)
            k.tasks
          ≡ some k'.tasks)
      × IsTasks k'.tasks xs
unfolding deliver schedule_times ticked_once
timer_lem image [] k xs l h s v = (
  k,
  [],
  refl,
  omega arith,
  omega arith,
  ap (λ m. schedule_times m k.tasks) (no_ticks k.interrupts.timer_ticks),
  v,
)
timer_lem image (a ∷ arrivals) k xs l h s v =
    let t : ℕ = k.interrupts.timer_ticks in
    let one = one_tick image.system_entry a.context a.devices k xs l.0 h (omega arith) v in
    let now : (ticked_once k one.0).interrupts.timer_ticks ≡ t + 1 = omega arith in
    let rest = timer_lem image arrivals (ticked_once k one.0) xs l.1 h (omega arith) one.3 in
    let first : List Effect =
      outb 0x20 0x20 ∷ (if (t + 1) % 100 == 0 then print_char b'.' ∷ [] else []) in
    (
      rest.0,
      first ++ rest.1,
      ap (λ m. m >>= deliver image arrivals) one.1 ∙ ap (after_effects first) rest.2,
      rest.3 ∙ omega arith,
      dots-append first rest.1
          ∙ rw (dots_once (t + 1), rest.4, now) (dots_step t (length arrivals)),
      schedule_step ((t + 1) % 10 == 0) k.tasks one.0 t (length arrivals) refl one.2
          ∙ ap (λ m. schedule_times ((m + length arrivals) / 10 - m / 10) one.0) (sym now)
          ∙ rest.5,
      rest.6,
    )
