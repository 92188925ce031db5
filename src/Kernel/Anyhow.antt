-- ===== src/Kernel/Anyhow.antt =====
-- `kernel_main` when `irq_handler` gets contexts with other numbers than their lines', as the stubs
-- pass them: any number below 256, the size of the handlers' table, but 0x80, whose handler is the
-- assembly entry for system calls.
use os_simple.Base.{
  ℕ, zero, suc, ◌<◌, ◌≡◌, ◌≢◌, refl, ap, sym, append_assoc, ◌∙◌, false, List, [], ◌∷◌, ◌++◌, Option,
  none, some, ◌⊎◌, inl, inr, Bool-cases, add32,
}
use os_simple.Base.Effects.{Effect, print_string, print_bytes, print_hex}
use os_simple.Base.Outcome.{Outcome, returns, hangs, unfinished, ◌>>=◌, after_effects, Returns}
use os_simple.Interrupt.Handlers.{
  Handler, divide_error_handler, page_fault_handler, general_protection_fault_handler,
  timer_handler, keyboard_handler, keyboard_interrupt_handler, syscall_entry,
}
use os_simple.Interrupt.Messages.{division_by_zero, page_fault_at, protection_fault}
use os_simple.Interrupt.Service.{
  InterruptContext, handle_timer, handle_divide_error, handle_page_fault,
  handle_general_protection_fault, print_interrupt_info,
}
use os_simple.Memory.Manager.{kfree}
use os_simple.Memory.Manager.Requests.{kfree-IsValid}
use os_simple.Keyboard.Buffer.{keyboard_has_input}
use os_simple.Keyboard.Driver.{init_keyboard, keyboard_getchar}
use os_simple.Keyboard.Driver.Typing.{keyboard_interrupt-IsValid}
use os_simple.Kernel.{Kernel}
use os_simple.Kernel.Dispatch.{
  Devices, SystemEntry, run_handler, count_interrupt, run_irq, irq_handler,
}
use os_simple.Kernel.Boot.{
  Image, Arrival, deliver, echoed, test_rounds, test_round, allocate_three, ready_texts,
  memory_report, keyboard_texts, with_driver, test_memory, test_keyboard, self_test, main_round,
  main_rounds, start_up, kernel_main,
}
use os_simple.Kernel.Messages.{blocks_allocated, second_block_freed}
use os_simple.Kernel.Invariant.{IsKernel, enters, tick-IsKernel}
use os_simple.Kernel.Running.{
  with_memory, echoed-IsKernel, test_round-IsKernel, allocate_three-IsValid, with_driver-IsKernel,
}
use os_simple.Kernel.StartUp.{IsLoaded, IsStarted, start_up-IsStarted}
use os_simple.Kernel.Exceptions.{context_text}

-- What one of the three exception handlers prints.
abbrev pub Fault : List Effect → Type 0
Fault text =
    (c : InterruptContext) × (cr2 : ℕ) × ((text ≡ print_bytes division_by_zero ∷ context_text c)
      ⊎ (text ≡ print_bytes protection_fault ∷ context_text c)
      ⊎ (text ≡ print_bytes page_fault_at ∷ print_hex cr2 ∷ print_string "\n" ∷ context_text c))

-- The outcome is a return of a value that has the property; or the endless loop of an exception's
-- handler, after its text.
abbrev pub Settled {ℓ} : {A : Type ℓ} → Outcome A → (A → Type 0) → Type 0
Settled (returns a out) P = P a
Settled (hangs out) P =
    (before : List Effect) × (text : List Effect) × (out ≡ before ++ text) × Fault text
Settled unfinished P = ⊥

Returns-Settled {ℓ} : {A : Type ℓ} (P : A → Type 0) (m : Outcome A) → Returns m P → Settled m P
Returns-Settled P (returns a out) h = h
Returns-Settled P (hangs out) h = absurd h
Returns-Settled P unfinished h = h

after_effects-Settled {ℓ} :
    {A : Type ℓ} (P : A → Type 0) (out : List Effect) (m : Outcome A)
    → Settled m P
    → Settled (after_effects out m) P
after_effects-Settled P out (returns a more) h = h
after_effects-Settled P out (hangs more) h =
    (out ++ h.0, h.1, ap (λ x. out ++ x) h.2 ∙ sym (append_assoc out h.0 h.1), h.3)
after_effects-Settled P out unfinished h = h

bind-Settled {ℓ} :
    {A B : Type ℓ} (P : A → Type 0) (Q : B → Type 0) (m : Outcome A) (f : A → Outcome B)
    → Settled m P
    → ((a : A) → P a → Settled (f a) Q)
    → Settled (m >>= f) Q
bind-Settled P Q (returns a out) f h step = after_effects-Settled Q out (f a) (step a h)
bind-Settled P Q (hangs out) f h step = h
bind-Settled P Q unfinished f h step = h

-- The number is in the table, and not that of the system calls.
abbrev pub IsNumber : InterruptContext → Type 0
IsNumber c = (c.int_no < 256) × (c.int_no ≢ 0x80)

abbrev pub AllNumbers : List Arrival → Type 0
AllNumbers [] = Unit {0}
AllNumbers (a ∷ arrivals) = IsNumber a.context × AllNumbers arrivals

run_irq-Settled :
    (entry : SystemEntry) (h : Option Handler) (c : InterruptContext) (d : Devices) (k : Kernel)
    → enters h ≡ false
    → IsKernel k
    → Settled (run_irq entry h c d k) IsKernel
unfolding run_handler handle_timer handle_divide_error handle_page_fault
    handle_general_protection_fault print_interrupt_info
run_irq-Settled entry none c d k e v = v
run_irq-Settled entry (some divide_error_handler) c d k e v = ([], _, refl, (c, 0, inl refl))
run_irq-Settled entry (some page_fault_handler) c d k e v =
    ([], _, refl, (c, d.cr2, inr (inr refl)))
run_irq-Settled entry (some general_protection_fault_handler) c d k e v =
    ([], _, refl, (c, 0, inr (inl refl)))
run_irq-Settled entry (some timer_handler) c d k e v =
    Returns-Settled IsKernel _ (tick-IsKernel k (add32 k.interrupts.timer_ticks 1) v)
run_irq-Settled entry (some keyboard_handler) c d k e v = v
run_irq-Settled entry (some keyboard_interrupt_handler) c d k e v = record {
  listed = v.listed;
  keyboard = keyboard_interrupt-IsValid k.keyboard d.data_port v.keyboard;
  memory = v.memory;
  calls = v.calls;
  lines = v.lines;
  entry = v.entry;
}
run_irq-Settled entry (some syscall_entry) c d k e v = cc

irq_handler-Settled :
    (entry : SystemEntry) (c : InterruptContext) (d : Devices) (k : Kernel)
    → IsNumber c
    → IsKernel k
    → Settled (irq_handler entry c d k) IsKernel
unfolding irq_handler
irq_handler-Settled entry c d k l v = after_effects-Settled IsKernel _ _ (
    run_irq-Settled entry (k.interrupts.interrupt_handlers c.int_no) c d (count_interrupt k)
      (v.entry c.int_no l.0 l.1)
      (record {
        listed = v.listed;
        keyboard = v.keyboard;
        memory = v.memory;
        calls = v.calls;
        lines = v.lines;
        entry = v.entry;
      }))

deliver-Settled :
    (image : Image) (arrivals : List Arrival) (k : Kernel)
    → AllNumbers arrivals
    → IsKernel k
    → Settled (deliver image arrivals k) IsKernel
unfolding deliver
deliver-Settled image [] k l v = v
deliver-Settled image (a ∷ arrivals) k l v =
    bind-Settled IsKernel IsKernel (irq_handler image.system_entry a.context a.devices k)
      (deliver image arrivals) (irq_handler-Settled image.system_entry a.context a.devices k l.0 v)
      (λ k' v'. deliver-Settled image arrivals k' l.1 v')

-- So are those of the interrupts that arrive at each point of a run.
abbrev pub AllPoints : (ℕ → List Arrival) → Type 0
AllPoints arrivals = (point : ℕ) → AllNumbers (arrivals point)

test_rounds-Settled :
    (left : ℕ) (image : Image) (arrivals : ℕ → List Arrival) (k : Kernel)
    → AllPoints arrivals
    → IsKernel k
    → Settled (test_rounds left image arrivals k) IsKernel
unfolding test_rounds
test_rounds-Settled zero image arrivals k l v = v
test_rounds-Settled (suc left) image arrivals k l v =
    bind-Settled IsKernel IsKernel (test_round k) _
      (Returns-Settled IsKernel (test_round k) (test_round-IsKernel k v))
      (λ k1 v1.
        bind-Settled IsKernel IsKernel (deliver image (arrivals left) k1) _
          (deliver-Settled image (arrivals left) k1 (l left) v1)
          (λ k2 v2. test_rounds-Settled left image arrivals k2 l v2))

pub test_memory-Settled :
    (image : Image) (arrivals : ℕ → List Arrival) (k : Kernel)
    → AllPoints arrivals
    → IsKernel k
    → Settled (test_memory image arrivals k) IsKernel
unfolding test_memory
test_memory-Settled image arrivals k l v =
    let taken = allocate_three k.memory in
    let k0 : Kernel = record k { memory = taken.1 } in
    let v0 = with_memory k taken.1 (allocate_three-IsValid k.memory v.memory) v in
    after_effects-Settled IsKernel ready_texts _ (
      after_effects-Settled IsKernel (memory_report blocks_allocated taken.1) _ (
        bind-Settled IsKernel IsKernel (deliver image (arrivals 0) k0) _
          (deliver-Settled image (arrivals 0) k0 (l 0) v0)
          (λ k1 v1.
            let freed = kfree k1.memory taken.0 in
            after_effects-Settled IsKernel (memory_report second_block_freed freed) _ (
              deliver-Settled image (arrivals 1) (record k1 { memory = freed }) (l 1)
                (with_memory k1 freed (kfree-IsValid k1.memory taken.0 v1.memory) v1)))))

test_keyboard-Settled :
    (image : Image) (arrivals : ℕ → List Arrival) (k : Kernel)
    → AllPoints arrivals
    → IsKernel k
    → Settled (test_keyboard image arrivals k) IsKernel
unfolding test_keyboard
test_keyboard-Settled image arrivals k l v =
    let driver = init_keyboard k.keyboard k.interrupts.interrupt_handlers in
    let k0 : Kernel = with_driver k driver in
    after_effects-Settled IsKernel driver.2 _ (
      after_effects-Settled IsKernel keyboard_texts _ (
        bind-Settled IsKernel IsKernel (deliver image (arrivals 5) k0) _
          (deliver-Settled image (arrivals 5) k0 (l 5) (with_driver-IsKernel k v))
          (λ k1 v1.
            bind-Settled IsKernel IsKernel (test_rounds 5 image arrivals k1) _
              (test_rounds-Settled 5 image arrivals k1 l v1) (λ k2 v2. v2))))

main_round-Settled :
    (image : Image) (arrivals : List Arrival) (k : Kernel)
    → AllNumbers arrivals
    → IsKernel k
    → Settled (main_round image arrivals k) IsKernel
unfolding main_round
main_round-Settled image arrivals k l v = elim (Bool-cases (keyboard_has_input k.keyboard.buffer)) [
  | inl waits ↦ rw waits (
      bind-Settled IsKernel IsKernel (echoed "Input: " k (keyboard_getchar k.keyboard [])) _
        (Returns-Settled IsKernel _ (echoed-IsKernel "Input: " k waits v))
        (λ k1 v1. deliver-Settled image arrivals k1 l v1))
  | inr empty ↦ rw empty (
      after_effects-Settled IsKernel [] (deliver image arrivals k)
        (deliver-Settled image arrivals k l v))
]

abbrev pub AllRounds : List (List Arrival) → Type 0
AllRounds [] = Unit {0}
AllRounds (arrivals ∷ more) = AllNumbers arrivals × AllRounds more

pub main_rounds-Settled :
    (image : Image) (rounds : List (List Arrival)) (k : Kernel)
    → AllRounds rounds
    → IsKernel k
    → Settled (main_rounds image rounds k) IsKernel
unfolding main_rounds
main_rounds-Settled image [] k l v = v
main_rounds-Settled image (arrivals ∷ more) k l v =
    bind-Settled IsKernel IsKernel (main_round image arrivals k) _
      (main_round-Settled image arrivals k l.0 v)
      (λ k1 v1. main_rounds-Settled image more k1 l.1 v1)

-- From a task table of zeros and a keyboard's buffer in order, whatever the other variables and memory
-- hold, when `irq_handler` is called at the points that `deliver` marks, any number of times, each time
-- with a context that has any number below 256 but 0x80: `kernel_main`, with any number of rounds of
-- its loop, either comes to the end of these rounds, and then every component is in order; or it has
-- stopped in an endless loop, and the last that it has printed is the text of the handler of the
-- division by zero, the protection fault or the page fault, and a context. It stops in no other
-- way, and no walk goes on for ever.
pub kernel_main-Settled :
    (image : Image) (early late : ℕ → List Arrival) (rounds : List (List Arrival)) (k : Kernel)
    → IsLoaded k
    → AllPoints early
    → AllPoints late
    → AllRounds rounds
    → Settled (kernel_main image early late rounds k) IsKernel
unfolding kernel_main self_test
kernel_main-Settled image early late rounds k v le ll lr =
    bind-Settled IsStarted IsKernel (start_up image k) _
      (Returns-Settled IsStarted (start_up image k) (start_up-IsStarted image k v))
      (λ k1 v1.
        bind-Settled IsKernel IsKernel (self_test image early late k1) _
          (bind-Settled IsKernel IsKernel (test_memory image early k1) _
            (test_memory-Settled image early k1 le v1.order)
            (λ k2 v2. test_keyboard-Settled image late k2 ll v2))
          (λ k3 v3. main_rounds-Settled image rounds k3 lr v3))
