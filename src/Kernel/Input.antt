-- ===== src/Kernel/Input.antt =====
-- The whole of `kernel_main` and the keyboard: what is typed once its loop is reached.
use Prim.Native.String.{String}
use os_simple.Base.{
  ℕ, zero, suc, ◌≡◌, refl, ap, sym, ◌∙◌, true, List, [], ◌∷◌, ◌++◌, Option, none, some, inl, inr,
  Bool-cases,
}
use os_simple.Base.Effects.{Effect}
use os_simple.Base.Outcome.{
  Outcome, returns, after_effects, ◌>>=◌, Returns, IfReturns, after_effects-Returns,
  after_effects-IfReturns, Returns-IfReturns, Returns-value, bind-Returns, bind_assoc,
}
use os_simple.Interrupt.Handlers.{
  Handler, divide_error_handler, page_fault_handler, general_protection_fault_handler,
  timer_handler, keyboard_handler, keyboard_interrupt_handler, syscall_entry,
  register_interrupt_handler,
}
use os_simple.Interrupt.Service.{Interrupts, InterruptContext, with_effects, handle_timer}
use os_simple.Task.Table.{Tasks}
use os_simple.Keyboard.Buffer.{keyboard_has_input}
use os_simple.Keyboard.Driver.{Keyboard, init_keyboard, keyboard_getchar}
use os_simple.Kernel.{Kernel}
use os_simple.Kernel.Dispatch.{
  Devices, SystemEntry, ticked, run_handler, count_interrupt, run_irq, irq_handler,
}
use os_simple.Kernel.Boot.{
  Image, Arrival, deliver, echoed, test_round, test_rounds, keyboard_texts, with_driver,
  test_memory, test_keyboard, self_test, main_rounds, start_up, kernel_main,
}
use os_simple.Kernel.Invariant.{calm, IsKernel, IsLine, AllLines, irq_handler-IsKernel}
use os_simple.Kernel.StartUp.{IsLoaded, IsStarted, start_up-IsStarted}
use os_simple.Kernel.Running.{
  AllPoints, test_round-IsKernel, test_memory-IsKernel, with_driver-IsKernel,
}
use os_simple.Kernel.Echoing.{HasDriver, AllKeyRounds, all_bytes, Echoed}
use os_simple.Kernel.Echo.{AllSingle, main_rounds-single}

-- In order, and with the keyboard's line at its driver.
abbrev IsReady : Kernel → Type 0
IsReady k = IsKernel k × HasDriver k

ticked-HasDriver :
    (k : Kernel) (s : Interrupts) (out : List Effect) (o : Option Tasks)
    → s.interrupt_handlers 33 ≡ some keyboard_interrupt_handler
    → IfReturns (ticked k (with_effects s out o)) HasDriver
ticked-HasDriver k s out none h = tt
ticked-HasDriver k s out (some t) h = h

-- No handler of the eight lines changes the table of handlers.
run_irq-HasDriver :
    (entry : SystemEntry) (h : Option Handler) (c : InterruptContext) (d : Devices) (k : Kernel)
    → calm h ≡ true
    → HasDriver k
    → IfReturns (run_irq entry h c d k) HasDriver
unfolding run_handler handle_timer
run_irq-HasDriver entry none c d k e v = v
run_irq-HasDriver entry (some divide_error_handler) c d k e v = tt
run_irq-HasDriver entry (some page_fault_handler) c d k e v = tt
run_irq-HasDriver entry (some general_protection_fault_handler) c d k e v = tt
run_irq-HasDriver entry (some timer_handler) c d k e v = ticked-HasDriver k _ _ _ v
run_irq-HasDriver entry (some keyboard_handler) c d k e v = v
run_irq-HasDriver entry (some keyboard_interrupt_handler) c d k e v = v
run_irq-HasDriver entry (some syscall_entry) c d k e v = cc

irq_handler-IsReady :
    (entry : SystemEntry) (c : InterruptContext) (d : Devices) (k : Kernel)
    → IsLine c
    → IsReady k
    → Returns (irq_handler entry c d k) IsReady
unfolding irq_handler
irq_handler-IsReady entry c d k l v =
    Returns-IfReturns IsKernel HasDriver _ (irq_handler-IsKernel entry c d k l v.0) (
      after_effects-IfReturns HasDriver _ _ (
        run_irq-HasDriver entry (k.interrupts.interrupt_handlers c.int_no) c d (count_interrupt k)
          (v.0.lines c.int_no l.0 l.1) v.1))

deliver-IsReady :
    (image : Image) (arrivals : List Arrival) (k : Kernel)
    → AllLines arrivals
    → IsReady k
    → Returns (deliver image arrivals k) IsReady
unfolding deliver
deliver-IsReady image [] k l v = v
deliver-IsReady image (a ∷ arrivals) k l v =
    bind-Returns IsReady IsReady (irq_handler image.system_entry a.context a.devices k) _
      (irq_handler-IsReady image.system_entry a.context a.devices k l.0 v)
      (λ k' v'. deliver-IsReady image arrivals k' l.1 v')

echoed-HasDriver :
    (text : String) (k : Kernel) (o : Option (ℕ × Keyboard × List ℕ))
    → HasDriver k
    → IfReturns (echoed text k o) HasDriver
echoed-HasDriver text k none h = tt
echoed-HasDriver text k (some (c, keyboard, rest)) h = h

test_round-IsReady : (k : Kernel) → IsReady k → Returns (test_round k) IsReady
unfolding test_round
test_round-IsReady k v =
    Returns-IfReturns IsKernel HasDriver _ (test_round-IsKernel k v.0)
      (elim (Bool-cases (keyboard_has_input k.keyboard.buffer)) [
        | inl waits ↦
            rw waits (echoed-HasDriver "You pressed: " k (keyboard_getchar k.keyboard []) v.1)
        | inr empty ↦ rw empty v.1
      ])

test_rounds-IsReady :
    (left : ℕ) (image : Image) (arrivals : ℕ → List Arrival) (k : Kernel)
    → AllPoints arrivals
    → IsReady k
    → Returns (test_rounds left image arrivals k) IsReady
unfolding test_rounds
test_rounds-IsReady zero image arrivals k l v = v
test_rounds-IsReady (suc left) image arrivals k l v =
    bind-Returns IsReady IsReady (test_round k) _ (test_round-IsReady k v) (λ k1 v1.
      bind-Returns IsReady IsReady (deliver image (arrivals left) k1) _
        (deliver-IsReady image (arrivals left) k1 (l left) v1)
        (λ k2 v2. test_rounds-IsReady left image arrivals k2 l v2))

test_keyboard-IsReady :
    (image : Image) (arrivals : ℕ → List Arrival) (k : Kernel)
    → AllPoints arrivals
    → IsKernel k
    → Returns (test_keyboard image arrivals k) IsReady
unfolding test_keyboard init_keyboard register_interrupt_handler
test_keyboard-IsReady image arrivals k l v =
    let driver = init_keyboard k.keyboard k.interrupts.interrupt_handlers in
    let k0 : Kernel = with_driver k driver in
    after_effects-Returns IsReady driver.2 _ (
      after_effects-Returns IsReady keyboard_texts _ (
        bind-Returns IsReady IsReady (deliver image (arrivals 5) k0) _
          (deliver-IsReady image (arrivals 5) k0 (l 5) (with_driver-IsKernel k v, refl))
          (λ k1 v1.
            bind-Returns IsReady IsReady (test_rounds 5 image arrivals k1) _
              (test_rounds-IsReady 5 image arrivals k1 l v1) (λ k2 v2. v2))))

-- What `kernel_main` does before its loop.
abbrev pub before_loop : Image → (ℕ → List Arrival) → (ℕ → List Arrival) → Kernel → Outcome Kernel
before_loop image early late k = start_up image k >>= self_test image early late

before_loop-IsReady :
    (image : Image) (early late : ℕ → List Arrival) (k : Kernel)
    → IsLoaded k
    → AllPoints early
    → AllPoints late
    → Returns (before_loop image early late k) IsReady
unfolding self_test
before_loop-IsReady image early late k v le ll =
    bind-Returns IsStarted IsReady (start_up image k) _ (start_up-IsStarted image k v) (λ k1 v1.
      bind-Returns IsKernel IsReady (test_memory image early k1) _
        (test_memory-IsKernel image early k1 le v1.order)
        (λ k2 v2. test_keyboard-IsReady image late k2 ll v2))

-- A contract of the C code alone: it holds where `irq_handler` is called only at the points that
-- `deliver` marks, each time with a context that has the number of the interrupt's line, which the
-- stubs of this kernel do not pass. From a task table of zeros and a keyboard's buffer in order, with
-- such calls for any of the eight lines before the loop, `kernel_main` reaches its loop; if then such
-- calls for the keyboard's line alone come, at most one in each round, the loop goes through all
-- the rounds, and has printed or still holds, once each and in order, the characters that the buffer
-- held when the loop was reached and the whole text typed since.
pub kernel_main-Echoed :
    (image : Image) (early late : ℕ → List Arrival) (rounds : List (List Arrival)) (k : Kernel)
    → IsLoaded k
    → AllPoints early
    → AllPoints late
    → AllKeyRounds rounds
    → AllSingle rounds
    → (k' : Kernel) × (out : List Effect) × (before_loop image early late k ≡ returns k' out)
      × (e : Echoed k' (all_bytes rounds) (main_rounds image rounds k')) × (kernel_main image early
            late rounds k
          ≡ returns e.after (out ++ e.out))
unfolding kernel_main
kernel_main-Echoed image early late rounds k v le ll lr s =
    let (k', out, run, ready) =
      Returns-value IsReady (before_loop image early late k)
        (before_loop-IsReady image early late k v le ll) in
    let e = main_rounds-single image rounds k' lr s ready.1 ready.0.keyboard in
    (
      k',
      out,
      run,
      e,
      sym (bind_assoc (start_up image k) (self_test image early late) (main_rounds image rounds))
          ∙ ap (λ m. m >>= main_rounds image rounds) run
          ∙ ap (after_effects out) e.run,
    )
