-- ===== src/Kernel/Boot.antt =====
-- kernel/kernel.c: `kernel_main`, as far as `enable_interrupts` (`start_up`), from there to its loop
-- (`self_test`), and the rounds of the loop (`main_rounds`); and `demo_task`. Once interrupts are
-- enabled they are handled at the points that `deliver` marks, between the calls of `kernel_main`:
-- an interrupt in the middle of a call is not modelled. The context that `irq_handler` is called with
-- is an input: the stubs of kernel/interrupt_asm.s pass the saved data segment for its address
-- (Machine.Stubs), so the number in it need not be that of the line. The two delay loops have no
-- effect.
use Prim.Native.String.{String}
use os_simple.Base.{ℕ, zero, suc, List, [], ◌∷◌, Option, none, some, if◌then◌else◌}
use os_simple.Base.Int.{pos}
use os_simple.Base.Effects.{Effect, print_string, print_bytes, print_char, clear_screen}
use os_simple.Base.Outcome.{Outcome, returns, unfinished, ◌>>=◌, ◌>>◌, emit, runs, prints, ends}
use os_simple.Interrupt.Handlers.{Handlers}
use os_simple.Interrupt.Service.{InterruptContext, init_interrupts, enable_interrupts}
use os_simple.Task.Table.{Tasks}
use os_simple.Task.Creating.{init_task_manager, create_task}
use os_simple.Task.Switching.{task_exit}
use os_simple.Task.Listing.{print_task_info_by_pid}
use os_simple.Scheduler.State.{Scheduler, start_scheduler}
use os_simple.Scheduler.Ticking.{init_scheduler}
use os_simple.Memory.Manager.{Memory, init_memory_manager, kmalloc, kfree, print_memory_info}
use os_simple.Keyboard.Buffer.{keyboard_has_input}
use os_simple.Keyboard.Driver.{Keyboard, init_keyboard, keyboard_getchar, print_keyboard_stats}
use os_simple.Syscall.{init_syscalls}
use os_simple.Kernel.{Kernel}
use os_simple.Kernel.Dispatch.{Devices, SystemEntry, irq_handler}
use os_simple.Kernel.Messages.{
  kernel_starting, welcome, starting_interrupts, starting_tasks, creating_demo, tasks_now,
  enabling_interrupts, kernel_ready, system_running, press_a_key, testing_memory, blocks_allocated,
  second_block_freed,
}

-- The addresses that the linker gives, and the assembly entry of interrupt 0x80.
pub record Image : Type 0 where
  pub isr : ℕ → ℕ
  pub irq : ℕ → ℕ
  pub idle_task_function : ℕ
  pub demo_task_address : ℕ
  pub system_entry : SystemEntry

abbrev pub demo_name : List ℕ
demo_name = b'd' ∷ b'e' ∷ b'm' ∷ b'o' ∷ b'_' ∷ b't' ∷ b'a' ∷ b's' ∷ b'k' ∷ []

unfoldable pub demo_task : Tasks → Outcome Tasks
demo_task t = do
  emit (print_string "[DEMO] Task running...\n" ∷ [])
  emit (print_string "[DEMO] Task running...\n" ∷ [])
  emit (print_string "[DEMO] Task running...\n" ∷ [])
  ends (task_exit t)

-- A call of `init_scheduler`, which acts on two components.
abbrev pub scheduled : Kernel → Option (Scheduler × Tasks × List Effect) → Outcome Kernel
scheduled k none = unfinished
scheduled k (some (s, t, out)) = returns (record k { scheduler = s; tasks = t }) out

abbrev pub with_task : Kernel → Option (Option ℕ × Tasks × List Effect) → Outcome Kernel
with_task k none = unfinished
with_task k (some (task, t, out)) = returns (record k { tasks = t }) out

-- `init_interrupts`, `init_memory_manager` and `init_syscalls`.
unfoldable pub start_devices : Image → Kernel → Outcome Kernel
start_devices image k = do
  emit (
      clear_screen
      ∷ print_bytes kernel_starting
      ∷ print_bytes welcome
      ∷ print_bytes starting_interrupts
      ∷ [])
  interrupts ← runs (init_interrupts image.isr image.irq k.interrupts)
  memory ← runs (init_memory_manager k.memory)
  let called = init_syscalls k.syscalls interrupts.interrupt_handlers
  returns
      (record k {
        interrupts = record interrupts { interrupt_handlers = called.1 };
        memory = memory;
        syscalls = called.0;
      })
      []

-- `init_scheduler`, `start_scheduler`, `init_task_manager` and `create_task`.
unfoldable pub start_tasks : Image → Kernel → Outcome Kernel
start_tasks image k = do
  k1 ← scheduled k (init_scheduler image.idle_task_function k.tasks)
  let started = record k1 { scheduler = start_scheduler k1.scheduler }
  emit (print_bytes starting_tasks ∷ [])
  tasks ← runs (init_task_manager started.tasks)
  emit (print_bytes creating_demo ∷ [])
  with_task started (create_task tasks demo_name image.demo_task_address)

unfoldable pub start_up : Image → Kernel → Outcome Kernel
start_up image k = do
  k1 ← start_devices image k
  k2 ← start_tasks image k1
  emit (print_bytes tasks_now ∷ [])
  prints (print_task_info_by_pid k2.tasks (pos 0))
  prints (print_task_info_by_pid k2.tasks (pos 1))
  emit (print_bytes enabling_interrupts ∷ [])
  returns (record k2 { interrupts = enable_interrupts k2.interrupts }) []

-- A call of `irq_handler`: the context that it is given, and what the devices hold.
pub record Arrival : Type 0 where
  pub context : InterruptContext
  pub devices : Devices

-- The interrupts that are handled at one point, in order.
unfoldable pub deliver : Image → List Arrival → Kernel → Outcome Kernel
deliver image [] k = returns k []
deliver image (a ∷ arrivals) k =
    irq_handler image.system_entry a.context a.devices k >>= deliver image arrivals

-- What `keyboard_getchar` gives where it does not wait, printed after a text.
abbrev pub echoed : String → Kernel → Option (ℕ × Keyboard × List ℕ) → Outcome Kernel
echoed text k none = unfinished
echoed text k (some (c, keyboard, rest)) =
    returns (record k { keyboard = keyboard })
      (print_string text ∷ print_char c ∷ print_string "\n" ∷ [])

-- A round of the keyboard test.
unfoldable pub test_round : Kernel → Outcome Kernel
test_round k =
    if keyboard_has_input k.keyboard.buffer
    then echoed "You pressed: " k (keyboard_getchar k.keyboard [])
    else returns k (print_string "Waiting for input...\n" ∷ [])

unfoldable pub test_rounds : ℕ → Image → (ℕ → List Arrival) → Kernel → Outcome Kernel
test_rounds zero image arrivals k = returns k []
test_rounds (suc left) image arrivals k = do
  k1 ← test_round k
  k2 ← deliver image (arrivals left) k1
  test_rounds left image arrivals k2

-- The three calls of `kmalloc`; the result is the second block.
unfoldable pub allocate_three : Memory → ℕ × Memory
allocate_three m =
    let first = kmalloc m 1024 in
    let second = kmalloc first.1 2048 in let third = kmalloc second.1 512 in (second.0, third.1)

-- What `kernel_main` prints between its calls.
abbrev pub ready_texts : List Effect
ready_texts =
    print_bytes kernel_ready
    ∷ print_string "hi\n"
    ∷ print_bytes system_running
    ∷ print_bytes press_a_key
    ∷ print_bytes testing_memory
    ∷ []

abbrev pub memory_report : List ℕ → Memory → List Effect
memory_report text m = print_bytes text ∷ print_memory_info m

abbrev pub keyboard_texts : List Effect
keyboard_texts =
    print_string "\n=== Keyboard Test ===\n"
    ∷ print_string "Type some characters (press any key to continue):\n"
    ∷ []

abbrev pub end_texts : List Effect
end_texts =
    print_string "\n=== System Ready ===\n"
    ∷ print_string "All Linux 0.01 inspired features initialized!\n"
    ∷ print_string "[DEBUG] Entering main loop...\n"
    ∷ []

unfoldable pub test_memory : Image → (ℕ → List Arrival) → Kernel → Outcome Kernel
test_memory image arrivals k = do
  emit ready_texts
  let taken = allocate_three k.memory
  emit (memory_report blocks_allocated taken.1)
  k1 ← deliver image (arrivals 0) (record k { memory = taken.1 })
  let freed = kfree k1.memory taken.0
  emit (memory_report second_block_freed freed)
  deliver image (arrivals 1) (record k1 { memory = freed })

-- The state after `init_keyboard`.
abbrev pub with_driver : Kernel → Keyboard × Handlers × List Effect → Kernel
with_driver k (keyboard, handlers, out) = record k {
  keyboard = keyboard;
  interrupts = record k.interrupts { interrupt_handlers = handlers };
}

unfoldable pub test_keyboard : Image → (ℕ → List Arrival) → Kernel → Outcome Kernel
test_keyboard image arrivals k = do
  let driver = init_keyboard k.keyboard k.interrupts.interrupt_handlers
  emit driver.2
  emit keyboard_texts
  k1 ← deliver image (arrivals 5) (with_driver k driver)
  k2 ← test_rounds 5 image arrivals k1
  emit (print_keyboard_stats k2.keyboard)
  emit end_texts
  returns k2 []

unfoldable pub self_test : Image → (ℕ → List Arrival) → (ℕ → List Arrival) → Kernel → Outcome Kernel
self_test image early late k = test_memory image early k >>= test_keyboard image late

-- A round of the loop: a character that waits is printed, and `hlt` ends with the interrupts given.
unfoldable pub main_round : Image → List Arrival → Kernel → Outcome Kernel
main_round image arrivals k = do
  k1 ←
      if keyboard_has_input k.keyboard.buffer
      then echoed "Input: " k (keyboard_getchar k.keyboard [])
      else returns k []
  deliver image arrivals k1

unfoldable pub main_rounds : Image → List (List Arrival) → Kernel → Outcome Kernel
main_rounds image [] k = returns k []
main_rounds image (arrivals ∷ more) k = main_round image arrivals k >>= main_rounds image more

-- `kernel_main`, with the interrupts that arrive, and as many rounds of its loop as are given.
unfoldable pub kernel_main :
    Image → (ℕ → List Arrival) → (ℕ → List Arrival) → List (List Arrival) → Kernel → Outcome Kernel
kernel_main image early late rounds k = do
  k1 ← start_up image k
  k2 ← self_test image early late k1
  main_rounds image rounds k2
