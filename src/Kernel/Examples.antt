-- ===== src/Kernel/Examples.antt =====
-- The kernel's theorems on small inputs: a machine whose memory is all zeros, a tick of the timer, and
-- the key A pressed.
use os_simple.Base.{
  ◌++◌, ℕ, ◌+◌, ◌-◌, ◌*◌, ◌/◌, ◌≡◌, refl, if◌then◌else◌, ◌==◌, false, List, [], ◌∷◌, some, none,
  arith,
}
use os_simple.Base.Effects.{Effect}
use os_simple.Base.Outcome.{returns, Returns}
use os_simple.Interrupt.Handlers.{timer_handler, keyboard_interrupt_handler}
use os_simple.Interrupt.Service.{Interrupts, InterruptContext}
use os_simple.Interrupt.Examples.{blank}
use os_simple.Task.Table.{zero_tasks}
use os_simple.Task.Keeping.{IsTasks}
use os_simple.Task.Start.{init_task_manager-IsTasks}
use os_simple.Task.Creating.{init_task_manager}
use os_simple.Task.Examples.{two, two-IsTable}
use os_simple.Scheduler.State.{fresh_scheduler}
use os_simple.Memory.Examples.{zeros}
use os_simple.Keyboard.Examples.{idle, empty-IsValid}
use os_simple.Syscall.Examples.{start}
use os_simple.Kernel.{Kernel}
use os_simple.Kernel.Dispatch.{isr_handler}
use os_simple.Kernel.Boot.{
  Image, Arrival, start_devices, start_up, deliver, main_rounds, kernel_main,
}
use os_simple.Kernel.Invariant.{IsKernel}
use os_simple.Kernel.StartUp.{IsLoaded, IsStarted, start_up-IsStarted}
use os_simple.Kernel.Anyhow.{Settled, kernel_main-Settled}
use os_simple.Kernel.Timer.{schedule_times, dots, timer_lem}
use os_simple.Kernel.Starvation.{moved_on, timer_starves}
use os_simple.Kernel.Echoing.{Echoed}
use os_simple.Kernel.Input.{before_loop, kernel_main-Echoed}
use os_simple.Kernel.Exceptions.{answered, isr_handler_lem}

abbrev pub image : Image
image = record {
  isr = λ n. 0x101000 + 16 * n;
  irq = λ n. 0x102000 + 16 * n;
  idle_task_function = 0x103000;
  demo_task_address = 0x104000;
  system_entry = λ c k. returns k [];
}

abbrev off : Interrupts
off = record {
  idt = blank;
  interrupt_handlers = λ n. none;
  interrupt_count = 0;
  timer_ticks = 99;
  enabled = false;
}

abbrev pub loaded : Kernel
loaded = record {
  interrupts = off;
  tasks = zero_tasks;
  scheduler = fresh_scheduler;
  memory = zeros;
  keyboard = idle;
  syscalls = start;
}

loaded-IsLoaded : IsLoaded loaded
loaded-IsLoaded = record { tasks = refl; keyboard = empty-IsValid }

abbrev context : ℕ → InterruptContext
context n = record {
  edi = 0;
  esi = 0;
  ebp = 0;
  esp = 0;
  ebx = 0;
  edx = 0;
  ecx = 0;
  eax = 0;
  int_no = n;
  err_code = 0;
  eip = 0x100000;
  cs = 8;
  eflags = 0x202;
  useresp = 0;
  ss = 16;
}

abbrev tick : Arrival
tick = record { context = context 32; devices = record { data_port = 0; cr2 = 0 } }

abbrev key_a : Arrival
key_a = record { context = context 33; devices = record { data_port = 0x1E; cr2 = 0 } }

abbrev arrivals : List Arrival
arrivals = tick ∷ key_a ∷ tick ∷ []

start_up-IsStarted_example : Returns (start_up image loaded) IsStarted
start_up-IsStarted_example = start_up-IsStarted image loaded loaded-IsLoaded

-- A context read from a word of zeros.
abbrev misread : Arrival
misread = record { context = context 0; devices = record { data_port = 0; cr2 = 0 } }

kernel_main-Settled_example :
    Settled
      (kernel_main image (λ n. arrivals) (λ n. key_a ∷ []) ([] ∷ (tick ∷ misread ∷ []) ∷ []) loaded)
      IsKernel
kernel_main-Settled_example =
    kernel_main-Settled image (λ n. arrivals) (λ n. key_a ∷ []) ([] ∷ (tick ∷ misread ∷ []) ∷ [])
      loaded loaded-IsLoaded (λ n. omega arith) (λ n. omega arith) (omega arith)

-- The same kernel, with the driver's line and the timer's.
abbrev with_timer : Kernel
with_timer = record loaded {
  interrupts = record off {
    interrupt_handlers =
        λ n. if n == 33 then some keyboard_interrupt_handler else some timer_handler;
  };
  tasks = (init_task_manager zero_tasks).0;
}

timer_example :
    (k' : Kernel) × (out : List Effect) × (deliver image (tick ∷ tick ∷ []) with_timer
      ≡ returns k' out)
    × (k'.interrupts.timer_ticks ≡ 99 + 2)
    × (dots out ≡ (99 + 2) / 100 - 99 / 100)
    × (schedule_times ((99 + 2) / 10 - 99 / 10) with_timer.tasks ≡ some k'.tasks)
    × IsTasks k'.tasks (0 ∷ [])
timer_example =
    timer_lem image (tick ∷ tick ∷ []) with_timer (0 ∷ []) (refl, (refl, tt)) refl (omega arith)
      (init_task_manager-IsTasks zero_tasks (λ i past. refl)).0

abbrev typing : List (List Arrival)
typing = (key_a ∷ []) ∷ [] ∷ (key_a ∷ []) ∷ []

kernel_main-Echoed_example :
    (k' : Kernel) × (out : List Effect) × (before_loop image (λ n. arrivals) (λ n. tick ∷ []) loaded
      ≡ returns k' out)
    × (e : Echoed k' (0x1E ∷ 0x1E ∷ []) (main_rounds image typing k')) × (kernel_main image
          (λ n. arrivals)
          (λ n. tick ∷ [])
          typing
          loaded
        ≡ returns e.after (out ++ e.out))
kernel_main-Echoed_example =
    kernel_main-Echoed image (λ n. arrivals) (λ n. tick ∷ []) typing loaded loaded-IsLoaded
      (λ n. omega arith) (λ n. omega arith) ((refl, tt), (tt, ((refl, tt), tt)))
      (omega arith, (omega arith, (omega arith, tt)))

isr_handler_example :
    (k' : Kernel) × (out : List Effect) × (start_devices image loaded ≡ returns k' out)
    × (isr_handler image.system_entry (context 14) (record { data_port = 0; cr2 = 0x5000 }) k'
        ≡ answered (context 14) (record { data_port = 0; cr2 = 0x5000 }) k')
isr_handler_example =
    isr_handler_lem image loaded (context 14) (record { data_port = 0; cr2 = 0x5000 }) (omega arith)

-- The same kernel with two tasks: the tenth tick switches to the second, for good.
timer_starves_example :
    (k' : Kernel) × (out : List Effect) × (deliver image
        (tick ∷ tick ∷ [])
        (record with_timer { tasks = two })
      ≡ returns k' out)
    × (k'.tasks.current_task ≡ some (moved_on ((99 + 2) / 10 - 99 / 10) 0 (1 ∷ [])))
timer_starves_example =
    timer_starves image (tick ∷ tick ∷ []) (record with_timer { tasks = two }) 0 [] (1 ∷ [])
      (refl, (refl, tt)) refl (omega arith) two-IsTable refl (refl, tt)
