-- ===== src/Kernel/StartUp.antt =====
-- What `kernel_main` has set up when it enables interrupts.
use os_simple.Base.{
  ℕ, ◌≤◌, ◌<◌, ◌≡◌, ◌≢◌, refl, ap, ◌∙◌, true, false, List, [], ◌∷◌, none, some, inl, arith,
}
use os_simple.Base.Int.{ℤ, pos, eqb_ℤ}
use os_simple.Base.Effects.{Effect, print_string, print_bytes}
use os_simple.Base.Outcome.{prints, Returns, after_effects-Returns, bind-Returns}
use os_simple.Interrupt.Handlers.{syscall_entry}
use os_simple.Interrupt.Service.{enable_interrupts}
use os_simple.Task.Table.{Task, Tasks, invalid_pid, zero_tasks}
use os_simple.Task.Creating.{find_slot, create_task, init_task_manager}
use os_simple.Task.Creation.{create_task_lem, create_task_uncleared}
use os_simple.Task.Keeping.{IsTasks}
use os_simple.Task.Start.{init_task_manager-IsTasks}
use os_simple.Task.Listing.{print_task_info_by_pid, print_task_info_by_pid_lem}
use os_simple.Scheduler.State.{sched_running, fresh_scheduler, start_scheduler}
use os_simple.Scheduler.Ticking.{idle_name, create_idle_task, init_scheduler}
use os_simple.Memory.Manager.Invariant as Heap
use os_simple.Keyboard.Buffer.Refine as Buffer
use os_simple.Syscall.{init_syscalls}
use os_simple.Syscall.Dispatch.{IsBalanced}
use os_simple.Kernel.{Kernel}
use os_simple.Kernel.Boot.{Image, start_devices, start_tasks, start_up, demo_name}
use os_simple.Kernel.Messages.{tasks_now}
use os_simple.Kernel.Invariant.{calm, enters, IsKernel}
use os_simple.Kernel.Lines.{
  register-calm, init_interrupts-calm, register-enters, init_interrupts-enters,
}

-- What the static variables hold before `kernel_main`: the task table is zero, and the keyboard's
-- buffer is in order. Memory and the other tables may hold anything.
pub record IsLoaded (k : Kernel) : Type 0 where
  pub tasks : k.tasks ≡ zero_tasks
  pub keyboard : Buffer.IsValid k.keyboard.buffer

-- After `start_devices`.
record HasDevices (k : Kernel) : Type 0 where
  tasks : k.tasks ≡ zero_tasks
  keyboard : Buffer.IsValid k.keyboard.buffer
  memory : Heap.IsValid k.memory
  calls : IsBalanced k.syscalls.syscall_stats
  lines : (n : ℕ) → 32 ≤ n → n < 40 → calm (k.interrupts.interrupt_handlers n) ≡ true
  entry : (n : ℕ) → n < 256 → n ≢ 0x80 → enters (k.interrupts.interrupt_handlers n) ≡ false

start_devices-HasDevices :
    (image : Image) (k : Kernel) → IsLoaded k → Returns (start_devices image k) HasDevices
unfolding start_devices init_syscalls
start_devices-HasDevices image k v = record {
  tasks = v.tasks;
  keyboard = v.keyboard;
  memory = Heap.init_memory_manager-IsValid k.memory;
  calls = refl;
  lines = λ n low high.
      register-calm _ 0x80 syscall_entry n (inl (ground arith))
        (init_interrupts-calm image.isr image.irq k.interrupts n low high);
  entry = λ n small other.
      register-enters _ 0x80 syscall_entry n (inl (ground arith))
        (init_interrupts-enters image.isr image.irq k.interrupts n small);
}

-- The first free entry of the table that `init_task_manager` leaves.
slot_one :
    (f : ℕ → Task)
    → eqb_ℤ (f 0).pid invalid_pid ≡ false
    → eqb_ℤ (f 1).pid invalid_pid ≡ true
    → find_slot 64 0 f ≡ some 1
unfolding find_slot
slot_one f used free = rw (used, free) refl

-- Without a free entry for it, `init_scheduler` leaves no idle task.
init_scheduler-zero_tasks :
    (address : ℕ)
    → init_scheduler address zero_tasks
      ≡ some (fresh_scheduler, zero_tasks, print_string "[ERROR] No free task slot\n" ∷ [])
unfolding init_scheduler create_idle_task
init_scheduler-zero_tasks address =
    rw
      (
        create_idle_task,
        create_task_uncleared zero_tasks idle_name address (λ j. refl) (omega arith),
      )
      refl

-- When `kernel_main` enables interrupts: everything is in order, the task list has the kernel's task
-- and the demonstration's, with the PIDs 0 and 1, and the scheduler runs with no task at all.
pub record IsStarted (k : Kernel) : Type 0 where
  pub order : IsKernel k
  pub list : IsTasks k.tasks (0 ∷ 1 ∷ [])
  pub kernel_pid : (k.tasks.tasks 0).pid ≡ pos 0
  pub demo_pid : (k.tasks.tasks 1).pid ≡ pos 1
  pub running : k.scheduler.state ≡ sched_running
  pub idle : k.scheduler.idle_task ≡ none
  pub current : k.scheduler.current ≡ none

abbrev initial : Tasks
initial = (init_task_manager zero_tasks).0

initial_entries :
    (eqb_ℤ (initial.tasks 0).pid invalid_pid ≡ false) × ((initial.tasks 0).pid ≡ pos 0)
unfolding init_task_manager
initial_entries = (refl, refl)

-- The demonstration's task takes entry 1.
demo_created :
    (address : ℕ)
    → (t : Tasks) × (out : List Effect) × (create_task initial demo_name address
        ≡ some (some 1, t, out))
      × IsTasks t (0 ∷ 1 ∷ [])
      × ((t.tasks 0).pid ≡ pos 0)
      × ((t.tasks 1).pid ≡ pos 1)
unfolding init_task_manager
demo_created address =
    let ready = init_task_manager-IsTasks zero_tasks (λ i past. refl) in
    let slot = slot_one initial.tasks initial_entries.0 (ready.1 1 (omega arith) (omega arith)) in
    let made = create_task_lem initial (0 ∷ []) 1 demo_name address ready.0.0 (omega arith) slot in
    (
      made.0,
      _,
      made.1,
      (made.2, (0, made.6, inl refl)),
      made.7 0 (omega arith) ∙ initial_entries.1,
      made.3,
    )

-- The same state with the tasks and the scheduler that `start_tasks` leaves.
started : Kernel → Tasks → Kernel
started k t = record k { scheduler = start_scheduler fresh_scheduler; tasks = t }

started-IsStarted :
    (k : Kernel) (t : Tasks)
    → HasDevices k
    → IsTasks t (0 ∷ 1 ∷ [])
    → (t.tasks 0).pid ≡ pos 0
    → (t.tasks 1).pid ≡ pos 1
    → IsStarted (started k t)
unfolding started start_scheduler
started-IsStarted k t v l p q = record {
  order = record {
    listed = (0 ∷ 1 ∷ [], l);
    keyboard = v.keyboard;
    memory = v.memory;
    calls = v.calls;
    lines = v.lines;
    entry = v.entry;
  };
  list = l;
  kernel_pid = p;
  demo_pid = q;
  running = refl;
  idle = refl;
  current = refl;
}

start_tasks-IsStarted :
    (image : Image) (k : Kernel) → HasDevices k → Returns (start_tasks image k) IsStarted
unfolding start_tasks started
start_tasks-IsStarted image k v =
    let scheduler =
      ap (init_scheduler image.idle_task_function) v.tasks
      ∙ init_scheduler-zero_tasks image.idle_task_function in
    let demo = demo_created image.demo_task_address in
    rw (scheduler, demo.2) (started-IsStarted k demo.0 v demo.3 demo.4 demo.5)

enabled-IsStarted :
    (k : Kernel)
    → IsStarted k
    → IsStarted (record k { interrupts = enable_interrupts k.interrupts })
enabled-IsStarted k v = record {
  order = record {
    listed = v.order.listed;
    keyboard = v.order.keyboard;
    memory = v.order.memory;
    calls = v.order.calls;
    lines = v.order.lines;
    entry = v.order.entry;
  };
  list = v.list;
  kernel_pid = v.kernel_pid;
  demo_pid = v.demo_pid;
  running = v.running;
  idle = v.idle;
  current = v.current;
}

print-Returns :
    (t : Tasks) (xs : List ℕ) (pid : ℤ)
    → IsTasks t xs
    → Returns (prints (print_task_info_by_pid t pid)) (λ u. Unit {0})
print-Returns t xs pid v = rw (print_task_info_by_pid_lem t pid xs v.0.chain v.0.fits) tt

-- From a task table of zeros and a keyboard's buffer in order, whatever the other variables and memory
-- hold, `kernel_main` gets as far as enabling
-- interrupts: no walk goes on for ever. Then every component is in order, the task list has the
-- kernel's task and the demonstration's, with the PIDs 0 and 1, and the scheduler runs, but has
-- neither an idle task nor a current one.
pub start_up-IsStarted :
    (image : Image) (k : Kernel) → IsLoaded k → Returns (start_up image k) IsStarted
unfolding start_up
start_up-IsStarted image k v =
    bind-Returns HasDevices IsStarted (start_devices image k) _ (start_devices-HasDevices image k v)
      (λ k1 v1.
        bind-Returns IsStarted IsStarted (start_tasks image k1) _
          (start_tasks-IsStarted image k1 v1)
          (λ k2 v2. after_effects-Returns IsStarted (print_bytes tasks_now ∷ []) _ (
            bind-Returns (λ u. Unit {0}) IsStarted
              (prints (print_task_info_by_pid k2.tasks (pos 0))) _
              (print-Returns k2.tasks (0 ∷ 1 ∷ []) (pos 0) v2.list)
              (λ _ _.
                bind-Returns (λ u. Unit {0}) IsStarted
                  (prints (print_task_info_by_pid k2.tasks (pos 1))) _
                  (print-Returns k2.tasks (0 ∷ 1 ∷ []) (pos 1) v2.list)
                  (λ _ _. enabled-IsStarted k2 v2)))))
