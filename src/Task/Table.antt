-- ===== src/Task/Table.antt =====
-- kernel/task.h, and the static variables of kernel/task.c: the entries of the task table, and tests on
-- their states and on pointers to them.
use os_simple.Base.{ℕ, Bool, true, false, ◌||◌, Option, none, some, ◌==◌, update}
use os_simple.Base.Int.{ℤ, pos, negsuc}

pub data TaskState : Type 0 where
  running ready sleeping zombie : TaskState

abbrev pub max_tasks : ℕ
max_tasks = 64

abbrev pub invalid_pid : ℤ
invalid_pid = negsuc 0

pub record Task : Type 0 where
  pub pid : ℤ
  pub state : TaskState
  pub priority : ℤ
  pub esp : ℕ
  pub ebp : ℕ
  pub eip : ℕ
  pub cr3 : ℕ
  pub name : ℕ → ℕ
  pub parent_pid : ℤ
  pub start_time : ℕ
  pub next : Option ℕ

pub record Tasks : Type 0 where
  pub tasks : ℕ → Task
  pub task_count : ℕ
  pub current_task : Option ℕ
  pub task_list : Option ℕ
  pub next_pid : ℕ

-- The static variables before `init_task_manager`: all zero, but for the first PID.
abbrev pub zero_task : Task
zero_task = record {
  pid = pos 0;
  state = running;
  priority = pos 0;
  esp = 0;
  ebp = 0;
  eip = 0;
  cr3 = 0;
  name = λ i. 0;
  parent_pid = pos 0;
  start_time = 0;
  next = none;
}

abbrev pub zero_tasks : Tasks
zero_tasks = record {
  tasks = λ i. zero_task;
  task_count = 0;
  current_task = none;
  task_list = none;
  next_pid = 1;
}

abbrev pub is_ready : TaskState → Bool
is_ready running = false
is_ready ready = true
is_ready sleeping = false
is_ready zombie = false

abbrev pub is_running : TaskState → Bool
is_running running = true
is_running ready = false
is_running sleeping = false
is_running zombie = false

abbrev pub is_sleeping : TaskState → Bool
is_sleeping running = false
is_sleeping ready = false
is_sleeping sleeping = true
is_sleeping zombie = false

abbrev pub runnable : TaskState → Bool
runnable s = is_ready s || is_running s

-- Whether a pointer is the one to entry `c`.
abbrev pub points_to : Option ℕ → ℕ → Bool
points_to none c = false
points_to (some n) c = n == c

abbrev pub or_else : Option ℕ → Option ℕ → Option ℕ
or_else none q = q
or_else (some n) q = some n

abbrev pub set_state : Tasks → ℕ → TaskState → Tasks
set_state t i s = record t { tasks = update t.tasks i (record (t.tasks i) { state = s }) }
