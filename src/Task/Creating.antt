-- ===== src/Task/Creating.antt =====
-- kernel/task.c: `init_task_manager` and `create_task`.
use os_simple.Base.{
  ℕ, zero, suc, ◌+◌, List, [], ◌∷◌, Option, none, some, leb, if◌then◌else◌, update,
}
use os_simple.Base.Int.{ℤ, pos, eqb_ℤ}
use os_simple.Base.Effects.{Effect, print_string, print_bytes}
use os_simple.Task.Table.{running, ready, zombie, max_tasks, invalid_pid, Task, Tasks}

-- `for (i = 0; i < 15 && source[i]; i++) name[i] = source[i]`, with `left` rounds to go.
unfoldable pub copy_name : ℕ → ℕ → List ℕ → (ℕ → ℕ) → ℕ → ℕ
copy_name zero i source name = name
copy_name (suc left) i [] name = name
copy_name (suc left) i (c ∷ source) name = copy_name left (i + 1) source (update name i c)

abbrev pub set_name : List ℕ → (ℕ → ℕ) → ℕ → ℕ
set_name source name = update (copy_name 15 0 source name) 15 0

-- The first loop of `init_task_manager`.
unfoldable pub clear_tasks : ℕ → ℕ → (ℕ → Task) → ℕ → Task
clear_tasks zero i tasks = tasks
clear_tasks (suc left) i tasks =
    clear_tasks left (i + 1)
      (update tasks i (record (tasks i) { pid = invalid_pid; state = zombie; next = none }))

abbrev pub kernel_name : List ℕ
kernel_name = b'k' ∷ b'e' ∷ b'r' ∷ b'n' ∷ b'e' ∷ b'l' ∷ []

unfoldable pub init_task_manager : Tasks → Tasks × List Effect
init_task_manager t =
    let cleared = clear_tasks max_tasks 0 t.tasks in
    let kernel = record (cleared 0) {
      pid = pos 0;
      state = running;
      priority = pos 0;
      parent_pid = invalid_pid;
      name = set_name kernel_name (cleared 0).name;
    } in
    (
      record t {
        tasks = update cleared 0 kernel;
        current_task = some 0;
        task_list = some 0;
        task_count = 1;
      },
      print_string "[TASK] Task manager initialized\n" ∷ [],
    )

-- The loop of `create_task` that looks for an unused entry from index `i` on.
unfoldable pub find_slot : ℕ → ℕ → (ℕ → Task) → Option ℕ
find_slot zero i tasks = none
find_slot (suc left) i tasks =
    let more = find_slot left (i + 1) tasks in
    if eqb_ℤ (tasks i).pid invalid_pid then some i else more

-- `while (last->next) last = last->next`.
unfoldable pub last_task : ℕ → (ℕ → Task) → ℕ → Option ℕ
last_task zero tasks last = none
last_task (suc fuel) tasks last = elim (tasks last).next [
  | none ↦ some last
  | some n ↦ last_task fuel tasks n
]

abbrev pub pid_of : (ℕ → Task) → Option ℕ → ℤ
pid_of tasks none = invalid_pid
pid_of tasks (some c) = (tasks c).pid

-- The entry that `create_task` fills.
abbrev pub new_task : Tasks → ℕ → List ℕ → ℕ → Task
new_task t slot name entry_point = record (t.tasks slot) {
  pid = pos t.next_pid;
  state = ready;
  priority = pos 10;
  parent_pid = pid_of t.tasks t.current_task;
  eip = entry_point;
  name = set_name name (t.tasks slot).name;
}

-- The end of the walk of `create_task`: `last->next = new_task`.
abbrev pub link_after : Tasks → ℕ → Option ℕ → Option Tasks
link_after t slot none = none
link_after t slot (some last) =
    some (record t { tasks = update t.tasks last (record (t.tasks last) { next = some slot }) })

-- Linking the new entry at the end of the list: `none` when the walk has not ended.
abbrev pub link_at : Tasks → ℕ → Option ℕ → Option Tasks
link_at t slot none = some (record t { task_list = some slot })
link_at t slot (some first) = link_after t slot (last_task (suc max_tasks) t.tasks first)

abbrev pub link_task : Tasks → ℕ → Option Tasks
link_task t slot = link_at t slot t.task_list

-- The end of `create_task`, once the new entry is linked.
abbrev pub announce : ℕ → List ℕ → Option Tasks → Option (Option ℕ × Tasks × List Effect)
announce slot name none = none
announce slot name (some linked) = some (
  some slot,
  record linked { task_count = linked.task_count + 1 },
  print_string "[TASK] Created task: " ∷ print_bytes name ∷ print_string "\n" ∷ [],
)

-- `create_task` with the entry that its first loop has found.
abbrev pub create_at : Tasks → List ℕ → ℕ → Option ℕ → Option (Option ℕ × Tasks × List Effect)
create_at t name entry_point none = some (none, t, print_string "[ERROR] No free task slot\n" ∷ [])
create_at t name entry_point (some slot) = announce slot name (
    link_task
      (record t {
        tasks = update t.tasks slot (new_task t slot name entry_point);
        next_pid = t.next_pid + 1;
      })
      slot)

-- The pointer that `create_task` returns, the new state, and what it prints.
unfoldable pub create_task : Tasks → List ℕ → ℕ → Option (Option ℕ × Tasks × List Effect)
create_task t name entry_point =
    if leb max_tasks t.task_count
    then some (none, t, print_string "[ERROR] Maximum tasks reached\n" ∷ [])
    else create_at t name entry_point (find_slot max_tasks 0 t.tasks)
