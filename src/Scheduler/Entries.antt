-- ===== src/Scheduler/Entries.antt =====
-- kernel/scheduler.c: adding a task to the queue, and removing one.
use os_simple.Base.{ℕ, zero, suc, Option, none, some, ◌==◌, if◌then◌else◌, update}
use os_simple.Task.Table.{Task, Tasks, ready, max_tasks, points_to}
use os_simple.Scheduler.State.{Scheduler}

-- `task->next = 0; task->state = TASK_READY`.
abbrev pub entered : Tasks → ℕ → Tasks
entered t task = record t {
  tasks = update t.tasks task (record (t.tasks task) { next = none; state = ready });
}

-- `task_queue_tail->next = task`.
abbrev pub link_tail : Tasks → ℕ → Option ℕ → Tasks
link_tail t task none = t
link_tail t task (some tail) = record t {
  tasks = update t.tasks tail (record (t.tasks tail) { next = some task });
}

-- `add_task_to_scheduler`, by the head and the tail of the queue.
abbrev pub add_at : Scheduler → Tasks → ℕ → Option ℕ → Option ℕ → Scheduler × Tasks
add_at s t task none tail =
    (record s { task_queue_head = some task; task_queue_tail = some task }, entered t task)
add_at s t task (some head) tail =
    (record s { task_queue_tail = some task }, link_tail (entered t task) task tail)

unfoldable pub add_task_to_scheduler : Scheduler → Tasks → Option ℕ → Scheduler × Tasks
add_task_to_scheduler s t none = (s, t)
add_task_to_scheduler s t (some task) = add_at s t task s.task_queue_head s.task_queue_tail

-- The walk of `remove_task_from_scheduler`, to the last entry or the one before `task`.
unfoldable pub before_task : ℕ → (ℕ → Task) → ℕ → ℕ → Option ℕ
before_task zero tasks task current = none
before_task (suc fuel) tasks task current = elim (tasks current).next [
  | none ↦ some current
  | some n ↦ let rest = before_task fuel tasks task n in if n == task then some current else rest
]

-- The head is removed.
abbrev pub remove_head : Scheduler → Tasks → ℕ → Scheduler × Tasks
remove_head s t task = (
  record s {
    task_queue_head = (t.tasks task).next;
    task_queue_tail = if points_to s.task_queue_tail task then none else s.task_queue_tail;
  },
  t,
)

-- The entry after `current` is removed, if it is `task`.
abbrev pub remove_next : Scheduler → Tasks → ℕ → ℕ → Scheduler × Tasks
remove_next s t task current =
    if points_to (t.tasks current).next task
    then (
      record s {
        task_queue_tail =
            if points_to s.task_queue_tail task then some current else s.task_queue_tail;
      },
      record t {
        tasks = update t.tasks current (record (t.tasks current) { next = (t.tasks task).next });
      },
    )
    else (s, t)

abbrev pub remove_after : Scheduler → Tasks → ℕ → Option ℕ → Option (Scheduler × Tasks)
remove_after s t task none = none
remove_after s t task (some current) = some (remove_next s t task current)

-- `remove_task_from_scheduler`, by the head of the queue.
abbrev pub remove_at : Scheduler → Tasks → ℕ → Option ℕ → Option (Scheduler × Tasks)
remove_at s t task none = some (s, t)
remove_at s t task (some head) =
    if head == task
    then some (remove_head s t task)
    else remove_after s t task (before_task (suc max_tasks) t.tasks task head)

unfoldable pub remove_task_from_scheduler :
    Scheduler → Tasks → Option ℕ → Option (Scheduler × Tasks)
remove_task_from_scheduler s t none = some (s, t)
remove_task_from_scheduler s t (some task) = remove_at s t task s.task_queue_head
