-- ===== src/Scheduler/Choice.antt =====
-- kernel/scheduler.c: the three policies, by which the next task is chosen.
use os_simple.Base.{ℕ, zero, suc, ◌&&◌, Option, none, some, ◌==◌, if◌then◌else◌}
use os_simple.Base.Int.{ℤ, pos, ltb_ℤ}
use os_simple.Task.Table.{Task, Tasks, max_tasks, is_ready, or_else}
use os_simple.Scheduler.State.{sched_round_robin, sched_priority, sched_fifo, Scheduler}

-- The `do … while` loop of `get_next_round_robin_task`, with the head of the queue at `start`.
unfoldable pub round_robin_from : ℕ → (ℕ → Task) → ℕ → Option ℕ → ℕ → Option (Option ℕ)
round_robin_from zero tasks start idle current = none
round_robin_from (suc fuel) tasks start idle current = elim (tasks current).next [
  | none ↦ if is_ready (tasks current).state then some (some current) else some idle
  | some n ↦
      let rest = round_robin_from fuel tasks start idle n in
      if is_ready (tasks current).state
      then some (some current)
      else if n == start
      then some idle
      else rest
]

unfoldable pub get_next_round_robin_task : Scheduler → Tasks → Option (Option ℕ)
get_next_round_robin_task s t = elim s.task_queue_head [
  | none ↦ some s.idle_task
  | some head ↦ round_robin_from (suc max_tasks) t.tasks head s.idle_task head
]

unfoldable pub fifo_from : ℕ → (ℕ → Task) → Option ℕ → Option ℕ → Option (Option ℕ)
fifo_from zero tasks idle current = none
fifo_from (suc fuel) tasks idle none = some idle
fifo_from (suc fuel) tasks idle (some c) =
    let rest = fifo_from fuel tasks idle (tasks c).next in
    if is_ready (tasks c).state then some (some c) else rest

unfoldable pub get_next_fifo_task : Scheduler → Tasks → Option (Option ℕ)
get_next_fifo_task s t = fifo_from (suc max_tasks) t.tasks s.idle_task s.task_queue_head

-- The loop of `find_highest_priority_task`, with its two variables.
unfoldable pub highest_from : ℕ → (ℕ → Task) → ℤ → Option ℕ → Option ℕ → Option (Option ℕ)
highest_from zero tasks highest best current = none
highest_from (suc fuel) tasks highest best none = some best
highest_from (suc fuel) tasks highest best (some c) =
    let better = is_ready (tasks c).state && ltb_ℤ (tasks c).priority highest in
    highest_from fuel tasks (if better then (tasks c).priority else highest)
      (if better then some c else best) (tasks c).next

unfoldable pub find_highest_priority_task : Scheduler → Tasks → Option (Option ℕ)
find_highest_priority_task s t =
    elim (highest_from (suc max_tasks) t.tasks (pos 41) none s.task_queue_head) [
      | none ↦ none
      | some best ↦ some (or_else best s.idle_task)
    ]

unfoldable pub get_next_task : Scheduler → Tasks → Option (Option ℕ)
get_next_task s t = elim s.policy [
  | sched_round_robin ↦ get_next_round_robin_task s t
  | sched_priority ↦ find_highest_priority_task s t
  | sched_fifo ↦ get_next_fifo_task s t
]
