-- ===== src/Task/Switching.antt =====
-- kernel/task.c: `schedule`, and the functions that change the state of a task.
use os_simple.Base.{
  ℕ, zero, suc, ◌*◌, not, ◌&&◌, List, [], ◌∷◌, Option, none, some, ◌==◌, if◌then◌else◌, update,
}
use os_simple.Base.Effects.{Effect, print_string, print_name}
use os_simple.Task.Table.{
  running, ready, sleeping, zombie, max_tasks, Task, Tasks, is_ready, is_running, is_sleeping,
  points_to, or_else, set_state,
}

-- The search of `schedule` at the pointer `p`, with the current task `c` and the list's head.
unfoldable pub next_runnable : ℕ → (ℕ → Task) → ℕ → Option ℕ → Option ℕ → Option (Option ℕ)
next_runnable zero tasks c head p = none
next_runnable (suc fuel) tasks c head none = some none
next_runnable (suc fuel) tasks c head (some n) =
    let after = or_else (tasks n).next head in
    let more = next_runnable fuel tasks c head after in
    if not (is_ready (tasks n).state) && not (is_running (tasks n).state)
    then (if points_to after c then some after else more)
    else some (some n)

-- Making entry `n` the current one, from entry `c`.
abbrev pub switch_from : Tasks → ℕ → ℕ → Tasks
switch_from t c n =
    let started = update t.tasks n (record (t.tasks n) { state = running }) in
    record t {
      current_task = some n;
      tasks =
          if is_running (started c).state
          then update started c (record (started c) { state = ready })
          else started;
    }

-- The end of `schedule`, by what the search has found.
abbrev pub settle : Tasks → ℕ → Option (Option ℕ) → Option Tasks
settle t c none = none
settle t c (some none) = some t
settle t c (some (some n)) = some (if not (n == c) then switch_from t c n else t)

-- The search of `schedule`, by the `next` of the current entry `c`. Twice the table's size is more
-- rounds than it can need.
abbrev pub schedule_after : Tasks → ℕ → Option ℕ → Option Tasks
schedule_after t c none = some t
schedule_after t c (some n) =
    settle t c (next_runnable (2 * max_tasks) t.tasks c t.task_list (some n))

abbrev pub schedule_at : Tasks → Option ℕ → Option Tasks
schedule_at t none = some t
schedule_at t (some c) = schedule_after t c (t.tasks c).next

unfoldable pub schedule : Tasks → Option Tasks
schedule t = schedule_at t t.current_task

-- The end of `task_exit`, with the message of entry `c` and what `schedule` gives.
abbrev pub exited : Task → Option Tasks → Option (Tasks × List Effect)
exited task none = none
exited task (some t) =
    some (t, print_string "[TASK] Task " ∷ print_name task.name ∷ print_string " exited\n" ∷ [])

abbrev pub exit_at : Tasks → Option ℕ → Option (Tasks × List Effect)
exit_at t none = some (t, [])
exit_at t (some c) = exited (t.tasks c) (schedule (set_state t c zombie))

unfoldable pub task_exit : Tasks → Option (Tasks × List Effect)
task_exit t = exit_at t t.current_task

abbrev pub sleep_at : Tasks → Option ℕ → Option Tasks
sleep_at t none = some t
sleep_at t (some c) = schedule (set_state t c sleeping)

unfoldable pub task_sleep : Tasks → Option Tasks
task_sleep t = sleep_at t t.current_task

unfoldable pub task_wake : Tasks → Option ℕ → Tasks
task_wake t p = elim p [
  | none ↦ t
  | some i ↦ if is_sleeping (t.tasks i).state then set_state t i ready else t
]

-- `save_task_context` and `restore_task_context` are empty.
unfoldable pub switch_to_task : Tasks → Option ℕ → Tasks
switch_to_task t p = record t { current_task = p }
