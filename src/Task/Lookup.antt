-- ===== src/Task/Lookup.antt =====
-- kernel/task.c: `find_task`.
use os_simple.Base.{ℕ, zero, suc, Option, none, some, if◌then◌else◌}
use os_simple.Base.Int.{ℤ, eqb_ℤ}
use os_simple.Task.Table.{max_tasks, Task, Tasks}

-- The walk of `find_task`; the inner `none` is the null pointer that it returns.
unfoldable pub find_from : ℕ → (ℕ → Task) → ℤ → Option ℕ → Option (Option ℕ)
find_from zero tasks pid p = none
find_from (suc fuel) tasks pid none = some none
find_from (suc fuel) tasks pid (some n) =
    let more = find_from fuel tasks pid (tasks n).next in
    if eqb_ℤ (tasks n).pid pid then some (some n) else more

unfoldable pub find_task : Tasks → ℤ → Option (Option ℕ)
find_task t pid = find_from (suc max_tasks) t.tasks pid t.task_list
