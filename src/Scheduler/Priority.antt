-- ===== src/Scheduler/Priority.antt =====
-- kernel/scheduler.c: priorities and time slices.
use os_simple.Base.{ℕ, ◌+◌, Option, none, some, if◌then◌else◌, update}
use os_simple.Base.Int.{ℤ, pos_part, neg_part, sub_ℕ, ltb_ℤ}
use os_simple.Task.Table.{Tasks}
use os_simple.Scheduler.State.{
  Scheduler, min_time_slice, max_time_slice, min_priority, max_priority,
}

abbrev pub clamp : ℤ → ℤ → ℤ → ℤ
clamp low high x =
    let raised = if ltb_ℤ x low then low else x in if ltb_ℤ high raised then high else raised

-- `10 + (40 - priority)`.
abbrev pub slice_of : ℤ → ℤ
slice_of priority = sub_ℕ (50 + neg_part priority) (pos_part priority)

unfoldable pub calculate_time_slice : Scheduler → Tasks → Option ℕ → Scheduler
calculate_time_slice s t none = s
calculate_time_slice s t (some task) = record s {
  time_slice = pos_part (clamp min_time_slice max_time_slice (slice_of (t.tasks task).priority));
}

unfoldable pub set_task_priority : Scheduler → Tasks → Option ℕ → ℤ → Scheduler × Tasks
set_task_priority s t none priority = (s, t)
set_task_priority s t (some task) priority =
    let t' = record t {
      tasks =
          update t.tasks task
            (record (t.tasks task) { priority = clamp min_priority max_priority priority });
    } in
    (calculate_time_slice s t' (some task), t')
