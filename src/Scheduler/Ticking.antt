-- ===== src/Scheduler/Ticking.antt =====
-- kernel/scheduler.c: the initialisation, the tick, and the calls that reach `schedule`.
use os_simple.Base.{
  ℕ, ◌-◌, List, [], ◌∷◌, Option, none, some, ◌==◌, if◌then◌else◌, update, add32, ltb,
}
use os_simple.Base.Effects.{Effect}
use os_simple.Task.Table.{Tasks, ready, points_to, set_state}
use os_simple.Task.Creating.{create_task}
use os_simple.Task.Switching.{schedule}
use os_simple.Scheduler.State.{Scheduler, fresh_scheduler, is_sched_running}

abbrev pub idle_name : List ℕ
idle_name = b'i' ∷ b'd' ∷ b'l' ∷ b'e' ∷ []

-- The end of `create_idle_task`, by the pointer that `create_task` has returned.
abbrev pub ready_idle : Tasks → Option ℕ → Tasks
ready_idle t none = t
ready_idle t (some i) = set_state t i ready

-- `create_idle_task`, where the address of `idle_task_function` is a parameter.
unfoldable pub create_idle_task : ℕ → Scheduler → Tasks → Option (Scheduler × Tasks × List Effect)
create_idle_task idle_task_function s t = elim (create_task t idle_name idle_task_function) [
  | none ↦ none
  | some (created, t', out) ↦ some (record s { idle_task = created }, ready_idle t' created, out)
]

-- `setup_scheduler_timer`, the last call, is empty.
unfoldable pub init_scheduler : ℕ → Tasks → Option (Scheduler × Tasks × List Effect)
init_scheduler idle_task_function t = create_idle_task idle_task_function fresh_scheduler t

unfoldable pub update_task_runtime : Scheduler → Option ℕ → ℕ → Scheduler
update_task_runtime s none ticks = s
update_task_runtime s (some task) ticks =
    if points_to s.idle_task task
    then record s { stats = record s.stats { idle_time = add32 s.stats.idle_time ticks } }
    else record s { stats = record s.stats { active_time = add32 s.stats.active_time ticks } }

abbrev pub make_ready : Tasks → Option ℕ → Tasks
make_ready t none = t
make_ready t (some i) = set_state t i ready

unfoldable pub yield : Scheduler → Tasks → Option Tasks
yield s t = schedule (make_ready t s.current)

abbrev pub yielded : Scheduler → Option Tasks → Option (Scheduler × Tasks)
yielded s none = none
yielded s (some t) = some (s, t)

-- One tick with a current task, after its runtime is counted.
abbrev pub spend_tick : Scheduler → Tasks → Option (Scheduler × Tasks)
spend_tick s t =
    let left = if ltb 0 s.ticks_remaining then s.ticks_remaining - 1 else s.ticks_remaining in
    if left == 0
    then yielded
        (record s {
          ticks_remaining = left;
          stats = record s.stats { preemptions = add32 s.stats.preemptions 1 };
        })
        (yield s t)
    else some (record s { ticks_remaining = left }, t)

abbrev pub tick_at : Scheduler → Tasks → Option ℕ → Option (Scheduler × Tasks)
tick_at s t none = some (s, t)
tick_at s t (some c) = spend_tick (update_task_runtime s (some c) 1) t

unfoldable pub scheduler_tick : Scheduler → Tasks → Option (Scheduler × Tasks)
scheduler_tick s t =
    let counted = record s {
      stats = record s.stats { timer_ticks = add32 s.stats.timer_ticks 1 };
    } in
    if is_sched_running s.state then tick_at counted t s.current else some (counted, t)

-- `switch_context`: what the C code does of the saving is `from->esp = 0`.
unfoldable pub switch_context : Tasks → Option ℕ → Option ℕ → Tasks
switch_context t none to = t
switch_context t (some from) to = record t {
  tasks = update t.tasks from (record (t.tasks from) { esp = 0 });
}

unfoldable pub force_schedule : Scheduler → Tasks → Option (Scheduler × Tasks)
force_schedule s t = elim (schedule t) [
  | none ↦ none
  | some t' ↦ some (record s { ticks_remaining = 0 }, t')
]
