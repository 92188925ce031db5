-- ===== src/Scheduler/State.antt =====
-- kernel/scheduler.h, and the static variables of kernel/scheduler.c; starting and stopping.
use os_simple.Base.{ℕ, Bool, true, false, Option, none}
use os_simple.Base.Int.{ℤ, pos}
use os_simple.Task.Table.{or_else}

pub data SchedulerState : Type 0 where
  sched_running sched_stopped sched_paused : SchedulerState

pub data SchedPolicy : Type 0 where
  sched_round_robin sched_priority sched_fifo : SchedPolicy

pub record SchedulerStats : Type 0 where
  pub total_switches : ℕ
  pub idle_time : ℕ
  pub active_time : ℕ
  pub timer_ticks : ℕ
  pub preemptions : ℕ
  pub last_scheduled : Option ℕ

-- `scheduler` and the two ends of the task queue.
pub record Scheduler : Type 0 where
  pub current : Option ℕ
  pub idle_task : Option ℕ
  pub state : SchedulerState
  pub policy : SchedPolicy
  pub time_slice : ℕ
  pub ticks_remaining : ℕ
  pub stats : SchedulerStats
  pub task_queue_head : Option ℕ
  pub task_queue_tail : Option ℕ

abbrev pub default_time_slice : ℕ
default_time_slice = 10

abbrev pub min_time_slice : ℤ
min_time_slice = pos 1

abbrev pub max_time_slice : ℤ
max_time_slice = pos 50

abbrev pub min_priority : ℤ
min_priority = pos 0

abbrev pub max_priority : ℤ
max_priority = pos 40

abbrev pub clear_stats : SchedulerStats
clear_stats = record {
  total_switches = 0;
  idle_time = 0;
  active_time = 0;
  timer_ticks = 0;
  preemptions = 0;
  last_scheduled = none;
}

-- The state that `init_scheduler` stores.
abbrev pub fresh_scheduler : Scheduler
fresh_scheduler = record {
  current = none;
  idle_task = none;
  state = sched_stopped;
  policy = sched_round_robin;
  time_slice = default_time_slice;
  ticks_remaining = default_time_slice;
  stats = clear_stats;
  task_queue_head = none;
  task_queue_tail = none;
}

abbrev pub is_sched_running : SchedulerState → Bool
is_sched_running sched_running = true
is_sched_running sched_stopped = false
is_sched_running sched_paused = false

unfoldable pub start_scheduler : Scheduler → Scheduler
start_scheduler s = record s { state = sched_running; current = or_else s.current s.idle_task }

unfoldable pub stop_scheduler : Scheduler → Scheduler
stop_scheduler s = record s { state = sched_stopped }

unfoldable pub is_scheduler_running : Scheduler → Bool
is_scheduler_running s = is_sched_running s.state
