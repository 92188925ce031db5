-- ===== src/Scheduler/Examples.antt =====
-- The scheduler's theorems on small inputs: a queue of two tasks, the first asleep.
use os_simple.Base.{inl, ◌≤◌, ℕ, Option, ◌≡◌, refl, some, none, [], ◌∷◌, if◌then◌else◌, ◌==◌, arith}
use os_simple.Base.Int.{pos}
use os_simple.Task.Table.{Tasks, ready, sleeping, zero_task, or_else}
use os_simple.Scheduler.State.{Scheduler, sched_running, sched_round_robin, clear_stats}
use os_simple.Scheduler.Choice.{
  get_next_fifo_task, find_highest_priority_task, get_next_round_robin_task,
}
use os_simple.Scheduler.Queue.{
  Queued, adding, removing, queue_calls, listed_all, queue_calls-Queued,
}
use os_simple.Scheduler.Highest.{Chosen, find_highest_priority_task_lem}
use os_simple.Scheduler.Policy.{first_ready, get_next_lem}
use os_simple.Scheduler.Preempting.{scheduler_ticks, scheduler_ticks_preempt}
use os_simple.Task.Keeping.{IsTasks}
use os_simple.Task.Examples.{two-IsTable}
use os_simple.Task.Examples as Table

abbrev two : Tasks
two = record {
  tasks = λ n.
      if n == 0
      then record zero_task { state = sleeping; next = some 1 }
      else record zero_task { state = ready };
  task_count = 2;
  current_task = none;
  task_list = some 0;
  next_pid = 2;
}

abbrev queued : Scheduler
queued = record {
  current = some 1;
  idle_task = none;
  state = sched_running;
  policy = sched_round_robin;
  time_slice = 10;
  ticks_remaining = 1;
  stats = clear_stats;
  task_queue_head = some 0;
  task_queue_tail = some 1;
}

get_next_example :
    (get_next_fifo_task queued two ≡ some (first_ready two.tasks none (0 ∷ 1 ∷ [])))
    × (get_next_round_robin_task queued two ≡ some (first_ready two.tasks none (0 ∷ 1 ∷ [])))
get_next_example =
    get_next_lem queued two (0 ∷ 1 ∷ []) (refl, (refl, refl)) (omega arith, tt) (omega arith)

-- Three ticks after the end of a slice, with the table of two tasks of which the first runs.
scheduler_ticks_preempt_example :
    (s' : Scheduler) × (t' : Tasks) × (scheduler_ticks 3 (some (queued, Table.two)) ≡ some (s', t'))
    × (s'.stats.preemptions ≡ 3)
    × (s'.ticks_remaining ≤ 1)
    × (s'.current ≡ some 1)
    × (s'.state ≡ sched_running)
    × IsTasks t' (0 ∷ 1 ∷ [])
scheduler_ticks_preempt_example =
    scheduler_ticks_preempt 3 queued Table.two 1 (0 ∷ 1 ∷ []) refl refl (omega arith) (omega arith)
      (two-IsTable, (0, refl, inl refl))

find_highest_priority_task_example :
    (r : Option ℕ) × (find_highest_priority_task queued two ≡ some (or_else r none))
    × Chosen two.tasks (pos 41) none (0 ∷ 1 ∷ []) r
find_highest_priority_task_example =
    find_highest_priority_task_lem queued two (0 ∷ 1 ∷ []) (refl, (refl, refl)) (omega arith)

-- Task 2 is added behind the two, and the first and the last are removed.
queue_calls-Queued_example :
    Queued
      (queue_calls (adding 2 ∷ removing 0 ∷ removing 2 ∷ []) (some (queued, two)))
      (listed_all (adding 2 ∷ removing 0 ∷ removing 2 ∷ []) (0 ∷ 1 ∷ []))
queue_calls-Queued_example =
    queue_calls-Queued (adding 2 ∷ removing 0 ∷ removing 2 ∷ []) (some (queued, two)) (0 ∷ 1 ∷ [])
      (omega arith) (omega arith)
      (record { chain = (refl, (refl, refl)); distinct = (omega arith, omega arith); tail = refl })
