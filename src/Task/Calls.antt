-- ===== src/Task/Calls.antt =====
-- Any sequence of the task manager's calls, from `init_task_manager` on.
use os_simple.Base.{
  ℕ, ◌<◌, ◌≡◌, refl, ap, ◌∙◌, false, List, [], ◌∷◌, ◌++◌, Option, none, some, leb, inl, inr,
  Bool-cases, length, arith,
}
use os_simple.Base.Effects.{Effect, print_string}
use os_simple.Task.Table.{Tasks, TaskState, ready, sleeping, zombie, is_sleeping, set_state}
use os_simple.Task.Creating.{find_slot, create_task}
use os_simple.Task.Switching.{schedule, exited, exit_at, task_exit, sleep_at, task_sleep, task_wake}
use os_simple.Task.Creation.{create_task_lem}
use os_simple.Task.Keeping.{
  IsTasks, SameLinks-IsTable, state-SameLinks, Occurs-append, schedule-IsTasks,
}

pub data TaskCall : Type 0 where
  creates : List ℕ → ℕ → TaskCall
  schedules : TaskCall
  exits : TaskCall
  sleeps : TaskCall
  wakes : Option ℕ → TaskCall

-- The state after a call, or `none` when the call does not end.
abbrev after_create : Option (Option ℕ × Tasks × List Effect) → Option Tasks
after_create none = none
after_create (some (p, t, out)) = some t

abbrev after_exit : Option (Tasks × List Effect) → Option Tasks
after_exit none = none
after_exit (some (t, out)) = some t

unfoldable pub call : Tasks → TaskCall → Option Tasks
call t (creates name entry_point) = after_create (create_task t name entry_point)
call t schedules = schedule t
call t exits = after_exit (task_exit t)
call t sleeps = task_sleep t
call t (wakes p) = some (task_wake t p)

unfoldable pub call_all : Tasks → List TaskCall → Option Tasks
call_all t [] = some t
call_all t (c ∷ cs) = elim (call t c) [ none ↦ none | some t' ↦ call_all t' cs ]

-- Storing a state keeps the table and the current task.
set_state-IsTasks :
    (t : Tasks) (xs : List ℕ) (i : ℕ) (s : TaskState) → IsTasks t xs → IsTasks (set_state t i s) xs
set_state-IsTasks t xs i s ok = (
  SameLinks-IsTable t (set_state t i s).tasks t.current_task xs (state-SameLinks t.tasks i s) ok.0,
  ok.1,
)

create_at-IsTasks :
    (t : Tasks) (xs : List ℕ) (name : List ℕ) (entry_point : ℕ) (slot : Option ℕ)
    → find_slot 64 0 t.tasks ≡ slot
    → length xs < 64
    → IsTasks t xs
    → (p : Option ℕ) × (t' : Tasks) × (out : List Effect) × (xs' : List ℕ) × (create_task t name
          entry_point
        ≡ some (p, t', out))
      × IsTasks t' xs'
unfolding create_task
create_at-IsTasks t xs name entry_point none found l ok =
    let room : leb 64 t.task_count ≡ false = ground (arith, ok.0.counted) in
    (none, t, print_string "[ERROR] No free task slot\n" ∷ [], xs, rw (room, found) refl, ok)
create_at-IsTasks t xs name entry_point (some s) found l ok =
    let made = create_task_lem t xs s name entry_point ok.0 l found in
    let on = Occurs-append ok.1.0 xs (s ∷ []) (inl ok.1.2) in
    (some s, made.0, _, xs ++ s ∷ [], made.1, (made.2, (ok.1.0, made.6 ∙ ok.1.1, on)))

-- With the table in order and the current task on the list, `create_task` returns, and keeps both.
pub create-IsTasks :
    (t : Tasks) (xs : List ℕ) (name : List ℕ) (entry_point : ℕ)
    → IsTasks t xs
    → (p : Option ℕ) × (t' : Tasks) × (out : List Effect) × (xs' : List ℕ) × (create_task t name
          entry_point
        ≡ some (p, t', out))
      × IsTasks t' xs'
unfolding create_task
create-IsTasks t xs name entry_point ok = elim (Bool-cases (leb 64 t.task_count)) [
  | inl full ↦ (none, t, print_string "[ERROR] Maximum tasks reached\n" ∷ [], xs, rw full refl, ok)
  | inr room ↦
      create_at-IsTasks t xs name entry_point (find_slot 64 0 t.tasks) refl
        (ground (arith, ok.0.counted)) ok
]

-- One call.
call-IsTasks :
    (t : Tasks) (xs : List ℕ) (c : TaskCall)
    → IsTasks t xs
    → (t' : Tasks) × (xs' : List ℕ) × (call t c ≡ some t') × IsTasks t' xs'
unfolding call task_exit task_sleep task_wake
call-IsTasks t xs (creates name entry_point) ok =
    let made = create-IsTasks t xs name entry_point ok in
    (made.1, made.3, ap after_create made.4, made.5)
call-IsTasks t xs schedules ok = let run = schedule-IsTasks t xs ok in (run.0, xs, run.1, run.2)
call-IsTasks t xs exits ok =
    let run =
      schedule-IsTasks (set_state t ok.1.0 zombie) xs (set_state-IsTasks t xs ok.1.0 zombie ok) in
    (
      run.0,
      xs,
      ap (λ p. after_exit (exit_at t p)) ok.1.1
          ∙ ap (λ r. after_exit (exited (t.tasks ok.1.0) r)) run.1,
      run.2,
    )
call-IsTasks t xs sleeps ok =
    let run =
      schedule-IsTasks (set_state t ok.1.0 sleeping) xs
        (set_state-IsTasks t xs ok.1.0 sleeping ok) in
    (run.0, xs, ap (sleep_at t) ok.1.1 ∙ run.1, run.2)
call-IsTasks t xs (wakes none) ok = (t, xs, refl, ok)
call-IsTasks t xs (wakes (some i)) ok = elim (Bool-cases (is_sleeping (t.tasks i).state)) [
  | inl asleep ↦ (set_state t i ready, xs, rw asleep refl, set_state-IsTasks t xs i ready ok)
  | inr awake ↦ (t, xs, rw awake refl, ok)
]

-- With the table in order and the current task on the list, any sequence of creations, scheduling,
-- exits, sleeps and wakes ends, with no walk that goes on for ever, and leaves a table in order
-- with the current task on the list.
pub call_all-IsTasks :
    (t : Tasks) (xs : List ℕ) (cs : List TaskCall)
    → IsTasks t xs
    → (t' : Tasks) × (xs' : List ℕ) × (call_all t cs ≡ some t') × IsTasks t' xs'
unfolding call_all
call_all-IsTasks t xs [] ok = (t, xs, refl, ok)
call_all-IsTasks t xs (c ∷ cs) ok =
    let (t1, xs1, e, ok1) = call-IsTasks t xs c ok in
    let (t2, xs2, e2, ok2) = call_all-IsTasks t1 xs1 cs ok1 in (t2, xs2, rw (call_all, e) e2, ok2)
