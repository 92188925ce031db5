-- ===== src/Task/Examples.antt =====
-- The task manager's theorems on small inputs: the kernel's task alone, and two tasks after it.
use os_simple.Base.{
  ℕ, ◌≡◌, ◌≢◌, refl, some, true, false, [], ◌∷◌, if◌then◌else◌, ◌==◌, inl, inr, Bool-cases, arith,
}
use os_simple.Base.Int.{pos, negsuc}
use os_simple.Base.Effects.{print_string, print_bytes}
use os_simple.Task.Table.{Task, Tasks, ready, running, zombie, zero_task}
use os_simple.Task.Creating.{find_slot, create_task}
use os_simple.Task.Switching.{schedule}
use os_simple.Task.Linking.{IsTable}
use os_simple.Task.Creation.{create_task_lem}
use os_simple.Task.Turns.{Turn, schedule-Turn}
use os_simple.Task.Keeping.{IsTasks}
use os_simple.Task.Calls.{
  TaskCall, creates, schedules, exits, sleeps, wakes, call_all, call_all-IsTasks,
}
use os_simple.Task.Listing.{print_task_info, lines_of, name_text, print_task_info_lem}
use os_simple.Base.{List}
use os_simple.Base.Effects.{print_string}

abbrev free_task : Task
free_task = record zero_task { pid = negsuc 0; state = zombie }

abbrev entries : ℕ → Task
entries n =
    if n == 0
    then record zero_task { pid = pos 0; state = running; next = some 1 }
    else if n == 1
    then record zero_task { pid = pos 1; state = zombie; next = some 2 }
    else if n == 2
    then record zero_task { pid = pos 2; state = ready }
    else free_task

abbrev pub three : Tasks
three = record {
  tasks = entries;
  task_count = 3;
  current_task = some 0;
  task_list = some 0;
  next_pid = 3;
}

-- The kernel's task is running, the next has exited, and the third is ready.
schedule-Turn_example : (r : Tasks) × (schedule three ≡ some r) × Turn three 0 2 r
schedule-Turn_example =
    schedule-Turn three 0 1 (2 ∷ []) [] refl (refl, (refl, (refl, refl))) (refl, (refl, refl))
      (omega arith, tt) tt (omega arith)

abbrev pub one : Tasks
one = record {
  tasks = λ n. if n == 0 then record zero_task { state = running } else free_task;
  task_count = 1;
  current_task = some 0;
  task_list = some 0;
  next_pid = 1;
}

one-IsTable : IsTable one (0 ∷ [])
one-IsTable = record {
  chain = (refl, refl);
  distinct = (tt, tt);
  used = (refl, tt);
  counted = refl;
  fits = omega arith;
  unlinked =
      λ i free. elim (Bool-cases (i == 0)) [ inl hit ↦ rw hit refl | inr miss ↦ rw miss refl ];
}

slot_found : find_slot 64 0 one.tasks ≡ some 1
unfolding find_slot
slot_found = refl

create_task_example :
    (t' : Tasks) × (create_task one (b'a' ∷ []) 4096
      ≡ some (
        some 1,
        t',
        print_string "[TASK] Created task: " ∷ print_bytes (b'a' ∷ []) ∷ print_string "\n" ∷ [],
      ))
    × IsTable t' (0 ∷ 1 ∷ [])
    × ((t'.tasks 1).pid ≡ pos 1)
    × ((t'.tasks 1).eip ≡ 4096)
    × (t'.next_pid ≡ 2)
    × (t'.current_task ≡ some 0)
    × ((i : ℕ) → i ≢ 1 → (t'.tasks i).pid ≡ (one.tasks i).pid)
create_task_example =
    create_task_lem one (0 ∷ []) 1 (b'a' ∷ []) 4096 one-IsTable (omega arith) slot_found

-- A task is created, the kernel's sleeps, the new one exits, and the kernel's is woken.
abbrev calls : List TaskCall
calls = creates (b'a' ∷ []) 4096 ∷ sleeps ∷ exits ∷ wakes (some 0) ∷ schedules ∷ []

call_all-IsTasks_example :
    (t' : Tasks) × (xs' : List ℕ) × (call_all one calls ≡ some t') × IsTasks t' xs'
call_all-IsTasks_example = call_all-IsTasks one (0 ∷ []) calls (one-IsTable, (0, refl, inl refl))

print_task_info_example :
    print_task_info three
    ≡ some (
        print_string "\n=== Task Information ===\n"
        ∷ print_string "Current task: "
        ∷ name_text entries (some 0)
        ∷ print_string "\n"
        ∷ print_string "Task list:\n"
        ∷ lines_of entries (0 ∷ 1 ∷ 2 ∷ []) (print_string "========================\n" ∷ []))
print_task_info_example =
    print_task_info_lem three (0 ∷ 1 ∷ 2 ∷ []) (refl, (refl, (refl, refl))) (omega arith)

-- The kernel's task, and one after it that is ready.
abbrev pub two : Tasks
two = record {
  tasks = λ n.
      if n == 0
      then record zero_task { pid = pos 0; state = running; next = some 1 }
      else if n == 1
      then record zero_task { pid = pos 1; state = ready }
      else free_task;
  task_count = 2;
  current_task = some 0;
  task_list = some 0;
  next_pid = 2;
}

pub two-IsTable : IsTable two (0 ∷ 1 ∷ [])
two-IsTable = record {
  chain = (refl, (refl, refl));
  distinct = ((omega arith, tt), (tt, tt));
  used = (refl, (refl, tt));
  counted = refl;
  fits = omega arith;
  unlinked = λ i free. elim (Bool-cases (i == 0)) [
    | inl hit ↦ let clash : false ≡ true = rw hit at free in cc
    | inr miss ↦ elim (Bool-cases (i == 1)) [
      | inl hit ↦ rw (miss, hit) refl
      | inr other ↦ rw (miss, other) refl
    ]
  ];
}
