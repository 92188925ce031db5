-- ===== src/Task/Turns.antt =====
-- Which task a call of `schedule` makes current, and what it does to the states.
use native.Mathlib.Decide.{ℕ_discrete}
use os_simple.Base.{
  ℕ, ◌≤◌, ◌≡◌, ◌≢◌, refl, ap, sym, ◌∙◌, true, false, List, ◌∷◌, ◌++◌, some, ◌==◌, if◌then◌else◌,
  inl, inr, Bool-cases, length, arith,
}
use os_simple.Task.Table.{Task, Tasks, TaskState, running, ready, sleeping, zombie, is_running}
use os_simple.Task.Switching.{switch_from, schedule}
use os_simple.Task.Chain.{Chain, Misses}
use os_simple.Task.Rotation.{first_runnable, schedule_lem}
use os_simple.Task.Keeping.{switch-SameLinks}

-- The state of a task that another one takes over from.
abbrev pub stepped_down : TaskState → TaskState
stepped_down running = ready
stepped_down ready = ready
stepped_down sleeping = sleeping
stepped_down zombie = zombie

-- The state of entry `i` after the turn of entry `target`, from the current entry `c`.
abbrev pub state_after : (ℕ → Task) → ℕ → ℕ → ℕ → TaskState
state_after f c target i =
    if target == c
    then (f i).state
    else if i == target
    then running
    else if i == c
    then stepped_down (f i).state
    else (f i).state

-- The table `r` after the turn of entry `target`, from the current entry `c` of `t`.
abbrev pub Turn : Tasks → ℕ → ℕ → Tasks → Type 0
Turn t c target r =
    (r.current_task ≡ some target)
    × ((i : ℕ)
        → ((r.tasks i).state ≡ state_after t.tasks c target i)
          × ((r.tasks i).pid ≡ (t.tasks i).pid)
          × ((r.tasks i).next ≡ (t.tasks i).next))
    × (r.task_list ≡ t.task_list)
    × (r.task_count ≡ t.task_count)
    × (r.next_pid ≡ t.next_pid)

stepped_down-tests : (s : TaskState) → (if is_running s then ready else s) ≡ stepped_down s
stepped_down-tests running = refl
stepped_down-tests ready = refl
stepped_down-tests sleeping = refl
stepped_down-tests zombie = refl

switch_state :
    (t : Tasks) (c target i : ℕ)
    → target ≢ c
    → ((switch_from t c target).tasks i).state ≡ state_after t.tasks c target i
switch_state t c target i ne =
    let apart : (c == target) ≡ false = ground arith in
    let other : (target == c) ≡ false = ground arith in
    let down = stepped_down-tests (t.tasks c).state in
    elim (ℕ_discrete i c) [
      | yes here ↦ rw here (elim (Bool-cases (is_running (t.tasks c).state)) [
        | inl was ↦ rw (apart, other, was) (ground (arith, apart, other, was, down))
        | inr was_not ↦ rw (apart, other, was_not) (ground (arith, apart, other, was_not, down))
      ])
      | no there ↦
          let away : (i == c) ≡ false = ground arith in
          elim (Bool-cases (is_running (t.tasks c).state)) [
            | inl was ↦ rw (apart, other, was, away) (ground (arith, apart, other, was, away))
            | inr was_not ↦ rw (apart, other, was_not, away) (ground (arith, apart, other))
          ]
    ]

switch-Turn : (t : Tasks) (c target : ℕ) → target ≢ c → Turn t c target (switch_from t c target)
switch-Turn t c target ne = (
  refl,
  λ i. (
    switch_state t c target i ne,
    (switch-SameLinks t c target i).0,
    (switch-SameLinks t c target i).1,
  ),
  refl,
  refl,
  refl,
)

-- A task list of at most 64 entries that ends, with the entries `pre` before the current task `c` and
-- at least one entry after it, `y ∷ ys`: `schedule` returns, and the first ready or running entry of
-- `y ∷ ys` and then `pre`, in the order of the list, becomes the current task and RUNNING; `c` becomes
-- READY if it was RUNNING and keeps its state otherwise. When none of them is ready or running, `c`
-- stays the current task and no state changes. No other state, no PID and no link changes.
pub schedule-Turn :
    (t : Tasks) (c y : ℕ) (ys pre : List ℕ)
    → t.current_task ≡ some c
    → Chain t.tasks t.task_list (pre ++ c ∷ y ∷ ys)
    → Chain t.tasks (t.tasks c).next (y ∷ ys)
    → Misses c ys
    → Misses c pre
    → length (pre ++ c ∷ y ∷ ys) ≤ 64
    → (r : Tasks) × (schedule t ≡ some r) × Turn t c (first_runnable t.tasks c (y ∷ ys ++ pre)) r
schedule-Turn t c y ys pre current whole after m n l =
    let target : ℕ = first_runnable t.tasks c (y ∷ ys ++ pre) in
    let run = schedule_lem t c y ys pre current whole after m n l in
    elim (ℕ_discrete target c) [
      | yes same ↦
          let hit : (target == c) ≡ true = ground arith in
          (
            t,
            run ∙ rw hit refl,
            (current ∙ ap some (sym same), λ i. rw hit (refl, refl, refl), refl, refl, refl),
          )
      | no other ↦
          let miss : (target == c) ≡ false = ground arith in
          (switch_from t c target, run ∙ rw miss refl, switch-Turn t c target other)
    ]
