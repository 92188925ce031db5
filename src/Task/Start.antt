-- ===== src/Task/Start.antt =====
-- What `init_task_manager` leaves.
use os_simple.Base.{
  ℕ, zero, suc, ◌+◌, ◌≤◌, ◌<◌, ◌≡◌, refl, ap, sym, ◌∙◌, true, false, [], ◌∷◌, none, ◌==◌, leb, ◌⊎◌,
  inl, inr, Bool-cases, update, arith,
}
use os_simple.Base.Int.{pos, eqb_ℤ}
use os_simple.Task.Table.{Task, Tasks, running, zombie, invalid_pid}
use os_simple.Task.Creating.{clear_tasks, set_name, kernel_name, init_task_manager}
use os_simple.Task.Keeping.{IsTasks}

-- The loop of `init_task_manager` frees the entries that it passes.
abbrev freed : Task → Task
freed k = record k { pid = invalid_pid; state = zombie; next = none }

clear_tasks_past :
    (left i n : ℕ) (f : ℕ → Task) → (n < i) ⊎ (i + left ≤ n) → clear_tasks left i f n ≡ f n
unfolding clear_tasks
clear_tasks_past zero i n f h = refl
clear_tasks_past (suc left) i n f h =
    let apart : (n == i) ≡ false = ground arith in
    clear_tasks_past left (i + 1) n (update f i (freed (f i))) (ground arith) ∙ rw apart refl

clear_tasks_in :
    (left i n : ℕ) (f : ℕ → Task) → i ≤ n → n < i + left → clear_tasks left i f n ≡ freed (f n)
unfolding clear_tasks
clear_tasks_in zero i n f h l = absurd (omega arith)
clear_tasks_in (suc left) i n f h l = elim (Bool-cases (n == i)) [
  | inl hit ↦
      let same : n ≡ i = ground arith in
      clear_tasks_past left (i + 1) n (update f i (freed (f i))) (inl (omega arith))
      ∙ rw hit (ap (λ j. freed (f j)) (sym same))
  | inr miss ↦
      clear_tasks_in left (i + 1) n (update f i (freed (f i))) (ground arith) (omega arith)
      ∙ rw miss refl
]

-- No entry is linked after the loop.
cleared-next :
    (f : ℕ → Task)
    → ((i : ℕ) → 64 ≤ i → (f i).next ≡ none)
    → (i : ℕ) → (clear_tasks 64 0 f i).next ≡ none
cleared-next f past i = elim (Bool-cases (leb 64 i)) [
  | inl out ↦
      ap (λ k. k.next) (clear_tasks_past 64 0 i f (inr (ground arith))) ∙ past i (ground arith)
  | inr inside ↦ ap (λ k. k.next) (clear_tasks_in 64 0 i f (omega arith) (ground arith))
]

-- The kernel's entry, as `init_task_manager` fills it.
abbrev kernel_entry : Task → Task
kernel_entry k = record k {
  pid = pos 0;
  state = running;
  priority = pos 0;
  parent_pid = invalid_pid;
  name = set_name kernel_name k.name;
}

entry-next :
    (g : ℕ → Task)
    → ((i : ℕ) → (g i).next ≡ none)
    → (i : ℕ) → (update g 0 (kernel_entry (g 0)) i).next ≡ none
entry-next g e i = elim (Bool-cases (i == 0)) [ inl hit ↦ rw hit (e 0) | inr miss ↦ rw miss (e i) ]

-- Where no entry past the table is linked, `init_task_manager` leaves the table in order, with the
-- kernel's task alone on the list and current, and the other 63 entries free.
pub init_task_manager-IsTasks :
    (t : Tasks)
    → ((i : ℕ) → 64 ≤ i → (t.tasks i).next ≡ none)
    → IsTasks (init_task_manager t).0 (0 ∷ [])
      × ((i : ℕ) → 0 < i → i < 64 → eqb_ℤ ((init_task_manager t).0.tasks i).pid invalid_pid ≡ true)
unfolding init_task_manager
init_task_manager-IsTasks t past =
    let g : ℕ → Task = clear_tasks 64 0 t.tasks in
    let next = entry-next g (cleared-next t.tasks past) in
    (
      (
        record {
          chain = (refl, next 0);
          distinct = (tt, tt);
          used = (refl, tt);
          counted = refl;
          fits = omega arith;
          unlinked = λ i free. next i;
        },
        (0, refl, inl refl),
      ),
      λ i low high.
          let miss : (i == 0) ≡ false = ground arith in
          rw miss (
            ap (λ (k : Task). eqb_ℤ k.pid invalid_pid)
              (clear_tasks_in 64 0 i t.tasks (omega arith) (omega arith))),
    )
