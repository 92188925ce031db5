-- ===== src/Kernel/Starvation.antt =====
-- The timer's calls of `schedule`, where every task that follows the current one can run.
use os_simple.Base.{
  ℕ, zero, suc, ◌+◌, ◌-◌, ◌/◌, ◌^◌, ◌<◌, ◌≡◌, ◌≢◌, refl, ap, sym, subst, ◌∙◌, true, false, List, [],
  ◌∷◌, ◌++◌, some, ◌==◌, inl, inr, Bool-cases, length, update, arith,
}
use os_simple.Base.Effects.{Effect}
use os_simple.Base.Outcome.{returns}
use os_simple.Interrupt.Handlers.{timer_handler}
use os_simple.Task.Table.{Task, Tasks, TaskState, running, ready, is_running, runnable}
use os_simple.Task.Switching.{switch_from, schedule}
use os_simple.Task.Chain.{Misses, Occurs}
use os_simple.Task.Linking.{IsTable, Distinct}
use os_simple.Task.Rotation.{schedule_lem, schedule_last}
use os_simple.Task.Keeping.{switch-SameLinks, SameLinks-IsTable, Chain-after, Occurs-append}
use os_simple.Kernel.{Kernel}
use os_simple.Kernel.Boot.{Image, Arrival, deliver}
use os_simple.Kernel.Timer.{AllTimer, schedule_times, timer_lem}

abbrev pub AllRunnable : (ℕ → Task) → List ℕ → Type 0
AllRunnable f [] = Unit {0}
AllRunnable f (x ∷ xs) = (runnable (f x).state ≡ true) × AllRunnable f xs

-- The entry `n` places behind `c` on the list, or the last one.
abbrev pub moved_on : ℕ → ℕ → List ℕ → ℕ
moved_on n c [] = c
moved_on zero c (y ∷ ys) = c
moved_on (suc n) c (y ∷ ys) = moved_on n y ys

Misses-at : (x c : ℕ) (pre post : List ℕ) → Misses x (pre ++ c ∷ post) → c ≢ x
Misses-at x c [] post m = λ e. m.0 (sym e)
Misses-at x c (y ∷ pre) post m = Misses-at x c pre post m.1

-- In a list of distinct elements, the parts around one miss it.
Distinct-around :
    (c : ℕ) (pre post : List ℕ) → Distinct (pre ++ c ∷ post) → Misses c pre × Misses c post
Distinct-around c [] post d = (tt, d.0)
Distinct-around c (x ∷ pre) post d =
    let rest = Distinct-around c pre post d.1 in ((Misses-at x c pre post d.0, rest.0), rest.1)

-- Storing a state in which a task can run.
stored-runnable :
    (f : ℕ → Task) (n i : ℕ) (s : TaskState)
    → runnable s ≡ true
    → runnable (f i).state ≡ true
    → runnable (update f n (record (f n) { state = s }) i).state ≡ true
stored-runnable f n i s h r = elim (Bool-cases (i == n)) [
  | inl hit ↦ rw hit h
  | inr miss ↦ rw miss r
]

-- The switch stops no task.
switch-runnable :
    (t : Tasks) (c n i : ℕ)
    → runnable (t.tasks i).state ≡ true
    → runnable ((switch_from t c n).tasks i).state ≡ true
switch-runnable t c n i r =
    let f = t.tasks in
    let started = update f n (record (f n) { state = running }) in
    let first = stored-runnable f n i running refl r in
    elim (Bool-cases (is_running (started c).state)) [
      | inl was ↦ rw was (stored-runnable started c i ready refl first)
      | inr not_was ↦ rw not_was first
    ]

switch-AllRunnable :
    (t : Tasks) (c n : ℕ) (xs : List ℕ)
    → AllRunnable t.tasks xs
    → AllRunnable (switch_from t c n).tasks xs
switch-AllRunnable t c n [] h = tt
switch-AllRunnable t c n (x ∷ xs) h = (switch-runnable t c n x h.0, switch-AllRunnable t c n xs h.1)

append-snoc : (pre : List ℕ) (c : ℕ) (xs : List ℕ) → (pre ++ c ∷ []) ++ xs ≡ pre ++ c ∷ xs
append-snoc [] c xs = refl
append-snoc (x ∷ pre) c xs = ap (λ ys. x ∷ ys) (append-snoc pre c xs)

-- One call of `schedule`, with a task that can run behind the current one.
schedule_next :
    (t : Tasks) (c y : ℕ) (pre ys : List ℕ)
    → IsTable t (pre ++ c ∷ y ∷ ys)
    → t.current_task ≡ some c
    → runnable (t.tasks y).state ≡ true
    → schedule t ≡ some (switch_from t c y)
schedule_next t c y pre ys ok current run =
    let apart = Distinct-around c pre (y ∷ ys) ok.distinct in
    let other : (y == c) ≡ false = let ne = apart.1.0 in ground arith in
    let after = Chain-after t.tasks t.task_list pre c (y ∷ ys) ok.chain in
    schedule_lem t c y ys pre current ok.chain after apart.1.1 apart.0 ok.fits
    ∙ rw (run, other) refl

-- On a table in order, with the entries `pre` before the current task `c` and `post` behind it, all of
-- `post` able to run: `n` calls of `schedule` return, and leave the task current that is `n` places
-- behind `c`, or the last of the list when there are fewer.
pub schedule_times_lem :
    (n : ℕ) (t : Tasks) (c : ℕ) (pre post : List ℕ)
    → IsTable t (pre ++ c ∷ post)
    → t.current_task ≡ some c
    → AllRunnable t.tasks post
    → (t' : Tasks) × (schedule_times n t ≡ some t') × (t'.current_task ≡ some (moved_on n c post))
unfolding schedule_times
schedule_times_lem zero t c pre [] ok current run = (t, refl, current)
schedule_times_lem zero t c pre (y ∷ ys) ok current run = (t, refl, current)
schedule_times_lem (suc n) t c pre [] ok current run =
    let stays = schedule_last t c current (Chain-after t.tasks t.task_list pre c [] ok.chain) in
    let rest = schedule_times_lem n t c pre [] ok current tt in
    (rest.0, rw (schedule_times, stays) rest.1, rest.2)
schedule_times_lem (suc n) t c pre (y ∷ ys) ok current run =
    let t' : Tasks = switch_from t c y in
    let kept : IsTable t' (pre ++ c ∷ y ∷ ys) =
      SameLinks-IsTable t t'.tasks (some y) (pre ++ c ∷ y ∷ ys) (switch-SameLinks t c y) ok in
    let rest =
      schedule_times_lem n t' y (pre ++ c ∷ []) ys
        (subst (IsTable t') (sym (append-snoc pre c (y ∷ ys))) kept) refl
        (switch-AllRunnable t c y ys run.1) in
    (rest.0, rw (schedule_times, schedule_next t c y pre ys ok current run.0) rest.1, rest.2)

some-injective : {x y : Tasks} → some x ≡ some y → x ≡ y
some-injective e = cc

-- A run of timer interrupts, from a kernel whose timer has its handler, with the count of ticks below
-- 2^32, the task table in order, and every task behind the current one able to run: the current task
-- moves on by one place of the list for each multiple of 10 that the count passes, but never beyond
-- the last place. So the last task, once reached, stays the current one, and no task before the
-- current one becomes current again.
pub timer_starves :
    (image : Image) (arrivals : List Arrival) (k : Kernel) (c : ℕ) (pre post : List ℕ)
    → AllTimer arrivals
    → k.interrupts.interrupt_handlers 32 ≡ some timer_handler
    → k.interrupts.timer_ticks + length arrivals < 2 ^ 32
    → IsTable k.tasks (pre ++ c ∷ post)
    → k.tasks.current_task ≡ some c
    → AllRunnable k.tasks.tasks post
    → (k' : Kernel) × (out : List Effect) × (deliver image arrivals k ≡ returns k' out)
      × (k'.tasks.current_task
          ≡ some (
              moved_on
                ((k.interrupts.timer_ticks + length arrivals) / 10 - k.interrupts.timer_ticks / 10)
                c
                post))
timer_starves image arrivals k c pre post l h s ok current run =
    let on : Occurs c (pre ++ c ∷ post) = Occurs-append c pre (c ∷ post) (inr (inl refl)) in
    let ran = timer_lem image arrivals k (pre ++ c ∷ post) l h s (ok, (c, current, on)) in
    let calls : ℕ =
      (k.interrupts.timer_ticks + length arrivals) / 10 - k.interrupts.timer_ticks / 10 in
    let last = schedule_times_lem calls k.tasks c pre post ok current run in
    let same : last.0 ≡ ran.0.tasks = some-injective (sym last.1 ∙ ran.5) in
    (ran.0, ran.1, ran.2, ap (λ t. t.current_task) (sym same) ∙ last.2)
