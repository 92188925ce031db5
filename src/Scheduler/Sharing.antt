-- ===== src/Scheduler/Sharing.antt =====
-- What adding to the scheduler's queue does to the task list, which is linked by the same `next`.
use os_simple.Base.{
  ℕ, ◌≡◌, refl, ap, sym, subst, true, false, List, [], ◌∷◌, ◌++◌, Option, none, some, ◌==◌, update,
  arith,
}
use os_simple.Task.Table.{Task, Tasks}
use os_simple.Task.Chain.{Chain, Misses}
use os_simple.Scheduler.State.{Scheduler}
use os_simple.Scheduler.Entries.{add_at, add_task_to_scheduler}

cut_at :
    (f : ℕ → Task) (k : Task) (p : Option ℕ) (i : ℕ) (xs ys : List ℕ)
    → k.next ≡ none
    → Misses i xs
    → Chain f p (xs ++ i ∷ ys)
    → Chain (update f i k) p (xs ++ i ∷ [])
cut_at f k p i [] ys e m h = let here : (i == i) ≡ true = ground arith in (h.0, rw here e)
cut_at f k p i (x ∷ xs) ys e m h =
    let apart : (x == i) ≡ false = let ne = m.0 in ground arith in
    (h.0, rw apart (cut_at f k (f x).next i xs ys e m.1 h.1))

-- While the queue is empty, adding a task that is on the task list leaves on the task list only the
-- entries up to that task: those after it are lost.
pub add_task_to_scheduler_cuts :
    (s : Scheduler) (t : Tasks) (i : ℕ) (xs ys : List ℕ)
    → s.task_queue_head ≡ none
    → Misses i xs
    → Chain t.tasks t.task_list (xs ++ i ∷ ys)
    → Chain
        (add_task_to_scheduler s t (some i)).1.tasks
        (add_task_to_scheduler s t (some i)).1.task_list
        (xs ++ i ∷ [])
unfolding add_task_to_scheduler
add_task_to_scheduler_cuts s t i xs ys e m h =
    subst (λ r. Chain r.1.tasks r.1.task_list (xs ++ i ∷ []))
      (sym (ap (λ p. add_at s t i p s.task_queue_tail) e))
      (cut_at t.tasks _ t.task_list i xs ys refl m h)
