-- ===== src/Scheduler/Policy.antt =====
-- Which task the three policies choose from the queue.
use os_simple.Base.{
  ℕ, zero, suc, ◌≤◌, ◌<◌, ◌≡◌, refl, false, List, [], ◌∷◌, Option, some, ◌==◌, if◌then◌else◌,
  length, arith,
}
use os_simple.Task.Table.{Task, Tasks, is_ready}
use os_simple.Task.Chain.{Chain, Misses}
use os_simple.Scheduler.State.{Scheduler}
use os_simple.Scheduler.Choice.{
  round_robin_from, get_next_round_robin_task, fifo_from, get_next_fifo_task,
}

-- The first ready entry of the queue, or the idle task.
abbrev pub first_ready : (ℕ → Task) → Option ℕ → List ℕ → Option ℕ
first_ready f idle [] = idle
first_ready f idle (x ∷ xs) = if is_ready (f x).state then some x else first_ready f idle xs

fifo_from_lem :
    (fuel : ℕ) (f : ℕ → Task) (idle p : Option ℕ) (xs : List ℕ)
    → Chain f p xs
    → length xs < fuel
    → fifo_from fuel f idle p ≡ some (first_ready f idle xs)
unfolding fifo_from
fifo_from_lem zero f idle p xs h l = elim l [ ]
fifo_from_lem (suc fuel) f idle p [] h l = rw h refl
fifo_from_lem (suc fuel) f idle p (x ∷ xs) h l =
    rw (h.0, fifo_from_lem fuel f idle (f x).next xs h.1 (omega arith)) (ground arith)

round_robin_from_lem :
    (fuel : ℕ) (f : ℕ → Task) (start : ℕ) (idle : Option ℕ) (x : ℕ) (xs : List ℕ)
    → Chain f (f x).next xs
    → Misses start xs
    → length xs < fuel
    → round_robin_from fuel f start idle x ≡ some (first_ready f idle (x ∷ xs))
unfolding round_robin_from
round_robin_from_lem zero f start idle x xs h m l = elim l [ ]
round_robin_from_lem (suc fuel) f start idle x [] h m l = rw (h, round_robin_from) (ground arith)
round_robin_from_lem (suc fuel) f start idle x (y ∷ ys) h m l =
    let apart : (y == start) ≡ false = ground arith in
    rw
      (
        h.0,
        round_robin_from,
        apart,
        round_robin_from_lem fuel f start idle y ys h.1 m.1 (omega arith),
      )
      (ground arith)

-- The first entry does not occur again.
abbrev pub HeadOnce : List ℕ → Type 0
HeadOnce [] = Unit {0}
HeadOnce (x ∷ xs) = Misses x xs

-- On a queue of at most 64 entries that ends, FIFO chooses the first ready entry, or the idle task when
-- none is ready or the queue is empty; and round robin, when the head does not occur again, chooses
-- the same.
pub get_next_lem :
    (s : Scheduler) (t : Tasks) (xs : List ℕ)
    → Chain t.tasks s.task_queue_head xs
    → HeadOnce xs
    → length xs ≤ 64
    → (get_next_fifo_task s t ≡ some (first_ready t.tasks s.idle_task xs))
      × (get_next_round_robin_task s t ≡ some (first_ready t.tasks s.idle_task xs))
unfolding get_next_fifo_task get_next_round_robin_task
get_next_lem s t [] h m l =
    (fifo_from_lem 65 t.tasks s.idle_task s.task_queue_head [] h (omega arith), rw h refl)
get_next_lem s t (x ∷ xs) h m l = (
  fifo_from_lem 65 t.tasks s.idle_task s.task_queue_head (x ∷ xs) h (omega arith),
  rw h.0 (round_robin_from_lem 65 t.tasks x s.idle_task x xs h.1 m (omega arith)),
)
