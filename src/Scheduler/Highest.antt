-- ===== src/Scheduler/Highest.antt =====
-- Which task the priority policy chooses: a smaller number is a higher priority.
use os_simple.Base.{
  ℕ, zero, suc, ◌≤◌, ◌<◌, ◌≡◌, refl, Bool, true, false, ◌&&◌, List, [], ◌∷◌, Option, none, some,
  ◌⊎◌, inl, inr, Bool-cases, length, arith,
}
use os_simple.Base.Int.{ℤ, pos, ltb_ℤ}
use os_simple.Task.Table.{Task, Tasks, is_ready, or_else}
use os_simple.Task.Chain.{Chain, Occurs}
use os_simple.Scheduler.State.{Scheduler}
use os_simple.Scheduler.Choice.{highest_from, find_highest_priority_task}

abbrev pub better : (ℕ → Task) → ℤ → ℕ → Bool
better f highest x = is_ready (f x).state && ltb_ℤ (f x).priority highest

-- No entry is ready with a number below `highest`.
abbrev pub NoneBetter : (ℕ → Task) → ℤ → List ℕ → Type 0
NoneBetter f highest [] = Unit {0}
NoneBetter f highest (x ∷ xs) = (better f highest x ≡ false) × NoneBetter f highest xs

-- `r` is `best`, and no entry is better than `highest`; or it is an entry that is better, and
-- none is better than it.
abbrev pub Chosen : (ℕ → Task) → ℤ → Option ℕ → List ℕ → Option ℕ → Type 0
Chosen f highest best xs r =
    ((r ≡ best) × NoneBetter f highest xs)
    ⊎ ((c : ℕ) × (r ≡ some c)
        × Occurs c xs
        × (better f highest c ≡ true)
        × NoneBetter f (f c).priority xs)

-- The loop's step past an entry that is better, and past one that is not.
take_better :
    (f : ℕ → Task) (highest : ℤ) (best : Option ℕ) (x : ℕ) (xs : List ℕ) (r : Option ℕ)
    → better f highest x ≡ true
    → Chosen f (f x).priority (some x) xs r
    → Chosen f highest best (x ∷ xs) r
take_better f highest best x xs r b (inl (e, n)) = inr (x, e, inl refl, b, (ground arith, n))
take_better f highest best x xs r b (inr (c, e, o, d, n)) =
    inr (c, e, inr o, ground arith, (ground arith, n))

pass_by :
    (f : ℕ → Task) (highest : ℤ) (best : Option ℕ) (x : ℕ) (xs : List ℕ) (r : Option ℕ)
    → better f highest x ≡ false
    → Chosen f highest best xs r
    → Chosen f highest best (x ∷ xs) r
pass_by f highest best x xs r b (inl (e, n)) = inl (e, (b, n))
pass_by f highest best x xs r b (inr (c, e, o, d, n)) = inr (c, e, inr o, d, (ground arith, n))

highest_from_lem :
    (fuel : ℕ) (f : ℕ → Task) (highest : ℤ) (best p : Option ℕ) (xs : List ℕ)
    → Chain f p xs
    → length xs < fuel
    → (r : Option ℕ) × (highest_from fuel f highest best p ≡ some r) × Chosen f highest best xs r
unfolding highest_from
highest_from_lem zero f highest best p xs h l = elim l [ ]
highest_from_lem (suc fuel) f highest best p [] h l = (best, rw h refl, inl (refl, tt))
highest_from_lem (suc fuel) f highest best p (x ∷ xs) h l = elim (Bool-cases (better f highest x)) [
  | inl b ↦
      let rest = highest_from_lem fuel f (f x).priority (some x) (f x).next xs h.1 (omega arith) in
      (rest.0, rw (h.0, highest_from, b) rest.1, take_better f highest best x xs rest.0 b rest.2)
  | inr b ↦
      let rest = highest_from_lem fuel f highest best (f x).next xs h.1 (omega arith) in
      (rest.0, rw (h.0, highest_from, b) rest.1, pass_by f highest best x xs rest.0 b rest.2)
]

by_loop :
    (s : Scheduler) (t : Tasks) (r : Option ℕ)
    → highest_from 65 t.tasks (pos 41) none s.task_queue_head ≡ some r
    → find_highest_priority_task s t ≡ some (or_else r s.idle_task)
unfolding find_highest_priority_task
by_loop s t r e = rw (find_highest_priority_task, e) refl

-- On a queue of at most 64 entries that ends, the walk of `find_highest_priority_task` ends. It
-- returns a ready entry with a number below 41 and no ready entry has a smaller one, or, when no
-- ready entry has a number below 41, the idle task.
pub find_highest_priority_task_lem :
    (s : Scheduler) (t : Tasks) (xs : List ℕ)
    → Chain t.tasks s.task_queue_head xs
    → length xs ≤ 64
    → (r : Option ℕ) × (find_highest_priority_task s t ≡ some (or_else r s.idle_task))
      × Chosen t.tasks (pos 41) none xs r
find_highest_priority_task_lem s t xs h l =
    let loop = highest_from_lem 65 t.tasks (pos 41) none s.task_queue_head xs h (omega arith) in
    (loop.0, by_loop s t loop.0 loop.1, loop.2)
