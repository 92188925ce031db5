-- ===== src/Scheduler/Slices.antt =====
-- Priorities and the time slices that they give.
use os_simple.Base.{
  ℕ, ◌-◌, ◌≤◌, ◌≡◌, refl, ap, ◌∙◌, true, false, some, ◌==◌, if◌then◌else◌, inl, inr, Bool-cases,
  ltb, leb, arith,
}
use os_simple.Base.Int.{ℤ, pos, negsuc, pos_part, ltb_ℤ}
use os_simple.Task.Table.{Tasks}
use os_simple.Scheduler.State.{
  Scheduler, min_priority, max_priority, min_time_slice, max_time_slice,
}
use os_simple.Scheduler.Priority.{clamp, slice_of, calculate_time_slice, set_task_priority}

-- The priority that `set_task_priority` stores.
abbrev pub level : ℤ → ℕ
level (pos n) = if ltb 40 n then 40 else n
level (negsuc n) = 0

clamp-level : (p : ℤ) → clamp min_priority max_priority p ≡ pos (level p)
clamp-level (pos n) = elim (Bool-cases (ltb 40 n)) [
  | inl over ↦ rw over (ground arith)
  | inr under ↦ rw under (ground arith)
]
clamp-level (negsuc n) = ground arith

level_bound : (p : ℤ) → level p ≤ 40
level_bound (pos n) = ground arith
level_bound (negsuc n) = omega arith

slice-clamp :
    (k : ℕ) → k ≤ 40 → clamp min_time_slice max_time_slice (slice_of (pos k)) ≡ pos (50 - k)
slice-clamp k l =
    let within : leb k 50 ≡ true = ground arith in
    let low : ltb_ℤ (pos (50 - k)) (pos 1) ≡ false = ground arith in
    let high : ltb_ℤ (pos 50) (pos (50 - k)) ≡ false = ground arith in rw (within, low, high) refl

-- Setting a task's priority stores it clamped to 0 … 40, and makes the time slice 50 less the stored
-- value: from 10 to 50 ticks, and the longer the smaller the number is.
pub set_task_priority_lem :
    (s : Scheduler) (t : Tasks) (i : ℕ) (p : ℤ)
    → (((set_task_priority s t (some i) p).1.tasks i).priority ≡ pos (level p))
      × (level p ≤ 40)
      × ((set_task_priority s t (some i) p).0.time_slice ≡ 50 - level p)
unfolding set_task_priority calculate_time_slice
set_task_priority_lem s t i p =
    let here : (i == i) ≡ true = ground arith in
    (
      rw here (clamp-level p),
      level_bound p,
      rw here (
          ap (λ x. pos_part (clamp min_time_slice max_time_slice (slice_of x))) (clamp-level p)
          ∙ ap pos_part (slice-clamp (level p) (level_bound p))),
    )
