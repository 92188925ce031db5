-- ===== src/Task/Rotation.antt =====
-- Which task `schedule` switches to.
use os_simple.Base.{
  ℕ, zero, suc, ◌+◌, ◌≤◌, ◌<◌, ◌≡◌, refl, ap, ◌∙◌, true, false, not, ◌&&◌, List, [], ◌∷◌, ◌++◌,
  Option, none, some, ◌==◌, if◌then◌else◌, length, length-append, arith,
}
use os_simple.Task.Table.{
  Task, Tasks, TaskState, is_ready, is_running, runnable, points_to, or_else,
}
use os_simple.Task.Switching.{
  next_runnable, switch_from, settle, schedule_after, schedule_at, schedule,
}
use os_simple.Task.Chain.{Chain, Misses}

-- The first entry of the list that is ready or running, or `c` when there is none.
abbrev pub first_runnable : (ℕ → Task) → ℕ → List ℕ → ℕ
first_runnable f c [] = c
first_runnable f c (x ∷ xs) = if runnable (f x).state then x else first_runnable f c xs

runnable-tests : (s : TaskState) → (not (is_ready s) && not (is_running s)) ≡ not (runnable s)
runnable-tests s = ground arith

module _ (f : ℕ → Task) (c : ℕ) (head : Option ℕ) where
  -- One round at entry `n`.
  round :
      (fuel n : ℕ)
      → next_runnable (suc fuel) f c head (some n) ≡ (
          if runnable (f n).state
          then some (some n)
          else if points_to (or_else (f n).next head) c
          then some (or_else (f n).next head)
          else next_runnable fuel f c head (or_else (f n).next head))
  unfolding next_runnable
  round fuel n = ground (arith, runnable-tests (f n).state)

  -- Through the entries before `c`.
  second_pass :
      (fuel z : ℕ) (zs post : List ℕ)
      → Chain f (f z).next (zs ++ c ∷ post)
      → Misses c zs
      → length zs < fuel
      → next_runnable fuel f c head (some z) ≡ some (some (first_runnable f c (z ∷ zs)))
  second_pass zero z zs post h m l = elim l [ ]
  second_pass (suc fuel) z [] post h m l =
      let here : (c == c) ≡ true = ground arith in round fuel z ∙ rw (h.0, here) (ground arith)
  second_pass (suc fuel) z (y ∷ zs) post h m l =
      let apart : (y == c) ≡ false = ground arith in
      round fuel z
      ∙ rw (h.0, apart, second_pass fuel y zs post h.1 m.1 (omega arith)) (ground arith)

  -- From the head of the list on.
  wrapped :
      (fuel : ℕ) (pre post : List ℕ)
      → Chain f head (pre ++ c ∷ post)
      → Misses c pre
      → length pre < fuel
      → (if points_to head c then some head else next_runnable fuel f c head head)
        ≡ some (some (first_runnable f c pre))
  wrapped fuel [] post h m l = let here : (c == c) ≡ true = ground arith in rw (h.0, here)
  wrapped fuel (z ∷ zs) post h m l =
      let apart : (z == c) ≡ false = ground arith in
      ap (λ p. if points_to p c then some p else next_runnable fuel f c head p) h.0
      ∙ rw (apart, second_pass fuel z zs post h.1 m.1 (omega arith)) refl

  -- Through the entries after `c`, then round.
  first_pass :
      (fuel y : ℕ) (ys pre post : List ℕ)
      → Chain f (f y).next ys
      → Chain f head (pre ++ c ∷ post)
      → Misses c ys
      → Misses c pre
      → length ys + length pre + 1 < fuel
      → next_runnable fuel f c head (some y) ≡ some (some (first_runnable f c (y ∷ ys ++ pre)))
  first_pass zero y ys pre post h k m n l = elim l [ ]
  first_pass (suc fuel) y [] pre post h k m n l =
      round fuel y ∙ rw (h, wrapped fuel pre post k n (omega arith)) (ground arith)
  first_pass (suc fuel) y (x ∷ ys) pre post h k m n l =
      let apart : (x == c) ≡ false = ground arith in
      round fuel y
      ∙ rw (h.0, apart, first_pass fuel x ys pre post h.1 k m.1 n (omega arith)) (ground arith)

pub schedule_lem :
    (t : Tasks) (c y : ℕ) (ys pre : List ℕ)
    → t.current_task ≡ some c
    → Chain t.tasks t.task_list (pre ++ c ∷ y ∷ ys)
    → Chain t.tasks (t.tasks c).next (y ∷ ys)
    → Misses c ys
    → Misses c pre
    → length (pre ++ c ∷ y ∷ ys) ≤ 64
    → schedule t ≡ (
        let target = first_runnable t.tasks c (y ∷ ys ++ pre) in
        some (if not (target == c) then switch_from t c target else t))
unfolding schedule
schedule_lem t c y ys pre current whole after m n l =
    let sizes : length (pre ++ c ∷ y ∷ ys) ≡ length pre + length (c ∷ y ∷ ys) =
      length-append pre (c ∷ y ∷ ys) in
    ap (schedule_at t) current
    ∙ ap (schedule_after t c) after.0
    ∙ ap (settle t c)
        (first_pass t.tasks c t.task_list 128 y ys pre (y ∷ ys) after.1 whole m n (omega arith))

-- When the current task is the last of the list, `schedule` changes nothing, whatever the task's
-- state: a task that has exited or sleeps goes on.
pub schedule_last :
    (t : Tasks) (c : ℕ) → t.current_task ≡ some c → (t.tasks c).next ≡ none → schedule t ≡ some t
unfolding schedule
schedule_last t c current last = ap (schedule_at t) current ∙ ap (schedule_after t c) last
