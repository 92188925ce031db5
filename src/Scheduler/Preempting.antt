-- ===== src/Scheduler/Preempting.antt =====
-- What the end of a time slice does: from then on every tick preempts.
use os_simple.Base.{
  ℕ, zero, suc, ◌+◌, ◌%◌, ◌^◌, ◌-◌, ◌≤◌, ◌<◌, ◌≡◌, refl, ap, ◌∙◌, List, Option, none, some,
  if◌then◌else◌, inl, inr, Bool-cases, ltb, update, add32, arith,
}
use os_simple.Task.Table.{Tasks, ready, points_to}
use os_simple.Task.Switching.{schedule}
use os_simple.Task.Keeping.{IsTasks, SameLinks-IsTable, state-SameLinks, schedule-IsTasks}
use os_simple.Scheduler.State.{Scheduler, sched_running, is_sched_running}
use os_simple.Scheduler.Ticking.{
  scheduler_tick, yield, make_ready, update_task_runtime, spend_tick, yielded, tick_at,
}

-- The runtime is counted in the statistics alone.
runtime_keeps :
    (s : Scheduler) (p : Option ℕ) (n : ℕ)
    → ((update_task_runtime s p n).current ≡ s.current)
      × ((update_task_runtime s p n).state ≡ s.state)
      × ((update_task_runtime s p n).ticks_remaining ≡ s.ticks_remaining)
      × ((update_task_runtime s p n).stats.preemptions ≡ s.stats.preemptions)
unfolding update_task_runtime
runtime_keeps s none n = (refl, refl, refl, refl)
runtime_keeps s (some i) n = elim (Bool-cases (points_to s.idle_task i)) [
  | inl idle ↦ (rw idle refl, rw idle refl, rw idle refl, rw idle refl)
  | inr busy ↦ (rw busy refl, rw busy refl, rw busy refl, rw busy refl)
]

spend_last :
    (s : Scheduler) (t t' : Tasks)
    → s.ticks_remaining ≤ 1
    → yield s t ≡ some t'
    → (s' : Scheduler) × (spend_tick s t ≡ some (s', t'))
      × (s'.ticks_remaining ≡ 0)
      × (s'.current ≡ s.current)
      × (s'.state ≡ s.state)
      × (s'.stats.preemptions ≡ add32 s.stats.preemptions 1)
spend_last s t t' l y =
    let left : (if ltb 0 s.ticks_remaining then s.ticks_remaining - 1 else s.ticks_remaining) ≡ 0 =
      ground arith in
    (
      record s {
        ticks_remaining = 0;
        stats = record s.stats { preemptions = add32 s.stats.preemptions 1 };
      },
      rw left (ap (yielded _) y),
      refl,
      refl,
      refl,
      refl,
    )

scheduler_tick_preempts :
    (s : Scheduler) (t t' : Tasks) (c : ℕ)
    → s.state ≡ sched_running
    → s.current ≡ some c
    → s.ticks_remaining ≤ 1
    → yield s t ≡ some t'
    → (s' : Scheduler) × (scheduler_tick s t ≡ some (s', t'))
      × (s'.ticks_remaining ≡ 0)
      × (s'.current ≡ some c)
      × (s'.state ≡ sched_running)
      × (s'.stats.preemptions ≡ add32 s.stats.preemptions 1)
unfolding scheduler_tick yield
scheduler_tick_preempts s t t' c run cur l y =
    let ticked : Scheduler = record s {
      stats = record s.stats { timer_ticks = add32 s.stats.timer_ticks 1 };
    } in
    let counted : Scheduler = update_task_runtime ticked (some c) 1 in
    let keeps = runtime_keeps ticked (some c) 1 in
    let last =
      spend_last counted t t' (rw (keeps.2) l) (ap (λ p. schedule (make_ready t p)) keeps.0 ∙ y) in
    (
      last.0,
      ap (λ r. if is_sched_running r then tick_at ticked t s.current else some (ticked, t)) run
          ∙ ap (tick_at ticked t) cur
          ∙ last.1,
      last.2,
      last.3 ∙ keeps.0 ∙ cur,
      last.4 ∙ keeps.1 ∙ run,
      last.5 ∙ ap (λ q. add32 q 1) keeps.3,
    )

abbrev pub tick_once : Option (Scheduler × Tasks) → Option (Scheduler × Tasks)
tick_once none = none
tick_once (some (s, t)) = scheduler_tick s t

-- Any number of ticks, one after the other.
abbrev pub scheduler_ticks : ℕ → Option (Scheduler × Tasks) → Option (Scheduler × Tasks)
scheduler_ticks zero r = r
scheduler_ticks (suc n) r = scheduler_ticks n (tick_once r)

make_ready-IsTasks :
    (t : Tasks) (c : ℕ) (xs : List ℕ) → IsTasks t xs → IsTasks (make_ready t (some c)) xs
make_ready-IsTasks t c xs v = (
  SameLinks-IsTable t (update t.tasks c (record (t.tasks c) { state = ready })) t.current_task xs
      (state-SameLinks t.tasks c ready) v.0,
  v.1,
)

yield-IsTasks :
    (s : Scheduler) (t : Tasks) (c : ℕ) (xs : List ℕ)
    → s.current ≡ some c
    → IsTasks t xs
    → (t' : Tasks) × (yield s t ≡ some t') × IsTasks t' xs
unfolding yield
yield-IsTasks s t c xs current v =
    let run = schedule-IsTasks (make_ready t (some c)) xs (make_ready-IsTasks t c xs v) in
    (run.0, ap (λ p. schedule (make_ready t p)) current ∙ run.1, run.2)

-- With the task table in order, the scheduler running with a current task, at most one tick of its
-- slice left, and a count of preemptions that is a 32-bit word: any number of further ticks all
-- end, and each adds one to the count of preemptions, modulo 2^32, as none loads a new slice. The
-- scheduler's current task stays the same, and the task table in order.
pub scheduler_ticks_preempt :
    (n : ℕ) (s : Scheduler) (t : Tasks) (c : ℕ) (xs : List ℕ)
    → s.state ≡ sched_running
    → s.current ≡ some c
    → s.ticks_remaining ≤ 1
    → s.stats.preemptions < 2 ^ 32
    → IsTasks t xs
    → (s' : Scheduler) × (t' : Tasks) × (scheduler_ticks n (some (s, t)) ≡ some (s', t'))
      × (s'.stats.preemptions ≡ (s.stats.preemptions + n) % 2 ^ 32)
      × (s'.ticks_remaining ≤ 1)
      × (s'.current ≡ some c)
      × (s'.state ≡ sched_running)
      × IsTasks t' xs
scheduler_ticks_preempt zero s t c xs run current l small v =
    (s, t, refl, omega arith, l, current, run, v)
scheduler_ticks_preempt (suc n) s t c xs run current l small v =
    let stepped = yield-IsTasks s t c xs current v in
    let (s1, tick, left, current1, run1, count) =
      scheduler_tick_preempts s t stepped.0 c run current l stepped.1 in
    let (s2, t2, rest, total, left2, current2, run2, v2) =
      scheduler_ticks_preempt n s1 stepped.0 c xs run1 current1 (omega (arith, left))
        (omega (arith, count)) stepped.2 in
    (
      s2,
      t2,
      ap (scheduler_ticks n) tick ∙ rest,
      omega (arith, total, count, small),
      left2,
      current2,
      run2,
      v2,
    )
