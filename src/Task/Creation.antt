-- ===== src/Task/Creation.antt =====
-- `create_task` and the task list: which entry it takes, and where the list has it.
use os_simple.Base.{
  ℕ, zero, suc, ◌+◌, ◌<◌, ◌≡◌, ◌≢◌, refl, ap, sym, subst, ◌∙◌, true, false, List, [], ◌∷◌, ◌++◌,
  none, some, ◌==◌, leb, inl, inr, Bool-cases, length, length-append, update, arith,
}
use os_simple.Base.Int.{pos, eqb_ℤ}
use os_simple.Base.Effects.{print_string, print_bytes}
use os_simple.Task.Table.{Task, Tasks, invalid_pid}
use os_simple.Task.Creating.{find_slot, new_task, announce, create_task}
use os_simple.Task.Chain.{Misses, Chain-update}
use os_simple.Task.Linking.{
  IsTable, Used-Misses, Free, find_slot-Free, linked, link_task_lem, linked-Chain, Misses-sym,
  Used-append, linked-pid, linked-eip, linked-counts, linked-next,
}

pos_used : (n : ℕ) → eqb_ℤ (pos n) invalid_pid ≡ false
pos_used n = ground arith

module _ (t : Tasks) (xs : List ℕ) (s : ℕ) (name : List ℕ) (entry_point : ℕ) where
  abbrev filled : Tasks
  filled = record t {
    tasks = update t.tasks s (new_task t s name entry_point);
    next_pid = t.next_pid + 1;
  }

  abbrev created : Tasks
  created = record (linked filled s xs) { task_count = (linked filled s xs).task_count + 1 }

  filled-old : (i : ℕ) → (i == s) ≡ false → filled.tasks i ≡ t.tasks i
  filled-old i miss = rw miss refl

  filled-hit : (i : ℕ) → (i == s) ≡ true → filled.tasks i ≡ new_task t s name entry_point
  filled-hit i hit = rw hit refl

  filled-used :
      (i : ℕ)
      → eqb_ℤ (t.tasks i).pid invalid_pid ≡ false
      → eqb_ℤ (filled.tasks i).pid invalid_pid ≡ false
  filled-used i u = elim (Bool-cases (i == s)) [
    | inl hit ↦ ap (λ k. eqb_ℤ k.pid invalid_pid) (filled-hit i hit) ∙ pos_used t.next_pid
    | inr miss ↦ ap (λ k. eqb_ℤ k.pid invalid_pid) (filled-old i miss) ∙ u
  ]

  filled-new : (filled.tasks s).pid ≡ pos t.next_pid
  filled-new = let here : (s == s) ≡ true = ground arith in rw here refl

  filled-eip : (filled.tasks s).eip ≡ entry_point
  filled-eip = let here : (s == s) ≡ true = ground arith in rw here refl

  created-unlinked :
      IsTable t xs
      → (i : ℕ) → eqb_ℤ (filled.tasks i).pid invalid_pid ≡ true
      → (created.tasks i).next ≡ none
  created-unlinked ok i free = elim (Bool-cases (i == s)) [
    | inl hit ↦
        let clash : true ≡ false =
          sym free ∙ ap (λ k. eqb_ℤ k.pid invalid_pid) (filled-hit i hit) ∙ pos_used t.next_pid in
        ground arith
    | inr miss ↦
        let still : eqb_ℤ (t.tasks i).pid invalid_pid ≡ true =
          sym (ap (λ k. eqb_ℤ k.pid invalid_pid) (filled-old i miss)) ∙ free in
        linked-next filled s xs i (Used-Misses t.tasks i xs still ok.used)
        ∙ rw miss (ok.unlinked i still)
  ]

  created-IsTable :
      IsTable t xs
      → length xs < 64
      → eqb_ℤ (t.tasks s).pid invalid_pid ≡ true
      → IsTable created (xs ++ s ∷ [])
  created-IsTable ok room free =
      let misses : Misses s xs = Used-Misses t.tasks s xs free ok.used in
      let here : (s == s) ≡ true = ground arith in
      let null : (filled.tasks s).next ≡ none = rw here (ok.unlinked s free) in
      record {
        chain =
            linked-Chain filled s xs
              (Chain-update t.tasks t.task_list xs s (new_task t s name entry_point) misses
                ok.chain)
              ok.distinct misses null;
        distinct = Misses-sym s xs misses ok.distinct;
        used =
            Used-append t.tasks created.tasks s xs
              (λ i u. rw (linked-pid filled s xs i) (filled-used i u))
              (ap (λ p. eqb_ℤ p invalid_pid) (linked-pid filled s xs s ∙ filled-new)
                ∙ pos_used t.next_pid)
              ok.used;
        counted =
            ap (λ n. n + 1) (linked-counts filled s xs).0
            ∙ rw (ok.counted, length-append xs (s ∷ [])) refl;
        fits = rw (length-append xs (s ∷ [])) (omega arith);
        unlinked = λ i none_left.
            created-unlinked ok i
              (sym (ap (λ p. eqb_ℤ p invalid_pid) (linked-pid filled s xs i)) ∙ none_left);
      }

-- A table with the entries `xs`, fewer than 64, and a free entry `s`, which the search finds:
-- `create_task` announces the task and returns a pointer to `s`. In the new table `s` follows the
-- entries `xs`, has the PID that was next, and the entry point as its instruction pointer; the next
-- PID is one more, and the current task and the PIDs of the other entries are as they were.
pub create_task_lem :
    (t : Tasks) (xs : List ℕ) (s : ℕ) (name : List ℕ) (entry_point : ℕ)
    → IsTable t xs
    → length xs < 64
    → find_slot 64 0 t.tasks ≡ some s
    → (t' : Tasks) × (create_task t name entry_point
        ≡ some (
          some s,
          t',
          print_string "[TASK] Created task: " ∷ print_bytes name ∷ print_string "\n" ∷ [],
        ))
      × IsTable t' (xs ++ s ∷ [])
      × ((t'.tasks s).pid ≡ pos t.next_pid)
      × ((t'.tasks s).eip ≡ entry_point)
      × (t'.next_pid ≡ t.next_pid + 1)
      × (t'.current_task ≡ t.current_task)
      × ((i : ℕ) → i ≢ s → (t'.tasks i).pid ≡ (t.tasks i).pid)
unfolding create_task
create_task_lem t xs s name entry_point ok room found =
    let free : eqb_ℤ (t.tasks s).pid invalid_pid ≡ true =
      subst (Free t.tasks) found (find_slot-Free 64 0 t.tasks) in
    let fits : leb 64 t.task_count ≡ false = ground (arith, ok.counted) in
    let ready : IsTable (created t xs s name entry_point) (xs ++ s ∷ []) =
      created-IsTable t xs s name entry_point ok room free in
    let misses : Misses s xs = Used-Misses t.tasks s xs free ok.used in
    (
      created t xs s name entry_point,
      rw (fits, found)
          (ap (announce s name) (
            link_task_lem (filled t xs s name entry_point) s xs
              (Chain-update t.tasks t.task_list xs s (new_task t s name entry_point) misses
                ok.chain)
              ok.fits)),
      ready,
      linked-pid (filled t xs s name entry_point) s xs s ∙ filled-new t xs s name entry_point,
      linked-eip (filled t xs s name entry_point) s xs s ∙ filled-eip t xs s name entry_point,
      (linked-counts (filled t xs s name entry_point) s xs).1,
      (linked-counts (filled t xs s name entry_point) s xs).2,
      λ i other.
          let miss : (i == s) ≡ false = ground arith in
          linked-pid (filled t xs s name entry_point) s xs i
          ∙ ap (λ (k : Task). k.pid) (filled-old t xs s name entry_point i miss),
    )

find_slot-none :
    (left i : ℕ) (f : ℕ → Task)
    → ((j : ℕ) → eqb_ℤ (f j).pid invalid_pid ≡ false)
    → find_slot left i f ≡ none
unfolding find_slot
find_slot-none zero i f h = refl
find_slot-none (suc left) i f h = rw (h i, find_slot-none left (i + 1) f h) refl

-- When no entry has the PID -1 and there are fewer than 64 tasks, `create_task` finds no entry: it
-- returns null, reports an error, and changes nothing.
pub create_task_uncleared :
    (t : Tasks) (name : List ℕ) (entry_point : ℕ)
    → ((j : ℕ) → eqb_ℤ (t.tasks j).pid invalid_pid ≡ false)
    → t.task_count < 64
    → create_task t name entry_point
      ≡ some (none, t, print_string "[ERROR] No free task slot\n" ∷ [])
unfolding create_task
create_task_uncleared t name entry_point h l =
    let room : leb 64 t.task_count ≡ false = ground arith in
    rw (room, find_slot-none 64 0 t.tasks h) refl
