-- ===== src/Scheduler/Queue.antt =====
-- The queue of the scheduler against a list: adding at the end, and removing.
use os_simple.Base.{
  ℕ, suc, ◌≤◌, ◌<◌, ◌≡◌, refl, ap, sym, subst, ◌∙◌, true, false, List, [], ◌∷◌, ◌++◌, Option, none,
  some, ◌==◌, if◌then◌else◌, inl, inr, Bool-cases, length, length-append, arith,
}
use os_simple.Task.Table.{Tasks, points_to, max_tasks}
use os_simple.Task.Chain.{Chain, Misses, Chain-update, last_of}
use os_simple.Task.Linking.{Distinct, Misses-last_of, Misses-sym, extend}
use os_simple.Scheduler.State.{Scheduler}
use os_simple.Scheduler.Entries.{
  entered, add_at, add_task_to_scheduler, remove_head, remove_next, remove_at,
  remove_task_from_scheduler,
}
use os_simple.Scheduler.Splice.{
  last_pointer, without, Misses-without, Distinct-without, pred_of, before_task_lem, bypassed, cut,
  uncut, last-without, last_of-append,
}

-- The queue has the entries `xs`, all different, from its head along `next`, and its tail is the last.
pub record IsQueue (s : Scheduler) (t : Tasks) (xs : List ℕ) : Type 0 where
  pub chain : Chain t.tasks s.task_queue_head xs
  pub distinct : Distinct xs
  pub tail : s.task_queue_tail ≡ last_pointer xs

abbrev pub QueueOf : Scheduler × Tasks → List ℕ → Type 0
QueueOf (s, t) xs = IsQueue s t xs

entered-next : (t : Tasks) (i : ℕ) → ((entered t i).tasks i).next ≡ none
entered-next t i = let here : (i == i) ≡ true = ground arith in rw here refl

-- Adding an entry that is not on the queue puts it at the end.
pub add-IsQueue :
    (s : Scheduler) (t : Tasks) (i : ℕ) (xs : List ℕ)
    → Misses i xs
    → IsQueue s t xs
    → QueueOf (add_task_to_scheduler s t (some i)) (xs ++ i ∷ [])
unfolding add_task_to_scheduler
add-IsQueue s t i [] m v =
    subst (λ r. QueueOf r (i ∷ [])) (sym (ap (λ p. add_at s t i p s.task_queue_tail) v.chain))
      (record { chain = (refl, entered-next t i); distinct = (tt, tt); tail = refl })
add-IsQueue s t i (x ∷ xs) m v =
    let run : add_at s t i s.task_queue_head s.task_queue_tail
        ≡ add_at s t i (some x) (some (last_of x xs)) =
      ap (λ p. add_at s t i p s.task_queue_tail) v.chain.0 ∙ ap (add_at s t i (some x)) v.tail in
    subst (λ r. QueueOf r (x ∷ xs ++ i ∷ [])) (sym run)
      (record {
        chain =
            extend (entered t i).tasks i s.task_queue_head x xs
              (Chain-update t.tasks s.task_queue_head (x ∷ xs) i _ m v.chain) v.distinct m
              (entered-next t i);
        distinct = Misses-sym i (x ∷ xs) m v.distinct;
        tail = ap (λ n. some n) (sym (last_of-append x i xs));
      })

remove_head-IsQueue :
    (s : Scheduler) (t : Tasks) (x : ℕ) (xs : List ℕ)
    → IsQueue s t (x ∷ xs)
    → QueueOf (remove_head s t x) xs
remove_head-IsQueue s t x xs v = record {
  chain = v.chain.1;
  distinct = v.distinct.1;
  tail = rw v.tail (after xs v.distinct.0);
}
  where
    after :
        (ys : List ℕ)
        → Misses x ys
        → (if last_of x ys == x then none else some (last_of x ys)) ≡ last_pointer ys
    after [] m = let here : (x == x) ≡ true = ground arith in rw here refl
    after (y ∷ ys) m =
        let apart : (last_of y ys == x) ≡ false =
          let ne = Misses-last_of x y ys m in ground arith in
        rw apart refl

remove_next-IsQueue :
    (s : Scheduler) (t : Tasks) (i x : ℕ) (xs : List ℕ)
    → (x == i) ≡ false
    → IsQueue s t (x ∷ xs)
    → QueueOf (remove_next s t i (pred_of i x xs)) (x ∷ without i xs)
remove_next-IsQueue s t i x xs other v =
    elim (Bool-cases (points_to (t.tasks (pred_of i x xs)).next i)) [
      | inl found ↦ rw found (spliced found)
      | inr absent ↦
          rw absent
            (subst (λ ys. IsQueue s t (x ∷ ys)) (sym (uncut t.tasks i x xs v.chain.1 absent)) v)
    ]
  where
    ends :
        (if points_to s.task_queue_tail i then some (pred_of i x xs) else s.task_queue_tail)
        ≡ some (last_of x (without i xs))
    ends = elim (Bool-cases (last_of x xs == i)) [
      | inl hit ↦ rw (v.tail, last-without i x xs v.distinct other, hit) refl
      | inr miss ↦ rw (v.tail, last-without i x xs v.distinct other, miss) refl
    ]

    spliced :
        points_to (t.tasks (pred_of i x xs)).next i ≡ true
        → IsQueue
            (record s {
              task_queue_tail =
                  if points_to s.task_queue_tail i
                  then some (pred_of i x xs)
                  else s.task_queue_tail;
            })
            (record t { tasks = bypassed t.tasks i (pred_of i x xs) })
            (x ∷ without i xs)
    spliced found = record {
      chain = cut t.tasks i s.task_queue_head x xs v.chain v.distinct found;
      distinct = (Misses-without x i xs v.distinct.0, Distinct-without i xs v.distinct.1);
      tail = ends;
    }

-- The walk has ended, and the queue has the entries `xs`.
abbrev pub Queued : Option (Scheduler × Tasks) → List ℕ → Type 0
Queued none xs = ⊥
Queued (some r) xs = QueueOf r xs

pub remove-IsQueue :
    (s : Scheduler) (t : Tasks) (i : ℕ) (xs : List ℕ)
    → length xs ≤ max_tasks
    → IsQueue s t xs
    → Queued (remove_task_from_scheduler s t (some i)) (without i xs)
unfolding remove_task_from_scheduler
remove-IsQueue s t i [] l v = subst (λ o. Queued o []) (sym (ap (remove_at s t i) v.chain)) v
remove-IsQueue s t i (x ∷ xs) l v =
    subst (λ o. Queued o (without i (x ∷ xs))) (sym (ap (remove_at s t i) v.chain.0))
      (elim (Bool-cases (x == i)) [
        | inl hit ↦
            let same : x ≡ i = ground arith in
            rw hit
              (subst (λ j. QueueOf (remove_head s t j) xs) same (remove_head-IsQueue s t x xs v))
        | inr miss ↦
            rw (miss, before_task_lem (suc max_tasks) t.tasks i x xs v.chain.1 (omega arith))
              (remove_next-IsQueue s t i x xs miss v)
      ])

-- A call that changes the queue.
pub data QueueCall : Type 0 where
  adding : ℕ → QueueCall
  removing : ℕ → QueueCall

-- What the call does to the list of the entries.
abbrev pub listed : QueueCall → List ℕ → List ℕ
listed (adding i) xs = xs ++ i ∷ []
listed (removing i) xs = without i xs

abbrev pub listed_all : List QueueCall → List ℕ → List ℕ
listed_all [] xs = xs
listed_all (c ∷ cs) xs = listed_all cs (listed c xs)

-- An entry is added only while it is not on the queue.
abbrev pub IsAllowed : List QueueCall → List ℕ → Type 0
IsAllowed [] xs = Unit
IsAllowed (adding i ∷ cs) xs = Misses i xs × length xs < max_tasks × IsAllowed cs (xs ++ i ∷ [])
IsAllowed (removing i ∷ cs) xs = IsAllowed cs (without i xs)

abbrev pub queue_call : QueueCall → Scheduler × Tasks → Option (Scheduler × Tasks)
queue_call (adding i) (s, t) = some (add_task_to_scheduler s t (some i))
queue_call (removing i) (s, t) = remove_task_from_scheduler s t (some i)

abbrev pub queue_calls : List QueueCall → Option (Scheduler × Tasks) → Option (Scheduler × Tasks)
queue_calls cs none = none
queue_calls [] (some r) = some r
queue_calls (c ∷ cs) (some r) = queue_calls cs (queue_call c r)

length-without : (i : ℕ) (xs : List ℕ) → length (without i xs) ≤ length xs
length-without i [] = omega arith
length-without i (x ∷ xs) = elim (Bool-cases (x == i)) [
  | inl hit ↦ rw hit (omega arith)
  | inr miss ↦ rw miss (let shorter = length-without i xs in omega arith)
]

-- From a queue whose entries are a list of at most 64 numbers, all different, every sequence of calls of
-- `add_task_to_scheduler` and `remove_task_from_scheduler`, in which an entry is added only while it
-- is not on the queue and the queue has fewer than 64, returns; the queue has then, from its head
-- along `next` and with the right tail, the entries that the same calls leave on the list, where an
-- addition appends the entry and a removal takes its occurrence out, if there is one.
pub queue_calls-Queued :
    (cs : List QueueCall) (o : Option (Scheduler × Tasks)) (xs : List ℕ)
    → length xs ≤ max_tasks
    → IsAllowed cs xs
    → Queued o xs
    → Queued (queue_calls cs o) (listed_all cs xs)
queue_calls-Queued cs none xs l a v = elim v [ ]
queue_calls-Queued [] (some (s, t)) xs l a v = v
queue_calls-Queued (adding i ∷ cs) (some (s, t)) xs l a v =
    queue_calls-Queued cs (some (add_task_to_scheduler s t (some i))) (xs ++ i ∷ [])
      (let room = a.1 in rw length-append (omega arith)) a.2 (add-IsQueue s t i xs a.0 v)
queue_calls-Queued (removing i ∷ cs) (some (s, t)) xs l a v =
    queue_calls-Queued cs (remove_task_from_scheduler s t (some i)) (without i xs)
      (let shorter = length-without i xs in omega arith) a (remove-IsQueue s t i xs l v)
