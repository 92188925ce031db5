-- ===== src/Task/Chain.antt =====
-- Lists of tasks along `next`, and walks along them that end.
use os_simple.Base.{
  ℕ, zero, suc, ◌≤◌, ◌<◌, ◌≡◌, ◌≢◌, false, List, [], ◌∷◌, Option, none, some, ◌==◌, if◌then◌else◌,
  ◌⊎◌, inl, inr, Bool-cases, length, update, arith,
}
use os_simple.Base.Int.{ℤ, eqb_ℤ}
use os_simple.Task.Table.{Task, Tasks}
use os_simple.Task.Creating.{last_task}
use os_simple.Task.Lookup.{find_from, find_task}

-- From the pointer `p`, `next` leads through the entries `xs` and ends.
abbrev pub Chain : (ℕ → Task) → Option ℕ → List ℕ → Type 0
Chain f p [] = p ≡ none
Chain f p (x ∷ xs) = (p ≡ some x) × Chain f (f x).next xs

-- `c` is not an element.
abbrev pub Misses : ℕ → List ℕ → Type 0
Misses c [] = Unit {0}
Misses c (x ∷ xs) = (c ≢ x) × Misses c xs

-- `c` is an element.
abbrev pub Occurs : ℕ → List ℕ → Type 0
Occurs c [] = ⊥
Occurs c (x ∷ xs) = (c ≡ x) ⊎ Occurs c xs

-- Changing an entry off the chain, or anything but the `next` of an entry on it, keeps the chain.
pub Chain-update :
    (f : ℕ → Task) (p : Option ℕ) (xs : List ℕ) (i : ℕ) (v : Task)
    → Misses i xs
    → Chain f p xs
    → Chain (update f i v) p xs
Chain-update f p [] i v m h = h
Chain-update f p (x ∷ xs) i v m h =
    let same : (x == i) ≡ false = ground arith in
    (h.0, rw same (Chain-update f (f x).next xs i v m.1 h.1))

-- The last element of a chain.
abbrev pub last_of : ℕ → List ℕ → ℕ
last_of x [] = x
last_of x (y ∷ ys) = last_of y ys

pub last_task_lem :
    (fuel : ℕ) (f : ℕ → Task) (x : ℕ) (xs : List ℕ)
    → Chain f (f x).next xs
    → length xs < fuel
    → last_task fuel f x ≡ some (last_of x xs)
unfolding last_task
last_task_lem zero f x xs h l = elim l [ ]
last_task_lem (suc fuel) f x [] h l = rw (h, last_task)
last_task_lem (suc fuel) f x (y ∷ ys) h l =
    rw (h.0, last_task) (last_task_lem fuel f y ys h.1 (omega arith))

-- The first entry of the list with the PID.
pub find_pid : (ℕ → Task) → ℤ → List ℕ → Option ℕ
find_pid f pid [] = none
find_pid f pid (x ∷ xs) = if eqb_ℤ (f x).pid pid then some x else find_pid f pid xs

find_from_lem :
    (fuel : ℕ) (f : ℕ → Task) (pid : ℤ) (p : Option ℕ) (xs : List ℕ)
    → Chain f p xs
    → length xs < fuel
    → find_from fuel f pid p ≡ some (find_pid f pid xs)
unfolding find_from find_pid
find_from_lem zero f pid p xs h l = elim l [ ]
find_from_lem (suc fuel) f pid p [] h l = rw h
find_from_lem (suc fuel) f pid p (x ∷ xs) h l =
    rw (h.0, find_from_lem fuel f pid (f x).next xs h.1 (omega arith))
      (elim (Bool-cases (eqb_ℤ (f x).pid pid)) [ inl hit ↦ rw hit | inr miss ↦ rw miss ])

-- On a task list of at most 64 entries that ends, the walk of `find_task` ends, at the first entry of
-- the list with the PID, or with null when there is none.
pub find_task_lem :
    (t : Tasks) (pid : ℤ) (xs : List ℕ)
    → Chain t.tasks t.task_list xs
    → length xs ≤ 64
    → find_task t pid ≡ some (find_pid t.tasks pid xs)
unfolding find_task
find_task_lem t pid xs h l = find_from_lem 65 t.tasks pid t.task_list xs h (omega arith)
