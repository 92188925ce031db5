-- ===== src/Task/Linking.antt =====
-- Linking a free entry at the end of the task list, the last step of `create_task`.
use os_simple.Base.{
  ℕ, zero, suc, ◌+◌, ◌≤◌, ◌≡◌, ◌≢◌, refl, ap, sym, ◌∙◌, true, false, List, [], ◌∷◌, ◌++◌, Option,
  none, some, ◌==◌, inl, inr, Bool-cases, length, update, arith,
}
use os_simple.Base.Int.{eqb_ℤ}
use os_simple.Task.Table.{Task, Tasks, invalid_pid}
use os_simple.Task.Creating.{find_slot, link_after, link_at, link_task}
use os_simple.Task.Chain.{Chain, Misses, last_of, last_task_lem}

-- No index occurs twice.
abbrev pub Distinct : List ℕ → Type 0
Distinct [] = Unit {0}
Distinct (x ∷ xs) = Misses x xs × Distinct xs

-- The entries of the list are in use, and not linked to a free one.
abbrev pub Used : (ℕ → Task) → List ℕ → Type 0
Used f [] = Unit {0}
Used f (x ∷ xs) = (eqb_ℤ (f x).pid invalid_pid ≡ false) × Used f xs

-- The task list has the entries `xs`, in this order: they differ, are in use, and are as many as
-- `task_count` says, at most 64; and no free entry is linked to another.
pub record IsTable (t : Tasks) (xs : List ℕ) : Type 0 where
  pub chain : Chain t.tasks t.task_list xs
  pub distinct : Distinct xs
  pub used : Used t.tasks xs
  pub counted : t.task_count ≡ length xs
  pub fits : length xs ≤ 64
  pub unlinked : (i : ℕ) → eqb_ℤ (t.tasks i).pid invalid_pid ≡ true → (t.tasks i).next ≡ none

pub Misses-last_of : (c y : ℕ) (ys : List ℕ) → Misses c (y ∷ ys) → c ≢ last_of y ys
Misses-last_of c y [] m = m.0
Misses-last_of c y (z ∷ zs) m = Misses-last_of c z zs m.1

-- A free entry is not on the list.
pub Used-Misses :
    (f : ℕ → Task) (s : ℕ) (xs : List ℕ)
    → eqb_ℤ (f s).pid invalid_pid ≡ true
    → Used f xs
    → Misses s xs
Used-Misses f s [] h u = tt
Used-Misses f s (x ∷ xs) h u = (
  λ e. let clash : true ≡ false = sym h ∙ ap (λ i. eqb_ℤ (f i).pid invalid_pid) e ∙ u.0 in cc,
  Used-Misses f s xs h u.1,
)

-- Linking an entry with a null `next` after the last one.
pub extend :
    (f : ℕ → Task) (s : ℕ) (p : Option ℕ) (x : ℕ) (xs : List ℕ)
    → Chain f p (x ∷ xs)
    → Distinct (x ∷ xs)
    → Misses s (x ∷ xs)
    → (f s).next ≡ none
    → Chain
        (update f (last_of x xs) (record (f (last_of x xs)) { next = some s }))
        p
        (x ∷ xs ++ s ∷ [])
extend f s p x [] h d m e =
    let same : (x == x) ≡ true = ground arith in
    let apart : (s == x) ≡ false = ground arith in (h.0, (rw same refl, rw apart e))
extend f s p x (y ∷ ys) h d m e =
    let apart : (x == last_of y ys) ≡ false =
      let ne : x ≢ last_of y ys = Misses-last_of x y ys d.0 in ground arith in
    (h.0, rw apart (extend f s (f x).next y ys h.1 d.1 m.1 e))

-- What the search finds is free.
abbrev pub Free : (ℕ → Task) → Option ℕ → Type 0
Free f none = Unit {0}
Free f (some s) = eqb_ℤ (f s).pid invalid_pid ≡ true

pub find_slot-Free : (left i : ℕ) (f : ℕ → Task) → Free f (find_slot left i f)
unfolding find_slot
find_slot-Free zero i f = tt
find_slot-Free (suc left) i f = elim (Bool-cases (eqb_ℤ (f i).pid invalid_pid)) [
  | inl free ↦ rw free free
  | inr taken ↦ rw taken (find_slot-Free left (i + 1) f)
]

-- The state with entry `s` linked after the list `xs`.
abbrev pub linked : Tasks → ℕ → List ℕ → Tasks
linked t s [] = record t { task_list = some s }
linked t s (x ∷ xs) = record t {
  tasks = update t.tasks (last_of x xs) (record (t.tasks (last_of x xs)) { next = some s });
}

pub link_task_lem :
    (t : Tasks) (s : ℕ) (xs : List ℕ)
    → Chain t.tasks t.task_list xs
    → length xs ≤ 64
    → link_task t s ≡ some (linked t s xs)
link_task_lem t s [] h l = ap (link_at t s) h
link_task_lem t s (x ∷ xs) h l =
    ap (link_at t s) h.0 ∙ ap (link_after t s) (last_task_lem 65 t.tasks x xs h.1 (omega arith))

pub linked-Chain :
    (t : Tasks) (s : ℕ) (xs : List ℕ)
    → Chain t.tasks t.task_list xs
    → Distinct xs
    → Misses s xs
    → (t.tasks s).next ≡ none
    → Chain (linked t s xs).tasks (linked t s xs).task_list (xs ++ s ∷ [])
linked-Chain t s [] h d m e = (refl, e)
linked-Chain t s (x ∷ xs) h d m e = extend t.tasks s t.task_list x xs h d m e

pub Misses-sym : (s : ℕ) (xs : List ℕ) → Misses s xs → Distinct xs → Distinct (xs ++ s ∷ [])
Misses-sym s [] m d = (tt, tt)
Misses-sym s (x ∷ xs) m d = (Misses-append x s xs d.0 (λ e. m.0 (sym e)), Misses-sym s xs m.1 d.1)
  where
    Misses-append : (x s : ℕ) (xs : List ℕ) → Misses x xs → x ≢ s → Misses x (xs ++ s ∷ [])
    Misses-append x s [] m e = (e, tt)
    Misses-append x s (y ∷ ys) m e = (m.0, Misses-append x s ys m.1 e)

-- Entries stay in use when the table changes so, and the new one is in use too.
pub Used-append :
    (f g : ℕ → Task) (s : ℕ) (xs : List ℕ)
    → ((i : ℕ) → eqb_ℤ (f i).pid invalid_pid ≡ false → eqb_ℤ (g i).pid invalid_pid ≡ false)
    → eqb_ℤ (g s).pid invalid_pid ≡ false
    → Used f xs
    → Used g (xs ++ s ∷ [])
Used-append f g s [] k e u = (e, tt)
Used-append f g s (x ∷ xs) k e u = (k x u.0, Used-append f g s xs k e u.1)

-- Linking changes no PID and no instruction pointer, and neither the count nor the next
-- PID nor the current task.
pub linked-pid :
    (t : Tasks) (s : ℕ) (xs : List ℕ) (i : ℕ) → ((linked t s xs).tasks i).pid ≡ (t.tasks i).pid
linked-pid t s [] i = refl
linked-pid t s (x ∷ xs) i = elim (Bool-cases (i == last_of x xs)) [
  | inl hit ↦
      let same : i ≡ last_of x xs = ground arith in rw hit (ap (λ j. (t.tasks j).pid) (sym same))
  | inr miss ↦ rw miss refl
]

pub linked-eip :
    (t : Tasks) (s : ℕ) (xs : List ℕ) (i : ℕ) → ((linked t s xs).tasks i).eip ≡ (t.tasks i).eip
linked-eip t s [] i = refl
linked-eip t s (x ∷ xs) i = elim (Bool-cases (i == last_of x xs)) [
  | inl hit ↦
      let same : i ≡ last_of x xs = ground arith in rw hit (ap (λ j. (t.tasks j).eip) (sym same))
  | inr miss ↦ rw miss refl
]

pub linked-counts :
    (t : Tasks) (s : ℕ) (xs : List ℕ)
    → ((linked t s xs).task_count ≡ t.task_count)
      × ((linked t s xs).next_pid ≡ t.next_pid)
      × ((linked t s xs).current_task ≡ t.current_task)
linked-counts t s [] = (refl, refl, refl)
linked-counts t s (x ∷ xs) = (refl, refl, refl)

-- A free entry keeps its `next`.
pub linked-next :
    (t : Tasks) (s : ℕ) (xs : List ℕ) (i : ℕ)
    → Misses i xs
    → ((linked t s xs).tasks i).next ≡ (t.tasks i).next
linked-next t s [] i m = refl
linked-next t s (x ∷ xs) i m =
    let ne : i ≢ last_of x xs = Misses-last_of i x xs m in
    let apart : (i == last_of x xs) ≡ false = ground arith in rw apart refl
