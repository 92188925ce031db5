-- ===== src/Task/Keeping.antt =====
-- The task manager's calls keep the table in order, and all of them end.
use os_simple.Base.{
  ℕ, ◌≡◌, refl, ap, sym, subst, ◌∙◌, List, [], ◌∷◌, ◌++◌, Option, some, ◌==◌, ◌⊎◌, inl, inr,
  Bool-cases, update, arith,
}
use os_simple.Base.Int.{eqb_ℤ}
use os_simple.Task.Table.{Task, Tasks, TaskState, running, ready, is_running, runnable, invalid_pid}
use os_simple.Task.Switching.{switch_from, schedule}
use os_simple.Task.Chain.{Chain, Misses, Occurs}
use os_simple.Task.Linking.{IsTable, Distinct, Used}
use os_simple.Task.Rotation.{first_runnable, schedule_lem, schedule_last}

-- The table has the entries `xs` on the list, and the current task is one of them.
abbrev pub IsTasks : Tasks → List ℕ → Type 0
IsTasks t xs = IsTable t xs × ((c : ℕ) × (t.current_task ≡ some c) × Occurs c xs)

-- Two tables that agree on PIDs and links.
abbrev pub SameLinks : (ℕ → Task) → (ℕ → Task) → Type 0
SameLinks f g = (i : ℕ) → ((g i).pid ≡ (f i).pid) × ((g i).next ≡ (f i).next)

SameLinks-Chain :
    (f g : ℕ → Task) (p : Option ℕ) (xs : List ℕ) → SameLinks f g → Chain f p xs → Chain g p xs
SameLinks-Chain f g p [] e h = h
SameLinks-Chain f g p (x ∷ xs) e h = (h.0, SameLinks-Chain f g (g x).next xs e (rw ((e x).1) h.1))

SameLinks-Used : (f g : ℕ → Task) (xs : List ℕ) → SameLinks f g → Used f xs → Used g xs
SameLinks-Used f g [] e h = tt
SameLinks-Used f g (x ∷ xs) e h =
    (ap (λ p. eqb_ℤ p invalid_pid) (e x).0 ∙ h.0, SameLinks-Used f g xs e h.1)

-- Changing states alone keeps the table, whatever the current task is then.
pub SameLinks-IsTable :
    (t : Tasks) (g : ℕ → Task) (c : Option ℕ) (xs : List ℕ)
    → SameLinks t.tasks g
    → IsTable t xs
    → IsTable (record t { tasks = g; current_task = c }) xs
SameLinks-IsTable t g c xs e ok = record {
  chain = SameLinks-Chain t.tasks g t.task_list xs e ok.chain;
  distinct = ok.distinct;
  used = SameLinks-Used t.tasks g xs e ok.used;
  counted = ok.counted;
  fits = ok.fits;
  unlinked = λ i free. (e i).1 ∙ ok.unlinked i (sym (ap (λ p. eqb_ℤ p invalid_pid) (e i).0) ∙ free);
}

-- Storing a state in one entry.
pub state-SameLinks :
    (f : ℕ → Task) (n : ℕ) (s : TaskState) → SameLinks f (update f n (record (f n) { state = s }))
state-SameLinks f n s i = elim (Bool-cases (i == n)) [
  | inl hit ↦
      let same : i ≡ n = ground arith in
      (rw hit (ap (λ j. (f j).pid) (sym same)), rw hit (ap (λ j. (f j).next) (sym same)))
  | inr miss ↦ (rw miss refl, rw miss refl)
]

-- The switch of `schedule` stores states alone.
pub switch-SameLinks : (t : Tasks) (c n : ℕ) → SameLinks t.tasks (switch_from t c n).tasks
switch-SameLinks t c n i =
    let f = t.tasks in
    let started = update f n (record (f n) { state = running }) in
    let first = state-SameLinks f n running i in
    let second = state-SameLinks started c ready i in
    elim (Bool-cases (is_running (started c).state)) [
      | inl was ↦ (rw was (second.0 ∙ first.0), rw was (second.1 ∙ first.1))
      | inr not_was ↦ (rw not_was first.0, rw not_was first.1)
    ]

-- An element splits the list, and in a list of distinct elements the parts miss it.
split_at :
    (c : ℕ) (xs : List ℕ)
    → Occurs c xs
    → Distinct xs
    → (pre : List ℕ) × (post : List ℕ) × (xs ≡ pre ++ c ∷ post) × Misses c pre × Misses c post
split_at c [] o d = elim o [ ]
split_at c (x ∷ xs) (inl e) d =
    ([], xs, ap (λ y. y ∷ xs) (sym e), tt, subst (λ y. Misses y xs) (sym e) d.0)
split_at c (x ∷ xs) (inr o) d =
    let rest = split_at c xs o d.1 in
    (
      x ∷ rest.0,
      rest.1,
      ap (λ ys. x ∷ ys) rest.2,
      (λ e. Misses-not_Occurs x xs d.0 (subst (λ y. Occurs y xs) e o), rest.3),
      rest.4,
    )
  where
    Misses-not_Occurs : (x : ℕ) (xs : List ℕ) → Misses x xs → Occurs x xs → ⊥
    Misses-not_Occurs x [] m o = o
    Misses-not_Occurs x (y ∷ ys) m (inl e) = m.0 e
    Misses-not_Occurs x (y ∷ ys) m (inr o) = Misses-not_Occurs x ys m.1 o

-- The chain from an element on.
pub Chain-after :
    (f : ℕ → Task) (p : Option ℕ) (pre : List ℕ) (c : ℕ) (post : List ℕ)
    → Chain f p (pre ++ c ∷ post)
    → Chain f (f c).next post
Chain-after f p [] c post h = h.1
Chain-after f p (x ∷ pre) c post h = Chain-after f (f x).next pre c post h.1

pub Occurs-append : (c : ℕ) (xs ys : List ℕ) → Occurs c xs ⊎ Occurs c ys → Occurs c (xs ++ ys)
Occurs-append c [] ys (inl o) = elim o [ ]
Occurs-append c [] ys (inr o) = o
Occurs-append c (x ∷ xs) ys (inl (inl e)) = inl e
Occurs-append c (x ∷ xs) ys (inl (inr o)) = inr (Occurs-append c xs ys (inl o))
Occurs-append c (x ∷ xs) ys (inr o) = inr (Occurs-append c xs ys (inr o))

Occurs-unappend : (c : ℕ) (xs ys : List ℕ) → Occurs c (xs ++ ys) → Occurs c xs ⊎ Occurs c ys
Occurs-unappend c [] ys o = inr o
Occurs-unappend c (x ∷ xs) ys (inl e) = inl (inl e)
Occurs-unappend c (x ∷ xs) ys (inr o) = elim (Occurs-unappend c xs ys o) [
  | inl h ↦ inl (inr h)
  | inr h ↦ inr h
]

-- What the search finds is `c` or on the list searched.
first_runnable-Occurs :
    (f : ℕ → Task) (c : ℕ) (xs : List ℕ) → Occurs (first_runnable f c xs) (c ∷ xs)
first_runnable-Occurs f c [] = inl refl
first_runnable-Occurs f c (x ∷ xs) = elim (Bool-cases (runnable (f x).state)) [
  | inl run ↦ let this : first_runnable f c (x ∷ xs) ≡ x = rw run refl in inr (inl this)
  | inr stop ↦
      let later : first_runnable f c (x ∷ xs) ≡ first_runnable f c xs = rw stop refl in
      subst (λ n. Occurs n (c ∷ x ∷ xs)) (sym later) (skip (first_runnable-Occurs f c xs))
]
  where
    skip : {n : ℕ} → Occurs n (c ∷ xs) → Occurs n (c ∷ x ∷ xs)
    skip (inl e) = inl e
    skip (inr o) = inr (inr o)

switch-IsTasks :
    (t : Tasks) (c n : ℕ) (xs : List ℕ)
    → IsTable t xs
    → Occurs n xs
    → IsTasks (switch_from t c n) xs
switch-IsTasks t c n xs ok o = (
  SameLinks-IsTable t (switch_from t c n).tasks (some n) xs (switch-SameLinks t c n) ok,
  (n, refl, o),
)

-- `schedule`, by the entries before and after the current task.
schedule_split :
    (t : Tasks) (c : ℕ) (pre post : List ℕ)
    → IsTable t (pre ++ c ∷ post)
    → t.current_task ≡ some c
    → Misses c pre
    → Misses c post
    → (t' : Tasks) × (schedule t ≡ some t') × IsTasks t' (pre ++ c ∷ post)
schedule_split t c pre [] ok current m n = (
  t,
  schedule_last t c current (Chain-after t.tasks t.task_list pre c [] ok.chain),
  (ok, (c, current, Occurs-append c pre (c ∷ []) (inr (inl refl)))),
)
schedule_split t c pre (y ∷ ys) ok current m n =
    let target : ℕ = first_runnable t.tasks c (y ∷ ys ++ pre) in
    let here : Occurs c (pre ++ c ∷ y ∷ ys) = Occurs-append c pre (c ∷ y ∷ ys) (inr (inl refl)) in
    let found : Occurs target (pre ++ c ∷ y ∷ ys) =
      Occurs-append target pre (c ∷ y ∷ ys)
        (elim (first_runnable-Occurs t.tasks c (y ∷ ys ++ pre)) [
          | inl e ↦ inr (inl e)
          | inr o ↦ elim (Occurs-unappend target (y ∷ ys) pre o) [
            | inl after ↦ inr (inr after)
            | inr before ↦ inl before
          ]
        ]) in
    let run =
      schedule_lem t c y ys pre current ok.chain
        (Chain-after t.tasks t.task_list pre c (y ∷ ys) ok.chain) n.1 m ok.fits in
    elim (Bool-cases (target == c)) [
      | inl same ↦ (t, run ∙ rw same refl, (ok, (c, current, here)))
      | inr other ↦ (
        switch_from t c target,
        run ∙ rw other refl,
        switch-IsTasks t c target (pre ++ c ∷ y ∷ ys) ok found,
      )
    ]

-- With the table in order and the current task on the list, `schedule` returns, and keeps both.
pub schedule-IsTasks :
    (t : Tasks) (xs : List ℕ) → IsTasks t xs → (t' : Tasks) × (schedule t ≡ some t') × IsTasks t' xs
schedule-IsTasks t xs (ok, (c, current, on)) =
    let parts = split_at c xs on ok.distinct in
    subst (λ ys. (t' : Tasks) × (schedule t ≡ some t') × IsTasks t' ys) (sym parts.2)
      (schedule_split t c parts.0 parts.1 (subst (IsTable t) parts.2 ok) current parts.3 parts.4)
