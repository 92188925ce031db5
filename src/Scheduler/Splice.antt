-- ===== src/Scheduler/Splice.antt =====
-- Removing an entry from a list that is linked by `next`.
use os_simple.Base.{
  ℕ, zero, suc, ◌<◌, ◌≡◌, ◌≢◌, refl, ap, sym, subst, ◌∙◌, true, false, List, [], ◌∷◌, ◌++◌, Option,
  none, some, ◌==◌, if◌then◌else◌, inl, inr, Bool-cases, length, update, arith,
}
use os_simple.Task.Table.{Task, points_to}
use os_simple.Task.Chain.{Chain, Misses, Chain-update, last_of}
use os_simple.Task.Linking.{Distinct, Misses-last_of}
use os_simple.Scheduler.Entries.{before_task}

abbrev pub last_pointer : List ℕ → Option ℕ
last_pointer [] = none
last_pointer (x ∷ xs) = some (last_of x xs)

-- The list with an element taken out.
abbrev pub without : ℕ → List ℕ → List ℕ
without i [] = []
without i (x ∷ xs) = if x == i then xs else x ∷ without i xs

pub Misses-without : (c i : ℕ) (xs : List ℕ) → Misses c xs → Misses c (without i xs)
Misses-without c i [] m = tt
Misses-without c i (x ∷ xs) m = elim (Bool-cases (x == i)) [
  | inl hit ↦ rw hit m.1
  | inr miss ↦ rw miss (m.0, Misses-without c i xs m.1)
]

pub Distinct-without : (i : ℕ) (xs : List ℕ) → Distinct xs → Distinct (without i xs)
Distinct-without i [] d = tt
Distinct-without i (x ∷ xs) d = elim (Bool-cases (x == i)) [
  | inl hit ↦ rw hit d.1
  | inr miss ↦ rw miss (Misses-without x i xs d.0, Distinct-without i xs d.1)
]

-- The entry at which the walk to `i` ends, from `x` on.
abbrev pub pred_of : ℕ → ℕ → List ℕ → ℕ
pred_of i x [] = x
pred_of i x (y ∷ ys) = if y == i then x else pred_of i y ys

pub before_task_lem :
    (fuel : ℕ) (f : ℕ → Task) (i x : ℕ) (xs : List ℕ)
    → Chain f (f x).next xs
    → length xs < fuel
    → before_task fuel f i x ≡ some (pred_of i x xs)
unfolding before_task
before_task_lem zero f i x xs h l = elim l [ ]
before_task_lem (suc fuel) f i x [] h l = rw (before_task, h) refl
before_task_lem (suc fuel) f i x (y ∷ ys) h l =
    rw (before_task, h.0, before_task_lem fuel f i y ys h.1 (omega arith)) (ground arith)

Misses-pred_of : (c i y : ℕ) (ys : List ℕ) → Misses c (y ∷ ys) → c ≢ pred_of i y ys
Misses-pred_of c i y [] m = m.0
Misses-pred_of c i y (z ∷ zs) m = elim (Bool-cases (z == i)) [
  | inl hit ↦ rw hit m.0
  | inr miss ↦ rw miss (Misses-pred_of c i z zs m.1)
]

-- The table with the link of the entry before `i` led past it.
abbrev pub bypassed : (ℕ → Task) → ℕ → ℕ → ℕ → Task
bypassed f i q = update f q (record (f q) { next = (f i).next })

moved :
    (f : ℕ → Task) (i : ℕ) (p : Option ℕ) (x q r : ℕ) (xs ys : List ℕ)
    → q ≡ r
    → xs ≡ ys
    → Chain (bypassed f i r) p (x ∷ ys)
    → Chain (bypassed f i q) p (x ∷ xs)
moved f i p x q r xs ys e d h =
    subst (λ o. Chain (bypassed f i o) p (x ∷ xs)) (sym e)
      (subst (λ zs. Chain (bypassed f i r) p (x ∷ zs)) (sym d) h)

pub cut :
    (f : ℕ → Task) (i : ℕ) (p : Option ℕ) (x : ℕ) (xs : List ℕ)
    → Chain f p (x ∷ xs)
    → Distinct (x ∷ xs)
    → points_to (f (pred_of i x xs)).next i ≡ true
    → Chain (bypassed f i (pred_of i x xs)) p (x ∷ without i xs)
cut f i p x [] h d e = let clash : false ≡ true = sym (ap (λ q. points_to q i) h.1) ∙ e in cc
cut f i p x (y ∷ ys) h d e = elim (Bool-cases (y == i)) [
  | inl hit ↦
      let here : (x == x) ≡ true = ground arith in
      let same : i ≡ y = ground arith in
      let link : (bypassed f i x x).next ≡ (f y).next = rw here (ap (λ j. (f j).next) same) in
      moved f i p x (pred_of i x (y ∷ ys)) x (without i (y ∷ ys)) ys (rw hit refl) (rw hit refl) (
        h.0,
        subst (λ q. Chain (bypassed f i x) q ys) (sym link)
            (Chain-update f (f y).next ys x (record (f x) { next = (f i).next }) d.0.1 h.1.1),
      )
  | inr miss ↦
      let apart : (x == pred_of i y ys) ≡ false =
        let ne = Misses-pred_of x i y ys d.0 in ground arith in
      let q : ℕ = pred_of i y ys in
      let link : (bypassed f i q x).next ≡ (f x).next = rw apart refl in
      moved f i p x (pred_of i x (y ∷ ys)) q (without i (y ∷ ys)) (y ∷ without i ys) (rw miss refl)
        (rw miss refl)
        (
          h.0,
          subst (λ o. Chain (bypassed f i q) o (y ∷ without i ys)) (sym link)
              (cut f i (f x).next y ys h.1 d.1 (rw miss at e)),
        )
]

-- Where the walk finds no entry before `i`, the rest of the list does not have it.
pub uncut :
    (f : ℕ → Task) (i x : ℕ) (xs : List ℕ)
    → Chain f (f x).next xs
    → points_to (f (pred_of i x xs)).next i ≡ false
    → without i xs ≡ xs
uncut f i x [] h e = refl
uncut f i x (y ∷ ys) h e = elim (Bool-cases (y == i)) [
  | inl hit ↦ let clash : false ≡ true = sym (rw hit at e) ∙ ap (λ q. points_to q i) h.0 ∙ hit in cc
  | inr miss ↦ rw miss (ap (λ zs. y ∷ zs) (uncut f i y ys h.1 (rw miss at e)))
]

-- The last entry after a removal.
pub last-without :
    (i x : ℕ) (xs : List ℕ)
    → Distinct (x ∷ xs)
    → (x == i) ≡ false
    → last_of x (without i xs) ≡ (if last_of x xs == i then pred_of i x xs else last_of x xs)
last-without i x [] d e = rw e refl
last-without i x (y ∷ []) d e = elim (Bool-cases (y == i)) [
  | inl hit ↦ rw hit refl
  | inr miss ↦ rw miss refl
]
last-without i x (y ∷ z ∷ zs) d e = elim (Bool-cases (y == i)) [
  | inl hit ↦
      let apart : (last_of z zs == i) ≡ false =
        let ne = Misses-last_of y z zs d.1.0 in ground arith in
      rw (hit, apart) refl
  | inr miss ↦ rw miss (last-without i y (z ∷ zs) d.1 miss)
]

pub last_of-append : (x i : ℕ) (xs : List ℕ) → last_of x (xs ++ i ∷ []) ≡ i
last_of-append x i [] = refl
last_of-append x i (y ∷ ys) = last_of-append y i ys
