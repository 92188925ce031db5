-- ===== src/Memory/Manager/Order.antt =====
-- The heap by its regions in use, and two calls of `kfree`.
use os_simple.Base.{
  ℕ, ◌+◌, ◌<◌, ◌≡◌, refl, ap, sym, ◌∙◌, true, false, List, [], ◌∷◌, none, ◌==◌, if◌then◌else◌, inl,
  inr, Bool-cases, arith,
}
use os_simple.Memory.Align.{memory_start, memory_end}
use os_simple.Memory.Blocks.{Block, mark_free}
use os_simple.Memory.Blocks.Tiling.{Tiled, Freed, here, there}
use os_simple.Memory.Blocks.Regions.{regions, used_total, NotAt, NotAt-below}
use os_simple.Memory.Blocks.Canonical.{Tiled-unique}
use os_simple.Memory.Manager.{Memory, kfree}
use os_simple.Memory.Manager.Invariant.{IsValid, blocks, compact_free_blocks-regions}
use os_simple.Memory.Manager.Allocation.{in_use, SameHeap}
use os_simple.Memory.Manager.Requests.{Release, ignored, freed, kfree-Release, kfree-IsValid}

-- In two valid managers with the same regions in use, the block lists are equal, header by header, and
-- so are the free memory and the memory in use.
pub in_use_unique : (m n : Memory) → IsValid m → IsValid n → in_use m ≡ in_use n → SameHeap m n
in_use_unique m n v w e =
    let same : blocks n ≡ blocks m =
      Tiled-unique memory_start memory_end none false (blocks n) (blocks m) w.heap.tiled
        v.heap.tiled w.heap.linked v.heap.linked w.heap.compact v.heap.compact (sym e) in
    let used : used_total (blocks n) ≡ used_total (blocks m) = ap used_total same in
    (
      same,
      omega (arith, used, v.counts.rest, w.counts.rest, v.counts.total, w.counts.total),
      w.counts.current ∙ used ∙ sym v.counts.current,
    )

-- The regions that do not start at `p`.
abbrev pub without : ℕ → List (ℕ × ℕ) → List (ℕ × ℕ)
without p [] = []
without p ((a, n) ∷ rs) = if a == p then without p rs else (a, n) ∷ without p rs

NotAt-without : (p : ℕ) (rs : List (ℕ × ℕ)) → NotAt p rs → without p rs ≡ rs
NotAt-without p [] h = refl
NotAt-without p ((a, n) ∷ rs) h =
    let apart : (a == p) ≡ false = let ne = h.0 in ground arith in
    rw (apart, NotAt-without p rs h.1) refl

without_comm : (p q : ℕ) (rs : List (ℕ × ℕ)) → without q (without p rs) ≡ without p (without q rs)
without_comm p q [] = refl
without_comm p q ((a, n) ∷ rs) = elim (Bool-cases (a == p)) [
  | inl hit ↦ elim (Bool-cases (a == q)) [
    | inl also ↦ rw (hit, also) (without_comm p q rs)
    | inr other ↦ rw (hit, other, hit) (without_comm p q rs)
  ]
  | inr miss ↦ elim (Bool-cases (a == q)) [
    | inl also ↦ rw (miss, also) (without_comm p q rs)
    | inr other ↦ rw (miss, other) (rw miss (ap (λ xs. (a, n) ∷ xs) (without_comm p q rs)))
  ]
]

-- Marking the block in use at `p` takes its region away.
Freed-without :
    {p : ℕ} {bs bs' : List Block} {t : Block}
    → Freed p bs t bs'
    → (s e : ℕ) → Tiled s e bs
    → t.is_free ≡ false
    → regions bs' ≡ without p (regions bs)
Freed-without {p} (here {b} {bs} h) s e t used =
    let low : p < s + 20 + b.size + 20 = omega (arith, t.1) in
    let gone = NotAt-without p (regions bs) (NotAt-below p (s + 20 + b.size) e bs low t.3) in
    let at : (b.address == p) ≡ true = ground arith in rw (used, at) (sym gone)
Freed-without {p} (there {b} {bs = bs} h f) s e t used =
    let rest = Freed-without f (s + 20 + b.size) e t.3 used in
    let apart : (b.address == p) ≡ false = ground arith in
    elim (Bool-cases b.is_free) [
      | inl free ↦ rw free rest
      | inr taken ↦ rw (taken, apart) (ap (λ rs. (b.address, b.size) ∷ rs) rest)
    ]

-- `kfree` takes away the region at its address, if there is one, and no other.
pub in_use-kfree : (m : Memory) (p : ℕ) → IsValid m → in_use (kfree m p) ≡ without p (in_use m)
in_use-kfree m p v = released_without (kfree-Release m p v)
  where
    released_without : {r : Memory} → Release m p r → in_use r ≡ without p (in_use m)
    released_without (ignored (inl e)) = sym (
        NotAt-without p (in_use m)
          (NotAt-below p memory_start memory_end (blocks m) (omega arith) v.heap.tiled))
    released_without (ignored (inr h)) = sym (NotAt-without p (in_use m) h)
    released_without (freed f used) =
        compact_free_blocks-regions (mark_free p (blocks m))
        ∙ Freed-without f memory_start memory_end v.heap.tiled used

-- In a valid manager, two calls of `kfree`, with any two pointers, leave the same heap in either order.
pub kfree_comm :
    (m : Memory) (p q : ℕ) → IsValid m → SameHeap (kfree (kfree m p) q) (kfree (kfree m q) p)
kfree_comm m p q v =
    let first = kfree-IsValid m p v in
    let second = kfree-IsValid m q v in
    in_use_unique (kfree (kfree m p) q) (kfree (kfree m q) p) (kfree-IsValid (kfree m p) q first)
      (kfree-IsValid (kfree m q) p second)
      (in_use-kfree (kfree m p) q first
        ∙ ap (without q) (in_use-kfree m p v)
        ∙ without_comm p q (in_use m)
        ∙ sym (ap (without p) (in_use-kfree m q v))
        ∙ sym (in_use-kfree (kfree m q) p second))
