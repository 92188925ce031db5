-- ===== src/Memory/Manager/Allocation.antt =====
-- What `kmalloc` and `kfree` do to the regions in use.
use os_simple.Base.{
  ℕ, ◌+◌, ◌^◌, ◌≤◌, ◌<◌, ◌≡◌, ◌≢◌, refl, subst, false, List, none, ◌==◌, ◌⊎◌, inl, inr, arith,
}
use os_simple.Memory.Align.{align_address, align_address_four, memory_start, memory_end}
use os_simple.Memory.Blocks.{Block, mark_free}
use os_simple.Memory.Blocks.Tiling.{Freed-address, FirstFit, NoFit, FirstFit-IsHanded}
use os_simple.Memory.Blocks.Regions.{
  regions, NotAt, Inserted, used_total-le, FirstFit-used_total, FirstFit-regions, Freed-regions,
}
use os_simple.Memory.Blocks.Restore.{find_handed, restore}
use os_simple.Memory.Manager.{Memory, kmalloc, kfree}
use os_simple.Memory.Manager.Invariant.{blocks, IsValid, compact_free_blocks-regions}
use os_simple.Memory.Manager.Requests.{
  handed, Outcome, refused, granted, kmalloc-Outcome, Release, ignored, freed, kfree-Release,
}

-- The regions in use of a valid manager.
abbrev pub in_use : Memory → List (ℕ × ℕ)
in_use m = regions (blocks m)

pub align_four_bounds :
    (size : ℕ)
    → size + 4 ≤ 2 ^ 32
    → (size ≤ align_address size 4) × (align_address size 4 < size + 4)
align_four_bounds size h = omega (arith, align_address_four size (omega arith))

-- How a request of `size` bytes ends: the null pointer, nothing changed, and no free block of the
-- aligned size; or a region of that size, at most 23 bytes larger, added to those in use.
abbrev pub Answered : Memory → ℕ → ℕ × Memory → Type 0
Answered m size r =
    ((r.0 ≡ 0) × (r.1 ≡ m) × NoFit (align_address size 4) (blocks m))
    ⊎ ((given : ℕ) × Inserted (r.0, given) (in_use m) (in_use r.1)
        × (r.0 ≢ 0)
        × (size ≤ given)
        × (given < size + 24))

Outcome-Answered :
    {m : Memory} (size : ℕ) {r : ℕ × Memory}
    → Outcome m (align_address size 4) r
    → size + 4 ≤ 2 ^ 32
    → IsValid m
    → Answered m size r
Outcome-Answered size (refused f) h v = inl (refl, refl, f)
Outcome-Answered size (granted {t} d) h v =
    let is = FirstFit-IsHanded d memory_start memory_end (omega arith) v.heap.tiled in
    let bounds = align_four_bounds size h in
    inr (
      t.size,
      FirstFit-regions d,
      (λ e. omega (arith, is.above)),
      omega (arith, is.large, bounds),
      omega (arith, is.snug, bounds),
    )

-- In a valid manager, a request of 1 to 2^32 - 4 bytes either returns null, changes nothing, and no
-- free block has the aligned size; or it returns the address of a new region that has the size
-- asked for and less than 24 bytes more, and leaves every other region as it was.
pub kmalloc_lem :
    (m : Memory) (size : ℕ)
    → IsValid m
    → size ≢ 0
    → size + 4 ≤ 2 ^ 32
    → Answered m size (kmalloc m size)
kmalloc_lem m size v ne h = Outcome-Answered size (kmalloc-Outcome m size v.counts.ready ne) h v

-- How a request that is far too large ends: refused, or with a region of at most 20 bytes.
abbrev pub Fooled : Memory → ℕ × Memory → Type 0
Fooled m r =
    ((r.0 ≡ 0) × NoFit 0 (blocks m))
    ⊎ ((given : ℕ) × Inserted (r.0, given) (in_use m) (in_use r.1) × (r.0 ≢ 0) × (given ≤ 20))

Outcome-Fooled : {m : Memory} {r : ℕ × Memory} → Outcome m 0 r → IsValid m → Fooled m r
Outcome-Fooled (refused f) v = inl (refl, f)
Outcome-Fooled (granted {t} d) v =
    let is = FirstFit-IsHanded d memory_start memory_end (omega arith) v.heap.tiled in
    inr (t.size, FirstFit-regions d, (λ e. omega (arith, is.above)), omega (arith, is.snug))

-- In a valid manager, a request of 2^32 - 3 to 2^32 - 1 bytes is not refused while any block is
-- free: it returns a region of at most 20 bytes.
pub kmalloc_wraps :
    (m : Memory) (size : ℕ)
    → IsValid m
    → 2 ^ 32 < size + 4
    → size < 2 ^ 32
    → Fooled m (kmalloc m size)
kmalloc_wraps m size v large h =
    let wraps : align_address size 4 ≡ 0 = omega (arith, align_address_four size h) in
    Outcome-Fooled (rw wraps at (kmalloc-Outcome m size v.counts.ready (omega arith))) v

-- How a release ends.
abbrev pub Taken : Memory → ℕ → Memory → Type 0
Taken m p r =
    ((r ≡ m) × ((p ≡ 0) ⊎ NotAt p (in_use m)))
    ⊎ ((size : ℕ) × Inserted (p, size) (in_use r) (in_use m))

Release-Taken : {m : Memory} (p : ℕ) {r : Memory} → Release m p r → Taken m p r
Release-Taken p (ignored h) = inl (refl, h)
Release-Taken {m} p (freed {b} f used) = inr (
  b.size,
  rw (compact_free_blocks-regions (mark_free p (blocks m))) (
      subst (λ a. Inserted (a, b.size) (regions (mark_free p (blocks m))) (in_use m))
        (Freed-address f) (Freed-regions f used)),
)

-- In a valid manager, releasing an address takes the region that starts there out of those in use
-- and leaves every other as it was; it changes nothing at all when the address is null or no
-- region in use starts there, so a second release of the same address does nothing.
pub kfree_lem : (m : Memory) (p : ℕ) → IsValid m → Taken m p (kfree m p)
kfree_lem m p v = Release-Taken p (kfree-Release m p v)

-- The fields that a client can tell one heap from another by.
abbrev pub SameHeap : Memory → Memory → Type 0
SameHeap m r =
    (blocks r ≡ blocks m)
    × (r.manager.free_memory ≡ m.manager.free_memory)
    × (r.stats.current_allocated ≡ m.stats.current_allocated)

kfree-handed :
    {m : Memory} (n : ℕ) (t : Block) (bs' : List Block)
    → IsValid m
    → FirstFit n (blocks m) t bs'
    → SameHeap m (kfree (handed m t bs') t.address)
unfolding kfree
kfree-handed {m} n t bs' v d =
    let is = FirstFit-IsHanded d memory_start memory_end (omega arith) v.heap.tiled in
    let some_address : (t.address == 0) ≡ false = ground (arith, is.above) in
    let grown = FirstFit-used_total d in
    let most = used_total-le memory_start memory_end (blocks m) v.heap.tiled in
    let c = v.counts in
    rw
      (
        c.ready,
        some_address,
        find_handed d memory_start memory_end (omega arith) v.heap.tiled,
        is.used,
      )
      (
        restore d memory_start memory_end false none (omega arith) v.heap.tiled v.heap.compact
            v.heap.linked,
        omega (arith, is.below, c.rest, c.total),
        omega (arith, is.below, c.current, most),
      )

Outcome-kfree :
    {m : Memory} {n : ℕ} {r : ℕ × Memory}
    → Outcome m n r
    → IsValid m
    → r.0 ≢ 0
    → SameHeap m (kfree r.1 r.0)
Outcome-kfree (refused f) v h = absurd (h refl)
Outcome-kfree {n} (granted {t} {bs'} d) v h = kfree-handed n t bs' v d

-- In a valid manager, taking a region and releasing it at once restores the block list, headers and
-- links included, the free memory and the allocated total.
pub kfree-kmalloc :
    (m : Memory) (size : ℕ)
    → IsValid m
    → size ≢ 0
    → (kmalloc m size).0 ≢ 0
    → SameHeap m (kfree (kmalloc m size).1 (kmalloc m size).0)
kfree-kmalloc m size v ne h = Outcome-kfree (kmalloc-Outcome m size v.counts.ready ne) v h
