-- ===== src/Memory/Manager/Requests.antt =====
-- The outcomes of `kmalloc` and `kfree`, and that every operation keeps the invariant.
use native.Mathlib.Decide.{ℕ_discrete}
use os_simple.Base.{
  ℕ, ◌+◌, ◌%◌, ◌^◌, ◌≤◌, ◌<◌, ◌≡◌, ◌≢◌, true, false, not, ◌||◌, ◌&&◌, List, [], ◌∷◌, none, ◌==◌,
  ltb, ◌⊎◌, inl, inr, Bool-cases, Option-cases, add32, sub32, mul32, arith,
}
use os_simple.Memory.Align.{align_address, memory_start, memory_end}
use os_simple.Memory.Blocks.{Block, find_block, mark_free, compact_free_blocks}
use os_simple.Memory.Blocks.Tiling.{
  FirstFit, NoFit, Freed, take_first_fit_cases, find_block-Freed, Freed-Tiled, Freed-Linked,
}
use os_simple.Memory.Blocks.Regions.{
  regions, NotAt, find_none-NotAt, Freed-NotAt, used_total-le, FirstFit-used_total,
  Freed-used_total,
}
use os_simple.Memory.Manager.{
  Memory, count_allocation, kmalloc, kfree, kcalloc, krealloc, block_size_at,
}
use os_simple.Memory.Manager.Invariant.{
  blocks, IsCounted, IsValid, align_four-mod, FirstFit-IsHeap, compact_free_blocks-IsHeap,
  compact_free_blocks-used_total, heap_used,
}

-- The state that `kmalloc` leaves after taking a block.
abbrev pub handed : Memory → Block → List Block → Memory
handed m t bs' = record m {
  manager = record m.manager { free_list = bs'; free_memory = sub32 m.manager.free_memory t.size };
  stats = count_allocation m.stats t.size;
}

handed-IsCounted :
    {m : Memory} {n : ℕ} {t : Block} {bs' : List Block}
    → IsValid m
    → FirstFit n (blocks m) t bs'
    → n % 4 ≡ 0
    → IsCounted (handed m t bs')
handed-IsCounted {m} {t} {bs'} v d h =
    let grown = FirstFit-used_total d in
    let heap = FirstFit-IsHeap d h v.heap in
    let most = used_total-le memory_start memory_end bs' heap.tiled in
    let c = v.counts in
    record {
      ready = c.ready;
      total = c.total;
      current = omega (arith, c.current);
      rest = omega (arith, c.rest, c.total);
      peak = ground arith;
    }

-- The outcome of a request: refused with nothing changed, or a block found and handed out.
pub data Outcome (m : Memory) (n : ℕ) : ℕ × Memory → Type 0 where
  refused : NoFit n (blocks m) → Outcome m n (0, m)
  granted :
      {t : Block} {bs' : List Block}
      → FirstFit n (blocks m) t bs'
      → Outcome m n (t.address, handed m t bs')

pub kmalloc-Outcome :
    (m : Memory) (size : ℕ)
    → m.initialized ≡ true
    → size ≢ 0
    → Outcome m (align_address size 4) (kmalloc m size)
unfolding kmalloc
kmalloc-Outcome m size ready h =
    let asked : (not m.initialized || size == 0) ≡ false = ground arith in
    elim (take_first_fit_cases (align_address size 4) (blocks m)) [
      | inl (none_fits, e) ↦ rw (asked, e) (refused none_fits)
      | inr (t, bs', f, e) ↦ rw (asked, e) (granted f)
    ]

Outcome-IsValid :
    {m : Memory} {n : ℕ} {r : ℕ × Memory} → Outcome m n r → n % 4 ≡ 0 → IsValid m → IsValid r.1
Outcome-IsValid (refused f) h v = v
Outcome-IsValid (granted d) h v = record {
  heap = FirstFit-IsHeap d h v.heap;
  counts = handed-IsCounted v d h;
}

pub kmalloc_nothing : (m : Memory) → kmalloc m 0 ≡ (0, m)
unfolding kmalloc
kmalloc_nothing m = ground arith

-- Every request of at most 2^32 - 1 bytes leaves a valid manager valid.
pub kmalloc-IsValid :
    (m : Memory) (size : ℕ) → size < 2 ^ 32 → IsValid m → IsValid (kmalloc m size).1
kmalloc-IsValid m size h v = elim (ℕ_discrete size 0) [
  | yes e ↦ rw (e, kmalloc_nothing m) v
  | no ne ↦ Outcome-IsValid (kmalloc-Outcome m size v.counts.ready ne) (align_four-mod size h) v
]

-- The state that `kfree` leaves after marking a block free.
abbrev pub released : Memory → Block → ℕ → Memory
released m b p = record m {
  manager = record m.manager {
    free_list = compact_free_blocks (mark_free p (blocks m));
    free_memory = add32 m.manager.free_memory b.size;
  };
  stats = record m.stats {
    total_frees = add32 m.stats.total_frees 1;
    current_allocated = sub32 m.stats.current_allocated b.size;
  };
}

-- The outcome of `kfree`: nothing changed, for no block in use has the address, or that block freed.
pub data Release (m : Memory) (p : ℕ) : Memory → Type 0 where
  ignored : (p ≡ 0) ⊎ NotAt p (regions (blocks m)) → Release m p m
  freed :
      {b : Block}
      → Freed p (blocks m) b (mark_free p (blocks m))
      → b.is_free ≡ false
      → Release m p (released m b p)

pub kfree-Release : (m : Memory) (p : ℕ) → IsValid m → Release m p (kfree m p)
unfolding kfree
kfree-Release m p v = elim (ℕ_discrete p 0) [
  | yes e ↦
      let null : (not m.initialized || p == 0) ≡ true = ground arith in rw null (ignored (inl e))
  | no ne ↦
      let asked : (not m.initialized || p == 0) ≡ false = ground (arith, v.counts.ready) in
      rw asked (elim (Option-cases (find_block p (blocks m))) [
        | inl missing ↦ rw missing (ignored (inr (find_none-NotAt p (blocks m) missing)))
        | inr (b, found) ↦
            let f = find_block-Freed p (blocks m) b found in
            rw found (elim (Bool-cases b.is_free) [
              | inl free ↦
                  rw free (ignored (inr (Freed-NotAt f memory_start memory_end v.heap.tiled free)))
              | inr used ↦ rw used (freed f used)
            ])
      ])
]

Release-IsValid : {m : Memory} (p : ℕ) {r : Memory} → Release m p r → IsValid m → IsValid r
Release-IsValid p (ignored h) v = v
Release-IsValid {m} p (freed {b} f used) v =
    let c = v.counts in
    let less = Freed-used_total f used in
    let same = compact_free_blocks-used_total (mark_free p (blocks m)) in
    let most = heap_used m v in
    record {
      heap =
          compact_free_blocks-IsHeap (mark_free p (blocks m))
            (Freed-Tiled f memory_start memory_end v.heap.tiled)
            (Freed-Linked f none v.heap.linked);
      counts = record {
        ready = c.ready;
        total = c.total;
        current = omega (arith, same, less, c.current, most);
        rest = omega (arith, same, less, c.rest, c.total, most);
        peak = omega (arith, c.peak, c.current, less, most);
      };
    }

-- Freeing any address leaves a valid manager valid.
pub kfree-IsValid : (m : Memory) (p : ℕ) → IsValid m → IsValid (kfree m p)
kfree-IsValid m p v = Release-IsValid p (kfree-Release m p v) v

pub with_bytes-IsValid :
    (m : Memory) (bytes : ℕ → ℕ) → IsValid m → IsValid (record m { bytes = bytes })
with_bytes-IsValid m bytes v =
    let c = v.counts in
    record {
      heap = v.heap;
      counts = record {
        ready = c.ready;
        total = c.total;
        current = c.current;
        rest = c.rest;
        peak = c.peak;
      };
    }

kcalloc-IsValid : (m : Memory) (count size : ℕ) → IsValid m → IsValid (kcalloc m count size).1
unfolding kcalloc
kcalloc-IsValid m count size v =
    let asked = kmalloc-IsValid m (mul32 count size) (omega arith) v in
    elim (Bool-cases ((kmalloc m (mul32 count size)).0 == 0)) [
      | inl null ↦ rw null asked
      | inr given ↦ rw given (with_bytes-IsValid _ _ asked)
    ]

krealloc-IsValid :
    (m : Memory) (p size : ℕ) → size < 2 ^ 32 → IsValid m → IsValid (krealloc m p size).1
unfolding krealloc
krealloc-IsValid m p size h v =
    let asked = kmalloc-IsValid m size h v in
    elim (Bool-cases (p == 0)) [
      | inl fresh ↦ rw fresh asked
      | inr old ↦ rw old (elim (Bool-cases (size == 0)) [
        | inl drop ↦ rw drop (kfree-IsValid m p v)
        | inr keep ↦
            rw keep
              (elim (Bool-cases
                (not ((kmalloc m size).0 == 0) && ltb 0 (block_size_at p m.manager.free_list))) [
                  | inl move ↦ rw move (kfree-IsValid _ p (with_bytes-IsValid _ _ asked))
                  | inr stay ↦ rw stay asked
                ])
      ])
    ]

-- A client's calls.
pub data Request : Type 0 where
  malloc : ℕ → Request
  free : ℕ → Request
  calloc : ℕ → ℕ → Request
  realloc : ℕ → ℕ → Request

unfoldable pub perform : Memory → Request → Memory
perform m (malloc size) = (kmalloc m (size % 2 ^ 32)).1
perform m (free p) = kfree m p
perform m (calloc count size) = (kcalloc m count size).1
perform m (realloc p size) = (krealloc m p (size % 2 ^ 32)).1

unfoldable pub perform_all : Memory → List Request → Memory
perform_all m [] = m
perform_all m (r ∷ rs) = perform_all (perform m r) rs

pub perform-IsValid : (m : Memory) (r : Request) → IsValid m → IsValid (perform m r)
unfolding perform
perform-IsValid m (malloc size) v = kmalloc-IsValid m (size % 2 ^ 32) (omega arith) v
perform-IsValid m (free p) v = kfree-IsValid m p v
perform-IsValid m (calloc count size) v = kcalloc-IsValid m count size v
perform-IsValid m (realloc p size) v = krealloc-IsValid m p (size % 2 ^ 32) (omega arith) v

pub perform_all_keeps : (m : Memory) (rs : List Request) → IsValid m → IsValid (perform_all m rs)
unfolding perform_all
perform_all_keeps m [] v = v
perform_all_keeps m (r ∷ rs) v = perform_all_keeps (perform m r) rs (perform-IsValid m r v)

-- The aligned size does not wrap.
abbrev pub Fits : ℕ → Type 0
Fits size = size + 4 ≤ 2 ^ 32

-- No `kcalloc` and no `krealloc` asks for more than 2^32 - 4 bytes: for a larger size the block that
-- `kmalloc` gives is too small, and they write past its end.
abbrev pub AllFit : List Request → Type 0
AllFit [] = Unit {0}
AllFit (malloc size ∷ rs) = AllFit rs
AllFit (free p ∷ rs) = AllFit rs
AllFit (calloc count size ∷ rs) = Fits (mul32 count size) × AllFit rs
AllFit (realloc p size ∷ rs) = Fits (size % 2 ^ 32) × AllFit rs
