-- ===== src/Memory/Manager/Invariant.antt =====
-- The manager's invariant, and that every operation keeps it.
use os_simple.Base.{
  ℕ, ◌+◌, ◌%◌, ◌^◌, ◌≤◌, ◌<◌, ◌≡◌, refl, subst, Bool, true, false, ◌&&◌, List, [], ◌∷◌, none, arith,
}
use os_simple.Memory.Align.{align_address, align_address_four, memory_start, memory_end}
use os_simple.Memory.Blocks.{Block, set_prev, compact_free_blocks}
use os_simple.Memory.Blocks.Tiling.{
  Tiled, Linked, FirstFit, whole, part, later, FirstFit-Tiled, FirstFit-Linked,
}
use os_simple.Memory.Blocks.Regions.{regions, used_total, used_total-le}
use os_simple.Memory.Blocks.Merging.{
  Alternates, compact_from-Merges, Merges-Tiled, Merges-Linked, Merges-Alternates,
  Merges-used_total, Merges-regions, Linked-LinkedAfter,
}
use os_simple.Memory.Manager.{Memory, init_memory_manager}

abbrev pub blocks : Memory → List Block
blocks m = m.manager.free_list

-- The block list as the code keeps it between calls.
pub record IsHeap (bs : List Block) : Type 0 where
  pub tiled : Tiled memory_start memory_end bs
  pub linked : Linked none bs
  pub compact : Alternates false bs

-- The counters, against what is in use.
pub record IsCounted (m : Memory) : Type 0 where
  pub ready : m.initialized ≡ true
  pub total : m.manager.total_memory ≡ 0xf00000
  pub current : m.stats.current_allocated ≡ used_total (blocks m)
  pub rest : m.manager.free_memory + used_total (blocks m) ≡ m.manager.total_memory
  pub peak : m.stats.current_allocated ≤ m.stats.peak_allocated

pub record IsValid (m : Memory) : Type 0 where
  pub heap : IsHeap (blocks m)
  pub counts : IsCounted m

-- `init_memory_manager` leaves a valid manager, whatever was there before: the blocks tile the heap
-- and are linked in order, no two neighbours are free, and the counters agree with them.
pub init_memory_manager-IsValid : (m : Memory) → IsValid (init_memory_manager m).0
unfolding init_memory_manager
init_memory_manager-IsValid m = record {
  heap = record { tiled = omega arith; linked = (refl, tt); compact = (refl, tt) };
  counts = record { ready = refl; total = refl; current = refl; rest = refl; peak = omega arith };
}

pub align_four-mod : (size : ℕ) → size < 2 ^ 32 → align_address size 4 % 4 ≡ 0
align_four-mod size h = omega (arith, align_address_four size h)

Alternates-false : (f : Bool) (bs : List Block) → Alternates f bs → Alternates false bs
Alternates-false f [] a = tt
Alternates-false f (b ∷ bs) a = (refl, a.1)

Alternates-set_prev :
    (f : Bool) (q : ℕ) (bs : List Block) → Alternates f bs → Alternates f (set_prev q bs)
Alternates-set_prev f q [] a = tt
Alternates-set_prev f q (b ∷ bs) a = a

and_false : (f : Bool) → (f && false) ≡ false
and_false f = ground arith

Alternates-FirstFit :
    {n : ℕ} {bs bs' : List Block} {t : Block}
    → FirstFit n bs t bs'
    → (f : Bool) → Alternates f bs
    → Alternates f bs'
Alternates-FirstFit (whole {b} {bs} fit same) f a = (and_false f, Alternates-false b.is_free bs a.1)
Alternates-FirstFit (part {b} {bs} fit larger) f a =
    let free : b.is_free ≡ true = ground arith in
    (and_false f, (refl, Alternates-set_prev true _ bs (subst (λ x. Alternates x bs) free a.1)))
Alternates-FirstFit (later {b} miss d) f a = (a.0, Alternates-FirstFit d b.is_free a.1)

-- A heap that has handed out a block is a heap.
pub FirstFit-IsHeap :
    {n : ℕ} {bs bs' : List Block} {t : Block}
    → FirstFit n bs t bs'
    → n % 4 ≡ 0
    → IsHeap bs
    → IsHeap bs'
FirstFit-IsHeap d h v = record {
  tiled = FirstFit-Tiled d memory_start memory_end h (omega arith) v.tiled;
  linked = FirstFit-Linked d none v.linked;
  compact = Alternates-FirstFit d false v.compact;
}

pub compact_free_blocks-IsHeap :
    (bs : List Block)
    → Tiled memory_start memory_end bs
    → Linked none bs
    → IsHeap (compact_free_blocks bs)
unfolding compact_free_blocks
compact_free_blocks-IsHeap [] t l = record { tiled = t; linked = tt; compact = tt }
compact_free_blocks-IsHeap (b ∷ bs) t l =
    let m = compact_from-Merges b false bs in
    record {
      tiled = Merges-Tiled m memory_start memory_end (omega arith) t;
      linked = Merges-Linked m none l.0 (Linked-LinkedAfter b bs l.1);
      compact = Merges-Alternates m memory_start memory_end false (omega arith) t refl;
    }

pub compact_free_blocks-used_total :
    (bs : List Block) → used_total (compact_free_blocks bs) ≡ used_total bs
unfolding compact_free_blocks
compact_free_blocks-used_total [] = refl
compact_free_blocks-used_total (b ∷ bs) = Merges-used_total (compact_from-Merges b false bs)

pub compact_free_blocks-regions : (bs : List Block) → regions (compact_free_blocks bs) ≡ regions bs
unfolding compact_free_blocks
compact_free_blocks-regions [] = refl
compact_free_blocks-regions (b ∷ bs) = Merges-regions (compact_from-Merges b false bs)

pub heap_used : (m : Memory) → IsValid m → used_total (blocks m) ≤ 0xf00000
heap_used m v = omega (arith, used_total-le memory_start memory_end (blocks m) v.heap.tiled)
