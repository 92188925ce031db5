-- ===== src/Memory/Manager/Fitting.antt =====
-- kernel/memory.c: what holds of any calls of the memory manager that ask for sizes it can align.
use os_simple.Base.{◌≡◌, sym, List, [], arith}
use os_simple.Memory.Align.{memory_start, memory_end}
use os_simple.Memory.Blocks.Regions.{Apart, Tiled-Apart}
use os_simple.Memory.Manager.{Memory, init_memory_manager}
use os_simple.Memory.Manager.Invariant.{IsValid, blocks, init_memory_manager-IsValid}
use os_simple.Memory.Manager.Requests.{Request, AllFit, perform_all, perform_all_keeps}
use os_simple.Memory.Manager.Allocation.{in_use, SameHeap}
use os_simple.Memory.Manager.Order.{in_use_unique}
use os_simple.Memory.Manager.History.{replies, pointers_same}

-- The manager after its initialisation and some calls.
abbrev pub after : Memory → List Request → Memory
after m rs = perform_all (init_memory_manager m).0 rs

after-IsValid : (m : Memory) (rs : List Request) → IsValid (after m rs)
after-IsValid m rs = perform_all_keeps (init_memory_manager m).0 rs (init_memory_manager-IsValid m)

-- After `init_memory_manager` and any sequence of `kmalloc`, `kfree`, `kcalloc` and `krealloc` calls in
-- which no `kcalloc` or `krealloc` asks for more than 2^32 - 4 bytes, the regions in use start at
-- multiples of four, each behind a header of its own, and follow one another with no overlap, all
-- between 1 MB and 16 MB.
pub perform_all-Apart :
    (m : Memory) (rs : List Request)
    → AllFit rs
    → Apart memory_start memory_end (in_use (after m rs))
perform_all-Apart m rs fit =
    Tiled-Apart memory_start memory_end (blocks (after m rs)) (omega arith)
      (after-IsValid m rs).heap.tiled

-- Two sequences of `kmalloc`, `kfree`, `kcalloc` and `krealloc` calls, each after `init_memory_manager`
-- and with no `kcalloc` or `krealloc` that asks for more than 2^32 - 4 bytes, that leave the same
-- regions in use leave the same block list, header by header, the same free memory and the same
-- memory in use.
pub perform_all_unique :
    (m n : Memory) (rs ss : List Request)
    → AllFit rs
    → AllFit ss
    → in_use (after m rs) ≡ in_use (after n ss)
    → SameHeap (after m rs) (after n ss)
perform_all_unique m n rs ss fit fits e =
    in_use_unique (after m rs) (after n ss) (after-IsValid m rs) (after-IsValid n ss) e

-- When a sequence of `kmalloc`, `kfree`, `kcalloc` and `krealloc` calls after `init_memory_manager`, in
-- which no `kcalloc` or `krealloc` asks for more than 2^32 - 4 bytes, leaves no block in use, the
-- heap is as `init_memory_manager` has made it, one free block, and all of it is counted as free.
pub perform_all-emptied :
    (m : Memory) (rs : List Request)
    → AllFit rs
    → in_use (after m rs) ≡ []
    → SameHeap (init_memory_manager m).0 (after m rs)
unfolding init_memory_manager
perform_all-emptied m rs fit e =
    in_use_unique (init_memory_manager m).0 (after m rs) (init_memory_manager-IsValid m)
      (after-IsValid m rs) (sym e)

-- Two valid managers with the same regions in use give the same pointers, one by one, to any sequence of
-- `kmalloc`, `kfree`, `kcalloc` and `krealloc` calls in which no `kcalloc` or `krealloc` asks for more
-- than 2^32 - 4 bytes, whatever has happened before: by which calls and in which order the regions
-- have come into use, and what the bytes of memory are.
pub in_use-replies :
    (m n : Memory) (rs : List Request)
    → IsValid m
    → IsValid n
    → AllFit rs
    → in_use m ≡ in_use n
    → replies m rs ≡ replies n rs
in_use-replies m n rs v w fit e = pointers_same m n rs v w e
