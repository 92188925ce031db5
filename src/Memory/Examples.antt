-- ===== src/Memory/Examples.antt =====
-- The memory manager's theorems on small inputs: an address space of zeros, with the heap set up.
use os_simple.Base.{◌≡◌, refl, false, List, [], ◌∷◌, some, none, arith}
use os_simple.Memory.Align.{align_address}
use os_simple.Memory.Blocks.{
  Block, take_first_fit, find_block, mark_free, compact_free_blocks, compact_from,
}
use os_simple.Memory.Blocks.Regions.{Apart}
use os_simple.Memory.Manager.{Memory, init_memory_manager, kmalloc, kfree, krealloc}
use os_simple.Memory.Manager.Invariant.{IsValid, blocks, init_memory_manager-IsValid}
use os_simple.Memory.Manager.Requests.{
  Request, malloc, calloc, free, realloc, kmalloc-IsValid, kfree-IsValid, perform, perform_all,
  AllFit,
}
use os_simple.Memory.Manager.Confined.{AllWrite, perform_all-IsValid}
use os_simple.Memory.Manager.Fitting.{
  after, perform_all-Apart, perform_all_unique, perform_all-emptied, in_use-replies,
}
use os_simple.Memory.Manager.Allocation.{
  in_use, Answered, kmalloc_lem, Fooled, kmalloc_wraps, Taken, kfree_lem, SameHeap, kfree-kmalloc,
}
use os_simple.Memory.Manager.Resizing.{Moved, krealloc-Moved}
use os_simple.Memory.Manager.History.{replies}
use os_simple.Memory.Manager.Order.{kfree_comm}
use os_simple.Memory.Pages.Frames.{PageCall, alloc, free, page_replies, frame_replies, used_at}
use os_simple.Memory.Pages.Refine.{page_replies_lem}
use os_simple.Memory.Pages.Counting.{IsPaged, init_memory_manager-IsPaged}

abbrev pub zeros : Memory
zeros = record {
  manager = record {
    pages = [];
    total_pages = 0;
    free_pages = 0;
    used_pages = 0;
    free_list = [];
    total_memory = 0;
    free_memory = 0;
  };
  stats = record {
    total_allocations = 0;
    total_frees = 0;
    current_allocated = 0;
    peak_allocated = 0;
    fragmentation = 0;
  };
  initialized = false;
  bytes = λ a. 0;
}

abbrev booted : Memory
booted = (init_memory_manager zeros).0

booted-IsValid : IsValid booted
booted-IsValid = init_memory_manager-IsValid zeros

booted-IsPaged : IsPaged booted.manager
booted-IsPaged = init_memory_manager-IsPaged zeros

abbrev requests : List Request
requests = malloc 10 ∷ calloc 2 5 ∷ free 1048596 ∷ realloc 1048620 30 ∷ []

requests-AllFit : AllFit requests
requests-AllFit = omega arith

perform_all-IsValid_example : IsValid (perform_all booted requests) × AllWrite booted requests
perform_all-IsValid_example = perform_all-IsValid booted requests booted-IsValid requests-AllFit

perform_all-Apart_example : Apart 0x100000 0x1000000 (in_use (after zeros requests))
perform_all-Apart_example = perform_all-Apart zeros requests requests-AllFit

kmalloc_example : Answered booted 10 (kmalloc booted 10)
kmalloc_example = kmalloc_lem booted 10 booted-IsValid (omega arith) (omega arith)

kmalloc_wraps_example : Fooled booted (kmalloc booted 4294967295)
kmalloc_wraps_example = kmalloc_wraps booted 4294967295 booted-IsValid (omega arith) (omega arith)

given : (kmalloc booted 10).0 ≡ 0x100014
unfolding kmalloc init_memory_manager take_first_fit align_address
given = refl

abbrev taken : Memory
taken = (kmalloc booted 10).1

abbrev region : Block
region = record { ptr = 0x100000; address = 0x100014; size = 12; is_free = false; prev = none }

found : find_block 0x100014 (blocks taken) ≡ some region
unfolding find_block kmalloc init_memory_manager take_first_fit align_address
found = refl

kfree_example : Taken booted 4096 (kfree booted 4096)
kfree_example = kfree_lem booted 4096 booted-IsValid

kfree-kmalloc_example : SameHeap booted (kfree (kmalloc booted 10).1 (kmalloc booted 10).0)
kfree-kmalloc_example =
    kfree-kmalloc booted 10 booted-IsValid (omega arith) (rw given (omega arith))

taken-IsValid : IsValid taken
taken-IsValid = kmalloc-IsValid booted 10 (omega arith) booted-IsValid

krealloc-Moved_example : Moved taken 0x100014 12 30 (krealloc taken 0x100014 30)
krealloc-Moved_example =
    krealloc-Moved taken 0x100014 30 region taken-IsValid (omega arith) (omega arith) (omega arith)
      found refl

-- What is taken is given back.
abbrev back : List Request
back = malloc 10 ∷ free 0x100014 ∷ []

abbrev twice : List Request
twice = malloc 10 ∷ free 0x100014 ∷ malloc 10 ∷ []

perform_all-emptied_example : SameHeap booted (perform_all booted back)
unfolding perform_all perform kmalloc kfree init_memory_manager take_first_fit find_block mark_free
    compact_free_blocks compact_from align_address
perform_all-emptied_example = perform_all-emptied zeros back tt refl

-- A region that is taken, released and taken again.
perform_all_unique_example : SameHeap (after zeros twice) (after zeros (malloc 10 ∷ []))
unfolding perform_all perform kmalloc kfree init_memory_manager take_first_fit find_block mark_free
    compact_free_blocks compact_from align_address
perform_all_unique_example = perform_all_unique zeros zeros twice (malloc 10 ∷ []) tt tt refl

kfree_comm_example :
    SameHeap (kfree (kfree taken 0x100014) 4096) (kfree (kfree taken 4096) 0x100014)
kfree_comm_example = kfree_comm taken 0x100014 4096 taken-IsValid

in_use-replies_example : replies booted requests ≡ replies (kfree taken 0x100014) requests
unfolding kmalloc kfree init_memory_manager take_first_fit find_block mark_free compact_free_blocks
    compact_from align_address
in_use-replies_example =
    in_use-replies booted (kfree taken 0x100014) requests booted-IsValid
      (kfree-IsValid taken 0x100014 taken-IsValid) requests-AllFit refl

abbrev page_calls : List PageCall
page_calls = alloc ∷ alloc ∷ free 0x100000 ∷ free 5 ∷ alloc ∷ []

page_replies_example :
    page_replies booted.manager page_calls ≡ frame_replies (used_at booted.manager.pages) page_calls
page_replies_example = page_replies_lem booted.manager page_calls booted-IsPaged
