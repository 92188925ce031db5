-- ===== src/Memory/Manager.antt =====
-- kernel/memory.c: the manager's state, its initialisation, and `kmalloc`, `kfree`, `kcalloc` and
-- `krealloc`. A pointer is its address, and 0 is the null pointer. The words of a block's header are
-- the fields of its `Block`; `bytes` are the bytes of memory as clients, `memset` and `memcpy` write
-- them. The two are apart, so a write past the end of a block does not change the next header here
-- as it does in C: `kcalloc` and `krealloc` make one when the aligned size wraps, from 2^32 - 3 on.
pub mod Invariant
pub mod Requests
pub mod Allocation
pub mod Contents
pub mod Resizing
pub mod Order
pub mod Confined
pub mod Fitting
pub mod History
use os_simple.Base.{
  ℕ, zero, suc, ◌+◌, ◌-◌, ◌*◌, ◌/◌, Bool, true, false, not, ◌||◌, ◌&&◌, List, [], ◌∷◌, Option, none,
  some, ◌==◌, ltb, if◌then◌else◌, add32, sub32, mul32,
}
use os_simple.Base.Effects.{Effect, print_string, print_bytes, print_hex}
use os_simple.Memory.Align.{align_address, memory_start, memory_end}
use os_simple.Memory.Blocks.{
  Block, header_size, take_first_fit, find_block, mark_free, compact_free_blocks,
}
use os_simple.Memory.Bytes.{Bytes, memset, memcpy}

-- The first line that `init_memory_manager` prints (memory.c, line 49).
abbrev pub manager_ready : List ℕ
manager_ready =
    77 ∷ 101 ∷ 109 ∷ 111 ∷ 114 ∷ 121 ∷ 32 ∷ 77 ∷ 97 ∷ 110 ∷ 97 ∷ 103 ∷ 101 ∷ 114 ∷ 58 ∷ 32 ∷ 216
    ∷ 170 ∷ 217 ∷ 133 ∷ 32 ∷ 216 ∷ 170 ∷ 217 ∷ 135 ∷ 217 ∷ 138 ∷ 216 ∷ 166 ∷ 216 ∷ 169 ∷ 32 ∷ 217
    ∷ 133 ∷ 216 ∷ 175 ∷ 217 ∷ 138 ∷ 216 ∷ 177 ∷ 32 ∷ 216 ∷ 167 ∷ 217 ∷ 132 ∷ 216 ∷ 176 ∷ 216 ∷ 167
    ∷ 217 ∷ 131 ∷ 216 ∷ 177 ∷ 216 ∷ 169 ∷ 10 ∷ []

abbrev pub page_size : ℕ
page_size = 4096

abbrev pub max_pages : ℕ
max_pages = (memory_end - memory_start) / page_size

pub data PageStatus : Type 0 where
  page_free page_used page_reserved : PageStatus

pub record Page : Type 0 where
  pub address : ℕ
  pub status : PageStatus
  pub ref_count : ℕ

pub record MemoryManager : Type 0 where
  pub pages : List Page
  pub total_pages : ℕ
  pub free_pages : ℕ
  pub used_pages : ℕ
  pub free_list : List Block
  pub total_memory : ℕ
  pub free_memory : ℕ

pub record MemoryStats : Type 0 where
  pub total_allocations : ℕ
  pub total_frees : ℕ
  pub current_allocated : ℕ
  pub peak_allocated : ℕ
  pub fragmentation : ℕ

pub record Memory : Type 0 where
  pub manager : MemoryManager
  pub stats : MemoryStats
  pub initialized : Bool
  pub bytes : Bytes

-- The loop over the page array, with `left` rounds to go.
unfoldable pub init_pages : ℕ → ℕ → List Page
init_pages zero page_addr = []
init_pages (suc left) page_addr =
    record { address = page_addr; status = page_free; ref_count = 0 }
    ∷ init_pages left (add32 page_addr page_size)

abbrev pub initial_block : ℕ → Block
initial_block total_memory = record {
  ptr = memory_start;
  address = add32 memory_start header_size;
  size = sub32 total_memory header_size;
  is_free = true;
  prev = none;
}

unfoldable pub init_memory_manager : Memory → Memory × List Effect
init_memory_manager m =
    let total = memory_end - memory_start in
    (
      record m {
        manager = record {
          pages = init_pages max_pages memory_start;
          total_pages = max_pages;
          free_pages = max_pages;
          used_pages = 0;
          free_list = initial_block total ∷ [];
          total_memory = total;
          free_memory = total;
        };
        stats = record {
          total_allocations = 0;
          total_frees = 0;
          current_allocated = 0;
          peak_allocated = 0;
          fragmentation = 0;
        };
        initialized = true;
      },
      print_bytes manager_ready
          ∷ print_string "Total Memory: "
          ∷ print_hex total
          ∷ print_string " bytes\n"
          ∷ [],
    )

-- The statistics after handing out a block of `size` bytes.
abbrev pub count_allocation : MemoryStats → ℕ → MemoryStats
count_allocation s size =
    let current = add32 s.current_allocated size in
    record s {
      total_allocations = add32 s.total_allocations 1;
      current_allocated = current;
      peak_allocated = if ltb s.peak_allocated current then current else s.peak_allocated;
    }

unfoldable pub kmalloc : Memory → ℕ → ℕ × Memory
kmalloc m size =
    if not m.initialized || size == 0
    then (0, m)
    else elim (take_first_fit (align_address size 4) m.manager.free_list) [
      | none ↦ (0, m)
      | some (taken, blocks) ↦ (
        taken.address,
        record m {
          manager = record m.manager {
            free_list = blocks;
            free_memory = sub32 m.manager.free_memory taken.size;
          };
          stats = count_allocation m.stats taken.size;
        },
      )
    ]

unfoldable pub kfree : Memory → ℕ → Memory
kfree m p = if not m.initialized || p == 0 then m else elim (find_block p m.manager.free_list) [
  | none ↦ m
  | some b ↦ if b.is_free then m else record m {
    manager = record m.manager {
      free_list = compact_free_blocks (mark_free p m.manager.free_list);
      free_memory = add32 m.manager.free_memory b.size;
    };
    stats = record m.stats {
      total_frees = add32 m.stats.total_frees 1;
      current_allocated = sub32 m.stats.current_allocated b.size;
    };
  }
]

unfoldable pub kcalloc : Memory → ℕ → ℕ → ℕ × Memory
kcalloc m count size =
    let total_size = mul32 count size in
    let (p, m') = kmalloc m total_size in
    if not (p == 0) then (p, record m' { bytes = memset p 0 total_size m'.bytes }) else (p, m')

-- The size that `krealloc` reads from the block list, 0 when no block has the address.
unfoldable pub block_size_at : ℕ → List Block → ℕ
block_size_at p bs = elim (find_block p bs) [ none ↦ 0 | some b ↦ b.size ]

unfoldable pub krealloc : Memory → ℕ → ℕ → ℕ × Memory
krealloc m p new_size =
    if p == 0
    then kmalloc m new_size
    else if new_size == 0
    then (0, kfree m p)
    else (let old_size = block_size_at p m.manager.free_list in
        let (q, m') = kmalloc m new_size in
        if not (q == 0) && ltb 0 old_size
        then (let copy_size = if ltb old_size new_size then old_size else new_size in
            (q, kfree (record m' { bytes = memcpy q p copy_size m'.bytes }) p))
        else (q, m'))

unfoldable pub get_memory_stats : Memory → MemoryStats
get_memory_stats m = m.stats

unfoldable pub print_memory_info : Memory → List Effect
print_memory_info m =
    print_string "\n=== Memory Information ===\n"
    ∷ print_string "Total Memory: "
    ∷ print_hex m.manager.total_memory
    ∷ print_string " bytes\n"
    ∷ print_string "Free Memory: "
    ∷ print_hex m.manager.free_memory
    ∷ print_string " bytes\n"
    ∷ print_string "Used Memory: "
    ∷ print_hex (sub32 m.manager.total_memory m.manager.free_memory)
    ∷ print_string " bytes\n"
    ∷ print_string "Total Pages: "
    ∷ print_hex m.manager.total_pages
    ∷ print_string "\n"
    ∷ print_string "Free Pages: "
    ∷ print_hex m.manager.free_pages
    ∷ print_string "\n"
    ∷ print_string "Used Pages: "
    ∷ print_hex m.manager.used_pages
    ∷ print_string "\n"
    ∷ print_string "Allocations: "
    ∷ print_hex m.stats.total_allocations
    ∷ print_string "\n"
    ∷ print_string "Frees: "
    ∷ print_hex m.stats.total_frees
    ∷ print_string "\n"
    ∷ []
