-- ===== src/Memory/Pages.antt =====
-- kernel/memory.c: the page allocator, over the page array of the memory manager.
pub mod Counting
pub mod Frames
pub mod Refine
use os_simple.Base.{
  ℕ, Bool, true, false, List, [], ◌∷◌, Option, none, some, ◌==◌, if◌then◌else◌, add32, sub32,
  bit_and, not32,
}
use os_simple.Memory.Manager.{
  Memory, MemoryManager, Page, PageStatus, page_free, page_used, page_reserved, page_size,
}

abbrev pub is_page_free : PageStatus → Bool
is_page_free page_free = true
is_page_free page_used = false
is_page_free page_reserved = false

abbrev pub is_page_used : PageStatus → Bool
is_page_used page_free = false
is_page_used page_used = true
is_page_used page_reserved = false

-- The loop of `alloc_page`: the address of the first free page, and the array with it taken.
unfoldable pub take_page : List Page → Option (ℕ × List Page)
take_page [] = none
take_page (g ∷ gs) =
    let later = take_page gs in
    if is_page_free g.status
    then some (g.address, record g { status = page_used; ref_count = 1 } ∷ gs)
    else elim later [ none ↦ none | some (a, gs') ↦ some (a, g ∷ gs') ]

unfoldable pub alloc_page : MemoryManager → ℕ × MemoryManager
alloc_page m = elim (take_page m.pages) [
  | none ↦ (0, m)
  | some (a, gs) ↦ (
    a,
    record m { pages = gs; free_pages = sub32 m.free_pages 1; used_pages = add32 m.used_pages 1 },
  )
]

-- The loop of `free_page`: the array with the reference to the first page of this address dropped,
-- and whether the page became free.
unfoldable pub drop_page : ℕ → List Page → Bool × List Page
drop_page addr [] = (false, [])
drop_page addr (g ∷ gs) =
    let later = drop_page addr gs in
    if g.address == addr
    then (if is_page_used g.status
        then (let count = sub32 g.ref_count 1 in
            if count == 0
            then (true, record g { status = page_free; ref_count = count } ∷ gs)
            else (false, record g { ref_count = count } ∷ gs))
        else (false, g ∷ gs))
    else (later.0, g ∷ later.1)

unfoldable pub free_page : MemoryManager → ℕ → MemoryManager
free_page m addr =
    let (emptied, gs) = drop_page addr m.pages in
    if emptied
    then record m {
      pages = gs;
      free_pages = add32 m.free_pages 1;
      used_pages = sub32 m.used_pages 1;
    }
    else record m { pages = gs }

find_page : ℕ → List Page → Option Page
find_page addr [] = none
find_page addr (g ∷ gs) = if g.address == addr then some g else find_page addr gs

-- The page that holds the address, as it is at the time of the call.
unfoldable pub get_page_info : MemoryManager → ℕ → Option Page
unfolding find_page
get_page_info m addr = find_page (bit_and addr (not32 (sub32 page_size 1))) m.pages

unfoldable pub get_free_pages_count : MemoryManager → ℕ
get_free_pages_count m = m.free_pages
