-- ===== src/Memory/Pages/Counting.antt =====
-- The page array against its counters.
use os_simple.Base.{
  ℕ, zero, suc, ◌+◌, ◌*◌, ◌%◌, ◌≤◌, ◌≡◌, ◌≢◌, refl, true, false, List, [], ◌∷◌, none, some, ◌==◌,
  if◌then◌else◌, ◌⊎◌, inl, inr, Bool-cases, add32, sub32, arith,
}
use os_simple.Memory.Align.{memory_start, memory_end}
use os_simple.Memory.Blocks.{Block}
use os_simple.Memory.Manager.Invariant.{blocks, IsHeap}
use os_simple.Memory.Manager.{
  Memory, MemoryManager, Page, page_free, page_used, page_size, init_pages, init_memory_manager,
}
use os_simple.Memory.Pages.{is_page_free, is_page_used, take_page, alloc_page, drop_page, free_page}

-- The pages lie one behind the other from `p` to `e`; a free page has no reference, a used page one.
abbrev pub Paged : ℕ → ℕ → List Page → Type 0
Paged p e [] = p ≡ e
Paged p e (g ∷ gs) =
    (g.address ≡ p)
    × (((g.status ≡ page_free) × (g.ref_count ≡ 0)) ⊎ ((g.status ≡ page_used) × (g.ref_count ≡ 1)))
    × Paged (p + 4096) e gs

abbrev pub free_count : List Page → ℕ
free_count [] = 0
free_count (g ∷ gs) = (if is_page_free g.status then 1 else 0) + free_count gs

abbrev pub used_count : List Page → ℕ
used_count [] = 0
used_count (g ∷ gs) = (if is_page_used g.status then 1 else 0) + used_count gs

pub record IsPaged (m : MemoryManager) : Type 0 where
  pub array : Paged memory_start memory_end m.pages
  pub free_right : m.free_pages ≡ free_count m.pages
  pub used_right : m.used_pages ≡ used_count m.pages

Paged-size :
    (p e : ℕ) (gs : List Page) → Paged p e gs → p + 4096 * (free_count gs + used_count gs) ≡ e
Paged-size p e [] h = omega arith
Paged-size p e (g ∷ gs) h = ground (arith, Paged-size (p + 4096) e gs h.2)

-- What `take_page` does, as a relation: the first free page, its address, and the array after.
pub data Takes : List Page → ℕ → List Page → Type 0 where
  hit :
      {g : Page} {gs : List Page}
      → g.status ≡ page_free
      → Takes (g ∷ gs) g.address (record g { status = page_used; ref_count = 1 } ∷ gs)
  miss :
      {g : Page} {gs gs' : List Page} {a : ℕ}
      → g.status ≢ page_free
      → Takes gs a gs'
      → Takes (g ∷ gs) a (g ∷ gs')

take_page_cases :
    (gs : List Page)
    → ((free_count gs ≡ 0) × (take_page gs ≡ none))
      ⊎ ((a : ℕ) × (gs' : List Page) × Takes gs a gs' × (take_page gs ≡ some (a, gs')))
unfolding take_page
take_page_cases [] = inl (refl, refl)
take_page_cases (g ∷ gs) = elim (Bool-cases (is_page_free g.status)) [
  | inl free ↦ inr (g.address, _, hit (ground arith), rw free)
  | inr busy ↦ elim (take_page_cases gs) [
    | inl (zero_free, e) ↦ inl (rw busy (omega (arith, zero_free)), rw (busy, e))
    | inr (a, gs', t, e) ↦ inr (a, g ∷ gs', miss (ground arith) t, rw (busy, e))
  ]
]

Takes-Paged :
    {gs gs' : List Page} {a : ℕ} → Takes gs a gs' → (p e : ℕ) → Paged p e gs → Paged p e gs'
Takes-Paged (hit f) p e h = (h.0, inr (refl, refl), h.2)
Takes-Paged (miss n t) p e h = (h.0, h.1, Takes-Paged t (p + 4096) e h.2)

Takes-counts :
    {gs gs' : List Page} {a : ℕ}
    → Takes gs a gs'
    → (free_count gs ≡ free_count gs' + 1) × (used_count gs' ≡ used_count gs + 1)
Takes-counts (hit f) = ground arith
Takes-counts (miss {g} n t) = ground (arith, Takes-counts t)

Takes-address :
    {gs gs' : List Page} {a : ℕ}
    → Takes gs a gs'
    → (p e : ℕ) → Paged p e gs
    → (p ≤ a) × (a % 4096 ≡ p % 4096)
Takes-address (hit f) p e h = omega (arith, h.0)
Takes-address (miss n t) p e h = omega (arith, Takes-address t (p + 4096) e h.2)

-- Releasing the page just taken gives the array back.
drop-Takes :
    {gs gs' : List Page} {a : ℕ}
    → Takes gs a gs'
    → (p e : ℕ) → Paged p e gs
    → drop_page a gs' ≡ (true, gs)
unfolding drop_page
drop-Takes (hit {g} f) p e h = ground arith
drop-Takes (miss {g} {gs} {gs'} {a} n t) p e h =
    let above = Takes-address t (p + 4096) e h.2 in
    let apart : (g.address == a) ≡ false = ground (arith, h.0) in
    rw (apart, drop-Takes t (p + 4096) e h.2)

free_count-le : (m : MemoryManager) → IsPaged m → free_count m.pages + used_count m.pages ≤ 3840
free_count-le m v = omega (arith, Paged-size memory_start memory_end m.pages v.array)

-- How a request for a page ends: no page is free, null and nothing changed; or a page, aligned and
-- inside the managed memory, with one free page less and one used page more.
abbrev pub PageAnswer : MemoryManager → ℕ × MemoryManager → Type 0
PageAnswer m r =
    ((m.free_pages ≡ 0) × (r ≡ (0, m)))
    ⊎ ((r.0 % 4096 ≡ 0)
        × (memory_start ≤ r.0)
        × (Takes m.pages r.0 r.1.pages)
        × (r.1.free_pages + 1 ≡ m.free_pages)
        × (r.1.used_pages ≡ m.used_pages + 1))

-- With the page array and its counters in order, `alloc_page` returns null exactly when no page is
-- free, and otherwise takes the first free page and counts it.
pub alloc_page_lem : (m : MemoryManager) → IsPaged m → PageAnswer m (alloc_page m)
unfolding alloc_page
alloc_page_lem m v = elim (take_page_cases m.pages) [
  | inl (zero_free, e) ↦ inl (omega (arith, zero_free, v.free_right), rw (e, alloc_page))
  | inr (a, gs', t, e) ↦
      let counts = Takes-counts t in
      let placed = Takes-address t memory_start memory_end v.array in
      let most = free_count-le m v in
      rw (e, alloc_page)
        (inr (
          omega (arith, placed),
          placed.0,
          t,
          omega (arith, counts, v.free_right, most),
          omega (arith, counts, v.used_right, most),
        ))
]

-- `alloc_page` keeps the page array and its counters in order.
pub alloc_page-IsPaged : (m : MemoryManager) → IsPaged m → IsPaged (alloc_page m).1
unfolding alloc_page
alloc_page-IsPaged m v = elim (take_page_cases m.pages) [
  | inl (zero_free, e) ↦ rw (e, alloc_page) v
  | inr (a, gs', t, e) ↦
      let counts = Takes-counts t in
      let most = free_count-le m v in
      rw (e, alloc_page)
        (record {
          array = Takes-Paged t memory_start memory_end v.array;
          free_right = omega (arith, counts, v.free_right, most);
          used_right = omega (arith, counts, v.used_right, most);
        })
]

alloc_page-some :
    (m : MemoryManager) (a : ℕ) (gs : List Page)
    → take_page m.pages ≡ some (a, gs)
    → alloc_page m ≡ (
      a,
      record m { pages = gs; free_pages = sub32 m.free_pages 1; used_pages = add32 m.used_pages 1 },
    )
unfolding alloc_page
alloc_page-some m a gs e = rw (e, alloc_page)

-- With the array and counters in order and a page free, taking a page and releasing it restores the
-- page array and both counters.
pub free_page-alloc_page :
    (m : MemoryManager)
    → IsPaged m
    → m.free_pages ≢ 0
    → free_page (alloc_page m).1 (alloc_page m).0 ≡ m
unfolding free_page
free_page-alloc_page m v some_free = elim (take_page_cases m.pages) [
  | inl (zero_free, e) ↦ absurd (some_free (omega (arith, zero_free, v.free_right)))
  | inr (a, gs', t, e) ↦
      let most = free_count-le m v in
      let counts = Takes-counts t in
      rw (alloc_page-some m a gs' e) (
        rw (drop-Takes t memory_start memory_end v.array, free_page)
          (ground (arith, counts, v.free_right, v.used_right, most)))
]

drop_page-Paged : (a p e : ℕ) (gs : List Page) → Paged p e gs → Paged p e (drop_page a gs).1
unfolding drop_page
drop_page-Paged a p e [] h = h
drop_page-Paged a p e (g ∷ gs) h = ground (arith, h.0, h.1, drop_page-Paged a (p + 4096) e gs h.2)

drop_page-counts :
    (a p e : ℕ) (gs : List Page)
    → Paged p e gs
    → (free_count (drop_page a gs).1 ≡ free_count gs + (if (drop_page a gs).0 then 1 else 0))
      × (used_count (drop_page a gs).1 + (if (drop_page a gs).0 then 1 else 0) ≡ used_count gs)
unfolding drop_page
drop_page-counts a p e [] h = omega arith
drop_page-counts a p e (g ∷ gs) h = ground (arith, h.1, drop_page-counts a (p + 4096) e gs h.2)

-- `free_page`, with any address, keeps the page array and its counters in order.
pub free_page-IsPaged : (m : MemoryManager) (a : ℕ) → IsPaged m → IsPaged (free_page m a)
unfolding free_page
free_page-IsPaged m a v =
    let kept = drop_page-Paged a memory_start memory_end m.pages v.array in
    let counts = drop_page-counts a memory_start memory_end m.pages v.array in
    let most = free_count-le m v in
    elim (Bool-cases (drop_page a m.pages).0) [
      | inl emptied ↦
          let shifted = rw emptied at counts in
          rw emptied (record {
            array = kept;
            free_right = omega (arith, shifted, v.free_right, most);
            used_right = omega (arith, shifted, v.used_right, most);
          })
      | inr other ↦
          let same = rw other at counts in
          rw other (record {
            array = kept;
            free_right = omega (arith, same, v.free_right);
            used_right = omega (arith, same, v.used_right);
          })
    ]

init_pages-Paged :
    (n p e : ℕ)
    → p + 4096 * n ≡ e
    → e ≤ 0x1000000
    → Paged p e (init_pages n p)
      × (free_count (init_pages n p) ≡ n)
      × (used_count (init_pages n p) ≡ 0)
unfolding init_pages
init_pages-Paged zero p e h small = (omega arith, refl, refl)
init_pages-Paged (suc n) p e h small =
    let next : add32 p page_size ≡ p + 4096 = omega arith in
    let rest = init_pages-Paged n (p + 4096) e (omega arith) small in
    rw next ((refl, inl (refl, refl), rest.0), omega (arith, rest.1), omega (arith, rest.2))

-- `init_memory_manager` leaves the page array and its counters in order, whatever was there before.
pub init_memory_manager-IsPaged : (m : Memory) → IsPaged (init_memory_manager m).0.manager
unfolding init_memory_manager
init_memory_manager-IsPaged m =
    let all = init_pages-Paged 3840 memory_start memory_end refl (omega arith) in
    record { array = all.0; free_right = omega (arith, all.1); used_right = omega (arith, all.2) }

-- While the first page is free, `alloc_page` hands out the memory that holds the header of the
-- heap's first block.
pub alloc_page_overlaps :
    (m : Memory) (b : Block) (bs : List Block) (g : Page) (gs : List Page)
    → IsHeap (blocks m)
    → IsPaged m.manager
    → blocks m ≡ b ∷ bs
    → m.manager.pages ≡ g ∷ gs
    → g.status ≡ page_free
    → (alloc_page m.manager).0 ≡ b.ptr
unfolding alloc_page take_page
alloc_page_overlaps m b bs g gs heap v eb eg free =
    let tiles = rw eb at heap.tiled in
    let paged = rw eg at v.array in rw eg (ground (arith, tiles.0, paged.0))
