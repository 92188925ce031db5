-- ===== src/Memory/Pages/Refine.antt =====
-- Any sequence of page requests, against the set of page addresses in use.
use mathlib.Core.Path.{ap₂}
use os_simple.Base.{
  ℕ, ◌+◌, ◌*◌, ◌≤◌, ◌≡◌, refl, ap, sym, subst, ◌∙◌, true, false, List, [], ◌∷◌, none, some, ◌==◌,
  inl, inr, Bool-cases, Option-cases, length, update, arith,
}
use os_simple.Memory.Align.{memory_start, memory_end}
use os_simple.Memory.Manager.{MemoryManager, Page}
use os_simple.Memory.Pages.{take_page, alloc_page, drop_page, free_page}
use os_simple.Memory.Pages.Counting.{Paged, IsPaged, alloc_page-IsPaged, free_page-IsPaged}
use os_simple.Memory.Pages.Frames.{
  PageCall, alloc, free, page_replies, InUse, lowest, given, taken, frame_replies, used_at, Agrees,
  taken_cases, drop_page-Agrees,
}

pages-alloc :
    (m : MemoryManager)
    → (alloc_page m).1.pages ≡ elim (take_page m.pages) [ none ↦ m.pages | some (a, gs) ↦ gs ]
unfolding alloc_page
pages-alloc m = elim (Option-cases (take_page m.pages)) [
  | inl missing ↦ rw (missing, alloc_page) refl
  | inr (r, found) ↦ rw (found, alloc_page) refl
]

reply-alloc :
    (m : MemoryManager)
    → (alloc_page m).0 ≡ elim (take_page m.pages) [ none ↦ 0 | some (a, gs) ↦ a ]
unfolding alloc_page
reply-alloc m = elim (Option-cases (take_page m.pages)) [
  | inl missing ↦ rw (missing, alloc_page) refl
  | inr (r, found) ↦ rw (found, alloc_page) refl
]

pages-free : (m : MemoryManager) (a : ℕ) → (free_page m a).pages ≡ (drop_page a m.pages).1
unfolding free_page
pages-free m a = elim (Bool-cases (drop_page a m.pages).0) [
  | inl emptied ↦ rw emptied refl
  | inr other ↦ rw other refl
]

-- An array in order, of the right size, and the set that it stands for.
abbrev Stands : MemoryManager → InUse → Type 0
Stands m s = IsPaged m × (length m.pages ≡ 3840) × Agrees m.pages s

alloc-Stands :
    (m : MemoryManager) (s : InUse)
    → Stands m s
    → let page = lowest 3840 memory_start s in
      ((alloc_page m).0 ≡ given page) × Stands (alloc_page m).1 (taken page s)
alloc-Stands m s (v, size, g) =
    elim (taken_cases m.pages 3840 memory_start memory_end s size v.array g) [
      | inl (missing, full) ↦
          let same : (alloc_page m).1.pages ≡ m.pages = pages-alloc m ∙ rw missing refl in
          (
            reply-alloc m ∙ rw (missing, full) refl,
            (
              alloc_page-IsPaged m v,
              ap length same ∙ size,
              rw full (subst (λ gs. Agrees gs s) (sym same) g),
            ),
          )
      | inr (a, gs', found, low, kept, length', above) ↦
          let same : (alloc_page m).1.pages ≡ gs' = pages-alloc m ∙ rw found refl in
          (
            reply-alloc m ∙ rw (found, low) refl,
            (
              alloc_page-IsPaged m v,
              ap length same ∙ length',
              rw low (subst (λ gs. Agrees gs (update s a true)) (sym same) kept),
            ),
          )
    ]

free-Stands :
    (m : MemoryManager) (a : ℕ) (s : InUse) → Stands m s → Stands (free_page m a) (update s a false)
free-Stands m a s (v, size, g) =
    let kept = drop_page-Agrees a memory_start memory_end m.pages s v.array g in
    (
      free_page-IsPaged m a v,
      ap length (pages-free m a) ∙ kept.1 ∙ size,
      subst (λ gs. Agrees gs (update s a false)) (sym (pages-free m a)) kept.0,
    )

replies-Stands :
    (m : MemoryManager) (s : InUse) (calls : List PageCall)
    → Stands m s
    → page_replies m calls ≡ frame_replies s calls
unfolding page_replies frame_replies
replies-Stands m s [] h = refl
replies-Stands m s (alloc ∷ calls) h =
    let one = alloc-Stands m s h in
    ap₂ ◌∷◌ one.0
      (replies-Stands (alloc_page m).1 (taken (lowest 3840 memory_start s) s) calls one.1)
replies-Stands m s (free a ∷ calls) h =
    ap (λ rs. 0 ∷ rs)
      (replies-Stands (free_page m a) (update s a false) calls (free-Stands m a s h))

Paged-length : (p e : ℕ) (gs : List Page) → Paged p e gs → p + 4096 * length gs ≡ e
Paged-length p e [] h = omega arith
Paged-length p e (x ∷ gs) h = omega (arith, Paged-length (p + 4096) e gs h.2)

-- Only the set from the array's first page on matters.
Agrees-from :
    (p e : ℕ) (gs : List Page) (s u : InUse)
    → ((a : ℕ) → p ≤ a → u a ≡ s a)
    → Paged p e gs
    → Agrees gs s
    → Agrees gs u
Agrees-from p e [] s u same h g = tt
Agrees-from p e (x ∷ gs) s u same h g = (
  g.0 ∙ sym (same x.address (omega (arith, h.0))),
  Agrees-from (p + 4096) e gs s u (λ a l. same a (omega arith)) h.2 g.1,
)

used_at-Agrees : (p e : ℕ) (gs : List Page) → Paged p e gs → Agrees gs (used_at gs)
used_at-Agrees p e [] h = tt
used_at-Agrees p e (x ∷ gs) h =
    let at : (x.address == x.address) ≡ true = ground arith in
    (
      rw at refl,
      Agrees-from (p + 4096) e gs (used_at gs) (used_at (x ∷ gs))
          (λ a l. let apart : (x.address == a) ≡ false = ground (arith, h.0) in rw apart refl) h.2
          (used_at-Agrees (p + 4096) e gs h.2),
    )

-- With the page array and its counters in order, any sequence of `alloc_page` and `free_page` calls, with
-- any addresses, gets the pages that the set of the addresses in use gives: each `alloc_page` the
-- lowest page of the managed memory that is not in the set, which it adds, or null when all are; a
-- `free_page` takes its address out of the set.
pub page_replies_lem :
    (m : MemoryManager) (calls : List PageCall)
    → IsPaged m
    → page_replies m calls ≡ frame_replies (used_at m.pages) calls
page_replies_lem m calls v =
    let size = Paged-length memory_start memory_end m.pages v.array in
    replies-Stands m (used_at m.pages) calls
      (v, omega arith, used_at-Agrees memory_start memory_end m.pages v.array)
