-- ===== src/Memory/Pages/Frames.antt =====
-- The page allocator against the set of page addresses in use.
use os_simple.Base.{
  ℕ, zero, suc, ◌+◌, ◌≤◌, ◌<◌, ◌≡◌, refl, ap, sym, ◌∙◌, Bool, true, false, List, [], ◌∷◌, Option,
  none, some, ◌==◌, if◌then◌else◌, ◌⊎◌, inl, inr, Bool-cases, length, update, arith,
}
use os_simple.Memory.Align.{memory_start}
use os_simple.Memory.Manager.{MemoryManager, Page, PageStatus, page_used}
use os_simple.Memory.Pages.{is_page_free, is_page_used, take_page, alloc_page, drop_page, free_page}
use os_simple.Memory.Pages.Counting.{Paged}

pub data PageCall : Type 0 where
  alloc : PageCall
  free : ℕ → PageCall

-- The pages that the calls get, 0 for `free_page`.
unfoldable pub page_replies : MemoryManager → List PageCall → List ℕ
page_replies m [] = []
page_replies m (alloc ∷ calls) = (alloc_page m).0 ∷ page_replies (alloc_page m).1 calls
page_replies m (free a ∷ calls) = 0 ∷ page_replies (free_page m a) calls

-- The specification: which addresses are those of pages in use; the lowest page of the next `n` that is
-- not, or none.
abbrev pub InUse : Type 0
InUse = ℕ → Bool

pub lowest : ℕ → ℕ → InUse → Option ℕ
lowest zero p s = none
lowest (suc n) p s = let above = lowest n (p + 4096) s in if s p then above else some p

abbrev pub given : Option ℕ → ℕ
given none = 0
given (some a) = a

abbrev pub taken : Option ℕ → InUse → InUse
taken none s = s
taken (some a) s = update s a true

unfoldable pub frame_replies : InUse → List PageCall → List ℕ
frame_replies s [] = []
frame_replies s (alloc ∷ calls) =
    let page = lowest 3840 memory_start s in given page ∷ frame_replies (taken page s) calls
frame_replies s (free a ∷ calls) = 0 ∷ frame_replies (update s a false) calls

-- The set that a page array stands for.
abbrev pub used_at : List Page → InUse
used_at [] a = false
used_at (g ∷ gs) a = if g.address == a then is_page_used g.status else used_at gs a

-- An array and a set agree on the pages of the array.
abbrev pub Agrees : List Page → InUse → Type 0
Agrees [] s = Unit {0}
Agrees (g ∷ gs) s = (is_page_used g.status ≡ s g.address) × Agrees gs s

-- A change below the array's pages.
Agrees-below :
    (p e a : ℕ) (b : Bool) (gs : List Page) (s : InUse)
    → a < p
    → Paged p e gs
    → Agrees gs s
    → Agrees gs (update s a b)
Agrees-below p e a b [] s l h g = tt
Agrees-below p e a b (x ∷ gs) s l h g =
    let apart : (x.address == a) ≡ false = ground (arith, h.0) in
    (rw apart g.0, Agrees-below (p + 4096) e a b gs s (omega arith) h.2 g.1)

free_not_used : (status : PageStatus) → is_page_free status ≡ true → is_page_used status ≡ false
free_not_used status h = ground arith

busy_used :
    (x : Page) (p e : ℕ) (gs : List Page)
    → Paged p e (x ∷ gs)
    → is_page_free x.status ≡ false
    → is_page_used x.status ≡ true
busy_used x p e gs h busy = ground (arith, h.1)

-- Both take the same page, or find none.
pub taken_cases :
    (gs : List Page) (n p e : ℕ) (s : InUse)
    → length gs ≡ n
    → Paged p e gs
    → Agrees gs s
    → ((take_page gs ≡ none) × (lowest n p s ≡ none))
      ⊎ ((a : ℕ) × (gs' : List Page) × (take_page gs ≡ some (a, gs'))
          × (lowest n p s ≡ some a)
          × Agrees gs' (update s a true)
          × (length gs' ≡ n)
          × (p ≤ a))
unfolding take_page lowest
taken_cases [] zero p e s l h g = inl (refl, refl)
taken_cases [] (suc n) p e s l h g = absurd (omega arith)
taken_cases (x ∷ gs) zero p e s l h g = absurd (omega arith)
taken_cases (x ∷ gs) (suc n) p e s l h g = elim (Bool-cases (is_page_free x.status)) [
  | inl unused ↦
      let idle : s p ≡ false = ap s (sym h.0) ∙ sym g.0 ∙ free_not_used x.status unused in
      let at : (x.address == x.address) ≡ true = ground arith in
      inr (
        x.address,
        record x { status = page_used; ref_count = 1 } ∷ gs,
        rw unused refl,
        rw idle (ap some (sym h.0)),
        (rw at refl, Agrees-below (p + 4096) e x.address true gs s (omega (arith, h.0)) h.2 g.1),
        l,
        omega (arith, h.0),
      )
  | inr busy ↦
      let held : s p ≡ true = ap s (sym h.0) ∙ sym g.0 ∙ busy_used x p e gs h busy in
      elim (taken_cases gs n (p + 4096) e s (omega arith) h.2 g.1) [
        | inl (missing, full) ↦ inl (rw (busy, missing) refl, rw held full)
        | inr (a, gs', found, low, kept, size, above) ↦
            let apart : (x.address == a) ≡ false = ground (arith, h.0, above) in
            inr (
              a,
              x ∷ gs',
              rw (busy, found) refl,
              rw held low,
              (rw apart g.0, kept),
              omega (arith, size),
              omega (arith, above),
            )
      ]
]

-- Dropping the reference to a page takes its address out of the set.
pub drop_page-Agrees :
    (a p e : ℕ) (gs : List Page) (s : InUse)
    → Paged p e gs
    → Agrees gs s
    → Agrees (drop_page a gs).1 (update s a false) × (length (drop_page a gs).1 ≡ length gs)
unfolding drop_page
drop_page-Agrees a p e [] s h g = (tt, refl)
drop_page-Agrees a p e (x ∷ gs) s h g = elim (Bool-cases (x.address == a)) [
  | inl hit ↦
      let rest = Agrees-below (p + 4096) e a false gs s (ground (arith, h.0)) h.2 g.1 in
      elim h.1 [
        | inl (status, count) ↦ rw (hit, status) ((rw hit refl, rest), refl)
        | inr (status, count) ↦ rw (hit, status, count) ((rw hit refl, rest), refl)
      ]
  | inr miss ↦
      let rest = drop_page-Agrees a (p + 4096) e gs s h.2 g.1 in
      rw miss ((rw miss g.0, rest.0), ap suc rest.1)
]
