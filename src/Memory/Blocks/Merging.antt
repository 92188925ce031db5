-- ===== src/Memory/Blocks/Merging.antt =====
-- `compact_free_blocks`: the loop as a relation, and what it keeps and establishes.
use os_simple.Base.{
  ℕ, ◌+◌, ◌≤◌, ◌≡◌, refl, ap, ◌∙◌, Bool, true, false, ◌&&◌, List, [], ◌∷◌, Option, some,
  if◌then◌else◌, ◌⊎◌, inl, inr, Bool-cases, arith,
}
use os_simple.Memory.Blocks.{Block, adjacent, merge, compact_from}
use os_simple.Memory.Blocks.Tiling.{Tiled, Tiled-le, Tiled-from, Linked}
use os_simple.Memory.Blocks.Regions.{regions, used_total}

-- The block `d`, its `prev` set to `c` if the loop has just merged into `c`.
abbrev pub relinked : Bool → Block → Block → Block
relinked r c d = record d { prev = if r then some c.ptr else d.prev }

abbrev pub joins : Block → Block → Bool
joins c d = (c.is_free && d.is_free) && adjacent c d

pub data Merges : Block → Bool → List Block → List Block → Type 0 where
  last : {c : Block} {r : Bool} → Merges c r [] (c ∷ [])
  join :
      {c d : Block} {r : Bool} {bs out : List Block}
      → joins c d ≡ true
      → Merges (merge c d) true bs out
      → Merges c r (d ∷ bs) out
  step :
      {c d : Block} {r : Bool} {bs out : List Block}
      → joins c d ≡ false
      → Merges (relinked r c d) false bs out
      → Merges c r (d ∷ bs) (c ∷ out)

pub compact_from-Merges :
    (c : Block) (r : Bool) (bs : List Block) → Merges c r bs (compact_from c r bs)
unfolding compact_from
compact_from-Merges c r [] = last
compact_from-Merges c r (d ∷ bs) = elim (Bool-cases (c.is_free && d.is_free)) [
  | inl free ↦ elim (Bool-cases (adjacent c d)) [
    | inl near ↦ rw (free, near) (join (rw (free, near)) (compact_from-Merges (merge c d) true bs))
    | inr far ↦
        rw (free, far) (step (rw (free, far)) (compact_from-Merges (relinked r c d) false bs))
  ]
  | inr used ↦ rw used (step (rw used) (compact_from-Merges (relinked r c d) false bs))
]

-- No free block follows a free one; the flag says whether the block before is free.
abbrev pub Alternates : Bool → List Block → Type 0
Alternates f [] = Unit {0}
Alternates f (b ∷ bs) = ((f && b.is_free) ≡ false) × Alternates b.is_free bs

Tiled-adjacent :
    (p e : ℕ) (c d : Block) (bs : List Block)
    → e ≤ 0x1000000
    → Tiled p e (c ∷ d ∷ bs)
    → (adjacent c d ≡ true) × ((merge c d).size ≡ c.size + d.size + 20)
Tiled-adjacent p e c d bs small t =
    ground (arith, Tiled-le (p + 20 + c.size + 20 + d.size) e bs t.3.3)

merge-Tiled :
    (p e : ℕ) (c d : Block) (bs : List Block)
    → e ≤ 0x1000000
    → Tiled p e (c ∷ d ∷ bs)
    → Tiled p e (merge c d ∷ bs)
merge-Tiled p e c d bs small t =
    let total = (Tiled-adjacent p e c d bs small t).1 in
    (t.0, t.1, omega (arith, total, t.2, t.3.2), Tiled-from e bs (omega (arith, total)) t.3.3)

pub Merges-Tiled :
    {c : Block} {r : Bool} {bs out : List Block}
    → Merges c r bs out
    → (p e : ℕ) → e ≤ 0x1000000
    → Tiled p e (c ∷ bs)
    → Tiled p e out
Merges-Tiled last p e small t = t
Merges-Tiled (join {c} {d} {bs} h m) p e small t =
    Merges-Tiled m p e small (merge-Tiled p e c d bs small t)
Merges-Tiled (step {c} h m) p e small t =
    (t.0, t.1, t.2, Merges-Tiled m (p + 20 + c.size) e small t.3)

-- In a tiled list, no two free blocks are left side by side.
pub Merges-Alternates :
    {c : Block} {r : Bool} {bs out : List Block}
    → Merges c r bs out
    → (p e : ℕ) (f : Bool) → e ≤ 0x1000000
    → Tiled p e (c ∷ bs)
    → (f && c.is_free) ≡ false
    → Alternates f out
Merges-Alternates last p e f small t h = (h, tt)
Merges-Alternates (join {c} {d} {bs} j m) p e f small t h =
    Merges-Alternates m p e f small (merge-Tiled p e c d bs small t) h
Merges-Alternates (step {c} {d} {bs} j m) p e f small t h = (
  h,
  Merges-Alternates m (p + 20 + c.size) e c.is_free small t.3
      (ground (arith, Tiled-adjacent p e c d bs small t)),
)

-- The blocks after `c` mirror the order, but for the first one's `prev` if the loop is to set it.
abbrev pub LinkedAfter : Bool → Block → List Block → Type 0
LinkedAfter r c [] = Unit {0}
LinkedAfter r c (d ∷ bs) = ((r ≡ true) ⊎ (d.prev ≡ some c.ptr)) × Linked (some d.ptr) bs

pub Linked-LinkedAfter :
    (c : Block) (bs : List Block) → Linked (some c.ptr) bs → LinkedAfter false c bs
Linked-LinkedAfter c [] l = tt
Linked-LinkedAfter c (d ∷ bs) l = (inr l.0, l.1)

merge-LinkedAfter :
    (c d : Block) (bs : List Block) → Linked (some d.ptr) bs → LinkedAfter true (merge c d) bs
merge-LinkedAfter c d [] l = tt
merge-LinkedAfter c d (b ∷ bs) l = (inl refl, l.1)

pub Merges-Linked :
    {c : Block} {r : Bool} {bs out : List Block}
    → Merges c r bs out
    → (q : Option ℕ) → c.prev ≡ q
    → LinkedAfter r c bs
    → Linked q out
Merges-Linked last q h l = (h, tt)
Merges-Linked (join {c} {d} {bs} j m) q h l = Merges-Linked m q h (merge-LinkedAfter c d bs l.1)
Merges-Linked (step {c} {d} {r} {bs} j m) q h l =
    (h, Merges-Linked m (some c.ptr) (ground arith) (Linked-LinkedAfter (relinked r c d) bs l.1))

joins-free : (c d : Block) → joins c d ≡ true → (c.is_free ≡ true) × (d.is_free ≡ true)
joins-free c d h = ground arith

-- Merging free blocks is not seen by clients.
pub Merges-regions :
    {c : Block} {r : Bool} {bs out : List Block}
    → Merges c r bs out
    → regions out ≡ regions (c ∷ bs)
Merges-regions last = refl
Merges-regions (join {c} {d} j m) =
    let (free, also) = joins-free c d j in Merges-regions m ∙ rw (free, also)
Merges-regions (step {c} j m) =
    ap (λ x. if c.is_free then x else (c.address, c.size) ∷ x) (Merges-regions m)

pub Merges-used_total :
    {c : Block} {r : Bool} {bs out : List Block}
    → Merges c r bs out
    → used_total out ≡ used_total (c ∷ bs)
Merges-used_total last = refl
Merges-used_total (join {c} {d} j m) =
    let (free, also) = joins-free c d j in Merges-used_total m ∙ rw (free, also) (omega arith)
Merges-used_total (step {c} j m) =
    ap (λ x. (if c.is_free then 0 else c.size) + x) (Merges-used_total m)

-- A list with no free neighbours, linked in order, is left as it is.
pub compact_from_same :
    (c : Block) (bs : List Block) → Alternates c.is_free bs → compact_from c false bs ≡ c ∷ bs
unfolding compact_from
compact_from_same c [] a = refl
compact_from_same c (d ∷ bs) a = rw a.0 (ap (◌∷◌ c) (compact_from_same d bs a.1))
