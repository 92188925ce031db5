-- ===== src/Memory/Blocks/Restore.antt =====
-- Handing out a block and taking it back restores the list.
use os_simple.Base.{
  ℕ, ◌+◌, ◌≤◌, ◌<◌, ◌≡◌, refl, ap, ◌∙◌, Bool, true, false, ◌&&◌, List, [], ◌∷◌, Option, some, ◌==◌,
  arith, add32,
}
use os_simple.Memory.Blocks.{
  Block, set_prev, new_block, adjacent, merge, mark_free, find_block, compact_from,
  compact_free_blocks,
}
use os_simple.Memory.Blocks.Tiling.{
  Tiled, Tiled-le, Linked, FirstFit, whole, part, later, FirstFit-IsHanded,
}
use os_simple.Memory.Blocks.Merging.{Alternates, compact_from_same}

abbrev starts_free : List Block → Bool
starts_free [] = false
starts_free (b ∷ bs) = b.is_free

compact_from_step :
    (b : Block) (xs : List Block)
    → (b.is_free && starts_free xs) ≡ false
    → compact_from b false xs ≡ b ∷ compact_free_blocks xs
unfolding compact_from compact_free_blocks
compact_from_step b [] h = refl
compact_from_step b (d ∷ xs) h = rw h

-- The block handed out lies above the header of every block before it.
later_address :
    {n : ℕ} {bs bs' : List Block} {t : Block} (b : Block) (p e : ℕ)
    → FirstFit n bs t bs'
    → e ≤ 0x1000000
    → Tiled p e (b ∷ bs)
    → (b.address == t.address) ≡ false
later_address b p e f small t = ground (arith, FirstFit-IsHanded f (p + 20 + b.size) e small t.3)

-- The block handed out is the one that its address finds.
pub find_handed :
    {n : ℕ} {bs bs' : List Block} {t : Block}
    → FirstFit n bs t bs'
    → (p e : ℕ) → e ≤ 0x1000000
    → Tiled p e bs
    → find_block t.address bs' ≡ some t
unfolding find_block
find_handed (whole fit same) p e small t = ground arith
find_handed (part fit larger) p e small t = ground arith
find_handed (later {b} miss f) p e small t =
    rw (later_address b p e f small t) (find_handed f (p + 20 + b.size) e small t.3)

mark_handed-starts_free :
    {n : ℕ} {bs bs' : List Block} {t : Block}
    → FirstFit n bs t bs'
    → (p e : ℕ) → e ≤ 0x1000000
    → Tiled p e bs
    → starts_free (mark_free t.address bs') ≡ starts_free bs
unfolding mark_free
mark_handed-starts_free (whole fit same) p e small t = ground arith
mark_handed-starts_free (part fit larger) p e small t = ground arith
mark_handed-starts_free (later {b} miss f) p e small t = rw (later_address b p e f small t)

record_free : (b : Block) → b.is_free ≡ true → record b { is_free = true } ≡ b
record_free b h = ground arith

-- The two parts of a split block make up the block again.
rejoin :
    (n p e : ℕ) (b : Block) (bs : List Block)
    → e ≤ 0x1000000
    → Tiled p e (b ∷ bs)
    → b.is_free ≡ true
    → n + 20 < b.size
    → (adjacent (record b { size = n; is_free = true }) (new_block b n) ≡ true)
      × (merge (record b { size = n; is_free = true }) (new_block b n) ≡ b)
rejoin n p e b bs small t free room = ground (arith, Tiled-le (p + 20 + b.size) e bs t.3)

compact_from_join :
    (c d : Block) (bs : List Block)
    → (c.is_free && d.is_free) ≡ true
    → adjacent c d ≡ true
    → compact_from c false (d ∷ bs) ≡ compact_from (merge c d) true bs
unfolding compact_from
compact_from_join c d bs free near = rw (free, near)

-- After a merge the loop gives the next block, which is used, its `prev` back.
resume :
    (b : Block) (q : ℕ) (bs : List Block)
    → b.is_free ≡ true
    → Alternates b.is_free bs
    → Linked (some b.ptr) bs
    → compact_from b true (set_prev q bs) ≡ b ∷ bs
unfolding compact_from
resume b q [] free a l = refl
resume b q (d ∷ bs) free a l =
    let same : record d { prev = some b.ptr } ≡ d = ground arith in
    rw a.0 (ap (◌∷◌ b) (rw same (compact_from_same d bs a.1)))

pub restore :
    {n : ℕ} {bs bs' : List Block} {t : Block}
    → FirstFit n bs t bs'
    → (p e : ℕ) (f : Bool) (q : Option ℕ) → e ≤ 0x1000000
    → Tiled p e bs
    → Alternates f bs
    → Linked q bs
    → compact_free_blocks (mark_free t.address bs') ≡ bs
unfolding mark_free compact_free_blocks
restore (whole {b} {bs} fit same) p e f q small t a l =
    let free : b.is_free ≡ true = ground arith in
    let hit : (b.address == b.address) ≡ true = ground arith in
    rw (hit, record_free b free) (compact_from_same b bs a.1)
restore {n} (part {b} {bs} fit larger) p e f q small t a l =
    let free : b.is_free ≡ true = ground arith in
    let room : n + 20 < b.size = ground (arith, Tiled-le (p + 20 + b.size) e bs t.3) in
    let hit : (b.address == b.address) ≡ true = ground arith in
    let (near, whole_again) = rejoin n p e b bs small t free room in
    rw hit (
      compact_from_join (record b { size = n; is_free = true }) (new_block b n)
        (set_prev (add32 b.address n) bs) refl near
      ∙ rw whole_again (resume b (add32 b.address n) bs free a.1 l.1))
restore (later {b} {t} {bs} {bs'} miss f) p e g q small h a l = rw (later_address b p e f small h) (
    compact_from_step b (mark_free t.address bs')
      (rw (mark_handed-starts_free f (p + 20 + b.size) e small h.3) (starts b.is_free bs a.1))
    ∙ ap (◌∷◌ b) (restore f (p + 20 + b.size) e b.is_free (some b.ptr) small h.3 a.1 l.1))
  where
    starts : (f : Bool) (xs : List Block) → Alternates f xs → (f && starts_free xs) ≡ false
    starts true [] h = refl
    starts false [] h = refl
    starts f (x ∷ xs) h = h.0
