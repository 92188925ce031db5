-- ===== src/Memory/Manager/Resizing.antt =====
-- kernel/memory.c: what `krealloc` does to the regions in use and to the bytes.
use native.Mathlib.Decide.{ℕ_discrete}
use os_simple.Base.{
  ℕ, ◌+◌, ◌^◌, ◌≤◌, ◌<◌, ◌≡◌, ◌≢◌, refl, ap, sym, ◌∙◌, true, false, List, some, ◌==◌, if◌then◌else◌,
  ◌⊎◌, inl, inr, arith,
}
use os_simple.Memory.Blocks.{Block, find_block}
use os_simple.Memory.Blocks.Tiling.{find_block-Freed, Freed-address}
use os_simple.Memory.Blocks.Regions.{Inserted}
use os_simple.Memory.Manager.{Memory, kmalloc, krealloc, block_size_at}
use os_simple.Memory.Bytes.{memcpy}
use os_simple.Memory.Manager.Invariant.{IsValid, blocks}
use os_simple.Memory.Manager.Requests.{kmalloc-Outcome, kmalloc-IsValid, with_bytes-IsValid}
use os_simple.Memory.Manager.Allocation.{in_use, kmalloc_lem, align_four_bounds}
use os_simple.Memory.Manager.Order.{without, in_use-kfree}
use os_simple.Memory.Manager.Contents.{
  Resized, copied, moves, krealloc_stays, krealloc_moved, Outcome-apart, Outcome-null, size_at,
  krealloc_lem,
}

-- A block that moves: the regions after the call.
krealloc_moved_regions :
    (m : Memory) (p new_size : ℕ)
    → p ≢ 0
    → new_size ≢ 0
    → moves m p new_size ≡ true
    → IsValid (kmalloc m new_size).1
    → in_use (krealloc m p new_size).1 ≡ without p (in_use (kmalloc m new_size).1)
unfolding krealloc
krealloc_moved_regions m p new_size hp hn e v =
    let old : (p == 0) ≡ false = ground arith in
    let kept : (new_size == 0) ≡ false = ground arith in
    let after =
      memcpy (kmalloc m new_size).0 p (copied (block_size_at p m.manager.free_list) new_size)
        (kmalloc m new_size).1.bytes in
    rw (old, kept, e)
      (in_use-kfree (record (kmalloc m new_size).1 { bytes = after }) p
        (with_bytes-IsValid (kmalloc m new_size).1 after v))

-- How a resize of the block `b` at `p` ends.
abbrev pub Moved : Memory → ℕ → ℕ → ℕ → ℕ × Memory → Type 0
Moved m p old_size new_size r =
    ((r.0 ≡ 0) × (r.1 ≡ m))
    ⊎ ((given : ℕ) × (both : List (ℕ × ℕ)) × Inserted (r.0, given) (in_use m) both
        × (in_use r.1 ≡ (if old_size == 0 then both else without p both))
        × (new_size ≤ given)
        × (given < new_size + 24)
        × (r.0 ≢ 0)
        × (old_size ≢ 0 → r.0 ≢ p)
        × ((i : ℕ) → i < old_size → i < new_size → r.1.bytes (r.0 + i) ≡ m.bytes (p + i)))

-- The bytes of a resize that is not refused.
Resized-bytes :
    {m : Memory} (p : ℕ) {old_size new_size : ℕ} {r : ℕ × Memory}
    → Resized m p old_size new_size r
    → r.0 ≢ 0
    → (i : ℕ) → i < old_size
    → i < new_size
    → r.1.bytes (r.0 + i) ≡ m.bytes (p + i)
Resized-bytes p (inl null) ne = absurd (ne null.0)
Resized-bytes p (inr done) ne = done.1

-- In a valid manager, resizing a block in use to 1 to 2^32 - 4 bytes either returns null and changes
-- nothing; or it adds a region of the new size and less than 24 bytes more to those in use, takes
-- the old one out of them, unless its size is 0, and returns the new region, which is at another
-- address then and starts with the old region's bytes, as many as both sizes hold.
pub krealloc-Moved :
    (m : Memory) (p new_size : ℕ) (b : Block)
    → IsValid m
    → p ≢ 0
    → new_size ≢ 0
    → new_size + 4 ≤ 2 ^ 32
    → find_block p (blocks m) ≡ some b
    → b.is_free ≡ false
    → Moved m p b.size new_size (krealloc m p new_size)
krealloc-Moved m p new_size b v hp hn h found used =
    let bytes = krealloc_lem m p new_size b v hp hn h found used in
    let old = size_at p (blocks m) b found in
    elim (kmalloc_lem m new_size v hn h) [
      | inl (null, same, nofit) ↦
          let e : moves m p new_size ≡ false = ground arith in
          let stays =
            krealloc_stays m p new_size hp hn e
            ∙ Outcome-null (kmalloc-Outcome m new_size v.counts.ready hn) v null in
          inl (ap (λ r. r.0) stays, ap (λ r. r.1) stays)
      | inr (given, ins, some_address, low, high) ↦ elim (ℕ_discrete b.size 0) [
        | yes empty ↦
            let e : moves m p new_size ≡ false = rw old (ground arith) in
            let stays = krealloc_stays m p new_size hp hn e in
            let whole : (b.size == 0) ≡ true = ground arith in
            inr (
              given,
              in_use (kmalloc m new_size).1,
              rw stays ins,
              rw (stays, whole) refl,
              low,
              high,
              rw stays some_address,
              (λ ne. absurd (ne empty)),
              (λ i l. absurd (omega arith)),
            )
        | no some_bytes ↦
            let e : moves m p new_size ≡ true = rw old (ground arith) in
            let part : (b.size == 0) ≡ false = ground arith in
            let same = (krealloc_moved m p new_size hp hn e).0 in
            let f = find_block-Freed p (blocks m) b found in
            let apart =
              Outcome-apart (kmalloc-Outcome m new_size v.counts.ready hn) f v used some_address in
            let larger = align_four_bounds new_size h in
            let ne : (krealloc m p new_size).0 ≢ 0 = (λ z. some_address (sym same ∙ z)) in
            let ok = kmalloc-IsValid m new_size (omega arith) v in
            inr (
              given,
              in_use (kmalloc m new_size).1,
              rw same ins,
              rw part (krealloc_moved_regions m p new_size hp hn e ok),
              low,
              high,
              ne,
              (λ z. rw same (omega (arith, apart, larger, Freed-address f))),
              Resized-bytes p bytes ne,
            )
      ]
    ]
