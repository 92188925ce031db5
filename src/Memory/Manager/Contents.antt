-- ===== src/Memory/Manager/Contents.antt =====
-- The bytes that `kcalloc` and `krealloc` leave.
use native.Mathlib.Decide.{ℕ_discrete}
use os_simple.Base.{
  ℕ, ◌+◌, ◌-◌, ◌*◌, ◌^◌, ◌≤◌, ◌<◌, ◌≡◌, ◌≢◌, refl, ap, sym, ◌∙◌, Bool, true, false, not, ◌&&◌, List,
  some, ◌==◌, ltb, if◌then◌else◌, ◌⊎◌, inl, inr, arith, mul32,
}
use os_simple.Memory.Align.{align_address, memory_start, memory_end}
use os_simple.Memory.Blocks.{Block, find_block, mark_free}
use os_simple.Memory.Blocks.Tiling.{
  Tiled, Tiled-le, FirstFit, whole, part, later, Freed, here, there, FirstFit-IsHanded,
  find_block-Freed, Freed-address,
}
use os_simple.Memory.Bytes.{Bytes, memset, memcpy}
use os_simple.Memory.Bytes.Ranges.{within, memset_lem, memcpy_lem}
use os_simple.Memory.Manager.{Memory, kmalloc, kfree, kcalloc, krealloc, block_size_at}
use os_simple.Memory.Manager.Invariant.{blocks, IsValid}
use os_simple.Memory.Manager.Requests.{Outcome, refused, granted, kmalloc-Outcome}
use os_simple.Memory.Manager.Allocation.{align_four_bounds}

-- A request that is granted lies within the heap and leaves the bytes alone.
pub record InRange (m : Memory) (size : ℕ) (r : ℕ × Memory) : Type 0 where
  pub below : r.0 + size ≤ memory_end
  pub kept : r.1.bytes ≡ m.bytes

Outcome-InRange :
    {m : Memory} (size : ℕ) {r : ℕ × Memory}
    → Outcome m (align_address size 4) r
    → size + 4 ≤ 2 ^ 32
    → IsValid m
    → r.0 ≢ 0
    → InRange m size r
Outcome-InRange size (refused f) h v ne = absurd (ne refl)
Outcome-InRange size (granted d) h v ne =
    let is = FirstFit-IsHanded d memory_start memory_end (omega arith) v.heap.tiled in
    record { below = omega (arith, is.below, is.large, align_four_bounds size h); kept = refl }

pub kmalloc-InRange :
    (m : Memory) (size : ℕ)
    → IsValid m
    → size ≢ 0
    → size + 4 ≤ 2 ^ 32
    → (kmalloc m size).0 ≢ 0
    → InRange m size (kmalloc m size)
kmalloc-InRange m size v ne h = Outcome-InRange size (kmalloc-Outcome m size v.counts.ready ne) h v

pub kcalloc-kmalloc :
    (m : Memory) (count size : ℕ)
    → let r = kmalloc m (mul32 count size) in
      ((kcalloc m count size).0 ≡ r.0)
      × (r.0 ≢ 0 → (kcalloc m count size).1.bytes ≡ memset r.0 0 (mul32 count size) r.1.bytes)
unfolding kcalloc
kcalloc-kmalloc m count size = ground arith

-- In a valid manager, if `count * size` is 1 to 2^32 - 4 and `kcalloc` does not return null, every
-- byte of the `count * size` bytes at the result is 0, and every other byte is as it was.
pub kcalloc_lem :
    (m : Memory) (count size a : ℕ)
    → IsValid m
    → count * size ≢ 0
    → count * size + 4 ≤ 2 ^ 32
    → (kcalloc m count size).0 ≢ 0
    → (kcalloc m count size).1.bytes a
      ≡ (if within (kcalloc m count size).0 (count * size) a then 0 else m.bytes a)
kcalloc_lem m count size a v ne h given =
    let total : mul32 count size ≡ count * size = omega arith in
    let (same, zeroed) = rw total at (kcalloc-kmalloc m count size) in
    let asked = λ (e : (kmalloc m (count * size)).0 ≡ 0). given (same ∙ e) in
    let range = kmalloc-InRange m (count * size) v ne h asked in
    rw (zeroed asked, same, range.kept)
      (memset_lem _ 0 (count * size) m.bytes a (omega (arith, range.below)))

Freed-above :
    {a : ℕ} {bs bs' : List Block} {b : Block}
    → Freed a bs b bs'
    → (p e : ℕ) → Tiled p e bs
    → (p + 20 ≤ b.address) × (b.address + b.size ≤ e)
Freed-above (here {b} {bs} h) p e t = omega (arith, t.1, Tiled-le (p + 20 + b.size) e bs t.3)
Freed-above (there {b} h f) p e t = omega (arith, Freed-above f (p + 20 + b.size) e t.3)

-- A block handed out and a block in use do not overlap.
handed_apart :
    {n a : ℕ} {bs bs' bs'' : List Block} {t b : Block}
    → FirstFit n bs t bs'
    → Freed a bs b bs''
    → (p e : ℕ) → e ≤ 0x1000000
    → Tiled p e bs
    → b.is_free ≡ false
    → (t.address + t.size ≤ b.address) ⊎ (b.address + b.size ≤ t.address)
handed_apart (whole fit same) (here h) p e small l used = ground arith
handed_apart (whole {b} fit same) (there h f) p e small l used =
    omega (arith, l.1, Freed-above f (p + 20 + b.size) e l.3)
handed_apart (part fit larger) (here h) p e small l used = ground arith
handed_apart (part {b} fit larger) (there h f) p e small l used =
    ground (arith, l.1, Freed-above f (p + 20 + b.size) e l.3)
handed_apart (later {b} miss d) (here h) p e small l used =
    ground (arith, l.1, FirstFit-IsHanded d (p + 20 + b.size) e small l.3)
handed_apart (later {b} miss d) (there h f) p e small l used =
    handed_apart d f (p + 20 + b.size) e small l.3 used

pub Outcome-apart :
    {m : Memory} {n a : ℕ} {b : Block} {r : ℕ × Memory}
    → Outcome m n r
    → Freed a (blocks m) b (mark_free a (blocks m))
    → IsValid m
    → b.is_free ≡ false
    → r.0 ≢ 0
    → (r.0 + n ≤ b.address) ⊎ (b.address + b.size ≤ r.0)
Outcome-apart (refused h) f v used ne = absurd (ne refl)
Outcome-apart (granted d) f v used ne =
    let is = FirstFit-IsHanded d memory_start memory_end (omega arith) v.heap.tiled in
    let apart = handed_apart d f memory_start memory_end (omega arith) v.heap.tiled used in
    omega (arith, apart, is.large)

pub bytes-kfree : (m : Memory) (p : ℕ) → (kfree m p).bytes ≡ m.bytes
unfolding kfree
bytes-kfree m p = ground arith

abbrev pub copied : ℕ → ℕ → ℕ
copied old new = if ltb old new then old else new

-- How a resize ends: null and nothing changed; or a block whose first bytes are those of the old.
abbrev pub Resized : Memory → ℕ → ℕ → ℕ → ℕ × Memory → Type 0
Resized m p old_size new_size r =
    ((r.0 ≡ 0) × (r.1 ≡ m))
    ⊎ ((r.0 ≢ 0) × ((i : ℕ) → i < old_size → i < new_size → r.1.bytes (r.0 + i) ≡ m.bytes (p + i)))

pub size_at :
    (p : ℕ) (bs : List Block) (b : Block) → find_block p bs ≡ some b → block_size_at p bs ≡ b.size
unfolding block_size_at
size_at p bs b found = rw (found, block_size_at)

-- The test of `krealloc` that a block was given and an old one found.
abbrev pub moves : Memory → ℕ → ℕ → Bool
moves m p new_size =
    not ((kmalloc m new_size).0 == 0) && ltb 0 (block_size_at p m.manager.free_list)

pub krealloc_stays :
    (m : Memory) (p new_size : ℕ)
    → p ≢ 0
    → new_size ≢ 0
    → moves m p new_size ≡ false
    → krealloc m p new_size ≡ kmalloc m new_size
unfolding krealloc
krealloc_stays m p new_size hp hn e =
    let old : (p == 0) ≡ false = ground arith in
    let kept : (new_size == 0) ≡ false = ground arith in rw (old, kept, e)

pub krealloc_moved :
    (m : Memory) (p new_size : ℕ)
    → p ≢ 0
    → new_size ≢ 0
    → moves m p new_size ≡ true
    → ((krealloc m p new_size).0 ≡ (kmalloc m new_size).0)
      × ((krealloc m p new_size).1.bytes
          ≡ memcpy
              (kmalloc m new_size).0
              p
              (copied (block_size_at p m.manager.free_list) new_size)
              (kmalloc m new_size).1.bytes)
unfolding krealloc
krealloc_moved m p new_size hp hn e =
    let old : (p == 0) ≡ false = ground arith in
    let kept : (new_size == 0) ≡ false = ground arith in rw (old, kept, e) (refl, bytes-kfree _ p)

pub Outcome-null :
    {m : Memory} {n : ℕ} {r : ℕ × Memory} → Outcome m n r → IsValid m → r.0 ≡ 0 → r ≡ (0, m)
Outcome-null (refused h) v e = refl
Outcome-null (granted d) v e =
    absurd (
      omega (arith, (FirstFit-IsHanded d memory_start memory_end (omega arith) v.heap.tiled).above))

-- The bytes that `memcpy` puts at the new block.
copied_bytes :
    (q p old new i : ℕ) (bytes : Bytes)
    → q + new ≤ memory_end
    → p + old ≤ memory_end
    → (q + new ≤ p) ⊎ (p + old ≤ q)
    → i < old
    → i < new
    → memcpy q p (copied old new) bytes (q + i) ≡ bytes (p + i)
copied_bytes q p old new i bytes hq hp apart lo ln =
    let offset : p + (q + i - q) ≡ p + i = omega arith in
    memcpy_lem q p (copied old new) bytes (q + i) (ground arith) (ground arith) (ground arith)
    ∙ rw offset (ground arith)

krealloc_given :
    (m : Memory) (p new_size : ℕ) (b : Block)
    → IsValid m
    → p ≢ 0
    → new_size ≢ 0
    → new_size + 4 ≤ 2 ^ 32
    → find_block p (blocks m) ≡ some b
    → b.is_free ≡ false
    → (kmalloc m new_size).0 ≢ 0
    → 0 < b.size
    → Resized m p b.size new_size (krealloc m p new_size)
krealloc_given m p new_size b v hp hn h found used given pos =
    let old = size_at p (blocks m) b found in
    let f = find_block-Freed p (blocks m) b found in
    let placed = Freed-above f memory_start memory_end v.heap.tiled in
    let range = kmalloc-InRange m new_size v hn h given in
    let apart = Outcome-apart (kmalloc-Outcome m new_size v.counts.ready hn) f v used given in
    let larger = align_four_bounds new_size h in
    let e : moves m p new_size ≡ true = rw old (ground arith) in
    let (same, filled) = krealloc_moved m p new_size hp hn e in
    inr (
      (λ z. given (sym same ∙ z)),
      λ i lo ln.
          rw (filled, same, old, range.kept)
            (copied_bytes (kmalloc m new_size).0 p b.size new_size i m.bytes range.below
              (omega (arith, placed, Freed-address f))
              (omega (arith, apart, larger, Freed-address f)) lo ln),
    )

-- In a valid manager, resizing a block in use to 1 to 2^32 - 4 bytes either returns null and changes
-- nothing, or returns a block that starts with the old block's bytes, as many as both sizes hold.
pub krealloc_lem :
    (m : Memory) (p new_size : ℕ) (b : Block)
    → IsValid m
    → p ≢ 0
    → new_size ≢ 0
    → new_size + 4 ≤ 2 ^ 32
    → find_block p (blocks m) ≡ some b
    → b.is_free ≡ false
    → Resized m p b.size new_size (krealloc m p new_size)
krealloc_lem m p new_size b v hp hn h found used = elim (ℕ_discrete (kmalloc m new_size).0 0) [
  | yes null ↦
      let e : moves m p new_size ≡ false = ground arith in
      let same =
        krealloc_stays m p new_size hp hn e
        ∙ Outcome-null (kmalloc-Outcome m new_size v.counts.ready hn) v null in
      inl (ap (λ r. r.0) same, ap (λ r. r.1) same)
  | no given ↦ elim (ℕ_discrete b.size 0) [
    | yes empty ↦
        let e : moves m p new_size ≡ false = rw (size_at p (blocks m) b found) (ground arith) in
        inr (
          (λ z. given (sym (ap (λ r. r.0) (krealloc_stays m p new_size hp hn e)) ∙ z)),
          λ i lo ln. absurd (omega arith),
        )
    | no some_bytes ↦ krealloc_given m p new_size b v hp hn h found used given (omega arith)
  ]
]
