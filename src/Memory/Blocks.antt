-- ===== src/Memory/Blocks.antt =====
-- kernel/memory.c: the list of blocks that `kmalloc` and `kfree` keep (`memory_block_t`). A block's
-- header lies at `ptr`; the order of the list is the chain of `next` pointers, and `prev` is the
-- header that the code stores as the previous one. On the 32-bit target a header has 20 bytes.
pub mod Tiling
pub mod Regions
pub mod Merging
pub mod Restore
pub mod Canonical
use os_simple.Base.{
  ℕ, ◌≡◌, Bool, true, false, ◌&&◌, List, [], ◌∷◌, Option, none, some, ◌==◌, leb, ltb, if◌then◌else◌,
  add32, sub32,
}

abbrev pub header_size : ℕ
header_size = 20

pub record Block : Type 0 where
  pub ptr : ℕ
  pub address : ℕ
  pub size : ℕ
  pub is_free : Bool
  pub prev : Option ℕ

-- `if (block) block->prev = p` for the first block of what follows.
abbrev pub set_prev : ℕ → List Block → List Block
set_prev p [] = []
set_prev p (b ∷ bs) = record b { prev = some p } ∷ bs

-- The free block split off behind the first `n` bytes of `b`.
abbrev pub new_block : Block → ℕ → Block
new_block b n = record {
  ptr = add32 b.address n;
  address = add32 (add32 b.address n) header_size;
  size = sub32 (sub32 b.size n) header_size;
  is_free = true;
  prev = some b.ptr;
}

-- The loop of `kmalloc`: the first block that is free and large enough is split if it is larger
-- than needed, and taken. The result is that block as it is then, and the list.
unfoldable pub take_first_fit : ℕ → List Block → Option (Block × List Block)
take_first_fit n [] = none
take_first_fit n (b ∷ bs) =
    let later = take_first_fit n bs in
    if b.is_free && leb n b.size
    then (if ltb (add32 n header_size) b.size
        then (let new = new_block b n in
            let taken = record b { size = n; is_free = false } in
            some (taken, taken ∷ new ∷ set_prev new.ptr bs))
        else (let taken = record b { is_free = false } in some (taken, taken ∷ bs)))
    else elim later [ none ↦ none | some (taken, bs') ↦ some (taken, b ∷ bs') ]

-- The first block with this address.
unfoldable pub find_block : ℕ → List Block → Option Block
find_block p [] = none
find_block p (b ∷ bs) = if b.address == p then some b else find_block p bs

-- The first block with this address, marked free.
unfoldable pub mark_free : ℕ → List Block → List Block
mark_free p [] = []
mark_free p (b ∷ bs) =
    if b.address == p then record b { is_free = true } ∷ bs else b ∷ mark_free p bs

abbrev pub adjacent : Block → Block → Bool
adjacent b c = add32 b.address b.size == sub32 c.address header_size

abbrev pub merge : Block → Block → Block
merge b c = record b { size = add32 b.size (add32 c.size header_size) }

-- The loop of `compact_free_blocks` at `current`, before the blocks that follow. After a merge the
-- code has stored `current` as the previous block of the next one: `relink` says so.
unfoldable pub compact_from : Block → Bool → List Block → List Block
compact_from current relink [] = current ∷ []
compact_from current relink (c ∷ bs) =
    let next = record c { prev = if relink then some current.ptr else c.prev } in
    let merged = compact_from (merge current next) true bs in
    let moved = current ∷ compact_from next false bs in
    if current.is_free && next.is_free
    then (if adjacent current next then merged else moved)
    else moved

unfoldable pub compact_free_blocks : List Block → List Block
unfolding compact_from
compact_free_blocks [] = []
compact_free_blocks (b ∷ bs) = compact_from b false bs
