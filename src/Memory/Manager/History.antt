-- ===== src/Memory/Manager/History.antt =====
-- The pointers that the manager gives, against those by the block list alone.
use mathlib.Core.Path.{ap₂}
use os_simple.Base.{
  ℕ, ◌%◌, ◌^◌, ◌<◌, ◌≡◌, refl, ap, sym, ◌∙◌, true, not, ◌&&◌, List, [], ◌∷◌, none, some, ◌==◌, ltb,
  if◌then◌else◌, inl, inr, Bool-cases, Option-cases, mul32, arith,
}
use os_simple.Memory.Align.{align_address}
use os_simple.Memory.Blocks.{Block, take_first_fit, find_block, mark_free, compact_free_blocks}
use os_simple.Memory.Manager.{Memory, kmalloc, kfree, kcalloc, krealloc, block_size_at}
use os_simple.Memory.Manager.Invariant.{IsValid, blocks}
use os_simple.Memory.Manager.Allocation.{in_use}
use os_simple.Memory.Manager.Order.{in_use_unique}
use os_simple.Memory.Manager.Requests.{
  Request, malloc, free, calloc, realloc, perform, perform-IsValid, kmalloc-IsValid,
}

-- The pointer that a request gets, 0 for `kfree`.
abbrev pub reply : Memory → Request → ℕ
reply m (malloc size) = (kmalloc m (size % 2 ^ 32)).0
reply m (free p) = 0
reply m (calloc count size) = (kcalloc m count size).0
reply m (realloc p size) = (krealloc m p (size % 2 ^ 32)).0

pub replies : Memory → List Request → List ℕ
replies m [] = []
replies m (r ∷ rs) = reply m r ∷ replies (perform m r) rs

-- The same on the block list alone.
asked : List Block → ℕ → ℕ × List Block
asked bs size = if size == 0 then (0, bs) else elim (take_first_fit (align_address size 4) bs) [
  | none ↦ (0, bs)
  | some (taken, bs') ↦ (taken.address, bs')
]

released : List Block → ℕ → List Block
released bs p = if p == 0 then bs else elim (find_block p bs) [
  | none ↦ bs
  | some b ↦ if b.is_free then bs else compact_free_blocks (mark_free p bs)
]

abbrev moved_after : ℕ → ℕ → ℕ × List Block → ℕ × List Block
moved_after old_size p (q, bs) =
    if not (q == 0) && ltb 0 old_size then (q, released bs p) else (q, bs)

moved : List Block → ℕ → ℕ → ℕ × List Block
moved bs p size =
    if p == 0
    then asked bs size
    else if size == 0
    then (0, released bs p)
    else moved_after (block_size_at p bs) p (asked bs size)

abbrev seen : ℕ × Memory → ℕ × List Block
seen (p, m) = (p, blocks m)

kmalloc-asked :
    (m : Memory) (size : ℕ) → m.initialized ≡ true → seen (kmalloc m size) ≡ asked (blocks m) size
unfolding kmalloc asked
kmalloc-asked m size e = elim (Bool-cases (size == 0)) [
  | inl nothing ↦ rw (e, nothing) refl
  | inr some_size ↦ elim (Option-cases (take_first_fit (align_address size 4) (blocks m))) [
    | inl missing ↦ rw (e, some_size, missing) refl
    | inr (t, found) ↦ rw (e, some_size, found) refl
  ]
]

kfree-released :
    (m : Memory) (p : ℕ) → m.initialized ≡ true → blocks (kfree m p) ≡ released (blocks m) p
unfolding kfree released
kfree-released m p e = elim (Bool-cases (p == 0)) [
  | inl null ↦ rw (e, null) refl
  | inr some_address ↦ elim (Option-cases (find_block p (blocks m))) [
    | inl missing ↦ rw (e, some_address, missing) refl
    | inr (b, found) ↦ elim (Bool-cases b.is_free) [
      | inl unused ↦ rw (e, some_address, found, unused) refl
      | inr used ↦ rw (e, some_address, found, used) refl
    ]
  ]
]

kcalloc-asked :
    (m : Memory) (count size : ℕ)
    → m.initialized ≡ true
    → seen (kcalloc m count size) ≡ asked (blocks m) (mul32 count size)
unfolding kcalloc
kcalloc-asked m count size e =
    let given = kmalloc-asked m (mul32 count size) e in
    elim (Bool-cases ((kmalloc m (mul32 count size)).0 == 0)) [
      | inl null ↦ rw null given
      | inr some_address ↦ rw some_address given
    ]

-- The end of `krealloc`, after its `kmalloc` has given `q` and `m`.
realloc_end :
    (m : Memory) (q old_size p : ℕ) (bytes : ℕ → ℕ)
    → m.initialized ≡ true
    → seen (
        if not (q == 0) && ltb 0 old_size
        then (q, kfree (record m { bytes = bytes }) p)
        else (q, m))
      ≡ moved_after old_size p (q, blocks m)
realloc_end m q old_size p bytes e = elim (Bool-cases (not (q == 0) && ltb 0 old_size)) [
  | inl copies ↦ rw copies (ap (λ bs. (q, bs)) (kfree-released (record m { bytes = bytes }) p e))
  | inr stays ↦ rw stays refl
]

krealloc-moved :
    (m : Memory) (p size : ℕ)
    → size < 2 ^ 32
    → IsValid m
    → seen (krealloc m p size) ≡ moved (blocks m) p size
unfolding krealloc moved
krealloc-moved m p size small v =
    let given = kmalloc-asked m size v.counts.ready in
    let ready = (kmalloc-IsValid m size small v).counts.ready in
    elim (Bool-cases (p == 0)) [
      | inl null ↦ rw null given
      | inr old ↦ elim (Bool-cases (size == 0)) [
        | inl nothing ↦ rw (old, nothing) (ap (λ bs. (0, bs)) (kfree-released m p v.counts.ready))
        | inr some_size ↦
            rw (old, some_size)
              (realloc_end (kmalloc m size).1 (kmalloc m size).0 (block_size_at p (blocks m)) p _
                  ready
                ∙ ap (moved_after (block_size_at p (blocks m)) p) given)
      ]
    ]

-- A request on the block list.
served : List Block → Request → ℕ × List Block
served bs (malloc size) = asked bs (size % 2 ^ 32)
served bs (free p) = (0, released bs p)
served bs (calloc count size) = asked bs (mul32 count size)
served bs (realloc p size) = moved bs p (size % 2 ^ 32)

reply-served :
    (m : Memory) (r : Request) → IsValid m → (reply m r, blocks (perform m r)) ≡ served (blocks m) r
unfolding perform served
reply-served m (malloc size) v = kmalloc-asked m (size % 2 ^ 32) v.counts.ready
reply-served m (free p) v = ap (λ bs. (0, bs)) (kfree-released m p v.counts.ready)
reply-served m (calloc count size) v = kcalloc-asked m count size v.counts.ready
reply-served m (realloc p size) v = krealloc-moved m p (size % 2 ^ 32) (omega arith) v

replies_same :
    (m n : Memory) (rs : List Request)
    → IsValid m
    → IsValid n
    → blocks m ≡ blocks n
    → replies m rs ≡ replies n rs
unfolding replies
replies_same m n [] v w e = refl
replies_same m n (r ∷ rs) v w e =
    let same : (reply m r, blocks (perform m r)) ≡ (reply n r, blocks (perform n r)) =
      reply-served m r v ∙ ap (λ bs. served bs r) e ∙ sym (reply-served n r w) in
    ap₂ ◌∷◌ (ap (λ x. x.0) same) (
      replies_same (perform m r) (perform n r) rs (perform-IsValid m r v) (perform-IsValid n r w)
        (ap (λ x. x.1) same))

pub pointers_same :
    (m n : Memory) (rs : List Request)
    → IsValid m
    → IsValid n
    → in_use m ≡ in_use n
    → replies m rs ≡ replies n rs
pointers_same m n rs v w e = replies_same m n rs v w (sym (in_use_unique m n v w e).0)
