-- ===== src/Memory/Manager/Confined.antt =====
-- kernel/memory.c: which bytes the calls of the memory manager write.
use native.Mathlib.Decide.{ℕ_discrete}
use os_simple.Base.{
  ℕ, zero, suc, ◌+◌, ◌%◌, ◌^◌, ◌≤◌, ◌<◌, ◌≡◌, ◌≢◌, refl, ap, ◌∙◌, true, false, List, [], ◌∷◌, ◌==◌,
  ◌⊎◌, inl, inr, Bool-cases, update, add32, mul32, arith,
}
use os_simple.Memory.Blocks.Regions.{Inserted}
use os_simple.Memory.Bytes.{Bytes, memcpy, memcpy_loop}
use os_simple.Memory.Bytes.Ranges.{memset_lem}
use os_simple.Memory.Manager.{Memory, kmalloc, kcalloc, krealloc, block_size_at}
use os_simple.Memory.Manager.Invariant.{IsValid}
use os_simple.Memory.Manager.Requests.{
  Request, malloc, free, calloc, realloc, Fits, AllFit, perform, perform_all, perform-IsValid,
  perform_all_keeps, kmalloc_nothing, Outcome, refused, granted, kmalloc-Outcome, kmalloc-IsValid,
}
use os_simple.Memory.Manager.Allocation.{in_use, kmalloc_lem}
use os_simple.Memory.Manager.Contents.{
  copied, moves, kmalloc-InRange, kcalloc-kmalloc, bytes-kfree, krealloc_stays, krealloc_moved,
}
use os_simple.Memory.Manager.History.{reply}

-- The address lies outside the `n` bytes from `p` on.
abbrev pub Outside : ℕ → ℕ → ℕ → Type 0
Outside p n a = (a < p) ⊎ (p + n ≤ a)

memcpy_loop-Outside :
    (left i d s : ℕ) (bytes : Bytes) (a : ℕ)
    → d + i + left ≤ 2 ^ 32
    → Outside (d + i) left a
    → memcpy_loop left i d s bytes a ≡ bytes a
unfolding memcpy_loop
memcpy_loop-Outside zero i d s bytes a h o = refl
memcpy_loop-Outside (suc left) i d s bytes a h o =
    memcpy_loop-Outside left (i + 1) d s (update bytes (add32 d i) (bytes (add32 s i))) a
      (omega arith) (omega (arith, o))
    ∙ ground arith

memcpy-Outside :
    (d s size : ℕ) (bytes : Bytes) (a : ℕ)
    → d + size ≤ 2 ^ 32
    → Outside d size a
    → memcpy d s size bytes a ≡ bytes a
unfolding memcpy
memcpy-Outside d s size bytes a h o =
    memcpy_loop-Outside size 0 d s bytes a (omega arith) (omega (arith, o))

-- A call that gives `q` writes no byte; or it writes only within the region at `q` of a valid manager
-- `mid`, whose regions in use are those of `m` and this one. So it writes to no header, neither of
-- a block in use nor of a free one, and to no other region in use.
abbrev pub Writes : Memory → ℕ → (ℕ → ℕ) → Type 0
Writes m q bytes =
    (bytes ≡ m.bytes)
    ⊎ ((given : ℕ) × (mid : Memory) × IsValid mid
        × Inserted (q, given) (in_use m) (in_use mid)
        × ((a : ℕ) → Outside q given a → bytes a ≡ m.bytes a))

kmalloc_bytes : (m : Memory) (size : ℕ) → IsValid m → Fits size → (kmalloc m size).1.bytes ≡ m.bytes
kmalloc_bytes m size v fit = elim (ℕ_discrete size 0) [
  | yes e ↦ rw (e, kmalloc_nothing m) refl
  | no ne ↦ elim (ℕ_discrete (kmalloc m size).0 0) [
    | yes null ↦ elim (kmalloc_lem m size v ne fit) [
      | inl (z, same, nofit) ↦ ap (λ n. n.bytes) same
      | inr (given, ins, some_address, low, high) ↦ absurd (some_address null)
    ]
    | no given ↦ (kmalloc-InRange m size v ne fit given).kept
  ]
]

-- A block that is given, and `n` bytes written at its start.
given_Writes :
    (m : Memory) (size n : ℕ) (bytes : ℕ → ℕ)
    → IsValid m
    → Fits size
    → size ≢ 0
    → (kmalloc m size).0 ≢ 0
    → n ≤ size
    → ((a : ℕ) → Outside (kmalloc m size).0 n a → bytes a ≡ (kmalloc m size).1.bytes a)
    → Writes m (kmalloc m size).0 bytes
given_Writes m size n bytes v fit ne some_address l w = elim (kmalloc_lem m size v ne fit) [
  | inl (null, same, nofit) ↦ absurd (some_address null)
  | inr (given, ins, other, low, high) ↦ inr (
    given,
    (kmalloc m size).1,
    kmalloc-IsValid m size (omega arith) v,
    ins,
    λ a o. w a (omega (arith, o)) ∙ ap (λ f. f a) (kmalloc_bytes m size v fit),
  )
]

kcalloc_null :
    (m : Memory) (count size : ℕ)
    → (kmalloc m (mul32 count size)).0 ≡ 0
    → (kcalloc m count size).1.bytes ≡ (kmalloc m (mul32 count size)).1.bytes
unfolding kcalloc
kcalloc_null m count size e = rw e refl

kcalloc-Writes :
    (m : Memory) (count size : ℕ)
    → IsValid m
    → Fits (mul32 count size)
    → Writes m (kcalloc m count size).0 (kcalloc m count size).1.bytes
kcalloc-Writes m count size v fit =
    let total : ℕ = mul32 count size in
    let (same, zeroed) = kcalloc-kmalloc m count size in
    elim (ℕ_discrete (kmalloc m (mul32 count size)).0 0) [
      | yes null ↦ inl (kcalloc_null m count size null ∙ kmalloc_bytes m (mul32 count size) v fit)
      | no given ↦ elim (ℕ_discrete (mul32 count size) 0) [
        | yes nothing ↦
            absurd (given (ap (λ n. (kmalloc m n).0) nothing ∙ ap (λ r. r.0) (kmalloc_nothing m)))
        | no some_size ↦
            let range = kmalloc-InRange m (mul32 count size) v some_size fit given in
            rw (same, zeroed given)
              (given_Writes m (mul32 count size) (mul32 count size) _ v fit some_size given
                (omega arith)
                (λ a o.
                  memset_lem _ 0 (mul32 count size) _ a (omega (arith, range.below))
                  ∙ ground (arith, o)))
      ]
    ]

krealloc_fresh : (m : Memory) (size : ℕ) → (krealloc m 0 size) ≡ kmalloc m size
unfolding krealloc
krealloc_fresh m size = refl

krealloc_dropped : (m : Memory) (p : ℕ) → p ≢ 0 → (krealloc m p 0).1.bytes ≡ m.bytes
unfolding krealloc
krealloc_dropped m p ne = let old : (p == 0) ≡ false = ground arith in rw old (bytes-kfree m p)

-- The test that a block moves includes that one was given.
moves_given : (m : Memory) (p size : ℕ) → moves m p size ≡ true → (kmalloc m size).0 ≢ 0
moves_given m p size e = ground (arith, e)

krealloc-Writes :
    (m : Memory) (p size : ℕ)
    → IsValid m
    → Fits size
    → Writes m (krealloc m p size).0 (krealloc m p size).1.bytes
krealloc-Writes m p size v fit = elim (ℕ_discrete p 0) [
  | yes null ↦
      inl (rw null (ap (λ r. r.1.bytes) (krealloc_fresh m size) ∙ kmalloc_bytes m size v fit))
  | no old ↦ elim (ℕ_discrete size 0) [
    | yes nothing ↦ inl (rw nothing (krealloc_dropped m p old))
    | no some_size ↦ elim (Bool-cases (moves m p size)) [
      | inr stays ↦ inl (
          ap (λ r. r.1.bytes) (krealloc_stays m p size old some_size stays)
          ∙ kmalloc_bytes m size v fit)
      | inl goes ↦
          let given = moves_given m p size goes in
          let range = kmalloc-InRange m size v some_size fit given in
          let (same, filled) = krealloc_moved m p size old some_size goes in
          let old_size : ℕ = block_size_at p m.manager.free_list in
          let less : copied old_size size ≤ size = ground arith in
          rw (same, filled)
            (given_Writes m size (copied old_size size) _ v fit some_size given less (λ a o.
              memcpy-Outside (kmalloc m size).0 p (copied old_size size) _ a
                (omega (arith, range.below, less)) o))
    ]
  ]
]

Outcome_bytes : {m : Memory} {n : ℕ} {r : ℕ × Memory} → Outcome m n r → r.1.bytes ≡ m.bytes
Outcome_bytes (refused none_fits) = refl
Outcome_bytes (granted d) = refl

perform-Writes :
    (m : Memory) (r : Request) (rs : List Request)
    → IsValid m
    → AllFit (r ∷ rs)
    → Writes m (reply m r) (perform m r).bytes
unfolding perform
perform-Writes m (malloc size) rs v fit = inl (any_size (ℕ_discrete (size % 2 ^ 32) 0))
  where
    any_size : Dec (size % 2 ^ 32 ≡ 0) → (kmalloc m (size % 2 ^ 32)).1.bytes ≡ m.bytes
    any_size (yes e) = rw (e, kmalloc_nothing m) refl
    any_size (no ne) = Outcome_bytes (kmalloc-Outcome m (size % 2 ^ 32) v.counts.ready ne)
perform-Writes m (free p) rs v fit = inl (bytes-kfree m p)
perform-Writes m (calloc count size) rs v fit = kcalloc-Writes m count size v fit.0
perform-Writes m (realloc p size) rs v fit = krealloc-Writes m p (size % 2 ^ 32) v fit.0

-- Every call of the sequence writes as said, from the state that it meets.
abbrev pub AllWrite : Memory → List Request → Type 0
AllWrite m [] = Unit {0}
AllWrite m (r ∷ rs) = Writes m (reply m r) (perform m r).bytes × AllWrite (perform m r) rs

AllFit-tail : (r : Request) (rs : List Request) → AllFit (r ∷ rs) → AllFit rs
AllFit-tail (malloc size) rs fit = fit
AllFit-tail (free p) rs fit = fit
AllFit-tail (calloc count size) rs fit = fit.1
AllFit-tail (realloc p size) rs fit = fit.1

all-AllWrite : (m : Memory) (rs : List Request) → IsValid m → AllFit rs → AllWrite m rs
all-AllWrite m [] v fit = tt
all-AllWrite m (r ∷ rs) v fit = (
  perform-Writes m r rs v fit,
  all-AllWrite (perform m r) rs (perform-IsValid m r v) (AllFit-tail r rs fit),
)

-- From a valid manager, any sequence of `kmalloc`, `kfree`, `kcalloc` and `krealloc` calls, with any
-- pointers, in which no `kcalloc` or `krealloc` asks for 2^32 - 3 bytes or more, leaves a valid
-- manager; and each of the calls writes bytes only within the region that it gets, which lies in a
-- valid heap beside the regions in use before the call. (For a larger size the region is too small,
-- and the code writes past its end, over the next header.)
pub perform_all-IsValid :
    (m : Memory) (rs : List Request)
    → IsValid m
    → AllFit rs
    → IsValid (perform_all m rs) × AllWrite m rs
perform_all-IsValid m rs v fit = (perform_all_keeps m rs v, all-AllWrite m rs v fit)
