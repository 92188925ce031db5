-- ===== src/Memory/Blocks/Tiling.antt =====
-- The shape of the block list: headers and blocks tile the heap, and `prev` mirrors the order. What
-- `take_first_fit` and `mark_free` do, as relations, and that both keep the shape.
use os_simple.Base.{
  ℕ, ◌+◌, ◌%◌, ◌≤◌, ◌<◌, ◌≡◌, ◌≢◌, refl, subst, Bool, true, false, ◌&&◌, List, [], ◌∷◌, Option,
  none, some, ◌==◌, leb, ltb, ◌⊎◌, inl, inr, Bool-cases, add32, arith,
}
use os_simple.Memory.Blocks.{
  Block, header_size, set_prev, new_block, take_first_fit, find_block, mark_free,
}

-- From the header at `p` on, each block follows its header, and the next header follows the block;
-- the last block ends at `e`. Sizes are multiples of four.
abbrev pub Tiled : ℕ → ℕ → List Block → Type 0
Tiled p e [] = p ≡ e
Tiled p e (b ∷ bs) =
    (b.ptr ≡ p) × (b.address ≡ p + 20) × (b.size % 4 ≡ 0) × Tiled (p + 20 + b.size) e bs

-- Each block's `prev` is the header before it.
abbrev pub Linked : Option ℕ → List Block → Type 0
Linked q [] = Unit {0}
Linked q (b ∷ bs) = (b.prev ≡ q) × Linked (some b.ptr) bs

pub Tiled-le : (p e : ℕ) (bs : List Block) → Tiled p e bs → p ≤ e
Tiled-le p e [] t = omega arith
Tiled-le p e (b ∷ bs) t = omega (arith, Tiled-le (p + 20 + b.size) e bs t.3)

pub Tiled-from : {p q : ℕ} (e : ℕ) (bs : List Block) → p ≡ q → Tiled p e bs → Tiled q e bs
Tiled-from e bs h t = subst (λ x. Tiled x e bs) h t

pub set_prev-Tiled : (p e q : ℕ) (bs : List Block) → Tiled p e bs → Tiled p e (set_prev q bs)
set_prev-Tiled p e q [] t = t
set_prev-Tiled p e q (b ∷ bs) t = t

pub set_prev-Linked :
    (q : Option ℕ) (r : ℕ) (bs : List Block) → Linked q bs → Linked (some r) (set_prev r bs)
set_prev-Linked q r [] l = tt
set_prev-Linked q r (b ∷ bs) l = (refl, l.1)

abbrev pub fits : ℕ → Block → Bool
fits n b = b.is_free && leb n b.size

abbrev pub splits : ℕ → Block → Bool
splits n b = ltb (add32 n header_size) b.size

abbrev pub taken_whole : Block → Block
taken_whole b = record b { is_free = false }

abbrev pub taken_part : ℕ → Block → Block
taken_part n b = record b { size = n; is_free = false }

-- The list before, the block handed out, and the list after.
pub data FirstFit (n : ℕ) : List Block → Block → List Block → Type 0 where
  whole :
      {b : Block} {bs : List Block}
      → fits n b ≡ true
      → splits n b ≡ false
      → FirstFit n (b ∷ bs) (taken_whole b) (taken_whole b ∷ bs)
  part :
      {b : Block} {bs : List Block}
      → fits n b ≡ true
      → splits n b ≡ true
      → FirstFit n
          (b ∷ bs)
          (taken_part n b)
          (taken_part n b ∷ new_block b n ∷ set_prev (add32 b.address n) bs)
  later :
      {b t : Block} {bs bs' : List Block}
      → fits n b ≡ false
      → FirstFit n bs t bs'
      → FirstFit n (b ∷ bs) t (b ∷ bs')

-- No block fits.
abbrev pub NoFit : ℕ → List Block → Type 0
NoFit n [] = Unit {0}
NoFit n (b ∷ bs) = (fits n b ≡ false) × NoFit n bs

-- `take_first_fit` finds the first block that fits, and fails exactly when none does.
pub take_first_fit_cases :
    (n : ℕ) (bs : List Block)
    → (NoFit n bs × (take_first_fit n bs ≡ none))
      ⊎ ((t : Block) × (bs' : List Block) × FirstFit n bs t bs'
          × (take_first_fit n bs ≡ some (t, bs')))
unfolding take_first_fit
take_first_fit_cases n [] = inl (tt, refl)
take_first_fit_cases n (b ∷ bs) = elim (Bool-cases (fits n b)) [
  | inl fit ↦ elim (Bool-cases (splits n b)) [
    | inl larger ↦ inr (taken_part n b, _, part fit larger, rw (fit, larger))
    | inr same ↦ inr (taken_whole b, _, whole fit same, rw (fit, same))
  ]
  | inr miss ↦ elim (take_first_fit_cases n bs) [
    | inl (none_fits, e) ↦ inl ((miss, none_fits), rw (miss, e))
    | inr (t, bs', f, e) ↦ inr (t, b ∷ bs', later miss f, rw (miss, e))
  ]
]

pub FirstFit-Tiled :
    {n : ℕ} {bs bs' : List Block} {t : Block}
    → FirstFit n bs t bs'
    → (p e : ℕ) → n % 4 ≡ 0
    → e ≤ 0x1000000
    → Tiled p e bs
    → Tiled p e bs'
FirstFit-Tiled (whole fit same) p e h small t = t
FirstFit-Tiled {n} (part {b} {bs} fit larger) p e h small t =
    let below = Tiled-le (p + 20 + b.size) e bs t.3 in
    let room : n + 20 < b.size = ground arith in
    (
      t.0,
      t.1,
      h,
      (
        omega (arith, t.1),
        omega (arith, t.1),
        omega (arith, t.2),
        set_prev-Tiled _ e _ bs (Tiled-from e bs (omega arith) t.3),
      ),
    )
FirstFit-Tiled (later {b} miss f) p e h small t =
    (t.0, t.1, t.2, FirstFit-Tiled f (p + 20 + b.size) e h small t.3)

pub FirstFit-Linked :
    {n : ℕ} {bs bs' : List Block} {t : Block}
    → FirstFit n bs t bs'
    → (q : Option ℕ) → Linked q bs
    → Linked q bs'
FirstFit-Linked (whole fit same) q l = l
FirstFit-Linked (part {b} {bs} fit larger) q l =
    (l.0, (refl, set_prev-Linked (some b.ptr) _ bs l.1))
FirstFit-Linked (later {b} miss f) q l = (l.0, FirstFit-Linked f (some b.ptr) l.1)

-- What is handed out is marked used, lies within the heap behind its header, and has at least the
-- requested size, and a header's size more at most.
pub record IsHanded (n p e : ℕ) (t : Block) : Type 0 where
  pub large : n ≤ t.size
  pub snug : t.size ≤ n + 20
  pub used : t.is_free ≡ false
  pub above : p + 20 ≤ t.address
  pub below : t.address + t.size ≤ e

pub FirstFit-IsHanded :
    {n : ℕ} {bs bs' : List Block} {t : Block}
    → FirstFit n bs t bs'
    → (p e : ℕ) → e ≤ 0x1000000
    → Tiled p e bs
    → IsHanded n p e t
FirstFit-IsHanded (whole {b} {bs} fit same) p e small t =
    ground (arith, Tiled-le (p + 20 + b.size) e bs t.3)
FirstFit-IsHanded (part {b} {bs} fit larger) p e small t =
    ground (arith, Tiled-le (p + 20 + b.size) e bs t.3)
FirstFit-IsHanded (later {b} miss f) p e small t =
    ground (arith, FirstFit-IsHanded f (p + 20 + b.size) e small t.3)

-- The first block with the address, the list, and the list with that block marked free.
pub data Freed (p : ℕ) : List Block → Block → List Block → Type 0 where
  here :
      {b : Block} {bs : List Block}
      → b.address ≡ p
      → Freed p (b ∷ bs) b (record b { is_free = true } ∷ bs)
  there :
      {b t : Block} {bs bs' : List Block}
      → b.address ≢ p
      → Freed p bs t bs'
      → Freed p (b ∷ bs) t (b ∷ bs')

pub find_block-Freed :
    (p : ℕ) (bs : List Block) (t : Block) → find_block p bs ≡ some t → Freed p bs t (mark_free p bs)
unfolding find_block mark_free
find_block-Freed p [] t e = cc
find_block-Freed p (b ∷ bs) t e = elim (Bool-cases (b.address == p)) [
  | inl hit ↦
      let found : some b ≡ some t = rw hit at e in
      let same : b ≡ t = cc in
      rw hit (
        subst (λ x. Freed p (b ∷ bs) x (record b { is_free = true } ∷ bs)) same
          (here (ground arith)))
  | inr miss ↦ rw miss (there (ground arith) (find_block-Freed p bs t (rw miss at e)))
]

pub Freed-Tiled :
    {a : ℕ} {bs bs' : List Block} {t : Block}
    → Freed a bs t bs'
    → (p e : ℕ) → Tiled p e bs
    → Tiled p e bs'
Freed-Tiled (here h) p e t = t
Freed-Tiled (there {b} h f) p e t = (t.0, t.1, t.2, Freed-Tiled f (p + 20 + b.size) e t.3)

pub Freed-Linked :
    {a : ℕ} {bs bs' : List Block} {t : Block}
    → Freed a bs t bs'
    → (q : Option ℕ) → Linked q bs
    → Linked q bs'
Freed-Linked (here h) q l = l
Freed-Linked (there {b} h f) q l = (l.0, Freed-Linked f (some b.ptr) l.1)

pub Freed-address : {a : ℕ} {bs bs' : List Block} {t : Block} → Freed a bs t bs' → t.address ≡ a
Freed-address (here h) = h
Freed-address (there h f) = Freed-address f
