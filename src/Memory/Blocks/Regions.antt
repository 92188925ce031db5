-- ===== src/Memory/Blocks/Regions.antt =====
-- What a client sees of the block list: the regions in use, and their total.
use os_simple.Base.{
  ◌⊎◌, inl, inr, none, some, ◌==◌, Bool-cases, ℕ, ◌+◌, ◌%◌, ◌≤◌, ◌<◌, ◌≡◌, ◌≢◌, refl, Bool, true,
  false, List, [], ◌∷◌, if◌then◌else◌, arith,
}
use os_simple.Memory.Blocks.{Block, set_prev, find_block}
use os_simple.Memory.Blocks.Tiling.{Tiled, FirstFit, whole, part, later, Freed, here, there, fits}

-- Address and size of each block in use, in the order of addresses.
abbrev pub regions : List Block → List (ℕ × ℕ)
regions [] = []
regions (b ∷ bs) = if b.is_free then regions bs else (b.address, b.size) ∷ regions bs

abbrev pub used_total : List Block → ℕ
used_total [] = 0
used_total (b ∷ bs) = (if b.is_free then 0 else b.size) + used_total bs

-- `ys` is `xs` with `x` put in somewhere.
pub data Inserted {A : Type 0} (x : A) : List A → List A → Type 0 where
  first : {xs : List A} → Inserted x xs (x ∷ xs)
  next : {y : A} {xs ys : List A} → Inserted x xs ys → Inserted x (y ∷ xs) (y ∷ ys)

set_prev-regions : (q : ℕ) (bs : List Block) → regions (set_prev q bs) ≡ regions bs
set_prev-regions q [] = refl
set_prev-regions q (b ∷ bs) = refl

set_prev-used_total : (q : ℕ) (bs : List Block) → used_total (set_prev q bs) ≡ used_total bs
set_prev-used_total q [] = refl
set_prev-used_total q (b ∷ bs) = refl

Inserted-skip :
    {x : ℕ × ℕ} (b : Block) (xs ys : List Block)
    → Inserted x (regions xs) (regions ys)
    → Inserted x (regions (b ∷ xs)) (regions (b ∷ ys))
Inserted-skip {x} b xs ys h = go b.is_free
  where
    go :
        (f : Bool)
        → Inserted x
            (if f then regions xs else (b.address, b.size) ∷ regions xs)
            (if f then regions ys else (b.address, b.size) ∷ regions ys)
    go true = h
    go false = next h

fits-is_free : (n : ℕ) (b : Block) → fits n b ≡ true → b.is_free ≡ true
fits-is_free n b h = ground arith

-- Handing out a block adds its region to those in use, and changes no other.
pub FirstFit-regions :
    {n : ℕ} {bs bs' : List Block} {t : Block}
    → FirstFit n bs t bs'
    → Inserted (t.address, t.size) (regions bs) (regions bs')
FirstFit-regions {n} (whole {b} {bs} fit same) = rw (fits-is_free n b fit) first
FirstFit-regions {n} (part {b} {bs} fit larger) =
    rw (fits-is_free n b fit, set_prev-regions _ bs) first
FirstFit-regions (later {b} {bs} {bs'} miss f) = Inserted-skip b bs bs' (FirstFit-regions f)

pub FirstFit-used_total :
    {n : ℕ} {bs bs' : List Block} {t : Block}
    → FirstFit n bs t bs'
    → used_total bs' ≡ used_total bs + t.size
FirstFit-used_total {n} (whole {b} {bs} fit same) = rw (fits-is_free n b fit) (omega arith)
FirstFit-used_total {n} (part {b} {bs} fit larger) =
    rw (fits-is_free n b fit) (omega (arith, set_prev-used_total _ bs))
FirstFit-used_total (later {b} miss f) = omega (arith, FirstFit-used_total f)

-- Freeing a block in use takes its region away, and changes no other.
pub Freed-regions :
    {a : ℕ} {bs bs' : List Block} {t : Block}
    → Freed a bs t bs'
    → t.is_free ≡ false
    → Inserted (t.address, t.size) (regions bs') (regions bs)
Freed-regions (here h) u = rw u first
Freed-regions (there {b} {bs} {bs'} h f) u = Inserted-skip b bs' bs (Freed-regions f u)

pub Freed-used_total :
    {a : ℕ} {bs bs' : List Block} {t : Block}
    → Freed a bs t bs'
    → t.is_free ≡ false
    → used_total bs' + t.size ≡ used_total bs
Freed-used_total (here h) u = rw u (omega arith)
Freed-used_total (there {b} h f) u = omega (arith, Freed-used_total f u)

pub used_total-le : (p e : ℕ) (bs : List Block) → Tiled p e bs → p + used_total bs ≤ e
used_total-le p e [] t = omega arith
used_total-le p e (b ∷ bs) t = ground (arith, used_total-le (p + 20 + b.size) e bs t.3)

-- Each region lies behind a header of its own, above all that come before it, and below `e`.
abbrev pub Apart : ℕ → ℕ → List (ℕ × ℕ) → Type 0
Apart p e [] = p ≤ e
Apart p e ((a, n) ∷ rs) = (p + 20 ≤ a) × (a % 4 ≡ 0) × Apart (a + n) e rs

Apart-lower : (p q e : ℕ) (rs : List (ℕ × ℕ)) → p ≤ q → Apart q e rs → Apart p e rs
Apart-lower p q e [] h a = omega arith
Apart-lower p q e ((b, n) ∷ rs) h a = (omega (arith, a.0), a.1, a.2)

pub Tiled-Apart : (p e : ℕ) (bs : List Block) → p % 4 ≡ 0 → Tiled p e bs → Apart p e (regions bs)
Tiled-Apart p e [] h t = omega arith
Tiled-Apart p e (b ∷ bs) h t =
    go b.is_free (Tiled-Apart (p + 20 + b.size) e bs (omega (arith, t.2)) t.3)
  where
    go :
        (f : Bool)
        → Apart (p + 20 + b.size) e (regions bs)
        → Apart p e (if f then regions bs else (b.address, b.size) ∷ regions bs)
    go true a = Apart-lower p (p + 20 + b.size) e (regions bs) (omega arith) a
    go false a = (
      omega (arith, t.1),
      omega (arith, t.1),
      Apart-lower _ (p + 20 + b.size) e (regions bs) (omega (arith, t.1)) a,
    )

-- No region starts at `p`.
abbrev pub NotAt : ℕ → List (ℕ × ℕ) → Type 0
NotAt p [] = Unit {0}
NotAt p ((a, n) ∷ rs) = (a ≢ p) × NotAt p rs

NotAt-skip :
    (p : ℕ) (b : Block) (bs : List Block)
    → (b.is_free ≡ true) ⊎ (b.address ≢ p)
    → NotAt p (regions bs)
    → NotAt p (regions (b ∷ bs))
NotAt-skip p b bs (inl free) h = rw free h
NotAt-skip p b bs (inr ne) h = go b.is_free
  where
    go : (f : Bool) → NotAt p (if f then regions bs else (b.address, b.size) ∷ regions bs)
    go true = h
    go false = (ne, h)

pub find_none-NotAt : (p : ℕ) (bs : List Block) → find_block p bs ≡ none → NotAt p (regions bs)
unfolding find_block
find_none-NotAt p [] e = tt
find_none-NotAt p (b ∷ bs) e = elim (Bool-cases (b.address == p)) [
  | inl hit ↦ let found : some b ≡ none = rw hit at e in cc
  | inr miss ↦ NotAt-skip p b bs (inr (ground arith)) (find_none-NotAt p bs (rw miss at e))
]

pub NotAt-below : (p q e : ℕ) (bs : List Block) → p < q + 20 → Tiled q e bs → NotAt p (regions bs)
NotAt-below p q e [] h t = tt
NotAt-below p q e (b ∷ bs) h t =
    NotAt-skip p b bs (inr (omega (arith, t.1)))
      (NotAt-below p (q + 20 + b.size) e bs (omega arith) t.3)

-- A free block is in no region, nor does any other block start there.
pub Freed-NotAt :
    {a : ℕ} {bs bs' : List Block} {t : Block}
    → Freed a bs t bs'
    → (p e : ℕ) → Tiled p e bs
    → t.is_free ≡ true
    → NotAt a (regions bs)
Freed-NotAt {a} (here {b} {bs} h) p e t free =
    NotAt-skip a b bs (inl free) (NotAt-below a (p + 20 + b.size) e bs (omega (arith, t.1)) t.3)
Freed-NotAt {a} (there {b} {bs = bs} h f) p e t free =
    NotAt-skip a b bs (inr h) (Freed-NotAt f (p + 20 + b.size) e t.3 free)
