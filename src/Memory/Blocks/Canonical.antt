-- ===== src/Memory/Blocks/Canonical.antt =====
-- Block lists with the same regions in use.
use mathlib.Core.List.{head-eq_of_cons-eq, tail-eq_of_cons-eq}
use mathlib.Core.Path.{ap₂}
use os_simple.Base.{
  ℕ, ◌+◌, ◌-◌, ◌≡◌, refl, ap, sym, subst, ◌∙◌, Bool, true, false, List, [], ◌∷◌, Option, some, inl,
  inr, Bool-cases, arith,
}
use os_simple.Memory.Blocks.{Block}
use os_simple.Memory.Blocks.Tiling.{Tiled, Tiled-le, Tiled-from, Linked}
use os_simple.Memory.Blocks.Regions.{regions}
use os_simple.Memory.Blocks.Merging.{Alternates}

-- Where the header of the first region lies, or the end.
abbrev first_header : ℕ → List (ℕ × ℕ) → ℕ
first_header e [] = e
first_header e ((a, n) ∷ rs) = a - 20

-- Behind a free block the next one is in use, if there is one.
Tiled-first_header :
    (p e : ℕ) (bs : List Block)
    → Tiled p e bs
    → Alternates true bs
    → p ≡ first_header e (regions bs)
Tiled-first_header p e [] t a = t
Tiled-first_header p e (b ∷ bs) t a =
    let used : b.is_free ≡ false = a.0 in rw used (omega (arith, t.1))

block_ext :
    (b c : Block)
    → b.ptr ≡ c.ptr
    → b.address ≡ c.address
    → b.size ≡ c.size
    → b.is_free ≡ c.is_free
    → b.prev ≡ c.prev
    → b ≡ c
block_ext b c p a s f q =
    λ i. record { ptr = p i; address = a i; size = s i; is_free = f i; prev = q i }

-- A free block and a used one cannot start at the same place.
free_or_used :
    (p e : ℕ) (b c : Block) (bs cs : List Block)
    → Tiled p e (b ∷ bs)
    → Tiled p e (c ∷ cs)
    → Alternates true bs
    → b.is_free ≡ true
    → c.is_free ≡ false
    → regions (b ∷ bs) ≡ regions (c ∷ cs)
    → ⊥
free_or_used p e b c bs cs t u a free used same =
    let later = Tiled-first_header (p + 20 + b.size) e bs t.3 a in
    let heads : regions bs ≡ (c.address, c.size) ∷ regions cs = rw (free, used) at same in
    let clash : p + 20 + b.size ≡ c.address - 20 = later ∙ ap (first_header e) heads in
    omega (arith, u.1)

Alternates-after : (f g : Bool) (bs : List Block) → f ≡ g → Alternates f bs → Alternates g bs
Alternates-after f g bs e a = subst (λ x. Alternates x bs) e a

-- The first blocks of two tilings from the same place on, with the same regions in use.
first_same :
    (p e : ℕ) (b c : Block) (bs cs : List Block)
    → Tiled p e (b ∷ bs)
    → Tiled p e (c ∷ cs)
    → Alternates b.is_free bs
    → Alternates c.is_free cs
    → regions (b ∷ bs) ≡ regions (c ∷ cs)
    → (b.size ≡ c.size) × (b.is_free ≡ c.is_free) × (regions bs ≡ regions cs)
first_same p e b c bs cs t u a d same = elim (Bool-cases b.is_free) [
  | inl free ↦
      let after = Alternates-after b.is_free true bs free a in
      elim (Bool-cases c.is_free) [
        | inl also ↦
            let rest : regions bs ≡ regions cs = rw (free, also) at same in
            let one = Tiled-first_header (p + 20 + b.size) e bs t.3 after in
            let two =
              Tiled-first_header (p + 20 + c.size) e cs u.3
                (Alternates-after c.is_free true cs also d) in
            let end : p + 20 + b.size ≡ p + 20 + c.size =
              one ∙ ap (first_header e) rest ∙ sym two in
            (omega (arith, end), free ∙ sym also, rest)
        | inr used ↦ absurd (free_or_used p e b c bs cs t u after free used same)
      ]
  | inr taken ↦ elim (Bool-cases c.is_free) [
    | inl free ↦
        let after = Alternates-after c.is_free true cs free d in
        absurd (free_or_used p e c b cs bs u t after free taken (sym same))
    | inr used ↦
        let heads : (b.address, b.size) ∷ regions bs ≡ (c.address, c.size) ∷ regions cs =
          rw (taken, used) at same in
        (ap (λ x. x.1) (head-eq_of_cons-eq heads), taken ∙ sym used, tail-eq_of_cons-eq heads)
  ]
]

-- Two tilings from the same place on, linked from the same block on, without free neighbours, and with
-- the same regions in use, are equal.
pub Tiled-unique :
    (p e : ℕ) (q : Option ℕ) (f : Bool) (bs cs : List Block)
    → Tiled p e bs
    → Tiled p e cs
    → Linked q bs
    → Linked q cs
    → Alternates f bs
    → Alternates f cs
    → regions bs ≡ regions cs
    → bs ≡ cs
Tiled-unique p e q f [] [] t u l m a d same = refl
Tiled-unique p e q f [] (c ∷ cs) t u l m a d same =
    let far = Tiled-le (p + 20 + c.size) e cs u.3 in absurd (omega arith)
Tiled-unique p e q f (b ∷ bs) [] t u l m a d same =
    let far = Tiled-le (p + 20 + b.size) e bs t.3 in absurd (omega arith)
Tiled-unique p e q f (b ∷ bs) (c ∷ cs) t u l m a d same =
    let first = first_same p e b c bs cs t u a.1 d.1 same in
    let ptr : b.ptr ≡ c.ptr = t.0 ∙ sym u.0 in
    let address : b.address ≡ c.address = t.1 ∙ sym u.1 in
    let prev : b.prev ≡ c.prev = l.0 ∙ sym m.0 in
    let end : p + 20 + c.size ≡ p + 20 + b.size = ap (λ n. p + 20 + n) (sym first.0) in
    ap₂ ◌∷◌ (block_ext b c ptr address first.0 first.1 prev) (
      Tiled-unique (p + 20 + b.size) e (some b.ptr) b.is_free bs cs t.3 (Tiled-from e cs end u.3)
        l.1 (subst (λ x. Linked (some x) cs) (sym ptr) m.1) a.1
        (Alternates-after c.is_free b.is_free cs (sym first.1) d.1) first.2)
